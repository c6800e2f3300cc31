-- ===== src/Admin/Pages/Environment/Laws.antt =====
-- What the page of server/admin/src/routes/environment-detail.tsx shows to whom, and for how long.
use chimely.Prelude.{
  String, Bool, true, false, not, Option, none, some, List, [], ◌∷◌, ◌++◌, All, is_some, ◌≡◌, refl,
  sym, ap, Bool-cases, inl, inr, any,
}
use chimely.Admin.Records.{AdminMe, AdminApiKeyCreated}
use chimely.Admin.Api.{value}
use chimely.Admin.Session.{Capability, apikey_read, env_read_secret, has}
use chimely.Admin.Pages.Environment.{
  DetailTab, keys, hmac, detail_tabs, first_tab, CreateKey, KeyEvent, key_open, edits_name,
  submits_key, key_settles, step_key, key_after,
}

-- The capability that a tab asks for.
abbrev pub needs : DetailTab → Capability
needs keys = apikey_read
needs hmac = env_read_secret

abbrev pub same_tab : DetailTab → DetailTab → Bool
same_tab keys keys = true
same_tab hmac hmac = true
same_tab _ _ = false

abbrev pub first : List DetailTab → Option DetailTab
first [] = none
first (tab ∷ tabs) = some tab

both_listed :
    (user : AdminMe) (tab : DetailTab)
    → has user apikey_read ≡ true
    → has user env_read_secret ≡ true
    → any (same_tab tab) (keys ∷ hmac ∷ []) ≡ has user (needs tab)
both_listed user keys k s = sym k
both_listed user hmac k s = sym s

keys_listed :
    (user : AdminMe) (tab : DetailTab)
    → has user apikey_read ≡ true
    → has user env_read_secret ≡ false
    → any (same_tab tab) (keys ∷ []) ≡ has user (needs tab)
keys_listed user keys k s = sym k
keys_listed user hmac k s = sym s

hmac_listed :
    (user : AdminMe) (tab : DetailTab)
    → has user apikey_read ≡ false
    → has user env_read_secret ≡ true
    → any (same_tab tab) (hmac ∷ []) ≡ has user (needs tab)
hmac_listed user keys k s = sym k
hmac_listed user hmac k s = sym s

none_listed :
    (user : AdminMe) (tab : DetailTab)
    → has user apikey_read ≡ false
    → has user env_read_secret ≡ false
    → any (same_tab tab) ([]) ≡ has user (needs tab)
none_listed user keys k s = sym k
none_listed user hmac k s = sym s

-- A user sees the tabs that their capabilities allow, and no other, and the page opens on the first of
-- them; it shows the note on read-only access where there is none.
tabs_allowed :
    (user : AdminMe) (tab : DetailTab)
    → (any (same_tab tab) (detail_tabs user) ≡ has user (needs tab))
      × (first_tab user ≡ first (detail_tabs user))
unfolding detail_tabs first_tab
tabs_allowed user tab = elim (Bool-cases (has user apikey_read)) [
  | inl k ↦ elim (Bool-cases (has user env_read_secret)) [
    | inl s ↦ rw (k, s) (both_listed user tab k s, refl)
    | inr s ↦ rw (k, s) (keys_listed user tab k s, refl)
  ]
  | inr k ↦ elim (Bool-cases (has user env_read_secret)) [
    | inl s ↦ rw (k, s) (hmac_listed user tab k s, refl)
    | inr s ↦ rw (k, s) (none_listed user tab k s, refl)
  ]
]

-- The event does not close the dialog.
abbrev pub leaves_open : KeyEvent → Bool
leaves_open (key_open o) = o
leaves_open _ = true

-- The key is there, and no request that could replace it.
abbrev Holds : AdminApiKeyCreated → CreateKey → Type 0
Holds key dialog = (dialog.created ≡ some key) × (dialog.is_pending ≡ false)

step_key-Holds :
    (env_id : String) (key : AdminApiKeyCreated) (event : KeyEvent) (dialog : CreateKey)
    → leaves_open event ≡ true
    → Holds key dialog
    → Holds key (step_key env_id event dialog)
unfolding step_key
step_key-Holds env_id key (key_open true) dialog e h = h
step_key-Holds env_id key (key_open false) dialog e h = let no : ⊥ = cc in elim no [ ]
step_key-Holds env_id key (edits_name name) dialog e h =
    let there : is_some dialog.created ≡ true = ap is_some h.0 in rw there h
step_key-Holds env_id key submits_key dialog e h =
    let there : is_some dialog.created ≡ true = ap is_some h.0 in
    elim (Bool-cases dialog.is_open) [ inl k ↦ rw (k, there) h | inr k ↦ rw k h ]
step_key-Holds env_id key (key_settles outcome) dialog e h =
    let settled : not dialog.is_pending ≡ true = ap not h.1 in rw settled h

key_after-Holds :
    (env_id : String) (key : AdminApiKeyCreated) (past later : List KeyEvent)
    → (key_after env_id past).is_pending ≡ true
    → All (λ event. leaves_open event ≡ true) later
    → Holds key (key_after env_id (later ++ key_settles (value key) ∷ past))
unfolding step_key
key_after-Holds env_id key past [] e h = rw e (refl, refl)
key_after-Holds env_id key past (event ∷ later) e h =
    step_key-Holds env_id key event (key_after env_id (later ++ key_settles (value key) ∷ past)) h.0
      (key_after-Holds env_id key past later e h.1)

-- A key that has been created stays in the dialog through whatever follows, until it is closed: also
-- where the dialog was closed while the request was under way.
pub created_key_stays :
    (env_id : String) (key : AdminApiKeyCreated) (past later : List KeyEvent)
    → (key_after env_id past).is_pending ≡ true
    → All (λ event. leaves_open event ≡ true) later
    → (key_after env_id (later ++ key_settles (value key) ∷ past)).created ≡ some key
created_key_stays env_id key past later e h = (key_after-Holds env_id key past later e h).0
