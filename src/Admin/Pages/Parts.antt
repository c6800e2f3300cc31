-- ===== src/Admin/Pages/Parts.antt =====
-- Parts of the pages in server/admin/src/components: Async of states.tsx, CopyField of copy-field.tsx,
-- and the links of env-nav.tsx and layout.tsx; and formatTs of server/admin/src/lib/utils.ts.
use chimely.Prelude.{
  ℕ, zero, suc, min, String, Bool, true, false, not, Option, none, some, List, [], ◌∷◌,
  if◌then◌else◌, length, filter, or_else, str_eq, ◌≡◌, refl, ap, ◌∙◌,
}
use chimely.Prelude.Units.{Units}
use chimely.Admin.Records.{AdminMe}
use chimely.Admin.Session.{Capability, read, broadcast_compose, user_manage, has}

-- A query of the library, whose error may be no Error.
pub record Query (A : Type 0) : Type 0 where
  pub is_loading : Bool
  pub is_error : Bool
  pub error_message : Option String
  pub result : Option A

pub data AsyncView (A : Type 0) : Type 0 where
  table_skeleton : AsyncView A
  error_state : (message : String) → AsyncView A
  empty_state : (title : String) → AsyncView A
  content : A → AsyncView A

unfoldable pub async_view : {A : Type 0} → Option String → Query A → AsyncView A
async_view empty_title query =
    if query.is_loading
    then table_skeleton
    else if query.is_error
    then error_state (or_else query.error_message "Request failed")
    else elim query.result [
      | none ↦ empty_state (or_else empty_title "No data")
      | some a ↦ content a
    ]

-- `formatTs` of lib/utils.ts. `time_of` is the time of `new Date(ts)`, if it has one, and `shown` its
-- text in the locale.
unfoldable format_ts : (time_of : String → Option ℕ) → (shown : ℕ → String) → Option String → String
format_ts time_of shown none = "—"
format_ts time_of shown (some ts) =
    if str_eq ts "" then "—" else elim (time_of ts) [ none ↦ ts | some time ↦ shown time ]

pub record CopyField : Type 0 where
  pub copied : Bool
  pub revealed : Bool

abbrev pub new_field : Bool → CopyField
new_field maskable = record { copied = false; revealed = not maskable }

pub data FieldEvent : Type 0 where
  toggles_reveal : FieldEvent
  copies : (written : Bool) → FieldEvent
  copied_timeout : FieldEvent

-- The eye is there where the field is maskable; the clipboard may refuse.
unfoldable pub step_field : Bool → FieldEvent → CopyField → CopyField
step_field maskable toggles_reveal field =
    if maskable then record field { revealed = not field.revealed } else field
step_field maskable (copies written) field =
    if written then record field { copied = true } else field
step_field maskable copied_timeout field = record field { copied = false }

abbrev pub field_after : Bool → List FieldEvent → CopyField
field_after maskable [] = new_field maskable
field_after maskable (event ∷ past) = step_field maskable event (field_after maskable past)

-- `'•'.repeat(n)`.
unfoldable pub bullets : ℕ → Units
bullets zero = []
bullets (suc n) = 0x2022 ∷ bullets n

-- What the input shows.
unfoldable pub field_text : CopyField → Units → Units
field_text field secret = if field.revealed then secret else bullets (min (length secret) 32)

pub record NavLink : Type 0 where
  pub label : String
  pub exact : Bool
  pub cap : Capability

abbrev pub link : String → Bool → Capability → NavLink
link label exact cap = record { label = label; exact = exact; cap = cap }

-- `TABS` of env-nav.tsx.
abbrev pub tabs : List NavLink
tabs =
    link "Overview" true read
    ∷ link "Notifications" false read
    ∷ link "Broadcast" false broadcast_compose
    ∷ link "Subscriber lookup" false read
    ∷ []

-- The links of layout.tsx.
abbrev pub nav : List NavLink
nav =
    link "Dashboard" true read
    ∷ link "Environments" false read
    ∷ link "Dead-letter queue" true read
    ∷ link "Users" false user_manage
    ∷ []

unfoldable pub links_for : AdminMe → List NavLink → List NavLink
links_for user links = filter (λ l. has user l.cap) links

-- How often the eye has been pressed, as a parity.
abbrev pub is_revealed : List FieldEvent → Bool
is_revealed [] = false
is_revealed (toggles_reveal ∷ past) = not (is_revealed past)
is_revealed (_ ∷ past) = is_revealed past

field_after-revealed :
    (past : List FieldEvent) → (field_after true past).revealed ≡ is_revealed past
unfolding step_field
field_after-revealed [] = refl
field_after-revealed (toggles_reveal ∷ past) = ap not (field_after-revealed past)
field_after-revealed (copies true ∷ past) = field_after-revealed past
field_after-revealed (copies false ∷ past) = field_after-revealed past
field_after-revealed (copied_timeout ∷ past) = field_after-revealed past

length-bullets : (n : ℕ) → length (bullets n) ≡ n
unfolding bullets
length-bullets zero = refl
length-bullets (suc n) = ap suc (length-bullets n)

-- After every history of a maskable field in which the eye was pressed an even number of times, two
-- secrets show the same text if they are of the same length, or both of 32 units or more: nothing of a
-- masked secret shows but its length up to 32.
pub masked_tells_length :
    (past : List FieldEvent) (secret other : Units)
    → is_revealed past ≡ false
    → min (length secret) 32 ≡ min (length other) 32
    → (field_text (field_after true past) secret ≡ field_text (field_after true past) other)
      × (length (field_text (field_after true past) secret) ≡ min (length secret) 32)
unfolding field_text
masked_tells_length past secret other h e =
    let hidden : (field_after true past).revealed ≡ false = field_after-revealed past ∙ h in
    rw hidden (ap bullets e, length-bullets (min (length secret) 32))
