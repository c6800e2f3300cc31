-- ===== src/Admin/Pages/Users/Shared.antt =====
-- The password that ResetPasswordDialog of server/admin/src/routes/users.tsx asks to share.
use chimely.Prelude.{
  String, true, false, not, ◌&&◌, ◌||◌, ◌⊎◌, Option, none, some, List, [], ◌∷◌, ◌++◌, if◌then◌else◌,
  is_some, ◌≡◌, refl, sym, ap, ◌∙◌, Bool-cases, inl, inr, none-some,
}
use chimely.Admin.Records.{AdminUserView}
use chimely.Admin.Api.{Outcome, value}
use chimely.Admin.Pages.{is_success}
use chimely.Admin.Pages.Users.{
  ResetPassword, new_reset, close_reset, sets_password, reset_settles, ResetEvent, step_reset,
  reset_open, presses_set, set_settles,
}

-- The dialog behind its events, the latest first.
abbrev pub reset_after : AdminUserView → String → List ResetEvent → ResetPassword
reset_after user password [] = new_reset password
reset_after user password (event ∷ past) = step_reset user event (reset_after user password past)

-- The password that a call set, if it settles well.
abbrev taken : Outcome Unit → Option String → Option String → Option String
taken outcome none before = before
taken outcome (some password) before = if is_success outcome then some password else before

-- The password of the account, as far as the dialog set it.
abbrev pub account_password : AdminUserView → String → List ResetEvent → Option String
account_password user password [] = none
account_password user password (set_settles outcome ∷ past) =
    taken outcome (reset_after user password past).pending (account_password user password past)
account_password user password (reset_open o fresh ∷ past) = account_password user password past
account_password user password (presses_set ∷ past) = account_password user password past

-- The dialog is not closed while its call is under way.
abbrev pub Attended : AdminUserView → String → List ResetEvent → Type 0
Attended user password [] = Unit
Attended user password (reset_open o fresh ∷ past) =
    ((o || not (is_some (reset_after user password past).pending)) ≡ true)
    × Attended user password past
Attended user password (presses_set ∷ past) = Attended user password past
Attended user password (set_settles outcome ∷ past) = Attended user password past

abbrev Right : ResetPassword → Option String → Type 0
Right dialog account =
    ((dialog.done ≡ false) ⊎ (account ≡ some dialog.password))
    × ((dialog.pending ≡ none) ⊎ (dialog.pending ≡ some dialog.password))

no_pending : (pending : Option String) → (false || not (is_some pending)) ≡ true → pending ≡ none
no_pending none h = refl
no_pending (some p) h = let no : ⊥ = cc in elim no [ ]

settled-Right :
    (outcome : Outcome Unit) (dialog : ResetPassword) (account pending : Option String)
    → dialog.pending ≡ pending
    → Right dialog account
    → Right (reset_settles outcome dialog) (taken outcome dialog.pending account)
unfolding reset_settles
settled-Right outcome dialog account none e h = rw e (h.0, inl refl)
settled-Right outcome dialog account (some p) e h =
    let same : some p ≡ some dialog.password = elim h.1 [
      | inl k ↦ elim (none-some (sym k ∙ e)) [ ]
      | inr k ↦ sym e ∙ k
    ] in
    elim (Bool-cases (is_success outcome)) [
      | inl k ↦ rw (e, k) (inr same, inl refl)
      | inr k ↦ rw (e, k) (h.0, inl refl)
    ]

reset_after-Right :
    (user : AdminUserView) (password : String) (past : List ResetEvent)
    → Attended user password past
    → Right (reset_after user password past) (account_password user password past)
unfolding close_reset sets_password reset_settles
reset_after-Right user password [] h = (inl refl, inl refl)
reset_after-Right user password (reset_open true fresh ∷ past) h =
    reset_after-Right user password past h.1
reset_after-Right user password (reset_open false fresh ∷ past) h =
    (inl refl, inl (no_pending (reset_after user password past).pending h.0))
reset_after-Right user password (presses_set ∷ past) h =
    let dialog = reset_after user password past in
    elim (Bool-cases (dialog.is_open && (not dialog.done && not (is_some dialog.pending)))) [
      | inl e ↦ rw e ((reset_after-Right user password past h).0, inr refl)
      | inr e ↦ rw e (reset_after-Right user password past h)
    ]
reset_after-Right user password (set_settles outcome ∷ past) h =
    settled-Right outcome (reset_after user password past) (account_password user password past)
      (reset_after user password past).pending refl (reset_after-Right user password past h)

-- After every history in which the dialog is not closed while its call is under way: where it says that
-- the password is updated, the password that it shows is the account's.
pub shown_password :
    (user : AdminUserView) (password : String) (past : List ResetEvent)
    → Attended user password past
    → (reset_after user password past).done ≡ true
    → account_password user password past ≡ some (reset_after user password past).password
shown_password user password past h e = elim (reset_after-Right user password past h).0 [
  | inl k ↦ let no : ⊥ = cc in elim no [ ]
  | inr k ↦ k
]

-- Opening and closing, each closing with the password that it makes up.
abbrev pub Toggles : List ResetEvent → Type 0
Toggles [] = Unit
Toggles (reset_open o fresh ∷ between) = Toggles between
Toggles (presses_set ∷ between) = ⊥
Toggles (set_settles outcome ∷ between) = ⊥

-- The password that was made up last, the latest event first.
abbrev pub made_last : String → List ResetEvent → String
made_last password [] = password
made_last password (reset_open false fresh ∷ between) = fresh
made_last password (event ∷ between) = made_last password between

toggled :
    (user : AdminUserView) (password : String) (past between : List ResetEvent)
    → Toggles between
    → ((reset_after user password (between ++ past)).pending
        ≡ (reset_after user password past).pending)
      × ((reset_after user password (between ++ past)).password
          ≡ made_last (reset_after user password past).password between)
      × (account_password user password (between ++ past) ≡ account_password user password past)
unfolding close_reset
toggled user password past [] h = (refl, refl, refl)
toggled user password past (reset_open true fresh ∷ between) h =
    toggled user password past between h
toggled user password past (reset_open false fresh ∷ between) h =
    let rest = toggled user password past between h in (rest.0, refl, rest.2)
toggled user password past (presses_set ∷ between) h = absurd h
toggled user password past (set_settles outcome ∷ between) h = absurd h

-- After any history, where the dialog is open, does not say that it is done and has no call under way:
-- "Set password" is pressed, the dialog is opened and closed in any way, and the call settles well. It
-- says then that the password is updated, the account has the password that was shown when it was
-- pressed, and what is shown is the password made up at the last closing since, if there was one.
pub closed_early :
    (user : AdminUserView) (password : String) (past between : List ResetEvent)
    → (reset_after user password past).is_open ≡ true
    → (reset_after user password past).done ≡ false
    → (reset_after user password past).pending ≡ none
    → Toggles between
    → let pressed = presses_set ∷ past in
      let settled = set_settles (value tt) ∷ (between ++ pressed) in
      let dialog = reset_after user password past in
      ((reset_after user password settled).done ≡ true)
      × (account_password user password settled ≡ some dialog.password)
      × ((reset_after user password settled).password ≡ made_last dialog.password between)
unfolding close_reset sets_password reset_settles
closed_early user password past between o d n h =
    let before = reset_after user password past in
    let pressed : ((step_reset user presses_set before).pending ≡ some before.password)
        × ((step_reset user presses_set before).password ≡ before.password) =
      rw (o, d, n) (refl, refl) in
    let (pending, shown, account) = toggled user password (presses_set ∷ past) between h in
    let under_way = pending ∙ pressed.0 in
    let kept = shown ∙ ap (λ from. made_last from between) pressed.1 in
    rw (under_way, taken) (refl, refl, kept)
