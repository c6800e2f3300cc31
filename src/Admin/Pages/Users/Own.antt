-- ===== src/Admin/Pages/Users/Own.antt =====
-- Nobody disables or deletes their own account on server/admin/src/routes/users.tsx.
use chimely.Prelude.{
  String, Bool, true, false, not, ◌&&◌, some, List, [], ◌∷◌, str_eq, is_some, all, All, ◌≡◌, refl,
  Bool-cases, inl, inr,
}
use chimely.Admin.Records.{AdminUserView}
use chimely.Admin.Api.{Outcome, value, undefined, thrown, request_error}
use chimely.Admin.Api.Endpoints.{Endpoint}
use chimely.Admin.Pages.{Log, is_success}
use chimely.Admin.Pages.Users.{
  ResetEvent, step_reset, resets, ResetPassword, close_reset, sets_password, reset_settles, UserRow,
  RowEvent, picks_role, role_settles, presses_disable, disable_settles, reset_open, presses_set,
  set_settles, delete_open, presses_delete, delete_settles, disable_result, step_row, row_after,
}

-- A call that takes an account away from its user.
abbrev pub shuts_out : Endpoint → Bool
shuts_out (Endpoint.delete_user id) = true
shuts_out (Endpoint.update_user id name role (some disabled)) = true
shuts_out _ = false

-- No call of a log does.
abbrev pub keeps : Log → Bool
keeps log = all (λ endpoint. not (shuts_out endpoint)) log.sent

abbrev pub Own : UserRow → Type 0
Own row =
    (keeps row.log ≡ true)
    × (keeps row.reset.log ≡ true)
    × (keeps row.delete.log ≡ true)
    × (row.delete.is_open ≡ false)

sets_password-keeps :
    (user : AdminUserView) (dialog : ResetPassword)
    → keeps dialog.log ≡ true
    → keeps (sets_password user dialog).log ≡ true
unfolding sets_password
sets_password-keeps user dialog h =
    elim (Bool-cases (dialog.is_open && (not dialog.done && not (is_some dialog.pending)))) [
      | inl e ↦ rw e h
      | inr e ↦ rw e h
    ]

close_reset-keeps :
    (o : Bool) (fresh : String) (dialog : ResetPassword)
    → keeps dialog.log ≡ true
    → keeps (close_reset o fresh dialog).log ≡ true
unfolding close_reset
close_reset-keeps true fresh dialog h = h
close_reset-keeps false fresh dialog h = h

reset_settles-keeps :
    (outcome : Outcome Unit) (dialog : ResetPassword)
    → keeps dialog.log ≡ true
    → keeps (reset_settles outcome dialog).log ≡ true
unfolding reset_settles
reset_settles-keeps outcome dialog h = elim (Bool-cases (not (is_some dialog.pending))) [
  | inl e ↦ rw e h
  | inr e ↦ elim (Bool-cases (is_success outcome)) [ inl k ↦ rw (e, k) h | inr k ↦ rw (e, k) h ]
]

step_reset-keeps :
    (user : AdminUserView) (event : ResetEvent) (dialog : ResetPassword)
    → keeps dialog.log ≡ true
    → keeps (step_reset user event dialog).log ≡ true
step_reset-keeps user (reset_open o fresh) dialog h = close_reset-keeps o fresh dialog h
step_reset-keeps user presses_set dialog h = sets_password-keeps user dialog h
step_reset-keeps user (set_settles outcome) dialog h = reset_settles-keeps outcome dialog h

disable_result-keeps :
    (outcome : Outcome AdminUserView) (log : Log)
    → keeps log ≡ true
    → keeps (disable_result outcome log) ≡ true
disable_result-keeps (value u) log h = h
disable_result-keeps undefined log h = h
disable_result-keeps thrown log h = h
disable_result-keeps (request_error e) log h = h

step_row-Own :
    (user : AdminUserView) (self_id : String) (event : RowEvent) (row : UserRow)
    → str_eq user.id self_id ≡ true
    → Own row
    → Own (step_row user self_id event row)
unfolding step_row
step_row-Own user self_id (picks_role role) row e h = elim (Bool-cases row.role_pending) [
  | inl k ↦ rw k h
  | inr k ↦ rw k h
]
step_row-Own user self_id (role_settles outcome) row e h = elim (Bool-cases row.role_pending) [
  | inl k ↦ rw k h
  | inr k ↦ rw k h
]
step_row-Own user self_id presses_disable row e h = rw e h
step_row-Own user self_id (disable_settles outcome) row e h =
    elim (Bool-cases row.disable_pending) [
      | inl k ↦ rw k (disable_result-keeps outcome row.log h.0, h.1, h.2, h.3)
      | inr k ↦ rw k h
    ]
step_row-Own user self_id (resets event) row e h =
    (h.0, step_reset-keeps user event row.reset h.1, h.2, h.3)
step_row-Own user self_id (delete_open true) row e h = rw e h
step_row-Own user self_id (delete_open false) row e h = (h.0, h.1, h.2, refl)
step_row-Own user self_id presses_delete row e h = rw h.3 (h.0, h.1, h.2, refl)
step_row-Own user self_id (delete_settles outcome) row e h =
    elim (Bool-cases (not row.delete.is_pending)) [
      | inl k ↦ rw k h
      | inr k ↦ elim (Bool-cases (is_success outcome)) [
        | inl s ↦ rw (k, s) (h.0, h.1, h.2, refl)
        | inr s ↦ rw (k, s) h
      ]
    ]

-- After every history of events on the row of the user's own account, whatever the row shows, no call
-- has been sent from it that deletes the account or changes whether it is disabled, and the dialog that
-- deletes it is closed.
pub row_after-Own :
    (self_id password : String) (past : List (AdminUserView × RowEvent))
    → All (λ x. str_eq x.0.id self_id ≡ true) past
    → Own (row_after self_id password past)
row_after-Own self_id password [] h = (refl, refl, refl, refl)
row_after-Own self_id password ((user, event) ∷ past) h =
    step_row-Own user self_id event (row_after self_id password past) h.0
      (row_after-Own self_id password past h.1)
