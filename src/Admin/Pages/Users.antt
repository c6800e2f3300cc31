-- ===== src/Admin/Pages/Users.antt =====
-- server/admin/src/routes/users.tsx: the page, a row of its table with the dialogs of the row, and the
-- dialog for a new user. A password that the page makes up comes with the event.
pub mod Own
pub mod Shared
use chimely.Prelude.{
  String, Bool, true, false, not, ◌&&◌, ◌||◌, Option, none, some, List, [], ◌∷◌, if◌then◌else◌,
  str_eq, is_some,
}
use chimely.Admin.Records.{AdminRole, viewer, AdminMe, AdminUserView}
use chimely.Admin.Api.{ApiError, Outcome, value, undefined, thrown, request_error}
use chimely.Admin.Api.Endpoints.{Endpoint, update_user, set_user_password, delete_user, create_user}
use chimely.Admin.Session.{user_manage, has}
use chimely.Admin.Pages.{
  Toast, success_toast, error_toast, Log, empty_log, send, toast, invalidate, fail_message,
  is_success, Confirm, new_confirm, confirm_open, confirm_sends, confirm_settles,
}

-- What `UsersRoute` asks for and shows.
unfoldable pub lists_users : AdminMe → Bool
lists_users user = has user user_manage

abbrev pub users_key : List String
users_key = "admin-users" ∷ []

pub record ResetPassword : Type 0 where
  pub is_open : Bool
  pub password : String
  pub done : Bool
  pub pending : Option String
  pub log : Log

abbrev pub new_reset : String → ResetPassword
new_reset password = record {
  is_open = false;
  password = password;
  done = false;
  pending = none;
  log = empty_log;
}

-- `close` of ResetPasswordDialog, with the next password.
unfoldable pub close_reset : Bool → String → ResetPassword → ResetPassword
close_reset o fresh dialog =
    if o
    then record dialog { is_open = true }
    else record dialog { is_open = false; password = fresh; done = false }

-- The button that sets the password, which is there until it is done.
unfoldable pub sets_password : AdminUserView → ResetPassword → ResetPassword
sets_password user dialog =
    if dialog.is_open && (not dialog.done && not (is_some dialog.pending))
    then record dialog {
      pending = some dialog.password;
      log = send (set_user_password user.id dialog.password) dialog.log;
    }
    else dialog

unfoldable pub reset_settles : Outcome Unit → ResetPassword → ResetPassword
reset_settles outcome dialog =
    if not (is_some dialog.pending)
    then dialog
    else if is_success outcome
    then record dialog {
      done = true;
      pending = none;
      log = toast (success_toast "Password reset — share it now") dialog.log;
    }
    else record dialog {
      pending = none;
      log = toast (error_toast (fail_message "Request failed" outcome)) dialog.log;
    }

pub data ResetEvent : Type 0 where
  reset_open : Bool → (fresh : String) → ResetEvent
  presses_set : ResetEvent
  set_settles : Outcome Unit → ResetEvent

abbrev pub step_reset : AdminUserView → ResetEvent → ResetPassword → ResetPassword
step_reset user (reset_open o fresh) dialog = close_reset o fresh dialog
step_reset user presses_set dialog = sets_password user dialog
step_reset user (set_settles outcome) dialog = reset_settles outcome dialog

pub record UserRow : Type 0 where
  pub role_pending : Bool
  pub disable_pending : Bool
  pub log : Log
  pub reset : ResetPassword
  pub delete : Confirm

abbrev pub new_row : String → UserRow
new_row password = record {
  role_pending = false;
  disable_pending = false;
  log = empty_log;
  reset = new_reset password;
  delete = new_confirm;
}

pub data RowEvent : Type 0 where
  picks_role : AdminRole → RowEvent
  role_settles : Outcome AdminUserView → RowEvent
  presses_disable : RowEvent
  disable_settles : Outcome AdminUserView → RowEvent
  resets : ResetEvent → RowEvent
  delete_open : Bool → RowEvent
  presses_delete : RowEvent
  delete_settles : Outcome Unit → RowEvent

abbrev pub role_result : Outcome AdminUserView → Toast
role_result outcome =
    if is_success outcome
    then success_toast "Role updated"
    else error_toast (fail_message "Request failed" outcome)

-- `onSuccess` reads a field of the user, so with none it throws.
abbrev pub disable_result : Outcome AdminUserView → Log → Log
disable_result (value u) log =
    invalidate users_key
      (toast (success_toast (if u.disabled then "User disabled" else "User enabled")) log)
disable_result outcome log = toast (error_toast (fail_message "Request failed" outcome)) log

-- One event of a row, which shows `user` to the user of an id.
unfoldable pub step_row : AdminUserView → String → RowEvent → UserRow → UserRow
step_row user self_id (picks_role role) row = if row.role_pending then row else record row {
  role_pending = true;
  log = send (update_user user.id none (some role) none) row.log;
}
step_row user self_id (role_settles outcome) row =
    if row.role_pending
    then record row {
      role_pending = false;
      log = invalidate users_key (toast (role_result outcome) row.log);
    }
    else row
step_row user self_id presses_disable row =
    if str_eq user.id self_id || row.disable_pending then row else record row {
      disable_pending = true;
      log = send (update_user user.id none none (some (not user.disabled))) row.log;
    }
step_row user self_id (disable_settles outcome) row =
    if row.disable_pending
    then record row { disable_pending = false; log = disable_result outcome row.log }
    else row
step_row user self_id (resets event) row = record row { reset = step_reset user event row.reset }
step_row user self_id (delete_open o) row = record row {
  delete = confirm_open (str_eq user.id self_id) o row.delete;
}
step_row user self_id presses_delete row = record row {
  delete = confirm_sends (delete_user user.id) row.delete;
}
step_row user self_id (delete_settles outcome) row = record row {
  delete = confirm_settles "User deleted" "Request failed" users_key outcome row.delete;
}

-- A row behind the events on it, the latest first, each with the user that the row shows then.
abbrev pub row_after : String → String → List (AdminUserView × RowEvent) → UserRow
row_after self_id password [] = new_row password
row_after self_id password ((user, event) ∷ past) =
    step_row user self_id event (row_after self_id password past)
