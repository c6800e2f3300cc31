-- ===== src/Admin/Pages/NewUser.antt =====
-- NewUserDialog of server/admin/src/routes/users.tsx. Which closure `useMutation` calls when the request
-- has settled, the one of the submission or the one of the latest render, is its library's.
use chimely.Prelude.{
  String, Bool, true, false, not, ◌&&◌, ◌||◌, Option, none, some, if◌then◌else◌, is_some, ◌≡◌, refl,
  ap, Bool-cases, inl, inr,
}
use chimely.Admin.Records.{AdminRole, viewer, AdminUserView}
use chimely.Admin.Api.{Outcome}
use chimely.Admin.Api.Endpoints.{create_user}
use chimely.Admin.Pages.{
  success_toast, error_toast, Log, empty_log, send, toast, invalidate, fail_message, is_success,
}
use chimely.Admin.Pages.Users.{users_key}

pub record UserForm : Type 0 where
  pub email : String
  pub name : String
  pub role : AdminRole
  pub password : String

pub record NewUser : Type 0 where
  pub is_open : Bool
  pub form : UserForm
  pub created : Option (String × String)
  pub pending : Option UserForm
  pub log : Log

abbrev pub blank : String → UserForm
blank password = record { email = ""; name = ""; role = viewer; password = password }

abbrev pub new_dialog : String → NewUser
new_dialog password = record {
  is_open = false;
  form = blank password;
  created = none;
  pending = none;
  log = empty_log;
}

-- `close`, with the password that `reset` makes up.
unfoldable pub close_new : Bool → String → NewUser → NewUser
close_new o fresh dialog =
    if o
    then record dialog { is_open = true }
    else record dialog { is_open = false; form = blank fresh; created = none }

-- The form is there until the user is created.
unfoldable pub edit_new : (UserForm → UserForm) → NewUser → NewUser
edit_new change dialog =
    if is_some dialog.created || not dialog.is_open
    then dialog
    else record dialog { form = change dialog.form }

unfoldable pub submit_new : NewUser → NewUser
submit_new dialog =
    if dialog.is_open && (not (is_some dialog.created) && not (is_some dialog.pending))
    then record dialog {
      pending = some dialog.form;
      log =
          send
            (create_user dialog.form.email dialog.form.name dialog.form.role dialog.form.password)
            dialog.log;
    }
    else dialog

module _ (closure : (submitted current : UserForm) → UserForm) where
  abbrev pub created_by : UserForm → NewUser → NewUser
  created_by submitted dialog =
      let form = closure submitted dialog.form in
      record dialog {
        created = some (form.email, form.password);
        pending = none;
        log =
            invalidate users_key
              (toast (success_toast "User created — share the temporary password now") dialog.log);
      }

  abbrev pub create_ends : Option UserForm → Outcome AdminUserView → NewUser → NewUser
  create_ends none outcome dialog = dialog
  create_ends (some submitted) outcome dialog =
      if is_success outcome then created_by submitted dialog else record dialog {
        pending = none;
        log = toast (error_toast (fail_message "Request failed" outcome)) dialog.log;
      }

  unfoldable pub create_settles : Outcome AdminUserView → NewUser → NewUser
  create_settles outcome dialog = create_ends dialog.pending outcome dialog

-- Whichever closure the library calls: if the form is as it was submitted when the request has settled
-- well, the email and the password to share are those that were sent; if the request fails, the form
-- stays for another try.
create_settles_lem :
    (closure : (submitted current : UserForm) → UserForm)
    → ((form : UserForm) → closure form form ≡ form)
    → (outcome : Outcome AdminUserView) (dialog : NewUser) → dialog.pending ≡ some dialog.form
    → let after = create_settles closure outcome dialog in
      (after.form ≡ dialog.form)
      × (after.pending ≡ none)
      × (after.created ≡ (
          if is_success outcome
          then some (dialog.form.email, dialog.form.password)
          else dialog.created))
unfolding create_settles
create_settles_lem closure law outcome dialog e = elim (Bool-cases (is_success outcome)) [
  | inl k ↦ rw (e, k) (refl, refl, ap (λ f. some (f.email, f.password)) (law dialog.form))
  | inr k ↦ rw (e, k) (refl, refl, refl)
]
