-- ===== src/Admin/Pages/Environment.antt =====
-- server/admin/src/routes/environment-detail.tsx: the tabs, the dialog that creates an API key, the
-- button that revokes one, and the tab of the subscriber secret.
pub mod Laws
use chimely.Prelude.{
  String, Bool, true, false, not, ◌&&◌, ◌||◌, Option, none, some, List, [], ◌∷◌, ◌++◌,
  if◌then◌else◌, is_some, or_else,
}
use chimely.Admin.Records.{AdminMe, AdminEnvironmentDetail, AdminHmacRotation, AdminApiKeyCreated}
use chimely.Admin.Api.{Outcome, value, undefined, thrown, request_error}
use chimely.Admin.Api.Endpoints.{
  Endpoint, create_api_key, revoke_api_key, rotate_hmac, complete_hmac_rotation,
}
use chimely.Admin.Session.{apikey_read, env_read_secret, has}
use chimely.Admin.Pages.{
  Toast, success_toast, error_toast, Log, empty_log, send, toast, invalidate, fail_message,
  is_success, Confirm, confirm_sends, confirm_settles,
}

pub data DetailTab : Type 0 where
  keys hmac : DetailTab

-- The tabs, and the one that is open at first; without one, the note on read-only access.
unfoldable pub detail_tabs : AdminMe → List DetailTab
detail_tabs user =
    (if has user apikey_read then keys ∷ [] else [])
    ++ (if has user env_read_secret then hmac ∷ [] else [])

unfoldable pub first_tab : AdminMe → Option DetailTab
first_tab user =
    if has user apikey_read || has user env_read_secret
    then some (if has user apikey_read then keys else hmac)
    else none

pub record CreateKey : Type 0 where
  pub is_open : Bool
  pub name : String
  pub created : Option AdminApiKeyCreated
  pub is_pending : Bool
  pub log : Log

abbrev pub new_create : CreateKey
new_create = record {
  is_open = false;
  name = "";
  created = none;
  is_pending = false;
  log = empty_log;
}

pub data KeyEvent : Type 0 where
  key_open : Bool → KeyEvent
  edits_name : String → KeyEvent
  submits_key : KeyEvent
  key_settles : Outcome AdminApiKeyCreated → KeyEvent

-- `onSuccess` takes the key as it is, so an undefined one shows the form.
abbrev pub key_of : {A : Type 0} → Outcome A → Option A
key_of (value key) = some key
key_of _ = none

abbrev pub keys_key : String → List String
keys_key env_id = "api-keys" ∷ env_id ∷ []

unfoldable pub step_key : String → KeyEvent → CreateKey → CreateKey
step_key env_id (key_open o) dialog =
    if o
    then record dialog { is_open = true }
    else record dialog { is_open = false; created = none }
step_key env_id (edits_name name) dialog =
    if is_some dialog.created || not dialog.is_open then dialog else record dialog { name = name }
step_key env_id submits_key dialog =
    if dialog.is_open && (not (is_some dialog.created) && not dialog.is_pending)
    then record dialog {
      is_pending = true;
      log = send (create_api_key env_id dialog.name) dialog.log;
    }
    else dialog
step_key env_id (key_settles outcome) dialog =
    if not dialog.is_pending
    then dialog
    else if is_success outcome
    then record dialog {
      is_pending = false;
      created = key_of outcome;
      name = "";
      log =
          invalidate (keys_key env_id)
            (toast (success_toast "API key created — copy it now") dialog.log);
    }
    else record dialog {
      is_pending = false;
      log = toast (error_toast (fail_message "Failed" outcome)) dialog.log;
    }

abbrev pub key_after : String → List KeyEvent → CreateKey
key_after env_id [] = new_create
key_after env_id (event ∷ past) = step_key env_id event (key_after env_id past)

-- RevokeKeyButton: what its confirming button sends, and how it settles.
abbrev pub revoke : String → String → Confirm → Confirm
revoke env_id key_id dialog = confirm_sends (revoke_api_key env_id key_id) dialog

abbrev pub revoke_settles : String → Outcome Unit → Confirm → Confirm
revoke_settles env_id outcome dialog =
    confirm_settles "Key revoked" "Failed" (keys_key env_id) outcome dialog

pub record HmacTab : Type 0 where
  pub detail : Option AdminEnvironmentDetail
  pub rotated_secret : Option String
  pub rotate_pending : Bool
  pub complete_pending : Bool
  pub log : Log

abbrev pub new_hmac : HmacTab
new_hmac = record {
  detail = none;
  rotated_secret = none;
  rotate_pending = false;
  complete_pending = false;
  log = empty_log;
}

pub data HmacEvent : Type 0 where
  detail_loads : AdminEnvironmentDetail → HmacEvent
  presses_rotate : HmacEvent
  rotate_settles : Outcome AdminHmacRotation → HmacEvent
  presses_complete : HmacEvent
  complete_settles : Outcome Unit → HmacEvent

abbrev pub environment_key : String → List String
environment_key env_id = "environment" ∷ env_id ∷ []

-- `onSuccess` reads the secret, so with no value it throws.
abbrev pub rotate_ends : String → Outcome AdminHmacRotation → HmacTab → HmacTab
rotate_ends env_id (value r) tab = record tab {
  rotate_pending = false;
  rotated_secret = some r.subscriber_hmac_secret;
  log =
      invalidate (environment_key env_id)
        (toast (success_toast "Rotated — both secrets verify during the overlap") tab.log);
}
rotate_ends env_id outcome tab = record tab {
  rotate_pending = false;
  log = toast (error_toast (fail_message "Failed" outcome)) tab.log;
}

abbrev pub can_complete : HmacTab → Bool
can_complete tab = elim tab.detail [
  | none ↦ false
  | some detail ↦ detail.has_previous_secret && not tab.complete_pending
]

-- The buttons are there once the detail has loaded.
unfoldable pub step_hmac : String → HmacEvent → HmacTab → HmacTab
step_hmac env_id (detail_loads detail) tab = record tab { detail = some detail }
step_hmac env_id presses_rotate tab =
    if is_some tab.detail && not tab.rotate_pending
    then record tab { rotate_pending = true; log = send (rotate_hmac env_id) tab.log }
    else tab
step_hmac env_id (rotate_settles outcome) tab =
    if tab.rotate_pending then rotate_ends env_id outcome tab else tab
step_hmac env_id presses_complete tab =
    if can_complete tab
    then record tab { complete_pending = true; log = send (complete_hmac_rotation env_id) tab.log }
    else tab
step_hmac env_id (complete_settles outcome) tab =
    if not tab.complete_pending
    then tab
    else if is_success outcome
    then record tab {
      complete_pending = false;
      rotated_secret = none;
      log =
          invalidate (environment_key env_id)
            (toast (success_toast "Rotation completed — previous secret cleared") tab.log);
    }
    else record tab {
      complete_pending = false;
      log = toast (error_toast (fail_message "Failed" outcome)) tab.log;
    }

abbrev pub hmac_after : String → List HmacEvent → HmacTab
hmac_after env_id [] = new_hmac
hmac_after env_id (event ∷ past) = step_hmac env_id event (hmac_after env_id past)
