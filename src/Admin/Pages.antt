-- ===== src/Admin/Pages.antt =====
-- What the pages of server/admin/src/routes share: the calls they send, their toasts, the queries they
-- invalidate, and a dialog that confirms one call. `useMutation` and `useQuery` belong to a library:
-- how a call settles comes with the event, and a button that is disabled while a call is pending sends
-- none. A log has the latest entry first.
pub mod Users
pub mod NewUser
pub mod Environment
pub mod Broadcasts
pub mod Dashboard
pub mod Notifications
pub mod Dlq
pub mod Environments
pub mod Parts
use chimely.Prelude.{
  String, Bool, true, false, not, ◌&&◌, Option, none, some, List, [], ◌∷◌, if◌then◌else◌,
}
use chimely.Admin.Api.{ApiError, Outcome, value, undefined, thrown, request_error}
use chimely.Admin.Api.Endpoints.{Endpoint}

pub data Toast : Type 0 where
  success_toast error_toast : (text : String) → Toast

pub record Log : Type 0 where
  pub sent : List Endpoint
  pub toasts : List Toast
  pub invalidated : List (List String)

abbrev pub empty_log : Log
empty_log = record { sent = []; toasts = []; invalidated = [] }

abbrev pub send : Endpoint → Log → Log
send endpoint log = record log { sent = endpoint ∷ log.sent }

abbrev pub toast : Toast → Log → Log
toast t log = record log { toasts = t ∷ log.toasts }

abbrev pub invalidate : List String → Log → Log
invalidate key log = record log { invalidated = key ∷ log.invalidated }

-- `e instanceof ApiRequestError ? e.message : fallback`.
abbrev pub fail_message : {A : Type 0} → String → Outcome A → String
fail_message fallback (request_error e) = e.message
fail_message fallback _ = fallback

-- Whether a mutation settles into `onSuccess`.
abbrev pub is_success : {A : Type 0} → Outcome A → Bool
is_success (value a) = true
is_success undefined = true
is_success _ = false

-- A dialog with a cancel button and one that sends a call.
pub record Confirm : Type 0 where
  pub is_open : Bool
  pub is_pending : Bool
  pub log : Log

abbrev pub new_confirm : Confirm
new_confirm = record { is_open = false; is_pending = false; log = empty_log }

-- Its trigger, its cancel button and what else closes it. A disabled trigger opens nothing.
abbrev pub confirm_open : Bool → Bool → Confirm → Confirm
confirm_open trigger_disabled o dialog =
    if o && trigger_disabled then dialog else record dialog { is_open = o }

abbrev pub confirm_sends : Endpoint → Confirm → Confirm
confirm_sends endpoint dialog =
    if dialog.is_open && not dialog.is_pending
    then record dialog { is_pending = true; log = send endpoint dialog.log }
    else dialog

abbrev pub confirm_settles :
    {A : Type 0} → String → String → List String → Outcome A → Confirm → Confirm
confirm_settles success fallback key outcome dialog =
    if not dialog.is_pending
    then dialog
    else if is_success outcome
    then record {
      is_open = false;
      is_pending = false;
      log = invalidate key (toast (success_toast success) dialog.log);
    }
    else record dialog {
      is_pending = false;
      log = toast (error_toast (fail_message fallback outcome)) dialog.log;
    }
