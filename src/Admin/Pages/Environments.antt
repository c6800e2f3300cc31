-- ===== src/Admin/Pages/Environments.antt =====
-- NewEnvironmentDialog of server/admin/src/routes/environments.tsx, and the lookup of
-- server/admin/src/routes/subscribers.tsx.
use chimely.Prelude.{String, ◌+++◌, Bool, true, false, not, ◌&&◌, [], ◌∷◌, if◌then◌else◌, ◌==◌}
use chimely.Admin.Records.{AdminMe}
use chimely.Admin.Api.{Outcome, value, request_error}
use chimely.Admin.Api.Endpoints.{create_environment}
use chimely.Admin.Session.{env_create, has}
use chimely.Admin.Pages.{
  success_toast, error_toast, Log, empty_log, send, toast, invalidate, fail_message,
}

-- Whether the page has the dialog.
unfoldable pub creates_environments : AdminMe → Bool
creates_environments user = has user env_create

pub record NewEnvironment : Type 0 where
  pub is_open : Bool
  pub slug : String
  pub name : String
  pub require_hash : Bool
  pub is_pending : Bool
  pub log : Log

abbrev pub new_environment : NewEnvironment
new_environment = record {
  is_open = false;
  slug = "";
  name = "";
  require_hash = true;
  is_pending = false;
  log = empty_log;
}

pub data NewEnvironmentEvent : Type 0 where
  environment_open : Bool → NewEnvironmentEvent
  edits_slug edits_environment_name : String → NewEnvironmentEvent
  checks_hash : Bool → NewEnvironmentEvent
  submits_environment : NewEnvironmentEvent

-- The slug comes with the value that the request resolved to; without one `onSuccess` throws.
abbrev pub environment_ends : Outcome String → NewEnvironment → NewEnvironment
environment_ends (value slug) dialog = record {
  is_open = false;
  slug = "";
  name = "";
  require_hash = true;
  is_pending = false;
  log =
      invalidate ("environments" ∷ [])
        (toast (success_toast ("Environment " +++ (slug +++ " created"))) dialog.log);
}
environment_ends outcome dialog = record dialog {
  is_pending = false;
  log = toast (error_toast (fail_message "Failed to create" outcome)) dialog.log;
}

abbrev pub environment_settles : Outcome String → NewEnvironment → NewEnvironment
environment_settles outcome dialog =
    if dialog.is_pending then environment_ends outcome dialog else dialog

unfoldable pub step_environment : NewEnvironmentEvent → NewEnvironment → NewEnvironment
step_environment (environment_open o) dialog = record dialog { is_open = o }
step_environment (edits_slug text) dialog =
    if dialog.is_open then record dialog { slug = text } else dialog
step_environment (edits_environment_name text) dialog =
    if dialog.is_open then record dialog { name = text } else dialog
step_environment (checks_hash checked) dialog =
    if dialog.is_open then record dialog { require_hash = checked } else dialog
step_environment submits_environment dialog =
    if dialog.is_open && not dialog.is_pending
    then record dialog {
      is_pending = true;
      log = send (create_environment dialog.slug dialog.name dialog.require_hash) dialog.log;
    }
    else dialog

-- The error that the lookup of a subscriber shows.
abbrev pub lookup_message : {A : Type 0} → String → Outcome A → String
lookup_message query (request_error e) =
    if e.status == 404
    then "No subscriber “" +++ (query +++ "” in this environment.")
    else "Lookup failed."
lookup_message query _ = "Lookup failed."
