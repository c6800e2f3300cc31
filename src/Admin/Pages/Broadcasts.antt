-- ===== src/Admin/Pages/Broadcasts.antt =====
-- BroadcastsRoute of server/admin/src/routes/broadcasts.tsx. The extra text comes with the submission:
-- blank, as `trim` leaves it, refused by `JSON.parse`, or as the own fields of what it parses to.
pub mod Laws
use chimely.Prelude.{
  String, Bool, true, false, not, ◌&&◌, Option, none, some, List, [], ◌∷◌, if◌then◌else◌, str_eq,
  ◌+++◌, is_some,
}
use chimely.Types.{JsonValue, JsonFields, json_object, json_string, no_fields, field_then}
use chimely.Admin.Records.{AdminMe, Broadcast}
use chimely.Admin.Api.{Outcome, value, undefined, thrown, request_error}
use chimely.Admin.Api.Endpoints.{Endpoint, create_broadcast}
use chimely.Admin.Session.{broadcast_compose, has}
use chimely.Admin.Pages.{
  Toast, success_toast, error_toast, Log, empty_log, send, toast, fail_message,
}

pub record Compose : Type 0 where
  pub category : String
  pub title : String
  pub body : String
  pub action_url : String
  pub icon_url : String
  pub idem_key : String
  pub last_id : Option String
  pub is_pending : Bool
  pub log : Log

-- `payload[key] = v`.
unfoldable pub assign_field : String → JsonValue → JsonFields → JsonFields
assign_field key v no_fields = field_then key v no_fields
assign_field key v (field_then name old more) =
    let later = assign_field key v more in
    if str_eq name key then field_then name v more else field_then name old later

-- `if (text) payload[key] = text`.
abbrev pub when_text : String → String → JsonFields → JsonFields
when_text key text payload =
    if str_eq text "" then payload else assign_field key (json_string text) payload

-- `payload[key] = v` where the key is any: `__proto__` sets the prototype, if anything, and adds no field.
abbrev pub assign_own : String → JsonValue → JsonFields → JsonFields
assign_own key v payload = if str_eq key "__proto__" then payload else assign_field key v payload

-- `Object.assign(payload, extra)`.
unfoldable pub assign_all : JsonFields → JsonFields → JsonFields
assign_all payload no_fields = payload
assign_all payload (field_then key v extra) = assign_all (assign_own key v payload) extra

-- The extra text: blank, no JSON, or the fields of what it parses to.
pub data Extra : Type 0 where
  blank_text syntax_error : Extra
  fields_in : JsonFields → Extra

unfoldable pub well_known : Compose → JsonFields
well_known page = when_text "icon_url" page.icon_url (
    when_text "action_url" page.action_url
      (when_text "body" page.body (when_text "title" page.title no_fields)))

abbrev pub payload_of : JsonFields → Compose → JsonFields
payload_of extra page = assign_all (well_known page) extra

abbrev pub optional : String → Option String
optional text = if str_eq text "" then none else some text

abbrev pub composed : String → JsonFields → Compose → Compose
composed env_id extra page = record page {
  is_pending = true;
  log =
      send
        (create_broadcast env_id page.category (some (json_object (payload_of extra page)))
          (optional page.idem_key))
        page.log;
}

-- The submission of the form: `mutationFn`, which throws where the text is no JSON.
unfoldable pub submit_broadcast : String → Extra → Compose → Compose
submit_broadcast env_id extra page = if page.is_pending then page else elim extra [
  | blank_text ↦ composed env_id no_fields page
  | fields_in extra_fields ↦ composed env_id extra_fields page
  | syntax_error ↦ record page { log = toast (error_toast "Extra JSON is not valid JSON") page.log }
]

abbrev pub compose_ends : Outcome Broadcast → Compose → Compose
compose_ends (value b) page = record page {
  is_pending = false;
  last_id = some b.id;
  log = toast (success_toast ("Broadcast " +++ (b.id +++ " composed"))) page.log;
}
compose_ends outcome page = record page {
  is_pending = false;
  log = toast (error_toast (fail_message "Failed to compose" outcome)) page.log;
}

unfoldable pub compose_settles : Outcome Broadcast → Compose → Compose
compose_settles outcome page = if page.is_pending then compose_ends outcome page else page

-- Whether the form is there.
unfoldable pub composes : AdminMe → Bool
composes user = has user broadcast_compose
