-- ===== src/Admin/Api.antt =====
-- `request` of server/admin/src/lib/api.ts: how a call is sent, and what a response comes to.
-- A path is a list of its segments behind /admin/api, an id in it with no percent encoding. A request
-- is same-origin. The text of a JSON body is never empty, so a body is there or it is not.
pub mod Endpoints
pub mod Laws
use chimely.Prelude.{
  ℕ, String, ◌+++◌, Bool, true, false, not, ◌&&◌, ◌||◌, Option, none, some, List, [], ◌∷◌, ◌++◌,
  if◌then◌else◌, or_else, str_eq, decimal, ◌==◌,
}
use chimely.Types.{
  JsonValue, JsonFields, json_object, json_string, json_boolean, no_fields, field_then,
}
use chimely.Errors.{Body, parsed, rejected, is_ok}
use chimely.Client.State.{when_truthy, when_number}
use chimely.Admin.Records.{
  AdminRole, viewer, operator, developer, admin, AdminMe, AdminUserView, AdminEnvironment,
  AdminEnvironmentDetail, AdminHmacRotation, AdminApiKey, AdminApiKeyCreated, AdminNotificationPage,
  AdminNotificationTimeline, AdminSubscriberView, AdminDeadLetter, AdminReplayResult, Broadcast,
  NotificationFilter,
}

pub record ApiError : Type 0 where
  pub status : ℕ
  pub code : String
  pub message : String

pub data Verb : Type 0 where
  http_get http_head http_post http_patch http_delete : Verb

pub record RequestInit : Type 0 where
  pub method : Option Verb
  pub body : Option JsonValue
  pub headers : List (String × String)

pub record AdminRequest : Type 0 where
  pub method : Verb
  pub path : List String
  pub query : List (String × String)
  pub headers : List (String × String)
  pub body : Option JsonValue

abbrev pub is_mutating : Verb → Bool
is_mutating http_get = false
is_mutating http_head = false
is_mutating _ = true

abbrev content_header : Option JsonValue → List (String × String)
content_header none = []
content_header (some body) = ("Content-Type", "application/json") ∷ []

-- The head of `request`, up to the call of `fetch`.
unfoldable pub api_request : List String → List (String × String) → RequestInit → AdminRequest
api_request path query init =
    let method = or_else init.method http_get in
    record {
      method = method;
      path = path;
      query = query;
      headers =
          content_header init.body
          ++ ((if is_mutating method then ("X-Chimely-Admin", "1") ∷ [] else []) ++ init.headers);
      body = init.body;
    }

abbrev pub send_get : List String → List (String × String) → AdminRequest
send_get path query = api_request path query (record { method = none; body = none; headers = [] })

abbrev pub send_post : List String → Option JsonValue → AdminRequest
send_post path body =
    api_request path [] (record { method = some http_post; body = body; headers = [] })

abbrev pub send_patch : List String → Option JsonValue → AdminRequest
send_patch path body =
    api_request path [] (record { method = some http_patch; body = body; headers = [] })

abbrev pub send_delete : List String → AdminRequest
send_delete path =
    api_request path [] (record { method = some http_delete; body = none; headers = [] })

-- The body of a failed response: not JSON, without an error, or with one.
pub data AdminFailure : Type 0 where
  not_json no_error : AdminFailure
  error_of : (code message : Option String) → AdminFailure

pub record AdminResponse (A : Type 0) : Type 0 where
  pub status : ℕ
  pub body : Body A
  pub failure : AdminFailure

-- How a call of `fetch` settles.
pub data AdminSettled (A : Type 0) : Type 0 where
  answered : AdminResponse A → AdminSettled A
  unreachable : AdminSettled A

-- What the caller of an endpoint gets: a value, undefined, an ApiRequestError, or what `fetch` or the
-- parse of a body threw.
pub data Outcome (A : Type 0) : Type 0 where
  value : A → Outcome A
  undefined thrown : Outcome A
  request_error : ApiError → Outcome A

abbrev pub is_login : List String → Bool
is_login (segment ∷ []) = str_eq segment "login"
is_login _ = false

abbrev error_in : ℕ → AdminFailure → ApiError
error_in status (error_of code message) = record {
  status = status;
  code = or_else code "error";
  message = or_else message ("Request failed (" +++ (decimal status +++ ")"));
}
error_in status _ = record {
  status = status;
  code = "error";
  message = "Request failed (" +++ (decimal status +++ ")");
}

abbrev value_of : {A : Type 0} → Body A → Outcome A
value_of (parsed a) = value a
value_of (rejected cause) = thrown

-- The tail of `request`, after `fetch` has settled: whether it dispatches the unauthorized event, and
-- the outcome.
unfoldable pub settle_request : {A : Type 0} → List String → AdminSettled A → Bool × Outcome A
settle_request path unreachable = (false, thrown)
settle_request path (answered r) =
    if r.status == 401 && not (is_login path)
    then (
      true,
      request_error (record { status = 401; code = "unauthorized"; message = "Session expired" }),
    )
    else if not (is_ok r.status)
    then (false, request_error (error_in r.status r.failure))
    else if r.status == 204
    then (false, undefined)
    else (false, value_of r.body)
