-- ===== src/Admin/Api/Endpoints.antt =====
-- `api` of server/admin/src/lib/api.ts: the request of every endpoint, and what it promises.
use chimely.Prelude.{String, Bool, Option, none, some, List, [], ◌∷◌, ◌++◌}
use chimely.Types.{
  JsonValue, JsonFields, json_object, json_string, json_boolean, no_fields, field_then,
}
use chimely.Client.State.{when_truthy, when_number}
use chimely.Admin.Records.{
  AdminRole, viewer, operator, developer, admin, AdminMe, AdminUserView, AdminEnvironment,
  AdminEnvironmentDetail, AdminHmacRotation, AdminApiKey, AdminApiKeyCreated, AdminNotificationPage,
  AdminNotificationTimeline, AdminSubscriberView, AdminDeadLetter, AdminReplayResult, Broadcast,
  NotificationFilter,
}
use chimely.Admin.Api.{AdminRequest, send_get, send_post, send_patch, send_delete}

-- An endpoint with the arguments of its call.
pub data Endpoint : Type 0 where
  me : Endpoint
  login : (email password : String) → Endpoint
  logout : Endpoint
  list_users : Endpoint
  create_user : (email name : String) → AdminRole → (password : String) → Endpoint
  update_user :
      (id : String)
      → (name : Option String) → Option AdminRole
      → (disabled : Option Bool) → Endpoint
  set_user_password : (id password : String) → Endpoint
  delete_user : (id : String) → Endpoint
  list_environments : Endpoint
  create_environment : (slug name : String) → (require_subscriber_hash : Bool) → Endpoint
  get_environment : (env_id : String) → Endpoint
  rotate_hmac : (env_id : String) → Endpoint
  complete_hmac_rotation : (env_id : String) → Endpoint
  list_api_keys : (env_id : String) → Endpoint
  create_api_key : (env_id name : String) → Endpoint
  revoke_api_key : (env_id key_id : String) → Endpoint
  list_notifications : (env_id : String) → NotificationFilter → Endpoint
  notification_timeline : (env_id notif_id : String) → Endpoint
  create_broadcast :
      (env_id category : String)
      → (payload : Option JsonValue) → (idempotency_key : Option String) → Endpoint
  get_subscriber : (env_id subscriber_id : String) → Endpoint
  list_dlq : Endpoint
  replay_dead_letter : (job_id : String) → Endpoint
  replay_all_dead_letters : Endpoint

abbrev role_name : AdminRole → String
role_name viewer = "viewer"
role_name operator = "operator"
role_name developer = "developer"
role_name admin = "admin"

-- `JSON.stringify` leaves out a field that is undefined.
abbrev field_if : String → Option JsonValue → JsonFields → JsonFields
field_if name none fields = fields
field_if name (some value) fields = field_then name value fields

abbrev text : Option String → Option JsonValue
text none = none
text (some value) = some (json_string value)

abbrev role_text : Option AdminRole → Option JsonValue
role_text none = none
role_text (some role) = some (json_string (role_name role))

abbrev flag : Option Bool → Option JsonValue
flag none = none
flag (some value) = some (json_boolean value)

abbrev object : JsonFields → Option JsonValue
object fields = some (json_object fields)

abbrev query_of : NotificationFilter → List (String × String)
query_of filter =
    when_truthy "subscriber_id" filter.subscriber_id
    ++ (when_truthy "category" filter.category
        ++ (when_truthy "after" filter.after
            ++ (when_truthy "before" filter.before
                ++ (when_number "limit" filter.limit ++ when_truthy "cursor" filter.cursor))))

unfoldable pub call : Endpoint → AdminRequest
call me = send_get ("me" ∷ []) []
call (login email password) = send_post ("login" ∷ []) (
    object (
      field_then "email" (json_string email)
        (field_then "password" (json_string password) no_fields)))
call logout = send_post ("logout" ∷ []) none
call list_users = send_get ("users" ∷ []) []
call (create_user email name role password) = send_post ("users" ∷ []) (
    object (
      field_then "email" (json_string email) (
        field_then "name" (json_string name) (
          field_then "role" (json_string (role_name role))
            (field_then "password" (json_string password) no_fields)))))
call (update_user id name role disabled) = send_patch ("users" ∷ id ∷ []) (
    object (
      field_if "name" (text name)
        (field_if "role" (role_text role) (field_if "disabled" (flag disabled) no_fields))))
call (set_user_password id password) =
    send_post ("users" ∷ id ∷ "password" ∷ [])
      (object (field_then "password" (json_string password) no_fields))
call (delete_user id) = send_delete ("users" ∷ id ∷ [])
call list_environments = send_get ("environments" ∷ []) []
call (create_environment slug name require_subscriber_hash) = send_post ("environments" ∷ []) (
    object (
      field_then "slug" (json_string slug) (
        field_then "name" (json_string name)
          (field_then "require_subscriber_hash" (json_boolean require_subscriber_hash) no_fields))))
call (get_environment env_id) = send_get ("environments" ∷ env_id ∷ []) []
call (rotate_hmac env_id) = send_post ("environments" ∷ env_id ∷ "hmac" ∷ "rotate" ∷ []) none
call (complete_hmac_rotation env_id) =
    send_post ("environments" ∷ env_id ∷ "hmac" ∷ "rotate" ∷ "complete" ∷ []) none
call (list_api_keys env_id) = send_get ("environments" ∷ env_id ∷ "api-keys" ∷ []) []
call (create_api_key env_id name) =
    send_post ("environments" ∷ env_id ∷ "api-keys" ∷ [])
      (object (field_then "name" (json_string name) no_fields))
call (revoke_api_key env_id key_id) =
    send_post ("environments" ∷ env_id ∷ "api-keys" ∷ key_id ∷ "revoke" ∷ []) none
call (list_notifications env_id filter) =
    send_get ("environments" ∷ env_id ∷ "notifications" ∷ []) (query_of filter)
call (notification_timeline env_id notif_id) =
    send_get ("environments" ∷ env_id ∷ "notifications" ∷ notif_id ∷ "timeline" ∷ []) []
call (create_broadcast env_id category payload idempotency_key) =
    send_post ("environments" ∷ env_id ∷ "broadcasts" ∷ []) (
      object (
        field_then "category" (json_string category) (
          field_if "payload" payload
            (field_if "idempotency_key" (text idempotency_key) no_fields))))
call (get_subscriber env_id subscriber_id) =
    send_get ("environments" ∷ env_id ∷ "subscribers" ∷ subscriber_id ∷ []) []
call list_dlq = send_get ("dlq" ∷ []) []
call (replay_dead_letter job_id) = send_post ("dlq" ∷ job_id ∷ "replay" ∷ []) none
call replay_all_dead_letters = send_post ("dlq" ∷ "replay-all" ∷ []) none

-- What an endpoint promises to its caller. A void is the unit type.
abbrev pub ReplyOf : Endpoint → Type 0
ReplyOf me = AdminMe
ReplyOf (login email password) = AdminMe
ReplyOf logout = Unit
ReplyOf list_users = List AdminUserView
ReplyOf (create_user email name role password) = AdminUserView
ReplyOf (update_user id name role disabled) = AdminUserView
ReplyOf (set_user_password id password) = Unit
ReplyOf (delete_user id) = Unit
ReplyOf list_environments = List AdminEnvironment
ReplyOf (create_environment slug name require_subscriber_hash) = AdminEnvironmentDetail
ReplyOf (get_environment env_id) = AdminEnvironmentDetail
ReplyOf (rotate_hmac env_id) = AdminHmacRotation
ReplyOf (complete_hmac_rotation env_id) = Unit
ReplyOf (list_api_keys env_id) = List AdminApiKey
ReplyOf (create_api_key env_id name) = AdminApiKeyCreated
ReplyOf (revoke_api_key env_id key_id) = Unit
ReplyOf (list_notifications env_id filter) = AdminNotificationPage
ReplyOf (notification_timeline env_id notif_id) = AdminNotificationTimeline
ReplyOf (create_broadcast env_id category payload idempotency_key) = Broadcast
ReplyOf (get_subscriber env_id subscriber_id) = AdminSubscriberView
ReplyOf list_dlq = List AdminDeadLetter
ReplyOf (replay_dead_letter job_id) = AdminReplayResult
ReplyOf replay_all_dead_letters = AdminReplayResult
