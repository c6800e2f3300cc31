-- ===== src/Admin/Api/Laws.antt =====
-- The headers of every endpoint's request.
use chimely.Prelude.{Bool, true, false, not, none, some, ◌≡◌, refl, if◌then◌else◌, is_some}
use chimely.Stub.Listing.{param}
use chimely.Admin.Api.{AdminRequest, is_mutating, api_request}
use chimely.Admin.Api.Endpoints.{Endpoint, call}

-- The header that a cross-site form cannot set goes with what changes something, the content type
-- with a body, and a body with what changes something.
abbrev pub Marked : AdminRequest → Type 0
Marked r =
    (param "X-Chimely-Admin" r.headers ≡ (if is_mutating r.method then some "1" else none))
    × (param "Content-Type" r.headers ≡ (if is_some r.body then some "application/json" else none))
    × (is_some r.body ≡ true → is_mutating r.method ≡ true)

-- A call that only reads: its name starts with `list` or `get`, or it is `me` or
-- `notificationTimeline`.
abbrev only_reads : Endpoint → Bool
only_reads Endpoint.me = true
only_reads Endpoint.list_users = true
only_reads Endpoint.list_environments = true
only_reads (Endpoint.get_environment env_id) = true
only_reads (Endpoint.list_api_keys env_id) = true
only_reads (Endpoint.list_notifications env_id filter) = true
only_reads (Endpoint.notification_timeline env_id notif_id) = true
only_reads (Endpoint.get_subscriber env_id subscriber_id) = true
only_reads Endpoint.list_dlq = true
only_reads _ = false

-- Every endpoint's request carries the header X-Chimely-Admin exactly where its method is not GET,
-- which is where the endpoint does more than read; it names a JSON content type exactly where it has a
-- body, and a GET has none.
pub call-Marked :
    (endpoint : Endpoint)
    → Marked (call endpoint) × (is_mutating (call endpoint).method ≡ not (only_reads endpoint))
unfolding call api_request
call-Marked Endpoint.me = ((refl, refl, λ h. h), refl)
call-Marked (Endpoint.login email password) = ((refl, refl, λ h. refl), refl)
call-Marked Endpoint.logout = ((refl, refl, λ h. refl), refl)
call-Marked Endpoint.list_users = ((refl, refl, λ h. h), refl)
call-Marked (Endpoint.create_user email name role password) = ((refl, refl, λ h. refl), refl)
call-Marked (Endpoint.update_user id name role disabled) = ((refl, refl, λ h. refl), refl)
call-Marked (Endpoint.set_user_password id password) = ((refl, refl, λ h. refl), refl)
call-Marked (Endpoint.delete_user id) = ((refl, refl, λ h. refl), refl)
call-Marked Endpoint.list_environments = ((refl, refl, λ h. h), refl)
call-Marked (Endpoint.create_environment slug name require_subscriber_hash) =
    ((refl, refl, λ h. refl), refl)
call-Marked (Endpoint.get_environment env_id) = ((refl, refl, λ h. h), refl)
call-Marked (Endpoint.rotate_hmac env_id) = ((refl, refl, λ h. refl), refl)
call-Marked (Endpoint.complete_hmac_rotation env_id) = ((refl, refl, λ h. refl), refl)
call-Marked (Endpoint.list_api_keys env_id) = ((refl, refl, λ h. h), refl)
call-Marked (Endpoint.create_api_key env_id name) = ((refl, refl, λ h. refl), refl)
call-Marked (Endpoint.revoke_api_key env_id key_id) = ((refl, refl, λ h. refl), refl)
call-Marked (Endpoint.list_notifications env_id filter) = ((refl, refl, λ h. h), refl)
call-Marked (Endpoint.notification_timeline env_id notif_id) = ((refl, refl, λ h. h), refl)
call-Marked (Endpoint.create_broadcast env_id category payload idempotency_key) =
    ((refl, refl, λ h. refl), refl)
call-Marked (Endpoint.get_subscriber env_id subscriber_id) = ((refl, refl, λ h. h), refl)
call-Marked Endpoint.list_dlq = ((refl, refl, λ h. h), refl)
call-Marked (Endpoint.replay_dead_letter job_id) = ((refl, refl, λ h. refl), refl)
call-Marked Endpoint.replay_all_dead_letters = ((refl, refl, λ h. refl), refl)
