-- ===== src/Admin/Session/Laws.antt =====
-- Who is signed in.
use chimely.Prelude.{
  ℕ, decimal, String, Bool, true, false, not, ◌&&◌, Option, none, some, List, [], ◌∷◌, ◌≡◌, ◌⊎◌,
  inl, inr, refl, ap, ◌∙◌, is_some, if◌then◌else◌, arith, Bool-cases, Option-cases, ◌==◌,
}
use chimely.Errors.{Body, parsed, rejected, is_ok}
use chimely.Admin.Records.{AdminMe}
use chimely.Admin.Api.{
  ApiError, api_request, is_login, AdminResponse, AdminSettled, answered, unreachable,
  request_error, settle_request, AdminFailure, not_json, no_error, error_of,
}
use chimely.Admin.Api.Endpoints.{Endpoint, call, ReplyOf}
use chimely.Admin.Session.{
  Gate, GateEvent, loads, submits, signs_in, logs_out, calls, step_gate, gate_after, new_gate,
  screen, app, login_screen, new_form, set_user, on_unauthorized, signed_in,
}

abbrev is_sign_in : Endpoint → Bool
is_sign_in (Endpoint.login email password) = true
is_sign_in _ = false

-- The path of an endpoint is that of the login for the login alone.
is_login-call : (endpoint : Endpoint) → is_login (call endpoint).path ≡ is_sign_in endpoint
unfolding call api_request
is_login-call Endpoint.me = refl
is_login-call (Endpoint.login email password) = refl
is_login-call Endpoint.logout = refl
is_login-call Endpoint.list_users = refl
is_login-call (Endpoint.create_user email name role password) = refl
is_login-call (Endpoint.update_user id name role disabled) = refl
is_login-call (Endpoint.set_user_password id password) = refl
is_login-call (Endpoint.delete_user id) = refl
is_login-call Endpoint.list_environments = refl
is_login-call (Endpoint.create_environment slug name require_subscriber_hash) = refl
is_login-call (Endpoint.get_environment env_id) = refl
is_login-call (Endpoint.rotate_hmac env_id) = refl
is_login-call (Endpoint.complete_hmac_rotation env_id) = refl
is_login-call (Endpoint.list_api_keys env_id) = refl
is_login-call (Endpoint.create_api_key env_id name) = refl
is_login-call (Endpoint.revoke_api_key env_id key_id) = refl
is_login-call (Endpoint.list_notifications env_id filter) = refl
is_login-call (Endpoint.notification_timeline env_id notif_id) = refl
is_login-call (Endpoint.create_broadcast env_id category payload idempotency_key) = refl
is_login-call (Endpoint.get_subscriber env_id subscriber_id) = refl
is_login-call Endpoint.list_dlq = refl
is_login-call (Endpoint.replay_dead_letter job_id) = refl
is_login-call Endpoint.replay_all_dead_letters = refl

-- What an answer to `me` or `login` signs in: a 2xx with a user in its body.
abbrev parsed_of : {A : Type 0} → Body A → Option A
parsed_of (parsed a) = some a
parsed_of (rejected cause) = none

abbrev admitted : {A : Type 0} → AdminSettled A → Option A
admitted unreachable = none
admitted (answered r) = if is_ok r.status && not (r.status == 204) then parsed_of r.body else none

abbrev granted_by : GateEvent → Option AdminMe
granted_by (loads answer) = admitted answer
granted_by (signs_in email password answer) = admitted answer
granted_by _ = none

abbrev status_is : ℕ → {A : Type 0} → AdminSettled A → Bool
status_is status unreachable = false
status_is status (answered r) = r.status == status

-- An event that signs out, where it does not sign in: a load, a logout, a login with no user, and a
-- 401 to anything but the login.
abbrev signs_out : GateEvent → Bool
signs_out (loads answer) = true
signs_out submits = false
signs_out (signs_in email password answer) = status_is 204 answer
signs_out (logs_out answer) = true
signs_out (calls endpoint answer) = status_is 401 answer && not (is_sign_in endpoint)

-- How an event changes the user.
abbrev Moves : GateEvent → Gate → Type 0
Moves event gate = (step_gate event gate).user ≡ (
    if is_some (granted_by event)
    then granted_by event
    else if signs_out event
    then none
    else gate.user)

answer_of : ℕ → AdminFailure → Body AdminMe → AdminSettled AdminMe
answer_of status failure body =
    answered (record { status = status; body = body; failure = failure })

loads-Moves :
    (status : ℕ) (failure : AdminFailure) (body : Body AdminMe) (gate : Gate)
    → Moves (loads (answer_of status failure body)) gate
unfolding step_gate settle_request call api_request answer_of
loads-Moves status failure (parsed a) gate = ground arith
loads-Moves status failure (rejected cause) gate = ground arith

signs_in-Moves :
    (email password : String) (status : ℕ) (failure : AdminFailure) (body : Body AdminMe)
    (gate : Gate)
    → Moves (signs_in email password (answer_of status failure body)) gate
unfolding step_gate settle_request call api_request answer_of
signs_in-Moves email password status failure (parsed a) gate = ground arith
signs_in-Moves email password status failure (rejected cause) gate = ground arith

step_gate-Moves : (event : GateEvent) (gate : Gate) → Moves event gate
unfolding step_gate settle_request call api_request answer_of
step_gate-Moves (loads unreachable) gate = refl
step_gate-Moves (loads (answered r)) gate = loads-Moves r.status r.failure r.body gate
step_gate-Moves submits gate = refl
step_gate-Moves (signs_in email password unreachable) gate = ground arith
step_gate-Moves (signs_in email password (answered r)) gate =
    signs_in-Moves email password r.status r.failure r.body gate
step_gate-Moves (logs_out unreachable) gate = refl
step_gate-Moves (logs_out (answered r)) gate = ground arith
step_gate-Moves (calls endpoint unreachable) gate = refl
step_gate-Moves (calls endpoint (answered r)) gate = ground (arith, is_login-call endpoint)

-- A history, the latest event first, has signed a user in and not out since.
abbrev pub Granted : AdminMe → List GateEvent → Type 0
Granted user [] = ⊥
Granted user (event ∷ past) =
    (granted_by event ≡ some user)
    ⊎ ((granted_by event ≡ none) × (signs_out event ≡ false) × Granted user past)

none-some : (user : AdminMe) → none ≡ some user → ⊥
none-some user h = cc

user-Granted :
    (user : AdminMe) (history : List GateEvent)
    → (gate_after history).user ≡ some user
    → Granted user history
unfolding new_gate
user-Granted user [] h = cc
user-Granted user (event ∷ past) h = elim (Option-cases (granted_by event)) [
  | inl e ↦ elim (Bool-cases (signs_out event)) [
    | inl o ↦ elim (none-some user (ground (arith, step_gate-Moves event (gate_after past)))) [ ]
    | inr o ↦
        inr (e, o, user-Granted user past (ground (arith, step_gate-Moves event (gate_after past))))
  ]
  | inr (other, e) ↦ inl (ground (arith, step_gate-Moves event (gate_after past)))
]

Granted-user :
    (user : AdminMe) (history : List GateEvent)
    → Granted user history
    → (gate_after history).user ≡ some user
Granted-user user [] g = elim g [ ]
Granted-user user (event ∷ past) (inl e) = ground (arith, step_gate-Moves event (gate_after past))
Granted-user user (event ∷ past) (inr (e, o, g)) =
    ground (arith, step_gate-Moves event (gate_after past), Granted-user user past g)

screen-user : (user : AdminMe) (gate : Gate) → screen gate ≡ app user → gate.user ≡ some user
unfolding screen
screen-user user gate h = ground arith

-- The gate shows the app to a user only where an answer to `me` or `login` with a status in 200 to
-- 299, not 204, carried that user, and since then no load ended otherwise, no login ended with a 204,
-- nobody logged out, and no call but a login was answered 401. Where that is so, the user is kept.
pub screen-Granted :
    (user : AdminMe) (history : List GateEvent)
    → (screen (gate_after history) ≡ app user → Granted user history)
      × (Granted user history → (gate_after history).user ≡ some user)
screen-Granted user history = (
  (λ h. user-Granted user history (screen-user user (gate_after history) h)),
  Granted-user user history,
)

abbrev expired : ApiError
expired = record { status = 401; code = "unauthorized"; message = "Session expired" }

settled_expired :
    {A : Type 0} (path : List String) (r : AdminResponse A)
    → is_login path ≡ false
    → r.status ≡ 401
    → settle_request path (answered r) ≡ (true, request_error expired)
unfolding settle_request
settled_expired path r l s = rw (s, l, settle_request) refl

-- The code and the message of a refused login: those of the error in the body, where it has them.
abbrev refusal_code : AdminFailure → String
refusal_code (error_of (some code) message) = code
refusal_code _ = "error"

abbrev pub refusal_message : AdminFailure → String
refusal_message (error_of code (some message)) = message
refusal_message _ = "Request failed (401)"

refused_error : AdminFailure → ApiError
refused_error failure = record {
  status = 401;
  code = refusal_code failure;
  message = refusal_message failure;
}

settled_refused :
    {A : Type 0} (path : List String) (r : AdminResponse A) (failure : AdminFailure)
    → is_login path ≡ true
    → r.status ≡ 401
    → r.failure ≡ failure
    → settle_request path (answered r) ≡ (false, request_error (refused_error failure))
unfolding settle_request decimal refused_error
settled_refused path r not_json l s f = rw (s, l, f, settle_request) refl
settled_refused path r no_error l s f = rw (s, l, f, settle_request) refl
settled_refused path r (error_of none none) l s f = rw (s, l, f, settle_request) refl
settled_refused path r (error_of none (some m)) l s f = rw (s, l, f, settle_request) refl
settled_refused path r (error_of (some k) none) l s f = rw (s, l, f, settle_request) refl
settled_refused path r (error_of (some k) (some m)) l s f = rw (s, l, f, settle_request) refl

-- A 401 to any call but the login leaves the gate, behind its first load, on the login screen, and its
-- caller gets the error `unauthorized` with the message "Session expired"; a 401 to the login itself,
-- made on the login screen, leaves that screen there with the message of the error in its body, or with
-- "Request failed (401)" where the body is not JSON, or has no error, or an error with no message.
pub unauthorized_to_login :
    (endpoint : Endpoint) (r : AdminResponse (ReplyOf endpoint)) (email password : String)
    (refusal : AdminResponse AdminMe) (gate : Gate)
    → gate.loading ≡ false
    → is_sign_in endpoint ≡ false
    → r.status ≡ 401
    → refusal.status ≡ 401
    → let out = step_gate (calls endpoint (answered r)) gate in
      let tried = step_gate (signs_in email password (answered refusal)) out in
      (screen out ≡ login_screen (if is_some gate.user then new_form else gate.form))
      × ((settle_request (call endpoint).path (answered r)).1
          ≡ request_error
              (record { status = 401; code = "unauthorized"; message = "Session expired" }))
      × (screen tried
          ≡ login_screen
              (record { error = some (refusal_message refusal.failure); pending = false }))
unfolding step_gate screen refused_error
unauthorized_to_login endpoint r email password refusal gate l n s t =
    let out = settled_expired (call endpoint).path r (is_login-call endpoint ∙ n) s in
    let refused =
      settled_refused (call (Endpoint.login email password)).path refusal refusal.failure
        (is_login-call (Endpoint.login email password)) t refl in
    let left : step_gate (calls endpoint (answered r)) gate ≡ set_user none gate =
      ap (λ z. on_unauthorized z.0 gate) out in
    (
      ap screen left ∙ rw l (ground arith),
      ap (λ z. z.1) out,
      ap (λ g. screen (step_gate (signs_in email password (answered refusal)) g)) left
          ∙ ap (λ z. screen (signed_in z.1 (on_unauthorized z.0 (set_user none gate)))) refused
          ∙ rw l refl,
    )
