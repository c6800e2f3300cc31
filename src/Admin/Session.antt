-- ===== src/Admin/Session.antt =====
-- AuthGate of server/admin/src/lib/auth.tsx, with the login screen of server/admin/src/routes/login.tsx
-- that it shows while nobody is signed in.
pub mod Laws
use chimely.Prelude.{
  ℕ, String, Bool, true, false, not, ◌&&◌, Option, none, some, List, [], ◌∷◌, is_some,
  if◌then◌else◌, any, str_eq, ◌||◌,
}
use chimely.Admin.Records.{AdminMe}
use chimely.Admin.Api.{
  ApiError, AdminRequest, AdminSettled, Outcome, value, undefined, thrown, request_error,
  settle_request,
}
use chimely.Admin.Api.Endpoints.{Endpoint, call, ReplyOf}

pub record LoginForm : Type 0 where
  pub error : Option String
  pub pending : Bool

pub record Gate : Type 0 where
  pub user : Option AdminMe
  pub loading : Bool
  pub form : LoginForm

abbrev pub new_form : LoginForm
new_form = record { error = none; pending = false }

unfoldable pub new_gate : Gate
new_gate = record { user = none; loading = true; form = new_form }

pub data Screen : Type 0 where
  spinner : Screen
  login_screen : LoginForm → Screen
  app : AdminMe → Screen

unfoldable pub screen : Gate → Screen
screen gate =
    if gate.loading
    then spinner
    else elim gate.user [ none ↦ login_screen gate.form | some user ↦ app user ]

-- `setUser`. The login screen leaves with a user, and the next one has a form of its own.
abbrev pub set_user : Option AdminMe → Gate → Gate
set_user user gate = record gate {
  user = user;
  form = if is_some gate.user || is_some user then new_form else gate.form;
}

-- `onUnauthorized`, where the event is dispatched.
abbrev pub on_unauthorized : Bool → Gate → Gate
on_unauthorized dispatched gate = if dispatched then set_user none gate else gate

-- The value of a promise that resolved, as `setUser` takes it.
abbrev user_of : Outcome AdminMe → Option AdminMe
user_of (value user) = some user
user_of _ = none

-- The tail of `load`.
abbrev load_settles : Outcome AdminMe → Gate → Gate
load_settles outcome gate = record (set_user (user_of outcome) gate) { loading = false }

-- `doLogin`, up to its await.
abbrev submit : Gate → Gate
submit gate = record gate { form = record { error = none; pending = true } }

-- `setError` and `setPending` of a form that is on the screen.
abbrev refuse : String → Gate → Gate
refuse message gate =
    if is_some gate.user
    then gate
    else record gate { form = record { error = some message; pending = false } }

-- The tail of `doLogin`.
abbrev pub signed_in : Outcome AdminMe → Gate → Gate
signed_in (value user) gate = set_user (some user) gate
signed_in undefined gate = set_user none gate
signed_in thrown gate = refuse "Login failed" gate
signed_in (request_error e) gate = refuse e.message gate

-- What the gate goes through: the answer of a `load`, a submitted form and its answer, the answer of
-- a logout, and the answer of any call of a page. The email of a sign-in is the trimmed one.
pub data GateEvent : Type 0 where
  loads : AdminSettled AdminMe → GateEvent
  submits : GateEvent
  signs_in : (email password : String) → AdminSettled AdminMe → GateEvent
  logs_out : AdminSettled Unit → GateEvent
  calls : (endpoint : Endpoint) → AdminSettled (ReplyOf endpoint) → GateEvent

-- `request` dispatches before its caller goes on.
unfoldable pub step_gate : GateEvent → Gate → Gate
step_gate (loads answer) gate =
    let (dispatched, outcome) = settle_request (call Endpoint.me).path answer in
    load_settles outcome (on_unauthorized dispatched gate)
step_gate submits gate = submit gate
step_gate (signs_in email password answer) gate =
    let (dispatched, outcome) = settle_request (call (Endpoint.login email password)).path answer in
    signed_in outcome (on_unauthorized dispatched gate)
step_gate (logs_out answer) gate =
    let (dispatched, outcome) = settle_request (call Endpoint.logout).path answer in
    set_user none (on_unauthorized dispatched gate)
step_gate (calls endpoint answer) gate =
    let (dispatched, outcome) = settle_request (call endpoint).path answer in
    on_unauthorized dispatched gate

-- The gate behind a history, the latest event first.
abbrev pub gate_after : List GateEvent → Gate
gate_after [] = new_gate
gate_after (event ∷ past) = step_gate event (gate_after past)

pub data Capability : Type 0 where
  read dlq_replay broadcast_compose apikey_read apikey_manage env_read_secret env_create hmac_rotate
        user_manage :
      Capability

abbrev capability_name : Capability → String
capability_name read = "read"
capability_name dlq_replay = "dlq:replay"
capability_name broadcast_compose = "broadcast:compose"
capability_name apikey_read = "apikey:read"
capability_name apikey_manage = "apikey:manage"
capability_name env_read_secret = "env:read_secret"
capability_name env_create = "env:create"
capability_name hmac_rotate = "hmac:rotate"
capability_name user_manage = "user:manage"

-- `has` of the context.
unfoldable pub has : AdminMe → Capability → Bool
has user capability = any (str_eq (capability_name capability)) user.capabilities
