-- ===== src/Tests/Admin.antt =====
-- The admin console at concrete inputs.
use chimely.Prelude.{true, false, some, List, [], ◌∷◌, ◌≡◌, refl}
use chimely.Errors.{parsed, rejected, other}
use chimely.Admin.Records.{AdminMe, operator}
use chimely.Admin.Api.{
  AdminResponse, AdminSettled, answered, error_of, no_error, settle_request, request_error,
  is_mutating,
}
use chimely.Admin.Api.Endpoints.{Endpoint, call}
use chimely.Admin.Api.Laws.{Marked, call-Marked}
use chimely.Admin.Session.{
  Gate, GateEvent, loads, signs_in, calls, step_gate, gate_after, screen, app, login_screen,
  new_form,
}
use chimely.Admin.Session.Laws.{Granted, screen-Granted, unauthorized_to_login}

abbrev ada : AdminMe
ada = record {
  id = "u1";
  email = "ada@chimely.dev";
  name = "Ada";
  role = operator;
  capabilities = "read" ∷ "dlq:replay" ∷ [];
}

abbrev welcome : AdminSettled AdminMe
welcome = answered (record { status = 200; body = parsed ada; failure = no_error })

abbrev forbidden : AdminSettled AdminMe
forbidden = answered (record {
  status = 401;
  body = rejected other;
  failure = error_of (some "invalid_credentials") (some "Wrong password");
})

abbrev gone : AdminResponse Unit
gone = record { status = 401; body = rejected other; failure = no_error }

-- No session, a wrong password, the right one, and a change of another user's password.
abbrev history : List GateEvent
history =
    calls (Endpoint.set_user_password "u2" "secret")
      (answered (record { status = 204; body = rejected other; failure = no_error }))
    ∷ signs_in "ada@chimely.dev" "right" welcome
    ∷ signs_in "ada@chimely.dev" "wrong" forbidden
    ∷ loads forbidden
    ∷ []

call-Marked_example :
    Marked (call (Endpoint.delete_user "u2"))
    × (is_mutating (call (Endpoint.delete_user "u2")).method ≡ true)
call-Marked_example = call-Marked (Endpoint.delete_user "u2")

screen-Granted_example :
    (screen (gate_after history) ≡ app ada → Granted ada history)
    × (Granted ada history → (gate_after history).user ≡ some ada)
screen-Granted_example = screen-Granted ada history

abbrev open_gate : Gate
open_gate = record { user = some ada; loading = false; form = new_form }

unauthorized_to_login_example :
    let out = step_gate (calls (Endpoint.delete_user "u2") (answered gone)) open_gate in
    let tried = step_gate (signs_in "ada@chimely.dev" "wrong" forbidden) out in
    (screen out ≡ login_screen new_form)
    × ((settle_request (call (Endpoint.delete_user "u2")).path (answered gone)).1
        ≡ request_error
            (record { status = 401; code = "unauthorized"; message = "Session expired" }))
    × (screen tried ≡ login_screen (record { error = some "Wrong password"; pending = false }))
unauthorized_to_login_example =
    unauthorized_to_login (Endpoint.delete_user "u2") gone "ada@chimely.dev" "wrong"
      (record {
        status = 401;
        body = rejected other;
        failure = error_of (some "invalid_credentials") (some "Wrong password");
      })
      open_gate refl refl refl refl
