-- ===== src/Errors.antt =====
-- packages/client/src/errors.ts, with `asChimelyError` and the classification of a response that
-- `http` of packages/client/src/client.ts makes.
pub mod Laws
use chimely.Prelude.{
  ℕ, String, Bool, true, false, ◌&&◌, not, Option, none, some, ltb, leb, ◌==◌, if◌then◌else◌,
  or_else, decimal, ◌+++◌,
}
use chimely.Types.{ChimelyError}

-- What a `throw` carried: a ChimelyError, another Error with its message, or anything else.
pub data Cause : Type 0 where
  chimely_error : ChimelyError → Cause
  js_error : String → Cause
  other : Cause

-- The body of a failed response as `errorFromResponse` reads it. `code` is `none` where it is no
-- string, `message` where it is null or undefined.
pub data ErrorBody : Type 0 where
  unparsable : ErrorBody
  no_error : ErrorBody
  envelope : (code message : Option String) → ErrorBody

-- What `response.json()` gives to a caller that expects an `A`.
pub data Body {ℓ} (A : Type ℓ) : Type ℓ where
  parsed : A → Body A
  rejected : Cause → Body A

pub record Response {ℓ} (A : Type ℓ) : Type ℓ where
  pub status : ℕ
  pub etag : Option String
  pub body : Body A
  pub error_body : ErrorBody

-- How a call of `fetchFn` settles.
pub data Settled {ℓ} (A : Type ℓ) : Type ℓ where
  responded : Response A → Settled A
  fetch_failed : Cause → Settled A

-- A promise's outcome: its value, or the error that it rejects with.
pub data Result {ℓ} (A : Type ℓ) : Type ℓ where
  ok : A → Result A
  err : ChimelyError → Result A

infixl 5 ◌>>=◌
abbrev pub ◌>>=◌ {ℓ κ} : {A : Type ℓ} {B : Type κ} → Result A → (A → Result B) → Result B
ok a >>= f = f a
err e >>= f = err e

unfoldable pub fallback_code : ℕ → String
fallback_code status =
    if status == 401
    then "unauthorized"
    else if status == 404
    then "not_found"
    else if status == 429
    then "rate_limited"
    else if leb 500 status
    then "server_error"
    else "invalid_request"

error_with : ℕ → String → String → ChimelyError
error_with status code message = record { message = message; code = code; status = some status }

unfoldable pub error_from_response : ℕ → ErrorBody → ChimelyError
unfolding error_with
error_from_response status (envelope (some code) message) =
    error_with status code (or_else message ("request failed with status " +++ decimal status))
error_from_response status _ =
    error_with status (fallback_code status) ("request failed with status " +++ decimal status)

cause_message : Cause → String
cause_message (chimely_error e) = e.message
cause_message (js_error message) = message
cause_message other = "network request failed"

unfoldable pub network_error : Cause → ChimelyError
unfolding cause_message
network_error cause = record { message = cause_message cause; code = "network"; status = none }

unfoldable pub as_chimely_error : Cause → ChimelyError
as_chimely_error (chimely_error e) = e
as_chimely_error cause = network_error cause

-- `response.ok`.
abbrev pub is_ok : ℕ → Bool
is_ok status = leb 200 status && ltb status 300

-- The tail of `http`, after `fetchFn` has settled.
unfoldable pub http_result {ℓ} : {A : Type ℓ} → Settled A → Result (Response A)
http_result (fetch_failed cause) = err (network_error cause)
http_result (responded r) =
    if not (is_ok r.status) && not (r.status == 304)
    then err (error_from_response r.status r.error_body)
    else ok r

-- `await response.json()` in a `try` whose handler applies `asChimelyError`.
unfoldable pub json {ℓ} : {A : Type ℓ} → Body A → Result A
json (parsed a) = ok a
json (rejected cause) = err (as_chimely_error cause)
