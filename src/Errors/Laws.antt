-- ===== src/Errors/Laws.antt =====
-- What errors.ts and `http` promise of every response.
use chimely.Prelude.{
  ℕ, ◌≤◌, ◌<◌, String, Option, none, some, ◌≡◌, ◌↔◌, ◌⊎◌, refl, arith, not, ◌&&◌, ◌≢◌, ◌==◌, inl,
  inr, Bool-cases, subst, dec_lt, ℕ_discrete,
}
use chimely.Types.{ChimelyError}
use chimely.Errors.{
  Response, responded, ok, err, ErrorBody, envelope, unparsable, no_error, http_result,
  error_from_response, fallback_code, is_ok,
}

-- A body that names no code.
abbrev IsSilent : ErrorBody → Type 0
IsSilent (envelope (some code) message) = ⊥
IsSilent _ = Unit

-- The code of a failed response: its own, or the one that stands for its status.
pub data HasCode (status : ℕ) (body : ErrorBody) (code : String) : Type 0 where
  named : (message : Option String) → body ≡ envelope (some code) message → HasCode status body code
  unauthorized : IsSilent body → status ≡ 401 → code ≡ "unauthorized" → HasCode status body code
  not_found : IsSilent body → status ≡ 404 → code ≡ "not_found" → HasCode status body code
  rate_limited : IsSilent body → status ≡ 429 → code ≡ "rate_limited" → HasCode status body code
  server_error : IsSilent body → 500 ≤ status → code ≡ "server_error" → HasCode status body code
  invalid_request :
      IsSilent body
      → status < 500
      → status ≢ 401
      → status ≢ 404
      → status ≢ 429
      → code ≡ "invalid_request"
      → HasCode status body code

silent-HasCode :
    (status : ℕ) (body : ErrorBody) → IsSilent body → HasCode status body (fallback_code status)
unfolding fallback_code
silent-HasCode status body s = elim (dec_lt status 500) [
  | yes low ↦ elim (ℕ_discrete status 401) [
    | yes e ↦ unauthorized s e (ground arith)
    | no ne ↦ elim (ℕ_discrete status 404) [
      | yes e ↦ not_found s e (ground arith)
      | no ne' ↦ elim (ℕ_discrete status 429) [
        | yes e ↦ rate_limited s e (ground arith)
        | no ne'' ↦ invalid_request s low ne ne' ne'' (ground arith)
      ]
    ]
  ]
  | no high ↦ server_error s (omega arith) (ground arith)
]

error-HasCode :
    (status : ℕ) (body : ErrorBody) → HasCode status body (error_from_response status body).code
unfolding error_from_response
error-HasCode status unparsable = silent-HasCode status unparsable tt
error-HasCode status no_error = silent-HasCode status no_error tt
error-HasCode status (envelope none message) = silent-HasCode status (envelope none message) tt
error-HasCode status (envelope (some code) message) = named message refl

error_keeps_status :
    (status : ℕ) (body : ErrorBody) → (error_from_response status body).status ≡ some status
unfolding error_from_response
error_keeps_status status body = ground arith

-- A response is passed on just if its status is 2xx or 304.
http_result-ok {ℓ} :
    {A : Type ℓ} (r : Response A)
    → (http_result (responded r) ≡ ok r)
      ↔ (((200 ≤ r.status) × (r.status < 300)) ⊎ (r.status ≡ 304))
unfolding http_result
http_result-ok r = (λ h. ground arith, λ h. ground arith)

-- A response that is not passed on becomes an error with its status and with the code that the
-- response has: the one that its envelope names, or the one that stands for the status.
pub http_result-err {ℓ} :
    {A : Type ℓ} (r : Response A) (e : ChimelyError)
    → http_result (responded r) ≡ err e
    → (e.status ≡ some r.status) × HasCode r.status r.error_body e.code
unfolding http_result
http_result-err r e h = elim (Bool-cases (not (is_ok r.status) && not (r.status == 304))) [
  | inl f ↦
      let same : error_from_response r.status r.error_body ≡ e = ground arith in
      subst (λ x. (x.status ≡ some r.status) × HasCode r.status r.error_body x.code) same
        (error_keeps_status r.status r.error_body, error-HasCode r.status r.error_body)
  | inr f ↦ let clash : ⊥ = ground arith in absurd clash
]
