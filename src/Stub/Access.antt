-- ===== src/Stub/Access.antt =====
-- Which requests the server lets through.
use chimely.Prelude.{
  ℕ, String, false, Option, none, some, List, [], ◌++◌, ◌≡◌, ◌⊎◌, refl, sym, ap, ◌∙◌, subst, arith,
  inl, inr, eq_refl, decimal,
}
use chimely.Types.{Preference}
use chimely.Client.State.{
  Client, Method, request, when_some, when_number, when_truthy, content_type,
}
use chimely.Stub.{StubServer}
use chimely.Stub.Listing.{param}
use chimely.Stub.Routes.{is_refused, differs}

-- The header of an expiry.
abbrev expiry : Option ℕ → Option String
expiry none = none
expiry (some at) = some (decimal at)

-- The server takes the requests of a client: its environment and subscriber are the client's, it asks
-- for no credentials or for the client's, and no failure is injected.
pub record Accepts (s : StubServer) (c : Client) : Type 0 where
  pub failures : s.failures ≡ []
  pub environment : c.config.environment ≡ s.environment
  pub subscriber : c.config.subscriber_id ≡ s.subscriber_id
  pub hash : (s.require_hash ≡ none) ⊎ (s.require_hash ≡ c.config.subscriber_hash)
  pub expires :
      (s.require_expires ≡ none) ⊎ (s.require_expires ≡ expiry c.config.subscriber_hash_expires_at)

-- The headers of a request behind those of the environment and the subscriber.
abbrev credentials :
    Option String → Option ℕ → Option String → Option (List Preference) → List (String × String)
credentials hash at etag body =
    when_some "X-Chimely-Subscriber-Hash" hash
    ++ (when_number "X-Chimely-Subscriber-Expires" at
        ++ (when_truthy "If-None-Match" etag ++ content_type body))

hash_header :
    (hash : Option String) (at : Option ℕ) (etag : Option String) (body : Option (List Preference))
    → param "X-Chimely-Subscriber-Hash" (credentials hash at etag body) ≡ hash
hash_header (some h) at etag body = refl
hash_header none none none none = refl
hash_header none none none (some b) = refl
hash_header none (some n) none none = refl
hash_header none (some n) none (some b) = refl
hash_header none none (some e) none = ground arith
hash_header none none (some e) (some b) = ground arith
hash_header none (some n) (some e) none = ground arith
hash_header none (some n) (some e) (some b) = ground arith

expires_header :
    (hash : Option String) (at : Option ℕ) (etag : Option String) (body : Option (List Preference))
    → param "X-Chimely-Subscriber-Expires" (credentials hash at etag body) ≡ expiry at
expires_header none (some n) etag body = refl
expires_header (some h) (some n) etag body = refl
expires_header none none none none = refl
expires_header none none none (some b) = refl
expires_header (some h) none none none = refl
expires_header (some h) none none (some b) = refl
expires_header none none (some e) none = ground arith
expires_header none none (some e) (some b) = ground arith
expires_header (some h) none (some e) none = ground arith
expires_header (some h) none (some e) (some b) = ground arith

same_self : (text : String) → differs (some text) (some text) ≡ false
same_self text = rw (eq_refl text)

own_header : (text : Option String) → differs text text ≡ false
own_header none = refl
own_header (some text) = same_self text

unless_required :
    (wanted header : Option String)
    → (wanted ≡ none) ⊎ (wanted ≡ header)
    → differs wanted header ≡ false
unless_required wanted header (inl e) = rw e refl
unless_required wanted header (inr e) = rw e (own_header header)

pub accepted :
    (c : Client) (s : StubServer) (m : Method) (segments : List String)
    (params : List (String × String)) (etag : Option String) (body : Option (List Preference))
    → Accepts s c
    → is_refused (request c m segments params etag body) s ≡ false
unfolding request
accepted c s m segments params etag body a =
    let hash = c.config.subscriber_hash in
    let at = c.config.subscriber_hash_expires_at in
    let first : differs (some s.environment) (some c.config.environment) ≡ false =
      rw a.environment (same_self s.environment) in
    let second : differs (some s.subscriber_id) (some c.config.subscriber_id) ≡ false =
      rw a.subscriber (same_self s.subscriber_id) in
    rw first (
      rw second (
        rw (hash_header hash at etag body) (
          rw (expires_header hash at etag body) (
            rw (unless_required s.require_hash hash a.hash)
              (unless_required s.require_expires (expiry at) a.expires)))))

-- Whether a client is let through is up to its configuration.
pub Accepts-config :
    (s : StubServer) (c d : Client) → d.config ≡ c.config → Accepts s c → Accepts s d
Accepts-config s c d e a = record {
  failures = a.failures;
  environment = ap (λ z. z.environment) e ∙ a.environment;
  subscriber = ap (λ z. z.subscriber_id) e ∙ a.subscriber;
  hash = subst (λ z. (s.require_hash ≡ none) ⊎ (s.require_hash ≡ z.subscriber_hash)) (sym e) a.hash;
  expires =
      subst
        (λ z.
          (s.require_expires ≡ none) ⊎ (s.require_expires ≡ expiry z.subscriber_hash_expires_at))
        (sym e) a.expires;
}
