-- ===== src/Client/Backoff.antt =====
-- packages/client/src/backoff.ts over the numbers of JavaScript, of which a record gives the operations.
use chimely.Client.State.{Delay, directive, backoff_at}
use chimely.Prelude.{ℕ, ◌-◌, Option, none, or_else}

-- The operations of the platform, with no law assumed.
pub record Numbers : Type 1 where
  pub Number : Type 0
  pub zero : Number
  pub one : Number
  pub two : Number
  pub add : Number → Number → Number
  pub sub : Number → Number → Number
  pub mul : Number → Number → Number
  pub min : Number → Number → Number
  pub max : Number → Number → Number
  pub pow : Number → ℕ → Number
  pub round : Number → Number
  pub infinity : Number
  pub literal : ℕ → Number
  pub half : Number

module _ (n : Numbers) where
  pub record BackoffConfig : Type 0 where
    pub initial_delay_ms : Option n.Number
    pub max_delay_ms : Option n.Number
    pub multiplier : Option n.Number
    pub jitter : Option n.Number
    pub max_attempts : Option n.Number

  pub record ResolvedBackoff : Type 0 where
    pub initial_delay_ms : n.Number
    pub max_delay_ms : n.Number
    pub multiplier : n.Number
    pub jitter : n.Number
    pub max_attempts : n.Number

  abbrev pub backoff_defaults : ResolvedBackoff
  backoff_defaults = record {
    initial_delay_ms = n.literal 1000;
    max_delay_ms = n.literal 30000;
    multiplier = n.literal 2;
    jitter = n.half;
    max_attempts = n.infinity;
  }

  abbrev no_config : BackoffConfig
  no_config = record {
    initial_delay_ms = none;
    max_delay_ms = none;
    multiplier = none;
    jitter = none;
    max_attempts = none;
  }

  unfoldable pub resolve_backoff : Option BackoffConfig → ResolvedBackoff
  resolve_backoff config =
      let given = or_else config no_config in
      record {
        initial_delay_ms = or_else given.initial_delay_ms backoff_defaults.initial_delay_ms;
        max_delay_ms = or_else given.max_delay_ms backoff_defaults.max_delay_ms;
        multiplier = or_else given.multiplier backoff_defaults.multiplier;
        jitter = or_else given.jitter backoff_defaults.jitter;
        max_attempts = or_else given.max_attempts backoff_defaults.max_attempts;
      }

  -- The base delay, where the subtraction stops at 0.
  unfoldable pub base_delay : ℕ → ResolvedBackoff → n.Number
  base_delay attempt backoff =
      n.min backoff.max_delay_ms
        (n.mul backoff.initial_delay_ms (n.pow backoff.multiplier (attempt - 1)))

  unfoldable pub backoff_delay_ms : ℕ → ResolvedBackoff → n.Number → n.Number
  backoff_delay_ms attempt backoff random =
      let base = base_delay attempt backoff in
      let spread = n.mul backoff.jitter (n.sub (n.mul n.two random) n.one) in
      n.max n.zero (n.round (n.mul base (n.add n.one spread)))

  -- The milliseconds of a reconnect timer: the directive of the server, or the backoff.
  unfoldable pub delay_ms : Delay → ResolvedBackoff → n.Number → n.Number
  delay_ms (directive ms) backoff random = n.literal ms
  delay_ms (backoff_at attempts) backoff random = backoff_delay_ms attempts backoff random
