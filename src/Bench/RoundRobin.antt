-- ===== src/Bench/RoundRobin.antt =====
-- The spread of the connections over the subscribers in bench/sse/sse-load.mjs: `cfg.m`, the refusal of
-- a configuration, and subscriberFor.
use chimely.Prelude.{
  ℕ, zero, suc, ◌+◌, ◌-◌, ◌*◌, ◌/◌, ◌%◌, ◌≤◌, ◌<◌, false, Option, none, List, [], ◌∷◌, ◌==◌, ltb,
  ◌≡◌, sym, ap, ◌∙◌, arith, inl, inr, Bool-cases, or_else,
}
use native.Mathlib.Nat.{
  mod-lt, mod-add-mod, mod-eq_of_lt, mod_self, mod-add-div, mul-le-mul_left, le_of_mul-le-mul_left,
  mul-suc, mul_comm, div-eq_of_lt, eq_of_mul-eq-mul_left,
}
use chimely.Bench.Harness.{Config, exceeds_cap, subscriber_number}
use chimely.Bench.Harness.Phases.{one_if, countdown}

-- `cfg.m`: `M`, or `Math.ceil(cfg.n / cfg.cap)`.
abbrev pub subscribers : Option ℕ → ℕ → ℕ → ℕ
subscribers given n cap = or_else given ((n + cap - 1) / cap)

-- How many of the connections go to the subscriber of a number.
abbrev pub streams_of : Config → ℕ → List ℕ → ℕ
streams_of cfg number [] = 0
streams_of cfg number (index ∷ indexes) =
    one_if (subscriber_number cfg index == number) + streams_of cfg number indexes

-- The quotient and the rest of the next number.
next_round : (m n : ℕ) → 0 < m → suc (n % m) ≡ m → (suc n % m ≡ 0) × (suc n / m ≡ suc (n / m))
next_round m n h e =
    let wraps : suc n % m ≡ 0 =
      ap (λ z. z % m) {x = suc n} {y = n + 1} (omega arith)
      ∙ sym (mod-add-mod n m 1)
      ∙ ap (λ z. z % m) (omega (arith, e))
      ∙ mod_self m in
    (
      wraps,
      eq_of_mul-eq-mul_left m h (suc n / m) (suc (n / m))
          (omega (arith, wraps, e, mod-add-div n m, mod-add-div (suc n) m, mul-suc m (n / m))),
    )

same_round : (m n : ℕ) → 0 < m → suc (n % m) < m → (suc n % m ≡ suc (n % m)) × (suc n / m ≡ n / m)
same_round m n h e =
    let goes_on : suc n % m ≡ suc (n % m) =
      ap (λ z. z % m) {x = suc n} {y = n + 1} (omega arith)
      ∙ sym (mod-add-mod n m 1)
      ∙ ap (λ z. z % m) (omega arith)
      ∙ mod-eq_of_lt e in
    (
      goes_on,
      eq_of_mul-eq-mul_left m h (suc n / m) (n / m)
          (omega (arith, goes_on, mod-add-div n m, mod-add-div (suc n) m)),
    )

streams_of-countdown :
    (cfg : Config) (number n : ℕ)
    → number < cfg.m
    → streams_of cfg number (countdown n) ≡ n / cfg.m + one_if (ltb number (n % cfg.m))
streams_of-countdown cfg number zero h =
    let none_yet = mod-eq_of_lt {n = 0} {m = cfg.m} (omega arith) in
    let no_round = div-eq_of_lt {n = 0} {m = cfg.m} (omega arith) in
    ground (arith, none_yet, no_round)
streams_of-countdown cfg number (suc n) h =
    let before = streams_of-countdown cfg number n h in
    let rest = mod-lt n {m = cfg.m} (omega arith) in
    elim (Bool-cases (suc (n % cfg.m) == cfg.m)) [
      | inl e ↦
          let next = next_round cfg.m n (omega arith) (ground arith) in
          ground (arith, next.0, next.1)
      | inr e ↦
          let same = same_round cfg.m n (omega arith) (ground arith) in
          ground (arith, same.0, same.1)
    ]

-- A configuration that is not refused gives no subscriber more than the cap of the n connections.
pub streams_of-cap :
    (cfg : Config) (number : ℕ)
    → exceeds_cap cfg ≡ false
    → number < cfg.m
    → streams_of cfg number (countdown cfg.n) ≤ cfg.cap
streams_of-cap cfg number h k =
    let streams = streams_of-countdown cfg number cfg.n k in
    let within : cfg.n ≤ cfg.m * cfg.cap = ground arith in
    let rounds = mod-add-div cfg.n cfg.m in
    elim (Bool-cases (ltb number (cfg.n % cfg.m))) [
      | inl e ↦ elim (Bool-cases (ltb (cfg.n / cfg.m) cfg.cap)) [
        | inl fewer ↦ ground arith
        | inr more ↦
            let full : cfg.m * cfg.cap ≤ cfg.m * (cfg.n / cfg.m) =
              mul-le-mul_left cfg.m (ground arith) in
            ground arith
      ]
      | inr e ↦
          let fits : cfg.n / cfg.m ≤ cfg.cap =
            le_of_mul-le-mul_left {k = cfg.m} (omega arith) (omega arith) in
          ground arith
    ]

-- The default number of subscribers is not refused.
subscribers-default :
    (cfg : Config) → 0 < cfg.cap → cfg.m ≡ subscribers none cfg.n cfg.cap → exceeds_cap cfg ≡ false
subscribers-default cfg h e =
    let rest = mod-lt (cfg.n + cfg.cap - 1) {m = cfg.cap} h in
    let rounds = mod-add-div (cfg.n + cfg.cap - 1) cfg.cap in
    let all : cfg.n ≤ cfg.cap * ((cfg.n + cfg.cap - 1) / cfg.cap) = omega arith in
    let spread : cfg.m * cfg.cap ≡ cfg.cap * ((cfg.n + cfg.cap - 1) / cfg.cap) =
      ap (λ z. z * cfg.cap) e ∙ mul_comm _ cfg.cap in
    ground (arith, all, spread)
