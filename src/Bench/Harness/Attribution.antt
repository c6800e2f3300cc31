-- ===== src/Bench/Harness/Attribution.antt =====
-- Which probe of bench/sse/sse-load.mjs a hint is counted for.
use chimely.Prelude.{
  ℕ, ◌+◌, ◌*◌, ◌≤◌, true, false, not, Option, none, some, List, [], ◌∷◌, ◌++◌, if◌then◌else◌, ◌==◌,
  ltb, ◌≡◌, refl, inl, inr, arith, ◌&&◌, Bool-cases, length, length-append, All, All-append,
  is_some,
}
use chimely.Prelude.Units.{Units, member}
use chimely.Bench.Harness.{
  Config, Probe, Harness, handle_frame, see_hint, attribute, add_sample, expire_probes,
  is_probe_conn, is_hint, is_lagged,
}

-- No number twice.
abbrev pub NoRepeat : List ℕ → Type 0
NoRepeat [] = Unit
NoRepeat (x ∷ xs) = (member x xs ≡ false) × NoRepeat xs

member-append :
    (x y : ℕ) (xs : List ℕ)
    → (x == y) ≡ false
    → member x xs ≡ false
    → member x (xs ++ y ∷ []) ≡ false
member-append x y [] h k = ground arith
member-append x y (z ∷ xs) h k = ground (arith, member-append x y xs)

NoRepeat-append :
    (y : ℕ) (xs : List ℕ) → member y xs ≡ false → NoRepeat xs → NoRepeat (xs ++ y ∷ [])
NoRepeat-append y [] h k = (refl, tt)
NoRepeat-append y (x ∷ xs) h (k, ks) =
    (member-append x y xs (ground arith) k, NoRepeat-append y xs (ground arith) ks)

-- A probe is counted on connections of the probe subscriber, on each at most once.
abbrev pub Sampled : Config → Probe → Type 0
Sampled cfg probe = NoRepeat probe.seen_on × All (λ i. is_probe_conn cfg i ≡ true) probe.seen_on

pub expire-Sampled :
    (cfg : Config) (now : ℕ) (probes : List Probe)
    → All (Sampled cfg) probes
    → All (Sampled cfg) (expire_probes cfg now probes)
unfolding expire_probes
expire-Sampled cfg now [] h = tt
expire-Sampled cfg now (probe ∷ probes) h =
    elim (Bool-cases (ltb (probe.accepted_at + cfg.probe_interval_ms * 2) now)) [
      | inl e ↦ rw e (expire-Sampled cfg now probes h.1)
      | inr e ↦ rw e h
    ]

attribute-Sampled :
    (cfg : Config) (index now : ℕ) (probes : List Probe)
    → is_probe_conn cfg index ≡ true
    → All (Sampled cfg) probes
    → All (Sampled cfg) (attribute index now probes).1
unfolding attribute
attribute-Sampled cfg index now [] e h = tt
attribute-Sampled cfg index now (probe ∷ probes) e (h, hs) =
    elim (Bool-cases (member index probe.seen_on)) [
      | inl seen ↦ rw seen (h, attribute-Sampled cfg index now probes e hs)
      | inr unseen ↦ rw unseen (
        (
          NoRepeat-append index probe.seen_on unseen h.0,
          All-append (λ i. is_probe_conn cfg i ≡ true) probe.seen_on (index ∷ []) h.1 (e, tt),
        ),
        hs,
      )
    ]

-- How often the probes in flight are counted.
abbrev pub total_seen : List Probe → ℕ
total_seen [] = 0
total_seen (probe ∷ probes) = length probe.seen_on + total_seen probes

pub expire-total_seen :
    (cfg : Config) (now : ℕ) (probes : List Probe)
    → total_seen (expire_probes cfg now probes) ≤ total_seen probes
unfolding expire_probes
expire-total_seen cfg now [] = omega arith
expire-total_seen cfg now (probe ∷ probes) = ground (arith, expire-total_seen cfg now probes)

attribute-total_seen :
    (index now : ℕ) (probes : List Probe)
    → (if is_some (attribute index now probes).0 then 1 else 0) + total_seen probes
      ≡ total_seen (attribute index now probes).1
unfolding attribute
attribute-total_seen index now [] = refl
attribute-total_seen index now (probe ∷ probes) =
    let later = attribute-total_seen index now probes in
    elim (Bool-cases (member index probe.seen_on)) [
      | inl seen ↦ rw seen (omega arith)
      | inr unseen ↦ rw unseen (omega (arith, length-append probe.seen_on (index ∷ [])))
    ]

length-add_sample :
    (sample : Option ℕ) (samples : List ℕ)
    → length (add_sample sample samples) ≡ (if is_some sample then 1 else 0) + length samples
length-add_sample none samples = omega arith
length-add_sample (some x) samples = omega (arith, length-append samples (x ∷ []))

-- Each sample is a hint, and the probes in flight are counted at most once for each sample.
abbrev pub Attributed : Config → Harness → Type 0
Attributed cfg state =
    All (Sampled cfg) state.inflight_probes
    × (total_seen state.inflight_probes ≤ length state.hint_latencies_ms)
    × (length state.hint_latencies_ms ≤ state.events_seen)

see_hint-Attributed :
    (cfg : Config) (index now : ℕ) (state : Harness)
    → is_probe_conn cfg index ≡ true
    → Attributed cfg state
    → Attributed cfg (see_hint cfg index now (record state { events_seen = state.events_seen + 1 }))
unfolding see_hint
see_hint-Attributed cfg index now state e (sampled, fewer, hints) =
    let probes = expire_probes cfg now state.inflight_probes in
    let sample = attribute index now probes in
    (
      attribute-Sampled cfg index now probes e
          (expire-Sampled cfg now state.inflight_probes sampled),
      omega (
        arith,
        length-add_sample sample.0 state.hint_latencies_ms,
        attribute-total_seen index now probes,
        expire-total_seen cfg now state.inflight_probes,
      ),
      ground (arith, length-add_sample sample.0 state.hint_latencies_ms),
    )

pub handle_frame-Attributed :
    (cfg : Config) (index now : ℕ) (frame : Units) (state : Harness)
    → Attributed cfg state
    → Attributed cfg (handle_frame cfg index now frame state)
unfolding handle_frame
handle_frame-Attributed cfg index now frame state h = elim (Bool-cases (is_hint frame)) [
  | inl hint ↦ elim (Bool-cases (not (is_lagged frame) && is_probe_conn cfg index)) [
    | inl seen ↦ rw (hint, seen) (see_hint-Attributed cfg index now state (ground arith) h)
    | inr unseen ↦ rw (hint, unseen) (h.0, h.1, omega (arith, h.2))
  ]
  | inr other ↦ rw other h
]
