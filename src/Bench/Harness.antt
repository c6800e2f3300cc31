-- ===== src/Bench/Harness.antt =====
-- The state of bench/sse/sse-load.mjs and its handlers, with the stages of main. A time is a number of
-- ticks. A handler takes no time: `performance.now()` answers it the same throughout. The openers are
-- numbers: `idle` are about to test their loop's condition, `finished` have left it, and each other
-- one awaits a connection that is requested or refused.
pub mod Run
pub mod Phases
pub mod Keeps
pub mod Ramp
pub mod Counts
pub mod Attribution
pub mod Samples
use chimely.Prelude.{
  ℕ, zero, suc, ◌+◌, ◌-◌, ◌*◌, ◌%◌, max, min, String, ◌+++◌, units, Bool, true, false, not, ◌&&◌,
  ◌||◌, Option, none, some, List, [], ◌∷◌, ◌++◌, length, if◌then◌else◌, ◌==◌, ltb, str_eq, decimal,
}
use chimely.Prelude.Units.{Units, includes, member}
use chimely.Bench.Stream.{receive, fields_of}

-- The numbers of `cfg`, as `parseInt` left them.
pub record Config : Type 0 where
  pub sub_prefix : String
  pub n : ℕ
  pub m : ℕ
  pub cap : ℕ
  pub probe_interval_ms : ℕ
  pub ramp_concurrency : ℕ

-- `cfg.n / cfg.m > cfg.cap`, where the program exits.
abbrev pub exceeds_cap : Config → Bool
exceeds_cap cfg = ltb (cfg.m * cfg.cap) cfg.n

pub data Phase : Type 0 where
  requested : (started : ℕ) → Phase
  refused : Phase
  streaming : (buf : Units) → Phase
  over : Phase

pub record Connection : Type 0 where
  pub index : ℕ
  pub phase : Phase

pub record Probe : Type 0 where
  pub accepted_at : ℕ
  pub seen_on : List ℕ

pub data Stage : Type 0 where
  ramping holding settling reporting : Stage

pub record Harness : Type 0 where
  pub established : ℕ
  pub peak_established : ℕ
  pub open_count : ℕ
  pub failures : List (String × ℕ)
  pub hint_latencies_ms : List ℕ
  pub probes_sent : ℕ
  pub probes_accepted : ℕ
  pub probe_errors : ℕ
  pub rss_samples_kb : List (ℕ × ℕ)
  pub connect_latencies_ms : List ℕ
  pub events_seen : ℕ
  pub dropped_mid_stream : ℕ
  pub inflight_probes : List Probe
  pub probes_pending : ℕ
  pub next : ℕ
  pub idle : ℕ
  pub finished : ℕ
  pub connections : List Connection
  pub stage : Stage

-- `Math.min(cfg.rampConcurrency, cfg.n)`.
abbrev pub openers : Config → ℕ
openers cfg = min cfg.ramp_concurrency cfg.n

abbrev pub new_harness : Config → Harness
new_harness cfg = record {
  established = 0;
  peak_established = 0;
  open_count = 0;
  failures = [];
  hint_latencies_ms = [];
  probes_sent = 0;
  probes_accepted = 0;
  probe_errors = 0;
  rss_samples_kb = [];
  connect_latencies_ms = [];
  events_seen = 0;
  dropped_mid_stream = 0;
  inflight_probes = [];
  probes_pending = 0;
  next = 0;
  idle = openers cfg;
  finished = 0;
  connections = [];
  stage = Stage.ramping;
}

-- `failures.set(cause, (failures.get(cause) || 0) + 1)`.
abbrev pub count_failure : String → List (String × ℕ) → List (String × ℕ)
count_failure cause [] = (cause, 1) ∷ []
count_failure cause ((known, n) ∷ failures) =
    let later = count_failure cause failures in
    if str_eq known cause then (known, n + 1) ∷ failures else (known, n) ∷ later

abbrev pub fail : String → Harness → Harness
fail cause state = record state { failures = count_failure cause state.failures }

-- `expireProbes`: the probes that it leaves.
unfoldable pub expire_probes : Config → ℕ → List Probe → List Probe
expire_probes cfg now [] = []
expire_probes cfg now (probe ∷ probes) =
    let later = expire_probes cfg now probes in
    if ltb (probe.accepted_at + cfg.probe_interval_ms * 2) now then later else probe ∷ probes

-- `connIdx % cfg.m`, the subscriber's number.
abbrev pub subscriber_number : Config → ℕ → ℕ
subscriber_number cfg index = index % cfg.m

abbrev pub subscriber_for : Config → ℕ → String
subscriber_for cfg index = cfg.sub_prefix +++ ("-" +++ decimal (subscriber_number cfg index))

-- `isProbeConn`.
abbrev pub is_probe_conn : Config → ℕ → Bool
is_probe_conn cfg index = str_eq (subscriber_for cfg index) (cfg.sub_prefix +++ "-0")

-- The first probe that the connection is not counted against gets it: the sample, and the probes.
unfoldable pub attribute : ℕ → ℕ → List Probe → Option ℕ × List Probe
attribute index now [] = (none, [])
attribute index now (probe ∷ probes) =
    let (sample, later) = attribute index now probes in
    if member index probe.seen_on then (sample, probe ∷ later) else (
      some (now - probe.accepted_at),
      record probe { seen_on = probe.seen_on ++ index ∷ [] } ∷ probes,
    )

abbrev pub add_sample : Option ℕ → List ℕ → List ℕ
add_sample none samples = samples
add_sample (some x) samples = samples ++ x ∷ []

unfoldable pub same_units : Units → Units → Bool
same_units [] [] = true
same_units [] (d ∷ t) = false
same_units (c ∷ s) [] = false
same_units (c ∷ s) (d ∷ t) = c == d && same_units s t

-- The tail of `handleFrame`, for a hint that is not lagged and a connection of the probe subscriber.
unfoldable pub see_hint : Config → ℕ → ℕ → Harness → Harness
see_hint cfg index now state =
    let (sample, probes) = attribute index now (expire_probes cfg now state.inflight_probes) in
    record state {
      inflight_probes = probes;
      hint_latencies_ms = add_sample sample state.hint_latencies_ms;
    }

abbrev pub is_hint : Units → Bool
is_hint frame = same_units (fields_of frame).event (units "hint")

abbrev pub is_lagged : Units → Bool
is_lagged frame = includes (fields_of frame).event_data (units "\"lagged\"")

unfoldable pub handle_frame : Config → ℕ → ℕ → Units → Harness → Harness
handle_frame cfg index now frame state =
    if is_hint frame
    then (let seen = record state { events_seen = state.events_seen + 1 } in
        if not (is_lagged frame) && is_probe_conn cfg index
        then see_hint cfg index now seen
        else seen)
    else state

-- The loop over the frames of a chunk.
unfoldable pub handle_frames : Config → ℕ → ℕ → List Units → Harness → Harness
handle_frames cfg index now [] state = state
handle_frames cfg index now (frame ∷ frames) state =
    handle_frames cfg index now frames (handle_frame cfg index now frame state)
