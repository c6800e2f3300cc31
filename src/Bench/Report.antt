-- ===== src/Bench/Report.antt =====
-- The summary that main of bench/sse/sse-load.mjs prints, in its own units: ticks, and kilobytes of
-- memory. The times of the ramp and the texts of the configuration are left out.
use chimely.Prelude.{
  ℕ, ◌+◌, ◌≤◌, max, String, false, Option, none, some, List, [], ◌∷◌, map, ◌≡◌, arith, inl, inr,
}
use chimely.Bench.Harness.{Config, Harness}
use chimely.Bench.Harness.Run.{BenchEvent, harness_after, is_reporting}
use chimely.Bench.Harness.Counts.{harness_after-Counted}
use chimely.Bench.Harness.Samples.{harness_after-Attributed}
use chimely.Bench.Percentiles.{Summary, summarize}
use chimely.Bench.Percentiles.Laws.{length-sort}

abbrev pub greatest_of : ℕ → List ℕ → ℕ
greatest_of x [] = x
greatest_of x (y ∷ ys) = max x (greatest_of y ys)

abbrev pub last_of : ℕ → List ℕ → ℕ
last_of x [] = x
last_of x (y ∷ ys) = last_of y ys

pub record Memory : Type 0 where
  pub start : ℕ
  pub greatest : ℕ
  pub end : ℕ

-- `rssKb.length ? ... : null`.
abbrev pub memory_of : List ℕ → Option Memory
memory_of [] = none
memory_of (x ∷ xs) = some (record { start = x; greatest = greatest_of x xs; end = last_of x xs })

pub record Report : Type 0 where
  pub n : ℕ
  pub m : ℕ
  pub cap : ℕ
  pub established : ℕ
  pub peak_established : ℕ
  pub open_at_end : ℕ
  pub dropped_mid_stream : ℕ
  pub failures : List (String × ℕ)
  pub connect_ms : Summary
  pub sent : ℕ
  pub accepted : ℕ
  pub errors : ℕ
  pub hint_latency_ms : Summary
  pub hint_events_total : ℕ
  pub server_rss : Option Memory

unfoldable pub report : Config → Harness → Report
report cfg state = record {
  n = cfg.n;
  m = cfg.m;
  cap = cfg.cap;
  established = state.established;
  peak_established = state.peak_established;
  open_at_end = state.open_count;
  dropped_mid_stream = state.dropped_mid_stream;
  failures = state.failures;
  connect_ms = summarize state.connect_latencies_ms;
  sent = state.probes_sent;
  accepted = state.probes_accepted;
  errors = state.probe_errors;
  hint_latency_ms = summarize state.hint_latencies_ms;
  hint_events_total = state.events_seen;
  server_rss = memory_of (map (λ sample. sample.1) state.rss_samples_kb);
}

-- The report of every history that has not reported yet adds up: the streams that were established are
-- open at the end or dropped, and the peak is between what is open and what was established; each has
-- a connect latency; there are at most as many hint latencies as hints; and the probes that were
-- accepted or failed are at most those that were sent.
pub report-Consistent :
    (cfg : Config) (past : List (ℕ × BenchEvent))
    → is_reporting (harness_after cfg past).stage ≡ false
    → let r = report cfg (harness_after cfg past) in
      (r.established ≡ r.open_at_end + r.dropped_mid_stream)
      × (r.open_at_end ≤ r.peak_established)
      × (r.peak_established ≤ r.established)
      × (r.connect_ms.count ≡ r.established)
      × (r.hint_latency_ms.count ≤ r.hint_events_total)
      × (r.accepted + r.errors ≤ r.sent)
unfolding report summarize
report-Consistent cfg past e =
    let state = harness_after cfg past in
    let counted = harness_after-Counted cfg past in
    let hints = harness_after-Attributed cfg past in
    (
      elim counted.3 [ inl k ↦ k | inr r ↦ let no : ⊥ = cc in elim no [ ] ],
      counted.1,
      counted.2,
      omega (arith, counted.4, length-sort state.connect_latencies_ms),
      omega (arith, hints.2, length-sort state.hint_latencies_ms),
      omega (arith, counted.5),
    )
