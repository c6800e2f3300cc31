-- ===== src/Tests/Loading.antt =====
-- The load harness at concrete inputs.
use chimely.Prelude.{
  ℕ, ◌+◌, ◌*◌, ◌≤◌, ◌<◌, units, false, some, List, [], ◌∷◌, ◌++◌, leb, ltb, ◌≡◌, refl, arith,
  decimal,
}
use chimely.Prelude.Units.{Units, split_lines, after, includes, trim, trim_start, trim_end}
use chimely.Bench.Stream.{
  frames_of, frames_from, cut_frame, receive, receive_all, read_line, read_lines, fields_of,
}
use chimely.Bench.Stream.Laws.{Fits, joined, receive_all-joined}
use chimely.Bench.Stream.Frame.{frame_of, fields_of-frame_of}
use chimely.Bench.Harness.{
  Config, handle_frames, handle_frame, see_hint, attribute, expire_probes, same_units,
}
use chimely.Bench.Harness.Run.{
  BenchEvent, opener_runs, response, drained, chunk, gone, probe_timer, probe_reply, main_goes_on,
  ended, harness_after, is_reporting, step_bench, opens, responds, drains, chunk_arrives, goes,
  sends_probe, probe_settles, probe_replies, goes_on, phase_of, set_phase,
}
use chimely.Bench.Harness.Phases.{countdown}
use chimely.Bench.Harness.Ramp.{Ramped, harness_after-Ramped}
use chimely.Bench.Harness.Attribution.{Attributed}
use chimely.Bench.Harness.Samples.{harness_after-Attributed}
use chimely.Bench.Percentiles.{percent_50, insert, sort, pct}
use chimely.Bench.Percentiles.Laws.{count_if}
use chimely.Bench.Percentiles.Ranks.{pct-sort}
use chimely.Bench.RoundRobin.{streams_of, streams_of-cap}
use chimely.Bench.Report.{report, report-Consistent}

abbrev chunks : List Units
chunks = units ": ping\n" ∷ units "\nevent: hint\nda" ∷ units "ta: {}\n\nevent" ∷ []

chunks-Fits : Fits [] chunks
unfolding frames_from cut_frame units
chunks-Fits = (omega arith, (omega arith, (omega arith, tt)))

receive_all-joined_example : receive_all [] chunks ≡ frames_of (joined chunks)
receive_all-joined_example = receive_all-joined chunks chunks-Fits

received :
    receive_all [] chunks ≡ (units ": ping" ∷ units "event: hint\ndata: {}" ∷ [], units "event")
unfolding receive_all receive frames_from cut_frame units
received = refl

abbrev hint : Units
hint = frame_of (units "5f") (units "hint") (units "{\"reason\":\"new\"}")

fields_of-frame_of_example :
    fields_of hint ≡ record { event = units "hint"; event_data = units "{\"reason\":\"new\"}" }
unfolding trim trim_start trim_end units
fields_of-frame_of_example =
    fields_of-frame_of (units "5f") (units "hint") (units "{\"reason\":\"new\"}") (refl, refl)
      (refl, refl) (refl, refl)

-- Two streams of the probe subscriber and one of the other.
abbrev cfg : Config
cfg = record {
  sub_prefix = "bench-sub";
  n = 3;
  m = 2;
  cap = 2;
  probe_interval_ms = 2000;
  ramp_concurrency = 2;
}

-- The ramp with one refusal, a probe, its hint, a dropped stream, and the end of the hold.
abbrev run_history : List (ℕ × BenchEvent)
run_history =
    (9000, main_goes_on)
    ∷ (8000, gone 2 "stream_error")
    ∷ (5020, chunk 0 (hint ++ units "\n\n"))
    ∷ (5000, probe_reply (ended 201))
    ∷ (4990, probe_timer)
    ∷ (100, main_goes_on)
    ∷ (91, opener_runs)
    ∷ (90, opener_runs)
    ∷ (80, drained 1)
    ∷ (70, response 2 200)
    ∷ (60, response 1 429)
    ∷ (50, opener_runs)
    ∷ (40, response 0 200)
    ∷ (10, opener_runs)
    ∷ (0, opener_runs)
    ∷ []

harness_after-Ramped_example : Ramped cfg (harness_after cfg run_history)
harness_after-Ramped_example = harness_after-Ramped cfg run_history

harness_after-Attributed_example : Attributed cfg (harness_after cfg run_history)
harness_after-Attributed_example = harness_after-Attributed cfg run_history

-- The hint is counted for the probe, on the connection that it came on.
one_sample :
    (harness_after cfg run_history).inflight_probes
    ≡ record { accepted_at = 5000; seen_on = 0 ∷ [] } ∷ []
unfolding harness_after step_bench opens responds drains chunk_arrives goes sends_probe
    probe_settles probe_replies goes_on phase_of set_phase handle_frames handle_frame see_hint
    attribute expire_probes receive frames_from cut_frame units split_lines after includes read_line
    read_lines fields_of trim trim_start trim_end same_units decimal
one_sample = refl

not_reported : is_reporting (harness_after cfg run_history).stage ≡ false
unfolding harness_after step_bench opens responds drains chunk_arrives goes sends_probe
    probe_settles probe_replies goes_on phase_of set_phase handle_frames handle_frame see_hint
    attribute expire_probes receive frames_from cut_frame units split_lines after includes read_line
    read_lines fields_of trim trim_start trim_end same_units decimal
not_reported = refl

report-Consistent_example :
    let r = report cfg (harness_after cfg run_history) in
    (r.established ≡ r.open_at_end + r.dropped_mid_stream)
    × (r.open_at_end ≤ r.peak_established)
    × (r.peak_established ≤ r.established)
    × (r.connect_ms.count ≡ r.established)
    × (r.hint_latency_ms.count ≤ r.hint_events_total)
    × (r.accepted + r.errors ≤ r.sent)
report-Consistent_example = report-Consistent cfg run_history not_reported

abbrev samples : List ℕ
samples = 40 ∷ 12 ∷ 33 ∷ 7 ∷ []

pct-sort_example :
    (v : ℕ) × (pct (sort samples) percent_50 ≡ some v)
    × (50 * 4 ≤ 100 * count_if (λ x. leb x v) samples)
    × (100 * count_if (λ x. ltb x v) samples < 50 * 4)
pct-sort_example = pct-sort samples percent_50 (omega arith)

median : pct (sort samples) percent_50 ≡ some 12
unfolding pct sort insert
median = refl

streams_of-cap_example : streams_of cfg 0 (countdown 3) ≤ 2
streams_of-cap_example = streams_of-cap cfg 0 refl (omega arith)
