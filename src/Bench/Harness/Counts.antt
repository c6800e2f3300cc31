-- ===== src/Bench/Harness/Counts.antt =====
-- The numbers of the summary of bench/sse/sse-load.mjs against each other, after every history.
use chimely.Prelude.{
  ℕ, ◌+◌, ◌-◌, ◌≤◌, true, false, some, List, [], ◌∷◌, ◌==◌, ◌≡◌, refl, ap, ◌⊎◌, inl, inr, arith,
  ◌||◌, Bool-cases, length, length-append,
}
use chimely.Prelude.Units.{Units}
use chimely.Bench.Stream.{receive}
use chimely.Bench.Harness.{
  Config, Phase, requested, refused, streaming, over, Stage, Harness, openers,
}
use chimely.Bench.Harness.Phases.{
  count_phases, is_awaited, one_if, is_streaming, count-set_phase, handle_frames-keeps,
}
use chimely.Bench.Harness.Keeps.{Keeps, harness_after-keeps}
use chimely.Bench.Harness.Run.{
  phase_of, move, establish, chunk_arrives, close_stream, drop_stream, probe_replies, goes_on,
  ProbeReply, ended, stream_error, connect_error, BenchEvent, harness_after, is_reporting,
}

-- No stream has gone unseen: those that were established are open or dropped, until the report.
abbrev pub Counted : Harness → Type 0
Counted state =
    (count_phases is_streaming state.connections ≡ state.open_count)
    × (state.open_count ≤ state.peak_established)
    × (state.peak_established ≤ state.established)
    × ((state.established ≡ state.open_count + state.dropped_mid_stream)
        ⊎ (is_reporting state.stage ≡ true))
    × (length state.connect_latencies_ms ≡ state.established)
    × (state.probes_sent ≡ state.probes_accepted + state.probe_errors + state.probes_pending)

moved-Counted :
    (index : ℕ) (old new : Phase) (state : Harness)
    → phase_of index state.connections ≡ some old
    → is_streaming old ≡ is_streaming new
    → Counted state
    → Counted (move index new state)
moved-Counted index old new state e same (streams, peak, all, kept, latencies, probes) =
    let counted = count-set_phase is_streaming index old new state.connections e in
    (omega (arith, ap one_if same), peak, all, kept, latencies, probes)

established-Counted :
    (index now started : ℕ) (state : Harness)
    → phase_of index state.connections ≡ some (requested started)
    → Counted state
    → Counted (establish index now started state)
established-Counted index now started state e (streams, peak, all, kept, latencies, probes) =
    let counted =
      count-set_phase is_streaming index (requested started) (streaming []) state.connections e in
    (
      omega arith,
      omega arith,
      omega arith,
      elim kept [ inl k ↦ inl (omega arith) | inr r ↦ inr r ],
      omega (arith, length-append state.connect_latencies_ms ((now - started) ∷ [])),
      probes,
    )

no_report :
    (state : Harness)
    → is_reporting state.stage ≡ false
    → (state.established ≡ state.open_count + state.dropped_mid_stream)
      ⊎ (is_reporting state.stage ≡ true)
    → state.established ≡ state.open_count + state.dropped_mid_stream
no_report state e (inl k) = k
no_report state e (inr k) = let no : ⊥ = cc in elim no [ ]

closed-Counted :
    (index : ℕ) (buf : Units) (state : Harness)
    → phase_of index state.connections ≡ some (streaming buf)
    → is_reporting state.stage ≡ true
    → Counted state
    → Counted (close_stream index state)
closed-Counted index buf state e r (streams, peak, all, kept, latencies, probes) =
    let counted = count-set_phase is_streaming index (streaming buf) over state.connections e in
    (omega arith, omega arith, all, inr r, latencies, probes)

dropped-Counted :
    (index : ℕ) (buf : Units) (state : Harness)
    → phase_of index state.connections ≡ some (streaming buf)
    → is_reporting state.stage ≡ false
    → Counted state
    → Counted (drop_stream index state)
dropped-Counted index buf state e r (streams, peak, all, kept, latencies, probes) =
    let counted = count-set_phase is_streaming index (streaming buf) over state.connections e in
    let before = no_report state r kept in
    (omega arith, omega arith, all, inl (omega arith), latencies, probes)

replied-Counted :
    (cfg : Config) (now : ℕ) (reply : ProbeReply) (state : Harness)
    → (state.probes_pending == 0) ≡ false
    → Counted state
    → Counted
        (probe_replies cfg now reply (record state { probes_pending = state.probes_pending - 1 }))
unfolding probe_replies
replied-Counted cfg now (ended status) state e (streams, peak, all, kept, latencies, probes) =
    elim (Bool-cases (status == 201 || status == 200)) [
      | inl k ↦ rw k (streams, peak, all, kept, latencies, ground arith)
      | inr k ↦ rw k (streams, peak, all, kept, latencies, ground arith)
    ]
replied-Counted cfg now stream_error state e (streams, peak, all, kept, latencies, probes) =
    (streams, peak, all, kept, latencies, ground arith)
replied-Counted cfg now connect_error state e (streams, peak, all, kept, latencies, probes) =
    (streams, peak, all, kept, latencies, ground arith)

goes_on-Counted :
    (cfg : Config) (stage : Stage) (state : Harness)
    → state.stage ≡ stage
    → Counted state
    → Counted (goes_on cfg stage state)
unfolding goes_on
goes_on-Counted cfg Stage.ramping state e (streams, peak, all, kept, latencies, probes) =
    let kept1 = no_report state (ap is_reporting e) kept in
    elim (Bool-cases (state.finished == openers cfg)) [
      | inl k ↦ rw k (streams, peak, all, inl kept1, latencies, probes)
      | inr k ↦ rw k (streams, peak, all, kept, latencies, probes)
    ]
goes_on-Counted cfg Stage.holding state e (streams, peak, all, kept, latencies, probes) =
    (streams, peak, all, inl (no_report state (ap is_reporting e) kept), latencies, probes)
goes_on-Counted cfg Stage.settling state e (streams, peak, all, kept, latencies, probes) =
    (streams, peak, all, inr refl, latencies, probes)
goes_on-Counted cfg Stage.reporting state e h = h

-- A connection that is awaited does not stream.
awaited_apart : (phase : Phase) → is_awaited phase ≡ true → is_streaming phase ≡ false
awaited_apart (requested started) e = refl
awaited_apart refused e = refl
awaited_apart (streaming buf) e = let no : ⊥ = cc in elim no [ ]
awaited_apart over e = refl

Counted-Keeps : (cfg : Config) → Keeps cfg Counted
unfolding chunk_arrives
Counted-Keeps cfg = record {
  starts = (refl, omega arith, omega arith, inl refl, refl, refl);
  fails = λ cause state h. h;
  opens_next = λ now state idle more h. (omega (arith, h.0), h.1, h.2, h.3, h.4, h.5);
  finishes = λ state idle last h. h;
  establishes = established-Counted;
  refuses =
      λ index started state e h. moved-Counted index (requested started) refused state e refl h;
  resolves =
      λ index old state e was h. moved-Counted index old over state e (awaited_apart old was) h;
  receives = λ index now buf text state e h.
      handle_frames-keeps Counted (λ s n ps ls k. k) cfg index now (receive buf text).0
        (move index (streaming (receive buf text).1) state)
        (moved-Counted index (streaming buf) (streaming (receive buf text).1) state e refl h);
  closes = closed-Counted;
  drops = dropped-Counted;
  counts_probe = λ state h. (h.0, h.1, h.2, h.3, h.4, omega (arith, h.5));
  replies = replied-Counted cfg;
  samples = λ now kb state h. h;
  main_goes = goes_on-Counted cfg;
}

-- After every history of events, in whatever order, as many connections stream as are counted open,
-- at most as many as the peak, which is at most what was established; up to the report, each stream
-- that was established is open or counted as dropped; there is one connect latency for each; and each
-- probe that was sent is accepted, failed or pending.
pub harness_after-Counted :
    (cfg : Config) (past : List (ℕ × BenchEvent)) → Counted (harness_after cfg past)
harness_after-Counted cfg past = harness_after-keeps cfg Counted (Counted-Keeps cfg) past
