-- ===== src/Bench/Harness/Samples.antt =====
-- The probes in flight of bench/sse/sse-load.mjs through every event.
use chimely.Prelude.{
  ℕ, ◌-◌, List, [], ◌∷◌, ◌++◌, ◌==◌, ◌≡◌, refl, inl, inr, arith, ◌||◌, Bool-cases, All-append,
}
use chimely.Prelude.Units.{Units}
use chimely.Bench.Stream.{receive}
use chimely.Bench.Harness.{
  Config, streaming, Probe, Stage, Harness, openers, handle_frame, handle_frames, expire_probes,
}
use chimely.Bench.Harness.Keeps.{Keeps, harness_after-keeps}
use chimely.Bench.Harness.Run.{
  move, chunk_arrives, probe_replies, goes_on, ProbeReply, ended, stream_error, connect_error,
  BenchEvent, harness_after,
}
use chimely.Bench.Harness.Attribution.{
  Sampled, total_seen, Attributed, handle_frame-Attributed, expire-Sampled, expire-total_seen,
}

handle_frames-Attributed :
    (cfg : Config) (index now : ℕ) (frames : List Units) (state : Harness)
    → Attributed cfg state
    → Attributed cfg (handle_frames cfg index now frames state)
unfolding handle_frames
handle_frames-Attributed cfg index now [] state h = h
handle_frames-Attributed cfg index now (frame ∷ frames) state h =
    handle_frames-Attributed cfg index now frames (handle_frame cfg index now frame state)
      (handle_frame-Attributed cfg index now frame state h)

-- A probe that is accepted is counted nowhere yet.
total_seen-accepted :
    (now : ℕ) (probes : List Probe)
    → total_seen (probes ++ record { accepted_at = now; seen_on = [] } ∷ []) ≡ total_seen probes
total_seen-accepted now [] = refl
total_seen-accepted now (probe ∷ probes) = omega (arith, total_seen-accepted now probes)

replied-Attributed :
    (cfg : Config) (now : ℕ) (reply : ProbeReply) (state : Harness)
    → Attributed cfg state
    → Attributed cfg (probe_replies cfg now reply state)
unfolding probe_replies
replied-Attributed cfg now (ended status) state h =
    let left = expire_probes cfg now state.inflight_probes in
    elim (Bool-cases (status == 201 || status == 200)) [
      | inl k ↦ rw k (
        All-append (Sampled cfg) left _ (expire-Sampled cfg now state.inflight_probes h.0)
            ((tt, tt), tt),
        omega
            (arith, total_seen-accepted now left, expire-total_seen cfg now state.inflight_probes),
        h.2,
      )
      | inr k ↦ rw k h
    ]
replied-Attributed cfg now stream_error state h = h
replied-Attributed cfg now connect_error state h = h

goes_on-Attributed :
    (cfg : Config) (stage : Stage) (state : Harness)
    → state.stage ≡ stage
    → Attributed cfg state
    → Attributed cfg (goes_on cfg stage state)
unfolding goes_on
goes_on-Attributed cfg Stage.ramping state e h = elim (Bool-cases (state.finished == openers cfg)) [
  | inl k ↦ rw k h
  | inr k ↦ rw k h
]
goes_on-Attributed cfg Stage.holding state e h = h
goes_on-Attributed cfg Stage.settling state e h = h
goes_on-Attributed cfg Stage.reporting state e h = h

Attributed-Keeps : (cfg : Config) → Keeps cfg (Attributed cfg)
unfolding chunk_arrives
Attributed-Keeps cfg = record {
  starts = (tt, omega arith, omega arith);
  fails = λ cause state h. h;
  opens_next = λ now state idle more h. h;
  finishes = λ state idle last h. h;
  establishes = λ index now started state e h. h;
  refuses = λ index started state e h. h;
  resolves = λ index old state e was h. h;
  receives = λ index now buf text state e h.
      handle_frames-Attributed cfg index now (receive buf text).0
        (move index (streaming (receive buf text).1) state) h;
  closes = λ index buf state e r h. h;
  drops = λ index buf state e r h. h;
  counts_probe = λ state h. h;
  replies = λ now reply state e h.
      replied-Attributed cfg now reply (record state { probes_pending = state.probes_pending - 1 })
        h;
  samples = λ now kb state h. h;
  main_goes = goes_on-Attributed cfg;
}

-- After every history of events, in whatever order, each probe in flight is counted on connections of
-- the probe subscriber only, and on each of them at most once; the probes in flight are counted at
-- most as often as there are latency samples, and there are at most as many samples as hints were
-- seen.
pub harness_after-Attributed :
    (cfg : Config) (past : List (ℕ × BenchEvent)) → Attributed cfg (harness_after cfg past)
harness_after-Attributed cfg past =
    harness_after-keeps cfg (Attributed cfg) (Attributed-Keeps cfg) past
