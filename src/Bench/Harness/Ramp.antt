-- ===== src/Bench/Harness/Ramp.antt =====
-- The ramp of bench/sse/sse-load.mjs: each connection is opened once, with bounded parallelism, and
-- the hold begins when all of them have been answered.
use chimely.Prelude.{
  ℕ, ◌+◌, ◌≤◌, ◌<◌, Bool, true, false, some, List, [], ◌∷◌, ◌==◌, ltb, ◌-◌, ◌||◌, ◌≡◌, refl, ap,
  ◌∙◌, ◌⊎◌, inl, inr, arith, ◌||◌, Bool-cases,
}
use chimely.Bench.Stream.{receive}
use chimely.Bench.Harness.{
  Config, Phase, requested, refused, streaming, over, Stage, Harness, openers,
}
use chimely.Bench.Harness.Phases.{
  count_phases, one_if, is_awaited, countdown, indexes, count-set_phase, indexes-set_phase,
  handle_frames-keeps,
}
use chimely.Bench.Harness.Keeps.{Keeps, harness_after-keeps}
use chimely.Bench.Harness.Run.{
  phase_of, move, resolve, open_next, finish, chunk_arrives, probe_replies, goes_on, ProbeReply,
  ended, stream_error, connect_error, BenchEvent, harness_after,
}

abbrev pub is_ramping : Stage → Bool
is_ramping Stage.ramping = true
is_ramping _ = false

-- Main waits for the openers, and has gone on only behind all of them.
finished_ramp :
    (cfg : Config) (state : Harness)
    → is_ramping state.stage ≡ false
    → (is_ramping state.stage ≡ true) ⊎ (state.finished ≡ openers cfg)
    → state.finished ≡ openers cfg
finished_ramp cfg state left (inl e) = let no : ⊥ = cc in elim no [ ]
finished_ramp cfg state left (inr e) = e

-- Every opener tests its condition, has finished, or awaits a connection; the connections are those
-- below `next`, each once; an opener finishes at n only; main waits for all of them.
abbrev pub Ramped : Config → Harness → Type 0
Ramped cfg state =
    (state.idle + state.finished + count_phases is_awaited state.connections ≡ openers cfg)
    × (indexes state.connections ≡ countdown state.next)
    × (state.next ≤ cfg.n)
    × ((state.finished ≡ 0) ⊎ (state.next ≡ cfg.n))
    × ((is_ramping state.stage ≡ true) ⊎ (state.finished ≡ openers cfg))

-- An opener goes on with a new connection.
opened-Ramped :
    (cfg : Config) (now : ℕ) (state : Harness)
    → (state.idle == 0) ≡ false
    → ltb state.next cfg.n ≡ true
    → Ramped cfg state
    → Ramped cfg (open_next now state)
opened-Ramped cfg now state idle more (all, opened, below, done, stage) =
    let none_done : state.finished ≡ 0 = elim done [
      | inl e ↦ e
      | inr e ↦ let no : ⊥ = ground arith in elim no [ ]
    ] in
    let ramping : is_ramping state.stage ≡ true = elim stage [
      | inl e ↦ e
      | inr e ↦ let no : ⊥ = ground arith in elim no [ ]
    ] in
    (ground arith, ap (λ xs. state.next ∷ xs) opened, ground arith, inl none_done, inl ramping)

-- An opener finds nothing to open.
finished-Ramped :
    (cfg : Config) (state : Harness)
    → (state.idle == 0) ≡ false
    → ltb state.next cfg.n ≡ false
    → Ramped cfg state
    → Ramped cfg (finish state)
finished-Ramped cfg state idle last (all, opened, below, done, stage) =
    let ramping : is_ramping state.stage ≡ true = elim stage [
      | inl e ↦ e
      | inr e ↦ let no : ⊥ = ground arith in elim no [ ]
    ] in
    (ground arith, opened, below, inr (ground arith), inl ramping)

-- A connection changes its phase; its opener goes on, if it awaited it and no longer does.
moved-Ramped :
    (cfg : Config) (index : ℕ) (old new : Phase) (state : Harness)
    → phase_of index state.connections ≡ some old
    → is_awaited old ≡ is_awaited new
    → Ramped cfg state
    → Ramped cfg (move index new state)
moved-Ramped cfg index old new state e same (all, opened, below, done, stage) =
    let counted = count-set_phase is_awaited index old new state.connections e in
    (
      omega (arith, ap one_if same),
      indexes-set_phase index new state.connections ∙ opened,
      below,
      done,
      stage,
    )

resolved-Ramped :
    (cfg : Config) (index : ℕ) (old new : Phase) (state : Harness)
    → phase_of index state.connections ≡ some old
    → is_awaited old ≡ true
    → is_awaited new ≡ false
    → Ramped cfg state
    → Ramped cfg (resolve (move index new state))
resolved-Ramped cfg index old new state e was now_not (all, opened, below, done, stage) =
    let counted = count-set_phase is_awaited index old new state.connections e in
    (
      omega (arith, ap one_if was, ap one_if now_not),
      indexes-set_phase index new state.connections ∙ opened,
      below,
      done,
      stage,
    )

replied-Ramped :
    (cfg : Config) (now : ℕ) (reply : ProbeReply) (state : Harness)
    → Ramped cfg state
    → Ramped cfg (probe_replies cfg now reply state)
unfolding probe_replies
replied-Ramped cfg now (ended status) state h = elim (Bool-cases (status == 201 || status == 200)) [
  | inl k ↦ rw k h
  | inr k ↦ rw k h
]
replied-Ramped cfg now stream_error state h = h
replied-Ramped cfg now connect_error state h = h

goes_on-Ramped :
    (cfg : Config) (stage : Stage) (state : Harness)
    → state.stage ≡ stage
    → Ramped cfg state
    → Ramped cfg (goes_on cfg stage state)
unfolding goes_on
goes_on-Ramped cfg Stage.ramping state e (all, opened, below, done, stage) =
    elim (Bool-cases (state.finished == openers cfg)) [
      | inl k ↦ rw k (all, opened, below, done, inr (ground arith))
      | inr k ↦ rw k (all, opened, below, done, stage)
    ]
goes_on-Ramped cfg Stage.holding state e (all, opened, below, done, stage) =
    (all, opened, below, done, inr (finished_ramp cfg state (ap is_ramping e) stage))
goes_on-Ramped cfg Stage.settling state e (all, opened, below, done, stage) =
    (all, opened, below, done, inr (finished_ramp cfg state (ap is_ramping e) stage))
goes_on-Ramped cfg Stage.reporting state e h = h

Ramped-Keeps : (cfg : Config) → Keeps cfg (Ramped cfg)
unfolding chunk_arrives
Ramped-Keeps cfg = record {
  starts = (omega arith, refl, omega arith, inl refl, inl refl);
  fails = λ cause state h. h;
  opens_next = opened-Ramped cfg;
  finishes = finished-Ramped cfg;
  establishes = λ index now started state e h.
      resolved-Ramped cfg index (requested started) (streaming []) state e refl refl h;
  refuses =
      λ index started state e h. moved-Ramped cfg index (requested started) refused state e refl h;
  resolves = λ index old state e was h. resolved-Ramped cfg index old over state e was refl h;
  receives = λ index now buf text state e h.
      handle_frames-keeps (Ramped cfg) (λ s n ps ls k. k) cfg index now (receive buf text).0
        (move index (streaming (receive buf text).1) state)
        (moved-Ramped cfg index (streaming buf) (streaming (receive buf text).1) state e refl h);
  closes = λ index buf state e r h. moved-Ramped cfg index (streaming buf) over state e refl h;
  drops = λ index buf state e r h. moved-Ramped cfg index (streaming buf) over state e refl h;
  counts_probe = λ state h. h;
  replies = λ now reply state e h.
      replied-Ramped cfg now reply (record state { probes_pending = state.probes_pending - 1 }) h;
  samples = λ now kb state h. h;
  main_goes = goes_on-Ramped cfg;
}

-- After every history of events, in whatever order, each opener tests its loop's condition, has
-- finished, or awaits a connection; so at most `openers` connections are awaited at a time. The
-- connections that were opened are those below `next`, each once, and `next` is at most n; an opener
-- has finished only if `next` is n, and main has gone on only if all have finished.
pub harness_after-Ramped :
    (cfg : Config) (past : List (ℕ × BenchEvent)) → Ramped cfg (harness_after cfg past)
harness_after-Ramped cfg past = harness_after-keeps cfg (Ramped cfg) (Ramped-Keeps cfg) past

-- Once main has left the ramp, all n connections have been opened, each once, and none is awaited, if
-- there is a connection to open and an opener for it.
holds_all :
    (cfg : Config) (past : List (ℕ × BenchEvent))
    → 0 < openers cfg
    → is_ramping (harness_after cfg past).stage ≡ false
    → (indexes (harness_after cfg past).connections ≡ countdown cfg.n)
      × (count_phases is_awaited (harness_after cfg past).connections ≡ 0)
holds_all cfg past some_opener left =
    let state = harness_after cfg past in
    let (all, opened, below, done, stage) = harness_after-Ramped cfg past in
    let finished = finished_ramp cfg state left stage in
    let at_n : state.next ≡ cfg.n = elim done [
      | inl e ↦ let no : ⊥ = omega arith in elim no [ ]
      | inr e ↦ e
    ] in
    (opened ∙ ap countdown at_n, omega arith)
