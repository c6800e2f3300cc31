-- ===== src/Bench/Harness/Keeps.antt =====
-- What an invariant of the load harness has to keep, change by change, and that it then holds after
-- every history: the case analysis over the events and phases, once for all invariants.
use chimely.Prelude.{
  ℕ, ◌-◌, String, true, false, Option, none, some, List, [], ◌∷◌, ◌==◌, ltb, ◌≡◌, refl, Bool-cases,
  inl, inr,
}
use chimely.Prelude.Units.{Units}
use chimely.Bench.Harness.{
  Config, Phase, requested, refused, streaming, over, Stage, Harness, new_harness, fail,
}
use chimely.Bench.Harness.Phases.{is_awaited}
use chimely.Bench.Harness.Run.{
  phase_of, move, resolve, open_next, finish, opens, establish, responds, drains, chunk_arrives,
  close_stream, drop_stream, goes, request_fails, count_probe, sends_probe, probe_replies,
  probe_settles, sample_rss, goes_on, is_reporting, ProbeReply, BenchEvent, opener_runs, response,
  drained, chunk, gone, request_error, probe_timer, probe_reply, rss_sample, main_goes_on,
  step_bench, harness_after,
}

pub record Keeps (cfg : Config) (P : Harness → Type 0) : Type 0 where
  pub starts : P (new_harness cfg)
  pub fails : (cause : String) (state : Harness) → P state → P (fail cause state)
  pub opens_next :
      (now : ℕ) (state : Harness)
      → (state.idle == 0) ≡ false
      → ltb state.next cfg.n ≡ true
      → P state
      → P (open_next now state)
  pub finishes :
      (state : Harness)
      → (state.idle == 0) ≡ false
      → ltb state.next cfg.n ≡ false
      → P state
      → P (finish state)
  pub establishes :
      (index now started : ℕ) (state : Harness)
      → phase_of index state.connections ≡ some (requested started)
      → P state
      → P (establish index now started state)
  pub refuses :
      (index started : ℕ) (state : Harness)
      → phase_of index state.connections ≡ some (requested started)
      → P state
      → P (move index refused state)
  pub resolves :
      (index : ℕ) (old : Phase) (state : Harness)
      → phase_of index state.connections ≡ some old
      → is_awaited old ≡ true
      → P state
      → P (resolve (move index over state))
  pub receives :
      (index now : ℕ) (buf text : Units) (state : Harness)
      → phase_of index state.connections ≡ some (streaming buf)
      → P state
      → P (chunk_arrives cfg index now text (some (streaming buf)) state)
  pub closes :
      (index : ℕ) (buf : Units) (state : Harness)
      → phase_of index state.connections ≡ some (streaming buf)
      → is_reporting state.stage ≡ true
      → P state
      → P (close_stream index state)
  pub drops :
      (index : ℕ) (buf : Units) (state : Harness)
      → phase_of index state.connections ≡ some (streaming buf)
      → is_reporting state.stage ≡ false
      → P state
      → P (drop_stream index state)
  pub counts_probe : (state : Harness) → P state → P (count_probe state)
  pub replies :
      (now : ℕ) (reply : ProbeReply) (state : Harness)
      → (state.probes_pending == 0) ≡ false
      → P state
      → P (probe_replies cfg now reply (record state { probes_pending = state.probes_pending - 1 }))
  pub samples : (now kb : ℕ) (state : Harness) → P state → P (sample_rss now kb state)
  pub main_goes :
      (stage : Stage) (state : Harness)
      → state.stage ≡ stage
      → P state
      → P (goes_on cfg stage state)

module _ (cfg : Config) (P : Harness → Type 0) (keeps : Keeps cfg P) where
  opens-keeps : (now : ℕ) (state : Harness) → P state → P (opens cfg now state)
  unfolding opens
  opens-keeps now state h = elim (Bool-cases (state.idle == 0)) [
    | inl none_idle ↦ rw none_idle h
    | inr idle ↦ elim (Bool-cases (ltb state.next cfg.n)) [
      | inl more ↦ rw (idle, more) (keeps.opens_next now state idle more h)
      | inr last ↦ rw (idle, last) (keeps.finishes state idle last h)
    ]
  ]

  responds-keeps :
      (index status now : ℕ) (phase : Option Phase) (state : Harness)
      → phase_of index state.connections ≡ phase
      → P state
      → P (responds index status now phase state)
  unfolding responds
  responds-keeps index status now (some (requested started)) state e h =
      elim (Bool-cases (status == 200)) [
        | inl ok ↦ rw ok (keeps.establishes index now started state e h)
        | inr k ↦ rw k (keeps.fails _ _ (keeps.refuses index started state e h))
      ]
  responds-keeps index status now (some refused) state e h = h
  responds-keeps index status now (some (streaming buf)) state e h = h
  responds-keeps index status now (some over) state e h = h
  responds-keeps index status now none state e h = h

  drains-keeps :
      (index : ℕ) (phase : Option Phase) (state : Harness)
      → phase_of index state.connections ≡ phase
      → P state
      → P (drains index phase state)
  unfolding drains
  drains-keeps index (some refused) state e h = keeps.resolves index refused state e refl h
  drains-keeps index (some (requested started)) state e h = h
  drains-keeps index (some (streaming buf)) state e h = h
  drains-keeps index (some over) state e h = h
  drains-keeps index none state e h = h

  chunk_arrives-keeps :
      (index now : ℕ) (text : Units) (phase : Option Phase) (state : Harness)
      → phase_of index state.connections ≡ phase
      → P state
      → P (chunk_arrives cfg index now text phase state)
  unfolding chunk_arrives
  chunk_arrives-keeps index now text (some (streaming buf)) state e h =
      keeps.receives index now buf text state e h
  chunk_arrives-keeps index now text (some (requested started)) state e h = h
  chunk_arrives-keeps index now text (some refused) state e h = h
  chunk_arrives-keeps index now text (some over) state e h = h
  chunk_arrives-keeps index now text none state e h = h

  goes-keeps :
      (index : ℕ) (cause : String) (phase : Option Phase) (state : Harness)
      → phase_of index state.connections ≡ phase
      → P state
      → P (goes index cause phase state)
  unfolding goes
  goes-keeps index cause (some (streaming buf)) state e h =
      elim (Bool-cases (is_reporting state.stage)) [
        | inl r ↦ rw r (keeps.closes index buf state e r h)
        | inr r ↦ rw r (keeps.fails cause _ (keeps.drops index buf state e r h))
      ]
  goes-keeps index cause (some (requested started)) state e h = h
  goes-keeps index cause (some refused) state e h = h
  goes-keeps index cause (some over) state e h = h
  goes-keeps index cause none state e h = h

  request_fails-keeps :
      (index : ℕ) (code : String) (phase : Option Phase) (state : Harness)
      → phase_of index state.connections ≡ phase
      → P state
      → P (request_fails index code phase state)
  unfolding request_fails
  request_fails-keeps index code (some (requested started)) state e h =
      keeps.fails _ _ (keeps.resolves index (requested started) state e refl h)
  request_fails-keeps index code (some refused) state e h =
      keeps.fails _ _ (keeps.resolves index refused state e refl h)
  request_fails-keeps index code (some (streaming buf)) state e h = keeps.fails _ _ h
  request_fails-keeps index code (some over) state e h = keeps.fails _ _ h
  request_fails-keeps index code none state e h = h

  sends_probe-keeps : (stage : Stage) (state : Harness) → P state → P (sends_probe stage state)
  unfolding sends_probe
  sends_probe-keeps Stage.ramping state h = h
  sends_probe-keeps Stage.holding state h = keeps.counts_probe state h
  sends_probe-keeps Stage.settling state h = h
  sends_probe-keeps Stage.reporting state h = h

  probe_settles-keeps :
      (now : ℕ) (reply : ProbeReply) (state : Harness)
      → P state
      → P (probe_settles cfg now reply state)
  unfolding probe_settles
  probe_settles-keeps now reply state h = elim (Bool-cases (state.probes_pending == 0)) [
    | inl e ↦ rw e h
    | inr e ↦ rw e (keeps.replies now reply state e h)
  ]

  step_bench-keeps :
      (now : ℕ) (event : BenchEvent) (state : Harness)
      → P state
      → P (step_bench cfg now event state)
  unfolding step_bench
  step_bench-keeps now opener_runs state h = opens-keeps now state h
  step_bench-keeps now (response index status) state h =
      responds-keeps index status now (phase_of index state.connections) state refl h
  step_bench-keeps now (drained index) state h =
      drains-keeps index (phase_of index state.connections) state refl h
  step_bench-keeps now (chunk index text) state h =
      chunk_arrives-keeps index now text (phase_of index state.connections) state refl h
  step_bench-keeps now (gone index cause) state h =
      goes-keeps index cause (phase_of index state.connections) state refl h
  step_bench-keeps now (request_error index code) state h =
      request_fails-keeps index code (phase_of index state.connections) state refl h
  step_bench-keeps now probe_timer state h = sends_probe-keeps state.stage state h
  step_bench-keeps now (probe_reply reply) state h = probe_settles-keeps now reply state h
  step_bench-keeps now (rss_sample kb) state h = keeps.samples now kb state h
  step_bench-keeps now main_goes_on state h = keeps.main_goes state.stage state refl h

  -- An invariant that every change keeps holds after every history.
  pub harness_after-keeps : (past : List (ℕ × BenchEvent)) → P (harness_after cfg past)
  unfolding harness_after
  harness_after-keeps [] = keeps.starts
  harness_after-keeps ((now, event) ∷ past) =
      step_bench-keeps now event (harness_after cfg past) (harness_after-keeps past)
