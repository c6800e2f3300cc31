-- ===== src/Bench/Harness/Phases.antt =====
-- How many connections are in a phase, and what the frames of a chunk leave alone in the state of
-- bench/sse/sse-load.mjs.
use chimely.Prelude.{
  ℕ, zero, suc, ◌+◌, Bool, true, false, some, List, [], ◌∷◌, ◌==◌, ◌≡◌, refl, inl, inr, arith,
  Bool-cases, not, ◌&&◌, none-some,
}
use mathlib.Core.Option.{some-injective}
use chimely.Prelude.Units.{Units}
use chimely.Bench.Harness.{
  Config, Phase, requested, refused, streaming, Connection, Probe, Harness, handle_frame,
  handle_frames, see_hint, is_probe_conn, is_hint, is_lagged,
}
use chimely.Bench.Harness.Run.{phase_of, set_phase}

-- How often a test holds of one thing.
abbrev pub one_if : Bool → ℕ
one_if true = 1
one_if false = 0

-- The connections in a phase that passes a test.
abbrev pub count_phases : (Phase → Bool) → List Connection → ℕ
count_phases test [] = 0
count_phases test (connection ∷ connections) =
    one_if (test connection.phase) + count_phases test connections

-- A connection whose opener awaits it.
abbrev pub is_awaited : Phase → Bool
is_awaited (requested started) = true
is_awaited refused = true
is_awaited _ = false

abbrev pub is_streaming : Phase → Bool
is_streaming (streaming buf) = true
is_streaming _ = false

-- The numbers below n, the largest first.
abbrev pub countdown : ℕ → List ℕ
countdown zero = []
countdown (suc n) = n ∷ countdown n

abbrev pub indexes : List Connection → List ℕ
indexes [] = []
indexes (connection ∷ connections) = connection.index ∷ indexes connections

phase_of-here :
    (index : ℕ) (c : Connection) (cs : List Connection) (old : Phase)
    → (c.index == index) ≡ true
    → phase_of index (c ∷ cs) ≡ some old
    → c.phase ≡ old
unfolding phase_of
phase_of-here index c cs old same e = some-injective c.phase old (rw same at e)

phase_of-later :
    (index : ℕ) (c : Connection) (cs : List Connection) (old : Phase)
    → (c.index == index) ≡ false
    → phase_of index (c ∷ cs) ≡ some old
    → phase_of index cs ≡ some old
unfolding phase_of
phase_of-later index c cs old other e = rw other at e

pub count-set_phase :
    (test : Phase → Bool) (index : ℕ) (old new : Phase) (connections : List Connection)
    → phase_of index connections ≡ some old
    → count_phases test (set_phase index new connections) + one_if (test old)
      ≡ count_phases test connections + one_if (test new)
unfolding phase_of set_phase
count-set_phase test index old new [] e = elim (none-some e) [ ]
count-set_phase test index old new (c ∷ cs) e = elim (Bool-cases (c.index == index)) [
  | inl same ↦
      let found : c.phase ≡ old = phase_of-here index c cs old same e in
      rw (same, found) (omega arith)
  | inr other ↦
      let later = count-set_phase test index old new cs (phase_of-later index c cs old other e) in
      rw other (omega arith)
]

pub indexes-set_phase :
    (index : ℕ) (phase : Phase) (connections : List Connection)
    → indexes (set_phase index phase connections) ≡ indexes connections
unfolding set_phase
indexes-set_phase index phase [] = refl
indexes-set_phase index phase (c ∷ cs) = elim (Bool-cases (c.index == index)) [
  | inl same ↦ rw same refl
  | inr other ↦ rw (other, indexes-set_phase index phase cs) refl
]

-- The fields that a hint leaves alone.
handle_frame-keeps {ℓ} :
    (P : Harness → Type ℓ)
    → ((state : Harness) (seen : ℕ) (probes : List Probe) (samples : List ℕ)
        → P state
        → P (record state {
          events_seen = seen;
          inflight_probes = probes;
          hint_latencies_ms = samples;
        }))
    → (cfg : Config) (index now : ℕ) (frame : Units) (state : Harness) → P state
    → P (handle_frame cfg index now frame state)
unfolding handle_frame see_hint
handle_frame-keeps P keeps cfg index now frame state h = elim (Bool-cases (is_hint frame)) [
  | inl hint ↦ elim (Bool-cases (not (is_lagged frame) && is_probe_conn cfg index)) [
    | inl seen ↦ rw (hint, seen) (keeps state _ _ _ h)
    | inr unseen ↦ rw (hint, unseen) (keeps state _ _ _ h)
  ]
  | inr other ↦ rw other h
]

-- What the frames of a chunk leave alone.
pub handle_frames-keeps {ℓ} :
    (P : Harness → Type ℓ)
    → ((state : Harness) (seen : ℕ) (probes : List Probe) (samples : List ℕ)
        → P state
        → P (record state {
          events_seen = seen;
          inflight_probes = probes;
          hint_latencies_ms = samples;
        }))
    → (cfg : Config) (index now : ℕ) (frames : List Units) (state : Harness) → P state
    → P (handle_frames cfg index now frames state)
unfolding handle_frames
handle_frames-keeps P keeps cfg index now [] state h = h
handle_frames-keeps P keeps cfg index now (frame ∷ frames) state h =
    handle_frames-keeps P keeps cfg index now frames (handle_frame cfg index now frame state)
      (handle_frame-keeps P keeps cfg index now frame state h)
