-- ===== src/Bench/Harness/Run.antt =====
-- The callbacks and the stages of main in bench/sse/sse-load.mjs, one event at a time, in any order. An
-- event that cannot happen (a response to no request, a chunk of a stream that is over) changes nothing.
use chimely.Prelude.{
  ℕ, suc, ◌+◌, ◌-◌, max, String, ◌+++◌, Bool, true, false, ◌||◌, Option, none, some, List, [], ◌∷◌,
  ◌++◌, if◌then◌else◌, ◌==◌, ltb, decimal,
}
use chimely.Prelude.Units.{Units}
use chimely.Bench.Stream.{receive}
use chimely.Bench.Harness.{
  Config, Phase, requested, refused, streaming, over, Connection, Stage, Harness, new_harness,
  openers, fail, expire_probes, handle_frames,
}

unfoldable pub phase_of : ℕ → List Connection → Option Phase
phase_of index [] = none
phase_of index (connection ∷ connections) =
    let later = phase_of index connections in
    if connection.index == index then some connection.phase else later

unfoldable pub set_phase : ℕ → Phase → List Connection → List Connection
set_phase index phase [] = []
set_phase index phase (connection ∷ connections) =
    let later = set_phase index phase connections in
    if connection.index == index
    then record connection { phase = phase } ∷ connections
    else connection ∷ later

abbrev pub move : ℕ → Phase → Harness → Harness
move index phase state = record state { connections = set_phase index phase state.connections }

-- `resolve`, of a promise that an opener awaits.
abbrev pub resolve : Harness → Harness
resolve state = record state { idle = state.idle + 1 }

abbrev pub is_reporting : Stage → Bool
is_reporting Stage.reporting = true
is_reporting _ = false

abbrev pub open_next : ℕ → Harness → Harness
open_next now state = record state {
  next = suc state.next;
  idle = state.idle - 1;
  connections = record { index = state.next; phase = requested now } ∷ state.connections;
}

abbrev pub finish : Harness → Harness
finish state = record state { idle = state.idle - 1; finished = state.finished + 1 }

-- One round of the loop of `opener`, up to its await.
unfoldable pub opens : Config → ℕ → Harness → Harness
opens cfg now state =
    if state.idle == 0
    then state
    else if ltb state.next cfg.n
    then open_next now state
    else finish state

abbrev pub establish : ℕ → ℕ → ℕ → Harness → Harness
establish index now started state = record (resolve (move index (streaming []) state)) {
  established = state.established + 1;
  open_count = state.open_count + 1;
  peak_established = max state.peak_established (state.open_count + 1);
  connect_latencies_ms = state.connect_latencies_ms ++ (now - started) ∷ [];
}

-- The callback of the request.
unfoldable pub responds : ℕ → ℕ → ℕ → Option Phase → Harness → Harness
responds index status now (some (requested started)) state =
    if status == 200
    then establish index now started state
    else fail ("http_" +++ decimal status) (move index refused state)
responds index status now _ state = state

-- `end` or `error` of a response that was refused.
unfoldable pub drains : ℕ → Option Phase → Harness → Harness
drains index (some refused) state = resolve (move index over state)
drains index _ state = state

-- The `data` handler.
unfoldable pub chunk_arrives : Config → ℕ → ℕ → Units → Option Phase → Harness → Harness
chunk_arrives cfg index now chunk (some (streaming buf)) state =
    let (frames, left) = receive buf chunk in
    handle_frames cfg index now frames (move index (streaming left) state)
chunk_arrives cfg index now chunk _ state = state

abbrev pub close_stream : ℕ → Harness → Harness
close_stream index state = record (move index over state) { open_count = state.open_count - 1 }

abbrev pub drop_stream : ℕ → Harness → Harness
drop_stream index state = record (close_stream index state) {
  dropped_mid_stream = state.dropped_mid_stream + 1;
}

-- `gone(cause)`.
unfoldable pub goes : ℕ → String → Option Phase → Harness → Harness
goes index cause (some (streaming buf)) state =
    if is_reporting state.stage
    then close_stream index state
    else fail cause (drop_stream index state)
goes index cause _ state = state

-- `error` of the request. It can follow a response, whose promise is then resolved already or not.
unfoldable pub request_fails : ℕ → String → Option Phase → Harness → Harness
request_fails index code none state = state
request_fails index code (some (requested started)) state =
    fail ("connect_" +++ code) (resolve (move index over state))
request_fails index code (some refused) state =
    fail ("connect_" +++ code) (resolve (move index over state))
request_fails index code (some _) state = fail ("connect_" +++ code) state

abbrev pub count_probe : Harness → Harness
count_probe state = record state {
  probes_sent = state.probes_sent + 1;
  probes_pending = state.probes_pending + 1;
}

-- The timer of the probes.
unfoldable pub sends_probe : Stage → Harness → Harness
sends_probe Stage.holding state = count_probe state
sends_probe _ state = state

pub data ProbeReply : Type 0 where
  ended : (status : ℕ) → ProbeReply
  stream_error connect_error : ProbeReply

abbrev pub probe_fails : String → Harness → Harness
probe_fails cause state = fail cause (record state { probe_errors = state.probe_errors + 1 })

-- The handlers of `postNotification`.
unfoldable pub probe_replies : Config → ℕ → ProbeReply → Harness → Harness
probe_replies cfg now (ended status) state =
    if status == 201 || status == 200
    then record state {
      probes_accepted = state.probes_accepted + 1;
      inflight_probes =
          expire_probes cfg now state.inflight_probes
          ++ record { accepted_at = now; seen_on = [] } ∷ [];
    }
    else probe_fails ("probe_http_" +++ decimal status) state
probe_replies cfg now stream_error state = probe_fails "probe_stream_error" state
probe_replies cfg now connect_error state = probe_fails "probe_connect_error" state

-- One request settles once.
unfoldable pub probe_settles : Config → ℕ → ProbeReply → Harness → Harness
probe_settles cfg now reply state =
    if state.probes_pending == 0
    then state
    else probe_replies cfg now reply (record state { probes_pending = state.probes_pending - 1 })

-- `sampleRss`, where `ps` gave a number.
abbrev pub sample_rss : ℕ → ℕ → Harness → Harness
sample_rss now kb state = record state { rss_samples_kb = state.rss_samples_kb ++ (now, kb) ∷ [] }

-- `main` goes on: behind `Promise.all`, behind the hold, behind the wait for the last hints.
unfoldable pub goes_on : Config → Stage → Harness → Harness
goes_on cfg Stage.ramping state =
    if state.finished == openers cfg then record state { stage = Stage.holding } else state
goes_on cfg Stage.holding state = record state { stage = Stage.settling }
goes_on cfg Stage.settling state = record state { stage = Stage.reporting }
goes_on cfg Stage.reporting state = state

pub data BenchEvent : Type 0 where
  opener_runs : BenchEvent
  response : (index status : ℕ) → BenchEvent
  drained : (index : ℕ) → BenchEvent
  chunk : (index : ℕ) → Units → BenchEvent
  gone : (index : ℕ) (cause : String) → BenchEvent
  request_error : (index : ℕ) (code : String) → BenchEvent
  probe_timer : BenchEvent
  probe_reply : ProbeReply → BenchEvent
  rss_sample : (kb : ℕ) → BenchEvent
  main_goes_on : BenchEvent

unfoldable pub step_bench : Config → ℕ → BenchEvent → Harness → Harness
step_bench cfg now opener_runs state = opens cfg now state
step_bench cfg now (response index status) state =
    responds index status now (phase_of index state.connections) state
step_bench cfg now (drained index) state = drains index (phase_of index state.connections) state
step_bench cfg now (chunk index text) state =
    chunk_arrives cfg index now text (phase_of index state.connections) state
step_bench cfg now (gone index cause) state =
    goes index cause (phase_of index state.connections) state
step_bench cfg now (request_error index code) state =
    request_fails index code (phase_of index state.connections) state
step_bench cfg now probe_timer state = sends_probe state.stage state
step_bench cfg now (probe_reply reply) state = probe_settles cfg now reply state
step_bench cfg now (rss_sample kb) state = sample_rss now kb state
step_bench cfg now main_goes_on state = goes_on cfg state.stage state

-- The harness behind a history of events with their times, the latest first.
unfoldable pub harness_after : Config → List (ℕ × BenchEvent) → Harness
harness_after cfg [] = new_harness cfg
harness_after cfg ((now, event) ∷ past) = step_bench cfg now event (harness_after cfg past)
