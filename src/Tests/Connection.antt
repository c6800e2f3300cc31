-- ===== src/Tests/Connection.antt =====
-- The connection, the configuration, the errors and the store at concrete inputs.
use chimely.Prelude.{ℕ, true, false, none, some, List, [], ◌∷◌, ◌≡◌, refl, arith}
use chimely.Types.{connecting, reconnecting, closed}
use chimely.Errors.{Response, rejected, other, unparsable, http_result, error_from_response}
use chimely.Errors.Laws.{HasCode, http_result-err}
use chimely.Store.{InboxStore, new_store}
use chimely.Client.State.{Client, new_client, strip_slashes, backoff_at}
use chimely.Client.Connection.{gave_up_error, close, is_open_status, stream_url}
use chimely.Client.Step.{Event, run}
use chimely.Client.Lifecycle.{ConnectionInv, IsDetached}
use chimely.Client.Lifecycle.Safety.{run-new_client-ConnectionInv}
use chimely.Client.Lifecycle.Ended.{
  Late, happens, late_open, late_error, late_timer, late_run, own_run, by_close, stays_ended,
}
use chimely.Client.Lifecycle.Retry.{
  Waits, errors, not_created, attempt, attempts_fail, gives_up_at_bound,
}
use chimely.Tests.{config, client}

-- A client connects, its stream opens, hints and fails, and the reconnect timer opens the next.
abbrev reconnects : List Event
reconnects =
    Event.connects true
    ∷ Event.stream_opens 0
    ∷ Event.stream_hints 0 (some "t1")
    ∷ Event.stream_fails 0 none
    ∷ Event.timer_fires 1 true
    ∷ []

run-new_client-ConnectionInv_example : ConnectionInv (run reconnects (new_client config))
run-new_client-ConnectionInv_example = run-new_client-ConnectionInv config reconnects

-- An open client with one stream.
abbrev open_client : Client
open_client = record client {
  max_attempts = none;
  store = record client.store { snapshot = record client.store.snapshot { status = connecting } };
  connection = record client.connection {
    source = some 0;
    streams = record { id = 0; generation = 0; url = stream_url client } ∷ [];
    next_id = 1;
  };
}

-- A closed source and a cleared timer call back, with new credentials between them.
abbrev late : List Late
late =
    late_open 0
    ∷ late_error 0 (some "t2")
    ∷ happens (Event.sets_credentials "h2" (some 900) true)
    ∷ late_timer 0 true
    ∷ []

stays_ended_example :
    (late_run late (close open_client) ≡ own_run late (close open_client))
    × (is_open_status (late_run late (close open_client)).store.snapshot.status ≡ false)
    × IsDetached (late_run late (close open_client)).connection
unfolding client
stays_ended_example =
    stays_ended open_client (close open_client) late
      (record { fits = tt; streams = (refl, refl); timers = tt }) by_close
      (omega arith, (omega arith, (tt, (omega arith, tt))))

-- A client that has failed once to connect.
abbrev waiting : Client
waiting = record open_client {
  max_attempts = some 3;
  store = record client.store { snapshot = record client.store.snapshot { status = reconnecting } };
  connection = record client.connection {
    attempts = 1;
    reconnect_timer = some 1;
    timers = record { id = 1; generation = 0; delay = backoff_at 1 } ∷ [];
    next_id = 2;
  };
}

waiting-Waits : Waits 1 waiting
unfolding client
waiting-Waits = record {
  inv = record { fits = tt; streams = tt; timers = (refl, refl) };
  status = refl;
  attempts = refl;
  source = refl;
  override = refl;
  delays = refl;
}

gives_up_at_bound_example :
    let waits = attempts_fail (errors none ∷ []) waiting in
    Waits 2 waits
    × ((attempt not_created waits).store.snapshot.status ≡ closed)
    × ((attempt not_created waits).store.snapshot.error ≡ some gave_up_error)
    × IsDetached (attempt not_created waits).connection
gives_up_at_bound_example =
    gives_up_at_bound 1 (errors none ∷ []) not_created waiting waiting-Waits refl

base_url_stripped : (new_client config).base_url ≡ "https://chimely.dev"
unfolding new_client strip_slashes
base_url_stripped = refl

abbrev limited : Response ℕ
limited = record { status = 429; etag = none; body = rejected other; error_body = unparsable }

http_result-err_example :
    ((error_from_response 429 unparsable).status ≡ some 429)
    × HasCode 429 unparsable (error_from_response 429 unparsable).code
unfolding http_result
http_result-err_example = http_result-err limited (error_from_response 429 unparsable) refl

abbrev store : InboxStore
unfolding new_store
store = record new_store { listeners = 7 ∷ 8 ∷ [] }
