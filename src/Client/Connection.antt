-- ===== src/Client/Connection.antt =====
-- connect, close, setCredentials and the SSE half of packages/client/src/client.ts.
-- An operation that may call `createSource` takes `created`: whether that call returns.
use chimely.Prelude.{
  ℕ, ◌+◌, String, Bool, true, false, not, ◌&&◌, Option, none, some, List, [], ◌∷◌, ◌++◌,
  if◌then◌else◌, str_eq, ◌==◌, leb, filter,
}
use chimely.Types.{
  ChimelyError, ConnectionStatus, idle, connecting, connected, reconnecting, closed,
}
use chimely.Store.{empty_patch, patch}
use chimely.Client.State.{
  Client, Connection, Stream, Timer, Delay, directive, backoff_at, Url, truthy, when_some,
  when_number,
}
use chimely.Client.Refresh.{refresh}

abbrev pub is_open_status : ConnectionStatus → Bool
is_open_status idle = false
is_open_status closed = false
is_open_status _ = true

abbrev set_status : Client → ConnectionStatus → Client
set_status c status = record c {
  store = patch c.store (record empty_patch { status = some status });
}

-- `clearTimeout`, and the closing of an event source, on the platform's side.
abbrev pub clear_timer : Option ℕ → List Timer → List Timer
clear_timer none timers = timers
clear_timer (some id) timers = filter (λ t. not (t.id == id)) timers

abbrev pub close_source : Option ℕ → List Stream → List Stream
close_source none streams = streams
close_source (some id) streams = filter (λ s. not (s.id == id)) streams

unfoldable pub stream_url : Client → Url
stream_url c = record {
  base = c.base_url;
  segments = "v1" ∷ "inbox" ∷ "stream" ∷ [];
  params =
      ("environment", c.config.environment)
      ∷ ("subscriber_id", c.config.subscriber_id)
      ∷ (when_some "subscriber_hash" c.config.subscriber_hash
          ++ (when_number "subscriber_expires" c.config.subscriber_hash_expires_at
              ++ when_some "last_event_id" c.connection.last_event_id));
}

abbrev pub gave_up_error : ChimelyError
gave_up_error = record {
  message = "stream closed after maxAttempts consecutive failures";
  code = "connection_failed";
  status = none;
}

-- `this.attempts >= this.backoff.maxAttempts`; no bound is Infinity.
abbrev pub reaches : ℕ → Option ℕ → Bool
reaches attempts none = false
reaches attempts (some bound) = leb bound attempts

abbrev delay_of : Option ℕ → ℕ → Delay
delay_of none attempts = backoff_at attempts
delay_of (some ms) attempts = directive ms

-- The first statements: the source is closed and the failure counted.
abbrev drop_source : Connection → Connection
drop_source k = record k {
  source = none;
  streams = close_source k.source k.streams;
  attempts = k.attempts + 1;
}

abbrev give_up : Client → Client
give_up c = record c {
  connection = record c.connection { generation = c.connection.generation + 1 };
  store =
      patch c.store
        (record empty_patch { status = some closed; error = some (some gave_up_error) });
}

abbrev schedule : Client → Client
schedule c = record c {
  connection = record k {
    retry_override_ms = none;
    reconnect_timer = some k.next_id;
    timers = k.timers ++ timer ∷ [];
    next_id = k.next_id + 1;
  };
  store = patch c.store (record empty_patch { status = some reconnecting });
}
  where
    k : Connection
    k = c.connection

    timer : Timer
    timer = record {
      id = k.next_id;
      generation = k.generation;
      delay = delay_of k.retry_override_ms k.attempts;
    }

unfoldable pub handle_stream_failure : Client → Client
handle_stream_failure c =
    let dropped = record c { connection = drop_source c.connection } in
    if reaches dropped.connection.attempts c.max_attempts then give_up dropped else schedule dropped

-- The source is created first; the one before it is closed then.
abbrev replace_source : Client → Client
replace_source c = record c {
  connection = record k {
    source = some k.next_id;
    streams = close_source k.source k.streams ++ stream ∷ [];
    next_id = k.next_id + 1;
  };
}
  where
    k : Connection
    k = c.connection

    stream : Stream
    stream = record { id = k.next_id; generation = k.generation; url = stream_url c }

unfoldable pub open_stream : Bool → Client → Client
open_stream created c = if created then replace_source c else handle_stream_failure c

unfoldable pub connect : Bool → Client → Client
connect created c =
    if is_open_status c.store.snapshot.status then c else refresh (open_stream created opened)
  where
    opened : Client
    opened =
        set_status
          (record c {
            connection = record c.connection {
              generation = c.connection.generation + 1;
              attempts = 0;
            };
          })
          connecting

-- The timer is cleared and the source closed, under a new generation.
abbrev pub detach : Connection → Connection
detach k = record k {
  generation = k.generation + 1;
  reconnect_timer = none;
  timers = clear_timer k.reconnect_timer k.timers;
  source = none;
  streams = close_source k.source k.streams;
}

unfoldable pub close : Client → Client
close c = set_status (record c { connection = detach c.connection }) closed

-- `===` on two values either of which may be undefined.
abbrev pub same_text : Option String → Option String → Bool
same_text none none = true
same_text (some a) (some b) = str_eq a b
same_text _ _ = false

abbrev pub same_number : Option ℕ → Option ℕ → Bool
same_number none none = true
same_number (some a) (some b) = a == b
same_number _ _ = false

unfoldable pub set_credentials : String → Option ℕ → Bool → Client → Client
set_credentials hash expires_at created c =
    if same_text (some hash) c.config.subscriber_hash
      && same_number expires_at c.config.subscriber_hash_expires_at
    then c
    else if is_open_status c.store.snapshot.status
    then refresh (open_stream created (set_status reset connecting))
    else replaced
  where
    replaced : Client
    replaced = record c {
      config = record c.config {
        subscriber_hash = some hash;
        subscriber_hash_expires_at = expires_at;
      };
    }

    reset : Client
    reset = record replaced {
      connection = record (detach c.connection) { attempts = 0; retry_override_ms = none };
    }

-- The event listeners of one source. Each does nothing under a generation that is not its own.
unfoldable pub on_open : ℕ → Client → Client
on_open generation c =
    if generation == c.connection.generation then refresh (set_status reset connected) else c
  where
    reset : Client
    reset = record c { connection = record c.connection { attempts = 0; retry_override_ms = none } }

-- `if (event.lastEventId) this.lastEventId = event.lastEventId`.
abbrev pub resume_at : Option String → Client → Client
resume_at id c =
    if truthy id then record c { connection = record c.connection { last_event_id = id } } else c

unfoldable pub on_hint : ℕ → Option String → Client → Client
on_hint generation id c =
    if generation == c.connection.generation then refresh (resume_at id c) else c

-- `Number(event.data)`, as the platform converts it. A delay is a whole number of milliseconds.
pub data Converted : Type 0 where
  not_a_number infinite negative : Converted
  finite : ℕ → Converted

abbrev override_of : Converted → Option ℕ → Option ℕ
override_of (finite ms) old = some ms
override_of _ old = old

unfoldable pub on_retry : ℕ → Converted → Client → Client
on_retry generation ms c =
    if generation == c.connection.generation
    then record c {
      connection = record c.connection {
        retry_override_ms = override_of ms c.connection.retry_override_ms;
      };
    }
    else c

unfoldable pub on_error : ℕ → Option String → Client → Client
on_error generation id c =
    if generation == c.connection.generation then handle_stream_failure (resume_at id c) else c

-- The callback of the timeout that `handleStreamFailure` sets.
unfoldable pub on_timer : ℕ → Bool → Client → Client
on_timer generation created c =
    if generation == c.connection.generation then open_stream created fired else fired
  where
    fired : Client
    fired = record c { connection = record c.connection { reconnect_timer = none } }
