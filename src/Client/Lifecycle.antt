-- ===== src/Client/Lifecycle.antt =====
-- The connection of packages/client/src/client.ts as a state machine: what its fields say together
-- between two events, and what each operation of the connection keeps of it.
pub mod Events
pub mod Retry
pub mod Resume
pub mod Frame
pub mod Safety
pub mod Quiet
pub mod Ended
use chimely.Prelude.{
  ℕ, String, Bool, true, false, Option, none, some, List, [], ◌∷◌, ◌≡◌, refl, inl, inr, Bool-cases,
  arith,
}
use chimely.Types.{ConnectionStatus, idle, connecting, connected, reconnecting, closed}
use chimely.Client.State.{Client, Connection, Stream, Timer}
use chimely.Client.Connection.{
  handle_stream_failure, detach, close, close_source, clear_timer, open_stream, is_open_status,
  connect, set_credentials, on_open, on_hint, on_retry, on_error, on_timer, same_text, same_number,
  Converted,
}
use chimely.Client.Refresh.{refresh, do_refresh}

-- The sources that are not closed: the current one alone, under the current generation.
abbrev pub OwnsStreams : Option ℕ → ℕ → List Stream → Type 0
OwnsStreams none g [] = Unit
OwnsStreams none g (s ∷ ss) = ⊥
OwnsStreams (some id) g [] = ⊥
OwnsStreams (some id) g (s ∷ []) = (s.id ≡ id) × (s.generation ≡ g)
OwnsStreams (some id) g (s ∷ t ∷ ss) = ⊥

-- The timeouts that wait: the reconnect timer alone, under the current generation.
abbrev pub OwnsTimers : Option ℕ → ℕ → List Timer → Type 0
OwnsTimers none g [] = Unit
OwnsTimers none g (s ∷ ss) = ⊥
OwnsTimers (some id) g [] = ⊥
OwnsTimers (some id) g (s ∷ []) = (s.id ≡ id) × (s.generation ≡ g)
OwnsTimers (some id) g (s ∷ t ∷ ss) = ⊥

-- Which of a source and a timer each status goes with.
abbrev pub Fits : ConnectionStatus → Option ℕ → Option ℕ → Type 0
Fits idle none none = Unit
Fits closed none none = Unit
Fits connecting (some id) none = Unit
Fits connected (some id) none = Unit
Fits reconnecting (some id) none = Unit
Fits reconnecting none (some id) = Unit
Fits _ _ _ = ⊥

pub record ConnectionInv (c : Client) : Type 0 where
  pub fits : Fits c.store.snapshot.status c.connection.source c.connection.reconnect_timer
  pub streams : OwnsStreams c.connection.source c.connection.generation c.connection.streams
  pub timers : OwnsTimers c.connection.reconnect_timer c.connection.generation c.connection.timers

-- No source and no timer, on either side.
pub record IsDetached (k : Connection) : Type 0 where
  pub source : k.source ≡ none
  pub timer : k.reconnect_timer ≡ none
  pub streams : k.streams ≡ []
  pub timers : k.timers ≡ []

close_source-OwnsStreams :
    (source : Option ℕ) (g : ℕ) (ss : List Stream)
    → OwnsStreams source g ss
    → close_source source ss ≡ []
close_source-OwnsStreams none g [] h = refl
close_source-OwnsStreams none g (s ∷ ss) h = absurd h
close_source-OwnsStreams (some id) g [] h = refl
close_source-OwnsStreams (some id) g (s ∷ []) h = ground arith
close_source-OwnsStreams (some id) g (s ∷ t ∷ ss) h = absurd h

clear_timer-OwnsTimers :
    (timer : Option ℕ) (g : ℕ) (ts : List Timer) → OwnsTimers timer g ts → clear_timer timer ts ≡ []
clear_timer-OwnsTimers none g [] h = refl
clear_timer-OwnsTimers none g (t ∷ ts) h = absurd h
clear_timer-OwnsTimers (some id) g [] h = refl
clear_timer-OwnsTimers (some id) g (t ∷ []) h = ground arith
clear_timer-OwnsTimers (some id) g (t ∷ t' ∷ ts) h = absurd h

pub OwnsStreams-none : (g : ℕ) (ss : List Stream) → OwnsStreams none g ss → ss ≡ []
OwnsStreams-none g [] h = refl
OwnsStreams-none g (s ∷ ss) h = absurd h

OwnsTimers-none : (g : ℕ) (ts : List Timer) → OwnsTimers none g ts → ts ≡ []
OwnsTimers-none g [] h = refl
OwnsTimers-none g (t ∷ ts) h = absurd h

-- A client that is idle or closed holds nothing.
pub IsDetached-of_not_open :
    (c : Client)
    → ConnectionInv c
    → is_open_status c.store.snapshot.status ≡ false
    → IsDetached c.connection
IsDetached-of_not_open c v h = ground (
  arith,
  OwnsStreams-none c.connection.generation c.connection.streams,
  OwnsTimers-none c.connection.generation c.connection.timers,
)

pub detach-IsDetached : (c : Client) → ConnectionInv c → IsDetached (detach c.connection)
detach-IsDetached c v = ground (
  arith,
  close_source-OwnsStreams c.connection.source c.connection.generation c.connection.streams,
  clear_timer-OwnsTimers c.connection.reconnect_timer c.connection.generation c.connection.timers,
)

pub handle_stream_failure-Inv :
    (c : Client)
    → OwnsStreams c.connection.source c.connection.generation c.connection.streams
    → c.connection.timers ≡ []
    → c.connection.reconnect_timer ≡ none
    → ConnectionInv (handle_stream_failure c)
unfolding handle_stream_failure
handle_stream_failure-Inv c h k e = ground (
  arith,
  close_source-OwnsStreams c.connection.source c.connection.generation c.connection.streams,
)

pub open_stream-Inv :
    (created : Bool) (c : Client)
    → IsDetached c.connection
    → is_open_status c.store.snapshot.status ≡ true
    → ConnectionInv (open_stream created c)
unfolding open_stream
open_stream-Inv created c d o = ground (arith, handle_stream_failure-Inv c)

-- What an operation leaves alone that does not concern the connection.
pub record KeepsConnection (c d : Client) : Type 0 where
  pub connection : d.connection ≡ c.connection
  pub status : d.store.snapshot.status ≡ c.store.snapshot.status

pub KeepsConnection-Inv : (c d : Client) → KeepsConnection c d → ConnectionInv c → ConnectionInv d
KeepsConnection-Inv c d k v = ground arith

pub refresh-KeepsConnection : (c : Client) → KeepsConnection c (refresh c)
unfolding refresh do_refresh
refresh-KeepsConnection c = ground arith

pub refresh-Inv : (c : Client) → ConnectionInv c → ConnectionInv (refresh c)
refresh-Inv c v = KeepsConnection-Inv c (refresh c) (refresh-KeepsConnection c) v
