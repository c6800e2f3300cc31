-- ===== src/Client/Lifecycle/Events.antt =====
-- Every operation of the connection keeps `ConnectionInv`.
use chimely.Prelude.{
  ℕ, String, Bool, Option, none, some, List, [], ◌∷◌, ◌≡◌, refl, inl, inr, Bool-cases, ◌&&◌, ◌==◌,
  find?, filter, not, ◌⊎◌, arith,
}
use chimely.Types.{ConnectionStatus, reconnecting}
use chimely.Client.State.{Client, Stream, Timer}
use chimely.Client.Connection.{
  close, is_open_status, connect, set_credentials, on_open, on_hint, on_retry, on_error, on_timer,
  same_text, same_number, Converted,
}
use chimely.Client.Step.{at_stream, at_timer, drop_timer}
use chimely.Client.Lifecycle.{
  ConnectionInv, IsDetached-of_not_open, refresh-Inv, open_stream-Inv, detach-IsDetached,
  OwnsStreams, OwnsTimers, OwnsStreams-none, Fits, handle_stream_failure-Inv,
}

pub connect-Inv :
    (created : Bool) (c : Client) → ConnectionInv c → ConnectionInv (connect created c)
unfolding connect
connect-Inv created c v = elim (Bool-cases (is_open_status c.store.snapshot.status)) [
  | inl e ↦ rw e v
  | inr e ↦
      let d = IsDetached-of_not_open c v e in
      rw e (refresh-Inv _ (open_stream-Inv created _ (ground arith) refl))
]

pub close-Inv : (c : Client) → ConnectionInv c → ConnectionInv (close c)
unfolding close
close-Inv c v = ground (arith, detach-IsDetached c v)

pub set_credentials-Inv :
    (hash : String) (expires_at : Option ℕ) (created : Bool) (c : Client)
    → ConnectionInv c
    → ConnectionInv (set_credentials hash expires_at created c)
unfolding set_credentials
set_credentials-Inv hash expires_at created c v =
    elim (Bool-cases (
      same_text (some hash) c.config.subscriber_hash
      && same_number expires_at c.config.subscriber_hash_expires_at)) [
        | inl same ↦ rw same v
        | inr fresh ↦ rw fresh (elim (Bool-cases (is_open_status c.store.snapshot.status)) [
          | inl e ↦
              let d = detach-IsDetached c v in
              rw e (refresh-Inv _ (open_stream-Inv created _ (ground arith) refl))
          | inr e ↦ rw e (ground arith)
        ])
      ]

pub on_open-Inv :
    (generation id : ℕ) (c : Client)
    → c.connection.source ≡ some id
    → ConnectionInv c
    → ConnectionInv (on_open generation c)
unfolding on_open
on_open-Inv generation id c e v = elim (Bool-cases (generation == c.connection.generation)) [
  | inl h ↦ rw h (refresh-Inv _ (ground arith))
  | inr h ↦ rw h v
]

pub on_hint-Inv :
    (generation : ℕ) (last : Option String) (c : Client)
    → ConnectionInv c
    → ConnectionInv (on_hint generation last c)
unfolding on_hint
on_hint-Inv generation last c v = elim (Bool-cases (generation == c.connection.generation)) [
  | inl h ↦ rw h (refresh-Inv _ (ground arith))
  | inr h ↦ rw h v
]

pub on_retry-Inv :
    (generation : ℕ) (ms : Converted) (c : Client)
    → ConnectionInv c
    → ConnectionInv (on_retry generation ms c)
unfolding on_retry
on_retry-Inv generation ms c v = ground arith

pub on_error-Inv :
    (generation id : ℕ) (last : Option String) (c : Client)
    → c.connection.source ≡ some id
    → ConnectionInv c
    → ConnectionInv (on_error generation last c)
unfolding on_error
on_error-Inv generation id last c e v = elim (Bool-cases (generation == c.connection.generation)) [
  | inl h ↦ rw h (handle_stream_failure-Inv _ (ground arith) (ground arith) (ground arith))
  | inr h ↦ rw h v
]

-- A timer that fires is the reconnect timer, and the client holds nothing else then.
on_timer-Inv :
    (generation : ℕ) (created : Bool) (c : Client)
    → c.connection.source ≡ none
    → c.connection.streams ≡ []
    → c.connection.timers ≡ []
    → generation ≡ c.connection.generation
    → c.store.snapshot.status ≡ reconnecting
    → ConnectionInv (on_timer generation created c)
unfolding on_timer
on_timer-Inv generation created c e h k g s = ground (
  arith,
  open_stream-Inv created
      (record c { connection = record c.connection { reconnect_timer = none } }),
)

-- A source that is not closed is the current one.
find-OwnsStreams :
    (id : ℕ) (source : Option ℕ) (g : ℕ) (ss : List Stream)
    → OwnsStreams source g ss
    → (find? (λ (s : Stream). s.id == id) ss ≡ none)
      ⊎ ((s : Stream) × (find? (λ (s : Stream). s.id == id) ss ≡ some s)
          × (source ≡ some id)
          × (s.generation ≡ g))
find-OwnsStreams id none g [] h = inl refl
find-OwnsStreams id none g (s ∷ ss) h = absurd h
find-OwnsStreams id (some i) g [] h = absurd h
find-OwnsStreams id (some i) g (s ∷ []) h = elim (Bool-cases (s.id == id)) [
  | inl e ↦ inr (s, ground arith, ground arith, h.1)
  | inr e ↦ inl (ground arith)
]
find-OwnsStreams id (some i) g (s ∷ t ∷ ss) h = absurd h

pub at_stream-Inv :
    (id : ℕ) (handler : ℕ → Client → Client) (c : Client)
    → ((g : ℕ) → c.connection.source ≡ some id → ConnectionInv (handler g c))
    → ConnectionInv c
    → ConnectionInv (at_stream id handler c)
at_stream-Inv id handler c keep v =
    elim (find-OwnsStreams id c.connection.source c.connection.generation c.connection.streams
      v.streams) [
        | inl e ↦ rw (e, at_stream) v
        | inr (s, e, i, g) ↦ rw (e, at_stream) (keep s.generation i)
      ]

-- A timer that waits is the reconnect timer; once it has fired none is left.
find-OwnsTimers :
    (id : ℕ) (timer : Option ℕ) (g : ℕ) (ts : List Timer)
    → OwnsTimers timer g ts
    → (find? (λ (t : Timer). t.id == id) ts ≡ none)
      ⊎ ((t : Timer) × (find? (λ (t : Timer). t.id == id) ts ≡ some t)
          × (timer ≡ some id)
          × (t.generation ≡ g)
          × (filter (λ (t : Timer). not (t.id == id)) ts ≡ []))
find-OwnsTimers id none g [] h = inl refl
find-OwnsTimers id none g (t ∷ ts) h = absurd h
find-OwnsTimers id (some i) g [] h = absurd h
find-OwnsTimers id (some i) g (t ∷ []) h = elim (Bool-cases (t.id == id)) [
  | inl e ↦ inr (t, ground arith, ground arith, h.1, ground arith)
  | inr e ↦ inl (ground arith)
]
find-OwnsTimers id (some i) g (t ∷ t' ∷ ts) h = absurd h

Fits-waiting :
    (s : ConnectionStatus) (source : Option ℕ) (id : ℕ)
    → Fits s source (some id)
    → (s ≡ reconnecting) × (source ≡ none)
Fits-waiting s source id h = ground arith

pub at_timer-Inv :
    (id : ℕ) (created : Bool) (c : Client)
    → ConnectionInv c
    → ConnectionInv (at_timer id (λ g. on_timer g created) c)
at_timer-Inv id created c v =
    elim (find-OwnsTimers id c.connection.reconnect_timer c.connection.generation
      c.connection.timers v.timers) [
        | inl e ↦ rw (e, at_timer) v
        | inr (t, e, i, g, f) ↦
            let w = Fits-waiting c.store.snapshot.status c.connection.source id (ground arith) in
            rw (e, at_timer)
              (on_timer-Inv t.generation created (drop_timer id c) w.1
                (ground (arith, OwnsStreams-none c.connection.generation c.connection.streams)) f g
                w.0)
      ]
