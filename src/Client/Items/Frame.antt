-- ===== src/Client/Items/Frame.antt =====
-- The operations that leave the loaded items and the waiting mutations alone.
use chimely.Prelude.{
  ℕ, String, Bool, Option, none, some, ◌≡◌, refl, ◌∙◌, arith, inl, inr, Bool-cases, Option-cases,
  ◌==◌, find?, ◌&&◌,
}
use chimely.Client.State.{Client, Stream, Timer}
use chimely.Client.Connection.{
  connect, close, set_credentials, open_stream, handle_stream_failure, on_open, on_hint, on_retry,
  on_error, on_timer, Converted, is_open_status, same_text, same_number, resume_at,
}
use chimely.Client.Refresh.{refresh, do_refresh, refresh_returns}
use chimely.Client.Paging.{fetch_more, do_fetch_more, fetch_more_returns}
use chimely.Client.Step.{at_stream, at_timer, drop_timer}

pub record KeepsItems (c d : Client) : Type 0 where
  pub items : d.store.snapshot.items ≡ c.store.snapshot.items
  pub pending : d.pending ≡ c.pending

KeepsItems-refl : (c : Client) → KeepsItems c c
KeepsItems-refl c = record { items = refl; pending = refl }

KeepsItems-trans : {b c d : Client} → KeepsItems b c → KeepsItems c d → KeepsItems b d
KeepsItems-trans k l = record { items = l.items ∙ k.items; pending = l.pending ∙ k.pending }

pub refresh-KeepsItems : (c : Client) → KeepsItems c (refresh c)
unfolding refresh do_refresh
refresh-KeepsItems c = ground arith

pub refresh_returns-KeepsItems : (c : Client) → KeepsItems c (refresh_returns c)
unfolding refresh_returns do_refresh
refresh_returns-KeepsItems c = ground arith

pub fetch_more-KeepsItems : (limit : Option ℕ) (c : Client) → KeepsItems c (fetch_more limit c)
unfolding fetch_more do_fetch_more
fetch_more-KeepsItems limit c = ground arith

pub fetch_more_returns-KeepsItems : (c : Client) → KeepsItems c (fetch_more_returns c)
unfolding fetch_more_returns
fetch_more_returns-KeepsItems c = ground arith

pub handle_stream_failure-KeepsItems : (c : Client) → KeepsItems c (handle_stream_failure c)
unfolding handle_stream_failure
handle_stream_failure-KeepsItems c = ground arith

pub open_stream-KeepsItems : (created : Bool) (c : Client) → KeepsItems c (open_stream created c)
unfolding open_stream
open_stream-KeepsItems created c = ground (arith, handle_stream_failure-KeepsItems c)

reopened :
    (created : Bool) (c d : Client)
    → KeepsItems c d
    → KeepsItems c (refresh (open_stream created d))
reopened created c d k =
    KeepsItems-trans (KeepsItems-trans k (open_stream-KeepsItems created d))
      (refresh-KeepsItems (open_stream created d))

pub connect-KeepsItems : (created : Bool) (c : Client) → KeepsItems c (connect created c)
unfolding connect
connect-KeepsItems created c = elim (Bool-cases (is_open_status c.store.snapshot.status)) [
  | inl e ↦ rw e (KeepsItems-refl c)
  | inr e ↦ rw e (reopened created c _ (record { items = refl; pending = refl }))
]

pub close-KeepsItems : (c : Client) → KeepsItems c (close c)
unfolding close
close-KeepsItems c = record { items = refl; pending = refl }

pub set_credentials-KeepsItems :
    (hash : String) (expires_at : Option ℕ) (created : Bool) (c : Client)
    → KeepsItems c (set_credentials hash expires_at created c)
unfolding set_credentials
set_credentials-KeepsItems hash expires_at created c =
    elim (Bool-cases (
      same_text (some hash) c.config.subscriber_hash
      && same_number expires_at c.config.subscriber_hash_expires_at)) [
        | inl same ↦ rw same (KeepsItems-refl c)
        | inr fresh ↦ rw fresh (elim (Bool-cases (is_open_status c.store.snapshot.status)) [
          | inl e ↦ rw e (reopened created c _ (record { items = refl; pending = refl }))
          | inr e ↦ rw e (record { items = refl; pending = refl })
        ])
      ]

pub on_open-KeepsItems : (g : ℕ) (c : Client) → KeepsItems c (on_open g c)
unfolding on_open
on_open-KeepsItems g c = elim (Bool-cases (g == c.connection.generation)) [
  | inl e ↦ rw e (KeepsItems-trans (record { items = refl; pending = refl }) (refresh-KeepsItems _))
  | inr e ↦ rw e (KeepsItems-refl c)
]

pub on_hint-KeepsItems :
    (g : ℕ) (last : Option String) (c : Client) → KeepsItems c (on_hint g last c)
unfolding on_hint
on_hint-KeepsItems g last c = elim (Bool-cases (g == c.connection.generation)) [
  | inl e ↦ rw e (KeepsItems-trans (ground arith) (refresh-KeepsItems (resume_at last c)))
  | inr e ↦ rw e (KeepsItems-refl c)
]

pub on_retry-KeepsItems : (g : ℕ) (ms : Converted) (c : Client) → KeepsItems c (on_retry g ms c)
unfolding on_retry
on_retry-KeepsItems g ms c = ground arith

pub on_error-KeepsItems :
    (g : ℕ) (last : Option String) (c : Client) → KeepsItems c (on_error g last c)
unfolding on_error
on_error-KeepsItems g last c = ground (arith, handle_stream_failure-KeepsItems (resume_at last c))

pub on_timer-KeepsItems :
    (g : ℕ) (created : Bool) (c : Client) → KeepsItems c (on_timer g created c)
unfolding on_timer
on_timer-KeepsItems g created c = ground (
  arith,
  open_stream-KeepsItems created
      (record c { connection = record c.connection { reconnect_timer = none } }),
)

pub at_stream-KeepsItems :
    (id : ℕ) (handler : ℕ → Client → Client) (c : Client)
    → ((g : ℕ) → KeepsItems c (handler g c))
    → KeepsItems c (at_stream id handler c)
at_stream-KeepsItems id handler c keep =
    elim (Option-cases (find? (λ (s : Stream). s.id == id) c.connection.streams)) [
      | inl e ↦ rw (e, at_stream) (KeepsItems-refl c)
      | inr (s, e) ↦ rw (e, at_stream) (keep s.generation)
    ]

module _ (id : ℕ) (c : Client) where
  pub stream_opens-KeepsItems : KeepsItems c (at_stream id on_open c)
  stream_opens-KeepsItems = at_stream-KeepsItems id on_open c (λ g. on_open-KeepsItems g c)

  pub stream_hints-KeepsItems :
      (last : Option String) → KeepsItems c (at_stream id (λ g. on_hint g last) c)
  stream_hints-KeepsItems last =
      at_stream-KeepsItems id (λ g. on_hint g last) c (λ g. on_hint-KeepsItems g last c)

  pub stream_retries-KeepsItems :
      (ms : Converted) → KeepsItems c (at_stream id (λ g. on_retry g ms) c)
  stream_retries-KeepsItems ms =
      at_stream-KeepsItems id (λ g. on_retry g ms) c (λ g. on_retry-KeepsItems g ms c)

  pub stream_fails-KeepsItems :
      (last : Option String) → KeepsItems c (at_stream id (λ g. on_error g last) c)
  stream_fails-KeepsItems last =
      at_stream-KeepsItems id (λ g. on_error g last) c (λ g. on_error-KeepsItems g last c)

  pub timer_fires-KeepsItems :
      (created : Bool) → KeepsItems c (at_timer id (λ g. on_timer g created) c)
  timer_fires-KeepsItems created =
      elim (Option-cases (find? (λ (t : Timer). t.id == id) c.connection.timers)) [
        | inl e ↦ rw (e, at_timer) (KeepsItems-refl c)
        | inr (t, e) ↦
            rw (e, at_timer)
              (KeepsItems-trans (record { items = refl; pending = refl })
                (on_timer-KeepsItems t.generation created (drop_timer id c)))
      ]
