-- ===== src/Client/Lifecycle/Resume.antt =====
-- What a reconnect waits for, and what its stream asks for.
use chimely.Prelude.{ℕ, ◌+◌, String, false, none, some, [], ◌∷◌, ◌≡◌, arith, str_eq, map}
use chimely.Client.State.{Client, Timer, directive, backoff_at}
use chimely.Client.Connection.{
  handle_stream_failure, open_stream, on_error, on_hint, on_retry, on_timer, stream_url, finite,
}
use chimely.Client.Refresh.{refresh, do_refresh}

-- With no bound on the attempts and no timer waiting: after a hint with a nonempty token and a retry
-- directive, the failure of the stream waits for the directed delay, and the next failure, that of
-- the stream which the timer fails to open, for the computed one. The token is kept, and the URL of
-- the stream carries it.
next_attempt :
    (token : String) (ms : ℕ) (c : Client)
    → str_eq token "" ≡ false
    → c.max_attempts ≡ none
    → c.connection.timers ≡ []
    → let g = c.connection.generation in
      let failed = on_error g none (on_retry g (finite ms) (on_hint g (some token) c)) in
      let fired = record failed { connection = record failed.connection { timers = [] } } in
      let again = on_timer g false fired in
      (map (λ (t : Timer). t.delay) failed.connection.timers ≡ directive ms ∷ [])
      × (map (λ (t : Timer). t.delay) again.connection.timers
          ≡ backoff_at (c.connection.attempts + 1 + 1) ∷ [])
      × (again.connection.last_event_id ≡ some token)
      × ((stream_url again).params
          ≡ (stream_url (record c {
            connection = record c.connection { last_event_id = some token };
          })).params)
unfolding on_hint on_retry on_error on_timer open_stream handle_stream_failure refresh do_refresh
    stream_url
next_attempt token ms c t b k = ground arith
