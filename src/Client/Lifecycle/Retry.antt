-- ===== src/Client/Lifecycle/Retry.antt =====
-- The reconnect loop: how long it goes on.
use chimely.Prelude.{
  ℕ, suc, ◌+◌, String, true, false, Option, none, some, [], ◌∷◌, ◌≡◌, refl, arith, subst, ◌∙◌, map,
  length, List, Bool, or_else, ◌≢◌,
}
use chimely.Types.{reconnecting, closed}
use chimely.Client.State.{Client, Timer, backoff_at}
use chimely.Client.Connection.{
  handle_stream_failure, open_stream, on_error, on_timer, reaches, gave_up_error,
}
use chimely.Client.Step.{Event, step}
use chimely.Client.Lifecycle.{
  ConnectionInv, OwnsTimers, OwnsStreams-none, IsDetached, IsDetached-of_not_open,
}
use chimely.Client.Lifecycle.Safety.{step-ConnectionInv}

-- A client that waits for its reconnect timer, after so many failures in a row: it has no source, and
-- the one timer that waits is for the computed delay.
pub record Waits (failures : ℕ) (c : Client) : Type 0 where
  pub inv : ConnectionInv c
  pub status : c.store.snapshot.status ≡ reconnecting
  pub attempts : c.connection.attempts ≡ failures
  pub source : c.connection.source ≡ none
  pub override : c.connection.retry_override_ms ≡ none
  pub delays : map (λ (t : Timer). t.delay) c.connection.timers ≡ backoff_at failures ∷ []

-- How an attempt fails: the stream cannot be created, or it fails before it has opened.
pub data Failure : Type 0 where
  not_created : Failure
  errors : (last_event_id : Option String) → Failure

-- The waiting timer fires, and the attempt fails.
abbrev pub attempt : Failure → Client → Client
attempt not_created c = step (Event.timer_fires (or_else c.connection.reconnect_timer 0) false) c
attempt (errors last) c =
    let created = step (Event.timer_fires (or_else c.connection.reconnect_timer 0) true) c in
    step (Event.stream_fails (or_else created.connection.source 0) last) created

unfoldable pub attempts_fail : List Failure → Client → Client
attempts_fail [] c = c
attempts_fail (f ∷ fs) c = attempts_fail fs (attempt f c)

-- The timer that waits, and nothing else.
waiting_timer :
    (failures : ℕ) (c : Client)
    → Waits failures c
    → (t : Timer) × (c.connection.timers ≡ t ∷ [])
      × (c.connection.reconnect_timer ≡ some t.id)
      × (t.generation ≡ c.connection.generation)
      × (c.connection.streams ≡ [])
waiting_timer failures c w =
    owned c.connection.reconnect_timer c.connection.timers w.inv.timers (λ h. ground arith)
      (ground (arith, OwnsStreams-none c.connection.generation c.connection.streams))
  where
    owned :
        (timer : Option ℕ) (ts : List Timer)
        → OwnsTimers timer c.connection.generation ts
        → timer ≢ none
        → c.connection.streams ≡ []
        → (t : Timer) × (ts ≡ t ∷ [])
          × (timer ≡ some t.id)
          × (t.generation ≡ c.connection.generation)
          × (c.connection.streams ≡ [])
    owned none ts o n e = absurd (n refl)
    owned (some id) [] o n e = absurd o
    owned (some id) (t ∷ []) o n e = (t, refl, ground arith, o.1, e)
    owned (some id) (t ∷ u ∷ ts) o n e = absurd o

attempt-Inv : (f : Failure) (c : Client) → ConnectionInv c → ConnectionInv (attempt f c)
attempt-Inv not_created c v = step-ConnectionInv _ c v
attempt-Inv (errors last) c v = step-ConnectionInv _ _ (step-ConnectionInv _ c v)

-- A client whose timer has just fired.
abbrev fired : Client → Client
fired c = record c { connection = record c.connection { timers = []; reconnect_timer = none } }

abbrev failed : Failure → Client → Client
failed not_created c = open_stream false (fired c)
failed (errors last) c =
    let created = open_stream true (fired c) in on_error c.connection.generation last created

timer_fires-fired :
    (failures : ℕ) (c : Client) (created : Bool)
    → Waits failures c
    → step (Event.timer_fires (or_else c.connection.reconnect_timer 0) created) c
      ≡ open_stream created (fired c)
unfolding step on_timer
timer_fires-fired failures c created w =
    let (t, e, i, g, n) = waiting_timer failures c w in ground (arith, i, e, g)

attempt-failed :
    (f : Failure) (failures : ℕ) (c : Client) → Waits failures c → attempt f c ≡ failed f c
unfolding step open_stream
attempt-failed not_created failures c w = timer_fires-fired failures c false w
attempt-failed (errors last) failures c w =
    let (t, e, i, g, n) = waiting_timer failures c w in
    rw (timer_fires-fired failures c true w) (ground (arith, n))

failed_again :
    (f : Failure) (failures : ℕ) (c : Client)
    → Waits failures c
    → c.connection.streams ≡ []
    → reaches (suc failures) c.max_attempts ≡ false
    → let d = failed f c in
      (d.store.snapshot.status ≡ reconnecting)
      × (d.connection.attempts ≡ suc failures)
      × (d.connection.source ≡ none)
      × (d.connection.retry_override_ms ≡ none)
      × (map (λ (t : Timer). t.delay) d.connection.timers ≡ backoff_at (suc failures) ∷ [])
      × (d.max_attempts ≡ c.max_attempts)
unfolding open_stream handle_stream_failure on_error
failed_again not_created failures c w n r = ground arith
failed_again (errors last) failures c w n r = ground arith

failed_last :
    (f : Failure) (failures : ℕ) (c : Client)
    → Waits failures c
    → reaches (suc failures) c.max_attempts ≡ true
    → ((failed f c).store.snapshot.status ≡ closed)
      × ((failed f c).store.snapshot.error ≡ some gave_up_error)
unfolding open_stream handle_stream_failure on_error
failed_last not_created failures c w r = ground arith
failed_last (errors last) failures c w r = ground arith

attempt_again :
    (f : Failure) (failures : ℕ) (c : Client)
    → Waits failures c
    → reaches (suc failures) c.max_attempts ≡ false
    → Waits (suc failures) (attempt f c) × ((attempt f c).max_attempts ≡ c.max_attempts)
attempt_again f failures c w r =
    let (t, e, i, g, n) = waiting_timer failures c w in
    let (status, attempts, source, override, delays, bound) = failed_again f failures c w n r in
    let inv : ConnectionInv (failed f c) =
      subst ConnectionInv (attempt-failed f failures c w) (attempt-Inv f c w.inv) in
    rw (attempt-failed f failures c w) (
      record {
        inv = inv;
        status = status;
        attempts = attempts;
        source = source;
        override = override;
        delays = delays;
      },
      bound,
    )

-- Some failures and some more are below the bound.
abbrev BelowBound : ℕ → ℕ → Option ℕ → Type 0
BelowBound failures more bound = reaches (failures + more) bound ≡ false

sooner : (k m : ℕ) (bound : Option ℕ) → BelowBound k (suc m) bound → reaches (suc k) bound ≡ false
sooner k m none h = refl
sooner k m (some b) h = ground arith

attempts_below :
    (fs : List Failure) (failures : ℕ) (c : Client)
    → Waits failures c
    → BelowBound failures (length fs) c.max_attempts
    → Waits (failures + length fs) (attempts_fail fs c)
      × ((attempts_fail fs c).max_attempts ≡ c.max_attempts)
unfolding attempts_fail
attempts_below [] failures c w r =
    let e : failures ≡ failures + 0 = omega arith in (subst (λ k. Waits k c) e w, refl)
attempts_below (f ∷ fs) failures c w r =
    let e : suc failures + length fs ≡ failures + suc (length fs) = omega arith in
    let once = attempt_again f failures c w (sooner failures (length fs) c.max_attempts r) in
    let rest = attempts_below fs (suc failures) (attempt f c) once.0 (rw e (rw once.1 r)) in
    (subst (λ k. Waits k (attempts_fail fs (attempt f c))) e rest.0, rest.1 ∙ once.1)

-- A client that waits to reconnect after some failures in a row, with a bound on the attempts, and
-- whose further attempts fail, each as it may: its stream cannot be created, or fails before it has
-- opened. Below the bound it waits again, with no source and one timer, for the delay of all the
-- failures; at the failure that reaches the bound it closes, with the error, no source and no timer.
pub gives_up_at_bound :
    (failures : ℕ) (fs : List Failure) (f : Failure) (c : Client)
    → Waits failures c
    → c.max_attempts ≡ some (failures + suc (length fs))
    → let waits = attempts_fail fs c in
      Waits (failures + length fs) waits
      × ((attempt f waits).store.snapshot.status ≡ closed)
      × ((attempt f waits).store.snapshot.error ≡ some gave_up_error)
      × IsDetached (attempt f waits).connection
gives_up_at_bound failures fs f c w e =
    let below = attempts_below fs failures c w (ground arith) in
    let again = attempts_fail fs c in
    let same = attempt-failed f (failures + length fs) again below.0 in
    let last = failed_last f (failures + length fs) again below.0 (ground arith) in
    let closed_now : (attempt f again).store.snapshot.status ≡ closed = rw same last.0 in
    (
      below.0,
      closed_now,
      rw same last.1,
      IsDetached-of_not_open (attempt f again) (attempt-Inv f again below.0.inv)
          (rw closed_now refl),
    )

-- With no bound on the attempts, a client that waits to reconnect and whose attempts fail goes on
-- waiting, after any number of failures.
retries_forever :
    (failures : ℕ) (fs : List Failure) (c : Client)
    → Waits failures c
    → c.max_attempts ≡ none
    → Waits (failures + length fs) (attempts_fail fs c)
retries_forever failures fs c w e = (attempts_below fs failures c w (ground arith)).0
