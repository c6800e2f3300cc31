-- ===== src/Client/Lifecycle/Ended.antt =====
-- A connection that has ended: what its late callbacks do. A source that was closed, or a timeout that
-- was cleared, may still call back here, with the generation that its closure captured.
use chimely.Prelude.{
  ℕ, ◌+◌, ◌≤◌, ◌<◌, String, Bool, true, false, Option, some, List, [], ◌∷◌, ◌≡◌, refl, arith, ◌==◌,
  All, sym, ap, ◌∙◌,
}
use chimely.Client.State.{Client}
use chimely.Client.Connection.{
  is_open_status, close, on_open, on_hint, on_retry, on_error, on_timer, reaches,
  handle_stream_failure, Converted,
}
use chimely.Client.Step.{Event, step}
use chimely.Client.Lifecycle.{ConnectionInv, IsDetached, IsDetached-of_not_open}
use chimely.Client.Lifecycle.Safety.{step-ConnectionInv}
use chimely.Client.Lifecycle.Events.{close-Inv, on_error-Inv}
use chimely.Client.Lifecycle.Quiet.{IsNotConnect, step_not_open}

-- An event, or a callback by the generation that it captured.
pub data Late : Type 0 where
  happens : Event → Late
  late_open : ℕ → Late
  late_hint : ℕ → Option String → Late
  late_retry : ℕ → Converted → Late
  late_error : ℕ → Option String → Late
  late_timer : ℕ → Bool → Late

abbrev pub late_step : Late → Client → Client
late_step (happens e) c = step e c
late_step (late_open g) c = on_open g c
late_step (late_hint g last) c = on_hint g last c
late_step (late_retry g ms) c = on_retry g ms c
late_step (late_error g last) c = on_error g last c
late_step (late_timer g created) c = on_timer g created c

unfoldable pub late_run : List Late → Client → Client
late_run [] c = c
late_run (l ∷ ls) c = late_run ls (late_step l c)

-- The same without the callbacks.
abbrev own_step : Late → Client → Client
own_step (happens e) c = step e c
own_step _ c = c

unfoldable pub own_run : List Late → Client → Client
own_run [] c = c
own_run (l ∷ ls) c = own_run ls (own_step l c)

-- No call of connect(), and no callback that was made after a generation.
abbrev pub IsLate : ℕ → Late → Type 0
IsLate bound (happens e) = IsNotConnect e
IsLate bound (late_open g) = g ≤ bound
IsLate bound (late_hint g last) = g ≤ bound
IsLate bound (late_retry g ms) = g ≤ bound
IsLate bound (late_error g last) = g ≤ bound
IsLate bound (late_timer g created) = g ≤ bound

-- How a connection ends: by close(), or at the error of its stream that reaches the bound.
pub data Ends (c : Client) : Client → Type 0 where
  by_close : Ends c (close c)
  by_error :
      (id : ℕ) (last : Option String)
      → c.connection.source ≡ some id
      → reaches (c.connection.attempts + 1) c.max_attempts ≡ true
      → Ends c (on_error c.connection.generation last c)

-- Closed for good, as far as callbacks up to a generation are concerned.
pub record IsEnded (bound : ℕ) (c : Client) : Type 0 where
  pub inv : ConnectionInv c
  pub status : is_open_status c.store.snapshot.status ≡ false
  pub newer : bound < c.connection.generation

Ends-IsEnded : (c d : Client) → ConnectionInv c → Ends c d → IsEnded c.connection.generation d
unfolding close on_error handle_stream_failure
Ends-IsEnded c d v by_close = record { inv = close-Inv c v; status = refl; newer = omega arith }
Ends-IsEnded c d v (by_error id last e r) = record {
  inv = on_error-Inv c.connection.generation id last c e v;
  status = ground arith;
  newer = ground arith;
}

-- A generation that is at most an older one is not the current one.
older : (g n k : ℕ) → g ≤ n → n < k → (g == k) ≡ false
older g n k h l = ground arith

-- A callback by a generation from before the end changes nothing.
stale_callback :
    (n : ℕ) (l : Late) (c : Client) → IsLate n l → IsEnded n c → late_step l c ≡ own_step l c
unfolding on_open on_hint on_retry on_error on_timer
stale_callback n (happens e) c h v = refl
stale_callback n (late_open g) c h v = rw (older g n c.connection.generation h v.newer) refl
stale_callback n (late_hint g last) c h v = rw (older g n c.connection.generation h v.newer) refl
stale_callback n (late_retry g ms) c h v = rw (older g n c.connection.generation h v.newer) refl
stale_callback n (late_error g last) c h v = rw (older g n c.connection.generation h v.newer) refl
stale_callback n (late_timer g created) c h v =
    let d = IsDetached-of_not_open c v.inv v.status in
    rw (older g n c.connection.generation h v.newer) (
      ap (λ t. record c { connection = record c.connection { reconnect_timer = t } }) (sym d.timer))

own_step-IsEnded :
    (n : ℕ) (l : Late) (c : Client) → IsLate n l → IsEnded n c → IsEnded n (own_step l c)
own_step-IsEnded n (happens e) c h v =
    let (status, further) = step_not_open e c h v.inv v.status in
    record { inv = step-ConnectionInv e c v.inv; status = status; newer = omega (arith, v.newer) }
own_step-IsEnded n (late_open g) c h v = v
own_step-IsEnded n (late_hint g last) c h v = v
own_step-IsEnded n (late_retry g ms) c h v = v
own_step-IsEnded n (late_error g last) c h v = v
own_step-IsEnded n (late_timer g created) c h v = v

late_run-own :
    (n : ℕ) (ls : List Late) (c : Client)
    → All (IsLate n) ls
    → IsEnded n c
    → (late_run ls c ≡ own_run ls c) × IsEnded n (own_run ls c)
unfolding late_run own_run
late_run-own n [] c h v = (refl, v)
late_run-own n (l ∷ ls) c h v =
    let rest = late_run-own n ls (own_step l c) h.1 (own_step-IsEnded n l c h.0 v) in
    (ap (late_run ls) (stale_callback n l c h.0 v) ∙ rest.0, rest.1)

-- A client under the invariant whose connection ends, by close() or at the error of its stream that
-- reaches the bound. Then come any events but a call of connect(), and in between, in any order, any
-- callbacks of sources and timers that were made before the end, also of those that were closed or
-- cleared: the callbacks change nothing at all, and the client stays closed or idle, with no source and
-- no timer.
pub stays_ended :
    (c d : Client) (ls : List Late)
    → ConnectionInv c
    → Ends c d
    → All (IsLate c.connection.generation) ls
    → (late_run ls d ≡ own_run ls d)
      × (is_open_status (late_run ls d).store.snapshot.status ≡ false)
      × IsDetached (late_run ls d).connection
stays_ended c d ls v e h =
    let (same, w) = late_run-own c.connection.generation ls d h (Ends-IsEnded c d v e) in
    (same, rw same w.status, rw same (IsDetached-of_not_open (own_run ls d) w.inv w.status))
