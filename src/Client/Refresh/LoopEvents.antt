-- ===== src/Client/Refresh/LoopEvents.antt =====
-- The refresh loop under every event, and what a run of events can rely on.
use chimely.Prelude.{
  ℕ, String, Bool, true, false, Option, none, some, List, [], ◌∷◌, ◌≡◌, inl, inr, Bool-cases,
  Option-cases, refl, arith, ◌==◌, ◌&&◌, get_elem?, find?,
}
use chimely.Types.{ChimelyClientConfig}
use chimely.Errors.{Result, Settled}
use chimely.Store.{new_store}
use chimely.Client.State.{
  Client, Stream, Timer, new_client, Mutation, item_call, unread_call, seen_call, archive_read_call,
  set_preferences_call,
}
use chimely.Client.Connection.{
  connect, close, set_credentials, open_stream, handle_stream_failure, on_open, on_hint, on_retry,
  on_error, on_timer, Converted, is_open_status, same_text, same_number, resume_at,
}
use chimely.Client.Refresh.{refresh, do_refresh, fetched}
use chimely.Client.Paging.{fetched_page}
use chimely.Client.Mutations.{
  mark_read, mark_unread, archive, unarchive, archive_all, archive_read, mark_all_read,
  mark_all_seen, get_preferences, set_preferences, settle, call_settled, clear_error, reply_of,
  Reply, reconcile_after_failed_mutation,
}
use chimely.Client.Step.{Event, step, run, at_stream, at_timer}
use chimely.Client.Refresh.Loop.{
  ListInv, refresh-ListInv, refresh_settled-ListInv, refresh_returns-ListInv, set_filter-ListInv,
  fetch_more-ListInv, fetch_more_settled-ListInv, fetch_more_returns-ListInv,
}

-- What leaves the list, its spinner and its end alone.
pub record KeepsList (c d : Client) : Type 0 where
  pub list : d.list ≡ c.list
  pub is_loading : d.store.snapshot.is_loading ≡ c.store.snapshot.is_loading
  pub has_more : d.store.snapshot.has_more ≡ c.store.snapshot.has_more

KeepsList-Inv : (c d : Client) → KeepsList c d → ListInv c → ListInv d
KeepsList-Inv c d k v = ground arith

handle_stream_failure-KeepsList : (c : Client) → KeepsList c (handle_stream_failure c)
unfolding handle_stream_failure
handle_stream_failure-KeepsList c = ground arith

open_stream-KeepsList : (created : Bool) (c : Client) → KeepsList c (open_stream created c)
unfolding open_stream
open_stream-KeepsList created c = ground (arith, handle_stream_failure-KeepsList c)

opened-ListInv :
    (created : Bool) (c d : Client)
    → KeepsList c d
    → ListInv c
    → ListInv (refresh (open_stream created d))
opened-ListInv created c d k v = refresh-ListInv (open_stream created d) (
    KeepsList-Inv d (open_stream created d) (open_stream-KeepsList created d)
      (KeepsList-Inv c d k v))

connect-ListInv : (created : Bool) (c : Client) → ListInv c → ListInv (connect created c)
unfolding connect
connect-ListInv created c v = elim (Bool-cases (is_open_status c.store.snapshot.status)) [
  | inl e ↦ rw e v
  | inr e ↦
      rw e
        (opened-ListInv created c _ (record { list = refl; is_loading = refl; has_more = refl }) v)
]

close-ListInv : (c : Client) → ListInv c → ListInv (close c)
unfolding close
close-ListInv c v = ground arith

set_credentials-ListInv :
    (hash : String) (expires_at : Option ℕ) (created : Bool) (c : Client)
    → ListInv c
    → ListInv (set_credentials hash expires_at created c)
unfolding set_credentials
set_credentials-ListInv hash expires_at created c v =
    elim (Bool-cases (
      same_text (some hash) c.config.subscriber_hash
      && same_number expires_at c.config.subscriber_hash_expires_at)) [
        | inl same ↦ rw same v
        | inr fresh ↦ rw fresh (elim (Bool-cases (is_open_status c.store.snapshot.status)) [
          | inl e ↦ rw e (
              opened-ListInv created c _
                (record { list = refl; is_loading = refl; has_more = refl }) v)
          | inr e ↦ rw e (ground arith)
        ])
      ]

on_open-ListInv : (g : ℕ) (c : Client) → ListInv c → ListInv (on_open g c)
unfolding on_open
on_open-ListInv g c v = elim (Bool-cases (g == c.connection.generation)) [
  | inl e ↦ rw e (refresh-ListInv _ (ground arith))
  | inr e ↦ rw e v
]

on_hint-ListInv :
    (g : ℕ) (last : Option String) (c : Client) → ListInv c → ListInv (on_hint g last c)
unfolding on_hint
on_hint-ListInv g last c v = elim (Bool-cases (g == c.connection.generation)) [
  | inl e ↦ rw e (refresh-ListInv _ (ground arith))
  | inr e ↦ rw e v
]

on_retry-ListInv : (g : ℕ) (ms : Converted) (c : Client) → ListInv c → ListInv (on_retry g ms c)
unfolding on_retry
on_retry-ListInv g ms c v = ground arith

on_error-ListInv :
    (g : ℕ) (last : Option String) (c : Client) → ListInv c → ListInv (on_error g last c)
unfolding on_error
on_error-ListInv g last c v = ground (arith, handle_stream_failure-KeepsList (resume_at last c))

on_timer-ListInv :
    (g : ℕ) (created : Bool) (c : Client) → ListInv c → ListInv (on_timer g created c)
unfolding on_timer
on_timer-ListInv g created c v = ground (
  arith,
  open_stream-KeepsList created
      (record c { connection = record c.connection { reconnect_timer = none } }),
)

at_stream-ListInv :
    (id : ℕ) (handler : ℕ → Client → Client) (c : Client)
    → ((g : ℕ) → ListInv (handler g c))
    → ListInv c
    → ListInv (at_stream id handler c)
at_stream-ListInv id handler c keep v =
    elim (Option-cases (find? (λ (s : Stream). s.id == id) c.connection.streams)) [
      | inl e ↦ rw (e, at_stream) v
      | inr (s, e) ↦ rw (e, at_stream) (keep s.generation)
    ]

timer-ListInv :
    (id : ℕ) (created : Bool) (c : Client)
    → ListInv c
    → ListInv (at_timer id (λ g. on_timer g created) c)
timer-ListInv id created c v =
    elim (Option-cases (find? (λ (t : Timer). t.id == id) c.connection.timers)) [
      | inl e ↦ rw (e, at_timer) v
      | inr (t, e) ↦ rw (e, at_timer) (on_timer-ListInv t.generation created _ (ground arith))
    ]

call_settled-ListInv :
    (m : Mutation) (r : Result Reply) (c : Client) → ListInv c → ListInv (call_settled m r c)
unfolding call_settled clear_error reconcile_after_failed_mutation refresh do_refresh
call_settled-ListInv (item_call prev true) r c v = ground arith
call_settled-ListInv (item_call prev false) r c v = ground arith
call_settled-ListInv (unread_call prev) r c v = ground arith
call_settled-ListInv (seen_call prev) r c v = ground arith
call_settled-ListInv archive_read_call r c v = ground arith
call_settled-ListInv set_preferences_call r c v = ground arith

settle-ListInv : (n : ℕ) (s : Settled Reply) (c : Client) → ListInv c → ListInv (settle n s c)
unfolding settle
settle-ListInv n s c v = elim (Option-cases (get_elem? c.pending n)) [
  | inl e ↦ rw (e, settle) v
  | inr (m, e) ↦ rw (e, settle) (call_settled-ListInv m (reply_of m s) _ (ground arith))
]

-- Every event keeps the list's bookkeeping: with no refresh under way nothing is marked as loading
-- and no rerun is asked for; a refresh that started under another view has a rerun behind it; and a
-- list that is at its end has no cursor.
step-ListInv : (e : Event) (c : Client) → ListInv c → ListInv (step e c)
unfolding step mark_read mark_unread archive unarchive archive_all archive_read mark_all_read
    mark_all_seen get_preferences set_preferences
step-ListInv (Event.connects created) c v = connect-ListInv created c v
step-ListInv Event.closes c v = close-ListInv c v
step-ListInv (Event.sets_credentials hash at created) c v =
    set_credentials-ListInv hash at created c v
step-ListInv Event.refreshes c v = refresh-ListInv c v
step-ListInv (Event.fetches_more limit) c v = fetch_more-ListInv limit c v
step-ListInv (Event.sets_filter f) c v = set_filter-ListInv f c v
step-ListInv (Event.marks_read id source) c v = ground arith
step-ListInv (Event.marks_unread id source) c v = ground arith
step-ListInv (Event.archives id source) c v = ground arith
step-ListInv (Event.unarchives id source) c v = ground arith
step-ListInv Event.archives_all c v = ground arith
step-ListInv Event.archives_read c v = ground arith
step-ListInv Event.marks_all_read c v = ground arith
step-ListInv Event.marks_all_seen c v = ground arith
step-ListInv Event.gets_preferences c v = ground arith
step-ListInv (Event.sets_preferences preferences) c v = ground arith
step-ListInv (Event.stream_opens id) c v =
    at_stream-ListInv id on_open c (λ g. on_open-ListInv g c v) v
step-ListInv (Event.stream_hints id last) c v =
    at_stream-ListInv id (λ g. on_hint g last) c (λ g. on_hint-ListInv g last c v) v
step-ListInv (Event.stream_retries id ms) c v =
    at_stream-ListInv id (λ g. on_retry g ms) c (λ g. on_retry-ListInv g ms c v) v
step-ListInv (Event.stream_fails id last) c v =
    at_stream-ListInv id (λ g. on_error g last) c (λ g. on_error-ListInv g last c v) v
step-ListInv (Event.timer_fires id created) c v = timer-ListInv id created c v
step-ListInv (Event.refresh_lands first page counts) c v =
    refresh_settled-ListInv (fetched first page counts) c v
step-ListInv Event.refresh_resumes c v = refresh_returns-ListInv c v
step-ListInv (Event.page_lands page) c v = fetch_more_settled-ListInv (fetched_page page) c v
step-ListInv Event.page_resumes c v = fetch_more_returns-ListInv c v
step-ListInv (Event.call_lands n reply) c v = settle-ListInv n reply c v

run-ListInv : (es : List Event) (c : Client) → ListInv c → ListInv (run es c)
unfolding run
run-ListInv [] c v = v
run-ListInv (e ∷ es) c v = run-ListInv es (step e c) (step-ListInv e c v)

-- After any history of a client: the spinner is off and no rerun is asked for when no refresh runs, a
-- refresh that waits for its responses shows the spinner and was started in the current view unless a
-- rerun is asked for, one that has them has the spinner off unless a rerun is asked for, no request
-- waits under a view that is still to come, and a list that has no more has no cursor.
pub run-new_client-ListInv :
    (config : ChimelyClientConfig) (es : List Event) → ListInv (run es (new_client config))
unfolding new_client new_store
run-new_client-ListInv config es = run-ListInv es (new_client config) (ground arith)
