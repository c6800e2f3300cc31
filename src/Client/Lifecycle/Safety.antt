-- ===== src/Client/Lifecycle/Safety.antt =====
-- The invariant over every event and every history.
use chimely.Prelude.{List, [], ◌∷◌}
use chimely.Types.{ChimelyClientConfig}
use chimely.Client.State.{Client, new_client}
use chimely.Store.{new_store}
use chimely.Client.Refresh.{fetched}
use chimely.Client.Paging.{fetched_page}
use chimely.Client.Connection.{on_open, on_hint, on_retry, on_error}
use chimely.Client.Step.{Event, step, run}
use chimely.Client.Lifecycle.{ConnectionInv, KeepsConnection-Inv, refresh-Inv}
use chimely.Client.Lifecycle.Events.{
  connect-Inv, close-Inv, set_credentials-Inv, on_open-Inv, on_hint-Inv, on_retry-Inv, on_error-Inv,
  at_stream-Inv, at_timer-Inv,
}
use chimely.Client.Lifecycle.Frame

-- Every event keeps it: a status goes with the source and the timer that the client holds, and the
-- platform has just those, under the current generation.
pub step-ConnectionInv : (e : Event) (c : Client) → ConnectionInv c → ConnectionInv (step e c)
unfolding step
step-ConnectionInv (Event.connects created) c v = connect-Inv created c v
step-ConnectionInv Event.closes c v = close-Inv c v
step-ConnectionInv (Event.sets_credentials hash at created) c v =
    set_credentials-Inv hash at created c v
step-ConnectionInv Event.refreshes c v = refresh-Inv c v
step-ConnectionInv (Event.fetches_more limit) c v =
    KeepsConnection-Inv c _ (Frame.fetch_more-KeepsConnection limit c) v
step-ConnectionInv (Event.sets_filter filter) c v =
    KeepsConnection-Inv c _ (Frame.set_filter-KeepsConnection filter c) v
step-ConnectionInv (Event.marks_read id source) c v =
    KeepsConnection-Inv c _ (Frame.mark_read-KeepsConnection id source c) v
step-ConnectionInv (Event.marks_unread id source) c v =
    KeepsConnection-Inv c _ (Frame.mark_unread-KeepsConnection id source c) v
step-ConnectionInv (Event.archives id source) c v =
    KeepsConnection-Inv c _ (Frame.archive-KeepsConnection id source c) v
step-ConnectionInv (Event.unarchives id source) c v =
    KeepsConnection-Inv c _ (Frame.unarchive-KeepsConnection id source c) v
step-ConnectionInv Event.archives_all c v =
    KeepsConnection-Inv c _ (Frame.archive_all-KeepsConnection c) v
step-ConnectionInv Event.archives_read c v =
    KeepsConnection-Inv c _ (Frame.archive_read-KeepsConnection c) v
step-ConnectionInv Event.marks_all_read c v =
    KeepsConnection-Inv c _ (Frame.mark_all_read-KeepsConnection c) v
step-ConnectionInv Event.marks_all_seen c v =
    KeepsConnection-Inv c _ (Frame.mark_all_seen-KeepsConnection c) v
step-ConnectionInv Event.gets_preferences c v =
    KeepsConnection-Inv c _ (Frame.get_preferences-KeepsConnection c) v
step-ConnectionInv (Event.sets_preferences preferences) c v =
    KeepsConnection-Inv c _ (Frame.set_preferences-KeepsConnection preferences c) v
step-ConnectionInv (Event.stream_opens id) c v =
    at_stream-Inv id on_open c (λ g e. on_open-Inv g id c e v) v
step-ConnectionInv (Event.stream_hints id last) c v =
    at_stream-Inv id (λ g. on_hint g last) c (λ g e. on_hint-Inv g last c v) v
step-ConnectionInv (Event.stream_retries id ms) c v =
    at_stream-Inv id (λ g. on_retry g ms) c (λ g e. on_retry-Inv g ms c v) v
step-ConnectionInv (Event.stream_fails id last) c v =
    at_stream-Inv id (λ g. on_error g last) c (λ g e. on_error-Inv g id last c e v) v
step-ConnectionInv (Event.timer_fires id created) c v = at_timer-Inv id created c v
step-ConnectionInv (Event.refresh_lands first page counts) c v =
    KeepsConnection-Inv c _ (Frame.refresh_settled-KeepsConnection (fetched first page counts) c) v
step-ConnectionInv Event.refresh_resumes c v =
    KeepsConnection-Inv c _ (Frame.refresh_returns-KeepsConnection c) v
step-ConnectionInv (Event.page_lands page) c v =
    KeepsConnection-Inv c _ (Frame.fetch_more_settled-KeepsConnection (fetched_page page) c) v
step-ConnectionInv Event.page_resumes c v =
    KeepsConnection-Inv c _ (Frame.fetch_more_returns-KeepsConnection c) v
step-ConnectionInv (Event.call_lands n reply) c v =
    KeepsConnection-Inv c _ (Frame.settle-KeepsConnection n reply c) v

run-ConnectionInv : (es : List Event) (c : Client) → ConnectionInv c → ConnectionInv (run es c)
unfolding run
run-ConnectionInv [] c v = v
run-ConnectionInv (e ∷ es) c v = run-ConnectionInv es (step e c) (step-ConnectionInv e c v)

-- After any history of a client there is one open stream or one waiting timer when its status says
-- so, and none when it is idle or closed.
pub run-new_client-ConnectionInv :
    (config : ChimelyClientConfig) (es : List Event) → ConnectionInv (run es (new_client config))
unfolding new_client new_store
run-new_client-ConnectionInv config es =
    run-ConnectionInv es (new_client config) (record { fits = tt; streams = tt; timers = tt })
