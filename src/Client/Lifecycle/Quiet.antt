-- ===== src/Client/Lifecycle/Quiet.antt =====
-- What an event other than connect() does to a client that is not open, and what a change of credentials
-- does to one that is.
use chimely.Prelude.{
  ℕ, ◌≤◌, String, Bool, true, false, Option, some, [], ◌∷◌, ◌≡◌, refl, arith, ◌&&◌, map,
}
use chimely.Types.{connecting}
use chimely.Client.State.{Client, Stream}
use chimely.Client.Connection.{
  is_open_status, close, set_credentials, open_stream, stream_url, same_text, same_number,
}
use chimely.Client.Refresh.{refresh, do_refresh, fetched}
use chimely.Client.Paging.{fetched_page}
use chimely.Client.Step.{Event, step, at_stream, at_timer}
use chimely.Client.Lifecycle.{
  ConnectionInv, IsDetached-of_not_open, detach-IsDetached, KeepsConnection,
  refresh-KeepsConnection,
}
use chimely.Client.Lifecycle.Frame

abbrev pub IsNotConnect : Event → Type 0
IsNotConnect (Event.connects created) = ⊥
IsNotConnect _ = Unit

-- From one client to the next: not open, with no older generation.
abbrev pub StaysOut : Client → Client → Type 0
StaysOut c d =
    (is_open_status d.store.snapshot.status ≡ false)
    × (c.connection.generation ≤ d.connection.generation)

kept :
    (c d : Client)
    → KeepsConnection c d
    → is_open_status c.store.snapshot.status ≡ false
    → StaysOut c d
kept c d k o = ground arith

no_stream :
    (id : ℕ) (handler : ℕ → Client → Client) (c : Client)
    → c.connection.streams ≡ []
    → at_stream id handler c ≡ c
no_stream id handler c e = ground arith

no_timer :
    (id : ℕ) (callback : ℕ → Client → Client) (c : Client)
    → c.connection.timers ≡ []
    → at_timer id callback c ≡ c
no_timer id callback c e = ground arith

credentials_kept :
    (hash : String) (expires_at : Option ℕ) (created : Bool) (c : Client)
    → is_open_status c.store.snapshot.status ≡ false
    → StaysOut c (set_credentials hash expires_at created c)
unfolding set_credentials
credentials_kept hash expires_at created c o = ground arith

pub step_not_open :
    (e : Event) (c : Client)
    → IsNotConnect e
    → ConnectionInv c
    → is_open_status c.store.snapshot.status ≡ false
    → StaysOut c (step e c)
unfolding step close
step_not_open (Event.connects created) c n v o = absurd n
step_not_open Event.closes c n v o = (refl, omega arith)
step_not_open (Event.sets_credentials hash at created) c n v o =
    credentials_kept hash at created c o
step_not_open Event.refreshes c n v o = kept c _ (refresh-KeepsConnection c) o
step_not_open (Event.fetches_more limit) c n v o =
    kept c _ (Frame.fetch_more-KeepsConnection limit c) o
step_not_open (Event.sets_filter filter) c n v o =
    kept c _ (Frame.set_filter-KeepsConnection filter c) o
step_not_open (Event.marks_read id source) c n v o =
    kept c _ (Frame.mark_read-KeepsConnection id source c) o
step_not_open (Event.marks_unread id source) c n v o =
    kept c _ (Frame.mark_unread-KeepsConnection id source c) o
step_not_open (Event.archives id source) c n v o =
    kept c _ (Frame.archive-KeepsConnection id source c) o
step_not_open (Event.unarchives id source) c n v o =
    kept c _ (Frame.unarchive-KeepsConnection id source c) o
step_not_open Event.archives_all c n v o = kept c _ (Frame.archive_all-KeepsConnection c) o
step_not_open Event.archives_read c n v o = kept c _ (Frame.archive_read-KeepsConnection c) o
step_not_open Event.marks_all_read c n v o = kept c _ (Frame.mark_all_read-KeepsConnection c) o
step_not_open Event.marks_all_seen c n v o = kept c _ (Frame.mark_all_seen-KeepsConnection c) o
step_not_open Event.gets_preferences c n v o = kept c _ (Frame.get_preferences-KeepsConnection c) o
step_not_open (Event.sets_preferences rows) c n v o =
    kept c _ (Frame.set_preferences-KeepsConnection rows c) o
step_not_open (Event.stream_opens id) c n v o =
    rw (no_stream id _ c (IsDetached-of_not_open c v o).streams) (o, omega arith)
step_not_open (Event.stream_hints id last) c n v o =
    rw (no_stream id _ c (IsDetached-of_not_open c v o).streams) (o, omega arith)
step_not_open (Event.stream_retries id ms) c n v o =
    rw (no_stream id _ c (IsDetached-of_not_open c v o).streams) (o, omega arith)
step_not_open (Event.stream_fails id last) c n v o =
    rw (no_stream id _ c (IsDetached-of_not_open c v o).streams) (o, omega arith)
step_not_open (Event.timer_fires id created) c n v o =
    rw (no_timer id _ c (IsDetached-of_not_open c v o).timers) (o, omega arith)
step_not_open (Event.refresh_lands first page counts) c n v o =
    kept c _ (Frame.refresh_settled-KeepsConnection (fetched first page counts) c) o
step_not_open Event.refresh_resumes c n v o = kept c _ (Frame.refresh_returns-KeepsConnection c) o
step_not_open (Event.page_lands page) c n v o =
    kept c _ (Frame.fetch_more_settled-KeepsConnection (fetched_page page) c) o
step_not_open Event.page_resumes c n v o = kept c _ (Frame.fetch_more_returns-KeepsConnection c) o
step_not_open (Event.call_lands k reply) c n v o =
    kept c _ (Frame.settle-KeepsConnection k reply c) o

-- In a client that is open, under the invariant, with credentials that differ from its own and a
-- stream that can be created: the config has them, the one stream that is left is the new one,
-- whose URL carries them, and no timer waits.
pub set_credentials_reopens :
    (hash : String) (expires_at : Option ℕ) (c : Client)
    → ConnectionInv c
    → is_open_status c.store.snapshot.status ≡ true
    → (same_text (some hash) c.config.subscriber_hash
        && same_number expires_at c.config.subscriber_hash_expires_at)
      ≡ false
    → let d = set_credentials hash expires_at true c in
      (d.config.subscriber_hash ≡ some hash)
      × (d.config.subscriber_hash_expires_at ≡ expires_at)
      × (map (λ (s : Stream). s.url) d.connection.streams ≡ stream_url d ∷ [])
      × (d.connection.timers ≡ [])
      × (d.store.snapshot.status ≡ connecting)
unfolding set_credentials open_stream refresh do_refresh stream_url
set_credentials_reopens hash expires_at c v o s = ground (arith, detach-IsDetached c v)
