-- ===== src/Client/Step.antt =====
-- One event of a client's life: a call of a method, an event of its streams and timers, or the end
-- of a wait of one of its async functions. An event that cannot happen changes nothing.
use chimely.Prelude.{ℕ, String, Bool, not, Option, none, some, List, [], ◌∷◌, ◌==◌, find?, filter}
use chimely.Types.{InboxItemSource, InboxFilterView, WireInboxPage, InboxCounts, Preference}
use chimely.Errors.{Settled}
use chimely.Client.State.{Client}
use chimely.Client.Refresh.{refresh, fetched, refresh_settled, refresh_returns, set_filter}
use chimely.Client.Connection.{
  connect, close, set_credentials, on_open, on_hint, on_retry, on_error, on_timer, Converted,
}
use chimely.Client.Paging.{fetch_more, fetched_page, fetch_more_settled, fetch_more_returns}
use chimely.Client.Mutations.{
  mark_read, mark_unread, archive, unarchive, archive_all, archive_read, mark_all_read,
  mark_all_seen, get_preferences, set_preferences, settle, Reply,
}

pub data Event : Type 0 where
  connects : Bool → Event
  closes : Event
  sets_credentials : String → Option ℕ → Bool → Event
  refreshes : Event
  fetches_more : Option ℕ → Event
  sets_filter : InboxFilterView → Event
  marks_read marks_unread archives unarchives : String → InboxItemSource → Event
  archives_all archives_read marks_all_read marks_all_seen gets_preferences : Event
  sets_preferences : List Preference → Event
  -- Events of a source or a timer, by its id.
  stream_opens : ℕ → Event
  stream_hints : ℕ → Option String → Event
  stream_retries : ℕ → Converted → Event
  stream_fails : ℕ → Option String → Event
  timer_fires : ℕ → Bool → Event
  -- Responses, and the microtasks that follow them.
  refresh_lands : Bool → Settled WireInboxPage → Settled InboxCounts → Event
  refresh_resumes : Event
  page_lands : Settled WireInboxPage → Event
  page_resumes : Event
  call_lands : ℕ → Settled Reply → Event

-- Only a source that is not closed emits events.
abbrev pub at_stream : ℕ → (ℕ → Client → Client) → Client → Client
at_stream id handler c = elim (find? (λ s. s.id == id) c.connection.streams) [
  | none ↦ c
  | some s ↦ handler s.generation c
]

-- A timeout that fires is gone from the platform before its callback runs.
abbrev pub drop_timer : ℕ → Client → Client
drop_timer id c = record c {
  connection = record c.connection { timers = filter (λ t. not (t.id == id)) c.connection.timers };
}

abbrev pub at_timer : ℕ → (ℕ → Client → Client) → Client → Client
at_timer id callback c = elim (find? (λ t. t.id == id) c.connection.timers) [
  | none ↦ c
  | some t ↦ callback t.generation (drop_timer id c)
]

unfoldable pub step : Event → Client → Client
step (connects created) c = connect created c
step closes c = close c
step (sets_credentials hash expires_at created) c = set_credentials hash expires_at created c
step refreshes c = refresh c
step (fetches_more limit) c = fetch_more limit c
step (sets_filter filter) c = set_filter filter c
step (marks_read id source) c = mark_read id source c
step (marks_unread id source) c = mark_unread id source c
step (archives id source) c = archive id source c
step (unarchives id source) c = unarchive id source c
step archives_all c = archive_all c
step archives_read c = archive_read c
step marks_all_read c = mark_all_read c
step marks_all_seen c = mark_all_seen c
step gets_preferences c = get_preferences c
step (sets_preferences preferences) c = set_preferences preferences c
step (stream_opens id) c = at_stream id on_open c
step (stream_hints id last) c = at_stream id (λ g. on_hint g last) c
step (stream_retries id ms) c = at_stream id (λ g. on_retry g ms) c
step (stream_fails id last) c = at_stream id (λ g. on_error g last) c
step (timer_fires id created) c = at_timer id (λ g. on_timer g created) c
step (refresh_lands first page counts) c = refresh_settled (fetched first page counts) c
step refresh_resumes c = refresh_returns c
step (page_lands page) c = fetch_more_settled (fetched_page page) c
step page_resumes c = fetch_more_returns c
step (call_lands n reply) c = settle n reply c

unfoldable pub run : List Event → Client → Client
run [] c = c
run (e ∷ es) c = run es (step e c)
