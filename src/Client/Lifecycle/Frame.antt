-- ===== src/Client/Lifecycle/Frame.antt =====
-- The operations that are no concern of the connection leave it and the status alone.
use chimely.Prelude.{
  ℕ, String, true, false, Option, List, refl, inl, inr, arith, Option-cases, get_elem?, erase_idx,
}
use chimely.Types.{InboxItemSource, InboxFilterView, Preference, WireInboxPage}
use chimely.Errors.{Settled, Result}
use chimely.Client.State.{
  Client, Mutation, item_call, unread_call, seen_call, archive_read_call, set_preferences_call,
}
use chimely.Client.Refresh.{
  refresh, do_refresh, refresh_settled, refresh_returns, set_filter, apply_fetched, Fetched,
}
use chimely.Client.Paging.{fetch_more, do_fetch_more, fetch_more_settled, fetch_more_returns}
use chimely.Client.Mutations.{
  mark_read, mark_unread, archive, unarchive, archive_all, archive_read, mark_all_read,
  mark_all_seen, get_preferences, set_preferences, settle, call_settled, Reply, reply_of,
  clear_error, reconcile_after_failed_mutation,
}
use chimely.Client.Lifecycle.{KeepsConnection}

pub refresh_settled-KeepsConnection :
    (r : Result Fetched) (c : Client) → KeepsConnection c (refresh_settled r c)
unfolding refresh_settled apply_fetched
refresh_settled-KeepsConnection r c = ground arith

pub refresh_returns-KeepsConnection : (c : Client) → KeepsConnection c (refresh_returns c)
unfolding refresh_returns do_refresh
refresh_returns-KeepsConnection c = ground arith

pub set_filter-KeepsConnection :
    (filter : InboxFilterView) (c : Client) → KeepsConnection c (set_filter filter c)
unfolding set_filter refresh do_refresh
set_filter-KeepsConnection filter c = ground arith

pub fetch_more-KeepsConnection :
    (limit : Option ℕ) (c : Client) → KeepsConnection c (fetch_more limit c)
unfolding fetch_more do_fetch_more
fetch_more-KeepsConnection limit c = ground arith

pub fetch_more_settled-KeepsConnection :
    (r : Result WireInboxPage) (c : Client) → KeepsConnection c (fetch_more_settled r c)
unfolding fetch_more_settled
fetch_more_settled-KeepsConnection r c = ground arith

pub fetch_more_returns-KeepsConnection : (c : Client) → KeepsConnection c (fetch_more_returns c)
unfolding fetch_more_returns
fetch_more_returns-KeepsConnection c = ground arith

module _ (id : String) (source : InboxItemSource) (c : Client) where
  pub mark_read-KeepsConnection : KeepsConnection c (mark_read id source c)
  unfolding mark_read
  mark_read-KeepsConnection = ground arith

  pub mark_unread-KeepsConnection : KeepsConnection c (mark_unread id source c)
  unfolding mark_unread
  mark_unread-KeepsConnection = ground arith

  pub archive-KeepsConnection : KeepsConnection c (archive id source c)
  unfolding archive
  archive-KeepsConnection = ground arith

  pub unarchive-KeepsConnection : KeepsConnection c (unarchive id source c)
  unfolding unarchive
  unarchive-KeepsConnection = ground arith

module _ (c : Client) where
  pub archive_all-KeepsConnection : KeepsConnection c (archive_all c)
  unfolding archive_all
  archive_all-KeepsConnection = ground arith

  pub archive_read-KeepsConnection : KeepsConnection c (archive_read c)
  unfolding archive_read
  archive_read-KeepsConnection = ground arith

  pub mark_all_read-KeepsConnection : KeepsConnection c (mark_all_read c)
  unfolding mark_all_read
  mark_all_read-KeepsConnection = ground arith

  pub mark_all_seen-KeepsConnection : KeepsConnection c (mark_all_seen c)
  unfolding mark_all_seen
  mark_all_seen-KeepsConnection = ground arith

  pub get_preferences-KeepsConnection : KeepsConnection c (get_preferences c)
  unfolding get_preferences
  get_preferences-KeepsConnection = ground arith

pub set_preferences-KeepsConnection :
    (preferences : List Preference) (c : Client) → KeepsConnection c (set_preferences preferences c)
unfolding set_preferences
set_preferences-KeepsConnection preferences c = ground arith

pub call_settled-KeepsConnection :
    (m : Mutation) (r : Result Reply) (c : Client) → KeepsConnection c (call_settled m r c)
unfolding call_settled clear_error reconcile_after_failed_mutation refresh do_refresh
call_settled-KeepsConnection (item_call prev true) r c = ground arith
call_settled-KeepsConnection (item_call prev false) r c = ground arith
call_settled-KeepsConnection (unread_call prev) r c = ground arith
call_settled-KeepsConnection (seen_call prev) r c = ground arith
call_settled-KeepsConnection archive_read_call r c = ground arith
call_settled-KeepsConnection set_preferences_call r c = ground arith

pub settle-KeepsConnection :
    (n : ℕ) (s : Settled Reply) (c : Client) → KeepsConnection c (settle n s c)
unfolding settle
settle-KeepsConnection n s c = elim (Option-cases (get_elem? c.pending n)) [
  | inl e ↦ rw (e, settle) (record { connection = refl; status = refl })
  | inr (m, e) ↦
      let d = record c { pending = erase_idx c.pending n } in
      let k = call_settled-KeepsConnection m (reply_of m s) d in
      rw (e, settle) (record { connection = k.connection; status = k.status })
]
