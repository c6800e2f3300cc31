-- ===== src/React/Hooks.antt =====
-- useNotifications, useUnreadCount and useUnseenCount of packages/react/src/hooks.ts: what they select
-- from the snapshot, and the calls that they bind to the client.
use chimely.Prelude.{ℕ, String, Bool, Option, List}
use chimely.Types.{ChimelyError, InboxItem, InboxItemSource, InboxFilterView, InboxSnapshot}
use chimely.Client.State.{Client}
use chimely.Client.Refresh.{refresh, set_filter}
use chimely.Client.Paging.{fetch_more}
use chimely.Client.Mutations.{
  mark_read, mark_unread, mark_all_read, archive, unarchive, archive_all, archive_read,
}

pub record Notifications : Type 0 where
  pub items : List InboxItem
  pub is_loading : Bool
  pub error : Option ChimelyError
  pub has_more : Bool
  pub last_refresh_new_item_ids : List String
  pub filter : InboxFilterView

-- The snapshot has its optional fields.
unfoldable use_notifications : InboxSnapshot → Notifications
use_notifications snapshot = record {
  items = snapshot.items;
  is_loading = snapshot.is_loading;
  error = snapshot.error;
  has_more = snapshot.has_more;
  last_refresh_new_item_ids = snapshot.last_refresh_new_item_ids;
  filter = snapshot.filter;
}

pub data NotificationsCall : Type 0 where
  fetches_more refreshes marks_all_read archives_all archives_read : NotificationsCall
  marks_read marks_unread archives unarchives : String → InboxItemSource → NotificationsCall
  sets_filter : InboxFilterView → NotificationsCall

-- The callbacks of the hook, with its page size.
unfoldable notifications_call : Option ℕ → NotificationsCall → Client → Client
notifications_call page_size fetches_more = fetch_more page_size
notifications_call page_size refreshes = refresh
notifications_call page_size (marks_read id source) = mark_read id source
notifications_call page_size (marks_unread id source) = mark_unread id source
notifications_call page_size marks_all_read = mark_all_read
notifications_call page_size (archives id source) = archive id source
notifications_call page_size (unarchives id source) = unarchive id source
notifications_call page_size archives_all = archive_all
notifications_call page_size archives_read = archive_read
notifications_call page_size (sets_filter filter) = set_filter filter

pub record CountResult : Type 0 where
  pub count : ℕ
  pub is_loading : Bool
  pub error : Option ChimelyError

unfoldable use_unread_count : InboxSnapshot → CountResult
use_unread_count snapshot = record {
  count = snapshot.counts.unread;
  is_loading = snapshot.is_loading;
  error = snapshot.error;
}

unfoldable use_unseen_count : InboxSnapshot → CountResult
use_unseen_count snapshot = record {
  count = snapshot.counts.unseen;
  is_loading = snapshot.is_loading;
  error = snapshot.error;
}
