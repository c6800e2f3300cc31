-- ===== src/Store.antt =====
-- packages/client/src/store.ts. A listener is known by a number; `calls` is the log of the calls
-- that `patch` makes, in order.
pub mod Laws
use chimely.Prelude.{
  ℕ, String, Bool, true, false, not, Option, none, List, [], ◌∷◌, ◌++◌, ◌==◌, or_else,
  if◌then◌else◌, any, filter,
}
use chimely.Types.{
  InboxItem, InboxCounts, ConnectionStatus, ChimelyError, InboxSnapshot, InboxFilterView, idle,
  default_view,
}

pub record InboxStore : Type 0 where
  pub snapshot : InboxSnapshot
  pub listeners : List ℕ
  pub calls : List ℕ

-- `Partial<InboxSnapshot>`: a field that the patch does not name is `none`.
pub record Patch : Type 0 where
  pub items : Option (List InboxItem)
  pub counts : Option InboxCounts
  pub status : Option ConnectionStatus
  pub has_more : Option Bool
  pub is_loading : Option Bool
  pub error : Option (Option ChimelyError)
  pub last_refresh_new_item_ids : Option (List String)
  pub filter : Option InboxFilterView

-- `{}`.
abbrev pub empty_patch : Patch
empty_patch = record {
  items = none;
  counts = none;
  status = none;
  has_more = none;
  is_loading = none;
  error = none;
  last_refresh_new_item_ids = none;
  filter = none;
}

-- `{ ...snapshot, ...patch }`.
abbrev merge_patch : InboxSnapshot → Patch → InboxSnapshot
merge_patch s p = record {
  items = or_else p.items s.items;
  counts = or_else p.counts s.counts;
  status = or_else p.status s.status;
  has_more = or_else p.has_more s.has_more;
  is_loading = or_else p.is_loading s.is_loading;
  error = or_else p.error s.error;
  last_refresh_new_item_ids = or_else p.last_refresh_new_item_ids s.last_refresh_new_item_ids;
  filter = or_else p.filter s.filter;
}

abbrev pub initial_snapshot : InboxSnapshot
initial_snapshot = record {
  items = [];
  counts = record { unread = 0; unseen = 0 };
  status = idle;
  has_more = true;
  is_loading = false;
  error = none;
  last_refresh_new_item_ids = [];
  filter = default_view;
}

unfoldable pub new_store : InboxStore
new_store = record { snapshot = initial_snapshot; listeners = []; calls = [] }

-- A `Set` keeps one copy of a listener, in the order of insertion.
unfoldable pub subscribe : InboxStore → ℕ → InboxStore
subscribe s listener =
    if any (λ l. l == listener) s.listeners
    then s
    else record s { listeners = s.listeners ++ listener ∷ [] }

unfoldable pub unsubscribe : InboxStore → ℕ → InboxStore
unsubscribe s listener = record s { listeners = filter (λ l. not (l == listener)) s.listeners }

-- Every listener is called, after the new snapshot is in place. Listeners do not call back into the
-- store.
abbrev pub patch : InboxStore → Patch → InboxStore
patch s p = record s { snapshot = merge_patch s.snapshot p; calls = s.calls ++ s.listeners }
