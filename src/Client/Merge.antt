-- ===== src/Client/Merge.antt =====
-- toItem, isOlderThan and mergeFirstPage of packages/client/src/client.ts.
pub mod Ids
pub mod Order
pub mod Parts
pub mod Window
use chimely.Prelude.{
  String, Bool, true, false, not, ◌&&◌, ◌||◌, Option, none, some, List, [], ◌∷◌, ◌++◌, map,
  if◌then◌else◌, str_eq, text_lt, filter, any, contains, get_last?,
}
use chimely.Types.{InboxItem, InboxSnapshot, WireInboxItem, WireInboxPage}

unfoldable pub to_item : WireInboxItem → InboxItem
to_item wire = record {
  id = wire.id;
  source = wire.source;
  category = wire.category;
  payload = wire.payload;
  occurred_at = wire.occurred_at;
  read = wire.read;
  archived = wire.archived;
}

unfoldable pub is_older_than : InboxItem → InboxItem → Bool
is_older_than item boundary =
    if not (str_eq item.occurred_at boundary.occurred_at)
    then text_lt item.occurred_at boundary.occurred_at
    else text_lt item.id boundary.id

abbrev pub ids : List InboxItem → List String
ids = map λ item. item.id

-- The ids of the page that are not in the list yet.
abbrev pub new_ids : List InboxItem → List InboxItem → List String
new_ids existing page_items =
    ids (filter (λ item. not (contains (ids existing) item.id)) page_items)

-- The loaded items that are older than the page and not on it.
abbrev pub tail_after : List InboxItem → InboxItem → List InboxItem → List InboxItem
tail_after page_items boundary =
    filter (λ item. not (contains (ids page_items) item.id) && is_older_than item boundary)

abbrev pub overlaps : List InboxItem → List InboxItem → Bool
overlaps page_items = any (λ item. contains (ids page_items) item.id)

-- The fields of the patch, with the cursor that is left.
pub record Merged : Type 0 where
  pub items : List InboxItem
  pub has_more : Bool
  pub last_refresh_new_item_ids : List String
  pub cursor : Option String

abbrev pub is_empty {ℓ} : {A : Type ℓ} → List A → Bool
is_empty [] = true
is_empty (x ∷ xs) = false

-- The page has a next one and a last item.
abbrev pub merge_bounded :
    InboxSnapshot → Option String → List InboxItem → String → InboxItem → Merged
merge_bounded existing cursor page_items next_cursor boundary =
    let tail = tail_after page_items boundary existing.items in
    if is_empty tail || not (overlaps page_items existing.items)
    then record {
      items = page_items;
      has_more = true;
      last_refresh_new_item_ids = new_ids existing.items page_items;
      cursor = some next_cursor;
    }
    else record {
      items = page_items ++ tail;
      has_more = existing.has_more;
      last_refresh_new_item_ids = new_ids existing.items page_items;
      cursor = cursor;
    }

abbrev merge_whole : InboxSnapshot → List InboxItem → Merged
merge_whole existing page_items = record {
  items = page_items;
  has_more = false;
  last_refresh_new_item_ids = new_ids existing.items page_items;
  cursor = none;
}

abbrev pub merge_cases :
    InboxSnapshot → Option String → List InboxItem → Option String → Option InboxItem → Merged
merge_cases existing cursor page_items (some next_cursor) (some boundary) =
    merge_bounded existing cursor page_items next_cursor boundary
merge_cases existing cursor page_items _ _ = merge_whole existing page_items

unfoldable pub merge_first_page : InboxSnapshot → Option String → WireInboxPage → Merged
merge_first_page existing cursor page =
    let page_items = map to_item page.items in
    merge_cases existing cursor page_items page.next_cursor (get_last? page_items)
