-- ===== src/React/Tabs.antt =====
-- The tab strip of packages/react/src/components/InboxContent.tsx: which tab a key moves to, which
-- tab is active, and the items and arrivals that it shows.
pub mod Laws
use chimely.Prelude.{
  ℕ, suc, ◌+◌, ◌-◌, ◌%◌, min, String, Bool, true, false, not, ◌&&◌, Option, none, some, List, [],
  ◌∷◌, str_eq, filter, find?, length, ltb, decimal, if◌then◌else◌,
}
use chimely.Types.{InboxItem}

-- The keys of the ARIA tabs pattern, and any other.
pub data Key : Type 0 where
  arrow_right arrow_left home_key end_key other_key : Key

-- `handleTabKeyDown` at an index of n tabs: the tab that it selects.
unfoldable pub next_tab : ℕ → Key → ℕ → Option ℕ
next_tab n arrow_right index = some ((index + 1) % n)
next_tab n arrow_left index = some (((index + n) - 1) % n)
next_tab n home_key index = some 0
next_tab n end_key index = some (n - 1)
next_tab n other_key index = none

-- `activeIndex`, where there are n tabs.
abbrev pub active_index : ℕ → ℕ → ℕ
active_index n active_tab_index = min active_tab_index (n - 1)

-- `visibleItems`, for the filter of the active tab.
abbrev pub visible_items : (InboxItem → Bool) → List InboxItem → List InboxItem
visible_items active_filter items = filter active_filter items

abbrev pub shows : (InboxItem → Bool) → Option InboxItem → Bool
shows active_filter none = false
shows active_filter (some item) = active_filter item

-- `byId`: a map keeps the last of the items with an id.
abbrev pub by_id : List InboxItem → String → Option InboxItem
by_id [] id = none
by_id (x ∷ xs) id =
    let rest = by_id xs id in
    elim rest [ some y ↦ some y | none ↦ elim (str_eq x.id id) [ true ↦ some x | false ↦ none ] ]

-- `visibleNewItemIds`, at the render that carries a merge.
unfoldable pub visible_new_item_ids :
    (InboxItem → Bool) → List InboxItem → List String → List String
visible_new_item_ids active_filter items = filter (λ id. shows active_filter (by_id items id))

-- The unread items of a tab, and the text of its count.
unfoldable tab_unread : Option (InboxItem → Bool) → List InboxItem → ℕ
tab_unread none items = length (filter (λ item. not item.read) items)
tab_unread (some tab_filter) items =
    length (filter (λ item. not item.read) (filter tab_filter items))

unfoldable tab_count : ℕ → Option String
tab_count unread =
    if ltb 0 unread then some (if ltb 99 unread then "99+" else decimal unread) else none
