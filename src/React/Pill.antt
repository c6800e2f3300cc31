-- ===== src/React/Pill.antt =====
-- The pill for new notifications of packages/react/src/components/NotificationList.tsx: the set of
-- ids that arrived while the list was scrolled down, and the count that the pill shows.
pub mod Laws
use chimely.Prelude.{
  ℕ, String, Bool, true, false, not, List, [], ◌∷◌, ◌++◌, if◌then◌else◌, ◌==◌, leb, ltb, ◌&&◌,
  filter, contains, length,
}

pub record Pill : Type 0 where
  pub pending_new_ids : List String
  pub pending_count : ℕ

abbrev pub initial_pill : Pill
initial_pill = record { pending_new_ids = []; pending_count = 0 }

-- `pendingNewIds.current.add(id)` for each id.
abbrev pub add_ids : List String → List String → List String
add_ids set [] = set
add_ids set (id ∷ ids) = add_ids (if contains set id then set else set ++ id ∷ []) ids

-- The effect of a new `newItemIds`, at a scroll position.
unfoldable pub arrive : List String → ℕ → Pill → Pill
arrive new_item_ids scroll_top p =
    if length new_item_ids == 0
    then p
    else if leb scroll_top 8
    then p
    else record { pending_new_ids = ids; pending_count = length ids }
  where
    ids : List String
    ids = add_ids p.pending_new_ids new_item_ids

-- The effect of new items, by their ids.
unfoldable pub prune : List String → Pill → Pill
prune items p =
    if length p.pending_new_ids == 0
    then p
    else record { pending_new_ids = ids; pending_count = length ids }
  where
    ids : List String
    ids = filter (contains items) p.pending_new_ids

-- The scroll listener.
unfoldable pub scroll : ℕ → Pill → Pill
scroll scroll_top p =
    if leb scroll_top 8 && ltb 0 (length p.pending_new_ids) then initial_pill else p

abbrev dismiss_pill : Pill → Pill
dismiss_pill p = initial_pill

-- What happens to the list: a render that carries a merge, one with new items alone, a scroll, a
-- click on the pill. The effects of one render run in their order in the source.
pub data PillEvent : Type 0 where
  merges : (new_item_ids items : List String) → (scroll_top : ℕ) → PillEvent
  changes : (items : List String) → PillEvent
  scrolls : (scroll_top : ℕ) → PillEvent
  dismisses : PillEvent

unfoldable pub pill_step : PillEvent → Pill → Pill
pill_step (merges new_item_ids items scroll_top) p = prune items (arrive new_item_ids scroll_top p)
pill_step (changes items) p = prune items p
pill_step (scrolls scroll_top) p = scroll scroll_top p
pill_step dismisses p = dismiss_pill p

unfoldable pub pill_run : List PillEvent → Pill → Pill
pill_run [] p = p
pill_run (e ∷ es) p = pill_run es (pill_step e p)
