-- ===== src/React/Fill.antt =====
-- The fill effect of packages/react/src/components/NotificationList.tsx: while the sentinel is in view
-- and no error is there, the list fetches one page after another; and when it is in view.
use chimely.Prelude.{ℕ, ◌+◌, leb, any, List, Bool, not, ◌&&◌, Option, is_some, if◌then◌else◌}
use chimely.Client.State.{Client}
use chimely.Client.Paging.{fetch_more}

-- What the observer of the sentinel sets: `entries.some((entry) => entry.isIntersecting)`.
abbrev pub seen_by_observer : (is_intersecting : List Bool) → Bool
seen_by_observer is_intersecting = any (λ b. b) is_intersecting

-- What a scroll sets where the platform has no such observer. `top + height >= scrollHeight - 32`
-- has the 32 on the other side here.
abbrev pub seen_by_scroll : (scroll_top client_height scroll_height : ℕ) → Bool
seen_by_scroll scroll_top client_height scroll_height =
    leb scroll_height (scroll_top + client_height + 32)

-- `sentinelVisible && hasMore && error === null`.
abbrev pub should_fill : Bool → Client → Bool
should_fill sentinel_visible c =
    sentinel_visible && c.store.snapshot.has_more && not (is_some c.store.snapshot.error)

-- One run of the effect. It runs again when the fetch has settled.
unfoldable pub fill : Bool → Option ℕ → Client → Client
fill sentinel_visible page_size c =
    if should_fill sentinel_visible c then fetch_more page_size c else c
