-- ===== src/Tests/Merging.antt =====
-- Pages at concrete inputs.
use chimely.Prelude.{false, none, some, List, [], ◌∷◌, ◌++◌, map, ◌≡◌, refl, text_lt}
use chimely.Types.{InboxItem, InboxSnapshot, WireInboxPage}
use chimely.Store.{initial_snapshot}
use chimely.Errors.{ok}
use chimely.Client.State.{Client, awaiting}
use chimely.Client.Merge.{to_item, is_older_than, merge_first_page, ids}
use chimely.Client.Merge.Order.{Ordered, merge_first_page-Ordered}
use chimely.Client.Merge.Parts.{Begins}
use chimely.Client.Merge.Window.{merge_first_page-Begins}
use chimely.Client.Paging.{fetch_more_settled}
use chimely.Client.Paging.Laws.{fetch_more_after_reset}
use chimely.Client.Refresh.{refresh_settled}
use chimely.Tests.{wire, first_page, second_page, loaded, client}

abbrev server : List InboxItem
server = map to_item (first_page.items ++ second_page.items)

abbrev existing : InboxSnapshot
existing = record initial_snapshot { items = loaded }

-- The tail of the loaded list stays behind the page.
merged_ids : ids (merge_first_page existing (some "c2") first_page).items ≡ "n4" ∷ "n3" ∷ "n2" ∷ []
unfolding merge_first_page to_item is_older_than text_lt
merged_ids = refl

merge_first_page-Begins_example :
    Begins (merge_first_page existing (some "c2") first_page).items server
unfolding to_item is_older_than text_lt
merge_first_page-Begins_example =
    merge_first_page-Begins existing (some "c2") first_page server
      (to_item (wire "n4" "2026-04" false) ∷ [])
      ((refl, (refl, (refl, tt))), ((refl, (refl, tt)), ((refl, tt), (tt, tt))))
      (refl, (refl, (refl, (refl, tt)))) (map to_item second_page.items, refl)
      (to_item (wire "n1" "2026-01" false) ∷ [], refl)

merge_first_page-Ordered_example : Ordered (merge_first_page existing (some "c2") first_page).items
unfolding to_item is_older_than text_lt
merge_first_page-Ordered_example =
    merge_first_page-Ordered existing (some "c2") first_page ((refl, tt), (tt, tt))
      ((refl, tt), (tt, tt))

-- The client while it fetches the page behind its two items.
abbrev fetching : Client
fetching = record client {
  list = record client.list { cursor = some "c2"; fetching_more = some (awaiting 0) };
}

abbrev last_page : WireInboxPage
last_page = record { items = wire "n1" "2026-01" false ∷ []; next_cursor = none }

-- Four items have come since: the page of the refresh and the loaded list do not meet.
abbrev newest_page : WireInboxPage
newest_page = record {
  items = wire "n8" "2026-08" false ∷ wire "n7" "2026-07" false ∷ [];
  next_cursor = some "c7";
}

fetch_more_after_reset_example :
    let reset =
      refresh_settled
        (ok (record {
          counts = record { unread = 7; unseen = 4 };
          page = some (newest_page, some "v2");
        }))
        (record fetching { list = record fetching.list { refreshing = some (awaiting 0) } }) in
    let d = fetch_more_settled (ok last_page) reset in
    (reset.store.snapshot.items ≡ map to_item newest_page.items)
    × (d.store.snapshot.items ≡ map to_item newest_page.items ++ map to_item last_page.items)
    × (d.list.cursor ≡ none)
unfolding to_item client
fetch_more_after_reset_example =
    fetch_more_after_reset
      (record fetching { list = record fetching.list { refreshing = some (awaiting 0) } })
      (record { unread = 7; unseen = 4 }) newest_page last_page (some "v2") "c7"
      (to_item (wire "n7" "2026-07" false)) refl refl refl refl refl (refl, tt)
