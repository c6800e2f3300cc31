-- ===== src/Client/Paging/Laws.antt =====
-- What a further page does to the loaded list.
use mathlib.Core.List.{append_assoc, map-append}
use chimely.Prelude.{
  All-left, String, false, Option, some, List, [], ◌∷◌, ◌++◌, map, ◌≡◌, refl, sym, ap, ◌∙◌, arith,
  subst, contains, get_last?, Distinct, All, is_some,
}
use chimely.Types.{InboxItem, InboxCounts, WireInboxItem, WireInboxPage}
use chimely.Errors.{ok}
use chimely.Client.State.{Client, awaiting}
use chimely.Client.Merge.{to_item, ids, merge_first_page, overlaps}
use chimely.Client.Merge.Ids.{Apart, Distinct-append}
use chimely.Client.Merge.Parts.{Begins, behind_apart}
use chimely.Client.Paging.{appended, fetch_more_settled}
use chimely.Client.Refresh.{refresh_settled, apply_fetched}

Apart-appended :
    (items : List InboxItem) (page : List WireInboxItem)
    → Apart (ids items) (ids (appended items page))
unfolding appended to_item
Apart-appended items [] = tt
Apart-appended items (x ∷ page) = ground (arith, Apart-appended items page)

contains-appended :
    (items : List InboxItem) (page : List WireInboxItem) (s : String)
    → contains (ids (map to_item page)) s ≡ false
    → contains (ids (appended items page)) s ≡ false
unfolding appended to_item
contains-appended items [] s h = refl
contains-appended items (x ∷ page) s h = ground (arith, contains-appended items page s)

Distinct-appended :
    (items : List InboxItem) (page : List WireInboxItem)
    → Distinct (ids (map to_item page))
    → Distinct (ids (appended items page))
unfolding appended to_item
Distinct-appended items [] h = tt
Distinct-appended items (x ∷ page) h =
    ground (arith, Distinct-appended items page h.1, contains-appended items page x.id)

-- An append keeps the ids of the list distinct, if those of the page are.
pub append-Distinct :
    (items : List InboxItem) (page : List WireInboxItem)
    → Distinct (ids items)
    → Distinct (ids (map to_item page))
    → Distinct (ids (items ++ appended items page))
append-Distinct items page h k = rw map-append (
    Distinct-append (ids items) (ids (appended items page)) h (Distinct-appended items page k)
      (Apart-appended items page))

-- A page none of whose items is loaded is taken whole.
appended_whole :
    (items : List InboxItem) (page : List WireInboxItem)
    → All (λ y. contains (ids items) y.id ≡ false) (map to_item page)
    → appended items page ≡ map to_item page
unfolding appended to_item
appended_whole items [] h = refl
appended_whole items (x ∷ page) h = ground (arith, appended_whole items page h.1)

-- Where a fetch of a further page is under way in the current view, and the server's list has
-- distinct ids, begins with the loaded items and has the items of the page next: the list afterwards
-- is the loaded items with the page behind them, and the list still has more just if the page has a
-- next cursor, which is kept.
pub fetch_more_settled-Begins :
    (c : Client) (page : WireInboxPage) (server rest : List InboxItem)
    → c.list.fetching_more ≡ some (awaiting c.list.view_generation)
    → Distinct (ids server)
    → c.store.snapshot.items ++ (map to_item page.items ++ rest) ≡ server
    → let d = fetch_more_settled (ok page) c in
      (d.store.snapshot.items ≡ c.store.snapshot.items ++ map to_item page.items)
      × Begins d.store.snapshot.items server
      × (d.store.snapshot.has_more ≡ is_some page.next_cursor)
      × (d.list.cursor ≡ page.next_cursor)
unfolding fetch_more_settled
fetch_more_settled-Begins c page server rest f u e =
    let fresh = appended_whole c.store.snapshot.items page.items (
      All-left _ (map to_item page.items) rest (
        behind_apart c.store.snapshot.items (map to_item page.items ++ rest)
          (subst (λ z. Distinct (ids z)) (sym e) u))) in
    let whole : (fetch_more_settled (ok page) c).store.snapshot.items
        ≡ c.store.snapshot.items ++ map to_item page.items =
      ground (arith, fresh) in
    (
      whole,
      (
        rest,
        ap (λ z. z ++ rest) whole
            ∙ append_assoc c.store.snapshot.items (map to_item page.items) rest
            ∙ e,
      ),
      ground arith,
      ground arith,
    )

-- Where a refresh and a fetch of a further page are under way in the current view, the page of the
-- refresh has items and a next cursor and shares none with the loaded list, and the further page
-- shares none with it: the refresh resets the list to its page, and the further page, of the old
-- cursor, goes right behind it and replaces the cursor.
pub fetch_more_after_reset :
    (c : Client) (counts : InboxCounts) (page further : WireInboxPage) (etag : Option String)
    (next : String) (boundary : InboxItem)
    → c.list.refreshing ≡ some (awaiting c.list.view_generation)
    → c.list.fetching_more ≡ some (awaiting c.list.view_generation)
    → page.next_cursor ≡ some next
    → get_last? (map to_item page.items) ≡ some boundary
    → overlaps (map to_item page.items) c.store.snapshot.items ≡ false
    → All (λ y. contains (ids (map to_item page.items)) y.id ≡ false) (map to_item further.items)
    → let reset = refresh_settled (ok (record { counts = counts; page = some (page, etag) })) c in
      let d = fetch_more_settled (ok further) reset in
      (reset.store.snapshot.items ≡ map to_item page.items)
      × (d.store.snapshot.items ≡ map to_item page.items ++ map to_item further.items)
      × (d.list.cursor ≡ further.next_cursor)
unfolding fetch_more_settled refresh_settled apply_fetched merge_first_page
fetch_more_after_reset c counts page further etag next boundary r f n l o a =
    ground (arith, appended_whole (map to_item page.items) further.items a)
