-- ===== src/Client/Paging.antt =====
-- fetchMore and doFetchMore of packages/client/src/client.ts.
pub mod Laws
use chimely.Prelude.{
  ℕ, not, Option, none, some, List, [], ◌∷◌, ◌++◌, map, or_else, is_some, if◌then◌else◌, decimal,
  ◌==◌, filter, contains,
}
use chimely.Types.{InboxItem, WireInboxItem, WireInboxPage}
use chimely.Errors.{Settled, Result, ok, err, ◌>>=◌, http_result, json}
use chimely.Store.{empty_patch, patch}
use chimely.Client.State.{
  Client, awaiting, returning, get, request, send, filter_param, clamp_page, when_some,
}
use chimely.Client.Merge.{to_item, ids}

-- `doFetchMore`, up to its `await`.
unfoldable pub do_fetch_more : Option ℕ → Client → Client
do_fetch_more limit c =
    send
      (record c { list = record c.list { fetching_more = some (awaiting c.list.view_generation) } })
      (request c get ("v1" ∷ "inbox" ∷ "items" ∷ [])
        (("limit", decimal (clamp_page (or_else limit c.page_size)))
          ∷ (filter_param c.store.snapshot.filter ++ when_some "cursor" c.list.cursor))
        none none)

unfoldable pub fetch_more : Option ℕ → Client → Client
fetch_more limit c =
    if not c.store.snapshot.has_more
    then c
    else if is_some c.list.fetching_more
    then c
    else do_fetch_more limit c

-- The page that the response carries.
unfoldable pub fetched_page : Settled WireInboxPage → Result WireInboxPage
fetched_page page = do response ← http_result page; json response.body

-- The items of the page that are not loaded yet.
unfoldable pub appended : List InboxItem → List WireInboxItem → List InboxItem
appended items page = map to_item (filter (λ item. not (contains (ids items) item.id)) page)

abbrev finish_fetch_more : Client → Result WireInboxPage → Client
finish_fetch_more c (ok page) = record c {
  list = record c.list { cursor = page.next_cursor };
  store = patch c.store (record empty_patch {
    items = some (c.store.snapshot.items ++ appended c.store.snapshot.items page.items);
    has_more = some (is_some page.next_cursor);
    error = some none;
  });
}
finish_fetch_more c (err e) = record c {
  store = patch c.store (record empty_patch { error = some (some e) });
}

-- The response of `doFetchMore` has come: it is applied unless the view has changed since.
unfoldable pub fetch_more_settled : Result WireInboxPage → Client → Client
fetch_more_settled r c = elim c.list.fetching_more [
  | some (awaiting view) ↦
      let landed = record c { list = record c.list { fetching_more = some returning } } in
      if view == c.list.view_generation then finish_fetch_more landed r else landed
  | _ ↦ c
]

-- The `finally` handler.
unfoldable pub fetch_more_returns : Client → Client
fetch_more_returns c = elim c.list.fetching_more [
  | some returning ↦ record c { list = record c.list { fetching_more = none } }
  | _ ↦ c
]
