-- ===== src/Client/Refresh.antt =====
-- refresh, doRefresh and setFilter of packages/client/src/client.ts.
pub mod Loop
pub mod LoopEvents
pub mod Coalesce
use chimely.Prelude.{
  ◌+◌, String, Bool, true, false, Option, none, some, [], ◌∷◌, if◌then◌else◌, decimal, ◌==◌,
}
use chimely.Types.{InboxCounts, InboxFilterView, WireInboxPage, view_eq}
use chimely.Errors.{Settled, Response, Result, ok, err, ◌>>=◌, http_result, json}
use chimely.Store.{Patch, empty_patch, patch}
use chimely.Client.State.{Client, awaiting, returning, Request, get, request, send, filter_param}
use chimely.Client.Merge.{merge_first_page}

abbrev list_request : Client → Request
list_request c =
    request c get ("v1" ∷ "inbox" ∷ "items" ∷ [])
      (("limit", decimal c.page_size) ∷ filter_param c.store.snapshot.filter) c.list.etag none

abbrev counts_request : Client → Request
counts_request c = request c get ("v1" ∷ "inbox" ∷ "counts" ∷ []) [] none none

-- `doRefresh`, up to its first `await`.
unfoldable pub do_refresh : Client → Client
do_refresh c =
    let loading = record c {
      store = patch c.store (record empty_patch { is_loading = some true });
      list = record c.list { refreshing = some (awaiting c.list.view_generation) };
    } in
    send (send loading (list_request loading)) (counts_request loading)

-- A call while the promise is there asks for one rerun; any other starts the loop.
unfoldable pub refresh : Client → Client
refresh c = elim c.list.refreshing [
  | some phase ↦ record c { list = record c.list { refresh_again = true } }
  | none ↦ do_refresh (record c { list = record c.list { refresh_again = false } })
]

-- `Promise.all` of the two requests: it rejects as soon as one does. `list_first` says which
-- settled first.
unfoldable pub promise_all {ℓ κ} :
    {A : Type ℓ} {B : Type κ} → Bool → Result A → Result B → Result (A × B)
promise_all list_first (ok a) (ok b) = ok (a, b)
promise_all list_first (ok a) (err e) = err e
promise_all list_first (err e) (ok b) = err e
promise_all list_first (err e) (err e') = err (if list_first then e else e')

-- What a refresh has read: the counts, and the page with its validator unless the list is unchanged.
pub record Fetched : Type 0 where
  pub counts : InboxCounts
  pub page : Option (WireInboxPage × Option String)

-- `pageResponse.status === 200 ? await pageResponse.json() : null`.
abbrev pub page_of : Response WireInboxPage → Result (Option (WireInboxPage × Option String))
page_of r = if r.status == 200 then (json r.body >>= λ page. ok (some (page, r.etag))) else ok none

-- The bodies of the two responses, the counts first.
unfoldable pub read_both : Response WireInboxPage × Response InboxCounts → Result Fetched
read_both (page_response, counts_response) = do
  counts ← json counts_response.body
  page ← page_of page_response
  ok (record { counts = counts; page = page })

-- The `try` block of `doRefresh` up to the test of the generation.
unfoldable pub fetched : Bool → Settled WireInboxPage → Settled InboxCounts → Result Fetched
fetched list_first page counts =
    promise_all list_first (http_result page) (http_result counts) >>= read_both

abbrev loaded_patch : InboxCounts → Patch
loaded_patch counts = record empty_patch {
  counts = some counts;
  is_loading = some false;
  error = some none;
}

-- The rest of the `try` block, in the generation that the call started under.
unfoldable pub apply_fetched : Client → Fetched → Client
apply_fetched c f = elim f.page [
  | none ↦ record c { store = patch c.store (loaded_patch f.counts) }
  | some (page, etag) ↦
      let m = merge_first_page c.store.snapshot c.list.cursor page in
      record c {
        list = record c.list { etag = etag; cursor = m.cursor };
        store = patch c.store (record (loaded_patch f.counts) {
          items = some m.items;
          has_more = some m.has_more;
          last_refresh_new_item_ids = some m.last_refresh_new_item_ids;
        });
      }
]

abbrev finish_refresh : Client → Result Fetched → Client
finish_refresh c (ok f) = apply_fetched c f
finish_refresh c (err e) = record c {
  store = patch c.store (record empty_patch { is_loading = some false; error = some (some e) });
}

-- The responses of `doRefresh` have come: they are applied unless the view has changed since.
unfoldable pub refresh_settled : Result Fetched → Client → Client
refresh_settled r c = elim c.list.refreshing [
  | some (awaiting view) ↦
      let landed = record c { list = record c.list { refreshing = some returning } } in
      if view == c.list.view_generation then finish_refresh landed r else landed
  | _ ↦ c
]

-- The loop's test: one more round if a call asked for it, else the promise is cleared.
unfoldable pub refresh_returns : Client → Client
refresh_returns c = elim c.list.refreshing [
  | some returning ↦
      if c.list.refresh_again
      then do_refresh (record c { list = record c.list { refresh_again = false } })
      else record c { list = record c.list { refreshing = none } }
  | _ ↦ c
]

unfoldable pub set_filter : InboxFilterView → Client → Client
set_filter filter c = if view_eq c.store.snapshot.filter filter then c else refresh switched
  where
    switched : Client
    switched = record c {
      list = record c.list {
        view_generation = c.list.view_generation + 1;
        cursor = none;
        etag = none;
      };
      store = patch c.store (record empty_patch {
        filter = some filter;
        items = some [];
        has_more = some true;
        last_refresh_new_item_ids = some [];
      });
    }
