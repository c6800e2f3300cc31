-- ===== src/Client/Items.antt =====
-- The loaded items never hold an id twice, whatever the order of calls and responses, as long as no
-- page of the server does.
pub mod Frame
pub mod Events
use mathlib.Core.List.{map-append}
use chimely.Prelude.{
  ℕ, zero, suc, String, Bool, true, false, not, ◌&&◌, Option, none, some, List, [], ◌∷◌, ◌++◌, map,
  ◌≡◌, refl, subst, sym, arith, inl, inr, Bool-cases, Option-cases, All, All-append, Distinct,
  str_eq, if◌then◌else◌, get_elem?, erase_idx, ◌==◌, find?, filter,
}
use chimely.Types.{
  InboxItem, InboxSnapshot, WireInboxPage, InboxCounts, InboxItemSource, view_eq, archived_view,
}
use chimely.Errors.{
  Settled, responded, fetch_failed, Response, Body, parsed, rejected, Result, ok, err, ◌>>=◌,
  http_result, json, is_ok,
}
use chimely.Client.State.{
  Client, Mutation, item_call, unread_call, seen_call, archive_read_call, set_preferences_call,
  Phase, awaiting, returning,
}
use chimely.Client.Merge.{to_item, ids, merge_first_page}
use chimely.Client.Merge.Ids.{merge_first_page-Distinct, Distinct-filter}
use chimely.Client.Refresh.{
  Fetched, fetched, promise_all, refresh_settled, apply_fetched, page_of, read_both,
}
use chimely.Client.Paging.{fetched_page, fetch_more_settled, appended}
use chimely.Client.Paging.Laws.{append-Distinct}
use chimely.Client.Mutations.{set_read, remove_item}

-- The server's part: no id twice on a page.
abbrev DistinctBody : Body WireInboxPage → Type 0
DistinctBody (parsed page) = Distinct (ids (map to_item page.items))
DistinctBody (rejected cause) = Unit

abbrev pub DistinctPage : Settled WireInboxPage → Type 0
DistinctPage (responded r) = DistinctBody r.body
DistinctPage (fetch_failed cause) = Unit

-- What a mutation captured.
abbrev pub DistinctCall : Mutation → Type 0
DistinctCall (item_call prev changed) = Distinct (ids prev.items)
DistinctCall (unread_call prev) = Distinct (ids prev.items)
DistinctCall (seen_call prev) = Distinct (ids prev.items)
DistinctCall archive_read_call = Unit
DistinctCall set_preferences_call = Unit

pub record ItemsInv (c : Client) : Type 0 where
  pub items : Distinct (ids c.store.snapshot.items)
  pub calls : All DistinctCall c.pending

abbrev pub DistinctFetched : Option (WireInboxPage × Option String) → Type 0
DistinctFetched none = Unit
DistinctFetched (some (page, etag)) = Distinct (ids (map to_item page.items))

abbrev pub DistinctRead : Result Fetched → Type 0
DistinctRead (ok f) = DistinctFetched f.page
DistinctRead (err e) = Unit

abbrev pub DistinctGot : Result WireInboxPage → Type 0
DistinctGot (ok page) = Distinct (ids (map to_item page.items))
DistinctGot (err e) = Unit

abbrev DistinctOk : Result (Response WireInboxPage) → Type 0
DistinctOk (ok r) = DistinctBody r.body
DistinctOk (err e) = Unit

http_result-DistinctOk : (s : Settled WireInboxPage) → DistinctPage s → DistinctOk (http_result s)
unfolding http_result
http_result-DistinctOk (fetch_failed cause) d = tt
http_result-DistinctOk (responded r) d =
    elim (Bool-cases (not (is_ok r.status) && not (r.status == 304))) [
      | inl e ↦ rw e tt
      | inr e ↦ rw e d
    ]

page_read :
    (counts : InboxCounts) (r : Response WireInboxPage) (b : Body WireInboxPage)
    → r.body ≡ b
    → DistinctBody b
    → DistinctRead (page_of r >>= λ page. ok (record { counts = counts; page = page }))
unfolding json
page_read counts r (parsed page) e d = elim (Bool-cases (r.status == 200)) [
  | inl h ↦ rw (h, e, json) d
  | inr h ↦ rw h tt
]
page_read counts r (rejected cause) e d = elim (Bool-cases (r.status == 200)) [
  | inl h ↦ rw (h, e, json) tt
  | inr h ↦ rw h tt
]

read_both-DistinctRead :
    (r : Response WireInboxPage) (k : Response InboxCounts) (b : Body InboxCounts)
    → k.body ≡ b
    → DistinctBody r.body
    → DistinctRead (read_both (r, k))
unfolding read_both
read_both-DistinctRead r k (parsed counts) e d =
    rw e (unfold json in page_read counts r r.body refl d)
read_both-DistinctRead r k (rejected cause) e d = rw e (unfold json in tt)

both-DistinctRead :
    (first : Bool) (x : Result (Response WireInboxPage)) (y : Result (Response InboxCounts))
    → DistinctOk x
    → DistinctRead (promise_all first x y >>= read_both)
unfolding promise_all
both-DistinctRead first (ok r) (ok k) d = read_both-DistinctRead r k k.body refl d
both-DistinctRead first (ok r) (err e) d = tt
both-DistinctRead first (err e) (ok k) d = tt
both-DistinctRead first (err e) (err e') d = tt

pub fetched-DistinctRead :
    (first : Bool) (page : Settled WireInboxPage) (counts : Settled InboxCounts)
    → DistinctPage page
    → DistinctRead (fetched first page counts)
unfolding fetched
fetched-DistinctRead first page counts d =
    both-DistinctRead first (http_result page) (http_result counts) (http_result-DistinctOk page d)

pub ids-set_read : (id : String) (b : Bool) (xs : List InboxItem) → ids (set_read id b xs) ≡ ids xs
ids-set_read id b [] = refl
ids-set_read id b (x ∷ xs) = ground (arith, ids-set_read id b xs)

json-DistinctGot : (b : Body WireInboxPage) → DistinctBody b → DistinctGot (json b)
unfolding json
json-DistinctGot (parsed page) d = d
json-DistinctGot (rejected cause) d = tt

ok-DistinctGot :
    (x : Result (Response WireInboxPage)) → DistinctOk x → DistinctGot (x >>= λ r. json r.body)
ok-DistinctGot (ok r) d = json-DistinctGot r.body d
ok-DistinctGot (err e) d = tt

pub fetched_page-DistinctGot :
    (s : Settled WireInboxPage) → DistinctPage s → DistinctGot (fetched_page s)
unfolding fetched_page
fetched_page-DistinctGot s d = ok-DistinctGot (http_result s) (http_result-DistinctOk s d)
