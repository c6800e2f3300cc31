-- ===== src/Client/Items/Events.antt =====
-- Every event keeps the ids of the loaded items distinct.
use chimely.Prelude.{
  ℕ, zero, suc, String, Bool, true, false, not, Option, none, some, List, [], ◌∷◌, ◌++◌, map, ◌≡◌,
  refl, subst, sym, arith, inl, inr, Bool-cases, Option-cases, All, All-append, Distinct,
  if◌then◌else◌, get_elem?, erase_idx, ◌==◌,
}
use chimely.Types.{
  ChimelyClientConfig, InboxItem, WireInboxPage, InboxItemSource, InboxFilterView, view_eq,
  archived_view,
}
use chimely.Errors.{Settled, Result, ok, err}
use chimely.Store.{new_store}
use chimely.Client.State.{
  Client, Mutation, item_call, unread_call, seen_call, archive_read_call, set_preferences_call,
  returning, new_client,
}
use chimely.Client.Merge.{ids}
use chimely.Client.Merge.Ids.{merge_first_page-Distinct, Distinct-filter}
use chimely.Client.Refresh.{
  Fetched, fetched, refresh, do_refresh, refresh_settled, apply_fetched, set_filter,
}
use chimely.Client.Paging.{fetched_page, fetch_more_settled}
use chimely.Client.Paging.Laws.{append-Distinct}
use chimely.Client.Mutations.{
  mark_read, mark_unread, archive, unarchive, archive_all, archive_read, mark_all_read,
  mark_all_seen, get_preferences, set_preferences, settle, call_settled, clear_error, reply_of,
  Reply, reconcile_after_failed_mutation, set_read, start_item_call,
}
use chimely.Client.Items.{
  ItemsInv, DistinctPage, DistinctCall, DistinctRead, DistinctFetched, DistinctGot, ids-set_read,
  fetched-DistinctRead, fetched_page-DistinctGot,
}
use chimely.Client.Items.Frame
use chimely.Client.Items.Frame.{KeepsItems}
use chimely.Client.Step.{Event, step, run}

KeepsItems-Inv : (c d : Client) → KeepsItems c d → ItemsInv c → ItemsInv d
KeepsItems-Inv c d k v = record {
  items = subst (λ z. Distinct (ids z)) (sym k.items) v.items;
  calls = subst (All DistinctCall) (sym k.pending) v.calls;
}

-- A head that puts a new list in place and waits with what it captured.
called-Inv :
    (c d : Client) (m : Mutation)
    → ItemsInv c
    → DistinctCall m
    → Distinct (ids d.store.snapshot.items)
    → d.pending ≡ c.pending ++ m ∷ []
    → ItemsInv d
called-Inv c d m v k h e = record {
  items = h;
  calls =
      subst (All DistinctCall) (sym e) (All-append DistinctCall c.pending (m ∷ []) v.calls (k, tt));
}

item_call-Inv :
    (c : Client) (changed : Bool) (items : List InboxItem) (unread : ℕ) (source : InboxItemSource)
    (id verb : String)
    → ItemsInv c
    → Distinct (ids items)
    → ItemsInv (start_item_call c changed items unread source id verb)
item_call-Inv c true items unread source id verb v h =
    called-Inv c _ (item_call c.store.snapshot true) v v.items h refl
item_call-Inv c false items unread source id verb v h =
    called-Inv c _ (item_call c.store.snapshot false) v v.items v.items refl

set_read-Distinct :
    (id : String) (b : Bool) (xs : List InboxItem)
    → Distinct (ids xs)
    → Distinct (ids (set_read id b xs))
set_read-Distinct id b xs h = rw (ids-set_read id b xs) h

read_all : List InboxItem → List InboxItem
read_all = map λ item. if item.read then item else record item { read = true }

ids-read_all : (xs : List InboxItem) → ids (read_all xs) ≡ ids xs
unfolding read_all
ids-read_all [] = refl
ids-read_all (x ∷ xs) = ground (arith, ids-read_all xs)

mark_all_read-Inv : (c : Client) → ItemsInv c → ItemsInv (mark_all_read c)
unfolding mark_all_read
mark_all_read-Inv c v =
    called-Inv c _ (unread_call c.store.snapshot) v v.items
      (unfold read_all in rw (ids-read_all c.store.snapshot.items) v.items) refl

archive_all-Inv : (c : Client) → ItemsInv c → ItemsInv (archive_all c)
unfolding archive_all
archive_all-Inv c v =
    called-Inv c _ (unread_call c.store.snapshot) v v.items
      (elim (Bool-cases (view_eq c.store.snapshot.filter archived_view)) [
        | inl e ↦ rw e v.items
        | inr e ↦ rw e tt
      ])
      refl

mark_all_seen-Inv : (c : Client) → ItemsInv c → ItemsInv (mark_all_seen c)
unfolding mark_all_seen
mark_all_seen-Inv c v =
    called-Inv c _ (seen_call c.store.snapshot) v v.items
      (elim (Bool-cases (not (c.store.snapshot.counts.unseen == 0))) [
        | inl e ↦ rw e v.items
        | inr e ↦ rw e v.items
      ])
      (ground arith)

set_filter-Inv : (f : InboxFilterView) (c : Client) → ItemsInv c → ItemsInv (set_filter f c)
unfolding set_filter
set_filter-Inv f c v = elim (Bool-cases (view_eq c.store.snapshot.filter f)) [
  | inl e ↦ rw e v
  | inr e ↦
      rw e
        (KeepsItems-Inv _ _ (Frame.refresh-KeepsItems _) (record { items = tt; calls = v.calls }))
]

apply_fetched-Inv :
    (c : Client) (f : Fetched) (page : Option (WireInboxPage × Option String))
    → f.page ≡ page
    → DistinctFetched page
    → ItemsInv c
    → ItemsInv (apply_fetched c f)
unfolding apply_fetched
apply_fetched-Inv c f none e d v =
    rw (e, apply_fetched) (record { items = v.items; calls = v.calls })
apply_fetched-Inv c f (some (page, etag)) e d v =
    rw (e, apply_fetched)
      (record {
        items = merge_first_page-Distinct c.store.snapshot c.list.cursor page v.items d;
        calls = v.calls;
      })

refresh_settled-Inv :
    (r : Result Fetched) (c : Client) → DistinctRead r → ItemsInv c → ItemsInv (refresh_settled r c)
unfolding refresh_settled
refresh_settled-Inv (err e) c d v = ground arith
refresh_settled-Inv (ok f) c d v = ground (
  arith,
  apply_fetched-Inv (record c { list = record c.list { refreshing = some returning } }) f f.page
      refl d,
)

fetch_more_settled-Inv :
    (r : Result WireInboxPage) (c : Client)
    → DistinctGot r
    → ItemsInv c
    → ItemsInv (fetch_more_settled r c)
unfolding fetch_more_settled
fetch_more_settled-Inv (ok page) c d v =
    ground (arith, append-Distinct c.store.snapshot.items page.items v.items d)
fetch_more_settled-Inv (err e) c d v = ground arith

All-get :
    (xs : List Mutation) (n : ℕ) (m : Mutation)
    → get_elem? xs n ≡ some m
    → All DistinctCall xs
    → DistinctCall m × All DistinctCall (erase_idx xs n)
All-get [] n m e h = cc
All-get (x ∷ xs) zero m e h = let same : x ≡ m = cc in (subst DistinctCall same h.0, h.1)
All-get (x ∷ xs) (suc n) m e h = let rest = All-get xs n m e h.1 in (rest.0, (h.0, rest.1))

call_settled-Inv :
    (m : Mutation) (r : Result Reply) (c : Client)
    → DistinctCall m
    → ItemsInv c
    → ItemsInv (call_settled m r c)
unfolding call_settled clear_error reconcile_after_failed_mutation refresh do_refresh
call_settled-Inv (item_call prev true) r c d v = ground arith
call_settled-Inv (item_call prev false) r c d v = ground arith
call_settled-Inv (unread_call prev) r c d v = ground arith
call_settled-Inv (seen_call prev) r c d v = ground arith
call_settled-Inv archive_read_call r c d v = ground arith
call_settled-Inv set_preferences_call r c d v = ground arith

settle-Inv : (n : ℕ) (s : Settled Reply) (c : Client) → ItemsInv c → ItemsInv (settle n s c)
unfolding settle
settle-Inv n s c v = elim (Option-cases (get_elem? c.pending n)) [
  | inl e ↦ rw (e, settle) v
  | inr (m, e) ↦
      let parts = All-get c.pending n m e v.calls in
      rw (e, settle)
        (call_settled-Inv m (reply_of m s) _ parts.0 (record { items = v.items; calls = parts.1 }))
]

-- The server's part in an event: a page that it answers with has no id twice.
abbrev DistinctPages : Event → Type 0
DistinctPages (Event.refresh_lands first page counts) = DistinctPage page
DistinctPages (Event.page_lands page) = DistinctPage page
DistinctPages _ = Unit

step-ItemsInv : (e : Event) (c : Client) → DistinctPages e → ItemsInv c → ItemsInv (step e c)
unfolding step mark_read mark_unread archive unarchive archive_read get_preferences set_preferences
step-ItemsInv (Event.connects created) c d v =
    KeepsItems-Inv c _ (Frame.connect-KeepsItems created c) v
step-ItemsInv Event.closes c d v = KeepsItems-Inv c _ (Frame.close-KeepsItems c) v
step-ItemsInv (Event.sets_credentials hash at created) c d v =
    KeepsItems-Inv c _ (Frame.set_credentials-KeepsItems hash at created c) v
step-ItemsInv Event.refreshes c d v = KeepsItems-Inv c _ (Frame.refresh-KeepsItems c) v
step-ItemsInv (Event.fetches_more limit) c d v =
    KeepsItems-Inv c _ (Frame.fetch_more-KeepsItems limit c) v
step-ItemsInv (Event.sets_filter f) c d v = set_filter-Inv f c v
step-ItemsInv (Event.marks_read id source) c d v =
    item_call-Inv c _ _ _ source id "read" v
      (set_read-Distinct id true c.store.snapshot.items v.items)
step-ItemsInv (Event.marks_unread id source) c d v =
    item_call-Inv c _ _ _ source id "unread" v
      (set_read-Distinct id false c.store.snapshot.items v.items)
step-ItemsInv (Event.archives id source) c d v =
    item_call-Inv c _ _ _ source id "archive" v (Distinct-filter _ c.store.snapshot.items v.items)
step-ItemsInv (Event.unarchives id source) c d v =
    item_call-Inv c _ _ _ source id "unarchive" v (Distinct-filter _ c.store.snapshot.items v.items)
step-ItemsInv Event.archives_all c d v = archive_all-Inv c v
step-ItemsInv Event.archives_read c d v = called-Inv c _ archive_read_call v tt v.items refl
step-ItemsInv Event.marks_all_read c d v = mark_all_read-Inv c v
step-ItemsInv Event.marks_all_seen c d v = mark_all_seen-Inv c v
step-ItemsInv Event.gets_preferences c d v = record { items = v.items; calls = v.calls }
step-ItemsInv (Event.sets_preferences rows) c d v =
    called-Inv c _ set_preferences_call v tt v.items refl
step-ItemsInv (Event.stream_opens id) c d v =
    KeepsItems-Inv c _ (Frame.stream_opens-KeepsItems id c) v
step-ItemsInv (Event.stream_hints id last) c d v =
    KeepsItems-Inv c _ (Frame.stream_hints-KeepsItems id c last) v
step-ItemsInv (Event.stream_retries id ms) c d v =
    KeepsItems-Inv c _ (Frame.stream_retries-KeepsItems id c ms) v
step-ItemsInv (Event.stream_fails id last) c d v =
    KeepsItems-Inv c _ (Frame.stream_fails-KeepsItems id c last) v
step-ItemsInv (Event.timer_fires id created) c d v =
    KeepsItems-Inv c _ (Frame.timer_fires-KeepsItems id c created) v
step-ItemsInv (Event.refresh_lands first page counts) c d v =
    refresh_settled-Inv (fetched first page counts) c (fetched-DistinctRead first page counts d) v
step-ItemsInv Event.refresh_resumes c d v =
    KeepsItems-Inv c _ (Frame.refresh_returns-KeepsItems c) v
step-ItemsInv (Event.page_lands page) c d v =
    fetch_more_settled-Inv (fetched_page page) c (fetched_page-DistinctGot page d) v
step-ItemsInv Event.page_resumes c d v =
    KeepsItems-Inv c _ (Frame.fetch_more_returns-KeepsItems c) v
step-ItemsInv (Event.call_lands n reply) c d v = settle-Inv n reply c v

run-ItemsInv :
    (es : List Event) (c : Client) → All DistinctPages es → ItemsInv c → ItemsInv (run es c)
unfolding run
run-ItemsInv [] c d v = v
run-ItemsInv (e ∷ es) c d v = run-ItemsInv es (step e c) d.1 (step-ItemsInv e c d.0 v)

-- After any history of a client in which no page of the server has an id twice, the loaded items do
-- not have one twice either, nor do the lists that the waiting mutations would roll back to.
pub run-new_client-ItemsInv :
    (config : ChimelyClientConfig) (es : List Event)
    → All DistinctPages es
    → ItemsInv (run es (new_client config))
unfolding new_client new_store
run-new_client-ItemsInv config es d =
    run-ItemsInv es (new_client config) d (record { items = tt; calls = tt })
