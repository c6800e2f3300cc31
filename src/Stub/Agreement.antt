-- ===== src/Stub/Agreement.antt =====
-- The optimistic writes of the client agree with the server.
use chimely.Prelude.{
  ℕ, ◌+◌, ◌≤◌, String, Bool, true, false, not, ◌&&◌, none, some, List, [], ◌∷◌, ◌++◌, map, ◌≡◌,
  refl, sym, ap, ◌∙◌, subst, arith, inl, inr, Bool-cases, Option-cases, Distinct, length, filter,
  is_some, if◌then◌else◌, ◌==◌,
}
use chimely.Types.{
  InboxItem, InboxItemSource, InboxFilterView, default_view, unread_view, archived_view, view_eq,
}
use chimely.Store.{Patch, empty_patch, patch}
use chimely.Client.State.{Mutation, unread_call, seen_call, Client}
use chimely.Client.Merge.{ids}
use chimely.Client.Mutations.{
  mark_read, mark_unread, archive, unarchive, archive_all, mark_all_read, mark_all_seen,
  start_item_call, set_read, remove_item, target_of, read_of,
}
use chimely.Client.Mutations.Counts.{
  unread_items, item_calls_count, KeepsBacklog, remove_item_counts,
}
use chimely.Client.Step.{Event, step}
use chimely.Stub.{Platform, StubServer, is_unread}
use chimely.Stub.Routes.{
  Action, to_read, to_unread, to_archived, to_unarchived, act_on, handle, action_of,
}
use chimely.Stub.Access.{Accepts, Accepts-config}
use chimely.Stub.Rows.{
  row_ids, comes_from, shown, Distinct-shown, shown-to_read, shown-to_unread, shown-to_archived,
  shown-to_unarchived, unread_shown, unread_archived, unread_rows, unread_rows-to_unarchived,
  all_read_shown, all_read_unread, all_archived_shown, all_archived_unread, set_read_same,
  remove_item_same,
}
use chimely.Stub.Served.{served, view_name, InSync, item_call_served, patched_items, bulk-InSync}

-- In the default view the two unread counts are the unread items that are shown.
InSync-default :
    (d : Client) (t : StubServer)
    → d.store.snapshot.filter ≡ default_view
    → d.store.snapshot.items ≡ shown none t.items
    → d.store.snapshot.counts.unread ≡ unread_items d.store.snapshot.items
    → d.store.snapshot.counts.unseen ≡ t.unseen
    → InSync d t
InSync-default d t f i u n = record {
  items = rw f i;
  unread = u ∙ ap unread_items i ∙ sym (unread_shown t.items);
  unseen = n;
}

from_not : (b : Bool) → not b ≡ false → b ≡ true
from_not true h = refl
from_not false h = cc

module _ (p : Platform) (id : String) (source : InboxItemSource) (c : Client) (s : StubServer)
    (f : c.store.snapshot.filter ≡ default_view) (a : Accepts s c)
    (distinct : Distinct (row_ids s.items)) (from : comes_from source id s.items ≡ true)
    (v : InSync c s) where
  client_items : c.store.snapshot.items ≡ shown none s.items
  client_items = v.items ∙ ap (λ z. shown (view_name z) s.items) f

  client-Distinct : Distinct (ids c.store.snapshot.items)
  client-Distinct =
      subst (λ z. Distinct (ids z)) (sym client_items) (Distinct-shown none s.items distinct)

  client_unread : c.store.snapshot.counts.unread ≡ unread_items c.store.snapshot.items
  client_unread = v.unread ∙ unread_shown s.items ∙ ap unread_items (sym client_items)

  covered : unread_items c.store.snapshot.items ≤ c.store.snapshot.counts.unread
  covered = omega (arith, client_unread)

  -- A call on an item whose patch is what the write of the row shows.
  item_call-InSync :
      (changed : Bool) (items : List InboxItem) (unread : ℕ) (verb : String) (action : Action)
      → action_of verb ≡ some action
      → (changed ≡ false → items ≡ c.store.snapshot.items)
      → shown none (act_on source id action s.items) ≡ items
      → let d = start_item_call c changed items unread source id verb in
        KeepsBacklog c d → InSync d (served p d s)
  item_call-InSync changed items unread verb action e same now k =
      let patched = patched_items c changed items unread source id verb same in
      let t = item_call_served p c s a changed items unread source id verb action e in
      InSync-default _ _ (patched.2 ∙ f) (patched.0 ∙ sym now ∙ ap (shown none) (sym t.0))
        (omega (arith, k, client_unread)) (patched.1 ∙ v.unseen ∙ sym t.1)

  mark_read-InSync : InSync (mark_read id source c) (served p (mark_read id source c) s)
  unfolding mark_read
  mark_read-InSync =
      item_call-InSync _ _ _ "read" to_read refl
        (λ e. set_read_same id true c.store.snapshot.items client-Distinct (from_not _ e))
        (shown-to_read source id s.items distinct from ∙ ap (set_read id true) (sym client_items))
        (item_calls_count id source c client-Distinct covered).0

  mark_unread-InSync : InSync (mark_unread id source c) (served p (mark_unread id source c) s)
  unfolding mark_unread
  mark_unread-InSync =
      item_call-InSync _ _ _ "unread" to_unread refl
        (λ e. set_read_same id false c.store.snapshot.items client-Distinct e)
        (shown-to_unread source id s.items distinct from
          ∙ ap (set_read id false) (sym client_items))
        (item_calls_count id source c client-Distinct covered).1

  archive-InSync : InSync (archive id source c) (served p (archive id source c) s)
  unfolding archive
  archive-InSync =
      item_call-InSync _ _ _ "archive" to_archived refl
        (λ e. remove_item_same id c.store.snapshot.items (ground arith))
        (shown-to_archived source id s.items distinct from ∙ ap (remove_item id) (sym client_items))
        (item_calls_count id source c client-Distinct covered).2

module _ (p : Platform) (c : Client) (s : StubServer) (a : Accepts s c) (v : InSync c s) where
  -- The client of a bulk call, before it sends.
  abbrev called_with : Patch → Mutation → Client
  called_with optimistic m = record c {
    store = patch c.store optimistic;
    pending = c.pending ++ m ∷ [];
  }

  abbrev bulk_patch : List InboxItem → Patch
  bulk_patch items = record empty_patch {
    items = some items;
    counts = some (record c.store.snapshot.counts { unread = 0 });
  }

  mark_all_read-InSync :
      c.store.snapshot.filter ≡ default_view
      → InSync (mark_all_read c) (served p (mark_all_read c) s)
  unfolding mark_all_read handle
  mark_all_read-InSync f =
      bulk-InSync p
        (called_with
          (bulk_patch (
            map (λ item. if item.read then item else record item { read = true })
              c.store.snapshot.items))
          (unread_call c.store.snapshot))
        s (Accepts-config s c _ refl a) "read-all"
        (rw f (
          ap (map λ item. if item.read then item else record item { read = true })
            (v.items ∙ ap (λ z. shown (view_name z) s.items) f)
          ∙ sym (all_read_shown none s.items refl)))
        (sym (all_read_unread s.items)) v.unseen

  archive_all-InSync :
      c.store.snapshot.filter ≡ default_view → InSync (archive_all c) (served p (archive_all c) s)
  unfolding archive_all handle
  archive_all-InSync f =
      bulk-InSync p
        (called_with
          (bulk_patch
            (if view_eq c.store.snapshot.filter archived_view then c.store.snapshot.items else []))
          (unread_call c.store.snapshot))
        s (Accepts-config s c _ refl a) "archive-all" (rw f (sym (all_archived_shown s.items)))
        (sym (all_archived_unread s.items)) v.unseen

  -- The optimistic patch of markAllSeen, which an unseen count of 0 does without.
  mark_all_seen-InSync : InSync (mark_all_seen c) (served p (mark_all_seen c) s)
  unfolding mark_all_seen handle
  mark_all_seen-InSync = elim (Bool-cases (c.store.snapshot.counts.unseen == 0)) [
    | inl e ↦
        rw (e, mark_all_seen)
          (bulk-InSync p (record c { pending = c.pending ++ seen_call c.store.snapshot ∷ [] }) s
            (Accepts-config s c _ refl a) "seen-all" v.items v.unread (ground arith))
    | inr e ↦
        rw (e, mark_all_seen)
          (bulk-InSync p
            (called_with
              (record empty_patch { counts = some (record c.store.snapshot.counts { unseen = 0 }) })
              (seen_call c.store.snapshot))
            s (Accepts-config s c _ refl a) "seen-all" v.items v.unread refl)
  ]

module _ (p : Platform) (id : String) (source : InboxItemSource) (c : Client) (s : StubServer)
    (f : c.store.snapshot.filter ≡ archived_view) (a : Accepts s c)
    (distinct : Distinct (row_ids s.items)) (from : comes_from source id s.items ≡ true)
    (v : InSync c s) where
  archived_items : c.store.snapshot.items ≡ shown (some "archived") s.items
  archived_items = v.items ∙ ap (λ z. shown (view_name z) s.items) f

  archived-Distinct : Distinct (ids c.store.snapshot.items)
  archived-Distinct =
      subst (λ z. Distinct (ids z)) (sym archived_items)
        (Distinct-shown (some "archived") s.items distinct)

  -- The count and the unread items of the archived view, before and after.
  unarchive_count :
      (unarchive id source c).store.snapshot.counts.unread
        + unread_items (remove_item id c.store.snapshot.items)
      ≡ c.store.snapshot.counts.unread + unread_items c.store.snapshot.items
  unfolding unarchive
  unarchive_count = elim (Option-cases (target_of c.store.snapshot id)) [
    | inl e ↦
        let same = remove_item_same id c.store.snapshot.items (rw e) in
        rw (e, unarchive) (ground (arith, same))
    | inr (t, e) ↦
        let k = remove_item_counts id c.store.snapshot.items t archived-Distinct e in
        rw (e, unarchive) (ground (arith, k))
  ]

  unarchive-InSync : InSync (unarchive id source c) (served p (unarchive id source c) s)
  unfolding unarchive
  unarchive-InSync =
      let changed =
        is_some (target_of c.store.snapshot id) && view_eq c.store.snapshot.filter archived_view in
      let unread =
        if read_of (target_of c.store.snapshot id) true
        then c.store.snapshot.counts.unread
        else c.store.snapshot.counts.unread + 1 in
      let removed = remove_item id c.store.snapshot.items in
      let patched =
        patched_items c changed removed unread source id "unarchive"
          (λ e. remove_item_same id c.store.snapshot.items (ground arith)) in
      let t =
        item_call_served p c s a changed removed unread source id "unarchive" to_unarchived refl in
      let now =
        shown-to_unarchived source id s.items distinct from
        ∙ ap (remove_item id) (sym archived_items) in
      let rows = act_on source id to_unarchived s.items in
      let after : length (filter is_unread rows) + unread_items (shown (some "archived") rows)
          ≡ unread_rows s.items =
        unread_archived rows ∙ unread_rows-to_unarchived source id s.items in
      let left : unread_items (shown (some "archived") rows) ≡ unread_items removed =
        ap unread_items now in
      let before : length (filter is_unread s.items) + unread_items c.store.snapshot.items
          ≡ unread_rows s.items =
        ap (λ z. length (filter is_unread s.items) + unread_items z) archived_items
        ∙ unread_archived s.items in
      record {
        items =
            patched.0
            ∙ sym now
            ∙ ap (shown (some "archived")) (sym t.0)
            ∙ ap (λ z. shown (view_name z) (served p (unarchive id source c) s).items)
                (sym (patched.2 ∙ f));
        unread =
            omega (arith, unarchive_count, after, left, before, v.unread)
            ∙ ap (λ z. length (filter is_unread z)) (sym t.0);
        unseen = patched.1 ∙ v.unseen ∙ sym t.1;
      }

-- The calls whose optimistic patch the server repeats, by the view that the client shows. A call on
-- an item gives the source of the row.
abbrev Covers : InboxFilterView → Event → StubServer → Type 0
Covers default_view (Event.marks_read id source) s = comes_from source id s.items ≡ true
Covers default_view (Event.marks_unread id source) s = comes_from source id s.items ≡ true
Covers default_view (Event.archives id source) s = comes_from source id s.items ≡ true
Covers default_view Event.archives_all s = Unit
Covers default_view Event.marks_all_read s = Unit
Covers default_view Event.marks_all_seen s = Unit
Covers archived_view (Event.unarchives id source) s = comes_from source id s.items ≡ true
Covers archived_view Event.marks_all_seen s = Unit
Covers unread_view Event.marks_all_seen s = Unit
Covers _ _ _ = ⊥

-- Where a client shows all that the server has in its view, with the server's counts, the ids are
-- distinct and the server takes its requests: markRead, markUnread, archive, archiveAll and
-- markAllRead in the default view, unarchive in the archived view, and markAllSeen in any, each on
-- its own, leave a client that shows all that the server then has in the view, with its counts.
pub optimistic_agrees :
    (p : Platform) (view : InboxFilterView) (call : Event) (c : Client) (s : StubServer)
    → c.store.snapshot.filter ≡ view
    → Covers view call s
    → Accepts s c
    → Distinct (row_ids s.items)
    → InSync c s
    → InSync (step call c) (served p (step call c) s)
unfolding step
optimistic_agrees p default_view (Event.marks_read id source) c s f h a d v =
    mark_read-InSync p id source c s f a d h v
optimistic_agrees p default_view (Event.marks_unread id source) c s f h a d v =
    mark_unread-InSync p id source c s f a d h v
optimistic_agrees p default_view (Event.archives id source) c s f h a d v =
    archive-InSync p id source c s f a d h v
optimistic_agrees p default_view Event.archives_all c s f h a d v = archive_all-InSync p c s a v f
optimistic_agrees p default_view Event.marks_all_read c s f h a d v =
    mark_all_read-InSync p c s a v f
optimistic_agrees p default_view Event.marks_all_seen c s f h a d v = mark_all_seen-InSync p c s a v
optimistic_agrees p archived_view (Event.unarchives id source) c s f h a d v =
    unarchive-InSync p id source c s f a d h v
optimistic_agrees p archived_view Event.marks_all_seen c s f h a d v =
    mark_all_seen-InSync p c s a v
optimistic_agrees p unread_view Event.marks_all_seen c s f h a d v = mark_all_seen-InSync p c s a v
optimistic_agrees p _ _ c s f h a d v = elim h [ ]
