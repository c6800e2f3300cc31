-- ===== src/Client/Mutations/Rollback.antt =====
-- The tails of the mutations: what a failure undoes, and what a success may touch.
use chimely.Prelude.{
  String, Bool, true, false, some, List, [], ◌∷◌, ◌++◌, ◌≡◌, refl, arith, length, get_elem?,
  erase_idx, is_some, not, ◌&&◌,
}
use chimely.Types.{
  InboxSnapshot, ChimelyError, InboxItemSource, InboxFilterView, view_eq, archived_view,
}
use chimely.Errors.{Settled, ok, err, http_result}
use chimely.Client.State.{
  Client, Mutation, item_call, unread_call, seen_call, archive_read_call, set_preferences_call,
}
use chimely.Client.Refresh.{refresh, do_refresh, set_filter}
use chimely.Client.Mutations.{
  mark_read, mark_unread, archive, unarchive, archive_all, archive_read, mark_all_read,
  mark_all_seen, set_preferences, settle, call_settled, Reply, reply_of,
  reconcile_after_failed_mutation, target_of, read_of,
}
use chimely.Client.Step.{Event, step}

-- The events by which a mutation is called.
abbrev IsMutation : Event → Type 0
IsMutation (Event.marks_read id source) = Unit
IsMutation (Event.marks_unread id source) = Unit
IsMutation (Event.archives id source) = Unit
IsMutation (Event.unarchives id source) = Unit
IsMutation Event.archives_all = Unit
IsMutation Event.archives_read = Unit
IsMutation Event.marks_all_read = Unit
IsMutation Event.marks_all_seen = Unit
IsMutation (Event.sets_preferences preferences) = Unit
IsMutation _ = ⊥

get_elem?-append_last :
    {A : Type 0} (xs : List A) (a : A) → get_elem? (xs ++ a ∷ []) (length xs) ≡ some a
get_elem?-append_last [] a = refl
get_elem?-append_last (x ∷ xs) a = get_elem?-append_last xs a

-- The failure of the call that was made last.
settle_last :
    (m : Mutation) (s : Settled Reply) (c : Client) (waiting : List Mutation)
    → c.pending ≡ waiting ++ m ∷ []
    → settle (length waiting) s c
      ≡ call_settled m
          (reply_of m s)
          (record c { pending = erase_idx (waiting ++ m ∷ []) (length waiting) })
unfolding settle
settle_last m s c waiting e = ground (arith, get_elem?-append_last waiting m)

failed_reply :
    (m : Mutation) (s : Settled Reply) (e : ChimelyError)
    → http_result s ≡ err e
    → reply_of m s ≡ err e
unfolding reply_of
failed_reply m s e h = rw (h, reply_of)

-- Where a snapshot has the list, the counts and the view of another, with an error of its own.
pub record Restores (before after : InboxSnapshot) (e : ChimelyError) : Type 0 where
  pub items : after.items ≡ before.items
  pub counts : after.counts ≡ before.counts
  pub filter : after.filter ≡ before.filter
  pub has_more : after.has_more ≡ before.has_more
  pub error : after.error ≡ some e

-- The tail of a failed call, from the state that its head left.
module _ (c d : Client) (s : Settled Reply) (e : ChimelyError)
    (failed : http_result s ≡ err e) where
  failed_item_call :
      (changed : Bool)
      → d.pending ≡ c.pending ++ item_call c.store.snapshot changed ∷ []
      → (changed ≡ false → d.store.snapshot ≡ c.store.snapshot)
      → d.store.snapshot.filter ≡ c.store.snapshot.filter
      → d.store.snapshot.has_more ≡ c.store.snapshot.has_more
      → Restores c.store.snapshot (settle (length c.pending) s d).store.snapshot e
  unfolding call_settled reconcile_after_failed_mutation refresh do_refresh
  failed_item_call true p u f m = ground (
    arith,
    settle_last (item_call c.store.snapshot true) s d c.pending p,
    failed_reply (item_call c.store.snapshot true) s e failed,
  )
  failed_item_call false p u f m = ground (
    arith,
    settle_last (item_call c.store.snapshot false) s d c.pending p,
    failed_reply (item_call c.store.snapshot false) s e failed,
    u refl,
  )

-- A mutation whose request fails, with nothing in between, leaves the list, the counts and the view
-- as they were before the call, and sets the error.
pub failed_call-Restores :
    (call : Event) (c : Client) (s : Settled Reply) (e : ChimelyError)
    → IsMutation call
    → http_result s ≡ err e
    → Restores c.store.snapshot
        (step (Event.call_lands (length c.pending) s) (step call c)).store.snapshot
        e
unfolding step mark_read mark_unread archive unarchive archive_all archive_read mark_all_read
    mark_all_seen set_preferences call_settled reconcile_after_failed_mutation refresh do_refresh
failed_call-Restores (Event.marks_read id source) c s e m h =
    failed_item_call c (mark_read id source c) s e h
      (not (read_of (target_of c.store.snapshot id) true)) (ground arith) (λ u. ground (arith, u))
      (ground arith) (ground arith)
failed_call-Restores (Event.marks_unread id source) c s e m h =
    failed_item_call c (mark_unread id source c) s e h
      (read_of (target_of c.store.snapshot id) false) (ground arith) (λ u. ground (arith, u))
      (ground arith) (ground arith)
failed_call-Restores (Event.archives id source) c s e m h =
    failed_item_call c (archive id source c) s e h
      (is_some (target_of c.store.snapshot id)
        && not (view_eq c.store.snapshot.filter archived_view))
      (ground arith) (λ u. ground (arith, u)) (ground arith) (ground arith)
failed_call-Restores (Event.unarchives id source) c s e m h =
    failed_item_call c (unarchive id source c) s e h
      (is_some (target_of c.store.snapshot id) && view_eq c.store.snapshot.filter archived_view)
      (ground arith) (λ u. ground (arith, u)) (ground arith) (ground arith)
failed_call-Restores Event.archives_all c s e m h = ground (
  arith,
  settle_last (unread_call c.store.snapshot) s (archive_all c) c.pending,
  failed_reply (unread_call c.store.snapshot) s e h,
)
failed_call-Restores Event.archives_read c s e m h = ground (
  arith,
  settle_last archive_read_call s (archive_read c) c.pending,
  failed_reply archive_read_call s e h,
)
failed_call-Restores Event.marks_all_read c s e m h = ground (
  arith,
  settle_last (unread_call c.store.snapshot) s (mark_all_read c) c.pending,
  failed_reply (unread_call c.store.snapshot) s e h,
)
failed_call-Restores Event.marks_all_seen c s e m h = ground (
  arith,
  settle_last (seen_call c.store.snapshot) s (mark_all_seen c) c.pending,
  failed_reply (seen_call c.store.snapshot) s e h,
)
failed_call-Restores (Event.sets_preferences preferences) c s e m h = ground (
  arith,
  settle_last set_preferences_call s (set_preferences preferences c) c.pending,
  failed_reply set_preferences_call s e h,
)
failed_call-Restores _ c s e m h = elim m [ ]

-- The responses to markAllRead and to markAllSeen touch the field that each owns: in either order
-- they leave the unread count of the one and the unseen count of the other.
counts_commute :
    (p q : InboxSnapshot) (r s : Reply) (c : Client)
    → let before = call_settled (seen_call q) (ok s) (call_settled (unread_call p) (ok r) c) in
      let after = call_settled (unread_call p) (ok r) (call_settled (seen_call q) (ok s) c) in
      (before.store.snapshot.counts ≡ record { unread = r.unread; unseen = s.unseen })
      × (after.store.snapshot.counts ≡ before.store.snapshot.counts)
      × (after.store.snapshot.items ≡ c.store.snapshot.items)
unfolding call_settled
counts_commute p q r s c = ground arith

-- Where no call waits and a loaded item is unread: if its markRead fails after a switch to another
-- view, the list of the old view stands under the new view.
pub rollback_after_switch :
    (id : String) (source : InboxItemSource) (view : InboxFilterView) (c : Client)
    (s : Settled Reply) (e : ChimelyError)
    → c.pending ≡ []
    → view_eq c.store.snapshot.filter view ≡ false
    → read_of (target_of c.store.snapshot id) true ≡ false
    → http_result s ≡ err e
    → let after =
        step
          (Event.call_lands 0 s)
          (step (Event.sets_filter view) (step (Event.marks_read id source) c)) in
      (after.store.snapshot.filter ≡ view) × (after.store.snapshot.items ≡ c.store.snapshot.items)
unfolding step mark_read set_filter settle reply_of call_settled reconcile_after_failed_mutation
    refresh do_refresh
rollback_after_switch id source view c s e p v t h = ground arith
