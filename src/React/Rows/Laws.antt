-- ===== src/React/Rows/Laws.antt =====
-- What the two actions of a row do to the list and the counts.
use chimely.Prelude.{
  ◌≤◌, String, Bool, true, false, not, none, some, List, [], ◌∷◌, ◌++◌, if◌then◌else◌, ◌≡◌, refl,
  arith, str_eq, eq_iff, find?, Distinct, Bool-cases, inl, inr,
}
use chimely.Types.{InboxItem, archived_view, view_eq}
use chimely.Client.State.{Client, Request, request, post}
use chimely.Client.Items.{ids-set_read}
use chimely.Client.Merge.{ids}
use chimely.Client.Mutations.{
  mark_read, mark_unread, archive, unarchive, set_read, remove_item, target_of, source_segment,
}
use chimely.Client.Mutations.Counts.{unread_items, restore_read, find-set_read}
use chimely.React.Rows.{press_read, press_archive}

find-set_read_other :
    (id other : String) (b : Bool) (xs : List InboxItem)
    → str_eq other id ≡ false
    → find? (λ x. str_eq x.id other) (set_read id b xs) ≡ find? (λ x. str_eq x.id other) xs
find-set_read_other id other b [] h = refl
find-set_read_other id other b (x ∷ xs) h =
    ground (
      arith,
      eq_iff x.id id,
      eq_iff x.id other,
      eq_iff other id,
      find-set_read_other id other b xs h,
    )

find-remove_item :
    (id : String) (xs : List InboxItem) → find? (λ x. str_eq x.id id) (remove_item id xs) ≡ none
find-remove_item id [] = refl
find-remove_item id (x ∷ xs) = ground (arith, find-remove_item id xs)

find-remove_item_other :
    (id other : String) (xs : List InboxItem)
    → str_eq other id ≡ false
    → find? (λ x. str_eq x.id other) (remove_item id xs) ≡ find? (λ x. str_eq x.id other) xs
find-remove_item_other id other [] h = refl
find-remove_item_other id other (x ∷ xs) h = ground (
  arith,
  eq_iff x.id id,
  eq_iff x.id other,
  eq_iff other id,
  find-remove_item_other id other xs h,
)

unread_items-some :
    (id : String) (xs : List InboxItem) (t : InboxItem)
    → find? (λ x. str_eq x.id id) xs ≡ some t
    → t.read ≡ false
    → 1 ≤ unread_items xs
unread_items-some id [] t h r = cc
unread_items-some id (x ∷ xs) t h r = ground (arith, unread_items-some id xs t)

-- The loaded items and the counts that a client shows.
abbrev pub ShowsSame : Client → Client → Type 0
ShowsSame c d =
    (c.store.snapshot.items ≡ d.store.snapshot.items)
    × (c.store.snapshot.counts ≡ d.store.snapshot.counts)

-- The request of an action of a row, by the source of its item.
abbrev posts : InboxItem → String → Client → Request
posts shown verb c =
    request c post ("v1" ∷ "inbox" ∷ source_segment shown.source ∷ shown.id ∷ verb ∷ []) [] none
      none

-- From one client to the next the item's read mark is turned over and no more, and it is posted.
abbrev pub Turned : InboxItem → String → Client → Client → Type 0
Turned shown other c d =
    (target_of d.store.snapshot shown.id ≡ some (record shown { read = not shown.read }))
    × (target_of d.store.snapshot other ≡ target_of c.store.snapshot other)
    × (ids d.store.snapshot.items ≡ ids c.store.snapshot.items)
    × (d.sent ≡ c.sent ++ posts shown (if shown.read then "unread" else "read") c ∷ [])

-- From one client to the next the item is gone and no more, and it is posted.
abbrev pub Removed : InboxItem → String → Client → Client → Type 0
Removed shown other c d =
    (target_of d.store.snapshot shown.id ≡ none)
    × (target_of d.store.snapshot other ≡ target_of c.store.snapshot other)
    × (d.sent ≡ c.sent ++ posts shown (if shown.archived then "unarchive" else "archive") c ∷ [])

module _ (shown : InboxItem) (c : Client) (distinct : Distinct (ids c.store.snapshot.items))
    (loaded : target_of c.store.snapshot shown.id ≡ some shown) where
  press_read-turns :
      target_of (press_read shown c).store.snapshot shown.id
      ≡ some (record shown { read = not shown.read })
  unfolding press_read mark_read mark_unread
  press_read-turns = elim (Bool-cases shown.read) [
    | inl e ↦ ground (arith, find-set_read shown.id false c.store.snapshot.items shown loaded)
    | inr e ↦ ground (arith, find-set_read shown.id true c.store.snapshot.items shown loaded)
  ]

  press_read-press_read :
      unread_items c.store.snapshot.items ≤ c.store.snapshot.counts.unread
      → ShowsSame (press_read (record shown { read = not shown.read }) (press_read shown c)) c
  unfolding press_read mark_read mark_unread
  press_read-press_read covered = elim (Bool-cases shown.read) [
    | inl e ↦ ground (
      arith,
      find-set_read shown.id false items shown loaded,
      restore_read shown.id false items shown distinct loaded,
    )
    | inr e ↦ ground (
      arith,
      find-set_read shown.id true items shown loaded,
      restore_read shown.id true items shown distinct loaded,
      unread_items-some shown.id items shown loaded e,
    )
  ]
    where
      items : List InboxItem
      items = c.store.snapshot.items

  press_archive-removes :
      shown.archived ≡ view_eq c.store.snapshot.filter archived_view
      → target_of (press_archive shown c).store.snapshot shown.id ≡ none
  unfolding press_archive archive unarchive
  press_archive-removes agrees = ground (arith, find-remove_item shown.id c.store.snapshot.items)

  module _ (other : String) (differs : str_eq other shown.id ≡ false) where
    press_read-other :
        target_of (press_read shown c).store.snapshot other ≡ target_of c.store.snapshot other
    unfolding press_read mark_read mark_unread
    press_read-other = ground (
      arith,
      find-set_read_other shown.id other false c.store.snapshot.items differs,
      find-set_read_other shown.id other true c.store.snapshot.items differs,
    )

    press_archive-other :
        target_of (press_archive shown c).store.snapshot other ≡ target_of c.store.snapshot other
    unfolding press_archive archive unarchive
    press_archive-other =
        ground (arith, find-remove_item_other shown.id other c.store.snapshot.items differs)

  press_read-ids : ids (press_read shown c).store.snapshot.items ≡ ids c.store.snapshot.items
  unfolding press_read mark_read mark_unread
  press_read-ids = ground (
    arith,
    ids-set_read shown.id false c.store.snapshot.items,
    ids-set_read shown.id true c.store.snapshot.items,
  )

  press_read-sent :
      (press_read shown c).sent
      ≡ c.sent ++ posts shown (if shown.read then "unread" else "read") c ∷ []
  unfolding press_read mark_read mark_unread request
  press_read-sent = elim (Bool-cases shown.read) [
    | inl e ↦ rw e (ground arith)
    | inr e ↦ rw e (ground arith)
  ]

  press_archive-sent :
      (press_archive shown c).sent
      ≡ c.sent ++ posts shown (if shown.archived then "unarchive" else "archive") c ∷ []
  unfolding press_archive archive unarchive request
  press_archive-sent = elim (Bool-cases shown.archived) [
    | inl e ↦ rw e (ground arith)
    | inr e ↦ rw e (ground arith)
  ]

-- A row whose item is loaded, in a list with distinct ids, with an unread count that covers the
-- unread items, and with an archive mark that says whether the view is the archived one. The first
-- action turns the read mark of its item over, keeps every other item and the order, and posts to
-- the path of the item's source; a second press restores the list and the counts. The second action
-- takes the item out, keeps every other item, and posts to the path of the item's source.
pub row_actions :
    (shown : InboxItem) (c : Client) (other : String)
    → Distinct (ids c.store.snapshot.items)
    → target_of c.store.snapshot shown.id ≡ some shown
    → unread_items c.store.snapshot.items ≤ c.store.snapshot.counts.unread
    → shown.archived ≡ view_eq c.store.snapshot.filter archived_view
    → str_eq other shown.id ≡ false
    → Turned shown other c (press_read shown c)
      × ShowsSame (press_read (record shown { read = not shown.read }) (press_read shown c)) c
      × Removed shown other c (press_archive shown c)
row_actions shown c other distinct loaded covered agrees differs = (
  (
    press_read-turns shown c distinct loaded,
    press_read-other shown c distinct loaded other differs,
    press_read-ids shown c distinct loaded,
    press_read-sent shown c distinct loaded,
  ),
  press_read-press_read shown c distinct loaded covered,
  (
    press_archive-removes shown c distinct loaded agrees,
    press_archive-other shown c distinct loaded other differs,
    press_archive-sent shown c distinct loaded,
  ),
)
