-- ===== src/Client/Mutations/Counts.antt =====
-- The unread count and the loaded items move together under the optimistic patches.
use chimely.Prelude.{
  ℕ, suc, ◌+◌, ◌≤◌, ◌<◌, String, Bool, true, false, none, some, List, [], ◌∷◌, ◌≡◌, refl, arith,
  str_eq, eq_iff, find?, contains, Distinct, inl, inr, Bool-cases, if◌then◌else◌, Option-cases,
}
use chimely.Types.{InboxItem, InboxItemSource}
use chimely.Client.State.{Client}
use chimely.Client.Merge.{ids}
use chimely.Client.Mutations.{
  mark_read, mark_unread, archive, unarchive, set_read, remove_item, target_of,
}

-- How many of the loaded items are unread.
abbrev pub unread_items : List InboxItem → ℕ
unread_items [] = 0
unread_items (x ∷ xs) = let rest = unread_items xs in if x.read then rest else suc rest

-- An id that is not in the list.
set_read_absent :
    (id : String) (b : Bool) (xs : List InboxItem)
    → contains (ids xs) id ≡ false
    → set_read id b xs ≡ xs
set_read_absent id b [] h = refl
set_read_absent id b (x ∷ xs) h = ground (arith, set_read_absent id b xs)

remove_item_absent :
    (id : String) (xs : List InboxItem) → contains (ids xs) id ≡ false → remove_item id xs ≡ xs
remove_item_absent id [] h = refl
remove_item_absent id (x ∷ xs) h = ground (arith, remove_item_absent id xs)

find_absent :
    (id : String) (xs : List InboxItem)
    → find? (λ x. str_eq x.id id) xs ≡ none
    → contains (ids xs) id ≡ false
find_absent id [] h = refl
find_absent id (x ∷ xs) h = ground (arith, find_absent id xs)

-- The weight of an item in the count.
abbrev weight : Bool → ℕ
weight true = 0
weight false = 1

set_read_counts :
    (id : String) (b : Bool) (xs : List InboxItem) (t : InboxItem)
    → Distinct (ids xs)
    → find? (λ x. str_eq x.id id) xs ≡ some t
    → unread_items (set_read id b xs) + weight t.read ≡ unread_items xs + weight b
set_read_counts id b [] t d h = cc
set_read_counts id b (x ∷ xs) t d h = elim (Bool-cases (str_eq x.id id)) [
  | inl e ↦ ground (arith, eq_iff x.id id, set_read_absent id b xs)
  | inr e ↦ ground (arith, set_read_counts id b xs t d.1)
]

pub remove_item_counts :
    (id : String) (xs : List InboxItem) (t : InboxItem)
    → Distinct (ids xs)
    → find? (λ x. str_eq x.id id) xs ≡ some t
    → unread_items (remove_item id xs) + weight t.read ≡ unread_items xs
remove_item_counts id [] t d h = cc
remove_item_counts id (x ∷ xs) t d h = elim (Bool-cases (str_eq x.id id)) [
  | inl e ↦ ground (arith, eq_iff x.id id, remove_item_absent id xs)
  | inr e ↦ ground (arith, remove_item_counts id xs t d.1)
]

-- What the count says beyond the loaded items stays the same.
abbrev pub KeepsBacklog : Client → Client → Type 0
KeepsBacklog c d =
    d.store.snapshot.counts.unread + unread_items c.store.snapshot.items
    ≡ c.store.snapshot.counts.unread + unread_items d.store.snapshot.items

module _ (id : String) (source : InboxItemSource) (c : Client)
    (distinct : Distinct (ids c.store.snapshot.items))
    (covered : unread_items c.store.snapshot.items ≤ c.store.snapshot.counts.unread) where
  mark_read-KeepsBacklog : KeepsBacklog c (mark_read id source c)
  unfolding mark_read
  mark_read-KeepsBacklog = elim (Option-cases (target_of c.store.snapshot id)) [
    | inl e ↦ rw (e, mark_read) (ground arith)
    | inr (t, e) ↦
        let k = set_read_counts id true c.store.snapshot.items t distinct e in
        rw (e, mark_read) (ground (arith, k))
  ]

  mark_unread-KeepsBacklog : KeepsBacklog c (mark_unread id source c)
  unfolding mark_unread
  mark_unread-KeepsBacklog = elim (Option-cases (target_of c.store.snapshot id)) [
    | inl e ↦ rw (e, mark_unread) (ground arith)
    | inr (t, e) ↦
        let k = set_read_counts id false c.store.snapshot.items t distinct e in
        rw (e, mark_unread) (ground (arith, k))
  ]

  archive-KeepsBacklog : KeepsBacklog c (archive id source c)
  unfolding archive
  archive-KeepsBacklog = elim (Option-cases (target_of c.store.snapshot id)) [
    | inl e ↦ rw (e, archive) (ground arith)
    | inr (t, e) ↦
        let k = remove_item_counts id c.store.snapshot.items t distinct e in
        rw (e, archive) (ground (arith, k))
  ]

  unarchive_moves_count :
      (unarchive id source c).store.snapshot.counts.unread
        + unread_items (unarchive id source c).store.snapshot.items
      ≡ c.store.snapshot.counts.unread + unread_items c.store.snapshot.items
  unfolding unarchive
  unarchive_moves_count = elim (Option-cases (target_of c.store.snapshot id)) [
    | inl e ↦ rw (e, unarchive) (ground arith)
    | inr (t, e) ↦
        let k = remove_item_counts id c.store.snapshot.items t distinct e in
        rw (e, unarchive) (ground (arith, k))
  ]

  -- Where the loaded ids are distinct and the unread count covers the unread items among them:
  -- markRead, markUnread and archive change the count by as much as the number of unread items that
  -- are loaded, and unarchive moves an unread item from the archived view into the count.
  pub item_calls_count :
      KeepsBacklog c (mark_read id source c)
      × KeepsBacklog c (mark_unread id source c)
      × KeepsBacklog c (archive id source c)
      × ((unarchive id source c).store.snapshot.counts.unread
            + unread_items (unarchive id source c).store.snapshot.items
          ≡ c.store.snapshot.counts.unread + unread_items c.store.snapshot.items)
  item_calls_count = (
    mark_read-KeepsBacklog, mark_unread-KeepsBacklog, archive-KeepsBacklog, unarchive_moves_count,
  )

-- Turning the mark of an item over and back again restores the list.
pub restore_read :
    (id : String) (b : Bool) (xs : List InboxItem) (t : InboxItem)
    → Distinct (ids xs)
    → find? (λ x. str_eq x.id id) xs ≡ some t
    → set_read id t.read (set_read id b xs) ≡ xs
restore_read id b [] t d h = cc
restore_read id b (x ∷ xs) t d h = elim (Bool-cases (str_eq x.id id)) [
  | inl e ↦ ground (arith, eq_iff x.id id, set_read_absent id b xs, set_read_absent id t.read xs)
  | inr e ↦ ground (arith, restore_read id b xs t d.1)
]

pub find-set_read :
    (id : String) (b : Bool) (xs : List InboxItem) (t : InboxItem)
    → find? (λ x. str_eq x.id id) xs ≡ some t
    → find? (λ x. str_eq x.id id) (set_read id b xs) ≡ some (record t { read = b })
find-set_read id b [] t h = cc
find-set_read id b (x ∷ xs) t h = ground (arith, find-set_read id b xs t)

-- For a loaded unread item, in a list with distinct ids and with an unread count of at least one:
-- markRead and then markUnread restore the items and the counts, whatever the responses.
mark_unread-mark_read :
    (id : String) (source : InboxItemSource) (c : Client) (t : InboxItem)
    → Distinct (ids c.store.snapshot.items)
    → target_of c.store.snapshot id ≡ some t
    → t.read ≡ false
    → 0 < c.store.snapshot.counts.unread
    → ((mark_unread id source (mark_read id source c)).store.snapshot.items
        ≡ c.store.snapshot.items)
      × ((mark_unread id source (mark_read id source c)).store.snapshot.counts
          ≡ c.store.snapshot.counts)
unfolding mark_read mark_unread
mark_unread-mark_read id source c t d h r p = ground (
  arith,
  restore_read id true c.store.snapshot.items t d h,
  find-set_read id true c.store.snapshot.items t h,
)
