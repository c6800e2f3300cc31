-- ===== src/Stub/Rows.antt =====
-- A write to one row of the server, and what a client that shows the rows makes of it.
use chimely.Prelude.{
  ℕ, suc, ◌+◌, String, Bool, true, false, not, ◌||◌, Option, none, some, List, [], ◌∷◌, map, ◌≡◌,
  refl, ap, arith, inl, inr, Bool-cases, str_eq, eq_iff, filter, find?, all, contains, Distinct,
  length, if◌then◌else◌, is_some,
}
use chimely.Types.{InboxItem, InboxItemSource, WireInboxItem}
use chimely.Client.Merge.{to_item, ids}
use chimely.Client.Mutations.{set_read, remove_item, read_of}
use chimely.Client.Mutations.Counts.{unread_items}
use chimely.Stub.{is_unread}
use chimely.Stub.Listing.{in_view, visible}
use chimely.Stub.Routes.{
  Action, to_read, to_unread, to_archived, to_unarchived, act, act_on, is_row, is_done, same_source,
}

abbrev pub row_ids : List WireInboxItem → List String
row_ids = map λ row. row.id

-- The rows that have an id come from a source.
abbrev pub comes_from : InboxItemSource → String → List WireInboxItem → Bool
comes_from source id = all (λ row. not (str_eq row.id id) || same_source row.source source)

-- What the client shows of the rows.
abbrev pub shown : Option String → List WireInboxItem → List InboxItem
shown view rows = map to_item (visible view rows)

pub act_on_missing :
    (source : InboxItemSource) (id : String) (action : Action) (rows : List WireInboxItem)
    → find? (is_row source id) rows ≡ none
    → act_on source id action rows ≡ rows
act_on_missing source id action [] h = refl
act_on_missing source id action (row ∷ rows) h =
    ground (arith, act_on_missing source id action rows)

act-done :
    (action : Action) (row : WireInboxItem) → is_done action row ≡ true → act action row ≡ row
act-done to_read row h = ground arith
act-done to_unread row h = ground arith
act-done to_archived row h = ground arith
act-done to_unarchived row h = ground arith

pub act_on_done :
    (source : InboxItemSource) (id : String) (action : Action) (rows : List WireInboxItem)
    (row : WireInboxItem)
    → find? (is_row source id) rows ≡ some row
    → is_done action row ≡ true
    → act_on source id action rows ≡ rows
act_on_done source id action [] row h d = refl
act_on_done source id action (x ∷ rows) row h d = elim (Bool-cases (is_row source id x)) [
  | inl e ↦ rw e (ap (λ z. z ∷ rows) (act-done action x (ground arith)))
  | inr e ↦ rw e (ap (λ z. x ∷ z) (act_on_done source id action rows row (ground arith) d))
]

-- An id that no row has is not shown.
pub not_shown :
    (view : Option String) (id : String) (rows : List WireInboxItem)
    → contains (row_ids rows) id ≡ false
    → contains (ids (shown view rows)) id ≡ false
unfolding to_item
not_shown view id [] h = refl
not_shown view id (row ∷ rows) h = elim (Bool-cases (in_view view row)) [
  | inl e ↦ rw e (ground (arith, not_shown view id rows))
  | inr e ↦ rw e (not_shown view id rows (ground arith))
]

pub Distinct-shown :
    (view : Option String) (rows : List WireInboxItem)
    → Distinct (row_ids rows)
    → Distinct (ids (shown view rows))
unfolding to_item
Distinct-shown view [] d = tt
Distinct-shown view (row ∷ rows) d = elim (Bool-cases (in_view view row)) [
  | inl e ↦ rw e (not_shown view row.id rows d.0, Distinct-shown view rows d.1)
  | inr e ↦ rw e (Distinct-shown view rows d.1)
]

-- In a list with no such id.
set_read_none :
    (id : String) (b : Bool) (xs : List InboxItem)
    → contains (ids xs) id ≡ false
    → set_read id b xs ≡ xs
set_read_none id b [] h = refl
set_read_none id b (x ∷ xs) h = ground (arith, set_read_none id b xs)

remove_item_none :
    (id : String) (xs : List InboxItem) → contains (ids xs) id ≡ false → remove_item id xs ≡ xs
remove_item_none id [] h = refl
remove_item_none id (x ∷ xs) h = ground (arith, remove_item_none id xs)

-- The rows that are shown by default, after a write of the read flag.
module _ (source : InboxItemSource) (id : String) where
  pub shown-to_read :
      (rows : List WireInboxItem)
      → Distinct (row_ids rows)
      → comes_from source id rows ≡ true
      → shown none (act_on source id to_read rows) ≡ set_read id true (shown none rows)
  unfolding to_item
  shown-to_read [] d h = refl
  shown-to_read (row ∷ rows) d h = ground (
    arith,
    shown-to_read rows d.1,
    eq_iff row.id id,
    not_shown none id rows,
    set_read_none id true (shown none rows),
  )

  pub shown-to_unread :
      (rows : List WireInboxItem)
      → Distinct (row_ids rows)
      → comes_from source id rows ≡ true
      → shown none (act_on source id to_unread rows) ≡ set_read id false (shown none rows)
  unfolding to_item
  shown-to_unread [] d h = refl
  shown-to_unread (row ∷ rows) d h = ground (
    arith,
    shown-to_unread rows d.1,
    eq_iff row.id id,
    not_shown none id rows,
    set_read_none id false (shown none rows),
  )

  pub shown-to_archived :
      (rows : List WireInboxItem)
      → Distinct (row_ids rows)
      → comes_from source id rows ≡ true
      → shown none (act_on source id to_archived rows) ≡ remove_item id (shown none rows)
  unfolding to_item
  shown-to_archived [] d h = refl
  shown-to_archived (row ∷ rows) d h = ground (
    arith,
    shown-to_archived rows d.1,
    eq_iff row.id id,
    not_shown none id rows,
    remove_item_none id (shown none rows),
  )

  pub shown-to_unarchived :
      (rows : List WireInboxItem)
      → Distinct (row_ids rows)
      → comes_from source id rows ≡ true
      → shown (some "archived") (act_on source id to_unarchived rows)
        ≡ remove_item id (shown (some "archived") rows)
  unfolding to_item
  shown-to_unarchived [] d h = refl
  shown-to_unarchived (row ∷ rows) d h = ground (
    arith,
    shown-to_unarchived rows d.1,
    eq_iff row.id id,
    not_shown (some "archived") id rows,
    remove_item_none id (shown (some "archived") rows),
  )

-- How many rows are unread, archived or not.
abbrev pub unread_rows : List WireInboxItem → ℕ
unread_rows [] = 0
unread_rows (row ∷ rows) = let rest = unread_rows rows in if row.read then rest else suc rest

-- The server's unread count is that of the rows shown by default.
pub unread_shown :
    (rows : List WireInboxItem) → length (filter is_unread rows) ≡ unread_items (shown none rows)
unfolding to_item
unread_shown [] = refl
unread_shown (row ∷ rows) = ground (arith, unread_shown rows)

-- The other unread rows are those of the archived view.
pub unread_archived :
    (rows : List WireInboxItem)
    → length (filter is_unread rows) + unread_items (shown (some "archived") rows)
      ≡ unread_rows rows
unfolding to_item
unread_archived [] = refl
unread_archived (row ∷ rows) = ground (arith, unread_archived rows)

pub unread_rows-to_unarchived :
    (source : InboxItemSource) (id : String) (rows : List WireInboxItem)
    → unread_rows (act_on source id to_unarchived rows) ≡ unread_rows rows
unread_rows-to_unarchived source id [] = refl
unread_rows-to_unarchived source id (row ∷ rows) =
    ground (arith, unread_rows-to_unarchived source id rows)

-- All rows read, or archived.
pub all_read_shown :
    (view : Option String) (rows : List WireInboxItem)
    → view ≡ none
    → shown view (map (act to_read) rows)
      ≡ map (λ item. if item.read then item else record item { read = true }) (shown view rows)
unfolding to_item
all_read_shown view [] e = refl
all_read_shown view (row ∷ rows) e = ground (arith, all_read_shown view rows e)

pub all_read_unread :
    (rows : List WireInboxItem) → length (filter is_unread (map (act to_read) rows)) ≡ 0
all_read_unread [] = refl
all_read_unread (row ∷ rows) = ground (arith, all_read_unread rows)

pub all_archived_shown : (rows : List WireInboxItem) → shown none (map (act to_archived) rows) ≡ []
unfolding to_item
all_archived_shown [] = refl
all_archived_shown (row ∷ rows) = ground (arith, all_archived_shown rows)

pub all_archived_unread :
    (rows : List WireInboxItem) → length (filter is_unread (map (act to_archived) rows)) ≡ 0
all_archived_unread [] = refl
all_archived_unread (row ∷ rows) = ground (arith, all_archived_unread rows)

-- A write that the client leaves out changes nothing of what it shows.
pub set_read_same :
    (id : String) (b : Bool) (xs : List InboxItem)
    → Distinct (ids xs)
    → read_of (find? (λ x. str_eq x.id id) xs) b ≡ b
    → set_read id b xs ≡ xs
set_read_same id b [] d h = refl
set_read_same id b (x ∷ xs) d h = elim (Bool-cases (str_eq x.id id)) [
  | inl e ↦ ground (arith, eq_iff x.id id, set_read_none id b xs)
  | inr e ↦ ground (arith, set_read_same id b xs d.1)
]

pub remove_item_same :
    (id : String) (xs : List InboxItem)
    → is_some (find? (λ x. str_eq x.id id) xs) ≡ false
    → remove_item id xs ≡ xs
remove_item_same id [] h = refl
remove_item_same id (x ∷ xs) h = ground (arith, remove_item_same id xs)
