-- ===== src/Client/Merge/Ids.antt =====
-- The ids of a merged list.
use mathlib.Core.List.{map-append}
use chimely.Prelude.{
  String, Bool, true, false, not, ◌||◌, Option, none, some, List, [], ◌∷◌, ◌++◌, map, ◌≡◌, refl,
  arith, str_eq, eq_iff, filter, contains, Distinct, get_last?, inl, inr, Bool-cases,
}
use chimely.Types.{InboxItem, InboxSnapshot, WireInboxPage}
use chimely.Client.Merge.{
  to_item, ids, new_ids, tail_after, overlaps, merge_first_page, Merged, merge_cases, merge_bounded,
  is_empty,
}

pub contains-append :
    (xs ys : List String) (s : String) → contains (xs ++ ys) s ≡ (contains xs s || contains ys s)
contains-append [] ys s = refl
contains-append (x ∷ xs) ys s = ground (arith, contains-append xs ys s)

-- No text of one list is in the other.
abbrev pub Apart : List String → List String → Type 0
Apart xs [] = Unit
Apart xs (y ∷ ys) = (contains xs y ≡ false) × Apart xs ys

-- `contains` finds equal texts.
contains-cons_false :
    (x y : String) (ys : List String)
    → contains (x ∷ ys) y ≡ false
    → (str_eq x y ≡ false) × (contains ys y ≡ false)
contains-cons_false x y ys h = ground arith

Apart-swap : (x : String) (xs ys : List String) → Apart (x ∷ xs) ys → contains ys x ≡ false
Apart-swap x xs [] h = refl
Apart-swap x xs (y ∷ ys) h = ground (arith, eq_iff x y, eq_iff y x, Apart-swap x xs ys h.1)

Apart-tail : (x : String) (xs ys : List String) → Apart (x ∷ xs) ys → Apart xs ys
Apart-tail x xs [] h = tt
Apart-tail x xs (y ∷ ys) h = (ground arith, Apart-tail x xs ys h.1)

pub Distinct-append :
    (xs ys : List String) → Distinct xs → Distinct ys → Apart xs ys → Distinct (xs ++ ys)
Distinct-append [] ys h k a = k
Distinct-append (x ∷ xs) ys h k a = (
  ground (arith, contains-append xs ys x, Apart-swap x xs ys a),
  Distinct-append xs ys h.1 k (Apart-tail x xs ys a),
)

-- A part of a list.
contains-filter :
    (p : InboxItem → Bool) (xs : List InboxItem) (s : String)
    → contains (ids xs) s ≡ false
    → contains (ids (filter p xs)) s ≡ false
contains-filter p [] s h = refl
contains-filter p (x ∷ xs) s h = ground (arith, contains-filter p xs s)

pub Distinct-filter :
    (p : InboxItem → Bool) (xs : List InboxItem) → Distinct (ids xs) → Distinct (ids (filter p xs))
Distinct-filter p [] h = tt
Distinct-filter p (x ∷ xs) h =
    ground (arith, Distinct-filter p xs h.1, contains-filter p xs x.id h.0)

Apart-tail_after :
    (page : List InboxItem) (boundary : InboxItem) (xs : List InboxItem)
    → Apart (ids page) (ids (tail_after page boundary xs))
Apart-tail_after page boundary [] = tt
Apart-tail_after page boundary (x ∷ xs) = ground (arith, Apart-tail_after page boundary xs)

-- The case of a page with a next one: what the merge does is decided by one test.
pub merge_bounded_cases {ℓ} :
    (P : Merged → Type ℓ) (existing : InboxSnapshot) (cursor : Option String)
    (page : List InboxItem) (next : String) (boundary : InboxItem)
    → P (record {
      items = page;
      has_more = true;
      last_refresh_new_item_ids = new_ids existing.items page;
      cursor = some next;
    })
    → (is_empty (tail_after page boundary existing.items) ≡ false
        → overlaps page existing.items ≡ true
        → P (record {
          items = page ++ tail_after page boundary existing.items;
          has_more = existing.has_more;
          last_refresh_new_item_ids = new_ids existing.items page;
          cursor = cursor;
        }))
    → P (merge_bounded existing cursor page next boundary)
merge_bounded_cases P existing cursor page next boundary reset kept =
    elim (Bool-cases
      (is_empty (tail_after page boundary existing.items) || not (overlaps page existing.items))) [
        | inl e ↦ rw e reset
        | inr e ↦ rw e (kept (ground arith) (ground arith))
      ]

merge_cases-Distinct :
    (existing : InboxSnapshot) (cursor : Option String) (page : List InboxItem)
    (next : Option String) (last : Option InboxItem)
    → Distinct (ids existing.items)
    → Distinct (ids page)
    → Distinct (ids (merge_cases existing cursor page next last).items)
merge_cases-Distinct existing cursor page none last h k = k
merge_cases-Distinct existing cursor page (some next) none h k = k
merge_cases-Distinct existing cursor page (some next) (some boundary) h k =
    merge_bounded_cases (λ m. Distinct (ids m.items)) existing cursor page next boundary k
      λ _ _. rw map-append (
        Distinct-append (ids page) (ids (tail_after page boundary existing.items)) k
          (Distinct-filter _ existing.items h) (Apart-tail_after page boundary existing.items))

-- A merge keeps the ids of the list distinct, if those of the page are.
pub merge_first_page-Distinct :
    (existing : InboxSnapshot) (cursor : Option String) (page : WireInboxPage)
    → Distinct (ids existing.items)
    → Distinct (ids (map to_item page.items))
    → Distinct (ids (merge_first_page existing cursor page).items)
unfolding merge_first_page
merge_first_page-Distinct existing cursor page h k =
    merge_cases-Distinct existing cursor (map to_item page.items) page.next_cursor
      (get_last? (map to_item page.items)) h k
