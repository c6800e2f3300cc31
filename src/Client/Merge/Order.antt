-- ===== src/Client/Merge/Order.antt =====
-- The order of a merged list.
use chimely.Prelude.{
  String, Bool, true, not, ◌&&◌, Option, none, some, List, [], ◌∷◌, ◌++◌, map, ◌≡◌, refl, subst,
  arith, eq_iff, filter, get_last?, All, All-append, inl, inr, Bool-cases, text_lt_trans,
  text_lt_irrefl, contains,
}
use chimely.Types.{InboxItem, InboxSnapshot, WireInboxPage}
use chimely.Client.Merge.{to_item, ids, tail_after, is_older_than, merge_first_page, merge_cases}
use chimely.Client.Merge.Ids.{merge_bounded_cases}

-- The order of the list: by time, then by id.
is_older_than_trans :
    (x y z : InboxItem)
    → is_older_than x y ≡ true
    → is_older_than y z ≡ true
    → is_older_than x z ≡ true
unfolding is_older_than
is_older_than_trans x y z h k = ground (
  arith,
  eq_iff x.occurred_at y.occurred_at,
  eq_iff y.occurred_at z.occurred_at,
  eq_iff x.occurred_at z.occurred_at,
  text_lt_trans x.occurred_at y.occurred_at z.occurred_at,
  text_lt_irrefl x.occurred_at,
  text_lt_trans x.id y.id z.id,
)

-- Newest first.
abbrev pub Ordered : List InboxItem → Type 0
Ordered [] = Unit
Ordered (x ∷ xs) = All (λ y. is_older_than y x ≡ true) xs × Ordered xs

All-filter :
    (P : InboxItem → Type 0) (p : InboxItem → Bool) (xs : List InboxItem)
    → All P xs
    → All P (filter p xs)
All-filter P p [] h = tt
All-filter P p (x ∷ xs) h = elim (Bool-cases (p x)) [
  | inl e ↦ rw e (h.0, All-filter P p xs h.1)
  | inr e ↦ rw e (All-filter P p xs h.1)
]

Ordered-filter : (p : InboxItem → Bool) (xs : List InboxItem) → Ordered xs → Ordered (filter p xs)
Ordered-filter p [] h = tt
Ordered-filter p (x ∷ xs) h = elim (Bool-cases (p x)) [
  | inl e ↦ rw e (All-filter _ p xs h.0, Ordered-filter p xs h.1)
  | inr e ↦ rw e (Ordered-filter p xs h.1)
]

pub All-map_implies :
    (P Q : InboxItem → Type 0) (xs : List InboxItem)
    → ((x : InboxItem) → P x → Q x)
    → All P xs
    → All Q xs
All-map_implies P Q [] f h = tt
All-map_implies P Q (x ∷ xs) f h = (f x h.0, All-map_implies P Q xs f h.1)

All-get_last? :
    (P : InboxItem → Type 0) (xs : List InboxItem) (last : InboxItem)
    → get_last? xs ≡ some last
    → All P xs
    → P last
All-get_last? P [] last e h = cc
All-get_last? P (x ∷ []) last e h = let same : x ≡ last = cc in subst P same h.0
All-get_last? P (x ∷ x' ∷ xs) last e h = All-get_last? P (x' ∷ xs) last e h.1

-- Items older than the last item of an ordered list can follow it.
Ordered-append :
    (xs ys : List InboxItem) (last : InboxItem)
    → get_last? xs ≡ some last
    → Ordered xs
    → Ordered ys
    → All (λ y. is_older_than y last ≡ true) ys
    → Ordered (xs ++ ys)
Ordered-append [] ys last e h k a = k
Ordered-append (x ∷ []) ys last e h k a =
    let same : last ≡ x = cc in (subst (λ z. All (λ y. is_older_than y z ≡ true) ys) same a, k)
Ordered-append (x ∷ x' ∷ xs) ys last e h k a = (
  All-append _ (x' ∷ xs) ys h.0 (
      All-map_implies _ _ ys
        (λ y o.
          is_older_than_trans y last x o
            (All-get_last? (λ z. is_older_than z x ≡ true) (x' ∷ xs) last e h.0))
        a),
  Ordered-append (x' ∷ xs) ys last e h.1 k a,
)

tail_after_older :
    (page : List InboxItem) (boundary : InboxItem) (xs : List InboxItem)
    → All (λ y. is_older_than y boundary ≡ true) (tail_after page boundary xs)
tail_after_older page boundary [] = tt
tail_after_older page boundary (x ∷ xs) =
    elim (Bool-cases (not (contains (ids page) x.id) && is_older_than x boundary)) [
      | inl e ↦ rw e (ground arith, tail_after_older page boundary xs)
      | inr e ↦ rw e (tail_after_older page boundary xs)
    ]

merge_cases-Ordered :
    (existing : InboxSnapshot) (cursor : Option String) (page : List InboxItem)
    (next : Option String) (last : Option InboxItem)
    → get_last? page ≡ last
    → Ordered existing.items
    → Ordered page
    → Ordered (merge_cases existing cursor page next last).items
merge_cases-Ordered existing cursor page none last e h k = k
merge_cases-Ordered existing cursor page (some next) none e h k = k
merge_cases-Ordered existing cursor page (some next) (some boundary) e h k =
    merge_bounded_cases (λ m. Ordered m.items) existing cursor page next boundary k
      λ _ _.
        Ordered-append page (tail_after page boundary existing.items) boundary e k
          (Ordered-filter _ existing.items h) (tail_after_older page boundary existing.items)

-- A merge of a page that is newest first into a list that is newest first is newest first.
pub merge_first_page-Ordered :
    (existing : InboxSnapshot) (cursor : Option String) (page : WireInboxPage)
    → Ordered existing.items
    → Ordered (map to_item page.items)
    → Ordered (merge_first_page existing cursor page).items
unfolding merge_first_page
merge_first_page-Ordered existing cursor page h k =
    merge_cases-Ordered existing cursor (map to_item page.items) page.next_cursor _ refl h k
