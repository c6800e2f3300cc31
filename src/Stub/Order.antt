-- ===== src/Stub/Order.antt =====
-- The order of the server's rows.
use chimely.Prelude.{
  Bool, true, ◌||◌, List, [], ◌∷◌, ◌++◌, ◌≡◌, arith, inl, inr, Bool-cases, eq_iff, text_lt_trans,
  text_lt_irrefl, All, All-append,
}
use chimely.Types.{WireInboxItem, InboxItemSource}
use chimely.Stub.{
  Platform, StubServer, Overrides, is_after, insert_item, sort_items, new_item, add_item,
}

-- Newest first, with no tie.
abbrev pub Newest : List WireInboxItem → Type 0
Newest [] = Unit
Newest (x ∷ xs) = All (λ y. is_after y x ≡ true) xs × Newest xs

-- One of the two comes first.
abbrev pub compares : WireInboxItem → WireInboxItem → Bool
compares x y = is_after x y || is_after y x

pub is_after_trans :
    (x y z : WireInboxItem) → is_after x y ≡ true → is_after y z ≡ true → is_after x z ≡ true
is_after_trans x y z h k = ground (
  arith,
  eq_iff x.occurred_at y.occurred_at,
  eq_iff y.occurred_at z.occurred_at,
  eq_iff x.occurred_at z.occurred_at,
  text_lt_trans x.occurred_at y.occurred_at z.occurred_at,
  text_lt_irrefl x.occurred_at,
  text_lt_trans x.id y.id z.id,
)

All-insert_item :
    (P : WireInboxItem → Type 0) (x : WireInboxItem) (xs : List WireInboxItem)
    → P x
    → All P xs
    → All P (insert_item x xs)
All-insert_item P x [] p h = (p, tt)
All-insert_item P x (y ∷ ys) p h = elim (Bool-cases (is_after x y)) [
  | inl e ↦ rw e (h.0, All-insert_item P x ys p h.1)
  | inr e ↦ rw e (p, h)
]

All-sort_items :
    (P : WireInboxItem → Type 0) (xs : List WireInboxItem) → All P xs → All P (sort_items xs)
All-sort_items P [] h = tt
All-sort_items P (x ∷ xs) h = All-insert_item P x (sort_items xs) h.0 (All-sort_items P xs h.1)

All-implies :
    (P Q : WireInboxItem → Type 0) (xs : List WireInboxItem)
    → ((x : WireInboxItem) → P x → Q x)
    → All P xs
    → All Q xs
All-implies P Q [] f h = tt
All-implies P Q (x ∷ xs) f h = (f x h.0, All-implies P Q xs f h.1)

insert_item-Newest :
    (x : WireInboxItem) (xs : List WireInboxItem)
    → Newest xs
    → All (λ y. compares x y ≡ true) xs
    → Newest (insert_item x xs)
insert_item-Newest x [] h c = (tt, tt)
insert_item-Newest x (y ∷ ys) h c = elim (Bool-cases (is_after x y)) [
  | inl e ↦
      rw e (All-insert_item (λ z. is_after z y ≡ true) x ys e h.0, insert_item-Newest x ys h.1 c.1)
  | inr e ↦
      let first : is_after y x ≡ true = ground arith in
      rw e (
        (
          first,
          All-implies (λ z. is_after z y ≡ true) (λ z. is_after z x ≡ true) ys
              (λ z k. is_after_trans z y x k first) h.0,
        ),
        h,
      )
]

sort_items-Newest :
    (xs : List WireInboxItem) (x : WireInboxItem)
    → Newest xs
    → All (λ y. compares x y ≡ true) xs
    → Newest (sort_items (xs ++ x ∷ []))
sort_items-Newest [] x h c = (tt, tt)
sort_items-Newest (y ∷ ys) x h c =
    insert_item-Newest y (sort_items (ys ++ x ∷ [])) (sort_items-Newest ys x h.1 c.1) (
      All-sort_items (λ z. compares y z ≡ true) (ys ++ x ∷ [])
        (All-append (λ z. compares y z ≡ true) ys (x ∷ [])
          (All-implies (λ z. is_after z y ≡ true) (λ z. compares y z ≡ true) ys
            (λ z k. ground arith) h.0)
          (ground arith, tt)))

-- A new row that compares with each of the others goes to its place: the rows stay newest first.
add_item-Newest :
    (p : Platform) (source : InboxItemSource) (overrides : Overrides) (s : StubServer)
    → Newest s.items
    → All (λ y. compares (new_item p s source overrides) y ≡ true) s.items
    → Newest (add_item p source overrides s).items
unfolding add_item
add_item-Newest p source overrides s h c =
    sort_items-Newest s.items (new_item p s source overrides) h c
