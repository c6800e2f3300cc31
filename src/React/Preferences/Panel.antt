-- ===== src/React/Preferences/Panel.antt =====
-- The toggles that the panel lists.
use chimely.Prelude.{
  String, false, ◌||◌, List, [], ◌∷◌, ◌++◌, map, ◌≡◌, refl, ◌∙◌, arith, inl, inr, Bool-cases,
  if◌then◌else◌, str_eq, eq_iff, eq_refl, text_lt, text_lt_trans, text_lt_irrefl, text_lt_cotrans,
  contains, Distinct, All,
}
use chimely.Types.{Preference, InboxItem}
use chimely.React.Preferences.{categories, add_all, insert, sort}

-- In the order of the code units.
abbrev pub Sorted : List String → Type 0
Sorted [] = Unit
Sorted (x ∷ xs) = All (λ y. text_lt y x ≡ false) xs × Sorted xs

contains-insert :
    (x : String) (xs : List String) (s : String)
    → contains (insert x xs) s ≡ (str_eq x s || contains xs s)
contains-insert x [] s = refl
contains-insert x (y ∷ ys) s = ground (arith, contains-insert x ys s)

contains-sort : (xs : List String) (s : String) → contains (sort xs) s ≡ contains xs s
contains-sort [] s = refl
contains-sort (x ∷ xs) s = ground (arith, contains-insert x (sort xs) s, contains-sort xs s)

contains-add_last :
    (xs : List String) (x s : String) → contains (xs ++ x ∷ []) s ≡ (contains xs s || str_eq x s)
contains-add_last [] x s = ground arith
contains-add_last (y ∷ xs) x s = ground (arith, contains-add_last xs x s)

contains_same :
    (set : List String) (x s : String)
    → contains (if contains set x then set else set ++ x ∷ []) s ≡ (contains set s || str_eq x s)
contains_same set x s = ground (arith, contains-add_last set x s, eq_iff x s)

contains-add_all :
    (set xs : List String) (s : String)
    → contains (add_all set xs) s ≡ (contains set s || contains xs s)
contains-add_all set [] s = ground arith
contains-add_all set (x ∷ xs) s = ground (
  arith,
  contains-add_all (if contains set x then set else set ++ x ∷ []) xs s,
  contains_same set x s,
)

Distinct-add_last :
    (xs : List String) (x : String) → Distinct xs → contains xs x ≡ false → Distinct (xs ++ x ∷ [])
Distinct-add_last [] x d h = (refl, tt)
Distinct-add_last (y ∷ xs) x d h = (
  ground (arith, contains-add_last xs x y, eq_iff x y, eq_refl x),
  Distinct-add_last xs x d.1 (ground arith),
)

Distinct-add_all : (set xs : List String) → Distinct set → Distinct (add_all set xs)
Distinct-add_all set [] d = d
Distinct-add_all set (x ∷ xs) d = elim (Bool-cases (contains set x)) [
  | inl e ↦ rw e (Distinct-add_all set xs d)
  | inr e ↦ rw e (Distinct-add_all (set ++ x ∷ []) xs (Distinct-add_last set x d e))
]

Distinct-insert :
    (x : String) (xs : List String) → Distinct xs → contains xs x ≡ false → Distinct (insert x xs)
Distinct-insert x [] d h = (refl, tt)
Distinct-insert x (y ∷ ys) d h = elim (Bool-cases (text_lt y x)) [
  | inl e ↦ rw e (
    ground (arith, contains-insert x ys y, eq_iff x y, eq_refl x),
    Distinct-insert x ys d.1 (ground arith),
  )
  | inr e ↦ rw e (h, d)
]

Distinct-sort : (xs : List String) → Distinct xs → Distinct (sort xs)
Distinct-sort [] d = tt
Distinct-sort (x ∷ xs) d =
    Distinct-insert x (sort xs) (Distinct-sort xs d.1) (contains-sort xs x ∙ d.0)

All-insert :
    (P : String → Type 0) (x : String) (xs : List String) → P x → All P xs → All P (insert x xs)
All-insert P x [] p h = (p, tt)
All-insert P x (y ∷ ys) p h = elim (Bool-cases (text_lt y x)) [
  | inl e ↦ rw e (h.0, All-insert P x ys p h.1)
  | inr e ↦ rw e (p, h)
]

-- What is not below a text is not below one that is not above it.
All-lower :
    (x y : String) (xs : List String)
    → text_lt y x ≡ false
    → All (λ z. text_lt z y ≡ false) xs
    → All (λ z. text_lt z x ≡ false) xs
All-lower x y [] e h = tt
All-lower x y (z ∷ zs) e h = (ground (arith, text_lt_cotrans z y x), All-lower x y zs e h.1)

Sorted-insert : (x : String) (xs : List String) → Sorted xs → Sorted (insert x xs)
Sorted-insert x [] h = (tt, tt)
Sorted-insert x (y ∷ ys) h = elim (Bool-cases (text_lt y x)) [
  | inl e ↦ rw e (
    All-insert (λ z. text_lt z y ≡ false) x ys
        (ground (arith, text_lt_trans x y x, text_lt_irrefl x)) h.0,
    Sorted-insert x ys h.1,
  )
  | inr e ↦ rw e ((e, All-lower x y ys e h.0), h)
]

Sorted-sort : (xs : List String) → Sorted (sort xs)
Sorted-sort [] = tt
Sorted-sort (x ∷ xs) = Sorted-insert x (sort xs) (Sorted-sort xs)

-- The panel lists the categories of the loaded items and of the explicit rows, all of them and no
-- other, each once and in order.
categories_lem :
    (items : List InboxItem) (rows : List Preference) (category : String)
    → Distinct (categories items rows)
      × Sorted (categories items rows)
      × (contains (categories items rows) category ≡ (
          contains (map (λ item. item.category) items) category
          || contains (map (λ row. row.category) rows) category))
unfolding categories
categories_lem items rows category = (
  Distinct-sort (add_all named written)
      (Distinct-add_all named written (Distinct-add_all [] of_items tt)),
  Sorted-sort (add_all named written),
  ground (
    arith,
    contains-sort (add_all named written) category,
    contains-add_all named written category,
    contains-add_all [] of_items category,
  ),
)
  where
    of_items : List String
    of_items = map (λ item. item.category) items

    written : List String
    written = map (λ row. row.category) rows

    named : List String
    named = add_all [] of_items
