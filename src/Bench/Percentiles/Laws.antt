-- ===== src/Bench/Percentiles/Laws.antt =====
-- The percentiles by counting, with no sort.
use chimely.Prelude.{
  ℕ, zero, suc, ◌+◌, ◌≤◌, ◌<◌, Bool, some, List, [], ◌∷◌, length, get_elem?, if◌then◌else◌, leb,
  ltb, ◌≡◌, refl, subst, arith, inl, inr, Bool-cases, none-some, All,
}
use mathlib.Core.Option.{some-injective}
use chimely.Bench.Percentiles.{insert, sort}

abbrev pub Sorted : List ℕ → Type 0
Sorted [] = Unit
Sorted (x ∷ xs) = All (λ y. x ≤ y) xs × Sorted xs

-- How many pass a test.
abbrev pub count_if : (ℕ → Bool) → List ℕ → ℕ
count_if p [] = 0
count_if p (x ∷ xs) = (if p x then 1 else 0) + count_if p xs

All-weaken : (x y : ℕ) (xs : List ℕ) → x ≤ y → All (λ z. y ≤ z) xs → All (λ z. x ≤ z) xs
All-weaken x y [] h k = tt
All-weaken x y (z ∷ xs) h (k, ks) = (omega arith, All-weaken x y xs h ks)

All-insert : (P : ℕ → Type 0) (x : ℕ) (xs : List ℕ) → P x → All P xs → All P (insert x xs)
unfolding insert
All-insert P x [] h k = (h, tt)
All-insert P x (y ∷ ys) h (k, ks) = elim (Bool-cases (leb x y)) [
  | inl e ↦ rw e (h, (k, ks))
  | inr e ↦ rw e (k, All-insert P x ys h ks)
]

insert-Sorted : (x : ℕ) (xs : List ℕ) → Sorted xs → Sorted (insert x xs)
unfolding insert
insert-Sorted x [] h = (tt, tt)
insert-Sorted x (y ∷ ys) (h, hs) = elim (Bool-cases (leb x y)) [
  | inl e ↦ rw e ((ground arith, All-weaken x y ys (ground arith) h), (h, hs))
  | inr e ↦ rw e (All-insert (λ z. y ≤ z) x ys (ground arith) h, insert-Sorted x ys hs)
]

pub sort-Sorted : (xs : List ℕ) → Sorted (sort xs)
unfolding sort
sort-Sorted [] = tt
sort-Sorted (x ∷ xs) = insert-Sorted x (sort xs) (sort-Sorted xs)

count_if-insert :
    (p : ℕ → Bool) (x : ℕ) (xs : List ℕ) → count_if p (insert x xs) ≡ count_if p (x ∷ xs)
unfolding insert
count_if-insert p x [] = refl
count_if-insert p x (y ∷ ys) = elim (Bool-cases (leb x y)) [
  | inl e ↦ rw e refl
  | inr e ↦ rw e (omega (arith, count_if-insert p x ys))
]

pub count_if-sort : (p : ℕ → Bool) (xs : List ℕ) → count_if p (sort xs) ≡ count_if p xs
unfolding sort
count_if-sort p [] = refl
count_if-sort p (x ∷ xs) = omega (arith, count_if-insert p x (sort xs), count_if-sort p xs)

length-insert : (x : ℕ) (xs : List ℕ) → length (insert x xs) ≡ suc (length xs)
unfolding insert
length-insert x [] = refl
length-insert x (y ∷ ys) = elim (Bool-cases (leb x y)) [
  | inl e ↦ rw e refl
  | inr e ↦ rw e (omega (arith, length-insert x ys))
]

pub length-sort : (xs : List ℕ) → length (sort xs) ≡ length xs
unfolding sort
length-sort [] = refl
length-sort (x ∷ xs) = omega (arith, length-insert x (sort xs), length-sort xs)

none_below : (v : ℕ) (xs : List ℕ) → All (λ z. v ≤ z) xs → count_if (λ x. ltb x v) xs ≡ 0
none_below v [] h = refl
none_below v (x ∷ xs) (h, hs) = ground (arith, none_below v xs hs)

pub All-elem : (P : ℕ → Type 0) (xs : List ℕ) (i v : ℕ) → get_elem? xs i ≡ some v → All P xs → P v
All-elem P [] i v e h = elim (none-some e) [ ]
All-elem P (x ∷ xs) zero v e h = subst P (some-injective x v e) h.0
All-elem P (x ∷ xs) (suc i) v e h = All-elem P xs i v e h.1

-- In a sorted list, at most i are below the element at i, and more than i are at most it.
pub at_rank :
    (xs : List ℕ) (i v : ℕ)
    → Sorted xs
    → get_elem? xs i ≡ some v
    → (count_if (λ x. ltb x v) xs ≤ i) × (i < count_if (λ x. leb x v) xs)
at_rank [] i v h e = elim (none-some e) [ ]
at_rank (x ∷ xs) zero v h e =
    let same : x ≡ v = some-injective x v e in
    let none_less : count_if (λ y. ltb y v) xs ≡ 0 =
      none_below v xs (subst (λ z. All (λ y. z ≤ y) xs) same h.0) in
    (ground arith, ground arith)
at_rank (x ∷ xs) (suc i) v h e =
    let later = at_rank xs i v h.1 e in
    let below : x ≤ v = All-elem (λ y. x ≤ y) xs i v e h.0 in (ground arith, ground arith)
