-- ===== src/Bench/Percentiles/Ranks.antt =====
-- The ranks of the percentiles of bench/sse/sse-load.mjs.
use chimely.Prelude.{
  ℕ, zero, suc, ◌-◌, ◌*◌, ◌≤◌, ◌<◌, Bool, some, List, [], ◌∷◌, length, get_elem?, get_last?, leb,
  ltb, ◌≡◌, refl, sym, ap, ◌∙◌, arith, none-some,
}
use mathlib.Core.Option.{some-injective}
use chimely.Bench.Percentiles.{
  Percent, percent_50, percent_95, percent_99, percent, sort, rank, pct, summarize,
}
use chimely.Bench.Percentiles.Laws.{
  Sorted, count_if, sort-Sorted, count_if-sort, length-sort, at_rank, All-elem,
}

get_elem_within : (xs : List ℕ) (i : ℕ) → i < length xs → (v : ℕ) × (get_elem? xs i ≡ some v)
get_elem_within [] i h = let no : ⊥ = omega arith in elim no [ ]
get_elem_within (x ∷ xs) zero h = (x, refl)
get_elem_within (x ∷ xs) (suc i) h = get_elem_within xs i (omega arith)

-- The rank of a percent of n is within n.
rank_within : (p : Percent) (n : ℕ) → rank p n ≤ n
rank_within percent_50 n = omega arith
rank_within percent_95 n = omega arith
rank_within percent_99 n = omega arith

-- `pct` picks by the rank.
pct_at : (s : List ℕ) (p : Percent) → 0 < length s → pct s p ≡ get_elem? s (rank p (length s) - 1)
unfolding pct
pct_at [] p h = let no : ⊥ = omega arith in elim no [ ]
pct_at (x ∷ xs) p h = ap (get_elem? (x ∷ xs)) (omega (arith, rank_within p (suc (length xs))))

pct_there :
    (s : List ℕ) (p : Percent)
    → 0 < length s
    → (v : ℕ) × (get_elem? s (rank p (length s) - 1) ≡ some v) × (pct s p ≡ some v)
pct_there s p h =
    let (v, e) =
      get_elem_within s (rank p (length s) - 1) (omega (arith, rank_within p (length s))) in
    (v, e, pct_at s p h ∙ e)

some_of : (p : Percent) (n : ℕ) → 0 < n → 0 < percent p * n
some_of percent_50 n h = omega arith
some_of percent_95 n h = omega arith
some_of percent_99 n h = omega arith

-- The p-th percentile of samples that are there, for p one of 50, 95 and 99, is a number v with at least
-- p of a hundred samples at most v, and fewer than p of a hundred below v.
pub pct-sort :
    (arr : List ℕ) (p : Percent)
    → 0 < length arr
    → (v : ℕ) × (pct (sort arr) p ≡ some v)
      × (percent p * length arr ≤ 100 * count_if (λ x. leb x v) arr)
      × (100 * count_if (λ x. ltb x v) arr < percent p * length arr)
pct-sort arr p h =
    let s = sort arr in
    let (v, e, found) = pct_there s p (omega (arith, length-sort arr)) in
    let ranked = at_rank s (rank p (length s) - 1) v (sort-Sorted arr) e in
    let some_rank = some_of p (length arr) h in
    let n = ap (λ z. percent p * z) (length-sort arr) in
    (
      v,
      found,
      omega (arith, n, ranked.1, count_if-sort (λ x. leb x v) arr),
      omega (arith, n, some_rank, ranked.0, count_if-sort (λ x. ltb x v) arr),
    )

-- No more pass a test than there are.
count_if_bound : (p : ℕ → Bool) (xs : List ℕ) → count_if p xs ≤ length xs
count_if_bound p [] = omega arith
count_if_bound p (x ∷ xs) = ground (arith, count_if_bound p xs)

get_last-at : (x : ℕ) (xs : List ℕ) → get_last? (x ∷ xs) ≡ get_elem? (x ∷ xs) (length xs)
get_last-at x [] = refl
get_last-at x (y ∷ ys) = get_last-at y ys

get_last_within : (xs : List ℕ) → 0 < length xs → get_last? xs ≡ get_elem? xs (length xs - 1)
get_last_within [] h = let no : ⊥ = omega arith in elim no [ ]
get_last_within (x ∷ xs) h = get_last-at x xs ∙ ap (get_elem? (x ∷ xs)) (omega arith)

-- Elements of a sorted list are in the order of their places.
Sorted-order :
    (xs : List ℕ) (i j a b : ℕ)
    → Sorted xs
    → i ≤ j
    → get_elem? xs i ≡ some a
    → get_elem? xs j ≡ some b
    → a ≤ b
Sorted-order [] i j a b h l e k = elim (none-some e) [ ]
Sorted-order (x ∷ xs) zero zero a b h l e k =
    let same : a ≡ b = sym (some-injective x a e) ∙ some-injective x b k in omega arith
Sorted-order (x ∷ xs) zero (suc j) a b h l e k =
    let below : x ≤ b = All-elem (λ y. x ≤ y) xs j b k h.0 in omega (arith, some-injective x a e)
Sorted-order (x ∷ xs) (suc i) zero a b h l e k = let no : ⊥ = omega arith in elim no [ ]
Sorted-order (x ∷ xs) (suc i) (suc j) a b h l e k = Sorted-order xs i j a b h.1 (omega arith) e k

summarize_from :
    (arr : List ℕ) (a b c d : ℕ)
    → pct (sort arr) percent_50 ≡ some a
    → pct (sort arr) percent_95 ≡ some b
    → pct (sort arr) percent_99 ≡ some c
    → get_last? (sort arr) ≡ some d
    → summarize arr
      ≡ record { count = length arr; p50 = some a; p95 = some b; p99 = some c; greatest = some d }
unfolding summarize
summarize_from arr a b c d ea eb ec ed = rw (length-sort arr, ea, eb, ec, ed) refl

-- The summary of samples that are there has their number, its percentiles are in order, and the greatest
-- is a sample that no other exceeds.
summarize-ordered :
    (arr : List ℕ)
    → 0 < length arr
    → (a b c d : ℕ) × (summarize arr ≡ record {
      count = length arr;
      p50 = some a;
      p95 = some b;
      p99 = some c;
      greatest = some d;
    })
      × (a ≤ b)
      × (b ≤ c)
      × (c ≤ d)
      × (count_if (λ x. leb x d) arr ≡ length arr)
summarize-ordered arr h =
    let s = sort arr in
    let n = length-sort arr in
    let there : 0 < length s = omega arith in
    let (a, ea, fa) = pct_there s percent_50 there in
    let (b, eb, fb) = pct_there s percent_95 there in
    let (c, ec, fc) = pct_there s percent_99 there in
    let (d, ed) = get_elem_within s (length s - 1) (omega arith) in
    let last = get_last_within s there ∙ ed in
    let order = Sorted-order s in
    (
      a,
      b,
      c,
      d,
      summarize_from arr a b c d fa fb fc last,
      order _ _ a b (sort-Sorted arr) (omega arith) ea eb,
      order _ _ b c (sort-Sorted arr) (omega arith) eb ec,
      order _ _ c d (sort-Sorted arr) (omega (arith, rank_within percent_99 (length s))) ec ed,
      omega (
        arith,
        (at_rank s (length s - 1) d (sort-Sorted arr) ed).1,
        count_if-sort (λ x. leb x d) arr,
        count_if_bound (λ x. leb x d) arr,
      ),
    )
