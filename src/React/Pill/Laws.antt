-- ===== src/React/Pill/Laws.antt =====
-- What the pill's count counts.
use chimely.Prelude.{
  ℕ, String, Bool, true, false, ◌||◌, List, [], ◌∷◌, ◌++◌, ◌≡◌, refl, arith, ◌==◌, filter, contains,
  length, str_eq, eq_iff, eq_refl, Distinct, All, Bool-cases, inl, inr,
}
use chimely.React.Pill.{
  Pill, initial_pill, add_ids, arrive, prune, scroll, PillEvent, merges, changes, scrolls,
  dismisses, pill_step, pill_run,
}

contains-last :
    (xs : List String) (x s : String) → contains (xs ++ x ∷ []) s ≡ (contains xs s || str_eq x s)
contains-last [] x s = ground arith
contains-last (y ∷ xs) x s = ground (arith, contains-last xs x s)

Distinct-last :
    (xs : List String) (x : String) → Distinct xs → contains xs x ≡ false → Distinct (xs ++ x ∷ [])
Distinct-last [] x d h = (refl, tt)
Distinct-last (y ∷ xs) x d h = (
  ground (arith, contains-last xs x y, eq_iff x y, eq_refl x),
  Distinct-last xs x d.1 (ground arith),
)

Distinct-add_ids : (set ids : List String) → Distinct set → Distinct (add_ids set ids)
Distinct-add_ids set [] d = d
Distinct-add_ids set (x ∷ xs) d = elim (Bool-cases (contains set x)) [
  | inl e ↦ rw e (Distinct-add_ids set xs d)
  | inr e ↦ rw e (Distinct-add_ids (set ++ x ∷ []) xs (Distinct-last set x d e))
]

contains-filtered :
    (p : String → Bool) (xs : List String) (s : String)
    → contains xs s ≡ false
    → contains (filter p xs) s ≡ false
contains-filtered p [] s h = refl
contains-filtered p (x ∷ xs) s h = ground (arith, contains-filtered p xs s)

Distinct-filtered : (p : String → Bool) (xs : List String) → Distinct xs → Distinct (filter p xs)
Distinct-filtered p [] d = tt
Distinct-filtered p (x ∷ xs) d = elim (Bool-cases (p x)) [
  | inl e ↦ rw e (contains-filtered p xs x d.0, Distinct-filtered p xs d.1)
  | inr e ↦ rw e (Distinct-filtered p xs d.1)
]

filtered-All : (p : String → Bool) (xs : List String) → All (λ x. p x ≡ true) (filter p xs)
filtered-All p [] = tt
filtered-All p (x ∷ xs) = elim (Bool-cases (p x)) [
  | inl e ↦ rw e (e, filtered-All p xs)
  | inr e ↦ rw e (filtered-All p xs)
]

-- The count is that of the ids, each of which is there once.
pub record PillInv (p : Pill) : Type 0 where
  pub count : p.pending_count ≡ length p.pending_new_ids
  pub once : Distinct p.pending_new_ids

arrive-PillInv :
    (ids : List String) (scroll_top : ℕ) (p : Pill) → PillInv p → PillInv (arrive ids scroll_top p)
unfolding arrive
arrive-PillInv ids scroll_top p v = ground (arith, Distinct-add_ids p.pending_new_ids ids)

prune-PillInv : (items : List String) (p : Pill) → PillInv p → PillInv (prune items p)
unfolding prune
prune-PillInv items p v = ground (arith, Distinct-filtered (contains items) p.pending_new_ids)

step-PillInv : (e : PillEvent) (p : Pill) → PillInv p → PillInv (pill_step e p)
unfolding pill_step scroll
step-PillInv (merges ids items top) p v =
    prune-PillInv items (arrive ids top p) (arrive-PillInv ids top p v)
step-PillInv (changes items) p v = prune-PillInv items p v
step-PillInv (scrolls top) p v = ground arith
step-PillInv dismisses p v = record { count = refl; once = tt }

run-PillInv : (es : List PillEvent) (p : Pill) → PillInv p → PillInv (pill_run es p)
unfolding pill_run
run-PillInv [] p v = v
run-PillInv (e ∷ es) p v = run-PillInv es (pill_step e p) (step-PillInv e p v)

empty-All : (P : String → Type 0) (xs : List String) → (length xs == 0) ≡ true → All P xs
empty-All P [] h = tt
empty-All P (x ∷ xs) h = let clash : ⊥ = ground arith in absurd clash

prune-All :
    (items : List String) (p : Pill)
    → All (λ id. contains items id ≡ true) (prune items p).pending_new_ids
unfolding prune
prune-All items p = elim (Bool-cases (length p.pending_new_ids == 0)) [
  | inl e ↦ rw e (empty-All _ p.pending_new_ids e)
  | inr e ↦ rw e (filtered-All (contains items) p.pending_new_ids)
]

-- After any history of the list and then a render with a merge: the count of the pill is the number
-- of its ids, no id is in it twice, and every one of them is in the list.
pub pill_counts :
    (es : List PillEvent) (new_item_ids items : List String) (scroll_top : ℕ)
    → let p = pill_step (merges new_item_ids items scroll_top) (pill_run es initial_pill) in
      (p.pending_count ≡ length p.pending_new_ids)
      × Distinct p.pending_new_ids
      × All (λ id. contains items id ≡ true) p.pending_new_ids
unfolding pill_step
pill_counts es new_item_ids items scroll_top =
    let run = run-PillInv es initial_pill (record { count = refl; once = tt }) in
    let before = arrive new_item_ids scroll_top (pill_run es initial_pill) in
    let after =
      prune-PillInv items before
        (arrive-PillInv new_item_ids scroll_top (pill_run es initial_pill) run) in
    (after.count, after.once, prune-All items before)
