-- ===== src/Store/Laws.antt =====
-- Who is told of a patch.
use chimely.Prelude.{
  ℕ, suc, ◌+◌, true, false, not, List, [], ◌∷◌, ◌++◌, ◌≡◌, refl, arith, ◌==◌, any, filter,
  Bool-cases, inl, inr, if◌then◌else◌,
}
use chimely.Store.{InboxStore, Patch, patch, subscribe, unsubscribe}

-- How often a listener stands in a list.
abbrev pub times : ℕ → List ℕ → ℕ
times l [] = 0
times l (x ∷ xs) = let rest = times l xs in if x == l then suc rest else rest

-- No listener twice.
abbrev Single : List ℕ → Type 0
Single [] = Unit
Single (x ∷ xs) = (any (λ y. y == x) xs ≡ false) × Single xs

times-append : (l : ℕ) (xs ys : List ℕ) → times l (xs ++ ys) ≡ times l xs + times l ys
times-append l [] ys = omega arith
times-append l (x ∷ xs) ys = ground (arith, times-append l xs ys)

times_none : (l : ℕ) (xs : List ℕ) → any (λ x. x == l) xs ≡ false → times l xs ≡ 0
times_none l [] h = refl
times_none l (x ∷ xs) h = ground (arith, times_none l xs)

times_one : (l : ℕ) (xs : List ℕ) → Single xs → any (λ x. x == l) xs ≡ true → times l xs ≡ 1
times_one l [] s h = cc
times_one l (x ∷ xs) s h = ground (arith, times_one l xs s.1, times_none l xs)

times_removed : (l : ℕ) (xs : List ℕ) → times l (filter (λ x. not (x == l)) xs) ≡ 0
times_removed l [] = refl
times_removed l (x ∷ xs) = ground (arith, times_removed l xs)

-- In a store with no listener twice: a listener that has subscribed, once or again, is called exactly
-- once by the next patch, and one that has unsubscribed is not called.
patch_calls :
    (s : InboxStore) (l : ℕ) (p : Patch)
    → Single s.listeners
    → (times l (patch (subscribe s l) p).calls ≡ times l s.calls + 1)
      × (times l (patch (unsubscribe s l) p).calls ≡ times l s.calls)
unfolding subscribe unsubscribe
patch_calls s l p h = (
  elim (Bool-cases (any (λ x. x == l) s.listeners)) [
    | inl e ↦ rw e (rw times-append (ground (arith, times_one l s.listeners h e)))
    | inr e ↦ rw e (
        rw times-append
          (ground (arith, times-append l s.listeners (l ∷ []), times_none l s.listeners e)))
  ],
  rw times-append (ground (arith, times_removed l s.listeners)),
)
