-- ===== src/React/Tabs/Laws.antt =====
-- Where the keys lead, and which arrivals a tab shows.
use native.Mathlib.Nat.{mod-eq_of_lt, mod_self, add-mod_right}
use chimely.Prelude.{
  ℕ, zero, suc, ◌+◌, ◌-◌, ◌%◌, ◌<◌, String, Bool, false, ◌&&◌, none, some, List, [], ◌∷◌, ◌≡◌, refl,
  arith, str_eq, eq_iff, filter, contains, Bool-cases, inl, inr, ◌∙◌, ap, dec_lt, Distinct,
}
use chimely.Types.{InboxItem}
use chimely.Client.Merge.{ids}
use chimely.React.Tabs.{
  Key, arrow_right, arrow_left, home_key, end_key, next_tab, active_index, visible_items,
  visible_new_item_ids, by_id, shows,
}

wraps_left : (n i : ℕ) → suc i < n → ((suc i + n) - 1) % n ≡ i
wraps_left n i h =
    let e : (suc i + n) - 1 ≡ i + n = omega arith in
    let k : i < n = omega arith in rw e (add-mod_right i n ∙ mod-eq_of_lt k)

wraps_first : (n : ℕ) → 0 < n → ((0 + n) - 1) % n ≡ n - 1
wraps_first n h =
    let k : (0 + n) - 1 < n = omega arith in
    let e : (0 + n) - 1 ≡ n - 1 = omega arith in mod-eq_of_lt k ∙ e

-- A tab to which one arrow leads and from which the other leads back.
abbrev Inverse : Key → Key → ℕ → ℕ → Type 0
Inverse key back n i =
    (j : ℕ) × (j < n) × (next_tab n key i ≡ some j) × (next_tab n back j ≡ some i)

right_then_left : (n i : ℕ) → i < n → Inverse arrow_right arrow_left n i
unfolding next_tab
right_then_left n i h = elim (dec_lt (i + 1) n) [
  | yes k ↦
      let l : suc i < n = omega arith in
      let e : i + 1 ≡ suc i = omega arith in
      (i + 1, k, ap some (mod-eq_of_lt k), rw e (ap some (wraps_left n i l)))
  | no k ↦
      let e : i + 1 ≡ n = omega arith in
      let p : 0 < n = omega arith in
      let back : n - 1 ≡ i = omega arith in
      (0, p, ap some (ap (λ z. z % n) e ∙ mod_self n), ap some (wraps_first n p ∙ back))
]

left_then_right : (n i : ℕ) → i < n → Inverse arrow_left arrow_right n i
unfolding next_tab
left_then_right n zero h =
    let l : n - 1 < n = omega arith in
    let e : n - 1 + 1 ≡ n = omega arith in
    (n - 1, l, ap some (wraps_first n h), ap some (ap (λ z. z % n) e ∙ mod_self n))
left_then_right n (suc i) h =
    let l : i < n = omega arith in
    let k : i + 1 < n = omega arith in
    let e : i + 1 ≡ suc i = omega arith in
    (i, l, ap some (wraps_left n i h), ap some (mod-eq_of_lt k ∙ e))

-- From any tab of a strip: each arrow leads to a tab of the strip, from which the other arrow leads
-- back, Home and End lead to a tab too, and the active tab is one of the strip, whatever the index
-- that was chosen.
arrows_invert :
    (n i chosen : ℕ)
    → i < n
    → Inverse arrow_right arrow_left n i
      × Inverse arrow_left arrow_right n i
      × ((j : ℕ) × (j < n) × (next_tab n home_key i ≡ some j))
      × ((j : ℕ) × (j < n) × (next_tab n end_key i ≡ some j))
      × (active_index n chosen < n)
unfolding next_tab
arrows_invert n i chosen h =
    let first : 0 < n = omega arith in
    let last : n - 1 < n = omega arith in
    (
      right_then_left n i h,
      left_then_right n i h,
      (0, first, refl),
      (n - 1, last, refl),
      omega arith,
    )

absent :
    (f : InboxItem → Bool) (xs : List InboxItem) (id : String)
    → contains (ids xs) id ≡ false
    → (by_id xs id ≡ none) × (contains (ids (visible_items f xs)) id ≡ false)
absent f [] id h = (refl, refl)
absent f (x ∷ xs) id h = ground (arith, absent f xs id)

shows-by_id :
    (f : InboxItem → Bool) (xs : List InboxItem) (id : String)
    → Distinct (ids xs)
    → shows f (by_id xs id) ≡ contains (ids (visible_items f xs)) id
shows-by_id f [] id d = refl
shows-by_id f (x ∷ xs) id d = elim (Bool-cases (str_eq x.id id)) [
  | inl e ↦ ground (arith, absent f xs id, eq_iff x.id id)
  | inr e ↦ ground (arith, shows-by_id f xs id d.1)
]

contains-filtered_ids :
    (p : String → Bool) (xs : List String) (s : String)
    → contains (filter p xs) s ≡ (contains xs s && p s)
contains-filtered_ids p [] s = refl
contains-filtered_ids p (x ∷ xs) s = ground (arith, contains-filtered_ids p xs s, eq_iff x s)

-- Where the loaded ids are distinct: the arrivals that a tab hands to the pill are those of the merge
-- that are among the items which the tab shows.
arrivals_shown :
    (f : InboxItem → Bool) (items : List InboxItem) (new_item_ids : List String) (id : String)
    → Distinct (ids items)
    → contains (visible_new_item_ids f items new_item_ids) id
      ≡ (contains new_item_ids id && contains (ids (visible_items f items)) id)
unfolding visible_new_item_ids
arrivals_shown f items new_item_ids id d =
    contains-filtered_ids (λ i. shows f (by_id items i)) new_item_ids id
    ∙ ap (λ b. contains new_item_ids id && b) (shows-by_id f items id d)
