-- ===== src/Client/Merge/Parts.antt =====
-- How the parts of a list with distinct ids, newest first, lie to one another.
use mathlib.Core.List.{map-append}
use chimely.Prelude.{
  String, true, false, some, List, [], ◌∷◌, ◌++◌, ◌≡◌, refl, subst, arith, eq_iff, eq_refl,
  get_last?, All, ◌⊎◌, inl, inr, contains, Distinct, str_eq,
}
use chimely.Types.{InboxItem}
use chimely.Client.Merge.{ids, tail_after, overlaps, is_older_than}
use chimely.Client.Merge.Ids.{contains-append}
use chimely.Client.Merge.Order.{Ordered, All-map_implies}

-- The first list is a beginning of the second.
abbrev pub Begins : List InboxItem → List InboxItem → Type 0
Begins xs ys = (rest : List InboxItem) × (xs ++ rest ≡ ys)

-- Two beginnings of one list: one is a beginning of the other.
pub Begins-total :
    (xs ys rest rest' : List InboxItem) → xs ++ rest ≡ ys ++ rest' → Begins xs ys ⊎ Begins ys xs
Begins-total [] ys rest rest' e = inl (ys, refl)
Begins-total (x ∷ xs) [] rest rest' e = inr (x ∷ xs, refl)
Begins-total (x ∷ xs) (y ∷ ys) rest rest' e = elim (Begins-total xs ys rest rest' (cc)) [
  | inl (zs, h) ↦ inl (zs, cc)
  | inr (zs, h) ↦ inr (zs, cc)
]

pub All-right : (P : InboxItem → Type 0) (xs ys : List InboxItem) → All P (xs ++ ys) → All P ys
All-right P [] ys h = h
All-right P (x ∷ xs) ys h = All-right P xs ys h.1

-- An item of a list is found in it by its id.
own_ids : (xs : List InboxItem) → All (λ y. contains (ids xs) y.id ≡ true) xs
own_ids [] = tt
own_ids (x ∷ xs) =
    (ground (arith, eq_refl x.id), All-map_implies _ _ xs (λ y h. ground (arith, h)) (own_ids xs))

pub ids_behind : (xs ys : List InboxItem) → All (λ y. contains (ids (xs ++ ys)) y.id ≡ true) ys
ids_behind xs ys =
    All-map_implies _ _ ys
      (λ y h. rw map-append (ground (arith, h, contains-append (ids xs) (ids ys) y.id)))
      (own_ids ys)

pub ids_before :
    (xs ys : List InboxItem) (P : List InboxItem)
    → All (λ y. contains (ids xs) y.id ≡ true) P
    → All (λ y. contains (ids (xs ++ ys)) y.id ≡ true) P
ids_before xs ys P =
    All-map_implies _ _ P
      (λ y h. rw map-append (ground (arith, h, contains-append (ids xs) (ids ys) y.id)))

other_ids :
    (s : String) (xs ys : List InboxItem)
    → contains (ids (xs ++ ys)) s ≡ false
    → All (λ y. str_eq s y.id ≡ false) ys
other_ids s [] [] h = tt
other_ids s [] (y ∷ ys) h =
    (ground (arith, eq_iff s y.id, eq_iff y.id s), other_ids s [] ys (ground arith))
other_ids s (x ∷ xs) ys h = other_ids s xs ys (ground arith)

All-both :
    (P Q R : InboxItem → Type 0) (xs : List InboxItem)
    → ((x : InboxItem) → P x → Q x → R x)
    → All P xs
    → All Q xs
    → All R xs
All-both P Q R [] f h k = tt
All-both P Q R (x ∷ xs) f h k = (f x h.0 k.0, All-both P Q R xs f h.1 k.1)

-- With distinct ids, what stands behind a list is not in it.
pub behind_apart :
    (xs ys : List InboxItem)
    → Distinct (ids (xs ++ ys))
    → All (λ y. contains (ids xs) y.id ≡ false) ys
behind_apart [] ys h = none_in ys
  where
    none_in : (zs : List InboxItem) → All (λ y. contains [] y.id ≡ false) zs
    none_in [] = tt
    none_in (z ∷ zs) = (refl, none_in zs)
behind_apart (x ∷ xs) ys h =
    All-both _ _ _ ys (λ y p q. ground (arith, p, q)) (other_ids x.id xs ys h.0)
      (behind_apart xs ys h.1)

-- In order, what stands behind a list is older than its last item.
pub behind_older :
    (xs ys : List InboxItem) (last : InboxItem)
    → get_last? xs ≡ some last
    → Ordered (xs ++ ys)
    → All (λ y. is_older_than y last ≡ true) ys
behind_older [] ys last e h = cc
behind_older (x ∷ []) ys last e h =
    let same : x ≡ last = cc in subst (λ z. All (λ y. is_older_than y z ≡ true) ys) same h.0
behind_older (x ∷ x' ∷ xs) ys last e h = behind_older (x' ∷ xs) ys last e h.1

pub tail_after-append :
    (page : List InboxItem) (b : InboxItem) (xs ys : List InboxItem)
    → tail_after page b (xs ++ ys) ≡ tail_after page b xs ++ tail_after page b ys
tail_after-append page b [] ys = refl
tail_after-append page b (x ∷ xs) ys = ground (arith, tail_after-append page b xs ys)

pub tail_after_inside :
    (page : List InboxItem) (b : InboxItem) (xs : List InboxItem)
    → All (λ y. contains (ids page) y.id ≡ true) xs
    → tail_after page b xs ≡ []
tail_after_inside page b [] h = refl
tail_after_inside page b (x ∷ xs) h = ground (arith, tail_after_inside page b xs h.1)

pub tail_after_behind :
    (page : List InboxItem) (b : InboxItem) (xs : List InboxItem)
    → All (λ y. contains (ids page) y.id ≡ false) xs
    → All (λ y. is_older_than y b ≡ true) xs
    → tail_after page b xs ≡ xs
tail_after_behind page b [] h k = refl
tail_after_behind page b (x ∷ xs) h k = ground (arith, tail_after_behind page b xs h.1 k.1)

pub overlaps_apart :
    (page xs : List InboxItem)
    → All (λ y. contains (ids page) y.id ≡ false) xs
    → overlaps page xs ≡ false
overlaps_apart page [] h = refl
overlaps_apart page (x ∷ xs) h = ground (arith, overlaps_apart page xs h.1)
