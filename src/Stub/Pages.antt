-- ===== src/Stub/Pages.antt =====
-- The page behind a cursor, for rows that are newest first.
use mathlib.Core.Option.{some-injective}
use chimely.Prelude.{
  ℕ, zero, suc, ◌+◌, ◌≤◌, ◌<◌, String, true, false, Option, none, some, List, [], ◌∷◌, ◌++◌, ◌≡◌,
  refl, sym, ap, ◌∙◌, arith, inl, inr, Bool-cases, eq_iff, eq_refl, text_lt_irrefl, All, All-left,
  All-last, All-filter, Option-cases, ◌-◌, none-some, length, length-append, get_last?, ltb,
  if◌then◌else◌, is_some,
}
use chimely.Types.{WireInboxItem}
use chimely.Stub.{Platform, is_after}
use chimely.Stub.Order.{Newest, is_after_trans}
use chimely.Stub.Listing.{
  take, drop, is_behind, find_index, start_of, next_cursor_of, page_behind, in_view, visible,
}

-- The cursor that stands behind a list of rows.
abbrev pub cursor_behind : Platform → Option WireInboxItem → Option String
cursor_behind p none = none
cursor_behind p (some last) = some (p.stringify last.occurred_at last.id)

is_behind_after : (a b : WireInboxItem) → is_behind (a.occurred_at, a.id) b ≡ is_after b a
is_behind_after a b = ground (
  arith,
  eq_iff a.occurred_at b.occurred_at,
  eq_iff b.occurred_at a.occurred_at,
  text_lt_irrefl a.occurred_at,
)

is_after_irrefl : (a : WireInboxItem) → is_after a a ≡ false
is_after_irrefl a = ground (arith, eq_refl a.occurred_at, text_lt_irrefl a.id)

is_after_asym : (a b : WireInboxItem) → is_after a b ≡ true → is_after b a ≡ false
is_after_asym a b h = elim (Bool-cases (is_after b a)) [
  | inl e ↦ ground (arith, is_after_trans a b a h e, is_after_irrefl a)
  | inr e ↦ e
]

find_index_first :
    (last : WireInboxItem) (rest : List WireInboxItem)
    → All (λ y. is_after y last ≡ true) rest
    → find_index (is_behind (last.occurred_at, last.id)) rest ≡ 0
find_index_first last [] h = refl
find_index_first last (y ∷ rest) h = ground (arith, is_behind_after last y, h.0)

-- Behind the last of the loaded rows come the others.
find_index-Newest :
    (front rest : List WireInboxItem) (last : WireInboxItem)
    → Newest (front ++ rest)
    → get_last? front ≡ some last
    → find_index (is_behind (last.occurred_at, last.id)) (front ++ rest) ≡ length front
find_index-Newest [] rest last n e = elim (none-some e) [ ]
find_index-Newest (x ∷ []) rest last n e =
    let same = some-injective x last e in
    ground (arith, is_behind_after last x, is_after_irrefl x, same, find_index_first x rest n.0)
find_index-Newest (x ∷ y ∷ front) rest last n e =
    let before =
      All-last (λ z. is_after z x ≡ true) (y ∷ front) last e
        (All-left (λ z. is_after z x ≡ true) (y ∷ front) rest n.0) in
    ground (
      arith,
      is_behind_after last x,
      is_after_asym last x before,
      find_index-Newest (y ∷ front) rest last n.1 e,
    )

drop-append : (front rest : List WireInboxItem) → drop (length front) (front ++ rest) ≡ rest
drop-append [] rest = refl
drop-append (x ∷ front) rest = drop-append front rest

pub take-drop : (n : ℕ) (xs : List WireInboxItem) → take n xs ++ drop n xs ≡ xs
take-drop zero xs = refl
take-drop (suc n) [] = refl
take-drop (suc n) (x ∷ xs) = ap (λ z. x ∷ z) (take-drop n xs)

pub length-drop : (n : ℕ) (xs : List WireInboxItem) → length (drop n xs) ≡ length xs - n
length-drop zero xs = omega arith
length-drop (suc n) [] = omega arith
length-drop (suc n) (x ∷ xs) = omega (arith, length-drop n xs)

no_last : (front : List WireInboxItem) → get_last? front ≡ none → length front ≡ 0
no_last [] e = refl
no_last (x ∷ []) e = elim (none-some (sym e)) [ ]
no_last (x ∷ y ∷ front) e = omega (arith, no_last (y ∷ front) e)

start_of-Newest :
    (p : Platform) (front rest : List WireInboxItem)
    → Newest (front ++ rest)
    → start_of p (cursor_behind p (get_last? front)) (front ++ rest) ≡ length front
start_of-Newest p front rest n = elim (Option-cases (get_last? front)) [
  | inl e ↦ rw e (sym (no_last front e))
  | inr (last, e) ↦ rw e (
      ap (λ z. find_index (is_behind z) (front ++ rest))
        (p.parse_stringify last.occurred_at last.id)
      ∙ find_index-Newest front rest last n e)
]

next_cursor_of-true :
    (p : Platform) (last : Option WireInboxItem) → next_cursor_of p true last ≡ cursor_behind p last
next_cursor_of-true p none = refl
next_cursor_of-true p (some last) = refl

get_last?-behind :
    (front : List WireInboxItem) (y : WireInboxItem) (ys : List WireInboxItem)
    → get_last? (front ++ y ∷ ys) ≡ get_last? (y ∷ ys)
get_last?-behind [] y ys = refl
get_last?-behind (x ∷ []) y ys = refl
get_last?-behind (x ∷ z ∷ front) y ys = get_last?-behind (z ∷ front) y ys

-- A page of at least one row has a last row where more rows follow.
last_of_take :
    (limit : ℕ) (front rest : List WireInboxItem)
    → 0 < limit
    → limit < length rest
    → get_last? (take limit rest) ≡ get_last? (front ++ take limit rest)
last_of_take zero front rest h k = let no : ⊥ = omega arith in elim no [ ]
last_of_take (suc n) front [] h k = let no : ⊥ = omega arith in elim no [ ]
last_of_take (suc n) front (y ∷ rest) h k = sym (get_last?-behind front y (take n rest))

ltb_shift :
    (front rest : List WireInboxItem) (limit : ℕ)
    → ltb (length front + limit) (length (front ++ rest)) ≡ ltb limit (length rest)
ltb_shift front rest limit = ground (arith, length-append front rest)

-- The page behind the loaded rows: the next rows, with the cursor behind them where there are more.
pub page_behind-Newest :
    (p : Platform) (limit : ℕ) (front rest : List WireInboxItem)
    → 0 < limit
    → Newest (front ++ rest)
    → page_behind p (cursor_behind p (get_last? front)) limit (front ++ rest) ≡ record {
      items = take limit rest;
      next_cursor =
          if ltb limit (length rest)
          then cursor_behind p (get_last? (front ++ take limit rest))
          else none;
    }
unfolding page_behind
page_behind-Newest p limit front rest h n = elim (Bool-cases (ltb limit (length rest))) [
  | inl e ↦
      let more : limit < length rest = ground arith in
      rw
        (
          start_of-Newest p front rest n,
          page_behind,
          drop-append front rest,
          ltb_shift front rest limit,
          e,
          next_cursor_of-true p (get_last? (take limit rest)),
          last_of_take limit front rest h more,
        )
        refl
  | inr e ↦
      rw
        (
          start_of-Newest p front rest n,
          page_behind,
          drop-append front rest,
          ltb_shift front rest limit,
          e,
        )
        refl
]

pub true-false : true ≡ false → ⊥
true-false h = cc

empty_of : (rows : List WireInboxItem) → length rows ≡ 0 → rows ≡ []
empty_of [] e = refl
empty_of (x ∷ rows) e = let no : ⊥ = omega (arith, e) in elim no [ ]

cursor_there :
    (p : Platform) (rows : List WireInboxItem)
    → 0 < length rows
    → is_some (cursor_behind p (get_last? rows)) ≡ true
cursor_there p rows h = elim (Option-cases (get_last? rows)) [
  | inl e ↦ let no : ⊥ = omega (arith, no_last rows e) in elim no [ ]
  | inr (last, e) ↦ rw e refl
]

length-take : (n : ℕ) (rows : List WireInboxItem) → n ≤ length rows → length (take n rows) ≡ n
length-take zero rows h = refl
length-take (suc n) [] h = let no : ⊥ = omega arith in elim no [ ]
length-take (suc n) (x ∷ rows) h = omega (arith, length-take n rows)

abbrev pub next_of : Platform → ℕ → List WireInboxItem → List WireInboxItem → Option String
next_of p limit front rest =
    if ltb limit (length rest) then cursor_behind p (get_last? (front ++ take limit rest)) else none

-- The next cursor stands behind the page while there are rows behind it.
pub next_of-cases :
    (p : Platform) (limit : ℕ) (front rest : List WireInboxItem)
    → 0 < limit
    → (is_some (next_of p limit front rest) ≡ true
        → next_of p limit front rest ≡ cursor_behind p (get_last? (front ++ take limit rest)))
      × (is_some (next_of p limit front rest) ≡ false → drop limit rest ≡ [])
next_of-cases p limit front rest h = elim (Bool-cases (ltb limit (length rest))) [
  | inl e ↦
      let more : limit < length rest = ground arith in
      let there =
        cursor_there p (front ++ take limit rest)
          (omega (arith, length-append front (take limit rest), length-take limit rest, more)) in
      rw e ((λ k. refl), (λ k. elim (true-false (sym there ∙ k)) [ ]))
  | inr e ↦
      let few : length rest ≤ limit = ground arith in
      rw e (
        (λ k. elim (true-false (sym k)) [ ]),
        (λ k. empty_of (drop limit rest) (omega (arith, length-drop limit rest, few))),
      )
]

pub next_of-some :
    (p : Platform) (limit : ℕ) (front rest : List WireInboxItem)
    → is_some (next_of p limit front rest) ≡ true
    → limit < length rest
next_of-some p limit front rest h = ground arith

-- The rows of a view are newest first too.
pub visible-Newest :
    (view : Option String) (rows : List WireInboxItem) → Newest rows → Newest (visible view rows)
visible-Newest view [] n = tt
visible-Newest view (row ∷ rows) n = elim (Bool-cases (in_view view row)) [
  | inl e ↦ rw e (
    All-filter (λ y. is_after y row ≡ true) (in_view view) rows n.0,
    visible-Newest view rows n.1,
  )
  | inr e ↦ rw e (visible-Newest view rows n.1)
]
