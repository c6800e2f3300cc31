-- ===== src/Admin/Pages/Dashboard.antt =====
-- server/admin/src/routes/dashboard.tsx: the numbers of the cards and the bars of the chart.
use chimely.Prelude.{
  ℕ, suc, ◌+◌, String, Bool, false, Option, none, some, List, [], ◌∷◌, if◌then◌else◌, str_eq,
  eq_iff, filter, length, decimal, contains, Distinct, ltb, ◌≡◌, refl, sym, ap, arith, Bool-cases,
  inl, inr,
}
use mathlib.Core.Option.{some-injective}
use chimely.Admin.Records.{AdminDeadLetter}

-- `data ? data.length : '—'`, where a query has data.
unfoldable pub shown_count {ℓ} : {A : Type ℓ} → Option (List A) → String
shown_count none = "—"
shown_count (some data_rows) = decimal (length data_rows)

abbrev danger {ℓ} : {A : Type ℓ} → Option (List A) → Bool
danger none = false
danger (some data_rows) = ltb 0 (length data_rows)

-- `byEnv.set(slug, (byEnv.get(slug) ?? 0) + 1)`: a map keeps the order of the first insertions.
abbrev count_slug : String → List (String × ℕ) → List (String × ℕ)
count_slug slug [] = (slug, 1) ∷ []
count_slug slug ((name, count) ∷ by_env) =
    let later = count_slug slug by_env in
    if str_eq name slug then (name, suc count) ∷ by_env else (name, count) ∷ later

abbrev count_letters : List AdminDeadLetter → List (String × ℕ) → List (String × ℕ)
count_letters [] by_env = by_env
count_letters (l ∷ letters) by_env = count_letters letters (count_slug l.environment_slug by_env)

-- The bars, where there are letters; else none, and a text that the queue is clear.
unfoldable pub chart : List AdminDeadLetter → Option (List (String × ℕ))
chart [] = none
chart (l ∷ letters) = some (count_letters (l ∷ letters) [])

-- The height of the bar of an environment, 0 where it has none.
abbrev pub bar : String → List (String × ℕ) → ℕ
bar slug [] = 0
bar slug ((name, count) ∷ by_env) =
    let later = bar slug by_env in if str_eq name slug then count else later

abbrev pub slugs : List (String × ℕ) → List String
slugs [] = []
slugs ((name, count) ∷ by_env) = name ∷ slugs by_env

abbrev pub of_env : String → List AdminDeadLetter → List AdminDeadLetter
of_env slug = filter (λ l. str_eq l.environment_slug slug)

bar-count_slug :
    (slug name : String) (by_env : List (String × ℕ))
    → bar slug (count_slug name by_env) ≡ bar slug by_env + (if str_eq name slug then 1 else 0)
bar-count_slug slug name [] = ground arith
bar-count_slug slug name ((other, count) ∷ by_env) =
    ground (
      arith,
      eq_iff other name,
      eq_iff other slug,
      eq_iff name slug,
      bar-count_slug slug name by_env,
    )

contains-count_slug :
    (name other : String) (by_env : List (String × ℕ))
    → str_eq other name ≡ false
    → contains (slugs by_env) other ≡ false
    → contains (slugs (count_slug name by_env)) other ≡ false
contains-count_slug name other [] e h = ground (arith, eq_iff other name, eq_iff name other)
contains-count_slug name other ((first, count) ∷ by_env) e h =
    ground (arith, contains-count_slug name other by_env e)

count_slug-Distinct :
    (name : String) (by_env : List (String × ℕ))
    → Distinct (slugs by_env)
    → Distinct (slugs (count_slug name by_env))
count_slug-Distinct name [] d = (refl, tt)
count_slug-Distinct name ((other, count) ∷ by_env) d = elim (Bool-cases (str_eq other name)) [
  | inl e ↦ rw e d
  | inr e ↦ rw e (contains-count_slug name other by_env e d.0, count_slug-Distinct name by_env d.1)
]

bar-count_letters :
    (slug : String) (letters : List AdminDeadLetter) (by_env : List (String × ℕ))
    → bar slug (count_letters letters by_env) ≡ bar slug by_env + length (of_env slug letters)
bar-count_letters slug [] by_env = omega arith
bar-count_letters slug (l ∷ letters) by_env = ground (
  arith,
  bar-count_slug slug l.environment_slug by_env,
  bar-count_letters slug letters (count_slug l.environment_slug by_env),
)

count_letters-Distinct :
    (letters : List AdminDeadLetter) (by_env : List (String × ℕ))
    → Distinct (slugs by_env)
    → Distinct (slugs (count_letters letters by_env))
count_letters-Distinct [] by_env d = d
count_letters-Distinct (l ∷ letters) by_env d =
    count_letters-Distinct letters (count_slug l.environment_slug by_env)
      (count_slug-Distinct l.environment_slug by_env d)

-- The heights of all bars together.
abbrev pub total : List (String × ℕ) → ℕ
total [] = 0
total ((name, count) ∷ by_env) = count + total by_env

total-count_slug :
    (name : String) (by_env : List (String × ℕ))
    → total (count_slug name by_env) ≡ suc (total by_env)
total-count_slug name [] = refl
total-count_slug name ((other, count) ∷ by_env) = ground (arith, total-count_slug name by_env)

total-count_letters :
    (letters : List AdminDeadLetter) (by_env : List (String × ℕ))
    → total (count_letters letters by_env) ≡ total by_env + length letters
total-count_letters [] by_env = omega arith
total-count_letters (l ∷ letters) by_env = omega (
  arith,
  total-count_slug l.environment_slug by_env,
  total-count_letters letters (count_slug l.environment_slug by_env),
)

-- The chart of some letters has one bar for an environment, as high as the number of the letters that
-- are of it, and its bars together are as high as the number that the card shows.
pub chart_counts :
    (slug : String) (letters : List AdminDeadLetter) (bars : List (String × ℕ))
    → chart letters ≡ some bars
    → Distinct (slugs bars)
      × (bar slug bars ≡ length (of_env slug letters))
      × (shown_count (some letters) ≡ decimal (total bars))
unfolding chart shown_count
chart_counts slug [] bars h = cc
chart_counts slug (l ∷ letters) bars h =
    let same : count_letters (l ∷ letters) [] ≡ bars =
      some-injective (count_letters (l ∷ letters) []) bars h in
    rw (sym same) (
      count_letters-Distinct (l ∷ letters) [] tt,
      omega (arith, bar-count_letters slug (l ∷ letters) []),
      ap decimal (omega (arith, total-count_letters (l ∷ letters) [])),
    )
