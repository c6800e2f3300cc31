-- ===== src/Bench/Percentiles.antt =====
-- pct and summarize of bench/sse/sse-load.mjs. A sample is a number of ticks. The program asks for three
-- percents only, which are the type of the argument here.
pub mod Laws
pub mod Ranks
use chimely.Prelude.{
  ℕ, zero, suc, ◌+◌, ◌-◌, ◌*◌, ◌/◌, min, Bool, true, false, Option, none, some, List, [], ◌∷◌,
  length, get_elem?, get_last?, if◌then◌else◌, leb,
}

unfoldable pub insert : ℕ → List ℕ → List ℕ
insert x [] = x ∷ []
insert x (y ∷ ys) = let later = insert x ys in if leb x y then x ∷ y ∷ ys else y ∷ later

-- `[...arr].sort((a, b) => a - b)`.
unfoldable pub sort : List ℕ → List ℕ
sort [] = []
sort (x ∷ xs) = insert x (sort xs)

-- The percents that summarize asks for.
pub data Percent : Type 0 where
  percent_50 percent_95 percent_99 : Percent

abbrev pub percent : Percent → ℕ
percent percent_50 = 50
percent percent_95 = 95
percent percent_99 = 99

-- `Math.ceil((p / 100) * n)`. At these percents and for the length of an array, below 2 ^ 32, the
-- rounding of the platform does not show: 50 / 100 is exact, and 95 / 100 and 99 / 100 are rounded
-- down, by less than 2 ^ -54. So where the exact product is whole, the one that is computed is at most
-- it and less than 1 below; else it stays above the whole number below, at a distance of 0.01 at least.
abbrev pub rank : Percent → ℕ → ℕ
rank p n = (percent p * n + 99) / 100

unfoldable pub pct : List ℕ → Percent → Option ℕ
pct [] p = none
pct (x ∷ xs) p = get_elem? (x ∷ xs) (min (length xs) (rank p (suc (length xs)) - 1))

pub record Summary : Type 0 where
  pub count : ℕ
  pub p50 : Option ℕ
  pub p95 : Option ℕ
  pub p99 : Option ℕ
  pub greatest : Option ℕ

unfoldable pub summarize : List ℕ → Summary
summarize arr =
    let s = sort arr in
    record {
      count = length s;
      p50 = pct s percent_50;
      p95 = pct s percent_95;
      p99 = pct s percent_99;
      greatest = get_last? s;
    }
