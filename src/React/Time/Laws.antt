-- ===== src/React/Time/Laws.antt =====
-- The numbers that the formatter gets.
use chimely.Prelude.{
  ℕ, ◌+◌, ◌-◌, ◌*◌, ◌≤◌, ◌<◌, String, Option, some, ◌≡◌, arith, ltb, Bool-cases, inl, inr,
}
use chimely.React.Time.{
  RelativeText, verbatim, now, relative, on_date, minute, hour, day, direction, Direction,
  delta_seconds, by_magnitude, format_relative_time,
}

-- The whole units in a number of seconds.
abbrev Whole : (count size seconds : ℕ) → Type 0
Whole count size seconds = (1 ≤ count) × (count * size ≤ seconds) × (seconds < (count + 1) * size)

-- A text fits a time and a number of seconds.
abbrev pub FitsTime : RelativeText → ℕ → ℕ → Type 0
FitsTime (verbatim text) at seconds = ⊥
FitsTime now at seconds = seconds < 60
FitsTime (relative d count minute) at seconds = (count ≤ 59) × Whole count 60 seconds
FitsTime (relative d count hour) at seconds = (count ≤ 23) × Whole count 3600 seconds
FitsTime (relative d count day) at seconds = (count ≤ 6) × Whole count 86400 seconds
FitsTime (on_date shown) at seconds = (604800 ≤ seconds) × (shown ≡ at)

by_magnitude-FitsTime : (d : Direction) (at s : ℕ) → FitsTime (by_magnitude d at s) at s
by_magnitude-FitsTime d at s = elim (Bool-cases (ltb s 60)) [
  | inl e ↦ rw e (ground arith)
  | inr e ↦ elim (Bool-cases (ltb s 3600)) [
    | inl f ↦ rw (e, f) (ground arith)
    | inr f ↦ elim (Bool-cases (ltb s 86400)) [
      | inl g ↦ rw (e, f, g) (ground arith)
      | inr g ↦ elim (Bool-cases (ltb s 604800)) [
        | inl h ↦ rw (e, f, g, h) (ground arith)
        | inr h ↦ rw (e, f, g, h) (ground arith)
      ]
    ]
  ]
]

-- For a timestamp that can be parsed: "now" stands for less than a minute, minutes are 1 to 59, hours
-- 1 to 23 and days 1 to 6, each the whole units of the rounded distance, and from a week on there is
-- the date. The rounded distance in seconds is at most half a second off the one in milliseconds.
relative_time_fits :
    (parse : String → Option ℕ) (iso : String) (at now_ms : ℕ)
    → parse iso ≡ some at
    → FitsTime (format_relative_time parse iso now_ms) at (delta_seconds at now_ms)
      × (delta_seconds at now_ms * 1000 ≤ ((at - now_ms) + (now_ms - at)) + 500)
      × ((at - now_ms) + (now_ms - at) ≤ delta_seconds at now_ms * 1000 + 500)
unfolding format_relative_time delta_seconds
relative_time_fits parse iso at now_ms e = (
  rw (e, FitsTime) (by_magnitude-FitsTime (direction at now_ms) at (delta_seconds at now_ms)),
  ground arith,
  ground arith,
)
