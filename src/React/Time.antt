-- ===== src/React/Time.antt =====
-- formatRelativeTime and useNow of packages/react/src/time.ts. The result is what goes to the formatter of
-- Intl.RelativeTimeFormat, before it is put into the words of a locale. `Date.parse` is an argument;
-- an epoch time is not negative.
pub mod Laws
use chimely.Prelude.{ℕ, ◌+◌, ◌-◌, ◌/◌, String, Option, none, some, if◌then◌else◌, ltb, leb, is_some}

pub data Direction : Type 0 where
  ahead ago : Direction

pub data TimeUnit : Type 0 where
  minute hour day : TimeUnit

pub data RelativeText : Type 0 where
  verbatim : String → RelativeText
  now : RelativeText
  relative : Direction → ℕ → TimeUnit → RelativeText
  on_date : ℕ → RelativeText

abbrev pub direction : ℕ → ℕ → Direction
direction at now_ms = if leb now_ms at then ahead else ago

-- The magnitude of `Math.round((then - now) / 1000)`: a half goes up, so to zero in the past.
unfoldable pub delta_seconds : ℕ → ℕ → ℕ
delta_seconds at now_ms =
    if leb now_ms at then ((at - now_ms) + 500) / 1000 else ((now_ms - at) + 499) / 1000

abbrev pub by_magnitude : Direction → ℕ → ℕ → RelativeText
by_magnitude d at magnitude =
    if ltb magnitude 60
    then now
    else if ltb magnitude 3600
    then relative d (magnitude / 60) minute
    else if ltb magnitude 86400
    then relative d (magnitude / 3600) hour
    else if ltb magnitude 604800
    then relative d (magnitude / 86400) day
    else on_date at

unfoldable pub format_relative_time : (String → Option ℕ) → String → ℕ → RelativeText
format_relative_time parse iso now_ms = elim (parse iso) [
  | none ↦ verbatim iso
  | some at ↦ by_magnitude (direction at now_ms) at (delta_seconds at now_ms)
]

-- useNow: the state, and the interval that the platform runs for it, if one does.
pub record Clock : Type 0 where
  pub now_ms : ℕ
  pub interval_ms : Option ℕ

-- The first render with its effect; a later one, of whose effects the cleanup comes first.
abbrev pub use_now : Option ℕ → ℕ → Clock
use_now interval_ms date_now = record { now_ms = date_now; interval_ms = interval_ms }

abbrev pub change_interval : Option ℕ → Clock → Clock
change_interval interval_ms clock = record clock { interval_ms = interval_ms }

abbrev pub tick : ℕ → Clock → Clock
tick date_now clock =
    if is_some clock.interval_ms then record clock { now_ms = date_now } else clock

abbrev pub stop_clock : Clock → Clock
stop_clock clock = record clock { interval_ms = none }
