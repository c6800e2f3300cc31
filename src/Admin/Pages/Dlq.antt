-- ===== src/Admin/Pages/Dlq.antt =====
-- DlqRoute of server/admin/src/routes/dlq.tsx. The text of an error is a string of JavaScript.
use chimely.Prelude.{
  ℕ, zero, suc, ◌+◌, ◌≤◌, String, ◌+++◌, Bool, true, false, not, ◌&&◌, ◌||◌, Option, none, some,
  List, [], ◌∷◌, ◌++◌, if◌then◌else◌, ltb, ◌==◌, str_eq, decimal, length, length-append, all, ◌≡◌,
  refl, Bool-cases, inl, inr, arith,
}
use chimely.Prelude.Units.{Units, is_newline, split_lines}
use chimely.Admin.Records.{AdminMe, AdminDeadLetter, AdminReplayResult}
use chimely.Admin.Api.{Outcome, value}
use chimely.Admin.Api.Endpoints.{replay_dead_letter, replay_all_dead_letters}
use chimely.Admin.Session.{dlq_replay, has}
use chimely.Admin.Pages.{
  success_toast, error_toast, Log, empty_log, send, toast, invalidate, fail_message, is_success,
}

-- `s.slice(0, n)`.
unfoldable pub slice_to : ℕ → Units → Units
slice_to n [] = []
slice_to zero (c ∷ s) = []
slice_to (suc n) (c ∷ s) = c ∷ slice_to n s

-- The first line, cut behind n units, with an ellipsis where it is longer.
unfoldable pub truncate : Units → ℕ → Units
truncate s n =
    let first = (split_lines s).0 in
    if ltb n (length first) then slice_to n first ++ 0x2026 ∷ [] else first

pub record Dlq : Type 0 where
  pub expanded : Option String
  pub one_pending : Bool
  pub all_pending : Bool
  pub log : Log

abbrev pub new_dlq : Dlq
new_dlq = record { expanded = none; one_pending = false; all_pending = false; log = empty_log }

pub data DlqEvent : Type 0 where
  toggles : (id : String) → DlqEvent
  replays : (job_id : String) → DlqEvent
  replay_settles : Outcome AdminReplayResult → DlqEvent
  replays_all : DlqEvent
  all_settles : Outcome AdminReplayResult → DlqEvent

abbrev pub is_expanded : String → Option String → Bool
is_expanded id none = false
is_expanded id (some other) = str_eq other id

abbrev pub dlq_key : List String
dlq_key = "dlq" ∷ []

-- `onSuccess` of replayAll reads the count, so with none it throws.
abbrev pub all_result : Outcome AdminReplayResult → Log → Log
all_result (value r) log = invalidate dlq_key (
    toast
      (success_toast
        ("Replayed " +++ (decimal r.replayed +++ (if r.replayed == 1 then " job" else " jobs"))))
      log)
all_result outcome log = toast (error_toast (fail_message "Replay failed" outcome)) log

-- One event of the page, for a user and the letters that it shows.
unfoldable pub step_dlq : AdminMe → List AdminDeadLetter → DlqEvent → Dlq → Dlq
step_dlq user letters (toggles id) page = record page {
  expanded = if is_expanded id page.expanded then none else some id;
}
step_dlq user letters (replays job_id) page =
    if has user dlq_replay && not page.one_pending
    then record page { one_pending = true; log = send (replay_dead_letter job_id) page.log }
    else page
step_dlq user letters (replay_settles outcome) page =
    if not page.one_pending
    then page
    else if is_success outcome
    then record page {
      one_pending = false;
      log =
          invalidate dlq_key
            (toast (success_toast "Replayed — re-entered the normal claim path") page.log);
    }
    else record page {
      one_pending = false;
      log = toast (error_toast (fail_message "Replay failed" outcome)) page.log;
    }
step_dlq user letters replays_all page =
    if has user dlq_replay && not (page.all_pending || length letters == 0)
    then record page { all_pending = true; log = send replay_all_dead_letters page.log }
    else page
step_dlq user letters (all_settles outcome) page =
    if page.all_pending
    then record page { all_pending = false; log = all_result outcome page.log }
    else page

-- The text of an error in its row.
abbrev pub shown_error : Dlq → String → Units → Units
shown_error page id error = if is_expanded id page.expanded then error else truncate error 60

length-slice_to : (n : ℕ) (s : Units) → length (slice_to n s) ≤ n
unfolding slice_to
length-slice_to n [] = omega arith
length-slice_to zero (c ∷ s) = omega arith
length-slice_to (suc n) (c ∷ s) = omega (arith, length-slice_to n s)

one_line : (s : Units) → all (λ c. not (is_newline c)) (split_lines s).0 ≡ true
unfolding split_lines
one_line [] = refl
one_line (c ∷ s) = elim (Bool-cases (is_newline c)) [
  | inl e ↦ rw e refl
  | inr e ↦ let rest = one_line s in ground arith
]

slice_one_line :
    (n : ℕ) (s : Units)
    → all (λ c. not (is_newline c)) s ≡ true
    → all (λ c. not (is_newline c)) (slice_to n s ++ 0x2026 ∷ []) ≡ true
unfolding slice_to
slice_one_line n [] h = refl
slice_one_line zero (c ∷ s) h = refl
slice_one_line (suc n) (c ∷ s) h = ground (arith, slice_one_line n s)

-- A truncated text has no line end, and is at most n units and an ellipsis long.
truncate-one_line :
    (s : Units) (n : ℕ)
    → (length (truncate s n) ≤ n + 1) × (all (λ c. not (is_newline c)) (truncate s n) ≡ true)
unfolding truncate
truncate-one_line s n =
    let first = (split_lines s).0 in
    elim (Bool-cases (ltb n (length first))) [
      | inl e ↦ rw e (
        omega (arith, length-append (slice_to n first) (0x2026 ∷ []), length-slice_to n first),
        slice_one_line n first (one_line s),
      )
      | inr e ↦ rw e (ground arith, one_line s)
    ]
