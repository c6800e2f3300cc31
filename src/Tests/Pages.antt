-- ===== src/Tests/Pages.antt =====
-- The pages of the admin console at concrete inputs.
use chimely.Prelude.{
  ℕ, String, decimal, Distinct, length, units, first_of, true, false, some, none, List, [], ◌∷◌,
  ◌++◌, ◌≡◌, refl,
}
use chimely.Types.{no_fields, field_then, json_string}
use chimely.Admin.Pages.Dashboard.{slugs, bar, of_env, total, shown_count, chart, chart_counts}
use chimely.Admin.Pages.Parts.{copies, field_after, field_text, masked_tells_length}
use chimely.Admin.Records.{AdminDeadLetter, AdminUserView, AdminApiKeyCreated, viewer, operator}
use chimely.Admin.Api.{value}
use chimely.Admin.Pages.{empty_log}
use chimely.Admin.Pages.Users.{
  RowEvent, picks_role, presses_disable, delete_open, presses_delete, row_after, ResetEvent,
  reset_open, presses_set, set_settles, close_reset, sets_password, reset_settles,
}
use chimely.Admin.Pages.Users.Own.{Own, row_after-Own}
use chimely.Admin.Pages.Users.Shared.{
  reset_after, account_password, Attended, shown_password, closed_early,
}
use chimely.Admin.Pages.Environment.{
  KeyEvent, key_open, edits_name, submits_key, key_settles, key_after, step_key,
}
use chimely.Admin.Pages.Environment.Laws.{created_key_stays}
use chimely.Admin.Pages.Broadcasts.{Compose, payload_of}
use chimely.Admin.Pages.Broadcasts.Laws.{field, extra_field, named, field-payload_of}
use chimely.Admin.Pages.Notifications.{
  Dates, BrowseEvent, types_category, applies, loads_more, browse_after, submitted, Browsed,
  browse_after-Browsed,
}

abbrev ada_row : AdminUserView
ada_row = record {
  id = "u1";
  email = "ada@chimely.dev";
  name = "Ada";
  role = operator;
  disabled = false;
  created_at = "2026-01-01";
  updated_at = "2026-01-01";
}

abbrev own_history : List (AdminUserView × RowEvent)
own_history =
    (ada_row, presses_delete)
    ∷ (ada_row, delete_open true)
    ∷ (ada_row, presses_disable)
    ∷ (ada_row, picks_role viewer)
    ∷ []

row_after-Own_example : Own (row_after "u1" "first" own_history)
row_after-Own_example = row_after-Own "u1" "first" own_history (refl, (refl, (refl, (refl, tt))))

abbrev resetting : List ResetEvent
resetting = set_settles (value tt) ∷ presses_set ∷ reset_open true "second" ∷ []

resetting-Attended : Attended ada_row "first" resetting
resetting-Attended = (refl, tt)

resetting_done : (reset_after ada_row "first" resetting).done ≡ true
unfolding close_reset sets_password reset_settles
resetting_done = refl

shown_password_example :
    account_password ada_row "first" resetting
    ≡ some (reset_after ada_row "first" resetting).password
shown_password_example = shown_password ada_row "first" resetting resetting-Attended resetting_done

-- Closed and opened again while the call is under way.
abbrev reopened : List ResetEvent
reopened = reset_open true "third" ∷ reset_open false "second" ∷ []

abbrev opened : List ResetEvent
opened = reset_open true "third" ∷ []

closed_early_example :
    let settled = set_settles (value tt) ∷ (reopened ++ presses_set ∷ opened) in
    ((reset_after ada_row "first" settled).done ≡ true)
    × (account_password ada_row "first" settled ≡ some "first")
    × ((reset_after ada_row "first" settled).password ≡ "second")
unfolding close_reset
closed_early_example = closed_early ada_row "first" opened reopened refl refl refl tt

abbrev ci_key : AdminApiKeyCreated
ci_key = record {
  id = "k1";
  name = "ci";
  key_prefix = "ck_1";
  key = "ck_1secret";
  created_at = "2026-01-01";
}

-- The dialog is closed while the request is under way.
abbrev creating : List KeyEvent
creating = key_open false ∷ submits_key ∷ edits_name "ci" ∷ key_open true ∷ []

creating_pending : (key_after "e1" creating).is_pending ≡ true
unfolding step_key
creating_pending = refl

created_key_stays_example :
    (key_after "e1"
      (submits_key ∷ key_open true ∷ [] ++ key_settles (value ci_key) ∷ creating)).created
    ≡ some ci_key
created_key_stays_example =
    created_key_stays "e1" ci_key creating (submits_key ∷ key_open true ∷ []) creating_pending
      (refl, (refl, tt))

abbrev announcement : Compose
announcement = record {
  category = "product.update";
  title = "We shipped";
  body = "";
  action_url = "https://example.com";
  icon_url = "";
  idem_key = "";
  last_id = none;
  is_pending = false;
  log = empty_log;
}

field-payload_of_example :
    field "title" (payload_of (field_then "title" (json_string "Beta") no_fields) announcement)
    ≡ first_of (extra_field "title" (field_then "title" (json_string "Beta") no_fields)) (
        first_of (named "icon_url" "" "title") (
          first_of (named "action_url" "https://example.com" "title") (
            first_of
              (named "body" "" "title")
              (first_of (named "title" "We shipped" "title") none))))
field-payload_of_example =
    field-payload_of "title" (field_then "title" (json_string "Beta") no_fields) announcement

abbrev no_dates : Dates
no_dates = record { iso_of = λ text. none; parts_of = λ text. none }

abbrev browsing : List BrowseEvent
browsing = loads_more (some "c2") ∷ applies ∷ types_category "billing" ∷ loads_more (some "c1") ∷ []

browse_after-Browsed_example :
    Browsed (browse_after no_dates browsing) (submitted no_dates browsing)
browse_after-Browsed_example = browse_after-Browsed no_dates browsing

abbrev letter : String → AdminDeadLetter
letter slug = record {
  id = "d1";
  environment_slug = slug;
  job_type = "fanout";
  attempts = 5;
  last_error = "timeout";
  parked_at = "2026-01-01";
}

chart_counts_example :
    let letters = letter "prod" ∷ letter "dev" ∷ letter "prod" ∷ [] in
    let bars : List (String × ℕ) = ("prod", 2) ∷ ("dev", 1) ∷ [] in
    Distinct (slugs bars)
    × (bar "prod" bars ≡ length (of_env "prod" letters))
    × (shown_count (some letters) ≡ decimal (total bars))
unfolding chart
chart_counts_example =
    chart_counts "prod" (letter "prod" ∷ letter "dev" ∷ letter "prod" ∷ [])
      (("prod", 2) ∷ ("dev", 1) ∷ []) refl

masked_tells_length_example :
    let field = field_after true (copies true ∷ []) in
    (field_text field (units "s3cret") ≡ field_text field (units "hunter"))
    × (length (field_text field (units "s3cret")) ≡ 6)
unfolding units
masked_tells_length_example =
    masked_tells_length (copies true ∷ []) (units "s3cret") (units "hunter") refl refl
