-- ===== src/Admin/Pages/Notifications.antt =====
-- NotificationsRoute of server/admin/src/routes/notifications.tsx. What `Date` makes of a text is a
-- record of functions: the ISO text of a local time, and the parts of a local time, where it is valid.
use chimely.Prelude.{
  ℕ, ◌+◌, String, ◌+++◌, Bool, true, false, Option, none, some, List, [], ◌∷◌, if◌then◌else◌, ltb,
  str_eq, decimal, ◌≡◌, refl, sym, ap, Bool-cases, inl, inr,
}
use chimely.Admin.Records.{NotificationFilter, AdminNotification}
use chimely.Admin.Api.Endpoints.{Endpoint, list_notifications}

pub record DateParts : Type 0 where
  pub year : ℕ
  pub month : ℕ
  pub day : ℕ
  pub hours : ℕ
  pub minutes : ℕ

pub record Dates : Type 0 where
  pub iso_of : String → Option String
  pub parts_of : String → Option DateParts

-- `String(n).padStart(2, '0')`.
abbrev pub pad : ℕ → String
pad n = if ltb n 10 then "0" +++ decimal n else decimal n

-- `getMonth` counts from 0.
unfoldable pub to_local_input : Dates → String → String
to_local_input dates iso = elim (dates.parts_of iso) [
  | none ↦ ""
  | some d ↦
      decimal d.year
      +++ ("-"
          +++ (pad (d.month + 1)
              +++ ("-" +++ (pad d.day +++ ("T" +++ (pad d.hours +++ (":" +++ pad d.minutes)))))))
]

unfoldable pub from_local_input : Dates → String → Option String
from_local_input dates text = if str_eq text "" then none else dates.iso_of text

-- `{ limit: 50 }`.
abbrev pub first_filter : NotificationFilter
first_filter = record {
  subscriber_id = none;
  category = none;
  after = none;
  before = none;
  limit = some 50;
  cursor = none;
}

pub record Browse : Type 0 where
  pub draft : NotificationFilter
  pub applied : NotificationFilter
  pub opened : Option AdminNotification

abbrev pub new_browse : Browse
new_browse = record { draft = first_filter; applied = first_filter; opened = none }

pub data BrowseEvent : Type 0 where
  types_subscriber types_category picks_after picks_before : (text : String) → BrowseEvent
  applies resets closes : BrowseEvent
  loads_more : (next_cursor : Option String) → BrowseEvent
  opens_row : AdminNotification → BrowseEvent

-- `text || undefined`.
abbrev pub or_undefined : String → Option String
or_undefined text = if str_eq text "" then none else some text

abbrev pub is_truthy : Option String → Bool
is_truthy none = false
is_truthy (some text) = if str_eq text "" then false else true

-- The button to load more is there where the page has a next cursor.
unfoldable pub step_browse : Dates → BrowseEvent → Browse → Browse
step_browse dates (types_subscriber text) page = record page {
  draft = record page.draft { subscriber_id = or_undefined text };
}
step_browse dates (types_category text) page = record page {
  draft = record page.draft { category = or_undefined text };
}
step_browse dates (picks_after text) page = record page {
  draft = record page.draft { after = from_local_input dates text };
}
step_browse dates (picks_before text) page = record page {
  draft = record page.draft { before = from_local_input dates text };
}
step_browse dates applies page = record page { applied = page.draft }
step_browse dates resets page = record page { draft = first_filter; applied = first_filter }
step_browse dates (loads_more next_cursor) page =
    if is_truthy next_cursor
    then record page { applied = record page.applied { cursor = next_cursor } }
    else page
step_browse dates (opens_row row) page = record page { opened = some row }
step_browse dates closes page = record page { opened = none }

-- What the page's query asks for.
abbrev pub asks : String → Browse → Endpoint
asks env_id page = list_notifications env_id page.applied

abbrev pub browse_after : Dates → List BrowseEvent → Browse
browse_after dates [] = new_browse
browse_after dates (event ∷ past) = step_browse dates event (browse_after dates past)

-- The filter that was submitted or reset last.
abbrev pub submitted : Dates → List BrowseEvent → NotificationFilter
submitted dates [] = first_filter
submitted dates (applies ∷ past) = (browse_after dates past).draft
submitted dates (resets ∷ past) = first_filter
submitted dates (_ ∷ past) = submitted dates past

-- A draft has the page size and no cursor, and what is asked for differs from what was submitted in the
-- cursor alone.
abbrev pub Browsed : Browse → NotificationFilter → Type 0
Browsed page filter =
    (page.draft.cursor ≡ none)
    × (page.draft.limit ≡ some 50)
    × (filter.cursor ≡ none)
    × (record page.applied { cursor = none } ≡ filter)

-- After every history: the draft has no cursor, so that submitting it asks for the first page; and what
-- the page asks for is the filter submitted or reset last, but for the cursor.
pub browse_after-Browsed :
    (dates : Dates) (past : List BrowseEvent)
    → Browsed (browse_after dates past) (submitted dates past)
unfolding step_browse
browse_after-Browsed dates [] = (refl, refl, refl, refl)
browse_after-Browsed dates (types_subscriber text ∷ past) = browse_after-Browsed dates past
browse_after-Browsed dates (types_category text ∷ past) = browse_after-Browsed dates past
browse_after-Browsed dates (picks_after text ∷ past) = browse_after-Browsed dates past
browse_after-Browsed dates (picks_before text ∷ past) = browse_after-Browsed dates past
browse_after-Browsed dates (applies ∷ past) =
    let h = browse_after-Browsed dates past in
    let draft = (browse_after dates past).draft in
    (h.0, h.1, h.0, ap (λ z. record draft { cursor = z }) (sym h.0))
browse_after-Browsed dates (resets ∷ past) = (refl, refl, refl, refl)
browse_after-Browsed dates (loads_more next_cursor ∷ past) =
    let h = browse_after-Browsed dates past in
    elim (Bool-cases (is_truthy next_cursor)) [ inl k ↦ rw k h | inr k ↦ rw k h ]
browse_after-Browsed dates (opens_row row ∷ past) = browse_after-Browsed dates past
browse_after-Browsed dates (closes ∷ past) = browse_after-Browsed dates past
