-- ===== src/React/Localization.antt =====
-- packages/react/src/localization.ts. The text of a timestamp is that of formatRelativeTime in the
-- locale of the browser, which is a parameter; `categoryLabels` is a list of keys with their values.
pub mod Laws
use chimely.Prelude.{
  ℕ, String, ◌+++◌, Option, none, some, List, [], ◌∷◌, if◌then◌else◌, decimal, ◌==◌,
}

pub record InboxLocalization : Type 0 where
  pub empty_title : String
  pub empty_body : String
  pub mark_all_read : String
  pub preferences_title : String
  pub inbox_title : String
  pub bell_label : String
  pub back_label : String
  pub new_notifications : ℕ → String
  pub filter_label : String
  pub filter_inbox : String
  pub filter_unread : String
  pub filter_archived : String
  pub mark_read_action : String
  pub mark_unread_action : String
  pub archive_action : String
  pub unarchive_action : String
  pub more_actions : String
  pub archive_all_action : String
  pub archive_read_action : String
  pub category_labels : List (String × String)
  pub format_timestamp : String → String

-- `Partial<InboxLocalization>`.
pub record LocalizationOverrides : Type 0 where
  pub empty_title : Option String
  pub empty_body : Option String
  pub mark_all_read : Option String
  pub preferences_title : Option String
  pub inbox_title : Option String
  pub bell_label : Option String
  pub back_label : Option String
  pub new_notifications : Option (ℕ → String)
  pub filter_label : Option String
  pub filter_inbox : Option String
  pub filter_unread : Option String
  pub filter_archived : Option String
  pub mark_read_action : Option String
  pub mark_unread_action : Option String
  pub archive_action : Option String
  pub unarchive_action : Option String
  pub more_actions : Option String
  pub archive_all_action : Option String
  pub archive_read_action : Option String
  pub category_labels : Option (List (String × String))
  pub format_timestamp : Option (String → String)

abbrev new_notifications_text : ℕ → String
new_notifications_text count =
    if count == 1 then "1 new notification" else decimal count +++ " new notifications"

abbrev pub default_localization : (format_relative_time : String → String) → InboxLocalization
default_localization format_relative_time = record {
  empty_title = "No notifications";
  empty_body = "You're all caught up.";
  mark_all_read = "Mark all as read";
  preferences_title = "Notification preferences";
  inbox_title = "Notifications";
  bell_label = "Notifications";
  back_label = "Back";
  new_notifications = new_notifications_text;
  filter_label = "View";
  filter_inbox = "Inbox";
  filter_unread = "Unread";
  filter_archived = "Archived";
  mark_read_action = "Mark as read";
  mark_unread_action = "Mark as unread";
  archive_action = "Archive";
  unarchive_action = "Unarchive";
  more_actions = "More actions";
  archive_all_action = "Archive all";
  archive_read_action = "Archive read";
  category_labels = [];
  format_timestamp = format_relative_time;
}

-- The keys, in the order of the default texts.
pub data LocalizationKey : Type 0 where
  empty_title_key empty_body_key mark_all_read_key preferences_title_key : LocalizationKey
  inbox_title_key bell_label_key back_label_key new_notifications_key : LocalizationKey
  filter_label_key filter_inbox_key filter_unread_key filter_archived_key : LocalizationKey
  mark_read_action_key mark_unread_action_key archive_action_key unarchive_action_key :
      LocalizationKey
  more_actions_key archive_all_action_key archive_read_action_key category_labels_key :
      LocalizationKey
  format_timestamp_key : LocalizationKey

abbrev pub localization_keys : List LocalizationKey
localization_keys =
    empty_title_key ∷ empty_body_key ∷ mark_all_read_key ∷ preferences_title_key ∷ inbox_title_key
    ∷ bell_label_key ∷ back_label_key ∷ new_notifications_key ∷ filter_label_key ∷ filter_inbox_key
    ∷ filter_unread_key ∷ filter_archived_key ∷ mark_read_action_key ∷ mark_unread_action_key
    ∷ archive_action_key ∷ unarchive_action_key ∷ more_actions_key ∷ archive_all_action_key
    ∷ archive_read_action_key ∷ category_labels_key ∷ format_timestamp_key ∷ []

-- A write of a value that is not undefined.
abbrev pub when_given {ℓ} :
    {A : Type ℓ} → Option A → (A → InboxLocalization) → InboxLocalization → InboxLocalization
when_given none write merged = merged
when_given (some value) write merged = write value

unfoldable pub apply :
    LocalizationKey → LocalizationOverrides → InboxLocalization → InboxLocalization
apply empty_title_key overrides merged =
    when_given overrides.empty_title (λ value. record merged { empty_title = value }) merged
apply empty_body_key overrides merged =
    when_given overrides.empty_body (λ value. record merged { empty_body = value }) merged
apply mark_all_read_key overrides merged =
    when_given overrides.mark_all_read (λ value. record merged { mark_all_read = value }) merged
apply preferences_title_key overrides merged =
    when_given overrides.preferences_title (λ value. record merged { preferences_title = value })
      merged
apply inbox_title_key overrides merged =
    when_given overrides.inbox_title (λ value. record merged { inbox_title = value }) merged
apply bell_label_key overrides merged =
    when_given overrides.bell_label (λ value. record merged { bell_label = value }) merged
apply back_label_key overrides merged =
    when_given overrides.back_label (λ value. record merged { back_label = value }) merged
apply new_notifications_key overrides merged =
    when_given overrides.new_notifications (λ value. record merged { new_notifications = value })
      merged
apply filter_label_key overrides merged =
    when_given overrides.filter_label (λ value. record merged { filter_label = value }) merged
apply filter_inbox_key overrides merged =
    when_given overrides.filter_inbox (λ value. record merged { filter_inbox = value }) merged
apply filter_unread_key overrides merged =
    when_given overrides.filter_unread (λ value. record merged { filter_unread = value }) merged
apply filter_archived_key overrides merged =
    when_given overrides.filter_archived (λ value. record merged { filter_archived = value }) merged
apply mark_read_action_key overrides merged =
    when_given overrides.mark_read_action (λ value. record merged { mark_read_action = value })
      merged
apply mark_unread_action_key overrides merged =
    when_given overrides.mark_unread_action (λ value. record merged { mark_unread_action = value })
      merged
apply archive_action_key overrides merged =
    when_given overrides.archive_action (λ value. record merged { archive_action = value }) merged
apply unarchive_action_key overrides merged =
    when_given overrides.unarchive_action (λ value. record merged { unarchive_action = value })
      merged
apply more_actions_key overrides merged =
    when_given overrides.more_actions (λ value. record merged { more_actions = value }) merged
apply archive_all_action_key overrides merged =
    when_given overrides.archive_all_action (λ value. record merged { archive_all_action = value })
      merged
apply archive_read_action_key overrides merged =
    when_given overrides.archive_read_action
      (λ value. record merged { archive_read_action = value }) merged
apply category_labels_key overrides merged =
    when_given overrides.category_labels (λ value. record merged { category_labels = value }) merged
apply format_timestamp_key overrides merged =
    when_given overrides.format_timestamp (λ value. record merged { format_timestamp = value })
      merged

abbrev pub apply_all :
    List LocalizationKey → LocalizationOverrides → InboxLocalization → InboxLocalization
apply_all [] overrides merged = merged
apply_all (key ∷ keys) overrides merged = apply_all keys overrides (apply key overrides merged)

unfoldable pub merge_localization :
    (format_relative_time : String → String) → Option LocalizationOverrides → InboxLocalization
merge_localization format_relative_time none = default_localization format_relative_time
merge_localization format_relative_time (some overrides) =
    apply_all localization_keys overrides (default_localization format_relative_time)
