-- ===== src/React/Localization/Laws.antt =====
-- What the loop over the keys merges.
use chimely.Prelude.{String, Option, none, some, List, [], ◌∷◌, ◌≡◌, refl, sym, ap, ◌∙◌, or_else}
use chimely.React.Localization.{
  InboxLocalization, LocalizationOverrides, LocalizationKey, localization_keys,
  default_localization, when_given, apply, apply_all, merge_localization, empty_title_key,
  empty_body_key, mark_all_read_key, preferences_title_key, inbox_title_key, bell_label_key,
  back_label_key, new_notifications_key, filter_label_key, filter_inbox_key, filter_unread_key,
  filter_archived_key, mark_read_action_key, mark_unread_action_key, archive_action_key,
  unarchive_action_key, more_actions_key, archive_all_action_key, archive_read_action_key,
  category_labels_key, format_timestamp_key,
}

-- A default text, where it is not overridden, for every field at once.
abbrev overridden : LocalizationOverrides → InboxLocalization → InboxLocalization
overridden overrides texts = record {
  empty_title = or_else overrides.empty_title texts.empty_title;
  empty_body = or_else overrides.empty_body texts.empty_body;
  mark_all_read = or_else overrides.mark_all_read texts.mark_all_read;
  preferences_title = or_else overrides.preferences_title texts.preferences_title;
  inbox_title = or_else overrides.inbox_title texts.inbox_title;
  bell_label = or_else overrides.bell_label texts.bell_label;
  back_label = or_else overrides.back_label texts.back_label;
  new_notifications = or_else overrides.new_notifications texts.new_notifications;
  filter_label = or_else overrides.filter_label texts.filter_label;
  filter_inbox = or_else overrides.filter_inbox texts.filter_inbox;
  filter_unread = or_else overrides.filter_unread texts.filter_unread;
  filter_archived = or_else overrides.filter_archived texts.filter_archived;
  mark_read_action = or_else overrides.mark_read_action texts.mark_read_action;
  mark_unread_action = or_else overrides.mark_unread_action texts.mark_unread_action;
  archive_action = or_else overrides.archive_action texts.archive_action;
  unarchive_action = or_else overrides.unarchive_action texts.unarchive_action;
  more_actions = or_else overrides.more_actions texts.more_actions;
  archive_all_action = or_else overrides.archive_all_action texts.archive_all_action;
  archive_read_action = or_else overrides.archive_read_action texts.archive_read_action;
  category_labels = or_else overrides.category_labels texts.category_labels;
  format_timestamp = or_else overrides.format_timestamp texts.format_timestamp;
}

-- One field overridden.
abbrev overridden_at :
    LocalizationKey → LocalizationOverrides → InboxLocalization → InboxLocalization
overridden_at empty_title_key overrides texts = record texts {
  empty_title = or_else overrides.empty_title texts.empty_title;
}
overridden_at empty_body_key overrides texts = record texts {
  empty_body = or_else overrides.empty_body texts.empty_body;
}
overridden_at mark_all_read_key overrides texts = record texts {
  mark_all_read = or_else overrides.mark_all_read texts.mark_all_read;
}
overridden_at preferences_title_key overrides texts = record texts {
  preferences_title = or_else overrides.preferences_title texts.preferences_title;
}
overridden_at inbox_title_key overrides texts = record texts {
  inbox_title = or_else overrides.inbox_title texts.inbox_title;
}
overridden_at bell_label_key overrides texts = record texts {
  bell_label = or_else overrides.bell_label texts.bell_label;
}
overridden_at back_label_key overrides texts = record texts {
  back_label = or_else overrides.back_label texts.back_label;
}
overridden_at new_notifications_key overrides texts = record texts {
  new_notifications = or_else overrides.new_notifications texts.new_notifications;
}
overridden_at filter_label_key overrides texts = record texts {
  filter_label = or_else overrides.filter_label texts.filter_label;
}
overridden_at filter_inbox_key overrides texts = record texts {
  filter_inbox = or_else overrides.filter_inbox texts.filter_inbox;
}
overridden_at filter_unread_key overrides texts = record texts {
  filter_unread = or_else overrides.filter_unread texts.filter_unread;
}
overridden_at filter_archived_key overrides texts = record texts {
  filter_archived = or_else overrides.filter_archived texts.filter_archived;
}
overridden_at mark_read_action_key overrides texts = record texts {
  mark_read_action = or_else overrides.mark_read_action texts.mark_read_action;
}
overridden_at mark_unread_action_key overrides texts = record texts {
  mark_unread_action = or_else overrides.mark_unread_action texts.mark_unread_action;
}
overridden_at archive_action_key overrides texts = record texts {
  archive_action = or_else overrides.archive_action texts.archive_action;
}
overridden_at unarchive_action_key overrides texts = record texts {
  unarchive_action = or_else overrides.unarchive_action texts.unarchive_action;
}
overridden_at more_actions_key overrides texts = record texts {
  more_actions = or_else overrides.more_actions texts.more_actions;
}
overridden_at archive_all_action_key overrides texts = record texts {
  archive_all_action = or_else overrides.archive_all_action texts.archive_all_action;
}
overridden_at archive_read_action_key overrides texts = record texts {
  archive_read_action = or_else overrides.archive_read_action texts.archive_read_action;
}
overridden_at category_labels_key overrides texts = record texts {
  category_labels = or_else overrides.category_labels texts.category_labels;
}
overridden_at format_timestamp_key overrides texts = record texts {
  format_timestamp = or_else overrides.format_timestamp texts.format_timestamp;
}

given_or {ℓ} :
    {A : Type ℓ} (value : Option A) (texts : InboxLocalization) (write : A → InboxLocalization)
    (old : A)
    → write old ≡ texts
    → when_given value write texts ≡ write (or_else value old)
given_or none texts write old e = sym e
given_or (some value) texts write old e = refl

apply-overridden_at :
    (key : LocalizationKey) (overrides : LocalizationOverrides) (texts : InboxLocalization)
    → apply key overrides texts ≡ overridden_at key overrides texts
unfolding apply
apply-overridden_at empty_title_key overrides texts =
    given_or overrides.empty_title texts (λ value. record texts { empty_title = value })
      texts.empty_title refl
apply-overridden_at empty_body_key overrides texts =
    given_or overrides.empty_body texts (λ value. record texts { empty_body = value })
      texts.empty_body refl
apply-overridden_at mark_all_read_key overrides texts =
    given_or overrides.mark_all_read texts (λ value. record texts { mark_all_read = value })
      texts.mark_all_read refl
apply-overridden_at preferences_title_key overrides texts =
    given_or overrides.preferences_title texts (λ value. record texts { preferences_title = value })
      texts.preferences_title refl
apply-overridden_at inbox_title_key overrides texts =
    given_or overrides.inbox_title texts (λ value. record texts { inbox_title = value })
      texts.inbox_title refl
apply-overridden_at bell_label_key overrides texts =
    given_or overrides.bell_label texts (λ value. record texts { bell_label = value })
      texts.bell_label refl
apply-overridden_at back_label_key overrides texts =
    given_or overrides.back_label texts (λ value. record texts { back_label = value })
      texts.back_label refl
apply-overridden_at new_notifications_key overrides texts =
    given_or overrides.new_notifications texts (λ value. record texts { new_notifications = value })
      texts.new_notifications refl
apply-overridden_at filter_label_key overrides texts =
    given_or overrides.filter_label texts (λ value. record texts { filter_label = value })
      texts.filter_label refl
apply-overridden_at filter_inbox_key overrides texts =
    given_or overrides.filter_inbox texts (λ value. record texts { filter_inbox = value })
      texts.filter_inbox refl
apply-overridden_at filter_unread_key overrides texts =
    given_or overrides.filter_unread texts (λ value. record texts { filter_unread = value })
      texts.filter_unread refl
apply-overridden_at filter_archived_key overrides texts =
    given_or overrides.filter_archived texts (λ value. record texts { filter_archived = value })
      texts.filter_archived refl
apply-overridden_at mark_read_action_key overrides texts =
    given_or overrides.mark_read_action texts (λ value. record texts { mark_read_action = value })
      texts.mark_read_action refl
apply-overridden_at mark_unread_action_key overrides texts =
    given_or overrides.mark_unread_action texts
      (λ value. record texts { mark_unread_action = value }) texts.mark_unread_action refl
apply-overridden_at archive_action_key overrides texts =
    given_or overrides.archive_action texts (λ value. record texts { archive_action = value })
      texts.archive_action refl
apply-overridden_at unarchive_action_key overrides texts =
    given_or overrides.unarchive_action texts (λ value. record texts { unarchive_action = value })
      texts.unarchive_action refl
apply-overridden_at more_actions_key overrides texts =
    given_or overrides.more_actions texts (λ value. record texts { more_actions = value })
      texts.more_actions refl
apply-overridden_at archive_all_action_key overrides texts =
    given_or overrides.archive_all_action texts
      (λ value. record texts { archive_all_action = value }) texts.archive_all_action refl
apply-overridden_at archive_read_action_key overrides texts =
    given_or overrides.archive_read_action texts
      (λ value. record texts { archive_read_action = value }) texts.archive_read_action refl
apply-overridden_at category_labels_key overrides texts =
    given_or overrides.category_labels texts (λ value. record texts { category_labels = value })
      texts.category_labels refl
apply-overridden_at format_timestamp_key overrides texts =
    given_or overrides.format_timestamp texts (λ value. record texts { format_timestamp = value })
      texts.format_timestamp refl

abbrev overridden_at_all :
    List LocalizationKey → LocalizationOverrides → InboxLocalization → InboxLocalization
overridden_at_all [] overrides texts = texts
overridden_at_all (key ∷ keys) overrides texts =
    overridden_at_all keys overrides (overridden_at key overrides texts)

apply_all-overridden :
    (keys : List LocalizationKey) (overrides : LocalizationOverrides) (texts : InboxLocalization)
    → apply_all keys overrides texts ≡ overridden_at_all keys overrides texts
apply_all-overridden [] overrides texts = refl
apply_all-overridden (key ∷ keys) overrides texts =
    ap (apply_all keys overrides) (apply-overridden_at key overrides texts)
    ∙ apply_all-overridden keys overrides (overridden_at key overrides texts)

-- The loop over the keys of the default texts leaves none out and confuses none: each of the 21 merged
-- fields is its override, where that is given, and the default otherwise.
merge_localization-overridden :
    (format_relative_time : String → String) (overrides : LocalizationOverrides)
    → merge_localization format_relative_time (some overrides)
      ≡ overridden overrides (default_localization format_relative_time)
unfolding merge_localization
merge_localization-overridden format_relative_time overrides =
    apply_all-overridden localization_keys overrides (default_localization format_relative_time)
