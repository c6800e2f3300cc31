-- ===== src/Tests/Layers.antt =====
-- The layers of the inbox, and its texts, at concrete inputs.
use chimely.Prelude.{true, false, none, some, [], ◌∷◌, ◌≡◌, refl}
use chimely.React.Popover.{is_open}
use chimely.React.Dismissal.{
  Panel, elsewhere, on_menu_trigger, on_bell, in_menu, in_popover, in_root, outside, menu_shown,
  pointer_down, press_escape,
}
use chimely.React.Dismissal.Laws.{layers_close}
use chimely.React.Localization.{LocalizationOverrides}
use chimely.Tests.{client}

abbrev panel : Panel
panel = record {
  popover = record { internal_open = true; was_open = true; changes = true ∷ []; client = client };
  menu_open = true;
  show_preferences = false;
  focus = elsewhere;
}

layers_close_example :
    let once = press_escape none panel in
    let twice = press_escape none once in
    let away = pointer_down none outside panel in
    ((menu_shown none once ≡ false)
      × (is_open none once.popover ≡ true)
      × (once.popover ≡ panel.popover)
      × (once.focus ≡ on_menu_trigger))
    × ((is_open none twice.popover ≡ false)
        × (twice.popover.changes ≡ true ∷ false ∷ [])
        × (twice.focus ≡ on_bell))
    × ((pointer_down none in_popover panel).popover ≡ panel.popover)
    × (menu_shown none (pointer_down none in_popover panel) ≡ false)
    × ((pointer_down none in_root panel).popover ≡ panel.popover)
    × (menu_shown none (pointer_down none in_root panel) ≡ false)
    × (pointer_down none in_menu panel ≡ panel)
    × ((is_open none away.popover ≡ false)
        × (away.menu_open ≡ false)
        × (away.popover.changes ≡ true ∷ false ∷ []))
layers_close_example = layers_close panel refl refl refl refl

abbrev overrides : LocalizationOverrides
overrides = record {
  empty_title = some "Nothing here";
  empty_body = none;
  mark_all_read = none;
  preferences_title = none;
  inbox_title = some "Inbox";
  bell_label = none;
  back_label = none;
  new_notifications = some (λ count. "News");
  filter_label = none;
  filter_inbox = none;
  filter_unread = none;
  filter_archived = none;
  mark_read_action = none;
  mark_unread_action = none;
  archive_action = none;
  unarchive_action = none;
  more_actions = none;
  archive_all_action = none;
  archive_read_action = none;
  category_labels = some (("billing", "Invoices") ∷ []);
  format_timestamp = none;
}
