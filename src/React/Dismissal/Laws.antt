-- ===== src/React/Dismissal/Laws.antt =====
-- The layers close one at a time.
use chimely.Prelude.{true, false, none, [], ◌∷◌, ◌++◌, ◌≡◌, arith}
use chimely.React.Popover.{is_open, set_open_state, after_render}
use chimely.React.Dismissal.{
  Panel, on_bell, on_menu_trigger, in_menu, in_popover, in_root, outside, menu_shown, render,
  pointer_down, press_escape, open_preferences,
}

-- A popover that keeps its own state, open behind a render, with the menu open and shown: a first
-- Escape closes the menu alone and gives its trigger the focus, without a call of onOpenChange; a
-- second closes the popover, with the one call onOpenChange(false), and gives the bell the focus. A
-- pointer that goes down in the rest of the popover, or of the root, closes the menu alone, and one
-- that goes down outside closes both with one call.
pub layers_close :
    (s : Panel)
    → s.popover.internal_open ≡ true
    → s.popover.was_open ≡ true
    → s.menu_open ≡ true
    → s.show_preferences ≡ false
    → let once = press_escape none s in
      let twice = press_escape none once in
      let away = pointer_down none outside s in
      ((menu_shown none once ≡ false)
        × (is_open none once.popover ≡ true)
        × (once.popover ≡ s.popover)
        × (once.focus ≡ on_menu_trigger))
      × ((is_open none twice.popover ≡ false)
          × (twice.popover.changes ≡ s.popover.changes ++ false ∷ [])
          × (twice.focus ≡ on_bell))
      × ((pointer_down none in_popover s).popover ≡ s.popover)
      × (menu_shown none (pointer_down none in_popover s) ≡ false)
      × ((pointer_down none in_root s).popover ≡ s.popover)
      × (menu_shown none (pointer_down none in_root s) ≡ false)
      × (pointer_down none in_menu s ≡ s)
      × ((is_open none away.popover ≡ false)
          × (away.menu_open ≡ false)
          × (away.popover.changes ≡ s.popover.changes ++ false ∷ []))
unfolding press_escape pointer_down render after_render set_open_state
layers_close s o w m h = ground arith

-- With the menu open, the preferences opened by a key: no menu is shown, and yet the first Escape
-- leaves the popover open.
hidden_menu_takes_escape :
    (s : Panel)
    → s.popover.internal_open ≡ true
    → s.menu_open ≡ true
    → let d = open_preferences none s in
      (menu_shown none d ≡ false) × (is_open none (press_escape none d).popover ≡ true)
unfolding press_escape open_preferences render after_render set_open_state
hidden_menu_takes_escape s o m = ground arith
