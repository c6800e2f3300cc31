-- ===== src/React/Dismissal.antt =====
-- What closes the popover of packages/react/src/Inbox.tsx, and the menu and the preferences inside it
-- of packages/react/src/components/InboxContent.tsx. The listeners on the document are those of the
-- layers that are open: the menu's key listener runs in the capture phase and stops the event, the
-- popover's in the bubble phase. An event of the model is its listeners or its handler, with the
-- render that follows: a popover that closes takes the state of its content with it.
pub mod Laws
use chimely.Prelude.{
  Bool, true, false, not, ◌&&◌, ◌||◌, Option, none, some, List, [], ◌∷◌, if◌then◌else◌,
}
use chimely.Client.State.{Client}
use chimely.Client.Mutations.{mark_all_read, archive_read, archive_all}
use chimely.React.Popover.{Popover, is_open, set_open_state, click_bell, after_render}

-- The element with the focus, as far as the code moves it.
pub data Focus : Type 0 where
  on_bell on_menu_trigger elsewhere : Focus

pub record Panel : Type 0 where
  pub popover : Popover
  pub menu_open : Bool
  pub show_preferences : Bool
  pub focus : Focus

-- Where a pointer goes down: on the menu or its trigger, in the rest of the popover, in the rest of
-- the root, or outside of both.
pub data Place : Type 0 where
  in_menu in_popover in_root outside : Place

pub data MenuEntry : Type 0 where
  mark_all_read_entry archive_read_entry archive_all_entry : MenuEntry

-- The menu is in the header, which the preferences replace.
abbrev pub menu_shown : Option Bool → Panel → Bool
menu_shown controlled s = is_open controlled s.popover && (s.menu_open && not s.show_preferences)

abbrev is_in_menu : Place → Bool
is_in_menu in_menu = true
is_in_menu _ = false

abbrev is_outside : Place → Bool
is_outside outside = true
is_outside _ = false

-- The render after a change, with its effects.
unfoldable pub render : Option Bool → Panel → Panel
render controlled s =
    let stays = is_open controlled s.popover in
    record s {
      popover = after_render controlled s.popover;
      menu_open = stays && s.menu_open;
      show_preferences = stays && s.show_preferences;
    }

-- `onPointerDown` of the menu, then that of the popover, where they listen.
unfoldable pub pointer_down : Option Bool → Place → Panel → Panel
pointer_down controlled place s =
    let listening = is_open controlled s.popover in
    render controlled (record s {
      menu_open = s.menu_open && not (listening && not (is_in_menu place));
      popover =
          if listening && is_outside place
          then set_open_state controlled false s.popover
          else s.popover;
    })

-- The Escape key: `onKeyDown` of the menu stops the event before that of the popover.
unfoldable pub press_escape : Option Bool → Panel → Panel
press_escape controlled s =
    if is_open controlled s.popover && s.menu_open
    then render controlled (record s {
      menu_open = false;
      focus = if s.show_preferences then s.focus else on_menu_trigger;
    })
    else if is_open controlled s.popover
    then render controlled
        (record s { popover = set_open_state controlled false s.popover; focus = on_bell })
    else s

unfoldable press_bell : Option Bool → Panel → Panel
press_bell controlled s = render controlled (record s { popover = click_bell controlled s.popover })

unfoldable toggle_menu : Option Bool → Panel → Panel
toggle_menu controlled s = render controlled (record s { menu_open = not s.menu_open })

abbrev entry_call : MenuEntry → Client → Client
entry_call mark_all_read_entry = mark_all_read
entry_call archive_read_entry = archive_read
entry_call archive_all_entry = archive_all

unfoldable pub choose : Option Bool → MenuEntry → Panel → Panel
choose controlled entry s = render controlled (record s {
  menu_open = false;
  popover = record s.popover { client = entry_call entry s.popover.client };
})

unfoldable pub open_preferences : Option Bool → Panel → Panel
open_preferences controlled s = render controlled (record s { show_preferences = true })

unfoldable leave_preferences : Option Bool → Panel → Panel
leave_preferences controlled s = render controlled (record s { show_preferences = false })
