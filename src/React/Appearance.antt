-- ===== src/React/Appearance.antt =====
-- packages/react/src/appearance.ts. A style object is the list of its properties, in order, with each
-- key once.
pub mod Laws
use chimely.Prelude.{String, ◌+++◌, Bool, Option, none, some, List, [], ◌∷◌, if◌then◌else◌, str_eq}
use Prim.Native.Char.{Char}

pub data InboxSlot : Type 0 where
  root bell badge popover content header tabs tab tab_active : InboxSlot
  list item item_unread empty footer pill filter preferences : InboxSlot

abbrev slot_name : InboxSlot → String
slot_name root = "root"
slot_name bell = "bell"
slot_name badge = "badge"
slot_name popover = "popover"
slot_name content = "content"
slot_name header = "header"
slot_name tabs = "tabs"
slot_name tab = "tab"
slot_name tab_active = "tabActive"
slot_name list = "list"
slot_name item = "item"
slot_name item_unread = "itemUnread"
slot_name empty = "empty"
slot_name footer = "footer"
slot_name pill = "pill"
slot_name filter = "filter"
slot_name preferences = "preferences"

-- `toLowerCase` of a capital: the letter at its place in the alphabet.
abbrev letter_at : Char → String → String → Option String
letter_at c String.[] lower = none
letter_at c (String.◌∷◌ u upper) String.[] = none
letter_at c (String.◌∷◌ u upper) (String.◌∷◌ l lower) =
    let later = letter_at c upper lower in
    if str_eq (String.◌∷◌ u String.[]) (String.◌∷◌ c String.[])
    then some (String.◌∷◌ l String.[])
    else later

abbrev with_dash : Char → Option String → String
with_dash c none = String.◌∷◌ c String.[]
with_dash c (some letter) = "-" +++ letter

-- `replace(/[A-Z]/g, ...)`.
unfoldable pub dashed : String → String
dashed String.[] = ""
dashed (String.◌∷◌ c name) =
    with_dash c (letter_at c "ABCDEFGHIJKLMNOPQRSTUVWXYZ" "abcdefghijklmnopqrstuvwxyz")
    +++ dashed name

-- `custom ? ... : base`, where an empty class is none.
unfoldable pub slot_class : (InboxSlot → Option String) → InboxSlot → String
slot_class class_names slot =
    let base = "chimely-" +++ dashed (slot_name slot) in
    elim (class_names slot) [
      | none ↦ base
      | some custom ↦ if str_eq custom "" then base else base +++ (" " +++ custom)
    ]

abbrev pub put : String → String → List (String × String) → List (String × String)
put key value [] = (key, value) ∷ []
put key value ((name, old) ∷ style) =
    let rest = put key value style in
    if str_eq name key then (key, value) ∷ style else (name, old) ∷ rest

abbrev put_variable : String → Option String → List (String × String) → List (String × String)
put_variable key none style = style
put_variable key (some value) style = put ("--chimely-" +++ key) value style

abbrev put_variables :
    List (String × Option String) → List (String × String) → List (String × String)
put_variables [] style = style
put_variables ((key, value) ∷ variables) style =
    put_variables variables (put_variable key value style)

unfoldable variables_to_style : Option (List (String × Option String)) → List (String × String)
variables_to_style none = []
variables_to_style (some variables) = put_variables variables []

-- `{ ...base, ...override }`.
abbrev pub spread : List (String × String) → List (String × String) → List (String × String)
spread base [] = base
spread base ((key, value) ∷ override) = spread (put key value base) override

-- The style of a slot, from the override for the slot.
unfoldable pub slot_style :
    Option (List (String × String))
    → Option (List (String × String))
    → Option (List (String × String))
slot_style override none = override
slot_style none (some base) = some base
slot_style (some override) (some base) = some (spread base override)

abbrev dark_theme : List (String × Option String)
dark_theme =
    ("colorBackground", some "#111827")
    ∷ ("colorForeground", some "#e5e7eb")
    ∷ ("colorMuted", some "#1f2937")
    ∷ ("colorPrimary", some "#5c8dff")
    ∷ ("colorPrimaryHover", some "#8fb0ff")
    ∷ ("colorBadge", some "#5c8dff")
    ∷ ("colorBadgeForeground", some "#0b1220")
    ∷ ("shadow", some "0 8px 24px rgba(0, 0, 0, 0.5)")
    ∷ []
