-- ===== src/React/Rows.antt =====
-- The rows of packages/react/src/components/NotificationList.tsx with what
-- components/DefaultItem.tsx shows in them, and the click on a row of components/InboxContent.tsx up
-- to its navigation. `Node` is what the application's own renderers return.
pub mod Laws
use chimely.Prelude.{
  ℕ, String, Bool, true, false, not, Option, none, some, List, [], ◌∷◌, if◌then◌else◌, str_eq,
  ◌+++◌,
}
use chimely.Types.{InboxItem, JsonValue, json_object, json_string, last_field}
use chimely.Client.State.{Client}
use chimely.Client.Mutations.{mark_read, mark_unread, archive, unarchive}
use chimely.React.Localization.{InboxLocalization}
use chimely.React.Appearance.{InboxSlot, item, item_unread}

-- `typeof value === 'string'`.
abbrev when_string : Option JsonValue → Option String
when_string (some (json_string text)) = some text
when_string _ = none

-- A field of the payload, where it is a string. JSON.parse keeps the last field of a name. A payload of
-- the API is an object; of null, which is none, the source cannot read a field.
abbrev pub string_field : String → JsonValue → Option String
string_field key (json_object fields) = when_string (last_field key fields)
string_field key _ = none

module _ (Node : Type 0) where
  pub record ItemRenderProps : Type 0 where
    pub render_subject : Option (InboxItem → Node)
    pub render_body : Option (InboxItem → Node)
    pub render_avatar : Option (InboxItem → Node)

  pub data Part : Type 0 where
    rendered : Node → Part
    text : String → Part
    absent : Part

  -- The avatar by its URL; `dot` says whether the mark of an unread item is there.
  pub record ItemParts : Type 0 where
    pub avatar : Part
    pub subject : Part
    pub body : Part
    pub time : String
    pub dot : Bool

  -- The renderer if there is one, else the default.
  abbrev part : InboxItem → Option (InboxItem → Node) → Part → Part
  part shown none default = default
  part shown (some render) default = rendered (render shown)

  -- `typeof text === 'string' && text.length > 0 && ...`.
  abbrev unless_empty : Option String → Part
  unless_empty none = absent
  unless_empty (some value) = if str_eq value "" then absent else text value

  abbrev title_or : Option String → String → Part
  title_or none category = text category
  title_or (some title) category = text title

  unfoldable pub default_item : (String → String) → ItemRenderProps → InboxItem → ItemParts
  default_item format_timestamp props shown = record {
    avatar = part shown props.render_avatar (unless_empty (string_field "icon_url" shown.payload));
    subject =
        part shown props.render_subject
          (title_or (string_field "title" shown.payload) shown.category);
    body = part shown props.render_body (unless_empty (string_field "body" shown.payload));
    time = format_timestamp shown.occurred_at;
    dot = not shown.read;
  }

-- The class of a row, and the labels of its two actions.
abbrev pub row_class : (InboxSlot → String) → InboxItem → String
row_class cls shown = if shown.read then cls item else cls item +++ (" " +++ cls item_unread)

abbrev pub read_label : InboxLocalization → InboxItem → String
read_label strings shown =
    if shown.read then strings.mark_unread_action else strings.mark_read_action

abbrev pub archive_label : InboxLocalization → InboxItem → String
archive_label strings shown =
    if shown.archived then strings.unarchive_action else strings.archive_action

-- Below the pill: nothing, the empty state, or the rows.
pub data ListBody : Type 0 where
  nothing empty_state : ListBody
  rows : List InboxItem → ListBody

unfoldable pub list_body : (defer_empty : Bool) → List InboxItem → ListBody
list_body defer_empty [] = if defer_empty then nothing else empty_state
list_body defer_empty (x ∷ xs) = rows (x ∷ xs)

-- The first action of a row: the source's `flip` on the read mark.
unfoldable pub press_read : InboxItem → Client → Client
press_read shown c =
    if shown.read then mark_unread shown.id shown.source c else mark_read shown.id shown.source c

-- The second action.
unfoldable pub press_archive : InboxItem → Client → Client
press_archive shown c =
    if shown.archived then unarchive shown.id shown.source c else archive shown.id shown.source c

-- A click on the row. `refused` says whether the application's `onItemClick` returned false.
unfoldable pub click_item : (refused : Bool) → InboxItem → Client → Client
click_item refused shown c = if refused then c else mark_read shown.id shown.source c
