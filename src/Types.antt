-- ===== src/Types.antt =====
-- The domain types of packages/client/src/types.ts, and the wire shapes of
-- packages/client/src/generated/api.d.ts that the client reads.
-- A payload is any JSON value: the client passes it on and never reads it.
use chimely.Prelude.{
  first_of, none, some, str_eq, if◌then◌else◌, ℕ, String, Bool, Option, List, ◌≡◌, false, true,
  arith,
}

mutual
  pub data JsonValue : Type 0 where
    json_object : JsonFields → JsonValue
    json_array : JsonValues → JsonValue
    json_string : String → JsonValue
    json_number : ℕ → JsonValue
    json_boolean : Bool → JsonValue
    json_null : JsonValue

  pub data JsonValues : Type 0 where
    no_values : JsonValues
    value_then : JsonValue → JsonValues → JsonValues

  pub data JsonFields : Type 0 where
    no_fields : JsonFields
    field_then : String → JsonValue → JsonFields → JsonFields

-- The value that the last field of a name has.
abbrev pub last_field : String → JsonFields → Option JsonValue
last_field key no_fields = none
last_field key (field_then name v more) =
    first_of (last_field key more) (if str_eq name key then some v else none)

pub data InboxItemSource : Type 0 where
  notification broadcast : InboxItemSource

-- `archived` is optional in the source for older literals only; `toItem` always fills it.
pub record InboxItem : Type 0 where
  pub id : String
  pub source : InboxItemSource
  pub category : String
  pub payload : JsonValue
  pub occurred_at : String
  pub read : Bool
  pub archived : Bool

pub record InboxCounts : Type 0 where
  pub unread : ℕ
  pub unseen : ℕ

-- The channel has the one value 'in_app'.
pub data Channel : Type 0 where
  in_app : Channel

pub record Preference : Type 0 where
  pub category : String
  pub channel : Channel
  pub enabled : Bool

pub data InboxFilterView : Type 0 where
  default_view unread_view archived_view : InboxFilterView

pub data ConnectionStatus : Type 0 where
  idle connecting connected reconnecting closed : ConnectionStatus

-- The error class of errors.ts, less the `cause` that it keeps for a debugger.
pub record ChimelyError : Type 0 where
  pub message : String
  pub code : String
  pub status : Option ℕ

-- `lastRefreshNewItemIds` and `filter` are optional in the source for older literals only; the
-- store starts with both, and no patch takes them away.
pub record InboxSnapshot : Type 0 where
  pub items : List InboxItem
  pub counts : InboxCounts
  pub status : ConnectionStatus
  pub has_more : Bool
  pub is_loading : Bool
  pub error : Option ChimelyError
  pub last_refresh_new_item_ids : List String
  pub filter : InboxFilterView

-- `undefined` is `none` in the fields of a configuration. `max_attempts` has a default of Infinity.
pub record ChimelyClientConfig : Type 0 where
  pub server_url : String
  pub environment : String
  pub subscriber_id : String
  pub subscriber_hash : Option String
  pub subscriber_hash_expires_at : Option ℕ
  pub max_attempts : Option ℕ
  pub page_size : Option ℕ

pub record WireInboxItem : Type 0 where
  pub archived : Bool
  pub category : String
  pub id : String
  pub occurred_at : String
  pub payload : JsonValue
  pub read : Bool
  pub source : InboxItemSource

pub record WireInboxPage : Type 0 where
  pub items : List WireInboxItem
  pub next_cursor : Option String

pub record WirePreferenceList : Type 0 where
  pub preferences : List Preference

-- `===` on the views.
abbrev pub view_eq : InboxFilterView → InboxFilterView → Bool
view_eq default_view default_view = true
view_eq unread_view unread_view = true
view_eq archived_view archived_view = true
view_eq _ _ = false

view_eq→eq : (f g : InboxFilterView) → view_eq f g ≡ true → f ≡ g
view_eq→eq f g h = ground arith
