-- ===== src/Stub.antt =====
-- The state of StubServer in packages/client/src/test-support/stub-server.ts, the in-process server
-- that the client is tested against, with its state control.
-- What the platform gives it is a record of functions: JSON for cursors, Number and Date.
pub mod Listing
pub mod Routes
pub mod Streams
pub mod Order
pub mod Pages
pub mod Rows
pub mod Access
pub mod Served
pub mod Session
pub mod Agreement
pub mod Archived
use chimely.Prelude.{
  ℕ, zero, suc, ◌+◌, ◌-◌, ◌*◌, String, ◌+++◌, Bool, true, false, not, ◌&&◌, Option, none, some,
  List, [], ◌∷◌, ◌++◌, ◌≡◌, if◌then◌else◌, or_else, str_eq, text_lt, filter, length, decimal,
}
use chimely.Types.{
  JsonValue, JsonFields, json_object, json_string, no_fields, field_then, InboxItemSource,
  notification, broadcast, WireInboxItem, InboxCounts, Preference,
}
use chimely.Client.State.{Method, Request}
use chimely.React.Preferences.{channel_eq}

pub record Platform : Type 0 where
  -- `JSON.stringify` and `JSON.parse` on a pair of texts
  pub stringify : String → String → String
  pub parse : String → String × String
  pub parse_stringify : (a b : String) → parse (stringify a b) ≡ (a, b)
  -- `Number` on a text that is a whole number
  pub number : String → ℕ
  -- `new Date(ms).toISOString()`
  pub iso : ℕ → String

pub record InjectedFailure : Type 0 where
  pub method : Method
  pub path_includes : String
  pub status : ℕ
  pub code : String
  pub message : String

pub record RecordedRequest : Type 0 where
  pub request : Request
  pub status : ℕ

pub record StubServer : Type 0 where
  pub environment : String
  pub subscriber_id : String
  pub require_hash : Option String
  pub require_expires : Option String
  pub items : List WireInboxItem
  pub prefs : List Preference
  pub unseen : ℕ
  pub version : ℕ
  pub seq : ℕ
  pub base_time_ms : ℕ
  pub failures : List InjectedFailure
  pub requests : List RecordedRequest

pub record StubServerOptions : Type 0 where
  pub environment : Option String
  pub subscriber_id : Option String
  pub require_hash : Option String
  pub require_expires : Option String
  pub base_time_ms : Option ℕ

-- `Date.UTC(2026, 0, 1)` is the default of the base time.
unfoldable pub create_stub_server : StubServerOptions → StubServer
create_stub_server options = record {
  environment = or_else options.environment "env-test";
  subscriber_id = or_else options.subscriber_id "usr_1";
  require_hash = options.require_hash;
  require_expires = options.require_expires;
  items = [];
  prefs = [];
  unseen = 0;
  version = 1;
  seq = 0;
  base_time_ms = or_else options.base_time_ms 1767225600000;
  failures = [];
  requests = [];
}

pub record Overrides : Type 0 where
  pub category : Option String
  pub payload : Option JsonValue
  pub read : Option Bool
  pub archived : Option Bool
  pub occurred_at : Option String
  pub seen : Option Bool

-- `padStart(width, '0')`, where that many zeros are missing.
zeros : ℕ → String
zeros zero = ""
zeros (suc n) = "0" +++ zeros n

chars : String → ℕ
chars String.[] = 0
chars (String.◌∷◌ c s) = suc (chars s)

unfoldable pub item_id : InboxItemSource → ℕ → String
unfolding zeros chars
item_id notification n = "notif_" +++ (zeros (26 - chars (decimal n)) +++ decimal n)
item_id broadcast n = "bcast_" +++ (zeros (26 - chars (decimal n)) +++ decimal n)

-- The comparison of the sort is positive.
abbrev pub is_after : WireInboxItem → WireInboxItem → Bool
is_after a b =
    if not (str_eq a.occurred_at b.occurred_at)
    then text_lt a.occurred_at b.occurred_at
    else text_lt a.id b.id

abbrev pub insert_item : WireInboxItem → List WireInboxItem → List WireInboxItem
insert_item x [] = x ∷ []
insert_item x (y ∷ ys) =
    let rest = insert_item x ys in if is_after x y then y ∷ rest else x ∷ y ∷ ys

-- `sort`, which is stable.
abbrev pub sort_items : List WireInboxItem → List WireInboxItem
sort_items [] = []
sort_items (x ∷ xs) = insert_item x (sort_items xs)

abbrev pub new_item : Platform → StubServer → InboxItemSource → Overrides → WireInboxItem
new_item p s source overrides = record {
  id = item_id source (s.seq + 1);
  source = source;
  category = or_else overrides.category "test.event";
  payload =
      or_else overrides.payload (
        json_object (field_then "title" (json_string ("item " +++ decimal (s.seq + 1))) no_fields));
  occurred_at = or_else overrides.occurred_at (p.iso (s.base_time_ms + (s.seq + 1) * 1000));
  read = or_else overrides.read false;
  archived = or_else overrides.archived false;
}

unfoldable pub add_item : Platform → InboxItemSource → Overrides → StubServer → StubServer
add_item p source overrides s = record s {
  seq = s.seq + 1;
  items = sort_items (s.items ++ new_item p s source overrides ∷ []);
  unseen = if or_else overrides.seen false then s.unseen else s.unseen + 1;
  version = s.version + 1;
}

abbrev pub is_unread : WireInboxItem → Bool
is_unread item = not item.read && not item.archived

unfoldable pub counts : StubServer → InboxCounts
counts s = record { unread = length (filter is_unread s.items); unseen = s.unseen }

unfoldable pub set_preference_row : Preference → StubServer → StubServer
set_preference_row pref s =
    let kept =
      filter (λ row. not (str_eq row.category pref.category && channel_eq row.channel pref.channel))
        s.prefs in
    record s {
      prefs = if not pref.enabled then kept ++ pref ∷ [] else kept;
      version = s.version + 1;
    }

unfoldable fail_next : Method → String → ℕ → String → Option String → StubServer → StubServer
fail_next method path_includes status code message s = record s {
  failures =
      s.failures
      ++ record {
        method = method;
        path_includes = path_includes;
        status = status;
        code = code;
        message = or_else message "injected failure";
      }
        ∷ [];
}
