-- ===== src/Stub/Listing.antt =====
-- `listItems`: the view of a filter, the validator, and the page behind a cursor.
use chimely.Prelude.{
  ℕ, zero, suc, ◌+◌, String, ◌+++◌, Bool, true, false, not, ◌&&◌, ◌||◌, Option, none, some, List,
  [], ◌∷◌, if◌then◌else◌, or_else, str_eq, text_lt, filter, length, get_last?, ltb, decimal,
}
use chimely.Types.{WireInboxItem, WireInboxPage}
use chimely.Stub.{Platform, StubServer, is_unread}

abbrev pub take : ℕ → List WireInboxItem → List WireInboxItem
take zero xs = []
take (suc n) [] = []
take (suc n) (x ∷ xs) = x ∷ take n xs

abbrev pub drop : ℕ → List WireInboxItem → List WireInboxItem
drop zero xs = xs
drop (suc n) [] = []
drop (suc n) (x ∷ xs) = drop n xs

-- `searchParams.get`.
abbrev pub param : String → List (String × String) → Option String
param name [] = none
param name ((key, value) ∷ params) =
    let rest = param name params in if str_eq key name then some value else rest

abbrev pub in_view : Option String → WireInboxItem → Bool
in_view none item = not item.archived
in_view (some name) item =
    if str_eq name "unread"
    then is_unread item
    else if str_eq name "archived"
    then item.archived
    else not item.archived

abbrev pub visible : Option String → List WireInboxItem → List WireInboxItem
visible view = filter (in_view view)

-- Behind the position of a cursor.
abbrev pub is_behind : String × String → WireInboxItem → Bool
is_behind (occurred_at, id) item =
    text_lt item.occurred_at occurred_at
    || (str_eq item.occurred_at occurred_at && text_lt item.id id)

-- `findIndex`, and the length where it finds none.
abbrev pub find_index : (WireInboxItem → Bool) → List WireInboxItem → ℕ
find_index p [] = 0
find_index p (x ∷ xs) = let rest = find_index p xs in if p x then 0 else suc rest

abbrev pub start_of : Platform → Option String → List WireInboxItem → ℕ
start_of p none items = 0
start_of p (some cursor) items = find_index (is_behind (p.parse cursor)) items

abbrev pub next_cursor_of : Platform → Bool → Option WireInboxItem → Option String
next_cursor_of p true (some last) = some (p.stringify last.occurred_at last.id)
next_cursor_of p _ _ = none

unfoldable pub page_behind : Platform → Option String → ℕ → List WireInboxItem → WireInboxPage
page_behind p cursor limit items =
    let start = start_of p cursor items in
    let page_items = take limit (drop start items) in
    record {
      items = page_items;
      next_cursor = next_cursor_of p (ltb (start + limit) (length items)) (get_last? page_items);
    }

unfoldable pub etag_of : ℕ → Option String → Option String → String
etag_of version view cursor =
    "\"v"
    +++ (decimal version +++ (":" +++ (or_else view "" +++ (":" +++ (or_else cursor "" +++ "\"")))))

-- `headers[name] === value`.
abbrev pub same_header : Option String → String → Bool
same_header none value = false
same_header (some header) value = str_eq header value

-- The response: none for a 304.
unfoldable pub list_items :
    Platform → List (String × String) → Option String → StubServer → Option WireInboxPage × String
list_items p params if_none_match s =
    let cursor = param "cursor" params in
    let limit = p.number (or_else (param "limit" params) "20") in
    let view = param "filter" params in
    let etag = etag_of s.version view cursor in
    (
      if same_header if_none_match etag
          then none
          else some (page_behind p cursor limit (visible view s.items)),
      etag,
    )
