-- ===== src/Stub/Routes.antt =====
-- `fetchFn` and `route`: what the stub server does with a request of the client.
-- A path is a list of its segments, an id in it with no percent encoding; a header goes by the name
-- that the client gives it.
use chimely.Prelude.{
  ℕ, ◌+◌, String, ◌+++◌, Bool, true, false, not, ◌&&◌, ◌||◌, Option, none, some, List, [], ◌∷◌,
  ◌++◌, map, if◌then◌else◌, or_else, str_eq, filter, find?,
}
use chimely.Types.{
  InboxItemSource, notification, broadcast, WireInboxItem, WireInboxPage, InboxCounts, Preference,
}
use chimely.Client.State.{Method, get, post, put, Request}
use chimely.Stub.{
  Platform, StubServer, InjectedFailure, RecordedRequest, counts, set_preference_row,
}
use chimely.Stub.Listing.{list_items, param, same_header}

pub data StubBody : Type 0 where
  no_body : StubBody
  error_body : (code message : String) → StubBody
  page_body : WireInboxPage → StubBody
  counts_body : InboxCounts → StubBody
  preferences_body : List Preference → StubBody

pub record StubResponse : Type 0 where
  pub status : ℕ
  pub etag : Option String
  pub body : StubBody

-- `json`, and a response with no body.
abbrev json_response : ℕ → StubBody → StubResponse
json_response status body = record { status = status; etag = none; body = body }

abbrev bare : ℕ → StubResponse
bare status = record { status = status; etag = none; body = no_body }

pub data Action : Type 0 where
  to_read to_unread to_archived to_unarchived : Action

pub data Route : Type 0 where
  item_list item_counts all_archived read_archived all_read all_seen : Route
  item_action : InboxItemSource → String → Action → Route
  preference_rows preference_writes no_route : Route

abbrev pub action_of : String → Option Action
action_of verb =
    if str_eq verb "read"
    then some to_read
    else if str_eq verb "unread"
    then some to_unread
    else if str_eq verb "archive"
    then some to_archived
    else if str_eq verb "unarchive"
    then some to_unarchived
    else none

abbrev pub item_route : Option InboxItemSource → String → Option Action → Route
item_route (some source) id (some action) = item_action source id action
item_route _ id _ = no_route

abbrev source_of : String → Option InboxItemSource
source_of kind =
    if str_eq kind "notifications"
    then some notification
    else if str_eq kind "broadcasts"
    then some broadcast
    else none

abbrev get_route : String → Route
get_route name =
    if str_eq name "items"
    then item_list
    else if str_eq name "counts"
    then item_counts
    else if str_eq name "preferences"
    then preference_rows
    else no_route

abbrev post_route : String → Route
post_route name =
    if str_eq name "archive-all"
    then all_archived
    else if str_eq name "archive-read"
    then read_archived
    else if str_eq name "read-all"
    then all_read
    else if str_eq name "seen-all"
    then all_seen
    else no_route

abbrev put_route : String → Route
put_route name = if str_eq name "preferences" then preference_writes else no_route

-- The tests of `route` on the method and the path.
abbrev inbox_route : Method → List String → Route
inbox_route get (name ∷ []) = get_route name
inbox_route post (name ∷ []) = post_route name
inbox_route put (name ∷ []) = put_route name
inbox_route post (kind ∷ id ∷ verb ∷ []) = item_route (source_of kind) id (action_of verb)
inbox_route _ _ = no_route

abbrev pub route_of : Method → List String → Route
route_of method (v1 ∷ inbox ∷ rest) =
    if str_eq v1 "v1" && str_eq inbox "inbox" then inbox_route method rest else no_route
route_of method _ = no_route

abbrev pub same_source : InboxItemSource → InboxItemSource → Bool
same_source notification notification = true
same_source broadcast broadcast = true
same_source _ _ = false

abbrev pub is_row : InboxItemSource → String → WireInboxItem → Bool
is_row source id row = str_eq row.id id && same_source row.source source

abbrev pub act : Action → WireInboxItem → WireInboxItem
act to_read item = record item { read = true }
act to_unread item = record item { read = false }
act to_archived item = record item { archived = true }
act to_unarchived item = record item { archived = false }

-- The flag has the wanted value already.
abbrev pub is_done : Action → WireInboxItem → Bool
is_done to_read item = item.read
is_done to_unread item = not item.read
is_done to_archived item = item.archived
is_done to_unarchived item = not item.archived

-- `find`, and the write to what it found.
abbrev pub act_on : InboxItemSource → String → Action → List WireInboxItem → List WireInboxItem
act_on source id action [] = []
act_on source id action (row ∷ rows) =
    let rest = act_on source id action rows in
    if is_row source id row then act action row ∷ rows else row ∷ rest

unfoldable pub set_item : InboxItemSource → String → Action → StubServer → StubServer × StubResponse
set_item source id action s = elim (find? (is_row source id) s.items) [
  | none ↦ (s, json_response 404 (error_body "not_found" "no such item in this environment"))
  | some item ↦ (
    if is_done action item
        then s
        else record s { items = act_on source id action s.items; version = s.version + 1 },
    bare 204,
  )
]

-- A change of all items, with the counts.
abbrev change_all : (WireInboxItem → WireInboxItem) → StubServer → StubServer
change_all f s = record s { items = map f s.items; version = s.version + 1 }

abbrev with_counts : StubServer → StubServer × StubResponse
with_counts s = (s, json_response 200 (counts_body (counts s)))

abbrev write_rows : List Preference → StubServer → StubServer
write_rows [] s = s
write_rows (pref ∷ prefs) s = write_rows prefs (set_preference_row pref s)

abbrev pub list_response : Option WireInboxPage × String → StubResponse
list_response (none, etag) = bare 304
list_response (some page, etag) = record { status = 200; etag = some etag; body = page_body page }

abbrev pub pathname : List String → String
pathname [] = ""
pathname (segment ∷ segments) = "/" +++ (segment +++ pathname segments)

abbrev method_name : Method → String
method_name get = "GET"
method_name post = "POST"
method_name put = "PUT"

unfoldable pub handle : Platform → Request → Route → StubServer → StubServer × StubResponse
handle p r item_list s =
    (s, list_response (list_items p r.url.params (param "If-None-Match" r.headers) s))
handle p r item_counts s = with_counts s
handle p r (item_action source id action) s = set_item source id action s
handle p r all_archived s = with_counts (change_all (act to_archived) s)
handle p r read_archived s =
    (change_all (λ item. if item.read then record item { archived = true } else item) s, bare 202)
handle p r all_read s = with_counts (change_all (act to_read) s)
handle p r all_seen s = with_counts (record s { unseen = 0; version = s.version + 1 })
handle p r preference_rows s = (s, json_response 200 (preferences_body s.prefs))
handle p r preference_writes s =
    let written = write_rows (or_else r.body []) s in
    (written, json_response 200 (preferences_body written.prefs))
handle p r no_route s = (
  s,
  json_response 404 (
      error_body "not_found"
        ("no route for " +++ (method_name r.method +++ (" " +++ pathname r.url.segments)))),
)

-- `!==` with a header that may be missing, and with a requirement that may be.
abbrev pub differs : Option String → Option String → Bool
differs none header = false
differs (some wanted) header = not (same_header header wanted)

abbrev pub is_refused : Request → StubServer → Bool
is_refused r s =
    differs (some s.environment) (param "X-Chimely-Environment" r.headers)
    || (differs (some s.subscriber_id) (param "X-Chimely-Subscriber" r.headers)
        || (differs s.require_hash (param "X-Chimely-Subscriber-Hash" r.headers)
            || differs s.require_expires (param "X-Chimely-Subscriber-Expires" r.headers)))

abbrev starts_with : String → String → Bool
starts_with String.[] text = true
starts_with (String.◌∷◌ c part) String.[] = false
starts_with (String.◌∷◌ c part) (String.◌∷◌ d text) =
    str_eq (String.◌∷◌ c String.[]) (String.◌∷◌ d String.[]) && starts_with part text

-- `includes`.
abbrev includes : String → String → Bool
includes part String.[] = starts_with part String.[]
includes part (String.◌∷◌ c text) = starts_with part (String.◌∷◌ c text) || includes part text

abbrev same_method : Method → Method → Bool
same_method get get = true
same_method post post = true
same_method put put = true
same_method _ _ = false

abbrev hits : Request → InjectedFailure → Bool
hits r failure =
    same_method failure.method r.method && includes failure.path_includes (pathname r.url.segments)

-- `findIndex` and `splice`.
abbrev pub take_failure :
    Request → List InjectedFailure → Option (InjectedFailure × List InjectedFailure)
take_failure r [] = none
take_failure r (failure ∷ failures) =
    let later = take_failure r failures in
    if hits r failure
    then some (failure, failures)
    else elim later [ none ↦ none | some (found, rest) ↦ some (found, failure ∷ rest) ]

unfoldable pub route : Platform → Request → StubServer → StubServer × StubResponse
route p r s = elim (take_failure r s.failures) [
  | some (failure, rest) ↦ (
    record s { failures = rest },
    json_response failure.status (error_body failure.code failure.message),
  )
  | none ↦
      if is_refused r s
      then (s, json_response 401 (error_body "unauthorized" "missing or invalid subscriber auth"))
      else handle p r (route_of r.method r.url.segments) s
]

-- The request is recorded with the status of its response.
abbrev pub recorded : Request → StubServer × StubResponse → StubServer × StubResponse
recorded r (s, response) = (
  record s { requests = s.requests ++ record { request = r; status = response.status } ∷ [] },
  response,
)

unfoldable pub fetch : Platform → Request → StubServer → StubServer × StubResponse
fetch p r s = recorded r (route p r s)

unfoldable requests_for : String → StubServer → List RecordedRequest
requests_for path_includes s =
    filter (λ recorded. includes path_includes (pathname recorded.request.url.segments)) s.requests
