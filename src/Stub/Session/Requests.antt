-- ===== src/Stub/Session/Requests.antt =====
-- The request of a further page, what the stub answers, and how the answer lands.
use chimely.Prelude.{
  ℕ, String, false, Option, none, some, List, [], ◌∷◌, ◌++◌, ◌≡◌, refl, ap, decimal, none-some,
}
use chimely.Types.{WireInboxPage, InboxFilterView, default_view, unread_view, archived_view}
use mathlib.Core.Option.{some-injective}
use chimely.Errors.{ok, http_result, json}
use chimely.Client.State.{
  Client, get, Request, request, when_some, when_number, filter_param, clamp_page,
}
use chimely.Client.Paging.{fetched_page, fetch_more_settled, fetch_more_returns}
use chimely.Stub.{Platform, StubServer}
use chimely.Stub.Listing.{param, visible, list_items, page_behind}
use chimely.Stub.Routes.{
  handle, route, fetch, recorded, list_response, route_of, take_failure, is_refused,
}
use chimely.Stub.Access.{Accepts, accepted}
use chimely.Stub.Served.{view_name}
use chimely.Stub.Session.{lands}

-- The request of a further page.
abbrev page_params : Client → List (String × String)
page_params c =
    ("limit", decimal (clamp_page c.page_size))
    ∷ (filter_param c.store.snapshot.filter ++ when_some "cursor" c.list.cursor)

abbrev pub page_request : Client → Request
page_request c = request c get ("v1" ∷ "inbox" ∷ "items" ∷ []) (page_params c) none none

limit_param :
    (view : InboxFilterView) (limit : String) (cursor : Option String)
    → param "limit" (("limit", limit) ∷ (filter_param view ++ when_some "cursor" cursor))
      ≡ some limit
limit_param view limit cursor = refl

filter_param_value :
    (view : InboxFilterView) (limit : String) (cursor : Option String)
    → param "filter" (("limit", limit) ∷ (filter_param view ++ when_some "cursor" cursor))
      ≡ view_name view
unfolding filter_param
filter_param_value default_view limit none = refl
filter_param_value default_view limit (some c) = refl
filter_param_value unread_view limit cursor = refl
filter_param_value archived_view limit cursor = refl

cursor_param :
    (view : InboxFilterView) (limit : String) (cursor : Option String)
    → param "cursor" (("limit", limit) ∷ (filter_param view ++ when_some "cursor" cursor)) ≡ cursor
unfolding filter_param
cursor_param default_view limit none = refl
cursor_param default_view limit (some c) = refl
cursor_param unread_view limit none = refl
cursor_param unread_view limit (some c) = refl
cursor_param archived_view limit none = refl
cursor_param archived_view limit (some c) = refl

no_validator :
    (hash : Option String) (at : Option ℕ)
    → param "If-None-Match" (
        when_some "X-Chimely-Subscriber-Hash" hash
        ++ (when_number "X-Chimely-Subscriber-Expires" at ++ []))
      ≡ none
no_validator none none = refl
no_validator none (some n) = refl
no_validator (some h) none = refl
no_validator (some h) (some n) = refl

abbrev pub listed : Platform → StubServer → Client → WireInboxPage
listed p s c =
    page_behind p c.list.cursor (clamp_page c.page_size)
      (visible (view_name c.store.snapshot.filter) s.items)

-- The server answers the request with the page behind the client's cursor.
pub listed_page :
    (p : Platform) (s : StubServer) (c : Client)
    → p.number (decimal (clamp_page c.page_size)) ≡ clamp_page c.page_size
    → (list_items p
        (page_request c).url.params
        (param "If-None-Match" (page_request c).headers)
        s).0
      ≡ some (listed p s c)
unfolding list_items request
listed_page p s c n =
    rw
      (
        limit_param c.store.snapshot.filter (decimal (clamp_page c.page_size)) c.list.cursor,
        filter_param_value c.store.snapshot.filter (decimal (clamp_page c.page_size)) c.list.cursor,
        cursor_param c.store.snapshot.filter (decimal (clamp_page c.page_size)) c.list.cursor,
        no_validator c.config.subscriber_hash c.config.subscriber_hash_expires_at,
        n,
      )
      refl

-- Landing the answer of a page is landing the page.
abbrev with_record : Request → StubServer → StubServer
with_record r s = record s { requests = s.requests ++ record { request = r; status = 200 } ∷ [] }

abbrev pub noted : StubServer → Client → StubServer
noted s c = with_record (page_request c) s

pub lands_page :
    (r : Request) (s : StubServer) (listing : Option WireInboxPage × String) (page : WireInboxPage)
    (d : Client)
    → listing.0 ≡ some page
    → lands (recorded r (s, list_response listing)) d
      ≡ (with_record r s, fetch_more_returns (fetch_more_settled (ok page) d))
unfolding fetched_page http_result json
lands_page r s (some other_page, etag) page d e =
    ap (λ z. (with_record r s, fetch_more_returns (fetch_more_settled (ok z) d)))
      (some-injective other_page page e)
lands_page r s (none, etag) page d e = elim (none-some e) [ ]

routed :
    (p : Platform) (r : Request) (s : StubServer)
    → s.failures ≡ []
    → is_refused r s ≡ false
    → route p r s ≡ handle p r (route_of r.method r.url.segments) s
unfolding route
routed p r s f a =
    let none_left : take_failure r s.failures ≡ none = ap (take_failure r) f in
    rw (none_left, a, route) refl

pub fetch_page :
    (p : Platform) (s : StubServer) (c : Client)
    → Accepts s c
    → fetch p (page_request c) s
      ≡ recorded (page_request c) (
        s,
        list_response (
            list_items p
              (page_request c).url.params
              (param "If-None-Match" (page_request c).headers)
              s),
      )
unfolding fetch handle request
fetch_page p s c a = ap (recorded (page_request c)) (
    routed p (page_request c) s a.failures
      (accepted c s get ("v1" ∷ "inbox" ∷ "items" ∷ []) (page_params c) none none a))
