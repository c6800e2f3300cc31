-- ===== src/Stub/Session.antt =====
-- A client that fills its list from the stub server: the fill effect asks for a page, the server
-- answers the request, and the answer lands.
pub mod Requests
pub mod Rounds
pub mod Drain
use chimely.Prelude.{
  ℕ, zero, suc, String, Bool, true, false, Option, none, some, List, [], ◌∷◌, get_last?,
  if◌then◌else◌,
}
use chimely.Types.{WireInboxPage}
use chimely.Errors.{
  Response, Settled, responded, Body, parsed, rejected, other, envelope, ErrorBody, no_error,
  unparsable,
}
use chimely.Client.State.{Client, Request}
use chimely.Client.Paging.{fetched_page, fetch_more_settled, fetch_more_returns}
use chimely.React.Fill.{should_fill, fill}
use chimely.Stub.{Platform, StubServer}
use chimely.Stub.Routes.{
  StubBody, no_body, error_body, page_body, counts_body, preferences_body, StubResponse, fetch,
}

-- A response of the stub as the client reads it that expects a page.
abbrev page_in : StubBody → Body WireInboxPage
page_in (page_body page) = parsed page
page_in _ = rejected other

abbrev error_in_body : StubBody → ErrorBody
error_in_body no_body = unparsable
error_in_body (error_body code message) = envelope (some code) (some message)
error_in_body _ = no_error

abbrev pub answer : StubResponse → Settled WireInboxPage
answer r = responded (record {
  status = r.status;
  etag = r.etag;
  body = page_in r.body;
  error_body = error_in_body r.body;
})

-- The answer of the server lands, and the `finally` handler runs.
abbrev pub lands : StubServer × StubResponse → Client → StubServer × Client
lands (s, response) c =
    (s, fetch_more_returns (fetch_more_settled (fetched_page (answer response)) c))

abbrev pub serve_last : Platform → Option Request → StubServer → Client → StubServer × Client
serve_last p none s c = (s, c)
serve_last p (some r) s c = lands (fetch p r s) c

-- One run of the effect with the sentinel in view, through to its end.
unfoldable pub fill_round : Platform → StubServer × Client → StubServer × Client
fill_round p (s, c) =
    if should_fill true c
    then serve_last p (get_last? (fill true none c).sent) s (fill true none c)
    else (s, c)

abbrev pub fill_rounds : Platform → ℕ → StubServer × Client → StubServer × Client
fill_rounds p zero state = state
fill_rounds p (suc n) state = fill_rounds p n (fill_round p state)
