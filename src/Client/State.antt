-- ===== src/Client/State.antt =====
-- The fields of ChimelyClient, its constructor, and the requests that it sends.
-- A URL is kept as its path segments and its query parameters, before the platform's percent
-- encoding. `streams`, `timers` and `sent` stand for the platform: the event sources that are not
-- closed, the timeouts that wait, and the log of requests. `pending` holds the mutations that wait
-- for a response, with what each captured; `refreshing` and `fetching_more` are the promises of
-- those names, each with where its async function waits.
pub mod Laws
use chimely.Prelude.{
  ℕ, String, Bool, false, not, Option, none, some, List, [], ◌∷◌, ◌++◌, min, max, or_else,
  if◌then◌else◌, str_eq, decimal,
}
use chimely.Types.{
  ChimelyClientConfig, InboxSnapshot, InboxFilterView, default_view, unread_view, archived_view,
  Preference,
}
use chimely.Store.{InboxStore, new_store}

pub data Method : Type 0 where
  get post put : Method

pub record Url : Type 0 where
  pub base : String
  pub segments : List String
  pub params : List (String × String)

pub record Request : Type 0 where
  pub method : Method
  pub url : Url
  pub headers : List (String × String)
  pub body : Option (List Preference)

-- An event source with the generation that its listeners captured.
pub record Stream : Type 0 where
  pub id : ℕ
  pub generation : ℕ
  pub url : Url

-- `retryOverrideMs`, or `backoffDelayMs` at a number of attempts.
pub data Delay : Type 0 where
  directive : ℕ → Delay
  backoff_at : ℕ → Delay

pub record Timer : Type 0 where
  pub id : ℕ
  pub generation : ℕ
  pub delay : Delay

pub record Connection : Type 0 where
  pub source : Option ℕ
  pub reconnect_timer : Option ℕ
  pub attempts : ℕ
  pub generation : ℕ
  pub last_event_id : Option String
  pub retry_override_ms : Option ℕ
  pub streams : List Stream
  pub timers : List Timer
  pub next_id : ℕ

-- Where an async function waits: for the responses, under the view generation that it captured, or
-- for the microtask in which its caller goes on.
pub data Phase : Type 0 where
  awaiting : ℕ → Phase
  returning : Phase

pub record ListState : Type 0 where
  pub etag : Option String
  pub cursor : Option String
  pub view_generation : ℕ
  pub refreshing : Option Phase
  pub refresh_again : Bool
  pub fetching_more : Option Phase

pub data Mutation : Type 0 where
  -- markRead, markUnread, archive, unarchive: `prev` and `changed`
  item_call : InboxSnapshot → Bool → Mutation
  -- archiveAll, markAllRead: `prev`
  unread_call : InboxSnapshot → Mutation
  -- markAllSeen: `prev`
  seen_call : InboxSnapshot → Mutation
  archive_read_call : Mutation
  set_preferences_call : Mutation

pub record Client : Type 0 where
  pub config : ChimelyClientConfig
  pub base_url : String
  pub page_size : ℕ
  pub max_attempts : Option ℕ
  pub store : InboxStore
  pub connection : Connection
  pub list : ListState
  pub pending : List Mutation
  pub sent : List Request

-- `serverUrl.replace(/\/+$/, '')`.
unfoldable pub strip_slashes : String → String
strip_slashes String.[] = String.[]
strip_slashes (String.◌∷◌ c s) =
    let rest = strip_slashes s in
    let kept = String.◌∷◌ c rest in if str_eq kept "/" then String.[] else kept

-- `Math.min(100, Math.max(1, n))`.
abbrev pub clamp_page : ℕ → ℕ
clamp_page n = min 100 (max 1 n)

unfoldable pub new_client : ChimelyClientConfig → Client
new_client config = record {
  config = config;
  base_url = strip_slashes config.server_url;
  page_size = clamp_page (or_else config.page_size 20);
  max_attempts = config.max_attempts;
  store = new_store;
  connection = record {
    source = none;
    reconnect_timer = none;
    attempts = 0;
    generation = 0;
    last_event_id = none;
    retry_override_ms = none;
    streams = [];
    timers = [];
    next_id = 0;
  };
  list = record {
    etag = none;
    cursor = none;
    view_generation = 0;
    refreshing = none;
    refresh_again = false;
    fetching_more = none;
  };
  pending = [];
  sent = [];
}

-- A string in a test: neither absent nor empty.
abbrev pub truthy : Option String → Bool
truthy none = false
truthy (some s) = not (str_eq s "")

-- `if (value !== undefined) entries[name] = value`.
abbrev pub when_some : String → Option String → List (String × String)
when_some name none = []
when_some name (some value) = (name, value) ∷ []

abbrev pub when_number : String → Option ℕ → List (String × String)
when_number name none = []
when_number name (some n) = (name, decimal n) ∷ []

abbrev pub when_truthy : String → Option String → List (String × String)
when_truthy name value = if truthy value then when_some name value else []

abbrev pub content_type : Option (List Preference) → List (String × String)
content_type none = []
content_type (some body) = ("Content-Type", "application/json") ∷ []

-- The head of `http`, up to the call of `fetchFn`.
unfoldable pub request :
    Client
    → Method
    → List String
    → List (String × String)
    → Option String
    → Option (List Preference)
    → Request
request c method segments params if_none_match body = record {
  method = method;
  url = record { base = c.base_url; segments = segments; params = params };
  headers =
      ("X-Chimely-Environment", c.config.environment)
      ∷ ("X-Chimely-Subscriber", c.config.subscriber_id)
      ∷ (when_some "X-Chimely-Subscriber-Hash" c.config.subscriber_hash
          ++ (when_number "X-Chimely-Subscriber-Expires" c.config.subscriber_hash_expires_at
              ++ (when_truthy "If-None-Match" if_none_match ++ content_type body)));
  body = body;
}

-- `this.http(method, path)`, as far as it is synchronous.
abbrev pub send : Client → Request → Client
send c r = record c { sent = c.sent ++ r ∷ [] }

-- `filterParam()`, and the `filter` parameter of `doFetchMore`.
unfoldable pub filter_param : InboxFilterView → List (String × String)
filter_param default_view = []
filter_param unread_view = ("filter", "unread") ∷ []
filter_param archived_view = ("filter", "archived") ∷ []
