-- ===== src/Tests.antt =====
-- Test data: a client's configuration, items as the server sends them, and loaded clients.
pub mod Admin
pub mod Connection
pub mod Components
pub mod Layers
pub mod Loading
pub mod Merging
pub mod Mutating
pub mod Pages
pub mod Refreshing
pub mod Serving
use chimely.Prelude.{String, Bool, true, false, none, some, List, [], ◌∷◌, map}
use chimely.Types.{
  json_null, WireInboxItem, WireInboxPage, InboxItem, notification, ChimelyClientConfig,
  ConnectionStatus,
}
use chimely.Errors.{Response, Settled, responded, parsed, unparsable}
use chimely.Store.{new_store, initial_snapshot}
use chimely.Client.State.{Client, new_client}
use chimely.Client.Merge.{to_item}

abbrev pub wire : String → String → Bool → WireInboxItem
wire id at read = record {
  archived = false;
  category = "billing";
  id = id;
  occurred_at = at;
  payload = json_null;
  read = read;
  source = notification;
}

abbrev pub config : ChimelyClientConfig
config = record {
  server_url = "https://chimely.dev//";
  environment = "prod";
  subscriber_id = "u1";
  subscriber_hash = none;
  subscriber_hash_expires_at = none;
  max_attempts = some 2;
  page_size = none;
}

abbrev pub first_page : WireInboxPage
first_page = record {
  items = wire "n4" "2026-04" false ∷ wire "n3" "2026-03" false ∷ [];
  next_cursor = some "c3";
}

abbrev pub second_page : WireInboxPage
second_page = record {
  items = wire "n2" "2026-02" true ∷ wire "n1" "2026-01" false ∷ [];
  next_cursor = none;
}

abbrev pub loaded : List InboxItem
loaded = map to_item (wire "n3" "2026-03" false ∷ wire "n2" "2026-02" true ∷ [])

-- A client that has loaded two items, one of them unread.
unfoldable pub client : Client
unfolding new_client new_store
client = record (new_client config) {
  store = record new_store {
    snapshot = record initial_snapshot {
      items = loaded;
      counts = record { unread = 3; unseen = 2 };
    };
  };
}

abbrev pub answer {ℓ} : {A : Type ℓ} → A → Settled A
answer a =
    responded (record { status = 200; etag = some "v1"; body = parsed a; error_body = unparsable })
