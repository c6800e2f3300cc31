-- ===== src/Tests/Serving.antt =====
-- The client and the stub server at concrete inputs.
use chimely.Store.{new_store}
use chimely.Client.State.{new_client}
use chimely.Stub.Session.{fill_rounds}
use chimely.Stub.Session.Drain.{Drained, fill_rounds-Drained}
use chimely.Prelude.{
  map, decimal, String, true, false, none, some, List, [], ◌∷◌, ◌≡◌, refl, ap, arith, inl,
  if◌then◌else◌, str_eq, text_lt, filter,
}
use chimely.Types.{notification, WireInboxItem, default_view, archived_view}
use chimely.Client.State.{Client}
use chimely.Client.Merge.{to_item}
use chimely.Client.Step.{Event, step}
use chimely.Stub.{Platform, StubServer, create_stub_server, Overrides}
use chimely.Stub.Access.{Accepts}
use chimely.Stub.Served.{served, InSync}
use chimely.Stub.Agreement.{optimistic_agrees}
use chimely.Tests.{config, client, wire}

-- A pair of texts as one: each character of the first behind a 1, then a 0, then the second.
abbrev join : String → String → String
join String.[] b = String.◌∷◌ "0" b
join (String.◌∷◌ c a) b = String.◌∷◌ "1" (String.◌∷◌ c (join a b))

abbrev cut : String → String × String
cut String.[] = ("", "")
cut (String.◌∷◌ t String.[]) = ("", "")
cut (String.◌∷◌ t (String.◌∷◌ c text)) =
    let rest = cut text in
    if str_eq (String.◌∷◌ t String.[]) "1"
    then (String.◌∷◌ c rest.0, rest.1)
    else ("", String.◌∷◌ c text)

cut-join : (a b : String) → cut (join a b) ≡ (a, b)
cut-join String.[] String.[] = refl
cut-join String.[] (String.◌∷◌ c b) = refl
cut-join (String.◌∷◌ c a) b = ap (λ z. (String.◌∷◌ c z.0, z.1)) (cut-join a b)

abbrev platform : Platform
platform = record {
  stringify = join;
  parse = cut;
  parse_stringify = cut-join;
  number = λ text. 2;
  iso = λ ms. "2026-05";
}

abbrev two_rows : List WireInboxItem
two_rows = wire "n3" "2026-03" false ∷ wire "n2" "2026-02" true ∷ []

unfoldable server : StubServer
unfolding create_stub_server
server =
    record (create_stub_server (record {
      environment = some "prod";
      subscriber_id = some "u1";
      require_hash = none;
      require_expires = none;
      base_time_ms = none;
    })) { items = two_rows; unseen = 2 }

-- The client that shows both rows, with the server's counts.
unfoldable synced : Client
unfolding client
synced = record client {
  store = record client.store {
    snapshot = record client.store.snapshot { counts = record { unread = 1; unseen = 2 } };
  };
}

synced-Accepts : Accepts server synced
unfolding server synced client
synced-Accepts = record {
  failures = refl;
  environment = refl;
  subscriber = refl;
  hash = inl refl;
  expires = inl refl;
}

synced-InSync : InSync synced server
unfolding server synced client to_item
synced-InSync = record { items = refl; unread = refl; unseen = refl }

optimistic_agrees_example :
    let archived = step (Event.archives "n3" notification) synced in
    InSync archived (served platform archived server)
unfolding server synced client to_item
optimistic_agrees_example =
    optimistic_agrees platform default_view (Event.archives "n3" notification) synced server refl
      refl synced-Accepts (refl, (refl, tt)) synced-InSync

-- The rows of the archived view, the first of them unread, behind an unread row.
abbrev archived_row : String → String → WireInboxItem
archived_row id at = record (wire id at false) { archived = true }

unfoldable archive_server : StubServer
unfolding server
archive_server = record server {
  items = wire "n4" "2026-04" false ∷ archived_row "n3" "2026-03" ∷ [];
}

unfoldable archive_client : Client
unfolding synced client
archive_client = record synced {
  store = record synced.store {
    snapshot = record synced.store.snapshot {
      filter = archived_view;
      items = to_item (archived_row "n3" "2026-03") ∷ [];
    };
  };
}

abbrev no_overrides : Overrides
no_overrides = record {
  category = none;
  payload = none;
  read = none;
  archived = none;
  occurred_at = none;
  seen = none;
}

-- A new client with pages of two items, and a server with three rows.
unfoldable newcomer : Client
unfolding new_client new_store
newcomer = new_client (record config { page_size = some 2 })

unfoldable three_rows : StubServer
unfolding server
three_rows = record server {
  items = wire "n3" "2026-03" false ∷ wire "n2" "2026-02" true ∷ wire "n1" "2026-01" false ∷ [];
}

fill_rounds-Drained_example :
    Drained
      (map to_item
        (wire "n3" "2026-03" false ∷ wire "n2" "2026-02" true ∷ wire "n1" "2026-01" false ∷ []))
      (fill_rounds platform 4 (three_rows, newcomer)).1
unfolding newcomer new_client new_store three_rows server text_lt decimal
fill_rounds-Drained_example =
    fill_rounds-Drained platform three_rows newcomer 4
      (record {
        failures = refl;
        environment = refl;
        subscriber = refl;
        hash = inl refl;
        expires = inl refl;
      })
      ((refl, (refl, tt)), ((refl, tt), (tt, tt))) (refl, (refl, (refl, tt))) refl refl refl refl
      refl refl (omega arith)
