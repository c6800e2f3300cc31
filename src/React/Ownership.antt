-- ===== src/React/Ownership.antt =====
-- Who makes, connects and closes the client of a tree: <Inbox /> of packages/react/src/Inbox.tsx with
-- its connection props, and <ChimelyProvider> of packages/react/src/context.tsx. An effect runs in the
-- state of its own client; `created` says whether a stream can be created.
pub mod Laws
use chimely.Prelude.{ℕ, String, Bool, Option, none, some, is_some, or_else}
use chimely.Types.{ChimelyClientConfig}
use chimely.Client.State.{Client, new_client}
use chimely.Client.Connection.{connect, close}

pub record ConnectionProps : Type 0 where
  pub server_url : Option String
  pub environment : Option String
  pub subscriber_id : Option String
  pub subscriber_hash : Option String
  pub subscriber_hash_expires_at : Option ℕ
  pub max_attempts : Option ℕ

-- The client of a tree: one that it owns, one of its surroundings, or an error that is thrown.
pub data Provided : Type 0 where
  owned shared : Client → Provided
  thrown : String → Provided

-- `owned` of <Inbox />: the configuration, or none without a server URL; a page size is not a prop.
unfoldable pub owned_config : ConnectionProps → Option (Option ChimelyClientConfig)
owned_config props = elim props.server_url [
  | none ↦ some none
  | some server_url ↦ elim props.environment [
    | none ↦ none
    | some environment ↦ elim props.subscriber_id [
      | none ↦ none
      | some subscriber_id ↦ some (
          some (record {
            server_url = server_url;
            environment = environment;
            subscriber_id = subscriber_id;
            subscriber_hash = props.subscriber_hash;
            subscriber_hash_expires_at = props.subscriber_hash_expires_at;
            max_attempts = props.max_attempts;
            page_size = none;
          }))
    ]
  ]
]

-- `owned ?? contextClient`.
abbrev pub inbox_client :
    Option (Option ChimelyClientConfig) → (context_client : Option Client) → Provided
inbox_client none context_client =
    thrown "standalone <Inbox /> requires serverUrl, environment, and subscriberId"
inbox_client (some (some config)) context_client = owned (new_client config)
inbox_client (some none) (some client) = shared client
inbox_client (some none) none =
    thrown "<Inbox /> requires connection props or an enclosing <ChimelyProvider>"

abbrev pub provide_inbox : ConnectionProps → Option Client → Provided
provide_inbox props = inbox_client (owned_config props)

-- `client ?? owned` of <ChimelyProvider>.
abbrev provide : Option Client → Option ChimelyClientConfig → Provided
provide (some client) config = shared client
provide none (some config) = owned (new_client config)
provide none none = thrown "ChimelyProvider requires a client or a config prop"

-- The effect of a mount, and its cleanup.
unfoldable pub mount : Bool → Provided → Provided
mount created (owned client) = owned (connect created client)
mount created other = other

unfoldable pub unmount : Provided → Provided
unmount (owned client) = owned (close client)
unmount other = other
