-- ===== src/React/Session.antt =====
-- The effects by which <Inbox /> of packages/react/src/Inbox.tsx drives the client that it owns.
pub mod Laws
use chimely.Prelude.{ℕ, String, Bool, true, false, Option, if◌then◌else◌}
use chimely.Types.{ConnectionStatus, closed}
use chimely.Client.State.{Client}
use chimely.Client.Connection.{connect, set_credentials}

abbrev is_closed : ConnectionStatus → Bool
is_closed closed = true
is_closed _ = false

-- The effect of new credentials with a hash. `created` and `again` say whether a stream can be
-- created, in setCredentials and in connect.
unfoldable pub change_credentials : String → Option ℕ → Bool → Bool → Client → Client
change_credentials hash expires_at created again c =
    let replaced = set_credentials hash expires_at created c in
    if is_closed replaced.store.snapshot.status then connect again replaced else replaced
