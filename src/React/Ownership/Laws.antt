-- ===== src/React/Ownership/Laws.antt =====
-- What a mounted tree leaves behind.
use chimely.Prelude.{Bool, Option, none, some, List, ◌∷◌, ◌≡◌, refl}
use chimely.Types.{ChimelyClientConfig}
use chimely.Client.State.{Client, new_client}
use chimely.Client.Connection.{connect, close}
use chimely.Client.Step.{Event, run, step}
use chimely.Client.Lifecycle.{IsDetached, detach-IsDetached}
use chimely.Client.Lifecycle.Safety.{run-new_client-ConnectionInv}
use chimely.React.Ownership.{
  ConnectionProps, Provided, owned, shared, thrown, inbox_client, provide_inbox, owned_config,
  mount, unmount,
}

-- Events of the client while the tree is mounted.
abbrev live : List Event → Provided → Provided
live events (owned client) = owned (run events client)
live events (shared client) = shared (run events client)
live events (thrown message) = thrown message

abbrev ran : List Event → Option Client → Option Client
ran events none = none
ran events (some client) = some (run events client)

-- A client that the tree owns is left without a stream and a timer; one of its surroundings has had
-- its events alone.
abbrev Leaves : List Event → Option Client → Provided → Type 0
Leaves events outer (owned client) = IsDetached client.connection
Leaves events outer (shared client) = ran events outer ≡ some client
Leaves events outer (thrown message) = Unit

left_silent :
    (created : Bool) (config : ChimelyClientConfig) (events : List Event)
    → IsDetached (close (run events (connect created (new_client config)))).connection
unfolding close run step
left_silent created config events =
    detach-IsDetached _ (run-new_client-ConnectionInv config (Event.connects created ∷ events))

inbox_client-Leaves :
    (given : Option (Option ChimelyClientConfig)) (outer : Option Client) (created : Bool)
    (events : List Event)
    → Leaves events outer (unmount (live events (mount created (inbox_client given outer))))
unfolding mount unmount
inbox_client-Leaves none outer created events = tt
inbox_client-Leaves (some (some config)) outer created events = left_silent created config events
inbox_client-Leaves (some none) none created events = tt
inbox_client-Leaves (some none) (some client) created events = refl

-- Whatever its props and its surroundings, an inbox that is mounted, lives through any events of its
-- client and is unmounted leaves a client of its own without a stream and a timer, and a client of its
-- surroundings with those events alone.
unmount-Leaves :
    (props : ConnectionProps) (outer : Option Client) (created : Bool) (events : List Event)
    → Leaves events outer (unmount (live events (mount created (provide_inbox props outer))))
unmount-Leaves props outer created events =
    inbox_client-Leaves (owned_config props) outer created events
