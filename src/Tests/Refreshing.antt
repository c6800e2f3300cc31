-- ===== src/Tests/Refreshing.antt =====
-- The refresh loop and whole histories at concrete inputs.
use chimely.Prelude.{true, false, none, some, List, [], ◌∷◌, ◌≡◌, refl, length}
use chimely.Types.{unread_view, notification}
use chimely.Errors.{Result, ok, err, other, network_error}
use chimely.Client.State.{Client, awaiting, new_client}
use chimely.Client.Merge.{to_item}
use chimely.Client.Refresh.{Fetched, refresh_settled, refresh_returns}
use chimely.Client.Refresh.Coalesce.{asks, refresh_coalesces}
use chimely.Client.Refresh.Loop.{ListInv}
use chimely.Client.Refresh.LoopEvents.{run-new_client-ListInv}
use chimely.Client.Items.{ItemsInv}
use chimely.Client.Items.Events.{run-new_client-ItemsInv}
use chimely.Client.Step.{Event, run}
use chimely.Tests.{config, client, first_page, second_page, answer}

-- A refresh, a switch of the view while it is under way, its rerun, a further page and a mutation.
abbrev history : List Event
history =
    Event.refreshes
    ∷ Event.sets_filter unread_view
    ∷ Event.refresh_lands true (answer first_page) (answer (record { unread = 3; unseen = 1 }))
    ∷ Event.refresh_resumes
    ∷ Event.refresh_lands false (answer first_page) (answer (record { unread = 3; unseen = 1 }))
    ∷ Event.refresh_resumes
    ∷ Event.fetches_more none
    ∷ Event.marks_read "n4" notification
    ∷ Event.page_lands (answer second_page)
    ∷ Event.page_resumes
    ∷ []

run-new_client-ListInv_example : ListInv (run history (new_client config))
run-new_client-ListInv_example = run-new_client-ListInv config history

run-new_client-ItemsInv_example : ItemsInv (run history (new_client config))
unfolding to_item
run-new_client-ItemsInv_example = run-new_client-ItemsInv config history (
  tt,
  (
    tt,
    (
      (refl, (refl, tt)),
      (tt, ((refl, (refl, tt)), (tt, (tt, (tt, ((refl, (refl, tt)), (tt, tt))))))),
    ),
  ),
)

abbrev refreshing : Client
refreshing = record client { list = record client.list { refreshing = some (awaiting 0) } }

abbrev read : Result Fetched
read = ok (record { counts = record { unread = 3; unseen = 1 }; page = some (first_page, none) })

refresh_coalesces_example :
    let again = refresh_returns (refresh_settled read (asks 3 refreshing)) in
    let over = refresh_returns (refresh_settled (err (network_error other)) again) in
    ((asks 3 refreshing).sent ≡ [])
    × (again.list.refreshing ≡ some (awaiting again.list.view_generation))
    × (length again.sent ≡ 2)
    × (over.list.refreshing ≡ none)
    × (over.sent ≡ again.sent)
unfolding client
refresh_coalesces_example = refresh_coalesces 2 0 read (err (network_error other)) refreshing refl
