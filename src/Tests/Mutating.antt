-- ===== src/Tests/Mutating.antt =====
-- Mutations at concrete inputs.
use chimely.Prelude.{◌+◌, [], ◌≡◌, refl, arith}
use chimely.Types.{ChimelyError, notification, archived_view}
use chimely.Errors.{fetch_failed, other, http_result, network_error}
use chimely.Client.Merge.{to_item}
use chimely.Client.Mutations.{mark_read, mark_unread, archive, unarchive, Reply}
use chimely.Client.Mutations.Counts.{KeepsBacklog, unread_items, item_calls_count}
use chimely.Client.Mutations.Rollback.{Restores, failed_call-Restores, rollback_after_switch}
use chimely.Client.Step.{Event, step}
use chimely.Tests.{client, loaded}

abbrev offline : ChimelyError
offline = network_error other

failed_call-Restores_example :
    Restores client.store.snapshot
      (step
        (Event.call_lands 0 (fetch_failed other))
        (step (Event.archives "n3" notification) client)).store.snapshot
      offline
unfolding http_result client
failed_call-Restores_example =
    failed_call-Restores (Event.archives "n3" notification) client (fetch_failed other) offline tt
      refl

item_calls_count_example :
    KeepsBacklog client (mark_read "n3" notification client)
    × KeepsBacklog client (mark_unread "n3" notification client)
    × KeepsBacklog client (archive "n3" notification client)
    × ((unarchive "n3" notification client).store.snapshot.counts.unread
          + unread_items (unarchive "n3" notification client).store.snapshot.items
        ≡ 4)
unfolding client to_item
item_calls_count_example =
    item_calls_count "n3" notification client (refl, (refl, tt)) (omega arith)

abbrev read_reply : Reply
read_reply = record { unread = 1; unseen = 9; preferences = [] }

abbrev seen_reply : Reply
seen_reply = record { unread = 9; unseen = 2; preferences = [] }

rollback_after_switch_example :
    let after =
      step (Event.call_lands 0 (fetch_failed other)) (
        step
          (Event.sets_filter archived_view)
          (step (Event.marks_read "n3" notification) client)) in
    (after.store.snapshot.filter ≡ archived_view) × (after.store.snapshot.items ≡ loaded)
unfolding client to_item http_result
rollback_after_switch_example =
    rollback_after_switch "n3" notification archived_view client (fetch_failed other) offline refl
      refl refl refl
