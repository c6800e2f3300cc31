-- ===== src/Tests/Components.antt =====
-- The logic of the React components at concrete inputs.
use chimely.Prelude.{
  arith, String, true, false, none, some, List, [], ◌∷◌, ◌≡◌, refl, length, contains, Distinct, All,
}
use chimely.Types.{
  json_object, json_string, field_then, no_fields, Preference, InboxItem, in_app, closed,
}
use chimely.Client.State.{Client}
use chimely.Client.Merge.{to_item}
use chimely.React.Preferences.{apply_writes, is_enabled}
use chimely.React.Preferences.Laws.{is_enabled-apply_writes}
use chimely.React.Pill.{initial_pill, merges, scrolls, pill_step, pill_run}
use chimely.React.Pill.Laws.{pill_counts}
use chimely.React.Popover.{Popover}
use chimely.React.Session.{change_credentials}
use chimely.React.Session.Laws.{Reaches, credentials_reach_stream}
use chimely.React.Rows.{ItemRenderProps, default_item, absent, text, press_read, press_archive}
use chimely.React.Rows.Laws.{Turned, Removed, ShowsSame, row_actions}
use chimely.React.Navigation.{Target, follow}
use chimely.React.Navigation.Laws.{Allowed, follow-Allowed}
use chimely.Tests.{client, wire}

abbrev unread_row : InboxItem
unread_row = to_item (wire "n3" "2026-03" false)

-- A title is shown though it is empty; a body is not.
empty_texts :
    let payload =
      json_object
        (field_then "title" (json_string "") (field_then "body" (json_string "") no_fields)) in
    let renderers : ItemRenderProps Unit = record {
      render_subject = none;
      render_body = none;
      render_avatar = none;
    } in
    default_item Unit (λ iso. iso) renderers (record unread_row { payload = payload })
    ≡ record { avatar = absent; subject = text ""; body = absent; time = "2026-03"; dot = true }
unfolding default_item to_item
empty_texts = refl

row_actions_example :
    Turned unread_row "n2" client (press_read unread_row client)
    × ShowsSame
        (press_read (record unread_row { read = true }) (press_read unread_row client))
        client
    × Removed unread_row "n2" client (press_archive unread_row client)
unfolding client to_item
row_actions_example =
    row_actions unread_row client "n2" (refl, (refl, tt)) refl (omega arith) refl refl

abbrev muted : String → Preference
muted category = record { category = category; channel = in_app; enabled = false }

abbrev unmuted : String → Preference
unmuted category = record { category = category; channel = in_app; enabled = true }

abbrev writes : List Preference
writes = muted "digest" ∷ unmuted "billing" ∷ muted "billing" ∷ []

is_enabled-apply_writes_example :
    is_enabled (apply_writes (muted "alerts" ∷ []) writes) "billing" ≡ false
unfolding is_enabled
is_enabled-apply_writes_example = is_enabled-apply_writes (muted "alerts" ∷ []) writes "billing"

-- Two arrivals while the list is scrolled down, of which a reset evicts one.
pill_counts_example :
    let p =
      pill_step (merges ("n5" ∷ []) ("n5" ∷ "n4" ∷ []) 90) (
        pill_run
          (merges ("n3" ∷ "n4" ∷ []) ("n4" ∷ "n3" ∷ []) 90 ∷ scrolls 80 ∷ [])
          initial_pill) in
    (p.pending_count ≡ length p.pending_new_ids)
    × Distinct p.pending_new_ids
    × All (λ id. contains ("n5" ∷ "n4" ∷ []) id ≡ true) p.pending_new_ids
pill_counts_example =
    pill_counts (merges ("n3" ∷ "n4" ∷ []) ("n4" ∷ "n3" ∷ []) 90 ∷ scrolls 80 ∷ []) ("n5" ∷ [])
      ("n5" ∷ "n4" ∷ []) 90

-- A client that has given up.
abbrev given_up : Client
given_up = record client {
  store = record client.store { snapshot = record client.store.snapshot { status = closed } };
}

credentials_reach_stream_example :
    Reaches "h2" (some 900) (change_credentials "h2" (some 900) true true given_up)
unfolding client
credentials_reach_stream_example =
    credentials_reach_stream "h2" (some 900) given_up
      (record { fits = tt; streams = tt; timers = tt }) (λ e. cc) refl

abbrev page : Target
page = record {
  protocol = "https:";
  origin = "https://app.dev";
  pathname = "/invoices";
  search = "?id=1";
  hash = "";
}

follow-Allowed_example :
    Allowed "https://app.dev" true "/invoices?id=1" page
      (follow (λ url. some page) "https://app.dev" true (some "/invoices?id=1"))
follow-Allowed_example =
    follow-Allowed (λ url. some page) "https://app.dev" true "/invoices?id=1" page refl refl

abbrev popover : Popover
popover = record { internal_open = false; was_open = false; changes = []; client = client }
