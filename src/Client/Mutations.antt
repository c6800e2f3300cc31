-- ===== src/Client/Mutations.antt =====
-- The mutations of packages/client/src/client.ts. Each has a synchronous head, which patches the
-- snapshot and sends the request, and a tail, which runs when the response has come.
pub mod Counts
pub mod Rollback
use chimely.Prelude.{
  ℕ, zero, suc, ◌+◌, ◌-◌, String, Bool, true, false, not, ◌&&◌, Option, none, some, List, [], ◌∷◌,
  ◌++◌, map, is_some, if◌then◌else◌, str_eq, ◌==◌, filter, find?, get_elem?, erase_idx,
}
use chimely.Types.{
  InboxItem, InboxCounts, InboxItemSource, notification, broadcast, InboxSnapshot, ChimelyError,
  InboxFilterView, archived_view, view_eq, Preference, WirePreferenceList,
}
use chimely.Errors.{Settled, Response, Result, ok, err, ◌>>=◌, http_result, json}
use chimely.Store.{Patch, empty_patch, patch}
use chimely.Client.State.{
  Client, Method, get, post, put, request, send, Mutation, item_call, unread_call, seen_call,
  archive_read_call, set_preferences_call,
}
use chimely.Client.Refresh.{refresh}

-- `prev.items.find((candidate) => candidate.id === id)`.
abbrev pub target_of : InboxSnapshot → String → Option InboxItem
target_of prev id = find? (λ candidate. str_eq candidate.id id) prev.items

-- `candidate.id === item.id ? { ...candidate, read } : candidate`, over the list.
abbrev pub set_read : String → Bool → List InboxItem → List InboxItem
set_read id read =
    map
      (λ candidate. if str_eq candidate.id id then record candidate { read = read } else candidate)

abbrev pub remove_item : String → List InboxItem → List InboxItem
remove_item id = filter (λ candidate. not (str_eq candidate.id id))

abbrev pub source_segment : InboxItemSource → String
source_segment notification = "notifications"
source_segment broadcast = "broadcasts"

abbrev pub read_of : Option InboxItem → Bool → Bool
read_of none absent = absent
read_of (some item) absent = item.read

-- The optimistic patch, if there is one, then the request and the captured snapshot.
abbrev pub start_item_call :
    Client → Bool → List InboxItem → ℕ → InboxItemSource → String → String → Client
start_item_call c changed items unread source id verb =
    let prev = c.store.snapshot in
    let optimistic = record empty_patch {
      items = some items;
      counts = some (record prev.counts { unread = unread });
    } in
    let patched = if changed then record c { store = patch c.store optimistic } else c in
    let called = record patched { pending = patched.pending ++ item_call prev changed ∷ [] } in
    send called
      (request called post ("v1" ∷ "inbox" ∷ source_segment source ∷ id ∷ verb ∷ []) [] none none)

-- `-` on ℕ stops at 0, as `Math.max(0, unread - 1)` does.
unfoldable pub mark_read : String → InboxItemSource → Client → Client
mark_read id source c =
    let prev = c.store.snapshot in
    start_item_call c (not (read_of (target_of prev id) true)) (set_read id true prev.items)
      (prev.counts.unread - 1) source id "read"

unfoldable pub mark_unread : String → InboxItemSource → Client → Client
mark_unread id source c =
    let prev = c.store.snapshot in
    start_item_call c (read_of (target_of prev id) false) (set_read id false prev.items)
      (prev.counts.unread + 1) source id "unread"

unfoldable pub archive : String → InboxItemSource → Client → Client
archive id source c =
    let prev = c.store.snapshot in
    let target = target_of prev id in
    start_item_call c (is_some target && not (view_eq prev.filter archived_view))
      (remove_item id prev.items)
      (if read_of target true then prev.counts.unread else prev.counts.unread - 1) source id
      "archive"

unfoldable pub unarchive : String → InboxItemSource → Client → Client
unarchive id source c =
    let prev = c.store.snapshot in
    let target = target_of prev id in
    start_item_call c (is_some target && view_eq prev.filter archived_view)
      (remove_item id prev.items)
      (if read_of target true then prev.counts.unread else prev.counts.unread + 1) source id
      "unarchive"

abbrev start_call : Client → Mutation → String → Client
start_call c m path =
    let called = record c { pending = c.pending ++ m ∷ [] } in
    send called (request called post ("v1" ∷ "inbox" ∷ path ∷ []) [] none none)

unfoldable pub archive_all : Client → Client
archive_all c =
    let prev = c.store.snapshot in
    let optimistic = record empty_patch {
      items = some (if view_eq prev.filter archived_view then prev.items else []);
      counts = some (record prev.counts { unread = 0 });
    } in
    start_call (record c { store = patch c.store optimistic }) (unread_call prev) "archive-all"

unfoldable pub archive_read : Client → Client
archive_read c = start_call c archive_read_call "archive-read"

unfoldable pub mark_all_read : Client → Client
mark_all_read c =
    let prev = c.store.snapshot in
    let optimistic = record empty_patch {
      items =
          some (map (λ item. if item.read then item else record item { read = true }) prev.items);
      counts = some (record prev.counts { unread = 0 });
    } in
    start_call (record c { store = patch c.store optimistic }) (unread_call prev) "read-all"

unfoldable pub mark_all_seen : Client → Client
mark_all_seen c =
    let prev = c.store.snapshot in
    let optimistic = record empty_patch { counts = some (record prev.counts { unseen = 0 }) } in
    let patched =
      if not (prev.counts.unseen == 0) then record c { store = patch c.store optimistic } else c in
    start_call patched (seen_call prev) "seen-all"

unfoldable pub get_preferences : Client → Client
get_preferences c = send c (request c get ("v1" ∷ "inbox" ∷ "preferences" ∷ []) [] none none)

unfoldable pub set_preferences : List Preference → Client → Client
set_preferences preferences c =
    let called = record c { pending = c.pending ++ set_preferences_call ∷ [] } in
    send called
      (request called put ("v1" ∷ "inbox" ∷ "preferences" ∷ []) [] none (some preferences))

unfoldable pub clear_error : Client → Client
clear_error c =
    if is_some c.store.snapshot.error
    then record c { store = patch c.store (record empty_patch { error = some none }) }
    else c

unfoldable pub reconcile_after_failed_mutation : Client → Client
reconcile_after_failed_mutation c = refresh (record c { list = record c.list { etag = none } })

-- `{ ...rollback, error }`, then the reconciliation.
abbrev roll_back : Patch → ChimelyError → Client → Client
roll_back rollback e c =
    reconcile_after_failed_mutation
      (record c { store = patch c.store (record rollback { error = some (some e) }) })

abbrev list_of : InboxSnapshot → Patch
list_of prev = record empty_patch { items = some prev.items; counts = some prev.counts }

-- The fields of a response's body that the mutations read: of `WireCounts` or `WirePreferenceList`.
pub record Reply : Type 0 where
  pub unread : ℕ
  pub unseen : ℕ
  pub preferences : List Preference

abbrev apply_counts : InboxCounts → Client → Client
apply_counts counts c = record c {
  store = patch c.store (record empty_patch { counts = some counts; error = some none });
}

-- The response to a mutation. What the caller reads of its body is `reply`.
unfoldable pub call_settled : Mutation → Result Reply → Client → Client
call_settled (item_call prev changed) (ok _) c = clear_error c
call_settled (item_call prev changed) (err e) c =
    roll_back (if changed then list_of prev else empty_patch) e c
call_settled (unread_call prev) (ok reply) c =
    apply_counts (record c.store.snapshot.counts { unread = reply.unread }) c
call_settled (unread_call prev) (err e) c = roll_back (list_of prev) e c
call_settled (seen_call prev) (ok reply) c =
    apply_counts (record c.store.snapshot.counts { unseen = reply.unseen }) c
call_settled (seen_call prev) (err e) c =
    roll_back (record empty_patch { counts = some prev.counts }) e c
call_settled archive_read_call (ok _) c = clear_error c
call_settled archive_read_call (err e) c = record c {
  store = patch c.store (record empty_patch { error = some (some e) });
}
call_settled set_preferences_call (ok _) c = refresh (clear_error c)
call_settled set_preferences_call (err e) c = record c {
  store = patch c.store (record empty_patch { error = some (some e) });
}

abbrev reads_body : Mutation → Bool
reads_body (unread_call prev) = true
reads_body (seen_call prev) = true
reads_body set_preferences_call = true
reads_body _ = false

-- A body that the caller does not read cannot fail the call.
abbrev pub read_reply : Bool → Response Reply → Result Reply
read_reply true response = json response.body
read_reply false response = ok (record { unread = 0; unseen = 0; preferences = [] })

unfoldable pub reply_of : Mutation → Settled Reply → Result Reply
reply_of m s = http_result s >>= read_reply (reads_body m)

-- The n-th call that waits gets its response.
unfoldable pub settle : ℕ → Settled Reply → Client → Client
settle n s c = elim (get_elem? c.pending n) [
  | none ↦ c
  | some m ↦ call_settled m (reply_of m s) (record c { pending = erase_idx c.pending n })
]
