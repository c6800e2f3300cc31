-- ===== src/Stub/Served.antt =====
-- What the server makes of the last request of a client, for each kind of write.
use chimely.Prelude.{
  ℕ, String, Bool, true, false, Option, none, some, List, [], ◌∷◌, ◌++◌, ◌≡◌, refl, sym, ap, ◌∙◌,
  arith, inl, inr, Bool-cases, Option-cases, length, get_last?, filter, find?,
}
use chimely.Types.{
  InboxItem, InboxItemSource, notification, broadcast, InboxFilterView, default_view, unread_view,
  archived_view,
}
use chimely.Client.State.{Client, post, Request, request, send}
use chimely.Client.Mutations.{start_item_call, source_segment}
use chimely.Stub.{Platform, StubServer, is_unread}
use chimely.Stub.Routes.{
  Action, act_on, is_row, is_done, set_item, handle, route_of, is_refused, route, fetch, action_of,
  item_route,
}
use chimely.Stub.Access.{Accepts, Accepts-config, accepted}
use chimely.Stub.Rows.{shown, act_on_missing, act_on_done}

-- The server after the last request of a client.
unfoldable pub served : Platform → Client → StubServer → StubServer
served p c s = elim (get_last? c.sent) [ none ↦ s | some r ↦ (fetch p r s).0 ]

-- The name of a view in the `filter` parameter.
abbrev pub view_name : InboxFilterView → Option String
view_name default_view = none
view_name unread_view = some "unread"
view_name archived_view = some "archived"

-- The client shows what the server has in its view, and has its counts.
pub record InSync (c : Client) (s : StubServer) : Type 0 where
  pub items : c.store.snapshot.items ≡ shown (view_name c.store.snapshot.filter) s.items
  pub unread : c.store.snapshot.counts.unread ≡ length (filter is_unread s.items)
  pub unseen : c.store.snapshot.counts.unseen ≡ s.unseen

pub get_last?-append {ℓ} : {A : Type ℓ} (xs : List A) (x : A) → get_last? (xs ++ x ∷ []) ≡ some x
get_last?-append [] x = refl
get_last?-append (y ∷ []) x = refl
get_last?-append (y ∷ z ∷ xs) x = get_last?-append (z ∷ xs) x

-- A request that is let through goes to its route.
served_route :
    (p : Platform) (d : Client) (s : StubServer) (sent : List Request) (r : Request)
    → d.sent ≡ sent ++ r ∷ []
    → s.failures ≡ []
    → is_refused r s ≡ false
    → let t = (handle p r (route_of r.method r.url.segments) s).0 in
      ((served p d s).items ≡ t.items) × ((served p d s).unseen ≡ t.unseen)
unfolding served fetch route
served_route p d s sent r e f a = ground (arith, get_last?-append sent r)

set_item-items :
    (source : InboxItemSource) (id : String) (action : Action) (s : StubServer)
    → ((set_item source id action s).0.items ≡ act_on source id action s.items)
      × ((set_item source id action s).0.unseen ≡ s.unseen)
unfolding set_item
set_item-items source id action s = elim (Option-cases (find? (is_row source id) s.items)) [
  | inl e ↦ rw (e, set_item) (sym (act_on_missing source id action s.items e), refl)
  | inr (row, e) ↦ elim (Bool-cases (is_done action row)) [
    | inl d ↦ rw (e, d, set_item) (sym (act_on_done source id action s.items row e d), refl)
    | inr d ↦ rw (e, d, set_item) (refl, refl)
  ]
]

-- A call about an item reaches the write of its row.
item_call_routed :
    (p : Platform) (called : Client) (s : StubServer) (source : InboxItemSource) (id verb : String)
    (action : Action)
    → Accepts s called
    → action_of verb ≡ some action
    → let segments = "v1" ∷ "inbox" ∷ source_segment source ∷ id ∷ verb ∷ [] in
      let d = send called (request called post segments [] none none) in
      ((served p d s).items ≡ act_on source id action s.items) × ((served p d s).unseen ≡ s.unseen)
unfolding handle request
item_call_routed p called s notification id verb action a e =
    let segments : List String = "v1" ∷ "inbox" ∷ "notifications" ∷ id ∷ verb ∷ [] in
    let r = request called post segments [] none none in
    let t =
      served_route p (send called r) s called.sent r refl a.failures
        (accepted called s post segments [] none none a) in
    let i = set_item-items notification id action s in
    let h : handle p r (item_route (some notification) id (action_of verb)) s
        ≡ set_item notification id action s =
      rw e in
    (t.0 ∙ ap (λ z. z.0.items) h ∙ i.0, t.1 ∙ ap (λ z. z.0.unseen) h ∙ i.1)
item_call_routed p called s broadcast id verb action a e =
    let segments : List String = "v1" ∷ "inbox" ∷ "broadcasts" ∷ id ∷ verb ∷ [] in
    let r = request called post segments [] none none in
    let t =
      served_route p (send called r) s called.sent r refl a.failures
        (accepted called s post segments [] none none a) in
    let i = set_item-items broadcast id action s in
    let h : handle p r (item_route (some broadcast) id (action_of verb)) s
        ≡ set_item broadcast id action s =
      rw e in
    (t.0 ∙ ap (λ z. z.0.items) h ∙ i.0, t.1 ∙ ap (λ z. z.0.unseen) h ∙ i.1)

module _ (p : Platform) (c : Client) (s : StubServer) (a : Accepts s c) where
  pub item_call_served :
      (changed : Bool) (items : List InboxItem) (unread : ℕ) (source : InboxItemSource)
      (id verb : String) (action : Action)
      → action_of verb ≡ some action
      → let d = start_item_call c changed items unread source id verb in
        ((served p d s).items ≡ act_on source id action s.items)
        × ((served p d s).unseen ≡ s.unseen)
  item_call_served true items unread source id verb action e =
      item_call_routed p _ s source id verb action (Accepts-config s c _ refl a) e
  item_call_served false items unread source id verb action e =
      item_call_routed p _ s source id verb action (Accepts-config s c _ refl a) e

-- A call on an item: where the client leaves its patch out, the patch changes nothing.
pub patched_items :
    (c : Client) (changed : Bool) (items : List InboxItem) (unread : ℕ) (source : InboxItemSource)
    (id verb : String)
    → (changed ≡ false → items ≡ c.store.snapshot.items)
    → let d = start_item_call c changed items unread source id verb in
      (d.store.snapshot.items ≡ items)
      × (d.store.snapshot.counts.unseen ≡ c.store.snapshot.counts.unseen)
      × (d.store.snapshot.filter ≡ c.store.snapshot.filter)
patched_items c true items unread source id verb h = (refl, refl, refl)
patched_items c false items unread source id verb h = (sym (h refl), refl, refl)

-- A bulk call reaches the change of all rows.
module _ (p : Platform) (called : Client) (s : StubServer) (a : Accepts s called) where
  abbrev pub bulk : String → Request
  bulk name = request called post ("v1" ∷ "inbox" ∷ name ∷ []) [] none none

  pub bulk-InSync :
      (name : String)
      → let t = (handle p (bulk name) (route_of post ("v1" ∷ "inbox" ∷ name ∷ [])) s).0 in
        called.store.snapshot.items ≡ shown (view_name called.store.snapshot.filter) t.items
        → called.store.snapshot.counts.unread ≡ length (filter is_unread t.items)
        → called.store.snapshot.counts.unseen ≡ t.unseen
        → InSync (send called (bulk name)) (served p (send called (bulk name)) s)
  unfolding request
  bulk-InSync name i u n =
      let t =
        served_route p (send called (bulk name)) s called.sent (bulk name) refl a.failures
          (accepted called s post ("v1" ∷ "inbox" ∷ name ∷ []) [] none none a) in
      record {
        items = i ∙ ap (shown (view_name called.store.snapshot.filter)) (sym t.0);
        unread = u ∙ ap (λ z. length (filter is_unread z)) (sym t.0);
        unseen = n ∙ sym t.1;
      }
