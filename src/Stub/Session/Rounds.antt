-- ===== src/Stub/Session/Rounds.antt =====
-- One round of the fill effect: the loaded rows grow by a page.
use chimely.Prelude.{
  ℕ, ◌<◌, true, false, not, none, some, List, [], ◌++◌, map, ◌≡◌, refl, sym, ap, ◌∙◌, subst, arith,
  Distinct, get_last?, decimal, is_some,
}
use chimely.Types.{WireInboxItem, WireInboxPage}
use mathlib.Core.List.{append_assoc, map-append}
use chimely.Errors.{ok}
use chimely.Client.State.{Client, awaiting, clamp_page}
use chimely.Client.Merge.{to_item, ids}
use chimely.Client.Paging.{fetch_more, do_fetch_more, fetch_more_settled, fetch_more_returns}
use chimely.Client.Paging.Laws.{fetch_more_settled-Begins}
use chimely.React.Fill.{should_fill, fill}
use chimely.Stub.{Platform, StubServer}
use chimely.Stub.Listing.{param, visible, list_items, page_behind, take, drop}
use chimely.Stub.Access.{Accepts, Accepts-config}
use chimely.Stub.Order.{Newest}
use chimely.Stub.Pages.{cursor_behind, page_behind-Newest, next_of, next_of-cases, take-drop}
use chimely.Stub.Served.{view_name, get_last?-append}
use chimely.Stub.Session.{lands, serve_last, fill_round}
use chimely.Stub.Session.Requests.{page_request, listed, listed_page, noted, lands_page, fetch_page}

-- A fetch that lands in its view and returns.
landed_frame :
    (c : Client) (page : WireInboxPage)
    → c.list.fetching_more ≡ some (awaiting c.list.view_generation)
    → let d = fetch_more_settled (ok page) c in
      let e = fetch_more_returns d in
      (e.store.snapshot.items ≡ d.store.snapshot.items)
      × (e.store.snapshot.has_more ≡ d.store.snapshot.has_more)
      × (e.list.cursor ≡ d.list.cursor)
      × (e.list.fetching_more ≡ none)
      × (e.store.snapshot.error ≡ none)
      × (e.store.snapshot.filter ≡ c.store.snapshot.filter)
      × (e.config ≡ c.config)
      × (e.page_size ≡ c.page_size)
unfolding fetch_more_settled fetch_more_returns
landed_frame c page f = (
  ground arith,
  ground arith,
  ground arith,
  ground arith,
  ground arith,
  ground arith,
  ground arith,
  ground arith,
)

-- The view has the loaded rows first; the cursor stands behind them while there may be more.
pub record Fills (p : Platform) (front rest : List WireInboxItem) (s : StubServer) (c : Client)
    : Type 0 where
  pub accepts : Accepts s c
  pub rows : visible (view_name c.store.snapshot.filter) s.items ≡ front ++ rest
  pub newest : Newest (front ++ rest)
  pub distinct : Distinct (ids (map to_item (front ++ rest)))
  pub number : p.number (decimal (clamp_page c.page_size)) ≡ clamp_page c.page_size
  pub items : c.store.snapshot.items ≡ map to_item front
  pub idle : c.list.fetching_more ≡ none
  pub error : c.store.snapshot.error ≡ none
  pub cursor : c.store.snapshot.has_more ≡ true → c.list.cursor ≡ cursor_behind p (get_last? front)
  pub finished : c.store.snapshot.has_more ≡ false → rest ≡ []

should :
    (c : Client)
    → c.store.snapshot.has_more ≡ true
    → c.store.snapshot.error ≡ none
    → should_fill true c ≡ true
should c m e = ground arith

fills_page :
    (c : Client)
    → should_fill true c ≡ true
    → not c.store.snapshot.has_more ≡ false
    → is_some c.list.fetching_more ≡ false
    → fill true none c ≡ do_fetch_more none c
unfolding fill fetch_more
fills_page c h m i = rw (h, m, i, fill, fetch_more) refl

abbrev pub page_landed : Platform → StubServer → Client → Client
page_landed p s c =
    fetch_more_returns (fetch_more_settled (ok (listed p s c)) (do_fetch_more none c))

-- A round, where there may be more.
pub fill_round-page :
    (p : Platform) (front rest : List WireInboxItem) (s : StubServer) (c : Client)
    → Fills p front rest s c
    → c.store.snapshot.has_more ≡ true
    → fill_round p (s, c) ≡ (noted s c, page_landed p s c)
unfolding fill_round do_fetch_more
fill_round-page p front rest s c v m =
    let h = should c m v.error in
    let once : fill_round p (s, c)
        ≡ serve_last p (get_last? (fill true none c).sent) s (fill true none c) =
      rw (h, fill_round) refl in
    once
    ∙ ap (λ d. serve_last p (get_last? d.sent) s d) (fills_page c h (ap not m) (ap is_some v.idle))
    ∙ ap (λ o. serve_last p o s (do_fetch_more none c)) (get_last?-append c.sent (page_request c))
    ∙ ap (λ z. lands z (do_fetch_more none c)) (fetch_page p s c v.accepts)
    ∙ lands_page (page_request c) s
        (list_items p (page_request c).url.params (param "If-None-Match" (page_request c).headers)
          s)
        (listed p s c) (do_fetch_more none c) (listed_page p s c v.number)

pub clamp_positive : (n : ℕ) → 0 < clamp_page n
clamp_positive n = omega arith

listed_next :
    (p : Platform) (front rest : List WireInboxItem) (s : StubServer) (c : Client)
    → Fills p front rest s c
    → c.store.snapshot.has_more ≡ true
    → listed p s c ≡ record {
      items = take (clamp_page c.page_size) rest;
      next_cursor = next_of p (clamp_page c.page_size) front rest;
    }
listed_next p front rest s c v m =
    ap
      (λ z.
        page_behind p z (clamp_page c.page_size)
          (visible (view_name c.store.snapshot.filter) s.items))
      (v.cursor m)
    ∙ ap (page_behind p (cursor_behind p (get_last? front)) (clamp_page c.page_size)) v.rows
    ∙ page_behind-Newest p (clamp_page c.page_size) front rest (clamp_positive c.page_size) v.newest

-- The rows split behind the page.
split_rows :
    (limit : ℕ) (front rest : List WireInboxItem)
    → front ++ rest ≡ (front ++ take limit rest) ++ drop limit rest
split_rows limit front rest =
    ap (λ z. front ++ z) (sym (take-drop limit rest))
    ∙ sym (append_assoc front (take limit rest) (drop limit rest))

-- The loaded items with the page behind them, and with what is left of the view behind both.
extended :
    (p : Platform) (front rest : List WireInboxItem) (s : StubServer) (c : Client)
    → Fills p front rest s c
    → c.store.snapshot.has_more ≡ true
    → let page = map to_item (listed p s c).items in
      let limit = clamp_page c.page_size in
      (c.store.snapshot.items ++ page ≡ map to_item (front ++ take limit rest))
      × (c.store.snapshot.items ++ (page ++ map to_item (drop limit rest))
          ≡ map to_item (front ++ rest))
extended p front rest s c v m =
    let limit = clamp_page c.page_size in
    let page = map to_item (listed p s c).items in
    let left = map to_item (drop limit rest) in
    let begins : c.store.snapshot.items ++ page ≡ map to_item (front ++ take limit rest) =
      ap (λ z. z ++ page) v.items
      ∙ ap (λ z. map to_item front ++ map to_item z.items) (listed_next p front rest s c v m)
      ∙ sym (map-append to_item front (take limit rest)) in
    (
      begins,
      sym (append_assoc c.store.snapshot.items page left)
          ∙ ap (λ z. z ++ left) begins
          ∙ sym (map-append to_item (front ++ take limit rest) (drop limit rest))
          ∙ ap (map to_item) (sym (split_rows limit front rest)),
    )

pub page_landed-Fills :
    (p : Platform) (front rest : List WireInboxItem) (s : StubServer) (c : Client)
    → Fills p front rest s c
    → c.store.snapshot.has_more ≡ true
    → Fills p
        (front ++ take (clamp_page c.page_size) rest)
        (drop (clamp_page c.page_size) rest)
        (noted s c)
        (page_landed p s c)
      × ((page_landed p s c).store.snapshot.has_more
          ≡ is_some (next_of p (clamp_page c.page_size) front rest))
unfolding do_fetch_more
page_landed-Fills p front rest s c v m =
    let limit = clamp_page c.page_size in
    let page = listed_next p front rest s c v m in
    let next = next_of-cases p limit front rest (clamp_positive c.page_size) in
    let whole = split_rows limit front rest in
    let loaded = extended p front rest s c v m in
    let landed =
      fetch_more_settled-Begins (do_fetch_more none c) (listed p s c) (map to_item (front ++ rest))
        (map to_item (drop limit rest)) refl v.distinct loaded.1 in
    let frame = landed_frame (do_fetch_more none c) (listed p s c) refl in
    let has_more = frame.1 ∙ landed.2 ∙ ap (λ z. is_some z.next_cursor) page in
    let cursor = frame.2 ∙ landed.3 ∙ ap (λ z. z.next_cursor) page in
    let a = Accepts-config s c (page_landed p s c) frame.6 v.accepts in
    (
      record {
        accepts = record {
          failures = a.failures;
          environment = a.environment;
          subscriber = a.subscriber;
          hash = a.hash;
          expires = a.expires;
        };
        rows = ap (λ z. visible (view_name z) s.items) frame.5 ∙ v.rows ∙ whole;
        newest = subst Newest whole v.newest;
        distinct = subst (λ z. Distinct (ids (map to_item z))) whole v.distinct;
        number =
            subst (λ z. p.number (decimal (clamp_page z)) ≡ clamp_page z) (sym frame.7) v.number;
        items = frame.0 ∙ landed.0 ∙ loaded.0;
        idle = frame.3;
        error = frame.4;
        cursor = λ h. cursor ∙ next.0 (sym has_more ∙ h);
        finished = λ h. next.1 (sym has_more ∙ h);
      },
      has_more,
    )
