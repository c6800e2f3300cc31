-- ===== src/Stub/Session/Drain.antt =====
-- The fill effect loads the whole view.
use chimely.Prelude.{
  ℕ, zero, suc, ◌<◌, true, false, none, List, [], ◌++◌, map, ◌≡◌, refl, sym, ap, ◌∙◌, subst, arith,
  inl, inr, Bool-cases, Distinct, length, decimal,
}
use chimely.Types.{InboxItem, WireInboxItem}
use mathlib.Core.List.{append_assoc, append-nil}
use chimely.Client.State.{Client, clamp_page}
use chimely.Client.Merge.{to_item}
use chimely.React.Fill.{should_fill}
use chimely.Stub.{Platform, StubServer}
use chimely.Stub.Listing.{visible, take, drop}
use chimely.Stub.Access.{Accepts}
use chimely.Stub.Order.{Newest}
use chimely.Stub.Pages.{next_of-some, true-false, take-drop, length-drop, visible-Newest}
use chimely.Stub.Rows.{row_ids, shown, Distinct-shown}
use chimely.Stub.Served.{view_name}
use chimely.Stub.Session.{fill_round, fill_rounds}
use chimely.Stub.Session.Requests.{noted}
use chimely.Stub.Session.Rounds.{
  Fills, fill_round-page, page_landed, page_landed-Fills, clamp_positive,
}

-- The list of a client, once it is at its end.
abbrev pub Drained : List InboxItem → Client → Type 0
Drained items c =
    (c.store.snapshot.items ≡ items)
    × (c.store.snapshot.has_more ≡ false)
    × (c.store.snapshot.error ≡ none)

at_end :
    (p : Platform) (front rest : List WireInboxItem) (s : StubServer) (c : Client)
    → Fills p front rest s c
    → c.store.snapshot.has_more ≡ false
    → Drained (map to_item (front ++ rest)) c
at_end p front rest s c v e = (
  v.items
      ∙ ap (map to_item) (sym (append-nil front))
      ∙ ap (λ z. map to_item (front ++ z)) (sym (v.finished e)),
  e,
  v.error,
)

no_round :
    (p : Platform) (s : StubServer) (c : Client)
    → c.store.snapshot.has_more ≡ false
    → fill_round p (s, c) ≡ (s, c)
unfolding fill_round
no_round p s c e = let h : should_fill true c ≡ false = ground arith in rw (h, fill_round) refl

drains :
    (p : Platform) (n : ℕ) (front rest : List WireInboxItem) (s : StubServer) (c : Client)
    → Fills p front rest s c
    → (c.store.snapshot.has_more ≡ true → length rest < n)
    → Drained (map to_item (front ++ rest)) (fill_rounds p n (s, c)).1
drains p zero front rest s c v h = elim (Bool-cases c.store.snapshot.has_more) [
  | inl m ↦ let no : ⊥ = omega (arith, h m) in elim no [ ]
  | inr e ↦ at_end p front rest s c v e
]
drains p (suc n) front rest s c v h = elim (Bool-cases c.store.snapshot.has_more) [
  | inl m ↦
      let limit = clamp_page c.page_size in
      let landed = page_landed-Fills p front rest s c v m in
      let fewer : (page_landed p s c).store.snapshot.has_more ≡ true
          → length (drop limit rest) < n =
        λ k.
          let more = next_of-some p limit front rest (sym landed.1 ∙ k) in
          omega (arith, h m, more, length-drop limit rest, clamp_positive c.page_size) in
      let later =
        drains p n (front ++ take limit rest) (drop limit rest) (noted s c) (page_landed p s c)
          landed.0 fewer in
      let whole =
        append_assoc front (take limit rest) (drop limit rest)
        ∙ ap (λ z. front ++ z) (take-drop limit rest) in
      subst (λ z. Drained (map to_item z) (fill_rounds p (suc n) (s, c)).1) whole
        (subst
          (λ z.
            Drained (map to_item ((front ++ take limit rest) ++ drop limit rest))
              (fill_rounds p n z).1)
          (sym (fill_round-page p front rest s c v m)) later)
  | inr e ↦
      let no_more : c.store.snapshot.has_more ≡ true → length rest < n =
        λ m. elim (true-false (sym m ∙ e)) [ ] in
      subst (λ z. Drained (map to_item (front ++ rest)) (fill_rounds p n z).1)
        (sym (no_round p s c e)) (drains p n front rest s c v no_more)
]

-- Where the rows of the server are newest first with distinct ids, it takes the client's requests, and
-- `Number` reads the page size back: an empty list without an error or a fetch under way, that may
-- have more and has no cursor, shows the whole view of the server after any number of rounds of the
-- fill effect that is greater than the number of rows in the view, at its end and without an error.
pub fill_rounds-Drained :
    (p : Platform) (s : StubServer) (c : Client) (n : ℕ)
    → Accepts s c
    → Newest s.items
    → Distinct (row_ids s.items)
    → p.number (decimal (clamp_page c.page_size)) ≡ clamp_page c.page_size
    → c.store.snapshot.items ≡ []
    → c.store.snapshot.has_more ≡ true
    → c.store.snapshot.error ≡ none
    → c.list.fetching_more ≡ none
    → c.list.cursor ≡ none
    → length (visible (view_name c.store.snapshot.filter) s.items) < n
    → Drained (shown (view_name c.store.snapshot.filter) s.items) (fill_rounds p n (s, c)).1
fill_rounds-Drained p s c n a newest d number items more error idle cursor enough =
    let view = view_name c.store.snapshot.filter in
    drains p n [] (visible view s.items) s c
      (record {
        accepts = a;
        rows = refl;
        newest = visible-Newest view s.items newest;
        distinct = Distinct-shown view s.items d;
        number = number;
        items = items;
        idle = idle;
        error = error;
        cursor = λ m. cursor;
        finished = λ e. elim (true-false (sym more ∙ e)) [ ];
      })
      (λ m. enough)
