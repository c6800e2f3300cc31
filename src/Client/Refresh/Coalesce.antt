-- ===== src/Client/Refresh/Coalesce.antt =====
-- Calls of refresh() that come while one is under way.
use chimely.Prelude.{
  ℕ, zero, suc, ◌+◌, true, false, none, some, List, [], ◌∷◌, ◌++◌, ◌≡◌, refl, ◌∙◌, arith, length,
}
use chimely.Errors.{Result}
use chimely.Client.State.{Client, Phase, awaiting, returning, Request}
use chimely.Client.Refresh.{
  refresh, do_refresh, refresh_settled, refresh_returns, apply_fetched, Fetched,
}

-- n calls in a row.
pub asks : ℕ → Client → Client
asks zero c = c
asks (suc n) c = asks n (refresh c)

asks_running :
    (n : ℕ) (phase : Phase) (c : Client)
    → c.list.refreshing ≡ some phase
    → asks (suc n) c ≡ record c { list = record c.list { refresh_again = true } }
unfolding asks refresh
asks_running zero phase c e = ground arith
asks_running (suc n) phase c e =
    ground
      (arith, asks_running n phase (record c { list = record c.list { refresh_again = true } }))

-- The landing of a response sends nothing.
refresh_settled_sends :
    (r : Result Fetched) (c : Client)
    → ((refresh_settled r c).sent ≡ c.sent)
      × ((refresh_settled r c).list.refresh_again ≡ c.list.refresh_again)
      × ((refresh_settled r c).list.view_generation ≡ c.list.view_generation)
unfolding refresh_settled apply_fetched
refresh_settled_sends r c = ground arith

refresh_settled_returns :
    (r : Result Fetched) (c : Client) (view : ℕ)
    → c.list.refreshing ≡ some (awaiting view)
    → (refresh_settled r c).list.refreshing ≡ some returning
unfolding refresh_settled apply_fetched
refresh_settled_returns r c view e = ground arith

length_two : (xs : List Request) (a b : Request) → length ((xs ++ a ∷ []) ++ b ∷ []) ≡ length xs + 2
length_two [] a b = omega arith
length_two (x ∷ xs) a b = omega (arith, length_two xs a b)

-- A round of the loop: two requests, in the current view.
do_refresh_starts :
    (c : Client)
    → ((do_refresh c).list.refreshing ≡ some (awaiting c.list.view_generation))
      × ((do_refresh c).list.refresh_again ≡ c.list.refresh_again)
      × ((do_refresh c).list.view_generation ≡ c.list.view_generation)
      × (length (do_refresh c).sent ≡ length c.sent + 2)
unfolding do_refresh
do_refresh_starts c = (refl, refl, refl, length_two c.sent _ _)

returns_again :
    (c : Client)
    → c.list.refreshing ≡ some returning
    → c.list.refresh_again ≡ true
    → ((refresh_returns c).list.refreshing ≡ some (awaiting c.list.view_generation))
      × ((refresh_returns c).list.refresh_again ≡ false)
      × ((refresh_returns c).list.view_generation ≡ c.list.view_generation)
      × (length (refresh_returns c).sent ≡ length c.sent + 2)
unfolding refresh_returns
returns_again c e a =
    ground (arith, do_refresh_starts (record c { list = record c.list { refresh_again = false } }))

returns_over :
    (c : Client)
    → c.list.refreshing ≡ some returning
    → c.list.refresh_again ≡ false
    → ((refresh_returns c).list.refreshing ≡ none) × ((refresh_returns c).sent ≡ c.sent)
unfolding refresh_returns
returns_over c e a = ground arith

-- One or more calls of refresh() while a refresh is under way send nothing and drop nothing. When
-- the response has landed, whatever it is, the loop makes exactly one more round, of two requests in
-- the current view, and after that round it stops.
pub refresh_coalesces :
    (n view : ℕ) (r s : Result Fetched) (c : Client)
    → c.list.refreshing ≡ some (awaiting view)
    → let asked = asks (suc n) c in
      let again = refresh_returns (refresh_settled r asked) in
      let over = refresh_returns (refresh_settled s again) in
      (asked.sent ≡ c.sent)
      × (again.list.refreshing ≡ some (awaiting again.list.view_generation))
      × (length again.sent ≡ length c.sent + 2)
      × (over.list.refreshing ≡ none)
      × (over.sent ≡ again.sent)
refresh_coalesces n view r s c e =
    rw (asks_running n (awaiting view) c e)
      (refl, ground (arith, l1, l3), ground (arith, l1, l3), l6.0, ground (arith, l4, l6))
  where
    asked : Client
    asked = record c { list = record c.list { refresh_again = true } }

    landed : Client
    landed = refresh_settled r asked

    again : Client
    again = refresh_returns landed

    landed' : Client
    landed' = refresh_settled s again

    l1 :
        (landed.sent ≡ asked.sent)
        × (landed.list.refresh_again ≡ asked.list.refresh_again)
        × (landed.list.view_generation ≡ asked.list.view_generation)
    l1 = refresh_settled_sends r asked

    l3 :
        (again.list.refreshing ≡ some (awaiting landed.list.view_generation))
        × (again.list.refresh_again ≡ false)
        × (again.list.view_generation ≡ landed.list.view_generation)
        × (length again.sent ≡ length landed.sent + 2)
    l3 = returns_again landed (refresh_settled_returns r asked view e) l1.1

    l4 :
        (landed'.sent ≡ again.sent)
        × (landed'.list.refresh_again ≡ again.list.refresh_again)
        × (landed'.list.view_generation ≡ again.list.view_generation)
    l4 = refresh_settled_sends s again

    l6 :
        ((refresh_returns landed').list.refreshing ≡ none)
        × ((refresh_returns landed').sent ≡ landed'.sent)
    l6 =
        returns_over landed' (refresh_settled_returns s again landed.list.view_generation l3.0)
          (l4.1 ∙ l3.1)
