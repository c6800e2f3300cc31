-- ===== src/Client/Refresh/Loop.antt =====
-- The refresh loop: its invariant, and how it answers the calls that come while it runs.
use chimely.Prelude.{
  ℕ, ◌≤◌, String, Bool, true, false, Option, none, some, ◌≡◌, ◌⊎◌, inl, inr, arith, Option-cases,
}
use chimely.Types.{InboxSnapshot, InboxFilterView, WireInboxPage}
use chimely.Errors.{Result, ok, err}
use chimely.Client.State.{Client, Phase, awaiting, returning}
use chimely.Client.Merge.{merge_first_page}
use chimely.Client.Refresh.{
  refresh, do_refresh, refresh_settled, refresh_returns, set_filter, apply_fetched, Fetched,
}
use chimely.Client.Paging.{fetch_more, do_fetch_more, fetch_more_settled, fetch_more_returns}

-- The promise, the rerun flag, the spinner and the view generation together.
abbrev LoopFits : Option Phase → Bool → Bool → ℕ → Type 0
LoopFits none again loading generation = (again ≡ false) × (loading ≡ false)
LoopFits (some (awaiting view)) again loading generation =
    (loading ≡ true) × (view ≤ generation) × ((view ≡ generation) ⊎ (again ≡ true))
LoopFits (some returning) again loading generation = (loading ≡ false) ⊎ (again ≡ true)

abbrev PageFits : Option Phase → ℕ → Type 0
PageFits (some (awaiting view)) generation = view ≤ generation
PageFits _ generation = Unit

pub record ListInv (c : Client) : Type 0 where
  pub loop :
      LoopFits c.list.refreshing c.list.refresh_again c.store.snapshot.is_loading
        c.list.view_generation
  pub page : PageFits c.list.fetching_more c.list.view_generation
  pub cursor : (c.store.snapshot.has_more ≡ true) ⊎ (c.list.cursor ≡ none)

pub refresh-ListInv : (c : Client) → ListInv c → ListInv (refresh c)
unfolding refresh do_refresh
refresh-ListInv c v = ground arith

-- The cursor that a merge leaves.
merge-cursor :
    (existing : InboxSnapshot) (cursor : Option String) (page : WireInboxPage)
    → (existing.has_more ≡ true) ⊎ (cursor ≡ none)
    → ((merge_first_page existing cursor page).has_more ≡ true)
      ⊎ ((merge_first_page existing cursor page).cursor ≡ none)
unfolding merge_first_page
merge-cursor existing cursor page h = ground arith

pub refresh_settled-ListInv :
    (r : Result Fetched) (c : Client) → ListInv c → ListInv (refresh_settled r c)
unfolding refresh_settled apply_fetched
refresh_settled-ListInv (err e) c v = ground arith
refresh_settled-ListInv (ok f) c v = elim (Option-cases f.page) [
  | inl e ↦ ground arith
  | inr ((page, etag), e) ↦
      ground (arith, merge-cursor c.store.snapshot c.list.cursor page v.cursor)
]

pub refresh_returns-ListInv : (c : Client) → ListInv c → ListInv (refresh_returns c)
unfolding refresh_returns do_refresh
refresh_returns-ListInv c v = ground arith

pub set_filter-ListInv : (f : InboxFilterView) (c : Client) → ListInv c → ListInv (set_filter f c)
unfolding set_filter refresh do_refresh
set_filter-ListInv f c v = ground arith

pub fetch_more-ListInv : (limit : Option ℕ) (c : Client) → ListInv c → ListInv (fetch_more limit c)
unfolding fetch_more do_fetch_more
fetch_more-ListInv limit c v = ground arith

pub fetch_more_settled-ListInv :
    (r : Result WireInboxPage) (c : Client) → ListInv c → ListInv (fetch_more_settled r c)
unfolding fetch_more_settled
fetch_more_settled-ListInv r c v = ground arith

pub fetch_more_returns-ListInv : (c : Client) → ListInv c → ListInv (fetch_more_returns c)
unfolding fetch_more_returns
fetch_more_returns-ListInv c v = ground arith
