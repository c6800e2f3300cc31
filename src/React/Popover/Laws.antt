-- ===== src/React/Popover/Laws.antt =====
-- What opening the popover does to the client, and to the bell.
use chimely.Prelude.{
  ◌+◌, String, true, false, none, List, [], ◌∷◌, ◌++◌, ◌≡◌, refl, arith, length, Bool-cases, inl,
  inr, ◌==◌,
}
use chimely.Client.State.{Client, Request}
use chimely.Client.Mutations.{mark_all_seen}
use chimely.React.Popover.{Popover, is_open, set_open_state, click_bell, after_render, bell_label}

length_one : (xs : List Request) (r : Request) → length (xs ++ r ∷ []) ≡ length xs + 1
length_one [] r = refl
length_one (x ∷ xs) r = omega (arith, length_one xs r)

one_request : (c : Client) → length (mark_all_seen c).sent ≡ length c.sent + 1
unfolding mark_all_seen
one_request c = elim (Bool-cases (c.store.snapshot.counts.unseen == 0)) [
  | inl e ↦ rw (e, mark_all_seen) (length_one c.sent _)
  | inr e ↦ rw (e, mark_all_seen) (length_one c.sent _)
]

-- A click on the bell of a closed popover that keeps its own state, and the render that follows: the
-- popover is open and onOpenChange was called once, one request is sent, the unseen count is 0 and so
-- the bell has its plain label, and the items and the unread count are untouched. A further render
-- changes nothing.
click_opens :
    (text : String) (p : Popover)
    → p.internal_open ≡ false
    → p.was_open ≡ false
    → let d = after_render none (click_bell none p) in
      (is_open none d ≡ true)
      × (d.changes ≡ p.changes ++ true ∷ [])
      × (length d.client.sent ≡ length p.client.sent + 1)
      × (bell_label text d.client.store.snapshot.counts.unseen ≡ text)
      × (d.client.store.snapshot.counts.unread ≡ p.client.store.snapshot.counts.unread)
      × (d.client.store.snapshot.items ≡ p.client.store.snapshot.items)
      × (after_render none d ≡ d)
unfolding after_render set_open_state bell_label mark_all_seen
click_opens text p o w = ground (arith, one_request p.client)
