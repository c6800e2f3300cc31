-- ===== src/React/Popover.antt =====
-- The open state of the popover in packages/react/src/Inbox.tsx, and the label of the bell in
-- packages/react/src/components/Bell.tsx. `changes` is the log of the calls of onOpenChange.
pub mod Laws
use chimely.Prelude.{
  ℕ, String, Bool, true, false, not, ◌&&◌, Option, none, some, List, [], ◌∷◌, ◌++◌, or_else,
  is_some, if◌then◌else◌, ltb, decimal, ◌+++◌,
}
use chimely.Client.State.{Client}
use chimely.Client.Mutations.{mark_all_seen}

pub record Popover : Type 0 where
  pub internal_open : Bool
  pub was_open : Bool
  pub changes : List Bool
  pub client : Client

-- `props.open ?? internalOpen`.
abbrev pub is_open : Option Bool → Popover → Bool
is_open controlled p = or_else controlled p.internal_open

unfoldable pub set_open_state : Option Bool → Bool → Popover → Popover
set_open_state controlled next p =
    let told = record p { changes = p.changes ++ next ∷ [] } in
    if not (is_some controlled) then record told { internal_open = next } else told

abbrev pub click_bell : Option Bool → Popover → Popover
click_bell controlled p = set_open_state controlled (not (is_open controlled p)) p

-- The effect after a render.
unfoldable pub after_render : Option Bool → Popover → Popover
after_render controlled p =
    let now_open = is_open controlled p in
    let seen = if now_open && not p.was_open then mark_all_seen p.client else p.client in
    record p { was_open = now_open; client = seen }

abbrev pub badge : ℕ → String
badge unseen_count = if ltb 99 unseen_count then "99+" else decimal unseen_count

unfoldable pub bell_label : String → ℕ → String
bell_label text unseen_count =
    if ltb 0 unseen_count then text +++ (" (" +++ (badge unseen_count +++ ")")) else text
