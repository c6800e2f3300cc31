-- ===== src/React/Preferences.antt =====
-- applyWrites and the state of usePreferences in packages/react/src/hooks.ts, and what the panel of
-- packages/react/src/components/Preferences.tsx makes of the rows.
pub mod Laws
pub mod Panel
use chimely.Prelude.{
  String, Bool, true, false, not, ◌&&◌, Option, none, some, List, [], ◌∷◌, ◌++◌, map, or_else,
  is_some, if◌then◌else◌, str_eq, text_lt, filter, any, contains,
}
use chimely.Types.{Preference, Channel, in_app, InboxItem, ChimelyError}
use chimely.Errors.{Result, ok, err}

-- `===` on channels, of which there is one.
abbrev pub channel_eq : Channel → Channel → Bool
channel_eq in_app in_app = true

unfoldable pub apply_write : List Preference → Preference → List Preference
apply_write rows write =
    let kept =
      filter
        (λ row. not (str_eq row.category write.category && channel_eq row.channel write.channel))
        rows in
    if not write.enabled then kept ++ write ∷ [] else kept

unfoldable pub apply_writes : List Preference → List Preference → List Preference
apply_writes rows [] = rows
apply_writes rows (write ∷ writes) = apply_writes (apply_write rows write) writes

unfoldable pub is_enabled : List Preference → String → Bool
is_enabled rows category = not (
    any (λ row. str_eq row.category category && channel_eq row.channel in_app && not row.enabled)
      rows)

-- `set.add` for each of the texts.
abbrev pub add_all : List String → List String → List String
add_all set [] = set
add_all set (x ∷ xs) = add_all (if contains set x then set else set ++ x ∷ []) xs

-- `sort()`, by code units.
abbrev pub insert : String → List String → List String
insert x [] = x ∷ []
insert x (y ∷ ys) = let rest = insert x ys in if text_lt y x then y ∷ rest else x ∷ y ∷ ys

abbrev pub sort : List String → List String
sort [] = []
sort (x ∷ xs) = insert x (sort xs)

unfoldable pub categories : List InboxItem → List Preference → List String
categories items rows =
    sort (add_all (add_all [] (map (λ item. item.category) items)) (map (λ row. row.category) rows))

-- The state of the hook. `active` is the flag that the effect's cleanup clears.
pub record PreferencesState : Type 0 where
  pub rows : Option (List Preference)
  pub error : Option ChimelyError
  pub active : Bool

-- The end of `client.getPreferences()`.
unfoldable pub load_settled : Result (List Preference) → PreferencesState → PreferencesState
load_settled (ok loaded) s = if s.active then record s { rows = some loaded; error = none } else s
load_settled (err e) s = if s.active then record s { error = some e } else s

-- `setPreferences`, up to its `await`. `previous` is `rows` of the render that made the callback.
unfoldable pub write_starts :
    Option (List Preference) → List Preference → PreferencesState → PreferencesState
write_starts previous writes s = record s {
  rows = some (apply_writes (or_else previous []) writes);
}

-- The end of `client.setPreferences(writes)`.
unfoldable pub write_settled :
    Option (List Preference) → Result (List Preference) → PreferencesState → PreferencesState
write_settled previous (ok next) s = record s { rows = some next; error = none }
write_settled previous (err e) s = record s { rows = previous; error = some e }

unfoldable pub is_loading : PreferencesState → Bool
is_loading s = not (is_some s.rows) && not (is_some s.error)
