-- ===== src/React/Preferences/Laws.antt =====
-- What a write does to the toggles, and which toggles there are.
use chimely.Prelude.{
  String, Bool, false, not, ◌&&◌, ◌||◌, Option, List, [], ◌∷◌, ◌++◌, ◌≡◌, refl, ◌∙◌, ap,
  if◌then◌else◌, str_eq, eq_iff, filter, arith,
}
use chimely.Types.{Preference}
use chimely.Errors.{Result}
use chimely.React.Preferences.{
  apply_write, apply_writes, is_enabled, channel_eq, PreferencesState, load_settled, is_loading,
  write_starts, write_settled,
}

-- The toggle of a category after some writes: the last write of the category decides.
abbrev pub written : Bool → List Preference → String → Bool
written enabled [] category = enabled
written enabled (write ∷ writes) category =
    written (if str_eq write.category category then write.enabled else enabled) writes category

is_enabled-append :
    (rows : List Preference) (row : Preference) (category : String)
    → is_enabled (rows ++ row ∷ []) category
      ≡ (is_enabled rows category && is_enabled (row ∷ []) category)
unfolding is_enabled
is_enabled-append [] row category = ground arith
is_enabled-append (x ∷ rows) row category = ground (arith, is_enabled-append rows row category)

-- The rows that a write replaces.
is_enabled-kept :
    (rows : List Preference) (write : Preference) (category : String)
    → is_enabled
        (filter
          (λ row. not (str_eq row.category write.category && channel_eq row.channel write.channel))
          rows)
        category
      ≡ (str_eq write.category category || is_enabled rows category)
unfolding is_enabled
is_enabled-kept [] write category = ground arith
is_enabled-kept (x ∷ rows) write category = ground (
  arith,
  is_enabled-kept rows write category,
  eq_iff x.category write.category,
  eq_iff write.category category,
  eq_iff x.category category,
)

is_enabled-apply_write :
    (rows : List Preference) (write : Preference) (category : String)
    → is_enabled (apply_write rows write) category
      ≡ (if str_eq write.category category then write.enabled else is_enabled rows category)
unfolding apply_write is_enabled
is_enabled-apply_write rows write category = ground (
  arith,
  is_enabled-kept rows write category,
  is_enabled-append
      (filter
        (λ row. not (str_eq row.category write.category && channel_eq row.channel write.channel))
        rows)
      write category,
)

-- After any writes the toggle of a category is what the last write of that category says, and where
-- no write names the category it is as before.
pub is_enabled-apply_writes :
    (rows writes : List Preference) (category : String)
    → is_enabled (apply_writes rows writes) category
      ≡ written (is_enabled rows category) writes category
unfolding apply_writes
is_enabled-apply_writes rows [] category = refl
is_enabled-apply_writes rows (write ∷ writes) category =
    is_enabled-apply_writes (apply_write rows write) writes category
    ∙ ap (λ b. written b writes category) (is_enabled-apply_write rows write category)

-- Once the hook has stopped loading it does not load again: neither the end of a load, nor a write
-- nor its end takes both the rows and the error away.
is_loading_stays :
    (previous : Option (List Preference)) (writes : List Preference) (r : Result (List Preference))
    (s : PreferencesState)
    → is_loading s ≡ false
    → (is_loading (load_settled r s) ≡ false)
      × (is_loading (write_starts previous writes s) ≡ false)
      × (is_loading (write_settled previous r s) ≡ false)
unfolding load_settled write_starts write_settled is_loading
is_loading_stays previous writes r s h = ground arith
