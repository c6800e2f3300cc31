-- ===== src/Admin/Theme.antt =====
-- ThemeProvider of server/admin/src/lib/theme.tsx, with the parts of the browser that it reads and
-- writes: the stored theme, the color scheme of the system, and the class `dark` of the document.
-- An event of the model is the call with the effects that run after its render.
use chimely.Prelude.{
  String, Bool, true, false, Option, none, some, List, [], ◌∷◌, ◌≡◌, refl, sym, ap, ◌∙◌,
  if◌then◌else◌, str_eq, inl, inr, Bool-cases,
}

pub data Theme : Type 0 where
  light dark system : Theme

pub data Shade : Type 0 where
  light_shade dark_shade : Shade

pub record ThemeState : Type 0 where
  pub theme : Theme
  pub resolved : Shade
  pub dark_class : Bool
  pub stored : Option String
  pub prefers_dark : Bool

abbrev theme_name : Theme → String
theme_name light = "light"
theme_name dark = "dark"
theme_name system = "system"

abbrev system_shade : Bool → Shade
system_shade prefers_dark = if prefers_dark then dark_shade else light_shade

abbrev pub resolve : Bool → Theme → Shade
resolve prefers_dark light = light_shade
resolve prefers_dark dark = dark_shade
resolve prefers_dark system = system_shade prefers_dark

abbrev is_dark : Shade → Bool
is_dark light_shade = false
is_dark dark_shade = true

-- The theme of the first render.
unfoldable pub stored_theme : Option String → Theme
stored_theme none = system
stored_theme (some name) =
    if str_eq name "light" then light else if str_eq name "dark" then dark else system

-- `setResolved` and the toggle of the class.
abbrev pub show : Shade → ThemeState → ThemeState
show shade state = record state { resolved = shade; dark_class = is_dark shade }

-- The first effect, which runs behind a change of the theme.
abbrev apply_theme : ThemeState → ThemeState
apply_theme state = show (resolve state.prefers_dark state.theme) state

unfoldable pub mount_theme : Option String → Bool → Bool → ThemeState
mount_theme stored prefers_dark dark_class =
    let theme = stored_theme stored in
    apply_theme (record {
      theme = theme;
      resolved = resolve prefers_dark theme;
      dark_class = dark_class;
      stored = stored;
      prefers_dark = prefers_dark;
    })

abbrev same_theme : Theme → Theme → Bool
same_theme light light = true
same_theme dark dark = true
same_theme system system = true
same_theme _ _ = false

-- The effect runs where the theme is another one.
unfoldable pub set_theme : Theme → ThemeState → ThemeState
set_theme theme state =
    let chosen = record state { stored = some (theme_name theme); theme = theme } in
    if same_theme theme state.theme then chosen else apply_theme chosen

-- The scheme of the system changes. `onChange` listens while the theme is that of the system.
unfoldable pub scheme_changes : Bool → ThemeState → ThemeState
scheme_changes prefers_dark state =
    let changed = record state { prefers_dark = prefers_dark } in
    elim state.theme [
      | light ↦ changed
      | dark ↦ changed
      | system ↦ show (system_shade prefers_dark) changed
    ]

pub data ThemeEvent : Type 0 where
  sets_theme : Theme → ThemeEvent
  scheme_is : Bool → ThemeEvent

abbrev pub run_theme : List ThemeEvent → ThemeState → ThemeState
run_theme [] state = state
run_theme (sets_theme theme ∷ events) state = run_theme events (set_theme theme state)
run_theme (scheme_is prefers_dark ∷ events) state =
    run_theme events (scheme_changes prefers_dark state)

-- What is on the screen is the chosen theme's, and a reload chooses it again.
abbrev pub Shown : ThemeState → Type 0
Shown state =
    (state.resolved ≡ resolve state.prefers_dark state.theme)
    × (state.dark_class ≡ is_dark state.resolved)
    × (stored_theme state.stored ≡ state.theme)

stored-theme_name : (theme : Theme) → stored_theme (some (theme_name theme)) ≡ theme
unfolding stored_theme
stored-theme_name light = refl
stored-theme_name dark = refl
stored-theme_name system = refl

scheme_changes-Shown :
    (theme : Theme) (prefers_dark : Bool) (state : ThemeState)
    → state.theme ≡ theme
    → Shown state
    → Shown (scheme_changes prefers_dark state)
unfolding scheme_changes
scheme_changes-Shown light b state e h = rw (e, scheme_changes) (h.0 ∙ rw e refl, h.1, h.2)
scheme_changes-Shown dark b state e h = rw (e, scheme_changes) (h.0 ∙ rw e refl, h.1, h.2)
scheme_changes-Shown system b state e h = rw (e, scheme_changes) (ap (resolve b) (sym e), refl, h.2)

same_theme-eq : (a b : Theme) → same_theme a b ≡ true → a ≡ b
same_theme-eq light light h = refl
same_theme-eq dark dark h = refl
same_theme-eq system system h = refl
same_theme-eq light dark h = cc
same_theme-eq light system h = cc
same_theme-eq dark light h = cc
same_theme-eq dark system h = cc
same_theme-eq system light h = cc
same_theme-eq system dark h = cc

set_theme-Shown : (theme : Theme) (state : ThemeState) → Shown state → Shown (set_theme theme state)
unfolding set_theme
set_theme-Shown theme state h = elim (Bool-cases (same_theme theme state.theme)) [
  | inl e ↦
      rw (e, set_theme)
        (
          h.0 ∙ ap (resolve state.prefers_dark) (sym (same_theme-eq theme state.theme e)),
          h.1,
          stored-theme_name theme,
        )
  | inr e ↦ rw (e, set_theme) (refl, refl, stored-theme_name theme)
]

run_theme-Shown :
    (events : List ThemeEvent) (state : ThemeState) → Shown state → Shown (run_theme events state)
run_theme-Shown [] state h = h
run_theme-Shown (sets_theme theme ∷ events) state h =
    run_theme-Shown events (set_theme theme state) (set_theme-Shown theme state h)
run_theme-Shown (scheme_is b ∷ events) state h =
    run_theme-Shown events (scheme_changes b state)
      (scheme_changes-Shown state.theme b state refl h)

-- Whatever is stored at first, and after any changes of the theme and of the system's scheme: the
-- shade is the theme's under the scheme of the moment, the document has the class `dark` exactly with
-- the dark shade, and a reload would choose the same theme.
run-mount_theme-Shown :
    (events : List ThemeEvent) (stored : Option String) (prefers_dark dark_class : Bool)
    → Shown (run_theme events (mount_theme stored prefers_dark dark_class))
unfolding mount_theme
run-mount_theme-Shown events stored prefers_dark dark_class =
    run_theme-Shown events (mount_theme stored prefers_dark dark_class) (refl, refl, refl)
