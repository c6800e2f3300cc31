-- ===== src/React/Navigation/Laws.antt =====
-- Where a click may lead.
use chimely.Prelude.{
  String, Bool, true, false, ◌&&◌, Option, some, ◌≡◌, refl, str_eq, eq_iff, Bool-cases, inl, inr,
}
use chimely.React.Navigation.{
  Target, is_http, parse_safe_action_url, path_of, resolve_action_url, Navigates, stays, pushes,
  assigns, follow,
}

-- A move is allowed for a target: to the router just its path on this origin, to the browser just
-- the URL of an http(s) target that the router does not take.
abbrev pub Allowed : String → Bool → String → Target → Navigates → Type 0
Allowed here router url target stays = is_http target ≡ false
Allowed here router url target (pushes path) =
    (is_http target ≡ true) × (router ≡ true) × (target.origin ≡ here) × (path ≡ path_of target)
Allowed here router url target (assigns href) =
    (is_http target ≡ true) × ((router && str_eq target.origin here) ≡ false) × (href ≡ url)

-- A click on an item whose action URL is not empty and resolves to a target: the page moves just if
-- the target is http or https, by the router just if there is one and the target is on this origin,
-- with the path of the target, and else to the URL as it is.
pub follow-Allowed :
    (resolve : String → Option Target) (here : String) (router : Bool) (url : String)
    (target : Target)
    → str_eq url "" ≡ false
    → resolve url ≡ some target
    → Allowed here router url target (follow resolve here router (some url))
unfolding follow resolve_action_url parse_safe_action_url
follow-Allowed resolve here true url target n e = elim (Bool-cases (is_http target)) [
  | inl h ↦ elim (Bool-cases (str_eq target.origin here)) [
    | inl o ↦ rw (n, e, h, o) (h, refl, (eq_iff target.origin here).0 o, refl)
    | inr o ↦ rw (n, e, h, o) (h, o, refl)
  ]
  | inr h ↦ rw (n, e, h) h
]
follow-Allowed resolve here false url target n e = elim (Bool-cases (is_http target)) [
  | inl h ↦ elim (Bool-cases (str_eq target.origin here)) [
    | inl o ↦ rw (n, e, h, o) (h, refl, refl)
    | inr o ↦ rw (n, e, h, o) (h, refl, refl)
  ]
  | inr h ↦ rw (n, e, h) h
]
