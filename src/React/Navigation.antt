-- ===== src/React/Navigation.antt =====
-- packages/react/src/navigation.ts, and what handleItemClick of
-- packages/react/src/components/InboxContent.tsx does once the item is marked read.
-- `resolve` is `new URL(url, window.location.href)`, with no result where it throws; `here` is the
-- origin of the page. A click is made in a window.
pub mod Laws
use chimely.Prelude.{
  String, Bool, true, false, ◌||◌, Option, none, some, if◌then◌else◌, str_eq, is_some, ◌+++◌,
}

pub record Target : Type 0 where
  pub protocol : String
  pub origin : String
  pub pathname : String
  pub search : String
  pub hash : String

abbrev pub is_http : Target → Bool
is_http target = str_eq target.protocol "https:" || str_eq target.protocol "http:"

-- `window` is none where there is no window, else it resolves a URL on its page.
unfoldable pub parse_safe_action_url :
    (window : Option (String → Option Target)) → String → Option Target
parse_safe_action_url none url = none
parse_safe_action_url (some resolve) url = elim (resolve url) [
  | none ↦ none
  | some target ↦ if is_http target then some target else none
]

abbrev is_safe_action_url : (window : Option (String → Option Target)) → String → Bool
is_safe_action_url window url = is_some (parse_safe_action_url window url)

pub data ResolvedActionUrl : Type 0 where
  same_origin : (path : String) → ResolvedActionUrl
  external : (href : String) → ResolvedActionUrl

abbrev pub path_of : Target → String
path_of target = target.pathname +++ (target.search +++ target.hash)

unfoldable pub resolve_action_url :
    (String → Option Target) → String → String → Option ResolvedActionUrl
resolve_action_url resolve here url = elim (parse_safe_action_url (some resolve) url) [
  | none ↦ none
  | some target ↦
      if str_eq target.origin here then some (same_origin (path_of target)) else some (external url)
]

-- `props.routerPush`, `navigation.assign`, or neither.
pub data Navigates : Type 0 where
  stays : Navigates
  pushes assigns : String → Navigates

abbrev go : Bool → String → ResolvedActionUrl → Navigates
go true url (same_origin path) = pushes path
go _ url _ = assigns url

-- `action_url` is none where it is no string. `router` says whether there is a routerPush.
unfoldable pub follow : (String → Option Target) → String → Bool → Option String → Navigates
follow resolve here router none = stays
follow resolve here router (some url) =
    if str_eq url "" then stays else elim (resolve_action_url resolve here url) [
      | none ↦ stays
      | some resolved ↦ go router url resolved
    ]
