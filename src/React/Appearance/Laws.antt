-- ===== src/React/Appearance/Laws.antt =====
-- Classes tell the slots apart, and an override wins.
use chimely.Prelude.{
  first_of, String, false, Option, none, some, List, [], ◌∷◌, ◌≡◌, refl, sym, ap, ◌∙◌, arith,
  if◌then◌else◌, str_eq, eq_iff, contains, Distinct, Bool-cases, inl, inr,
}
use chimely.Stub.Listing.{param}
use mathlib.Core.Option.{some-injective}
use chimely.React.Appearance.{
  put, spread, InboxSlot, slot_class, slot_style, dashed, root, bell, badge, popover, content,
  header, tabs, tab, tab_active, list, item, item_unread, empty, footer, pill, filter, preferences,
}

param-put :
    (name key value : String) (style : List (String × String))
    → param name (put key value style) ≡ (if str_eq key name then some value else param name style)
param-put name key value [] = refl
param-put name key value ((first, old) ∷ style) =
    ground
      (arith, eq_iff first key, eq_iff key name, eq_iff first name, param-put name key value style)

abbrev pub keys : List (String × String) → List String
keys [] = []
keys ((key, value) ∷ style) = key ∷ keys style

param-absent :
    (name : String) (style : List (String × String))
    → contains (keys style) name ≡ false
    → param name style ≡ none
param-absent name [] h = refl
param-absent name ((key, value) ∷ style) h =
    ground (arith, eq_iff key name, eq_iff name key, param-absent name style)

param-spread :
    (name : String) (base override : List (String × String))
    → Distinct (keys override)
    → param name (spread base override) ≡ first_of (param name override) (param name base)
param-spread name base [] d = refl
param-spread name base ((key, value) ∷ override) d = elim (Bool-cases (str_eq key name)) [
  | inl e ↦ ground (
    arith,
    eq_iff key name,
    param-spread name (put key value base) override d.1,
    param-put name key value base,
    param-absent key override d.0,
  )
  | inr e ↦
      ground
        (arith, param-spread name (put key value base) override d.1, param-put name key value base)
]

-- The slot that a class stands for.
abbrev slots : List InboxSlot
slots =
    root ∷ bell ∷ badge ∷ popover ∷ content ∷ header ∷ tabs ∷ tab ∷ tab_active ∷ list ∷ item
    ∷ item_unread ∷ empty ∷ footer ∷ pill ∷ filter ∷ preferences ∷ []

abbrev slot_in : List InboxSlot → String → Option InboxSlot
slot_in [] class = none
slot_in (slot ∷ others) class =
    let found = slot_in others class in
    if str_eq (slot_class (λ s. none) slot) class then some slot else found

slot_in-slot_class : (slot : InboxSlot) → slot_in slots (slot_class (λ s. none) slot) ≡ some slot
unfolding slot_class dashed
slot_in-slot_class root = refl
slot_in-slot_class bell = refl
slot_in-slot_class badge = refl
slot_in-slot_class popover = refl
slot_in-slot_class content = refl
slot_in-slot_class header = refl
slot_in-slot_class tabs = refl
slot_in-slot_class tab = refl
slot_in-slot_class tab_active = refl
slot_in-slot_class list = refl
slot_in-slot_class item = refl
slot_in-slot_class item_unread = refl
slot_in-slot_class empty = refl
slot_in-slot_class footer = refl
slot_in-slot_class pill = refl
slot_in-slot_class filter = refl
slot_in-slot_class preferences = refl

-- Where no slot has a class of its own, two slots with one class are the same; and where an override
-- names no property twice, each property of a slot with an override and a base style has the value of
-- the override, or that of the base where the override has none.
slots_and_styles :
    (a b : InboxSlot) (name : String) (base override style : List (String × String))
    → Distinct (keys override)
    → slot_style (some override) (some base) ≡ some style
    → (slot_class (λ s. none) a ≡ slot_class (λ s. none) b → a ≡ b)
      × (param name style ≡ first_of (param name override) (param name base))
unfolding slot_style
slots_and_styles a b name base override style d e = (
  (λ h.
      some-injective a b
        (sym (slot_in-slot_class a) ∙ ap (slot_in slots) h ∙ slot_in-slot_class b)),
  ap (param name) (sym (some-injective (spread base override) style e))
      ∙ param-spread name base override d,
)
