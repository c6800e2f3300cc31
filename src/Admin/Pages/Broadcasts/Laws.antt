-- ===== src/Admin/Pages/Broadcasts/Laws.antt =====
-- The payload that server/admin/src/routes/broadcasts.tsx composes.
use chimely.Prelude.{
  first_of, String, Bool, true, false, Option, none, some, if◌then◌else◌, str_eq, ◌≡◌, refl, sym,
  ap, ◌∙◌, Bool-cases, inl, inr, arith, eq_iff,
}
use chimely.Types.{JsonValue, JsonFields, json_string, no_fields, field_then, last_field}
use chimely.Admin.Pages.Broadcasts.{
  Compose, assign_own, assign_field, when_text, assign_all, well_known, payload_of,
}

-- The value of a field, if it is there.
abbrev pub field : String → JsonFields → Option JsonValue
field key no_fields = none
field key (field_then name v more) =
    let later = field key more in if str_eq name key then some v else later

field-assign_same :
    (key name other : String) (v old : JsonValue) (more : JsonFields)
    → str_eq other name ≡ true
    → field key (field_then other v more)
      ≡ (if str_eq name key then some v else field key (field_then other old more))
field-assign_same key name other v old more e =
    let same : other ≡ name = (eq_iff other name).0 e in
    elim (Bool-cases (str_eq name key)) [ inl k ↦ rw (same, k) refl | inr k ↦ rw (same, k) refl ]

field-assign_field :
    (key name : String) (v : JsonValue) (more : JsonFields)
    → field key (assign_field name v more) ≡ (if str_eq name key then some v else field key more)
unfolding assign_field
field-assign_field key name v no_fields = refl
field-assign_field key name v (field_then other old more) =
    let later = field-assign_field key name v more in
    elim (Bool-cases (str_eq other name)) [
      | inl e ↦ rw e (field-assign_same key name other v old more e)
      | inr e ↦ elim (Bool-cases (str_eq other key)) [
        | inl k ↦ elim (Bool-cases (str_eq name key)) [
          | inl l ↦
              let clash =
                (eq_iff other name).1 ((eq_iff other key).0 k ∙ sym ((eq_iff name key).0 l)) in
              let no : ⊥ = cc in elim no [ ]
          | inr l ↦ rw (e, k, l) refl
        ]
        | inr k ↦ rw (e, k) later
      ]
    ]

first_of_if :
    (a rest : Option JsonValue) (v : JsonValue) (b : Bool)
    → first_of a (if b then some v else rest)
      ≡ first_of (first_of a (if b then some v else none)) rest
first_of_if none rest v true = refl
first_of_if none rest v false = refl
first_of_if (some x) rest v b = refl

if_same : (b : Bool) (a : Option JsonValue) → a ≡ (if b then a else a)
if_same true a = refl
if_same false a = refl

-- What the extra JSON gives to a field of the payload.
abbrev pub extra_field : String → JsonFields → Option JsonValue
extra_field key extra = if str_eq key "__proto__" then none else last_field key extra

first_of-none : (a : Option JsonValue) → first_of a none ≡ a
first_of-none none = refl
first_of-none (some v) = refl

extra_field-then :
    (key name : String) (v : JsonValue) (payload extra : JsonFields)
    → first_of (extra_field key extra) (field key (assign_own name v payload))
      ≡ first_of (extra_field key (field_then name v extra)) (field key payload)
extra_field-then key name v payload extra = elim (Bool-cases (str_eq name "__proto__")) [
  | inl e ↦ elim (Bool-cases (str_eq key "__proto__")) [
    | inl k ↦ rw (e, k) refl
    | inr k ↦
        let apart : str_eq name key ≡ false =
          ground (arith, eq_iff name key, eq_iff name "__proto__", eq_iff key "__proto__") in
        rw (e, k, apart, first_of-none (last_field key extra)) refl
  ]
  | inr e ↦ rw e (elim (Bool-cases (str_eq key "__proto__")) [
    | inl k ↦
        let apart : str_eq name key ≡ false =
          ground (arith, eq_iff name key, eq_iff name "__proto__", eq_iff key "__proto__") in
        rw (k, field-assign_field key name v payload, apart) refl
    | inr k ↦ rw k (
        ap (first_of (last_field key extra)) (field-assign_field key name v payload)
        ∙ first_of_if (last_field key extra) (field key payload) v (str_eq name key))
  ])
]

field-assign_all :
    (key : String) (payload extra : JsonFields)
    → field key (assign_all payload extra) ≡ first_of (extra_field key extra) (field key payload)
unfolding assign_all
field-assign_all key payload no_fields = elim (Bool-cases (str_eq key "__proto__")) [
  | inl k ↦ rw k refl
  | inr k ↦ rw k refl
]
field-assign_all key payload (field_then name v extra) =
    field-assign_all key (assign_own name v payload) extra
    ∙ extra_field-then key name v payload extra

-- The text of a field of the form, for the name of the field, if it is not empty.
abbrev pub named : String → String → String → Option JsonValue
named name text key =
    if str_eq name key then (if str_eq text "" then none else some (json_string text)) else none

field-when_text :
    (key name text : String) (payload : JsonFields)
    → field key (when_text name text payload) ≡ first_of (named name text key) (field key payload)
field-when_text key name text payload = elim (Bool-cases (str_eq text "")) [
  | inl e ↦ elim (Bool-cases (str_eq name key)) [ inl k ↦ rw (e, k) refl | inr k ↦ rw (e, k) refl ]
  | inr e ↦ elim (Bool-cases (str_eq name key)) [
    | inl k ↦ rw (e, k) (field-assign_field key name (json_string text) payload ∙ rw k refl)
    | inr k ↦ rw (e, k) (field-assign_field key name (json_string text) payload ∙ rw k refl)
  ]
]

-- The payload has each field that the extra JSON has, but for `__proto__`, as its last one of that name
-- has it; else the icon_url, action_url, body and title of the form, where they are not empty; and no other field.
pub field-payload_of :
    (key : String) (extra : JsonFields) (page : Compose)
    → field key (payload_of extra page)
      ≡ first_of (extra_field key extra) (
          first_of (named "icon_url" page.icon_url key) (
            first_of (named "action_url" page.action_url key) (
              first_of
                (named "body" page.body key)
                (first_of (named "title" page.title key) none))))
unfolding well_known
field-payload_of key extra page =
    let title = when_text "title" page.title no_fields in
    let body = when_text "body" page.body title in
    let action = when_text "action_url" page.action_url body in
    field-assign_all key (well_known page) extra
    ∙ ap (first_of (extra_field key extra)) (
        field-when_text key "icon_url" page.icon_url action
        ∙ ap (first_of (named "icon_url" page.icon_url key)) (
            field-when_text key "action_url" page.action_url body
            ∙ ap (first_of (named "action_url" page.action_url key)) (
                field-when_text key "body" page.body title
                ∙ ap (first_of (named "body" page.body key))
                    (field-when_text key "title" page.title no_fields))))
