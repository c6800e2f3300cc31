-- ===== src/Bench/Stream/Frame.antt =====
-- The fields of a frame as the server writes it.
use chimely.Prelude.{units, true, not, [], ◌∷◌, ◌++◌, all, ◌≡◌, refl, ap, ◌∙◌, arith}
use chimely.Prelude.Units.{
  Units, is_newline, lines, split_lines, after, trim, trim_start, trim_end, end_with,
}
use chimely.Bench.Stream.{Fields, read_line, read_lines, fields_of}

-- A text of one line that begins and ends with no white space.
abbrev pub Plain : Units → Type 0
Plain s = (all (λ c. not (is_newline c)) s ≡ true) × (trim s ≡ s)

split_one : (s : Units) → all (λ c. not (is_newline c)) s ≡ true → split_lines s ≡ (s, [])
unfolding split_lines
split_one [] h = refl
split_one (c ∷ s) h = ground (arith, split_one s)

split-append :
    (s more : Units)
    → all (λ c. not (is_newline c)) s ≡ true
    → split_lines (s ++ 10 ∷ more) ≡ (s, lines more)
unfolding split_lines
split-append [] more h = refl
split-append (c ∷ s) more h = ground (arith, split-append s more)

end_with-blank : (s : Units) → trim_start (end_with 32 s) ≡ trim_start s
unfolding trim_start
end_with-blank [] = refl
end_with-blank (c ∷ s) = refl

-- A blank in front is trimmed.
trim_blank : (s : Units) → trim (32 ∷ s) ≡ trim s
unfolding trim trim_end
trim_blank s = end_with-blank (trim_end s)

abbrev no_fields : Fields
no_fields = record { event = units "message"; event_data = [] }

read_id : (id : Units) (fields : Fields) → read_line (units "id: " ++ id) fields ≡ fields
unfolding read_line units after
read_id id fields = refl

read_event :
    (event : Units) (fields : Fields)
    → trim event ≡ event
    → read_line (units "event: " ++ event) fields ≡ record fields { event = event }
unfolding read_line units after
read_event event fields e = ap (λ x. record fields { event = x }) (trim_blank event ∙ e)

read_data :
    (text : Units) (fields : Fields)
    → trim text ≡ text
    → read_line (units "data: " ++ text) fields ≡ record fields { event_data = text }
unfolding read_line units after
read_data text fields e = ap (λ x. record fields { event_data = x }) (trim_blank text ∙ e)

-- A frame of three lines, as the server writes a hint.
abbrev pub frame_of : Units → Units → Units → Units
frame_of id event text =
    (units "id: " ++ id) ++ 10 ∷ ((units "event: " ++ event) ++ 10 ∷ (units "data: " ++ text))

split-frame_of :
    (id event text : Units)
    → Plain id
    → Plain event
    → Plain text
    → lines (frame_of id event text)
      ≡ (units "id: " ++ id) ∷ (units "event: " ++ event) ∷ (units "data: " ++ text) ∷ []
unfolding units
split-frame_of id event text hi he ht =
    let last = split_one (units "data: " ++ text) ht.0 in
    let back =
      split-append (units "event: " ++ event) (units "data: " ++ text) he.0
      ∙ ap (λ z. (units "event: " ++ event, z.0 ∷ z.1)) last in
    ap (λ z. z.0 ∷ z.1)
      (split-append (units "id: " ++ id)
          ((units "event: " ++ event) ++ 10 ∷ (units "data: " ++ text)) hi.0
        ∙ ap (λ z. (units "id: " ++ id, z.0 ∷ z.1)) back)

-- A frame of an id line, an event line and a data line, each value behind one space, is read back as
-- the event and the data, if each is a text of one line with no white space around it.
pub fields_of-frame_of :
    (id event text : Units)
    → Plain id
    → Plain event
    → Plain text
    → fields_of (frame_of id event text) ≡ record { event = event; event_data = text }
unfolding fields_of read_lines
fields_of-frame_of id event text hi he ht =
    ap (λ z. read_lines z no_fields) (split-frame_of id event text hi he ht)
    ∙ ap (λ z. read_line (units "data: " ++ text) (read_line (units "event: " ++ event) z))
        (read_id id no_fields)
    ∙ ap (read_line (units "data: " ++ text)) (read_event event no_fields he.1)
    ∙ read_data text (record no_fields { event = event }) ht.1
