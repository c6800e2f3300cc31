-- ===== src/Bench/Stream.antt =====
-- The bytes of one stream in bench/sse/sse-load.mjs: the frames that chunks bring, in the `data`
-- handler of openSse, and the fields of a frame, in handleFrame. A text is the list of its UTF-16 code
-- units.
pub mod Frame
pub mod Laws
use chimely.Prelude.{
  ℕ, zero, suc, ◌+◌, String, units, Bool, true, false, ◌&&◌, ◌||◌, Option, none, some, List, [],
  ◌∷◌, ◌++◌, if◌then◌else◌, ◌==◌, ltb, length,
}
use chimely.Prelude.Units.{Units, is_newline, lines, after, trim}

-- `buf.indexOf('\n\n')` with the two slices: the text before the first blank line and the text behind
-- it.
unfoldable pub cut_frame : Units → Option (Units × Units)
cut_frame [] = none
cut_frame (c ∷ []) = none
cut_frame (c ∷ d ∷ s) =
    let later = cut_frame (d ∷ s) in
    if is_newline c && is_newline d
    then some ([], s)
    else elim later [ none ↦ none | some (frame, rest) ↦ some (c ∷ frame, rest) ]

-- The while loop of the `data` handler: the frames it handles, in order, and what stays in `buf`.
unfoldable pub frames_from : ℕ → Units → List Units × Units
frames_from zero buf = ([], buf)
frames_from (suc fuel) buf = elim (cut_frame buf) [
  | none ↦ ([], buf)
  | some (frame, rest) ↦ let (frames, left) = frames_from fuel rest in (frame ∷ frames, left)
]

-- Each round takes two characters off `buf`, so its length is enough.
abbrev pub frames_of : Units → List Units × Units
frames_of buf = frames_from (length buf) buf

-- The guard behind the loop.
abbrev pub guarded : Units → Units
guarded buf = if ltb 65536 (length buf) then [] else buf

-- The `data` handler.
unfoldable pub receive : Units → Units → List Units × Units
receive buf chunk = let (frames, left) = frames_of (buf ++ chunk) in (frames, guarded left)

-- The handler over the chunks of a stream.
unfoldable pub receive_all : Units → List Units → List Units × Units
receive_all buf [] = ([], buf)
receive_all buf (chunk ∷ chunks) =
    let (frames, left) = receive buf chunk in
    let (more, rest) = receive_all left chunks in (frames ++ more, rest)

pub record Fields : Type 0 where
  pub event : Units
  pub event_data : Units

abbrev pub with_event : Option Units → Fields → Fields
with_event none fields = fields
with_event (some rest) fields = record fields { event = trim rest }

abbrev pub with_data : Option Units → Fields → Fields
with_data none fields = fields
with_data (some rest) fields = record fields { event_data = trim rest }

-- One line of the loop in `handleFrame`.
unfoldable pub read_line : Units → Fields → Fields
read_line line fields =
    with_data (after (units "data:") line) (with_event (after (units "event:") line) fields)

unfoldable pub read_lines : List Units → Fields → Fields
read_lines [] fields = fields
read_lines (line ∷ more) fields = read_lines more (read_line line fields)

-- The event and the data of a frame.
unfoldable pub fields_of : Units → Fields
fields_of frame = read_lines (lines frame) (record { event = units "message"; event_data = [] })
