-- ===== src/Prelude/Units.antt =====
-- Strings of JavaScript as lists of UTF-16 code units, with the methods that the sources call.
use Prim.Native.Nat.{ℕ}
use mathlib.Core.Bool.{Bool, true, false, ◌||◌}
use mathlib.Core.Option.{Option, none, some}
use mathlib.Core.List.{List, [], ◌∷◌}
use chimely.Prelude.Tests.{◌==◌, if◌then◌else◌}

-- A string of JavaScript.
abbrev pub Units : Type 0
Units = List ℕ

abbrev pub is_newline : ℕ → Bool
is_newline c = c == 10

-- The first line of a text, and those behind it.
unfoldable pub split_lines : Units → Units × List Units
split_lines [] = ([], [])
split_lines (c ∷ s) =
    let (line, more) = split_lines s in if is_newline c then ([], line ∷ more) else (c ∷ line, more)

-- `frame.split('\n')`.
abbrev pub lines : Units → List Units
lines text = let (line, more) = split_lines text in line ∷ more

-- `line.startsWith(start)` with `line.slice(start.length)`.
unfoldable pub after : Units → Units → Option Units
after [] line = some line
after (c ∷ start) [] = none
after (c ∷ start) (d ∷ line) = let rest = after start line in if c == d then rest else none

-- `data.includes(text)`.
unfoldable pub includes : Units → Units → Bool
includes [] text = elim (after text []) [ none ↦ false | some rest ↦ true ]
includes (c ∷ s) text =
    elim (after text (c ∷ s)) [ none ↦ false | some rest ↦ true ] || includes s text

abbrev pub member : ℕ → List ℕ → Bool
member n [] = false
member n (x ∷ xs) = n == x || member n xs

-- The white space and line ends of ECMAScript.
abbrev pub is_space : ℕ → Bool
is_space c = member c (
    0x20 ∷ 0x09 ∷ 0x0A ∷ 0x0B ∷ 0x0C ∷ 0x0D ∷ 0xA0 ∷ 0x1680 ∷ 0x2000 ∷ 0x2001 ∷ 0x2002 ∷ 0x2003
    ∷ 0x2004 ∷ 0x2005 ∷ 0x2006 ∷ 0x2007 ∷ 0x2008 ∷ 0x2009 ∷ 0x200A ∷ 0x2028 ∷ 0x2029 ∷ 0x202F
    ∷ 0x205F ∷ 0x3000 ∷ 0xFEFF ∷ [])

unfoldable pub trim_start : Units → Units
trim_start [] = []
trim_start (c ∷ s) = let rest = trim_start s in if is_space c then rest else c ∷ s

abbrev pub end_with : ℕ → Units → Units
end_with c [] = if is_space c then [] else c ∷ []
end_with c (d ∷ s) = c ∷ d ∷ s

unfoldable pub trim_end : Units → Units
trim_end [] = []
trim_end (c ∷ s) = end_with c (trim_end s)

-- `text.trim()`.
unfoldable pub trim : Units → Units
trim text = trim_start (trim_end text)
