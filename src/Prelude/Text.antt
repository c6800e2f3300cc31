-- ===== src/Prelude/Text.antt =====
-- Texts: equality of native strings, and the order of JavaScript's `<`, by UTF-16 code units.
use Prim.Native.Nat.{ℕ, zero, suc, ◌+◌, ◌-◌, ◌/◌, ◌%◌}
use Prim.Native.Char.{code}
use Prim.Native.String.{String, ◌++◌ as ◌+++◌}
use mathlib.Core.Path.{◌≡◌, refl}
use mathlib.Core.Bool.{Bool, true, false, ◌||◌, ◌&&◌}
use mathlib.Core.List.{List, [], ◌∷◌}
use native.Mathlib.Omega.{arith}
use text.Mathlib.Text.{◌==◌ as str_eq}
use chimely.Prelude.Tests.{ltb, ◌==◌, if◌then◌else◌}

-- The code units of one code point.
abbrev pub units_of : ℕ → List ℕ → List ℕ
units_of c rest =
    if ltb c 0x10000
    then c ∷ rest
    else (0xD800 + (c - 0x10000) / 0x400) ∷ (0xDC00 + (c - 0x10000) % 0x400) ∷ rest

-- The UTF-16 code units of a text.
unfoldable pub units : String → List ℕ
units String.[] = []
units (String.◌∷◌ c s) = units_of (code c) (units s)

units_lt : List ℕ → List ℕ → Bool
units_lt [] [] = false
units_lt [] (y ∷ ys) = true
units_lt (x ∷ xs) [] = false
units_lt (x ∷ xs) (y ∷ ys) = ltb x y || (x == y && units_lt xs ys)

-- `a < b` on strings.
unfoldable pub text_lt : String → String → Bool
unfolding units units_lt
text_lt a b = units_lt (units a) (units b)

units_lt_irrefl : (xs : List ℕ) → units_lt xs xs ≡ false
unfolding units_lt
units_lt_irrefl [] = refl
units_lt_irrefl (x ∷ xs) = ground (arith, units_lt_irrefl xs)

units_lt_trans :
    (xs ys zs : List ℕ) → units_lt xs ys ≡ true → units_lt ys zs ≡ true → units_lt xs zs ≡ true
unfolding units_lt
units_lt_trans [] [] zs h k = cc
units_lt_trans [] (y ∷ ys) [] h k = cc
units_lt_trans [] (y ∷ ys) (z ∷ zs) h k = refl
units_lt_trans (x ∷ xs) [] zs h k = cc
units_lt_trans (x ∷ xs) (y ∷ ys) [] h k = cc
units_lt_trans (x ∷ xs) (y ∷ ys) (z ∷ zs) h k = ground (arith, units_lt_trans xs ys zs)

units_lt_cotrans :
    (xs ys zs : List ℕ) → units_lt xs zs ≡ true → (units_lt xs ys || units_lt ys zs) ≡ true
unfolding units_lt
units_lt_cotrans [] [] [] h = cc
units_lt_cotrans [] [] (z ∷ zs) h = refl
units_lt_cotrans [] (y ∷ ys) zs h = refl
units_lt_cotrans (x ∷ xs) ys [] h = cc
units_lt_cotrans (x ∷ xs) [] (z ∷ zs) h = refl
units_lt_cotrans (x ∷ xs) (y ∷ ys) (z ∷ zs) h = ground (arith, units_lt_cotrans xs ys zs)

pub text_lt_irrefl : (a : String) → text_lt a a ≡ false
unfolding text_lt
text_lt_irrefl a = units_lt_irrefl (units a)

pub text_lt_trans : (a b c : String) → text_lt a b ≡ true → text_lt b c ≡ true → text_lt a c ≡ true
unfolding text_lt
text_lt_trans a b c h k = units_lt_trans (units a) (units b) (units c) h k

pub text_lt_cotrans : (a b c : String) → text_lt a c ≡ true → (text_lt a b || text_lt b c) ≡ true
unfolding text_lt
text_lt_cotrans a b c h = units_lt_cotrans (units a) (units b) (units c) h

-- Membership of a text, as `Set.has`.
abbrev pub contains : List String → String → Bool
contains [] s = false
contains (x ∷ xs) s = str_eq x s || contains xs s

-- No text twice.
abbrev pub Distinct : List String → Type 0
Distinct [] = Unit
Distinct (x ∷ xs) = (contains xs x ≡ false) × Distinct xs

-- One decimal digit.
digit : ℕ → String
digit zero = "0"
digit (suc zero) = "1"
digit (suc (suc zero)) = "2"
digit (suc (suc (suc zero))) = "3"
digit (suc (suc (suc (suc zero)))) = "4"
digit (suc (suc (suc (suc (suc zero))))) = "5"
digit (suc (suc (suc (suc (suc (suc zero)))))) = "6"
digit (suc (suc (suc (suc (suc (suc (suc zero))))))) = "7"
digit (suc (suc (suc (suc (suc (suc (suc (suc zero)))))))) = "8"
digit (suc (suc (suc (suc (suc (suc (suc (suc (suc n))))))))) = "9"

decimal_from : ℕ → ℕ → String → String
decimal_from zero n rest = rest
decimal_from (suc fuel) n rest =
    let text = digit (n % 10) +++ rest in
    let more = decimal_from fuel (n / 10) text in if n / 10 == 0 then text else more

-- `String(n)`. Each round drops a digit, so `n + 1` rounds are enough.
unfoldable pub decimal : ℕ → String
unfolding decimal_from digit
decimal n = decimal_from (n + 1) n ""

decimal_429 : decimal 429 ≡ "429"
unfolding decimal
decimal_429 = refl
