-- ===== src/Prelude/Text.antt =====
-- Text as code points: the operations of Python's `str` that the program uses on identifiers.
use Prim.Native.Char.{code}
use Prim.Native.Nat.{ℕ, zero, suc, ◌/◌, ◌%◌}
use Prim.Native.String.{String, ◌++◌}
use mathlib.Core.Bool.{Bool, ◌&&◌, ◌||◌}
use mathlib.Core.List.{List, [], ◌∷◌}
use vaaet.Prelude.Tests.{ltb, leb, eqb, if◌then◌else◌}
use vaaet.Prelude.Lists.{all}

abbrev pub codes : String → List ℕ
codes String.[] = []
codes (String.◌∷◌ c s) = code c ∷ codes s

-- An f-string, from its parts.
abbrev pub concat : List String → String
concat [] = ""
concat (s ∷ ss) = s ++ concat ss

-- `str.isspace` of one character.
abbrev pub is_space : ℕ → Bool
is_space c =
    (leb 9 c && leb c 13)
    || (leb 28 c && leb c 32)
    || eqb c 133
    || eqb c 160
    || eqb c 5760
    || (leb 8192 c && leb c 8202)
    || eqb c 8232
    || eqb c 8233
    || eqb c 8239
    || eqb c 8287
    || eqb c 12288

-- `s.strip() == ""`
abbrev pub is_blank : String → Bool
is_blank s = all is_space (codes s)

abbrev pub digit : ℕ → String
digit n =
    if eqb n 0
    then "0"
    else if eqb n 1
    then "1"
    else if eqb n 2
    then "2"
    else if eqb n 3
    then "3"
    else if eqb n 4
    then "4"
    else if eqb n 5
    then "5"
    else if eqb n 6
    then "6"
    else if eqb n 7
    then "7"
    else if eqb n 8
    then "8"
    else "9"

-- `str(n)`, with more fuel than there are digits.
abbrev pub decimal_from : ℕ → ℕ → String
decimal_from zero n = ""
decimal_from (suc fuel) n =
    let rest = decimal_from fuel (n / 10) in if ltb n 10 then digit n else rest ++ digit (n % 10)

-- `f"{n:04d}"`
abbrev pub four_digits : ℕ → String
four_digits n = concat (
    (if ltb n 10000 then "" else decimal_from n (n / 10000))
    ∷ digit (n / 1000 % 10)
    ∷ digit (n / 100 % 10)
    ∷ digit (n / 10 % 10)
    ∷ digit (n % 10)
    ∷ [])
