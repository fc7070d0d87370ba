-- ===== src/Prelude/Text/Parse.antt =====
-- `str::parse::<u16>`: an optional plus sign and digits, of a number below 2 ^ 16.
use Prim.Native.Nat.{ℕ, ◌+◌, ◌-◌, ◌*◌}
use Prim.Native.Char.{code}
use Prim.Native.String.{String}
use mathlib.Core.Path.{◌≡◌, refl}
use mathlib.Core.Bool.{Bool, ◌&&◌}
use mathlib.Core.Option.{Option, none, some}
use cpcluster.Prelude.Tests.{◌==◌, leb, ltb, if◌then◌else◌}

abbrev is_digit : ℕ → Bool
is_digit c = leb 0x30 c && leb c 0x39

-- The digits after those that make up `n`; an overflow is an error as soon as it occurs.
unfoldable pub digits_from : ℕ → String → Option ℕ
digits_from n String.[] = some n
digits_from n (String.◌∷◌ c s) =
    let next = n * 10 + (code c - 0x30) in
    let rest = digits_from next s in if is_digit (code c) && ltb next 65536 then rest else none

abbrev digits : String → Option ℕ
digits String.[] = none
digits (String.◌∷◌ c s) = digits_from 0 (String.◌∷◌ c s)

unfoldable pub parse_u16 : String → Option ℕ
unfolding digits_from
parse_u16 String.[] = none
parse_u16 (String.◌∷◌ c s) = if code c == 0x2b then digits s else digits (String.◌∷◌ c s)

parse_u16_examples :
    (parse_u16 "55000" ≡ some 55000)
    × (parse_u16 "+7" ≡ some 7)
    × (parse_u16 "+" ≡ none)
    × (parse_u16 "-1" ≡ none)
    × (parse_u16 "" ≡ none)
    × (parse_u16 "65535" ≡ some 65535)
    × (parse_u16 "65536" ≡ none)
    × (parse_u16 "5a" ≡ none)
unfolding parse_u16
parse_u16_examples = (refl, refl, refl, refl, refl, refl, refl, refl)
