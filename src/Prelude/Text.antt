-- ===== src/Prelude/Text.antt =====
-- `str::trim`, `str::starts_with`, `str::split` and the like, on the characters of a text.
pub mod Split
pub mod Trim
pub mod Parse
use Prim.Native.Nat.{ℕ, zero, suc, ◌/◌, ◌%◌, compare, Ordering}
use mathlib.Core.Path.{◌≡◌, refl}
use Prim.Native.Char.{Char, code}
use Prim.Native.String
use Prim.Native.String.{String}
use mathlib.Core.Bool.{Bool, ◌&&◌, ◌||◌}
use cpcluster.Prelude.Tests.{◌==◌, leb, if◌then◌else◌}

-- Unicode's White_Space, as `char::is_whitespace` tests it.
unfoldable pub is_whitespace : ℕ → Bool
is_whitespace c =
    (leb 9 c && leb c 13)
    || c == 32
    || c == 0x85
    || c == 0xa0
    || c == 0x1680
    || (leb 0x2000 c && leb c 0x200a)
    || c == 0x2028
    || c == 0x2029
    || c == 0x202f
    || c == 0x205f
    || c == 0x3000

unfoldable pub trim_start : String → String
unfolding is_whitespace
trim_start String.[] = String.[]
trim_start (String.◌∷◌ c s) =
    let rest = trim_start s in if is_whitespace (code c) then rest else String.◌∷◌ c s

-- Puts a character before a trimmed rest.
abbrev pub keep_unless_blank : Char → String → String
keep_unless_blank c String.[] = if is_whitespace (code c) then String.[] else String.◌∷◌ c String.[]
keep_unless_blank c (String.◌∷◌ d s) = String.◌∷◌ c (String.◌∷◌ d s)

unfoldable pub trim_end : String → String
unfolding is_whitespace
trim_end String.[] = String.[]
trim_end (String.◌∷◌ c s) = keep_unless_blank c (trim_end s)

unfoldable pub trim : String → String
unfolding trim_start trim_end
trim s = trim_end (trim_start s)

-- `to_string` of a number.
abbrev digit : ℕ → String
digit zero = "0"
digit (suc zero) = "1"
digit (suc (suc zero)) = "2"
digit (suc (suc (suc zero))) = "3"
digit (suc (suc (suc (suc zero)))) = "4"
digit (suc (suc (suc (suc (suc zero))))) = "5"
digit (suc (suc (suc (suc (suc (suc zero)))))) = "6"
digit (suc (suc (suc (suc (suc (suc (suc zero))))))) = "7"
digit (suc (suc (suc (suc (suc (suc (suc (suc zero)))))))) = "8"
digit (suc (suc (suc (suc (suc (suc (suc (suc (suc n))))))))) = "9"

-- A number has no more digits than its successor.
unfoldable decimal_loop : ℕ → ℕ → String → String
decimal_loop zero n text = text
decimal_loop (suc fuel) n text = elim (compare n 10) [
  | Ordering.lt ↦ String.◌++◌ (digit n) text
  | _ ↦ decimal_loop fuel (n / 10) (String.◌++◌ (digit (n % 10)) text)
]

unfoldable pub decimal : ℕ → String
unfolding decimal_loop
decimal n = decimal_loop (suc n) n ""

decimal_examples :
    (decimal 0 ≡ "0")
    × (decimal 7300 ≡ "7300")
    × (decimal 18446744073709551615 ≡ "18446744073709551615")
unfolding decimal
decimal_examples = (refl, refl, refl)
