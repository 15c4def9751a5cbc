-- ===== src/Libc/Strtol/Tests.antt =====
-- Runs of the conversions, and their theorems at texts that exercise the prefixes and the limits.
use phoebe.Base.{ℕ, ◌-◌, ◌^◌, ◌≡◌, refl, List, [], ◌∷◌, arith, true}
use phoebe.Libc.Strtol.{
  strtol, strtoul, atou, start, accumulate, add_digit, next_digit, digit_of, long_min_magnitude,
  ulong_max,
}
use phoebe.Libc.Strtol.Laws.{saturated, strtol_lem, strtoul_lem, atou-strtoul}
use phoebe.Libc.Strtol.Scan.{digits_of, number, after_digits}
use phoebe.Libc.Ctype.{isdigit, isalpha, isspace}

-- " -0x1F;"
abbrev hexadecimal : List ℕ
hexadecimal = b' ' ∷ b'-' ∷ b'0' ∷ b'x' ∷ b'1' ∷ b'F' ∷ b';' ∷ []

abbrev decimal : List ℕ
decimal = b'4' ∷ b'0' ∷ b'7' ∷ b'k' ∷ []

minus_thirty_one : strtol hexadecimal 0 ≡ record { value = 2 ^ 64 - 31; endptr = b';' ∷ [] }
unfolding strtol accumulate add_digit next_digit digit_of isdigit isalpha isspace
minus_thirty_one = refl

strtoul_lem_example :
    ((strtoul hexadecimal 0).value ≡ saturated true ulong_max 31)
    × ((strtoul hexadecimal 0).endptr ≡ b';' ∷ [])
unfolding start isspace digits_of number next_digit digit_of isdigit isalpha after_digits
strtoul_lem_example = strtoul_lem hexadecimal 0

strtol_lem_example :
    ((strtol hexadecimal 0).value ≡ saturated true long_min_magnitude 31)
    × ((strtol hexadecimal 0).endptr ≡ b';' ∷ [])
unfolding start isspace digits_of number next_digit digit_of isdigit isalpha after_digits
strtol_lem_example = strtol_lem hexadecimal 0

atou-strtoul_example : atou decimal ≡ (strtoul decimal 10).value
unfolding isdigit digits_of number next_digit digit_of isalpha
atou-strtoul_example = atou-strtoul b'4' _ refl (omega arith)
