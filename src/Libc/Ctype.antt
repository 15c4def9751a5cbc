-- ===== src/Libc/Ctype.antt =====
-- `libc/ctype.c`, on every `int`. A comparison with a character constant, which is not negative,
-- looks at the sign first.
pub mod Laws
pub mod Tests
use phoebe.Base.{
  ℕ, ◌+◌, ◌-◌, ◌^◌, ltb, leb, ◌==◌, Bool, true, false, ◌&&◌, ◌||◌, if◌then◌else◌, bit_and, ℤ, pos,
  negsuc,
}

-- `ch >= lo && ch <= hi`
abbrev pub between : ℕ → ℕ → ℤ → Bool
between lo hi (pos n) = leb lo n && leb n hi
between lo hi (negsuc n) = false

-- `ch == c`
abbrev pub is : ℕ → ℤ → Bool
is c (pos n) = n == c
is c (negsuc n) = false

unfoldable pub isdigit : ℤ → Bool
isdigit ch = between b'0' b'9' ch

unfoldable pub isupper : ℤ → Bool
isupper ch = between b'A' b'Z' ch

unfoldable pub islower : ℤ → Bool
islower ch = between b'a' b'z' ch

unfoldable pub isalpha : ℤ → Bool
unfolding isupper islower
isalpha ch = isupper ch || islower ch

unfoldable pub isalnum : ℤ → Bool
unfolding isalpha isdigit
isalnum ch = isalpha ch || isdigit ch

unfoldable pub isascii : ℤ → Bool
isascii ch = between 0 127 ch

unfoldable pub isblank : ℤ → Bool
isblank ch = is 0x20 ch || is 0x09 ch

unfoldable pub iscntrl : ℤ → Bool
iscntrl ch = between 0 31 ch || is 127 ch

-- `ch > ' '` is `ch >= 0x21`.
unfoldable pub isgraph : ℤ → Bool
isgraph ch = between 0x21 0x7e ch

unfoldable pub isprint : ℤ → Bool
isprint ch = between 0x20 0x7e ch

unfoldable pub isspace : ℤ → Bool
isspace ch = is 0x20 ch || between 0x09 0x0d ch

unfoldable pub isxdigit : ℤ → Bool
unfolding isdigit
isxdigit ch = isdigit ch || between b'A' b'F' ch || between b'a' b'f' ch

-- The mask is applied to the two's complement.
unfoldable pub toascii : ℤ → ℤ
toascii (pos n) = pos (bit_and n 0x7f)
toascii (negsuc n) = pos (bit_and (2 ^ 32 - 1 - n) 0x7f)

-- `ch + k` and `ch - k`, where the character is a letter.
abbrev pub shift_up : ℕ → ℤ → ℤ
shift_up k (pos n) = pos (n + k)
shift_up k (negsuc n) = negsuc n

abbrev pub shift_down : ℕ → ℤ → ℤ
shift_down k (pos n) = pos (n - k)
shift_down k (negsuc n) = negsuc n

unfoldable pub tolower : ℤ → ℤ
unfolding isupper
tolower ch = if isupper ch then shift_up (b'a' - b'A') ch else ch

unfoldable pub toupper : ℤ → ℤ
unfolding islower
toupper ch = if islower ch then shift_down (b'a' - b'A') ch else ch
