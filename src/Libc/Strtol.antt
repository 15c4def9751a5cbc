-- ===== src/Libc/Strtol.antt =====
-- `libc/stdlib/strtol.c`, `strtoll.c`, `strtoul.c`, `strtoull.c` and `atou.c`: four copies of one
-- scanner, which differ in their limits. A pointer into a text is the list of the bytes from it
-- up to the terminating NUL, which is left out: reading at the end gives 0. `base` is not
-- negative. A result is the 64-bit pattern that is returned.
pub mod Scan
pub mod Laws
pub mod Tests
use phoebe.Base.{
  ℕ, ◌+◌, ◌-◌, ◌*◌, ◌/◌, ◌%◌, ◌^◌, ltb, leb, ◌==◌, Bool, true, false, ◌&&◌, ◌||◌, if◌then◌else◌,
  u32, u64, sub64, ℤ, pos, negsuc, List, [], ◌∷◌, Option, none, some, get_or,
}
use phoebe.Libc.Ctype.{isdigit, isalpha, isupper, isspace}

-- `*s`, and `s + 1`
abbrev pub deref : List ℕ → ℕ
deref s = get_or s 0 0

abbrev pub advance : List ℕ → List ℕ
advance [] = []
advance (c ∷ s) = s

-- A `char`, which is signed on amd64, as an `int`.
abbrev pub char_to_int : ℕ → ℤ
char_to_int c = if ltb c 128 then pos c else negsuc (255 - c)

-- The first loop. All functions here take and give the pointer to the character `c`, so that the
-- `s` of the source is one further.
unfoldable pub skip_spaces : List ℕ → List ℕ
skip_spaces [] = []
skip_spaces (c ∷ s) = if isspace (char_to_int c) then skip_spaces s else c ∷ s

pub record Start : Type 0 where
  pub neg : Bool
  pub base : ℕ
  pub at : List ℕ

unfoldable pub read_sign : ℕ → List ℕ → Start
read_sign base s =
    if deref s == b'-'
    then record { neg = true; base = base; at = advance s }
    else record { neg = false; base = base; at = if deref s == b'+' then advance s else s }

-- The prefix `0x`, and the base that a 0 stands for.
unfoldable pub read_base : Start → Start
read_base t =
    let s = advance t.at in
    if (t.base == 0 || t.base == 16) && (deref t.at == b'0' && (deref s == b'x' || deref s == b'X'))
    then record t { base = 16; at = advance s }
    else if t.base == 0
    then record t { base = if deref t.at == b'0' then 8 else 10 }
    else t

unfoldable pub start : List ℕ → ℕ → Start
unfolding skip_spaces read_sign read_base
start nptr base = read_base (read_sign base (skip_spaces nptr))

-- The digit that a character stands for in any base; `none` ends the number.
unfoldable pub digit_of : ℤ → Option ℕ
digit_of (pos n) =
    if isdigit (pos n)
    then some (n - b'0')
    else if isalpha (pos n)
    then some (n - (if isupper (pos n) then b'A' - 10 else b'a' - 10))
    else none
digit_of (negsuc n) = none

unfoldable pub next_digit : ℕ → ℕ → Option ℕ
next_digit base c = elim (digit_of (char_to_int c)) [
  | none ↦ none
  | some d ↦ if leb base d then none else some d
]

-- The variable `any`: 0, 1 and -1.
pub data Any : Type 0 where
  no_digits digits overflow : Any

pub record Total : Type 0 where
  pub acc : ℕ
  pub any : Any

abbrev pub is_overflow : Any → Bool
is_overflow Any.overflow = true
is_overflow _ = false

-- The body of the loop at a digit, for the limit `cutoff * base + cutlim`.
unfoldable pub add_digit : ℕ → ℕ → ℕ → Total → ℕ → Total
add_digit base cutoff cutlim t d =
    if is_overflow t.any || (ltb cutoff t.acc || (t.acc == cutoff && ltb cutlim d))
    then record t { any = Any.overflow }
    else record { acc = u64 (u64 (t.acc * base) + d); any = Any.digits }

-- The loop: the total, and the pointer to the character that ended it.
unfoldable pub accumulate : ℕ → ℕ → ℕ → List ℕ → Total → Total × List ℕ
accumulate base cutoff cutlim [] t = (t, [])
accumulate base cutoff cutlim (c ∷ s) t = elim (next_digit base c) [
  | none ↦ (t, c ∷ s)
  | some d ↦ accumulate base cutoff cutlim s (add_digit base cutoff cutlim t d)
]

-- The number read with the limit `max`, and the value for `endptr`.
unfoldable pub scan : ℕ → ℕ → List ℕ → Total × List ℕ
scan max base s =
    accumulate base (max / base) (max % base) s (record { acc = 0; any = Any.no_digits })

-- The value returned, and the pointer stored through `endptr`.
pub record Parsed : Type 0 where
  pub value : ℕ
  pub endptr : List ℕ

abbrev pub end_of : List ℕ → Total × List ℕ → List ℕ
end_of nptr (t, s) = elim t.any [ Any.no_digits ↦ nptr | _ ↦ s ]

abbrev pub long_max : ℕ
long_max = 2 ^ 63 - 1

-- `-(size_t)LONG_MIN`, which is also the pattern of `LONG_MIN`
abbrev pub long_min_magnitude : ℕ
long_min_magnitude = 2 ^ 63

abbrev pub ulong_max : ℕ
ulong_max = 2 ^ 64 - 1

unfoldable pub strtol : List ℕ → ℕ → Parsed
unfolding start scan
strtol nptr base =
    let t = start nptr base in
    let limit = if t.neg then long_min_magnitude else long_max in
    let r = scan limit t.base t.at in
    record {
      value =
          if is_overflow (r.0).any then limit else if t.neg then sub64 0 (r.0).acc else (r.0).acc;
      endptr = end_of nptr r;
    }

unfoldable pub strtoul : List ℕ → ℕ → Parsed
unfolding start scan
strtoul nptr base =
    let t = start nptr base in
    let r = scan ulong_max t.base t.at in
    record {
      value =
          if is_overflow (r.0).any
          then ulong_max
          else if t.neg
          then sub64 0 (r.0).acc
          else (r.0).acc;
      endptr = end_of nptr r;
    }

-- `long long` has the width of `long` on amd64: the two other files are these with other names.
unfoldable pub strtoll : List ℕ → ℕ → Parsed
unfolding strtol
strtoll nptr base = strtol nptr base

unfoldable pub strtoull : List ℕ → ℕ → Parsed
unfolding strtoul
strtoull nptr base = strtoul nptr base

-- The result is cut to an `int`.
unfoldable pub atoi : List ℕ → ℕ
unfolding strtol
atoi nptr = u32 (strtol nptr 10).value

unfoldable pub atol : List ℕ → ℕ
unfolding strtol
atol nptr = (strtol nptr 10).value

unfoldable pub atoll : List ℕ → ℕ
unfolding strtoll
atoll nptr = (strtoll nptr 10).value

-- The loop of `atou`: no sign, no space, and no limit.
unfoldable pub atou_loop : ℕ → List ℕ → ℕ
atou_loop val [] = val
atou_loop val (c ∷ s) =
    if isdigit (char_to_int c) then atou_loop (u64 (u64 (val * 10) + (c - b'0'))) s else val

unfoldable pub atou : List ℕ → ℕ
unfolding atou_loop
atou nptr = atou_loop 0 nptr
