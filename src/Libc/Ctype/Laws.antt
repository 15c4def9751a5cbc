-- ===== src/Libc/Ctype/Laws.antt =====
-- The classes of `ctype.c`, and how its case mappings fit together.
use phoebe.Base.{
  ℕ, ◌≤◌, ◌≡◌, ◌∙◌, refl, sym, Bool, true, false, not, ◌&&◌, ◌||◌, ◌==◌, ltb, and_true, List, [],
  ◌∷◌, ◌++◌, dec_lt, arith, ℤ, pos, negsuc,
}
use phoebe.Base.Table.{all_below, all_below_sound}
use phoebe.Libc.Ctype.{
  isdigit, isupper, islower, isalpha, isalnum, isascii, iscntrl, isgraph, isprint, isspace, isblank,
  isxdigit, tolower, toupper,
}

-- On every `int`: either mapping of case is not affected by the other one before it, `tolower` never
-- gives an upper-case letter nor `toupper` a lower-case one, and both keep letters letters and all
-- else no letters.
pub case_laws :
    (ch : ℤ)
    → (tolower (toupper ch) ≡ tolower ch)
      × (toupper (tolower ch) ≡ toupper ch)
      × (isupper (tolower ch) ≡ false)
      × (islower (toupper ch) ≡ false)
      × (isalpha (tolower ch) ≡ isalpha ch)
      × (isalpha (toupper ch) ≡ isalpha ch)
unfolding tolower toupper isalpha
case_laws (pos n) = ground arith
case_laws (negsuc n) = (refl, refl, refl, refl, refl, refl)

-- The characters of the classes, as the C library lists them for the ASCII codes.
module _ where
  abbrev pub decimal : List ℕ
  decimal = b'0' ∷ b'1' ∷ b'2' ∷ b'3' ∷ b'4' ∷ b'5' ∷ b'6' ∷ b'7' ∷ b'8' ∷ b'9' ∷ []

  abbrev pub upper : List ℕ
  upper =
      b'A' ∷ b'B' ∷ b'C' ∷ b'D' ∷ b'E' ∷ b'F' ∷ b'G' ∷ b'H' ∷ b'I' ∷ b'J' ∷ b'K' ∷ b'L' ∷ b'M'
      ∷ b'N' ∷ b'O' ∷ b'P' ∷ b'Q' ∷ b'R' ∷ b'S' ∷ b'T' ∷ b'U' ∷ b'V' ∷ b'W' ∷ b'X' ∷ b'Y' ∷ b'Z'
      ∷ []

  abbrev pub lower : List ℕ
  lower =
      b'a' ∷ b'b' ∷ b'c' ∷ b'd' ∷ b'e' ∷ b'f' ∷ b'g' ∷ b'h' ∷ b'i' ∷ b'j' ∷ b'k' ∷ b'l' ∷ b'm'
      ∷ b'n' ∷ b'o' ∷ b'p' ∷ b'q' ∷ b'r' ∷ b's' ∷ b't' ∷ b'u' ∷ b'v' ∷ b'w' ∷ b'x' ∷ b'y' ∷ b'z'
      ∷ []

  abbrev pub hexadecimal : List ℕ
  hexadecimal =
      b'A' ∷ b'B' ∷ b'C' ∷ b'D' ∷ b'E' ∷ b'F' ∷ b'a' ∷ b'b' ∷ b'c' ∷ b'd' ∷ b'e' ∷ b'f' ∷ decimal

  -- The graphic characters that are neither letters nor digits.
  abbrev pub punctuation : List ℕ
  punctuation =
      33 ∷ 34 ∷ 35 ∷ 36 ∷ 37 ∷ 38 ∷ 39 ∷ 40 ∷ 41 ∷ 42 ∷ 43 ∷ 44 ∷ 45 ∷ 46 ∷ 47 ∷ 58 ∷ 59 ∷ 60 ∷ 61
      ∷ 62 ∷ 63 ∷ 64 ∷ 91 ∷ 92 ∷ 93 ∷ 94 ∷ 95 ∷ 96 ∷ 123 ∷ 124 ∷ 125 ∷ 126 ∷ []

  -- The space and the tab.
  abbrev pub blanks : List ℕ
  blanks = 32 ∷ 9 ∷ []

  -- The space, the tab, the new line, the vertical tab, the form feed and the carriage return.
  abbrev pub spaces : List ℕ
  spaces = 32 ∷ 9 ∷ 10 ∷ 11 ∷ 12 ∷ 13 ∷ []

unfoldable pub among : List ℕ → ℤ → Bool
among [] ch = false
among (c ∷ cs) (pos n) = n == c || among cs (pos n)
among (c ∷ cs) (negsuc n) = false

same : Bool → Bool → Bool
same true b = b
same false b = not b

same_sound : (a b : Bool) → same a b ≡ true → a ≡ b
unfolding same
same_sound true b e = sym e
same_sound false true e = e
same_sound false false e = refl

-- Both tests agree below 128, and neither holds above.
below_128 : List ℕ → Bool
below_128 [] = true
below_128 (c ∷ cs) = ltb c 128 && below_128 cs

among-above : (cs : List ℕ) (n : ℕ) → below_128 cs ≡ true → 128 ≤ n → among cs (pos n) ≡ false
unfolding among below_128
among-above [] n few h = refl
among-above (c ∷ cs) n few h =
    let both = and_true (ltb c 128) (below_128 cs) few in
    let other : (n == c) ≡ false = ground (arith, both.0, h) in rw other (among-above cs n both.1 h)

among-negative : (cs : List ℕ) (n : ℕ) → among cs (negsuc n) ≡ false
unfolding among
among-negative [] n = refl
among-negative (c ∷ cs) n = refl

class_lem :
    (class : ℤ → Bool) (cs : List ℕ)
    → all_below 128 (λ n. same (class (pos n)) (among cs (pos n))) ≡ true
    → below_128 cs ≡ true
    → ((n : ℕ) → 128 ≤ n → class (pos n) ≡ false)
    → ((n : ℕ) → class (negsuc n) ≡ false)
    → (ch : ℤ) → class ch ≡ among cs ch
class_lem class cs table few above negative (pos n) = elim (dec_lt n 128) [
  | yes below ↦ same_sound _ _ (all_below_sound 128 _ table n below)
  | no h ↦ let high : 128 ≤ n = omega (arith, h) in above n high ∙ sym (among-above cs n few high)
]
class_lem class cs table few above negative (negsuc n) = negative n ∙ sym (among-negative cs n)

isdigit_lem : (ch : ℤ) → isdigit ch ≡ among decimal ch
unfolding isdigit among same all_below below_128
isdigit_lem ch = class_lem isdigit decimal refl refl (λ n h. ground (arith, h)) (λ n. refl) ch

isupper_lem : (ch : ℤ) → isupper ch ≡ among upper ch
unfolding isupper among same all_below below_128
isupper_lem ch = class_lem isupper upper refl refl (λ n h. ground (arith, h)) (λ n. refl) ch

islower_lem : (ch : ℤ) → islower ch ≡ among lower ch
unfolding islower among same all_below below_128
islower_lem ch = class_lem islower lower refl refl (λ n h. ground (arith, h)) (λ n. refl) ch

isalpha_lem : (ch : ℤ) → isalpha ch ≡ among (upper ++ lower) ch
unfolding isalpha isupper islower among same all_below below_128
isalpha_lem ch =
    class_lem isalpha (upper ++ lower) refl refl (λ n h. ground (arith, h)) (λ n. refl) ch

isalnum_lem : (ch : ℤ) → isalnum ch ≡ among (upper ++ (lower ++ decimal)) ch
unfolding isalnum isalpha isupper islower isdigit among same all_below below_128
isalnum_lem ch =
    class_lem isalnum (upper ++ (lower ++ decimal)) refl refl (λ n h. ground (arith, h)) (λ n. refl)
      ch

isxdigit_lem : (ch : ℤ) → isxdigit ch ≡ among hexadecimal ch
unfolding isxdigit isdigit among same all_below below_128
isxdigit_lem ch = class_lem isxdigit hexadecimal refl refl (λ n h. ground (arith, h)) (λ n. refl) ch

isblank_lem : (ch : ℤ) → isblank ch ≡ among blanks ch
unfolding isblank among same all_below below_128
isblank_lem ch = class_lem isblank blanks refl refl (λ n h. ground (arith, h)) (λ n. refl) ch

isspace_lem : (ch : ℤ) → isspace ch ≡ among spaces ch
unfolding isspace among same all_below below_128
isspace_lem ch = class_lem isspace spaces refl refl (λ n h. ground (arith, h)) (λ n. refl) ch

isgraph_lem : (ch : ℤ) → isgraph ch ≡ among (punctuation ++ (upper ++ (lower ++ decimal))) ch
unfolding isgraph among same all_below below_128
isgraph_lem ch =
    class_lem isgraph (punctuation ++ (upper ++ (lower ++ decimal))) refl refl
      (λ n h. ground (arith, h)) (λ n. refl) ch

isprint_lem : (ch : ℤ) → isprint ch ≡ among (32 ∷ (punctuation ++ (upper ++ (lower ++ decimal)))) ch
unfolding isprint among same all_below below_128
isprint_lem ch =
    class_lem isprint (32 ∷ (punctuation ++ (upper ++ (lower ++ decimal)))) refl refl
      (λ n h. ground (arith, h)) (λ n. refl) ch

control_lem :
    (ch : ℤ) → (isascii ch ≡ (iscntrl ch || isprint ch)) × ((iscntrl ch && isprint ch) ≡ false)
unfolding isascii iscntrl isprint
control_lem (pos n) = (ground arith, ground arith)
control_lem (negsuc n) = (refl, refl)

-- On every `int`, the classes hold exactly for the characters that are listed for them: digits,
-- upper-case and lower-case letters, letters, letters and digits, hexadecimal digits, blanks, spaces,
-- graphic characters and printing characters. The control characters are the ASCII codes that do not
-- print.
pub class_laws :
    (ch : ℤ)
    → (isdigit ch ≡ among decimal ch)
      × (isupper ch ≡ among upper ch)
      × (islower ch ≡ among lower ch)
      × (isalpha ch ≡ among (upper ++ lower) ch)
      × (isalnum ch ≡ among (upper ++ (lower ++ decimal)) ch)
      × (isxdigit ch ≡ among hexadecimal ch)
      × (isblank ch ≡ among blanks ch)
      × (isspace ch ≡ among spaces ch)
      × (isgraph ch ≡ among (punctuation ++ (upper ++ (lower ++ decimal))) ch)
      × (isprint ch ≡ among (32 ∷ (punctuation ++ (upper ++ (lower ++ decimal)))) ch)
      × (isascii ch ≡ (iscntrl ch || isprint ch))
      × ((iscntrl ch && isprint ch) ≡ false)
class_laws ch = (
  isdigit_lem ch,
  isupper_lem ch,
  islower_lem ch,
  isalpha_lem ch,
  isalnum_lem ch,
  isxdigit_lem ch,
  isblank_lem ch,
  isspace_lem ch,
  isgraph_lem ch,
  isprint_lem ch,
  (control_lem ch).0,
  (control_lem ch).1,
)
