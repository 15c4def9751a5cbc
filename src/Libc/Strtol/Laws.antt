-- ===== src/Libc/Strtol/Laws.antt =====
-- What the conversions of `stdlib` return, against the number that the digits denote.
use phoebe.Base.{
  ℕ, ◌+◌, ◌-◌, ◌*◌, ◌^◌, ◌≤◌, ◌<◌, ◌≡◌, refl, ap, ◌∙◌, ltb, Bool, true, false, if◌then◌else◌, u64,
  sub64, List, [], ◌∷◌, none, some, arith, Bool-cases, inl, inr, dec_lt,
}
use phoebe.Libc.Ctype.{isdigit, isalpha, isspace}
use phoebe.Libc.Strtol.{
  Start, start, read_base, read_sign, skip_spaces, Any, Total, scan, end_of, long_max,
  long_min_magnitude, ulong_max, strtol, strtoul, atou, atou_loop, next_digit, digit_of,
  char_to_int, is_overflow,
}
use phoebe.Libc.Strtol.Scan.{
  digits_of, after_digits, number, seen, digits_of-none, digits_of-some, scan-Scans,
}

-- The base is never 0 once the prefix is read.
read_base-pos : (t : Start) → 0 < (read_base t).base
unfolding read_base
read_base-pos t = ground arith

start-pos : (nptr : List ℕ) (base : ℕ) → 0 < (start nptr base).base
unfolding start
start-pos nptr base = read_base-pos (read_sign base (skip_spaces nptr))

-- The digits that a call reads, the number that they denote, and the end of the text it takes.
abbrev pub digits_read : List ℕ → ℕ → List ℕ
digits_read nptr base = digits_of (start nptr base).base (start nptr base).at

abbrev pub number_read : List ℕ → ℕ → ℕ
number_read nptr base = number (start nptr base).base 0 (digits_read nptr base)

-- The first pointer if there is no digit, and the second otherwise.
abbrev pub end_by : List ℕ → List ℕ → List ℕ → List ℕ
end_by [] nptr rest = nptr
end_by (d ∷ ds) nptr rest = rest

abbrev pub end_read : List ℕ → ℕ → List ℕ
end_read nptr base =
    end_by (digits_read nptr base) nptr (after_digits (start nptr base).base (start nptr base).at)

module _ (max base : ℕ) (nptr s : List ℕ) (some_base : 0 < base) (fits : max < 2 ^ 64) where
  abbrev total : Total
  total = (scan max base s).0

  -- A number within the limit is in `acc`; past it the flag is set.
  total_within :
      number base 0 (digits_of base s) ≤ max
      → (is_overflow total.any ≡ false) × (total.acc ≡ number base 0 (digits_of base s))
  total_within h = by_digits (digits_of base s) ((scan-Scans max base s some_base fits).exact h)
    where
      by_digits :
          (ds : List ℕ) {n : ℕ}
          → total ≡ record { acc = n; any = seen Any.no_digits ds }
          → (is_overflow total.any ≡ false) × (total.acc ≡ n)
      by_digits [] e = rw e (refl, refl)
      by_digits (d ∷ ds) e = rw e (refl, refl)

  total_past : max < number base 0 (digits_of base s) → is_overflow total.any ≡ true
  total_past h = rw ((scan-Scans max base s some_base fits).past h)

  end_of-seen :
      (ds rest : List ℕ) (r : Total × List ℕ)
      → r.1 ≡ rest
      → (r.0).any ≡ seen Any.no_digits ds
      → end_of nptr r ≡ end_by ds nptr rest
  end_of-seen [] rest r e any = rw any
  end_of-seen (d ∷ ds) rest r e any = rw any e

  end_of-overflow :
      (ds rest : List ℕ) (r : Total × List ℕ)
      → r.1 ≡ rest
      → (r.0).any ≡ Any.overflow
      → max < number base 0 ds
      → end_of nptr r ≡ end_by ds nptr rest
  unfolding number
  end_of-overflow [] rest r e any past = absurd (omega arith)
  end_of-overflow (d ∷ ds) rest r e any past = rw any e

  -- With no digit the pointer stored is the one given; otherwise it is behind the last digit.
  end_of-scan : end_of nptr (scan max base s) ≡ end_by (digits_of base s) nptr (after_digits base s)
  end_of-scan =
      let facts = scan-Scans max base s some_base fits in
      elim (dec_lt max (number base 0 (digits_of base s))) [
        | yes past ↦
            end_of-overflow (digits_of base s) (after_digits base s) (scan max base s) facts.ends
              (facts.past past) past
        | no within ↦
            end_of-seen (digits_of base s) (after_digits base s) (scan max base s) facts.ends
              (ap (λ (t : Total). t.any) (facts.exact (omega arith)))
      ]

-- The value for a number behind a sign, where `limit` is the last that can be returned.
abbrev pub saturated : Bool → ℕ → ℕ → ℕ
saturated neg limit n = if ltb limit n then limit else if neg then sub64 0 n else n

value-saturated :
    (neg : Bool) (max base : ℕ) (nptr s : List ℕ)
    → 0 < base
    → max < 2 ^ 64
    → (if is_overflow (scan max base s).0.any
        then max
        else if neg
        then sub64 0 (scan max base s).0.acc
        else (scan max base s).0.acc)
      ≡ saturated neg max (number base 0 (digits_of base s))
value-saturated neg max base nptr s pos fits =
    elim (Bool-cases (ltb max (number base 0 (digits_of base s)))) [
      | inl past ↦ rw (past, total_past max base nptr s pos fits (ground arith))
      | inr within ↦
          let e = total_within max base nptr s pos fits (ground arith) in rw (within, e.0, e.1)
    ]

-- For every text and base: `strtoul` returns the number that the digits denote, negated in 64 bits
-- behind a minus sign, if it fits 64 bits, and `ULONG_MAX` if not; the pointer it stores is behind
-- the last digit, or the start of the text if there is none.
pub strtoul_lem :
    (nptr : List ℕ) (base : ℕ)
    → ((strtoul nptr base).value
        ≡ saturated (start nptr base).neg ulong_max (number_read nptr base))
      × ((strtoul nptr base).endptr ≡ end_read nptr base)
unfolding strtoul
strtoul_lem nptr base =
    let t = start nptr base in
    let pos = start-pos nptr base in
    (
      value-saturated t.neg ulong_max t.base nptr t.at pos (omega arith),
      end_of-scan ulong_max t.base nptr t.at pos (omega arith),
    )

-- For every text and base: `strtol` returns the number that the digits denote, with its sign, if
-- it is in the range of `long`, and the end of the range on its side if not; the pointer it stores
-- is behind the last digit, or the start of the text if there is none.
pub strtol_lem :
    (nptr : List ℕ) (base : ℕ)
    → ((strtol nptr base).value
        ≡ saturated
            (start nptr base).neg
            (if (start nptr base).neg then long_min_magnitude else long_max)
            (number_read nptr base))
      × ((strtol nptr base).endptr ≡ end_read nptr base)
unfolding strtol
strtol_lem nptr base =
    let t = start nptr base in
    let pos = start-pos nptr base in
    let limit = if t.neg then long_min_magnitude else long_max in
    let fits : limit < 2 ^ 64 = ground arith in
    (
      value-saturated t.neg limit t.base nptr t.at pos fits,
      end_of-scan limit t.base nptr t.at pos fits,
    )

number_mod : (a b : ℕ) (ds : List ℕ) → u64 a ≡ u64 b → u64 (number 10 a ds) ≡ u64 (number 10 b ds)
unfolding number
number_mod a b [] e = e
number_mod a b (d ∷ ds) e = number_mod (a * 10 + d) (b * 10 + d) ds (omega arith)

next_digit_ten :
    (c : ℕ) → next_digit 10 c ≡ (if isdigit (char_to_int c) then some (c - b'0') else none)
unfolding next_digit digit_of isdigit isalpha
next_digit_ten c = ground arith

digit_small : (c : ℕ) → isdigit (char_to_int c) ≡ true → c - b'0' < 10
unfolding isdigit
digit_small c h = ground arith

atou_loop-number :
    (val : ℕ) (s : List ℕ) → val < 2 ^ 64 → atou_loop val s ≡ u64 (number 10 val (digits_of 10 s))
unfolding atou_loop
atou_loop-number val [] h = unfold digits_of number in omega arith
atou_loop-number val (c ∷ s) h = elim (Bool-cases (isdigit (char_to_int c))) [
  | inl digit ↦
      let e : next_digit 10 c ≡ some (c - b'0') = rw (next_digit_ten c, digit) in
      rw (digit, digits_of-some 10 c s e)
        (atou_loop-number (u64 (u64 (val * 10) + (c - b'0'))) s (omega arith)
          ∙ unfold number in
            number_mod (u64 (u64 (val * 10) + (c - b'0'))) (val * 10 + (c - b'0')) (digits_of 10 s)
              (omega arith))
  | inr other ↦
      let e : next_digit 10 c ≡ none = rw (next_digit_ten c, other) in
      rw (other, digits_of-none 10 c s e) (unfold number in omega arith)
]

-- `atou` returns the number that the leading decimal digits denote, modulo 2 ^ 64.
pub atou-number : (s : List ℕ) → atou s ≡ u64 (number 10 0 (digits_of 10 s))
unfolding atou
atou-number s = atou_loop-number 0 s (omega arith)

pub start_digits :
    (c : ℕ) (s : List ℕ)
    → isdigit (char_to_int c) ≡ true
    → start (c ∷ s) 10 ≡ record { neg = false; base = 10; at = c ∷ s }
unfolding start isdigit isspace
start_digits c s h = ground arith

-- On a text that begins with a decimal digit `atou` agrees with `strtoul` in base 10, as long as
-- the number fits 64 bits.
pub atou-strtoul :
    (c : ℕ) (s : List ℕ)
    → isdigit (char_to_int c) ≡ true
    → number 10 0 (digits_of 10 (c ∷ s)) ≤ ulong_max
    → atou (c ∷ s) ≡ (strtoul (c ∷ s) 10).value
atou-strtoul c s digit fits =
    let spec = (rw (start_digits c s digit) at (strtoul_lem (c ∷ s) 10)).0 in
    ground (arith, atou-number (c ∷ s), spec)
