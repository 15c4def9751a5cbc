-- ===== src/Libc/Print/Laws.antt =====
-- Integers that are printed in decimal and read again.
use phoebe.Base.{
  ℕ, zero, suc, ◌-◌, ◌/◌, ◌%◌, ◌^◌, ◌<◌, ◌≡◌, ◌⊎◌, inl, inr, refl, sym, ap, ◌∙◌, ltb, ◌==◌, true,
  false, List, [], ◌∷◌, ◌++◌, length, replicate, arith, Bool-cases, ==_iff, subst,
}
use mathlib.Core.List.{append_assoc, append-nil}
use phoebe.Libc.Ctype.{isdigit, isspace, isalpha}
use phoebe.Libc.Strtol.{
  Start, start, skip_spaces, read_sign, read_base, next_digit, digit_of, char_to_int, strtoul,
  ulong_max,
}
use phoebe.Libc.Strtol.Scan.{digits_of, number}
use phoebe.Libc.Strtol.Laws.{strtoul_lem, start_digits}
use phoebe.Libc.Print.{
  put_digits, digit_char, digits_and_flags, is_set, flags_precision, flags_left, flags_zeropad,
  integer_buffer_size, put_all, finish, Finished, finalize_integer, print_integer,
}
use phoebe.Libc.Stdio.{File}
use phoebe.Libc.Print.Output.{justified, output_reverse-justified}
use phoebe.Libc.Print.Padding.{Padded, Signed, finish-Signed, finish-width}
use phoebe.Libc.Print.Room.{written-Fits}
use phoebe.Libc.Print.Digits.{reads, reads-zeros, reads-put_digits}

-- `strtoul` finds the number `n` in base 10 behind the spaces and the sign of a text.
record Reads (text : List ℕ) (n : ℕ) : Type 0 where
  neg : (start text 10).neg ≡ false
  base : (start text 10).base ≡ 10
  at : reads 0 (start text 10).at ≡ n

strtoul-Reads : (text : List ℕ) (n : ℕ) → Reads text n → n < 2 ^ 64 → (strtoul text 10).value ≡ n
strtoul-Reads text n r h =
    let fits : ltb ulong_max n ≡ false = ground arith in
    let read = r.at in let spec = (strtoul_lem text 10).0 in spec ∙ rw (r.neg, r.base, read, fits)

Reads-spaces : (i : ℕ) (s : List ℕ) (n : ℕ) → Reads s n → Reads (replicate i b' ' ++ s) n
unfolding start skip_spaces isspace
Reads-spaces zero s n r = r
Reads-spaces (suc i) s n r =
    let t = Reads-spaces i s n r in record { neg = t.neg; base = t.base; at = t.at }

Reads-plus : (s : List ℕ) (n : ℕ) → reads 0 s ≡ n → Reads (b'+' ∷ s) n
unfolding start skip_spaces read_sign read_base isspace
Reads-plus s n e = record { neg = refl; base = refl; at = e }

-- A text that is empty or begins with a decimal digit.
abbrev IsNumeral : List ℕ → Type 0
IsNumeral s = (s ≡ []) ⊎ ((c : ℕ) × (t : List ℕ) × (s ≡ c ∷ t) × (isdigit (char_to_int c) ≡ true))

Reads-blank : (j : ℕ) → Reads (replicate j b' ') (reads 0 (replicate j b' '))
unfolding start skip_spaces read_sign read_base isspace digits_of number next_digit digit_of isdigit
    isalpha
Reads-blank zero = record { neg = refl; base = refl; at = refl }
Reads-blank (suc zero) = record { neg = refl; base = refl; at = refl }
Reads-blank (suc (suc j)) =
    let t = Reads-blank (suc j) in record { neg = t.neg; base = t.base; at = t.at }

Reads-numeral :
    (s : List ℕ) (j : ℕ)
    → IsNumeral s
    → Reads (s ++ replicate j b' ') (reads 0 (s ++ replicate j b' '))
Reads-numeral s j (inl e) = rw e (Reads-blank j)
Reads-numeral s j (inr (c, t, e, digit)) =
    let started = start_digits c (t ++ replicate j b' ') digit in
    rw e (record {
      neg = ap (λ (x : Start). x.neg) started;
      base = ap (λ (x : Start). x.base) started;
      at = ap (λ (x : Start). reads 0 x.at) started;
    })

put_digits-IsNumeral :
    (room flags value : ℕ) (buffer : List ℕ)
    → IsNumeral buffer
    → IsNumeral (put_digits room 10 flags value buffer)
unfolding put_digits digit_char isdigit
put_digits-IsNumeral zero flags value buffer h = h
put_digits-IsNumeral (suc room) flags value buffer h =
    let c = digit_char flags (value % 10) in
    let digit : isdigit (char_to_int (digit_char flags (value % 10))) ≡ true =
      let small : value % 10 < 10 = omega arith in ground (arith, small) in
    let first : IsNumeral (c ∷ buffer) = inr (c, buffer, refl, digit) in
    elim (Bool-cases (value / 10 == 0)) [
      | inl last ↦ rw last first
      | inr more ↦ rw more (put_digits-IsNumeral room flags (value / 10) (c ∷ buffer) first)
    ]

-- What `print_integer` starts from: an empty or decimal text, that denotes the value.
digits-IsNumeral : (value flags : ℕ) → IsNumeral (digits_and_flags value 10 flags).0
unfolding digits_and_flags isdigit
digits-IsNumeral value flags = elim (Bool-cases (value == 0)) [
  | inl none_left ↦ elim (Bool-cases (is_set flags flags_precision)) [
    | inl exact ↦ rw (none_left, exact) (inl refl)
    | inr free ↦ rw (none_left, free) (inr (b'0', [], refl, refl))
  ]
  | inr some_left ↦
      rw some_left (put_digits-IsNumeral integer_buffer_size flags value [] (inl refl))
]

reads-blank : (j n : ℕ) → reads n (replicate j b' ') ≡ n
unfolding digits_of number next_digit digit_of isdigit isalpha
reads-blank zero n = refl
reads-blank (suc j) n = refl

reads-digits :
    (value flags j : ℕ)
    → value < 2 ^ 64
    → reads 0 ((digits_and_flags value 10 flags).0 ++ replicate j b' ') ≡ value
unfolding digits_and_flags
reads-digits value flags j h = elim (Bool-cases (value == 0)) [
  | inl none_left ↦
      let e : value ≡ 0 = (==_iff _ _).0 none_left in
      elim (Bool-cases (is_set flags flags_precision)) [
        | inl exact ↦ rw (none_left, exact) (reads-blank j 0 ∙ sym e)
        | inr free ↦
            rw (none_left, free) (reads-zeros 1 (replicate j b' ') ∙ reads-blank j 0 ∙ sym e)
      ]
  | inr some_left ↦ rw some_left (
      reads-put_digits integer_buffer_size flags value [] (replicate j b' ') (omega arith)
      ∙ reads-blank j value)
]

module _ (digits : List ℕ) (numeral : IsNumeral digits) where
  Padded-IsNumeral : (buffer : List ℕ) → Padded digits buffer → IsNumeral buffer
  unfolding isdigit
  Padded-IsNumeral buffer (zero, e) = rw e numeral
  Padded-IsNumeral buffer (suc k, e) = inr (b'0', replicate k b'0' ++ digits, e, refl)

  reads-Padded :
      (buffer : List ℕ) (j : ℕ)
      → Padded digits buffer
      → reads 0 (buffer ++ replicate j b' ') ≡ reads 0 (digits ++ replicate j b' ')
  reads-Padded buffer j (k, e) =
      rw (e, append_assoc (replicate k b'0') digits (replicate j b' '))
        (reads-zeros k (digits ++ replicate j b' '))

  Reads-Padded :
      (buffer : List ℕ) (j : ℕ)
      → Padded digits buffer
      → Reads (buffer ++ replicate j b' ') (reads 0 (digits ++ replicate j b' '))
  Reads-Padded buffer j p =
      subst (Reads (buffer ++ replicate j b' ')) (reads-Padded buffer j p)
        (Reads-numeral buffer j (Padded-IsNumeral buffer p))

  Reads-Signed :
      {buffer : List ℕ} (j : ℕ)
      → Signed digits buffer
      → Reads (buffer ++ replicate j b' ') (reads 0 (digits ++ replicate j b' '))
  Reads-Signed j (Signed.bare {buffer} p) = Reads-Padded buffer j p
  Reads-Signed j (Signed.plus {buffer} p) = Reads-plus _ _ (reads-Padded buffer j p)
  Reads-Signed j (Signed.space {buffer} p) = Reads-spaces 1 _ _ (Reads-Padded buffer j p)

Reads-justified :
    (buffer : List ℕ) (width flags n : ℕ)
    → ((j : ℕ) → Reads (buffer ++ replicate j b' ') n)
    → Reads (justified buffer width flags) n
unfolding justified
Reads-justified buffer width flags n h =
    let plain : Reads buffer n = subst (λ (s : List ℕ). Reads s n) (append-nil buffer) (h 0) in
    elim (Bool-cases (is_set flags flags_left)) [
      | inl left ↦ rw left (h (width - length buffer))
      | inr left ↦ elim (Bool-cases (is_set flags flags_zeropad)) [
        | inl zeros ↦ rw (left, zeros) plain
        | inr zeros ↦ rw (left, zeros) (Reads-spaces (width - length buffer) buffer n plain)
      ]
    ]

-- For every value of 64 bits, width, precision and flags, `print_integer` in base 10 without a minus
-- sign writes a text that `strtoul` reads as that value.
pub print_integer-strtoul :
    (fp : File) (value precision width flags : ℕ)
    → fp.position < 2 ^ 64
    → value < 2 ^ 64
    → width < 2 ^ 64
    → (text : List ℕ) × (print_integer fp value false 10 precision width flags ≡ put_all text fp)
      × ((strtoul text 10).value ≡ value)
unfolding print_integer finalize_integer
print_integer-strtoul fp value precision width flags p v w =
    let digits : List ℕ = (digits_and_flags value 10 flags).0 in
    let flags' : ℕ = (digits_and_flags value 10 flags).1 in
    let r : Finished = finish digits false 10 precision width flags' in
    let signed = finish-Signed digits precision width flags' in
    let read : (j : ℕ) → Reads (r.buffer ++ replicate j b' ') value = λ j.
      subst (Reads (r.buffer ++ replicate j b' ')) (reads-digits value flags j v)
        (Reads-Signed digits (digits-IsNumeral value flags) j signed) in
    let fits = (written-Fits value false 10 precision width flags).count in
    let narrow = finish-width digits precision width flags' in
    (
      justified r.buffer r.width r.flags,
      output_reverse-justified fp r.buffer r.width r.flags p (omega (arith, narrow))
          (omega (arith, fits)),
      strtoul-Reads _ value (Reads-justified r.buffer r.width r.flags value read) v,
    )
