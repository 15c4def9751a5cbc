-- ===== src/Libc/Print/Digits.antt =====
-- The digits that `print_integer` writes, read by `strtoul`.
use phoebe.Base.{
  ℕ, zero, suc, ◌+◌, ◌*◌, ◌/◌, ◌%◌, ◌^◌, ◌<◌, ◌≡◌, refl, ap, ◌∙◌, ◌==◌, List, ◌∷◌, ◌++◌, some,
  replicate, arith, Bool-cases, inl, inr, ==_iff,
}
use phoebe.Libc.Ctype.{isdigit}
use phoebe.Libc.Strtol.{next_digit, digit_of}
use phoebe.Libc.Strtol.Scan.{digits_of, number, digits_of-some}
use phoebe.Libc.Print.{put_digits, digit_char}

-- The number that the decimal digits at the front of a text denote, behind `acc`.
abbrev pub reads : ℕ → List ℕ → ℕ
reads acc s = number 10 acc (digits_of 10 s)

next_digit-digit_char : (flags d : ℕ) → d < 10 → next_digit 10 (digit_char flags d) ≡ some d
unfolding next_digit digit_of isdigit digit_char
next_digit-digit_char flags d h = ground arith

reads-digit :
    (acc flags d : ℕ) (s : List ℕ)
    → d < 10
    → reads acc (digit_char flags d ∷ s) ≡ reads (acc * 10 + d) s
unfolding number
reads-digit acc flags d s h =
    rw (digits_of-some 10 (digit_char flags d) s (next_digit-digit_char flags d h))

-- Zeros in front do not count.
pub reads-zeros : (k : ℕ) (s : List ℕ) → reads 0 (replicate k b'0' ++ s) ≡ reads 0 s
unfolding digit_char
reads-zeros zero s = refl
reads-zeros (suc k) s = reads-digit 0 0 0 (replicate k b'0' ++ s) (omega arith) ∙ reads-zeros k s

pub reads-put_digits :
    (room flags value : ℕ) (buffer rest : List ℕ)
    → value < 10 ^ room
    → reads 0 (put_digits room 10 flags value buffer ++ rest) ≡ reads value (buffer ++ rest)
unfolding put_digits
reads-put_digits zero flags value buffer rest h = let e : value ≡ 0 = omega arith in rw e
reads-put_digits (suc room) flags value buffer rest h =
    let step = reads-digit (value / 10) flags (value % 10) (buffer ++ rest) (omega arith) in
    let whole : value / 10 * 10 + value % 10 ≡ value = omega arith in
    elim (Bool-cases (value / 10 == 0)) [
      | inl last ↦
          let none_left : value / 10 ≡ 0 = (==_iff _ _).0 last in
          let first = reads-digit 0 flags (value % 10) (buffer ++ rest) (omega arith) in
          let e : 0 * 10 + value % 10 ≡ value = omega (arith, none_left) in
          rw last (first ∙ ap (λ (n : ℕ). reads n (buffer ++ rest)) e)
      | inr more ↦
          let ih =
            reads-put_digits room flags (value / 10) (digit_char flags (value % 10) ∷ buffer) rest
              (omega (arith, h)) in
          rw more (ih ∙ step ∙ ap (λ (n : ℕ). reads n (buffer ++ rest)) whole)
    ]
