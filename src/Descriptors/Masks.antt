-- ===== src/Descriptors/Masks.antt =====
-- Fields that are cut out of a number by masks.
use phoebe.Base.{ℕ, ◌+◌, ◌-◌, ◌*◌, ◌/◌, ◌%◌, ◌^◌, ◌<◌, ◌≡◌, ◌∙◌, bit_and, arith}
use phoebe.Base.Bits.{bit_and_split, bit_and_ones, bit_and-zero}
use native.Mathlib.Nat.{one-le-pow, mod-lt}

-- A mask of ones keeps the remainder.
pub bit_and_low : (j k x : ℕ) → x / 2 ^ k < 2 ^ j → bit_and x (2 ^ k - 1) ≡ x % 2 ^ k
bit_and_low j k x p =
    let some_digits : 0 < 2 ^ k = one-le-pow k 2 (omega arith) in
    let r : x % 2 ^ k < 2 ^ k = mod-lt x some_digits in
    let ones : 2 ^ k - 1 < 2 ^ k = omega (arith, some_digits) in
    let parts = bit_and_split k (x / 2 ^ k) 0 (x % 2 ^ k) (2 ^ k - 1) r ones in
    let a : x / 2 ^ k * 2 ^ k + x % 2 ^ k ≡ x = grind arith in
    let b : 0 * 2 ^ k + (2 ^ k - 1) ≡ 2 ^ k - 1 = omega arith in
    rw (a, b, bit_and-zero j (x / 2 ^ k) p, bit_and_ones k (x % 2 ^ k) r) at parts ∙ omega arith
