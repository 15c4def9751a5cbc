-- ===== src/Base/Bits.antt =====
-- Laws of `|` and `&` at variables, from the recursion on binary digits that they stand for.
use Prim.Native.Nat.{
  ℕ, zero, suc, ◌+◌, ◌-◌, ◌*◌, ◌/◌, ◌%◌, ◌^◌, ◌≤◌, ◌<◌, min, max, bit_and, bit_or, digits, bitwise,
  bit_and-bitwise, bit_or-bitwise,
}
use mathlib.Core.Path.{◌≡◌, refl, ap}
use native.Mathlib.Omega.{arith}
use native.Mathlib.Nat.{pow-suc, one-le-pow, mod-lt}

-- One equation for the lowest digit. `rest` is the result once the first operand is 0, which must
-- agree with `pick` on a 0 and a digit.
module _ (rest : ℕ → ℕ) (pick : ℕ → ℕ → ℕ)
    (agree : (y : ℕ) → rest y ≡ rest (y / 2) * 2 + pick 0 (y % 2)) where
  -- `size` bounds the count of digits to go, so that both of its uses are below it.
  enough_digits :
      (size n x y : ℕ) → n ≤ size → x ≤ n → digits rest pick n x y ≡ bitwise rest pick x y
  enough_digits size zero zero y p q = refl
  enough_digits size zero (suc x) y p q = elim q [ ]
  enough_digits size (suc n) zero y p q = refl
  enough_digits zero (suc n) (suc x) y p q = elim p [ ]
  enough_digits (suc size) (suc n) (suc x) y p q =
      let long = enough_digits size n (suc x / 2) (y / 2) (omega arith) (omega arith) in
      let short = enough_digits size x (suc x / 2) (y / 2) (omega arith) (omega arith) in
      omega (arith, long, short)

  lowest_digit :
      (x y : ℕ)
      → bitwise rest pick x y ≡ bitwise rest pick (x / 2) (y / 2) * 2 + pick (x % 2) (y % 2)
  lowest_digit zero y = agree y
  lowest_digit (suc x) y =
      ap (λ (t : ℕ). t * 2 + pick (suc x % 2) (y % 2))
        (enough_digits x x (suc x / 2) (y / 2) (omega arith) (omega arith))

bit_or-digit : (x y : ℕ) → bit_or x y ≡ bit_or (x / 2) (y / 2) * 2 + max (x % 2) (y % 2)
bit_or-digit x y = omega (
  arith,
  lowest_digit (λ t. t) max (λ t. omega arith) x y,
  bit_or-bitwise x y,
  bit_or-bitwise (x / 2) (y / 2),
)

bit_and-digit : (x y : ℕ) → bit_and x y ≡ bit_and (x / 2) (y / 2) * 2 + min (x % 2) (y % 2)
bit_and-digit x y = omega (
  arith,
  lowest_digit (λ t. 0) min (λ t. omega arith) x y,
  bit_and-bitwise x y,
  bit_and-bitwise (x / 2) (y / 2),
)

-- The lower `k` digits and the others are combined apart from one another.
module _ (op pick : ℕ → ℕ → ℕ)
    (digit : (x y : ℕ) → op x y ≡ op (x / 2) (y / 2) * 2 + pick (x % 2) (y % 2))
    (nothing : op 0 0 ≡ 0) where
  split :
      (k x y r s : ℕ)
      → r < 2 ^ k
      → s < 2 ^ k
      → op (x * 2 ^ k + r) (y * 2 ^ k + s) ≡ op x y * 2 ^ k + op r s
  split zero x y r s p q =
      let r0 : r ≡ 0 = omega arith in
      let s0 : s ≡ 0 = omega arith in
      let x1 : x * 1 + 0 ≡ x = omega arith in
      let y1 : y * 1 + 0 ≡ y = omega arith in rw (r0, s0, x1, y1) (omega (arith, nothing))
  split (suc k) x y r s p q =
      let half = pow-suc 2 k in
      let xk : x * 2 ^ suc k ≡ 2 * (x * 2 ^ k) = omega (arith, ap (λ (t : ℕ). x * t) half) in
      let yk : y * 2 ^ suc k ≡ 2 * (y * 2 ^ k) = omega (arith, ap (λ (t : ℕ). y * t) half) in
      let ok_ : op x y * 2 ^ suc k ≡ 2 * (op x y * 2 ^ k) =
        omega (arith, ap (λ (t : ℕ). op x y * t) half) in
      let a : (x * 2 ^ suc k + r) / 2 ≡ x * 2 ^ k + r / 2 = omega arith in
      let b : (y * 2 ^ suc k + s) / 2 ≡ y * 2 ^ k + s / 2 = omega arith in
      let c : (x * 2 ^ suc k + r) % 2 ≡ r % 2 = omega arith in
      let d : (y * 2 ^ suc k + s) % 2 ≡ s % 2 = omega arith in
      let whole = digit (x * 2 ^ suc k + r) (y * 2 ^ suc k + s) in
      omega (
        arith,
        rw (a, b, c, d) at whole,
        digit r s,
        split k x y (r / 2) (s / 2) (omega arith) (omega arith),
      )

  -- Zeros above: the operation stays within `k` digits.
  bounded :
      (k x y : ℕ)
      → x < 2 ^ k
      → y < 2 ^ k
      → ((a b : ℕ) → a < 2 → b < 2 → pick a b < 2)
      → op x y < 2 ^ k
  bounded zero x y p q small =
      let x0 : x ≡ 0 = omega arith in
      let y0 : y ≡ 0 = omega arith in rw (x0, y0) (omega (arith, nothing))
  bounded (suc k) x y p q small = omega (
    arith,
    pow-suc 2 k,
    digit x y,
    bounded k (x / 2) (y / 2) (omega arith) (omega arith) small,
    small (x % 2) (y % 2) (omega arith) (omega arith),
  )

pub bit_or-zero : (k x : ℕ) → x < 2 ^ k → bit_or x 0 ≡ x
bit_or-zero zero x p = let x0 : x ≡ 0 = omega arith in rw x0
bit_or-zero (suc k) x p =
    omega (arith, pow-suc 2 k, bit_or-digit x 0, bit_or-zero k (x / 2) (omega arith))

pub zero-bit_or : (y : ℕ) → bit_or 0 y ≡ y
zero-bit_or y = bit_or-bitwise 0 y

pub bit_or_split :
    (k x y r s : ℕ)
    → r < 2 ^ k
    → s < 2 ^ k
    → bit_or (x * 2 ^ k + r) (y * 2 ^ k + s) ≡ bit_or x y * 2 ^ k + bit_or r s
bit_or_split = split bit_or max bit_or-digit refl

pub bit_and_split :
    (k x y r s : ℕ)
    → r < 2 ^ k
    → s < 2 ^ k
    → bit_and (x * 2 ^ k + r) (y * 2 ^ k + s) ≡ bit_and x y * 2 ^ k + bit_and r s
bit_and_split = split bit_and min bit_and-digit refl

-- The union of a multiple of `2 ^ k` and a value below it is their sum. (`x` is below `2 ^ j`.)
pub bit_or-eq-add : (j k x s : ℕ) → x < 2 ^ j → s < 2 ^ k → bit_or (x * 2 ^ k) s ≡ x * 2 ^ k + s
bit_or-eq-add j k x s p q =
    let parts = split bit_or max bit_or-digit refl k x 0 0 s (omega arith) q in
    let a : x * 2 ^ k + 0 ≡ x * 2 ^ k = omega arith in
    let b : 0 * 2 ^ k + s ≡ s = omega arith in
    omega (arith, rw (a, b, bit_or-zero j x p, zero-bit_or) at parts)

-- A mask of ones changes nothing below it.
pub bit_and_ones : (k x : ℕ) → x < 2 ^ k → bit_and x (2 ^ k - 1) ≡ x
bit_and_ones zero x p = let x0 : x ≡ 0 = omega arith in rw x0
bit_and_ones (suc k) x p =
    let half = pow-suc 2 k in
    let some_ones : 0 < 2 ^ k = one-le-pow k 2 (omega arith) in
    let a : (2 ^ suc k - 1) / 2 ≡ 2 ^ k - 1 = omega arith in
    let b : (2 ^ suc k - 1) % 2 ≡ 1 = omega arith in
    omega
      (arith, rw (a, b) at (bit_and-digit x (2 ^ suc k - 1)), bit_and_ones k (x / 2) (omega arith))

pub bit_and-zero : (k x : ℕ) → x < 2 ^ k → bit_and x 0 ≡ 0
bit_and-zero zero x p = let x0 : x ≡ 0 = omega arith in rw x0
bit_and-zero (suc k) x p =
    omega (arith, pow-suc 2 k, bit_and-digit x 0, bit_and-zero k (x / 2) (omega arith))

-- A mask with `k` zeros at the end, and ones up to `2 ^ (j + k)`, clears the remainder.
pub bit_and_high :
    (j k x : ℕ) → x / 2 ^ k < 2 ^ j → bit_and x ((2 ^ j - 1) * 2 ^ k) ≡ x / 2 ^ k * 2 ^ k
bit_and_high j k x p =
    let some_digits : 0 < 2 ^ k = one-le-pow k 2 (omega arith) in
    let r : x % 2 ^ k < 2 ^ k = mod-lt x some_digits in
    let parts =
      split bit_and min bit_and-digit refl k (x / 2 ^ k) (2 ^ j - 1) (x % 2 ^ k) 0 r some_digits in
    let a : x / 2 ^ k * 2 ^ k + x % 2 ^ k ≡ x = grind arith in
    let b : (2 ^ j - 1) * 2 ^ k + 0 ≡ (2 ^ j - 1) * 2 ^ k = omega arith in
    omega (arith, rw (a, b, bit_and_ones j (x / 2 ^ k) p, bit_and-zero k (x % 2 ^ k) r) at parts)

pub bit_or-lt : (k x y : ℕ) → x < 2 ^ k → y < 2 ^ k → bit_or x y < 2 ^ k
bit_or-lt zero x y p q =
    let x0 : x ≡ 0 = omega arith in let y0 : y ≡ 0 = omega arith in rw (x0, y0) (omega arith)
bit_or-lt (suc k) x y p q =
    let half = pow-suc 2 k in
    omega (
      arith,
      half,
      bit_or-digit x y,
      bit_or-lt k (x / 2) (y / 2) (omega (arith, half)) (omega (arith, half)),
    )

pub bit_and-lt : (k x y : ℕ) → x < 2 ^ k → y < 2 ^ k → bit_and x y < 2 ^ k
bit_and-lt zero x y p q =
    let x0 : x ≡ 0 = omega arith in let y0 : y ≡ 0 = omega arith in rw (x0, y0) (omega arith)
bit_and-lt (suc k) x y p q =
    let half = pow-suc 2 k in
    omega (
      arith,
      half,
      bit_and-digit x y,
      bit_and-lt k (x / 2) (y / 2) (omega (arith, half)) (omega (arith, half)),
    )
