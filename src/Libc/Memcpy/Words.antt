-- ===== src/Libc/Memcpy/Words.antt =====
-- A word that is merged from two loaded ones.
use phoebe.Base.{ℕ, suc, ◌+◌, ◌*◌, ◌/◌, ◌^◌, ◌<◌, ◌≡◌, sym, ◌∙◌, bit_or, u64, arith}
use phoebe.Base.Bits.{bit_or_split, bit_or-zero, zero-bit_or}
use native.Mathlib.Nat.{mul-add-div, div-eq_of_lt, mul-le-mul_right}
use phoebe.Libc.Memory.{Memory, load_bytes, load_word}
use phoebe.Libc.Memory.Copied.{IsBytes, scale-add, load_bytes-add, load_bytes-lt}
use phoebe.Libc.Memcpy.{merge}

high_or : (q hi lo : ℕ) → hi < 2 ^ q → bit_or hi (lo * 2 ^ q) ≡ hi + lo * 2 ^ q
high_or q hi lo h =
    let parts = bit_or_split q 0 lo hi 0 h (omega (arith, h)) in
    let a : 0 * 2 ^ q + hi ≡ hi = omega arith in
    let b : lo * 2 ^ q + 0 ≡ lo * 2 ^ q = omega arith in
    omega (arith, rw (a, b, bit_or-zero q hi h, zero-bit_or lo) at parts)

-- A scale is positive, since it is above a value.
some_scale : (k : ℕ) → 0 < 2 ^ (8 * k)
some_scale k = omega (arith, load_bytes-lt k (λ a. 0) 0 (λ a. omega arith))

module _ (k h : ℕ) (whole : k + h ≡ 8) where
  product : 2 ^ (8 * k) * 2 ^ (8 * h) ≡ 2 ^ 64
  product = rw whole at (sym (scale-add k h))

  -- The bytes above the lowest `k`.
  shift_right :
      (m : Memory) (b : ℕ) → IsBytes m → load_word m b / 2 ^ (8 * k) ≡ load_bytes h m (b + k)
  shift_right m b bytes =
      let parts = rw whole at (load_bytes-add k h m b) in
      let low = load_bytes-lt k m b bytes in
      let order : load_bytes k m b + 2 ^ (8 * k) * load_bytes h m (b + k)
          ≡ 2 ^ (8 * k) * load_bytes h m (b + k) + load_bytes k m b =
        omega arith in
      let rest : load_bytes k m b / 2 ^ (8 * k) ≡ 0 = div-eq_of_lt low in
      rw (parts, order)
        (mul-add-div (some_scale k) (load_bytes h m (b + k)) (load_bytes k m b)
          ∙ rw rest (omega arith))

  -- The lowest `k` bytes, on top.
  shift_left :
      (m : Memory) (b : ℕ)
      → IsBytes m
      → u64 (load_word m b * 2 ^ (8 * h)) ≡ load_bytes k m b * 2 ^ (8 * h)
  shift_left m b bytes =
      let parts = rw whole at (load_bytes-add k h m b) in
      let spread : (load_bytes k m b + 2 ^ (8 * k) * load_bytes h m (b + k)) * 2 ^ (8 * h)
          ≡ load_bytes k m b * 2 ^ (8 * h) + (2 ^ (8 * k) * 2 ^ (8 * h)) * load_bytes h m (b + k) =
        grind arith in
      let below =
        mul-le-mul_right {m = suc (load_bytes k m b)} {n = 2 ^ (8 * k)} (2 ^ (8 * h))
          (omega (arith, load_bytes-lt k m b bytes)) in
      let step : suc (load_bytes k m b) * 2 ^ (8 * h)
          ≡ load_bytes k m b * 2 ^ (8 * h) + 2 ^ (8 * h) =
        grind arith in
      let fits : load_bytes k m b * 2 ^ (8 * h) < 2 ^ 64 =
        omega (arith, rw product at below, step, some_scale h) in
      rw (parts, spread, product) (omega (arith, fits))

  pub merge-load :
      (m m' : Memory) (b b' : ℕ)
      → IsBytes m
      → IsBytes m'
      → merge (load_word m b) (8 * k) (load_word m' b') (8 * h)
        ≡ load_bytes h m (b + k) + 2 ^ (8 * h) * load_bytes k m' b'
  merge-load m m' b b' bytes bytes' =
      rw (shift_right m b bytes, shift_left m' b' bytes')
        (high_or (8 * h) _ _ (load_bytes-lt h m (b + k) bytes) ∙ grind arith)
