-- ===== src/Libc/Memory/Region.antt =====
-- Writes to a stretch of memory, described address by address.
use phoebe.Base.{
  ℕ, zero, suc, ◌+◌, ◌*◌, ◌/◌, ◌%◌, ◌≤◌, ◌<◌, ◌≡◌, ltb, leb, if◌then◌else◌, Bool, ◌&&◌, arith,
}
use phoebe.Libc.Memory.{Memory, store, store_bytes}

abbrev pub within : ℕ → ℕ → ℕ → Bool
within lo hi a = leb lo a && ltb a hi

-- The bytes from `lo` up to `hi` are `v`, and the others are as before.
abbrev pub Filled : Memory → ℕ → ℕ → ℕ → Memory → Type 0
Filled m v lo hi m' = (a : ℕ) → m' a ≡ (if within lo hi a then v else m a)

pub Filled-refl : (m : Memory) (v lo : ℕ) → Filled m v lo lo m
Filled-refl m v lo a = ground arith

pub Filled-trans :
    (m n o : Memory) (v lo mid hi : ℕ)
    → lo ≤ mid
    → mid ≤ hi
    → Filled m v lo mid n
    → Filled n v mid hi o
    → Filled m v lo hi o
Filled-trans m n o v lo mid hi p q f g a = ground (arith, f a, g a)

pub Filled-store : (m : Memory) (v d : ℕ) → Filled m v d (d + 1) (store m d v)
Filled-store m v d a = ground arith

-- A value all of whose bytes are `v`.
unfoldable pub repeated : ℕ → ℕ → ℕ
repeated zero v = 0
repeated (suc n) v = v + 256 * repeated n v

pub store_bytes-Filled :
    (n : ℕ) (m : Memory) (d v : ℕ)
    → v < 256
    → Filled m v d (d + n) (store_bytes n m d (repeated n v))
unfolding store_bytes repeated
store_bytes-Filled zero m d v h = λ a. ground arith
store_bytes-Filled (suc n) m d v h =
    let low : (v + 256 * repeated n v) % 256 ≡ v = omega arith in
    let high : (v + 256 * repeated n v) / 256 ≡ repeated n v = omega arith in
    let e : d + suc n ≡ d + 1 + n = omega arith in
    rw (low, high, e)
      (Filled-trans m (store m d v) _ v d (d + 1) (d + 1 + n) (omega arith) (omega arith)
        (Filled-store m v d) (store_bytes-Filled n (store m d v) (d + 1) v h))
