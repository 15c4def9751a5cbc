-- ===== src/Libc/Memory/Copied.antt =====
-- Words that are loaded from one place and stored at another, byte by byte.
use phoebe.Base.{
  ℕ, zero, suc, ◌+◌, ◌-◌, ◌*◌, ◌/◌, ◌%◌, ◌^◌, ◌<◌, ◌≡◌, ◌∙◌, if◌then◌else◌, arith, dec_lt,
}
use native.Mathlib.Nat.{pow-suc}
use phoebe.Libc.Memory.{Memory, store, store_bytes, load_bytes}
use phoebe.Libc.Memory.Region.{within}

abbrev pub IsBytes : Memory → Type 0
IsBytes m = (a : ℕ) → m a < 256

pub scale-suc : (i : ℕ) → 2 ^ (8 * suc i) ≡ 256 * 2 ^ (8 * i)
scale-suc i =
    let n = 8 * i in
    let e : 8 * suc i ≡ suc (suc (suc (suc (suc (suc (suc (suc n))))))) = omega arith in
    rw e (
      omega (
        arith,
        pow-suc 2 n,
        pow-suc 2 (suc n),
        pow-suc 2 (suc (suc n)),
        pow-suc 2 (suc (suc (suc n))),
        pow-suc 2 (suc (suc (suc (suc n)))),
        pow-suc 2 (suc (suc (suc (suc (suc n))))),
        pow-suc 2 (suc (suc (suc (suc (suc (suc n)))))),
        pow-suc 2 (suc (suc (suc (suc (suc (suc (suc n))))))),
      ))

pub scale-add : (i n : ℕ) → 2 ^ (8 * (i + n)) ≡ 2 ^ (8 * i) * 2 ^ (8 * n)
scale-add zero n = let e : 0 + n ≡ n = omega arith in rw e (omega arith)
scale-add (suc i) n =
    let e : suc i + n ≡ suc (i + n) = omega arith in
    let p : 2 ^ (8 * suc i) * 2 ^ (8 * n) ≡ 256 * (2 ^ (8 * i) * 2 ^ (8 * n)) =
      rw (scale-suc i) (grind arith) in
    rw (e, p, scale-suc (i + n), scale-add i n)

-- A value in two parts.
pub load_bytes-add :
    (i n : ℕ) (m : Memory) (s : ℕ)
    → load_bytes (i + n) m s ≡ load_bytes i m s + 2 ^ (8 * i) * load_bytes n m (s + i)
unfolding load_bytes
load_bytes-add zero n m s =
    let e : 0 + n ≡ n = omega arith in let e' : s + 0 ≡ s = omega arith in rw (e, e') (omega arith)
load_bytes-add (suc i) n m s =
    let e : suc i + n ≡ suc (i + n) = omega arith in
    let there : s + suc i ≡ s + 1 + i = omega arith in
    let p : 2 ^ (8 * suc i) * load_bytes n m (s + 1 + i)
        ≡ 256 * (2 ^ (8 * i) * load_bytes n m (s + 1 + i)) =
      rw (scale-suc i) (grind arith) in
    let rest = load_bytes-add i n m (s + 1) in rw (e, there) (omega (arith, p, rest))

pub load_bytes-lt : (n : ℕ) (m : Memory) (s : ℕ) → IsBytes m → load_bytes n m s < 2 ^ (8 * n)
unfolding load_bytes
load_bytes-lt zero m s bytes = omega arith
load_bytes-lt (suc n) m s bytes =
    omega (arith, scale-suc n, bytes s, load_bytes-lt n m (s + 1) bytes)

-- Storing what was loaded copies the bytes.
pub store_bytes-load_bytes :
    (n : ℕ) (m m' : Memory) (d s a : ℕ)
    → IsBytes m'
    → store_bytes n m d (load_bytes n m' s) a
      ≡ (if within d (d + n) a then m' (s + (a - d)) else m a)
unfolding store_bytes load_bytes
store_bytes-load_bytes zero m m' d s a bytes = ground arith
store_bytes-load_bytes (suc n) m m' d s a bytes =
    let first = bytes s in
    let low : (m' s + 256 * load_bytes n m' (s + 1)) % 256 ≡ m' s = omega (arith, first) in
    let high : (m' s + 256 * load_bytes n m' (s + 1)) / 256 ≡ load_bytes n m' (s + 1) =
      omega (arith, first) in
    rw (low, high)
      (store_bytes-load_bytes n (store m d (m' s)) m' (d + 1) (s + 1) a bytes ∙ shifted)
  where
    shifted :
        (if within (d + 1) (d + 1 + n) a then m' (s + 1 + (a - (d + 1))) else store m d (m' s) a)
        ≡ (if within d (d + suc n) a then m' (s + (a - d)) else m a)
    shifted = elim (dec_lt d a) [
      | yes behind ↦
          let same : s + 1 + (a - (d + 1)) ≡ s + (a - d) = omega (arith, behind) in
          rw same (ground (arith, behind))
      | no before ↦ elim (dec_lt a d) [
        | yes below ↦ ground (arith, below)
        | no first ↦
            let at_d : d ≡ a = omega (arith, before, first) in
            let here : s + (a - a) ≡ s = omega arith in rw at_d (rw here (ground arith))
      ]
    ]
