-- ===== src/Libc/Memory/Words.antt =====
-- Words that are stored and loaded.
use phoebe.Base.{ℕ, zero, suc, ◌+◌, ◌/◌, ◌%◌, ◌^◌, ◌≤◌, ◌<◌, ◌≡◌, ◌⊎◌, inl, inr, refl, ◌∙◌, arith}
use native.Mathlib.Nat.{pow-suc}
use phoebe.Libc.Memory.{Memory, store, store_bytes, load_bytes}

pub store_bytes-apart :
    (n : ℕ) (m : Memory) (d w a : ℕ) → (a < d) ⊎ (d + n ≤ a) → store_bytes n m d w a ≡ m a
unfolding store_bytes
store_bytes-apart zero m d w a h = refl
store_bytes-apart (suc n) m d w a (inl below) =
    store_bytes-apart n (store m d (w % 256)) (d + 1) (w / 256) a (inl (omega (arith, below)))
    ∙ ground (arith, below)
store_bytes-apart (suc n) m d w a (inr above) =
    store_bytes-apart n (store m d (w % 256)) (d + 1) (w / 256) a (inr (omega (arith, above)))
    ∙ ground (arith, above)

-- A load depends on the bytes that it reads.
pub load_bytes-same :
    (n : ℕ) (m m' : Memory) (s : ℕ)
    → ((a : ℕ) → s ≤ a → a < s + n → m' a ≡ m a)
    → load_bytes n m' s ≡ load_bytes n m s
unfolding load_bytes
load_bytes-same zero m m' s h = refl
load_bytes-same (suc n) m m' s h =
    let first = h s (omega arith) (omega arith) in
    let rest =
      load_bytes-same n m m' (s + 1) (λ a p q. h a (omega (arith, p)) (omega (arith, q))) in
    omega (arith, first, rest)

pub load_bytes-zero :
    (n : ℕ) (m : Memory) (s : ℕ) → ((a : ℕ) → s ≤ a → a < s + n → m a ≡ 0) → load_bytes n m s ≡ 0
unfolding load_bytes
load_bytes-zero zero m s h = refl
load_bytes-zero (suc n) m s h =
    let first = h s (omega arith) (omega arith) in
    let rest = load_bytes-zero n m (s + 1) (λ a p q. h a (omega (arith, p)) (omega (arith, q))) in
    omega (arith, first, rest)

-- A value that fits is loaded as it was stored.
pub load_bytes-store_bytes :
    (n : ℕ) (m : Memory) (d w : ℕ) → w < 256 ^ n → load_bytes n (store_bytes n m d w) d ≡ w
unfolding load_bytes store_bytes
load_bytes-store_bytes zero m d w h = omega (arith, h)
load_bytes-store_bytes (suc n) m d w h =
    let first = store_bytes-apart n (store m d (w % 256)) (d + 1) (w / 256) d (inl (omega arith)) in
    let here : store m d (w % 256) d ≡ w % 256 = ground arith in
    let rest =
      load_bytes-store_bytes n (store m d (w % 256)) (d + 1) (w / 256)
        (omega (arith, h, pow-suc 256 n)) in
    omega (arith, first, here, rest)
