-- ===== src/Libc/Memcpy/Steps.antt =====
-- What the loops of `memcpy` copy.
use phoebe.Base.{
  ℕ, zero, suc, ◌+◌, ◌-◌, ◌*◌, ◌^◌, ◌≤◌, ◌<◌, ◌≡◌, ◌⊎◌, inl, inr, sym, ap, ◌∙◌, ◌==◌, ==_iff,
  if◌then◌else◌, Bool-cases, true, false, u64, arith,
}
use phoebe.Libc.Memory.{Memory, store, load_bytes, store_word, load_word}
use phoebe.Libc.Memory.Region.{within}
use phoebe.Libc.Memory.Words.{load_bytes-same}
use phoebe.Libc.Memory.Copied.{IsBytes, load_bytes-add, store_bytes-load_bytes}
use phoebe.Libc.Memcpy.{Copy, byte_copy_fwd, merge, aligned_pairs, merged_pairs}
use phoebe.Libc.Memcpy.Words.{merge-load}

-- The `n` bytes from `s` stand at `d`, and all other bytes are as before.
abbrev pub Copied : Memory → ℕ → ℕ → ℕ → Memory → Type 0
Copied m d s n m' = (a : ℕ) → m' a ≡ (if within d (d + n) a then m (s + (a - d)) else m a)

module _ (m0 : Memory) (d s n : ℕ) (bytes : IsBytes m0) (d_fits : d + n < 2 ^ 64)
    (s_fits : s + n < 2 ^ 64) (apart : (d ≤ s) ⊎ (s + n ≤ d)) where
  pub Copied-zero : Copied m0 d s 0 m0
  Copied-zero a = ground arith

  -- What is left of the source is not touched.
  source :
      (j : ℕ) (m : Memory) (a : ℕ) → Copied m0 d s j m → j ≤ n → s + j ≤ a → a < s + n → m a ≡ m0 a
  source j m a p bound lo hi =
      let outside : within d (d + j) a ≡ false = ground (arith, bound, lo, hi, apart) in
      rw outside at (p a)

  Copied-IsBytes : (j : ℕ) (m : Memory) → Copied m0 d s j m → IsBytes m
  Copied-IsBytes j m p a = elim (Bool-cases (within d (d + j) a)) [
    | inl e ↦ omega (arith, rw e at (p a), bytes (s + (a - d)))
    | inr e ↦ omega (arith, rw e at (p a), bytes a)
  ]

  pub load-source :
      (k j : ℕ) (m : Memory) (a : ℕ)
      → Copied m0 d s j m
      → j ≤ n
      → s + j ≤ a
      → a + k ≤ s + n
      → load_bytes k m a ≡ load_bytes k m0 a
  load-source k j m a p bound lo hi =
      load_bytes-same k m0 m a
        (λ b from to. source j m b p bound (omega (arith, lo, from)) (omega (arith, hi, to)))

  -- The next bytes are copied.
  Copied-next :
      (k j : ℕ) (m m' : Memory)
      → Copied m0 d s j m
      → ((a : ℕ)
          → m' a ≡ (if within (d + j) (d + j + k) a then m0 (s + j + (a - (d + j))) else m a))
      → Copied m0 d s (j + k) m'
  Copied-next k j m m' p q a = elim (Bool-cases (within (d + j) (d + j + k) a)) [
    | inl here ↦
        let lo : d + j ≤ a = ground (arith, here) in
        let hi : a < d + j + k = ground (arith, here) in
        let same : s + j + (a - (d + j)) ≡ s + (a - d) = omega (arith, lo) in
        let inside : within d (d + (j + k)) a ≡ true = ground (arith, lo, hi) in
        rw inside (rw (here, same) at (q a))
    | inr there ↦
        let equal : within d (d + (j + k)) a ≡ within d (d + j) a = ground (arith, there) in
        rw equal (rw there at (q a) ∙ p a)
  ]

  pub store-Copied :
      (j : ℕ) (m : Memory) (w : ℕ)
      → Copied m0 d s j m
      → w ≡ load_word m0 (s + j)
      → Copied m0 d s (j + 8) (store_word m (d + j) w)
  store-Copied j m w p e =
      rw e (Copied-next 8 j m _ p (λ a. store_bytes-load_bytes 8 m m0 (d + j) (s + j) a bytes))

  -- The pointers stand behind the bytes that are copied.
  pub record At (j : ℕ) (c : Copy) : Type 0 where
    pub destp : c.destp ≡ d + j
    pub srcp : c.srcp ≡ s + j
    pub copied : Copied m0 d s j c.memory

  pub byte_copy_fwd-At : (k j : ℕ) (c : Copy) → At j c → j + k ≤ n → At (j + k) (byte_copy_fwd k c)
  unfolding byte_copy_fwd
  byte_copy_fwd-At zero j c h bound = let e : j + 0 ≡ j = omega arith in rw e h
  byte_copy_fwd-At (suc k) j c h bound =
      let e : j + suc k ≡ j + 1 + k = omega arith in
      let read =
        source j c.memory (s + j) h.copied (omega (arith, bound)) (omega arith)
          (omega (arith, bound)) in
      rw e (
        byte_copy_fwd-At k (j + 1) _
          (record {
            destp = omega (arith, h.destp, bound, d_fits);
            srcp = omega (arith, h.srcp, bound, s_fits);
            copied =
                rw (h.destp, h.srcp, read)
                  (Copied-next 1 j c.memory _ h.copied (λ a. one_byte c.memory a));
          })
          (omega (arith, bound)))
    where
      one_byte :
          (m : Memory) (a : ℕ)
          → store m (d + j) (m0 (s + j)) a
            ≡ (if within (d + j) (d + j + 1) a then m0 (s + j + (a - (d + j))) else m a)
      one_byte m a = elim (Bool-cases (d + j == a)) [
        | inl e ↦
            let at_a : d + j ≡ a = (==_iff (d + j) a).0 e in
            let inside : within (d + j) (d + j + 1) a ≡ true = ground (arith, at_a) in
            let here : s + j + (a - (d + j)) ≡ s + j = omega (arith, at_a) in rw (e, inside, here)
        | inr e ↦
            let outside : within (d + j) (d + j + 1) a ≡ false = ground (arith, e) in
            rw (e, outside)
      ]

  pub aligned_pairs-Copied :
      (left j : ℕ) (m : Memory)
      → Copied m0 d s j m
      → j + 16 * left ≤ n
      → Copied m0 d s (j + 16 * left) (aligned_pairs left m (d + j) (s + j))
  unfolding aligned_pairs
  aligned_pairs-Copied zero j m p bound = let e : j + 16 * 0 ≡ j = omega arith in rw e p
  aligned_pairs-Copied (suc left) j m p bound =
      let e : j + 16 * suc left ≡ j + 16 + 16 * left = omega arith in
      let s8 : u64 (s + j + 8) ≡ s + (j + 8) = omega (arith, bound, s_fits) in
      let d8 : u64 (d + j + 8) ≡ d + (j + 8) = omega (arith, bound, d_fits) in
      let s16 : u64 (s + j + 16) ≡ s + (j + 16) = omega (arith, bound, s_fits) in
      let d16 : u64 (d + j + 16) ≡ d + (j + 16) = omega (arith, bound, d_fits) in
      let first =
        load-source 8 j m (s + j) p (omega (arith, bound)) (omega arith) (omega (arith, bound)) in
      let second =
        load-source 8 j m (s + (j + 8)) p (omega (arith, bound)) (omega arith)
          (omega (arith, bound)) in
      let one = store-Copied j m _ p first in
      let two = store-Copied (j + 8) _ _ one second in
      let sum : j + 8 + 8 ≡ j + 16 = omega arith in
      rw (e, s8, d8, s16, d16)
        (aligned_pairs-Copied left (j + 16) _ (rw sum at two) (omega (arith, bound)))

  -- The source starts `k` bytes into a word.
  module _ (k h : ℕ) (whole : k + h ≡ 8) where
    pub merged_word :
        (i i' j b : ℕ) (m m' : Memory)
        → Copied m0 d s i m
        → i ≤ j
        → Copied m0 d s i' m'
        → i' ≤ j
        → b + k ≡ s + j
        → j + 8 ≤ n
        → merge (load_word m b) (8 * k) (load_word m' (b + 8)) (8 * h) ≡ load_word m0 (s + j)
    merged_word i i' j b m m' p p_le q q_le start bound =
        let parts =
          merge-load k h whole m m' b (b + 8) (Copied-IsBytes i m p) (Copied-IsBytes i' m' q) in
        let low =
          load-source h i m (b + k) p (omega (arith, p_le, bound)) (omega (arith, start, p_le))
            (omega (arith, start, whole, bound)) in
        let high =
          load-source k i' m' (b + 8) q (omega (arith, q_le, bound))
            (omega (arith, start, whole, q_le)) (omega (arith, start, bound)) in
        let all : h + k ≡ 8 = omega (arith, whole) in
        let next : b + k + h ≡ b + 8 = omega (arith, whole) in
        let there : load_word m0 (b + k)
            ≡ load_bytes h m0 (b + k) + 2 ^ (8 * h) * load_bytes k m0 (b + 8) =
          rw (all, next) at (load_bytes-add h k m0 (b + k)) in
        parts ∙ rw (low, high) (sym there ∙ ap (load_word m0) start)

    pub merged_pairs-Copied :
        (left i j b : ℕ) (m m' : Memory)
        → Copied m0 d s i m
        → i ≤ j
        → Copied m0 d s j m'
        → b + k ≡ s + j
        → j + 16 * left ≤ n
        → Copied m0 d s
            (j + 16 * left)
            (merged_pairs (8 * k) (8 * h) left (load_word m b) m' (d + j) b)
    unfolding merged_pairs
    merged_pairs-Copied zero i j b m m' p p_le q start bound =
        let e : j + 16 * 0 ≡ j = omega arith in rw e q
    merged_pairs-Copied (suc left) i j b m m' p p_le q start bound =
        let e : j + 16 * suc left ≡ j + 16 + 16 * left = omega arith in
        let b8 : u64 (b + 8) ≡ b + 8 = omega (arith, start, bound, s_fits) in
        let b16 : u64 (b + 16) ≡ b + 8 + 8 = omega (arith, start, bound, s_fits) in
        let d8 : u64 (d + j + 8) ≡ d + (j + 8) = omega (arith, bound, d_fits) in
        let d16 : u64 (d + j + 16) ≡ d + (j + 16) = omega (arith, bound, d_fits) in
        let first =
          merged_word i j j b m m' p p_le q (omega (arith, bound)) start (omega (arith, bound)) in
        let second =
          merged_word j j (j + 8) (b + 8) m' m' q (omega (arith, bound)) q (omega (arith, bound))
            (omega (arith, start)) (omega (arith, bound)) in
        let one = store-Copied j m' _ q first in
        let two = store-Copied (j + 8) _ _ one second in
        let sum : j + 8 + 8 ≡ j + 16 = omega arith in
        rw (e, b8, b16, d8, d16)
          (merged_pairs-Copied left j (j + 16) (b + 8 + 8) m' _ q (omega (arith, bound))
            (rw sum at two) (omega (arith, start)) (omega (arith, bound)))
