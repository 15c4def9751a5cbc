-- ===== src/Libc/Memmove/Steps.antt =====
-- What the loops of `memmove` copy.
use phoebe.Base.{
  ℕ, zero, suc, ◌+◌, ◌-◌, ◌*◌, ◌^◌, ◌≤◌, ◌<◌, ◌≡◌, inl, inr, sym, ap, ◌∙◌, ◌==◌, ==_iff,
  if◌then◌else◌, Bool-cases, true, false, u64, sub64, arith,
}
use phoebe.Libc.Memory.{Memory, store, load_bytes, store_word, load_word}
use phoebe.Libc.Memory.Region.{within}
use phoebe.Libc.Memory.Words.{load_bytes-same}
use phoebe.Libc.Memory.Copied.{IsBytes, load_bytes-add, store_bytes-load_bytes}
use phoebe.Libc.Memcpy.{Copy, merge}
use phoebe.Libc.Memcpy.Words.{merge-load}
use phoebe.Libc.Memmove.{byte_copy_bwd, aligned_pairs_bwd, merged_pairs_bwd}

module _ (m0 : Memory) (d s n : ℕ) (bytes : IsBytes m0) (d_fits : d + n < 2 ^ 64)
    (s_fits : s + n < 2 ^ 64) (behind : s ≤ d) where
  -- All bytes but the first `l` are copied.
  abbrev pub Tail : ℕ → Memory → Type 0
  Tail l m = (a : ℕ) → m a ≡ (if within (d + l) (d + n) a then m0 (s + (a - d)) else m0 a)

  pub Tail-all : Tail n m0
  Tail-all a = ground arith

  -- What is left of the source is not touched.
  source : (l : ℕ) (m : Memory) (a : ℕ) → Tail l m → a < s + l → m a ≡ m0 a
  source l m a p hi =
      let outside : within (d + l) (d + n) a ≡ false = ground (arith, hi, behind) in
      rw outside at (p a)

  Tail-IsBytes : (l : ℕ) (m : Memory) → Tail l m → IsBytes m
  Tail-IsBytes l m p a = elim (Bool-cases (within (d + l) (d + n) a)) [
    | inl e ↦ omega (arith, rw e at (p a), bytes (s + (a - d)))
    | inr e ↦ omega (arith, rw e at (p a), bytes a)
  ]

  pub load-source :
      (k l : ℕ) (m : Memory) (a : ℕ)
      → Tail l m
      → a + k ≤ s + l
      → load_bytes k m a ≡ load_bytes k m0 a
  load-source k l m a p hi =
      load_bytes-same k m0 m a (λ b from to. source l m b p (omega (arith, hi, to)))

  -- The bytes before are copied.
  Tail-next :
      (k l : ℕ) (m m' : Memory)
      → Tail (l + k) m
      → l + k ≤ n
      → ((a : ℕ)
          → m' a ≡ (if within (d + l) (d + l + k) a then m0 (s + l + (a - (d + l))) else m a))
      → Tail l m'
  Tail-next k l m m' p bound q a = elim (Bool-cases (within (d + l) (d + l + k) a)) [
    | inl here ↦
        let lo : d + l ≤ a = ground (arith, here) in
        let hi : a < d + l + k = ground (arith, here) in
        let same : s + l + (a - (d + l)) ≡ s + (a - d) = omega (arith, lo) in
        let inside : within (d + l) (d + n) a ≡ true = ground (arith, lo, hi, bound) in
        rw inside (rw (here, same) at (q a))
    | inr there ↦
        let equal : within (d + l) (d + n) a ≡ within (d + (l + k)) (d + n) a =
          ground (arith, there, bound) in
        rw equal (rw there at (q a) ∙ p a)
  ]

  pub store-Tail :
      (l : ℕ) (m : Memory) (w : ℕ)
      → Tail (l + 8) m
      → l + 8 ≤ n
      → w ≡ load_word m0 (s + l)
      → Tail l (store_word m (d + l) w)
  store-Tail l m w p bound e =
      rw e (Tail-next 8 l m _ p bound (λ a. store_bytes-load_bytes 8 m m0 (d + l) (s + l) a bytes))

  -- The pointers stand behind the bytes that are left.
  pub record AtEnd (l : ℕ) (c : Copy) : Type 0 where
    pub destp : c.destp ≡ d + l
    pub srcp : c.srcp ≡ s + l
    pub copied : Tail l c.memory

  pub byte_copy_bwd-AtEnd :
      (k l : ℕ) (c : Copy) → AtEnd (l + k) c → l + k ≤ n → AtEnd l (byte_copy_bwd k c)
  unfolding byte_copy_bwd
  byte_copy_bwd-AtEnd zero l c h bound = let e : l + 0 ≡ l = omega arith in rw e at h
  byte_copy_bwd-AtEnd (suc k) l c h bound =
      let t = l + k in
      let e : l + suc k ≡ t + 1 = omega arith in
      let d1 : sub64 c.destp 1 ≡ d + t = omega (arith, h.destp, bound, d_fits) in
      let s1 : sub64 c.srcp 1 ≡ s + t = omega (arith, h.srcp, bound, s_fits) in
      let tail = rw e at h.copied in
      let read = source (t + 1) c.memory (s + t) tail (omega arith) in
      byte_copy_bwd-AtEnd k l _
        (record {
          destp = d1;
          srcp = s1;
          copied =
              rw (d1, s1, read)
                (Tail-next 1 t c.memory _ tail (omega (arith, bound)) (λ a. one_byte t c.memory a));
        })
        (omega (arith, bound))
    where
      one_byte :
          (t : ℕ) (m : Memory) (a : ℕ)
          → store m (d + t) (m0 (s + t)) a
            ≡ (if within (d + t) (d + t + 1) a then m0 (s + t + (a - (d + t))) else m a)
      one_byte t m a = elim (Bool-cases (d + t == a)) [
        | inl e ↦
            let at_a : d + t ≡ a = (==_iff (d + t) a).0 e in
            let inside : within (d + t) (d + t + 1) a ≡ true = ground (arith, at_a) in
            let here : s + t + (a - (d + t)) ≡ s + t = omega (arith, at_a) in rw (e, inside, here)
        | inr e ↦
            let outside : within (d + t) (d + t + 1) a ≡ false = ground (arith, e) in
            rw (e, outside)
      ]

  pub aligned_pairs_bwd-Tail :
      (left l : ℕ) (m : Memory)
      → Tail (l + 16 * left) m
      → l + 16 * left ≤ n
      → Tail l (aligned_pairs_bwd left m (d + (l + 16 * left)) (s + (l + 16 * left)))
  unfolding aligned_pairs_bwd
  aligned_pairs_bwd-Tail zero l m p bound = let e : l + 16 * 0 ≡ l = omega arith in rw e at p
  aligned_pairs_bwd-Tail (suc left) l m p bound =
      let t = l + 16 * left in
      let s16 : sub64 (s + (l + 16 * suc left)) 16 ≡ s + t = omega (arith, bound, s_fits) in
      let d16 : sub64 (d + (l + 16 * suc left)) 16 ≡ d + t = omega (arith, bound, d_fits) in
      let s8 : u64 (s + t + 8) ≡ s + (t + 8) = omega (arith, bound, s_fits) in
      let d8 : u64 (d + t + 8) ≡ d + (t + 8) = omega (arith, bound, d_fits) in
      let e : l + 16 * suc left ≡ t + 8 + 8 = omega arith in
      let tail = rw e at p in
      let second = load-source 8 (t + 8 + 8) m (s + (t + 8)) tail (omega arith) in
      let first = load-source 8 (t + 8 + 8) m (s + t) tail (omega arith) in
      let one = store-Tail (t + 8) m _ tail (omega (arith, bound)) second in
      let two = store-Tail t _ _ one (omega (arith, bound)) first in
      rw (s16, d16, s8, d8) (aligned_pairs_bwd-Tail left l _ two (omega (arith, bound)))

  -- The source ends `k` bytes into a word.
  module _ (k h : ℕ) (whole : k + h ≡ 8) where
    pub merged_word :
        (i i' l b : ℕ) (m m' : Memory)
        → Tail i m
        → l + 8 ≤ i
        → Tail i' m'
        → l + 8 ≤ i'
        → b + k ≡ s + l
        → merge (load_word m b) (8 * k) (load_word m' (b + 8)) (8 * h) ≡ load_word m0 (s + l)
    merged_word i i' l b m m' p p_le q q_le start =
        let parts =
          merge-load k h whole m m' b (b + 8) (Tail-IsBytes i m p) (Tail-IsBytes i' m' q) in
        let low = load-source h i m (b + k) p (omega (arith, start, whole, p_le)) in
        let high = load-source k i' m' (b + 8) q (omega (arith, start, q_le)) in
        let all : h + k ≡ 8 = omega (arith, whole) in
        let next : b + k + h ≡ b + 8 = omega (arith, whole) in
        let there : load_word m0 (b + k)
            ≡ load_bytes h m0 (b + k) + 2 ^ (8 * h) * load_bytes k m0 (b + 8) =
          rw (all, next) at (load_bytes-add h k m0 (b + k)) in
        parts ∙ rw (low, high) (sym there ∙ ap (load_word m0) start)

    -- `b` is the last word of the source, which is loaded already; the pairs begin before it.
    pub merged_pairs_bwd-Tail :
        (left i l b : ℕ) (m m' : Memory)
        → Tail i m
        → l + 16 * left ≤ i
        → Tail (l + 16 * left) m'
        → b + 16 * left + k ≡ s + (l + 16 * left)
        → l + 16 * left ≤ n
        → Tail l (
            merged_pairs_bwd
              (8 * k)
              (8 * h)
              left
              (load_word m (b + 16 * left))
              m'
              (d + (l + 16 * left))
              (b + 16 * left))
    unfolding merged_pairs_bwd
    merged_pairs_bwd-Tail zero i l b m m' p p_le q start bound =
        let e : l + 16 * 0 ≡ l = omega arith in rw e at q
    merged_pairs_bwd-Tail (suc left) i l b m m' p p_le q start bound =
        let t = l + 16 * left in
        let c = b + 16 * left in
        let e : l + 16 * suc left ≡ t + 8 + 8 = omega arith in
        let top : b + 16 * suc left ≡ c + 8 + 8 = omega arith in
        let b16 : sub64 (c + 8 + 8) 16 ≡ c = omega (arith, start, bound, s_fits) in
        let d16 : sub64 (d + (l + 16 * suc left)) 16 ≡ d + t = omega (arith, bound, d_fits) in
        let b8 : u64 (c + 8) ≡ c + 8 = omega (arith, start, bound, s_fits) in
        let d8 : u64 (d + t + 8) ≡ d + (t + 8) = omega (arith, bound, d_fits) in
        let tail = rw e at q in
        let second =
          merged_word (t + 8 + 8) i (t + 8) (c + 8) m' m tail (omega arith) p (omega (arith, p_le))
            (omega (arith, start)) in
        let first =
          merged_word (t + 8 + 8) (t + 8 + 8) t c m' m' tail (omega arith) tail (omega arith)
            (omega (arith, start)) in
        let one = store-Tail (t + 8) m' _ tail (omega (arith, bound)) second in
        let two = store-Tail t _ _ one (omega (arith, bound)) first in
        rw (top, b16, d16, b8, d8)
          (merged_pairs_bwd-Tail left (t + 8 + 8) l b m' _ tail (omega arith) two
            (omega (arith, start)) (omega (arith, bound)))
