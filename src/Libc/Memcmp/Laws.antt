-- ===== src/Libc/Memcmp/Laws.antt =====
-- What `memcmp` compares.
use phoebe.Base.{
  ℕ, zero, suc, ◌+◌, ◌-◌, ◌*◌, ◌/◌, ◌%◌, ◌^◌, ◌<◌, ◌≡◌, ◌≤◌, ◌≢◌, refl, false, Bool-cases, inl, inr,
  ◌==◌, if◌then◌else◌, leb, u64, arith,
}
use phoebe.Libc.Memory.{Memory}
use phoebe.Libc.Memory.Copied.{IsBytes}
use phoebe.Libc.Cstring.{difference}
use phoebe.Libc.Memcmp.{compare_bytes, compare_aligned, memcmp}
use phoebe.Libc.Memcmp.Common.{memcmp_common_alignment}
use phoebe.Libc.Memcmp.Shifted.{memcmp_not_common_alignment}
use phoebe.Libc.Memcmp.Compare.Laws.{differ}
use phoebe.Libc.Memcmp.Common.Laws.{memcmp_common_alignment-differ}
use phoebe.Libc.Memcmp.Shifted.Laws.{memcmp_not_common_alignment-differ}

module _ (m : Memory) (bytes : IsBytes m) where
  compare_bytes-differ :
      (k n p1 p2 rest : ℕ)
      → p1 + k < 2 ^ 64
      → p2 + k < 2 ^ 64
      → rest ≡ differ n m (p1 + k) (p2 + k)
      → compare_bytes k m p1 p2 rest ≡ differ (k + n) m p1 p2
  unfolding compare_bytes differ
  compare_bytes-differ zero n p1 p2 rest h1 h2 e =
      let e0 : 0 + n ≡ n = omega arith in
      let e1 : p1 + 0 ≡ p1 = omega arith in
      let e2 : p2 + 0 ≡ p2 = omega arith in rw e0 (rw (e1, e2) at e)
  compare_bytes-differ (suc k) n p1 p2 rest h1 h2 e =
      let e0 : suc k + n ≡ suc (k + n) = omega arith in
      let e1 : p1 + suc k ≡ p1 + 1 + k = omega arith in
      let e2 : p2 + suc k ≡ p2 + 1 + k = omega arith in
      let n1 : u64 (p1 + 1) ≡ p1 + 1 = omega (arith, h1) in
      let n2 : u64 (p2 + 1) ≡ p2 + 1 = omega (arith, h2) in
      let next =
        compare_bytes-differ k n (p1 + 1) (p2 + 1) rest (omega (arith, h1)) (omega (arith, h2))
          (rw (e1, e2) at e) in
      rw (e0, n1, n2, next) refl

  differs : (a b : ℕ) → a < 256 → b < 256 → a ≢ b → difference a b ≢ 0
  differs a b ha hb e p = e (omega (arith, ha, hb, p))

  nothing : (s1 s2 : ℕ) → 0 ≡ differ 0 m s1 s2
  unfolding differ
  nothing s1 s2 = refl

  -- The second part counts where the first has no difference.
  differ-add :
      (i n p1 p2 : ℕ)
      → (if differ i m p1 p2 == 0 then differ n m (p1 + i) (p2 + i) else differ i m p1 p2)
        ≡ differ (i + n) m p1 p2
  unfolding differ
  differ-add zero n p1 p2 =
      let e0 : 0 + n ≡ n = omega arith in
      let e1 : p1 + 0 ≡ p1 = omega arith in
      let e2 : p2 + 0 ≡ p2 = omega arith in rw (e0, e1, e2) refl
  differ-add (suc i) n p1 p2 =
      let e0 : suc i + n ≡ suc (i + n) = omega arith in
      let e1 : p1 + suc i ≡ p1 + 1 + i = omega arith in
      let e2 : p2 + suc i ≡ p2 + 1 + i = omega arith in
      elim (Bool-cases (m p1 == m p2)) [
        | inl same ↦ rw (e0, e1, e2, same) (differ-add i n (p1 + 1) (p2 + 1))
        | inr other ↦
            let some_difference : (difference (m p1) (m p2) == 0) ≡ false =
              grind (
                arith,
                differs (m p1) (m p2) (bytes p1) (bytes p2) (λ p. grind (arith, other, p)),
              ) in
            rw (e0, other, some_difference) refl
      ]

  compare_aligned-differ :
      (p1 p2 len : ℕ)
      → p1 + len < 2 ^ 64
      → p2 + len < 2 ^ 64
      → compare_aligned m p1 p2 len ≡ differ len m p1 p2
  unfolding compare_aligned
  compare_aligned-differ p1 p2 len h1 h2 =
      rw (words, passed, n1, n2, tail) (rw all at (differ-add (8 * (len / 8)) (len % 8) p1 p2))
    where
      words :
          (if p1 % 8 == 0
            then memcmp_common_alignment m p1 p2 (len / 8)
            else memcmp_not_common_alignment m p1 p2 (len / 8))
          ≡ differ (8 * (len / 8)) m p1 p2
      words = elim (Bool-cases (p1 % 8 == 0)) [
        | inl e ↦ rw e (
            memcmp_common_alignment-differ m bytes (len / 8) p1 p2 (omega (arith, h1))
              (omega (arith, h2)))
        | inr e ↦ rw e (
            memcmp_not_common_alignment-differ m bytes p1 (len / 8) p2 (omega (arith, h1))
              (omega (arith, h2)))
      ]

      all : 8 * (len / 8) + len % 8 ≡ len
      all = omega arith

      passed : len - len % 8 ≡ 8 * (len / 8)
      passed = omega arith

      n1 : u64 (p1 + 8 * (len / 8)) ≡ p1 + 8 * (len / 8)
      n1 = omega (arith, h1)

      n2 : u64 (p2 + 8 * (len / 8)) ≡ p2 + 8 * (len / 8)
      n2 = omega (arith, h2)

      tail :
          compare_bytes (len % 8) m (p1 + 8 * (len / 8)) (p2 + 8 * (len / 8)) 0
          ≡ differ (len % 8) m (p1 + 8 * (len / 8)) (p2 + 8 * (len / 8))
      tail =
          let e : len % 8 + 0 ≡ len % 8 = omega arith in
          rw e at (
            compare_bytes-differ (len % 8) 0 (p1 + 8 * (len / 8)) (p2 + 8 * (len / 8)) 0
              (omega (arith, h1)) (omega (arith, h2)) (nothing _ _))

  -- However the pointers are aligned, `memcmp` gives the difference of the first two of `n` bytes that
  -- differ, and 0 where none do.
  pub memcmp-differ :
      (s1 s2 n : ℕ) → s1 + n < 2 ^ 64 → s2 + n < 2 ^ 64 → memcmp m s1 s2 n ≡ differ n m s1 s2
  unfolding memcmp differ
  memcmp-differ s1 s2 n h1 h2 = elim (Bool-cases (leb 16 n)) [
    | inl long ↦
        let some_words : 16 ≤ n = ground (arith, long) in
        let n1 : u64 (s1 + short) ≡ s1 + short = omega (arith, h1, some_words) in
        let n2 : u64 (s2 + short) ≡ s2 + short = omega (arith, h2, some_words) in
        let all : short + (n - short) ≡ n = omega (arith, some_words) in
        let rest =
          compare_aligned-differ (s1 + short) (s2 + short) (n - short)
            (omega (arith, h1, some_words)) (omega (arith, h2, some_words)) in
        rw (long, n1, n2)
          (rw all at (
            compare_bytes-differ short (n - short) s1 s2 _ (omega (arith, h1, some_words))
              (omega (arith, h2, some_words)) rest))
    | inr few ↦
        let e : n + 0 ≡ n = omega arith in
        rw few (rw e at (compare_bytes-differ n 0 s1 s2 0 h1 h2 refl))
  ]
    where
      short : ℕ
      short = (2 ^ 64 - s2) % 8
