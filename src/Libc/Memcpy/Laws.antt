-- ===== src/Libc/Memcpy/Laws.antt =====
-- What `memcpy` copies.
use phoebe.Base.{
  ℕ, ◌+◌, ◌-◌, ◌*◌, ◌/◌, ◌%◌, ◌^◌, ◌≤◌, ◌<◌, ◌≡◌, ◌⊎◌, inl, inr, ◌==◌, ==_iff, leb, Bool-cases, u64,
  arith,
}
use phoebe.Libc.Memory.{Memory}
use phoebe.Libc.Memory.Copied.{IsBytes}
use phoebe.Libc.Memcpy.{
  Copy, wordcopy_fwd_aligned, wordcopy_fwd_dest_aligned, word_copy_fwd, memcpy,
}
use phoebe.Libc.Memcpy.Steps.{
  Copied, Copied-zero, At, load-source, store-Copied, byte_copy_fwd-At, aligned_pairs-Copied,
  merged_word, merged_pairs-Copied,
}

module _ (m0 : Memory) (d s n : ℕ) (bytes : IsBytes m0) (d_fits : d + n < 2 ^ 64)
    (s_fits : s + n < 2 ^ 64) (apart : (d ≤ s) ⊎ (s + n ≤ d)) where
  wordcopy_fwd_aligned-Copied :
      (len j : ℕ) (m : Memory)
      → Copied m0 d s j m
      → j + 8 * len ≤ n
      → Copied m0 d s (j + 8 * len) (wordcopy_fwd_aligned m (d + j) (s + j) len)
  unfolding wordcopy_fwd_aligned
  wordcopy_fwd_aligned-Copied len j m p bound = elim (Bool-cases (len % 2 == 1)) [
    | inl odd ↦
        let is_odd : len % 2 ≡ 1 = (==_iff _ _).0 odd in
        let s8 : u64 (s + j + 8) ≡ s + (j + 8) = omega (arith, bound, s_fits, is_odd) in
        let d8 : u64 (d + j + 8) ≡ d + (j + 8) = omega (arith, bound, d_fits, is_odd) in
        let all : j + 8 + 16 * ((len - 1) / 2) ≡ j + 8 * len = omega (arith, is_odd) in
        let read =
          load-source m0 d s n bytes d_fits s_fits apart 8 j m (s + j) p (omega (arith, bound))
            (omega arith) (omega (arith, bound, is_odd)) in
        let one = store-Copied m0 d s n bytes d_fits s_fits apart j m _ p read in
        rw (odd, s8, d8)
          (rw all at (
            aligned_pairs-Copied m0 d s n bytes d_fits s_fits apart ((len - 1) / 2) (j + 8) _ one
              (omega (arith, all, bound))))
    | inr even ↦
        let is_even : len % 2 ≡ 0 = ground (arith, even) in
        let all : j + 16 * (len / 2) ≡ j + 8 * len = omega (arith, is_even) in
        rw even (
          rw all at (
            aligned_pairs-Copied m0 d s n bytes d_fits s_fits apart (len / 2) j m p
              (omega (arith, all, bound))))
  ]

  wordcopy_fwd_dest_aligned-Copied :
      (len j : ℕ) (m : Memory)
      → Copied m0 d s j m
      → j + 8 * len ≤ n
      → Copied m0 d s (j + 8 * len) (wordcopy_fwd_dest_aligned m (d + j) (s + j) len)
  unfolding wordcopy_fwd_dest_aligned
  wordcopy_fwd_dest_aligned-Copied len j m p bound = elim (Bool-cases (len % 2 == 1)) [
    | inl odd ↦
        let is_odd : len % 2 ≡ 1 = (==_iff _ _).0 odd in
        let b8 : u64 (b + 8) ≡ b + 8 = omega (arith, bound, s_fits, is_odd) in
        let d8 : u64 (d + j + 8) ≡ d + (j + 8) = omega (arith, bound, d_fits, is_odd) in
        let all : j + 8 + 16 * ((len - 1) / 2) ≡ j + 8 * len = omega (arith, is_odd) in
        let word =
          merged_word m0 d s n bytes d_fits s_fits apart k (8 - k) whole j j j b m m p
            (omega (arith, bound)) p (omega (arith, bound)) start (omega (arith, bound, is_odd)) in
        let one = store-Copied m0 d s n bytes d_fits s_fits apart j m _ p word in
        rw (odd, shift, b8, d8)
          (rw all at (
            merged_pairs-Copied m0 d s n bytes d_fits s_fits apart k (8 - k) whole ((len - 1) / 2) j
              (j + 8) (b + 8) m _ p (omega (arith, bound)) one (omega (arith, start))
              (omega (arith, all, bound))))
    | inr even ↦
        let is_even : len % 2 ≡ 0 = ground (arith, even) in
        let all : j + 16 * (len / 2) ≡ j + 8 * len = omega (arith, is_even) in
        rw (even, shift)
          (rw all at (
            merged_pairs-Copied m0 d s n bytes d_fits s_fits apart k (8 - k) whole (len / 2) j j b m
              m p (omega (arith, bound)) p start (omega (arith, all, bound))))
  ]
    where
      k : ℕ
      k = (s + j) % 8

      b : ℕ
      b = s + j - (s + j) % 8

      whole : k + (8 - k) ≡ 8
      whole = omega arith

      start : b + k ≡ s + j
      start = omega arith

      shift : 64 - 8 * ((s + j) % 8) ≡ 8 * (8 - (s + j) % 8)
      shift = omega arith

  word_copy_fwd-At :
      (nbytes j : ℕ) (c : Copy)
      → At m0 d s n bytes d_fits s_fits apart j c
      → j + nbytes ≤ n
      → At m0 d s n bytes d_fits s_fits apart (j + 8 * (nbytes / 8)) (word_copy_fwd nbytes c)
  unfolding word_copy_fwd
  word_copy_fwd-At nbytes j c h bound = record {
    destp = omega (arith, h.destp, bound, d_fits);
    srcp = omega (arith, h.srcp, bound, s_fits);
    copied =
        rw (h.destp, h.srcp)
          (elim (Bool-cases ((s + j) % 8 == 0)) [
            | inl aligned ↦ rw aligned (
                wordcopy_fwd_aligned-Copied (nbytes / 8) j c.memory h.copied (omega (arith, bound)))
            | inr other ↦ rw other (
                wordcopy_fwd_dest_aligned-Copied (nbytes / 8) j c.memory h.copied
                  (omega (arith, bound)))
          ]);
  }

  -- However the pointers are aligned, the `n` bytes at `s` stand at `d` after `memcpy`, and no other byte
  -- is changed, where the destination does not start inside the source behind its first byte.
  pub memcpy-Copied : Copied m0 d s n (memcpy m0 d s n)
  unfolding memcpy
  memcpy-Copied = elim (Bool-cases (leb 16 n)) [
    | inl long ↦
        let some_words : 16 ≤ n = ground (arith, long) in
        let one =
          byte_copy_fwd-At m0 d s n bytes d_fits s_fits apart short 0 _ begin
            (omega (arith, some_words)) in
        let e : 0 + short ≡ short = omega arith in
        let two = word_copy_fwd-At (n - short) short _ (rw e at one) (omega (arith, some_words)) in
        let three =
          byte_copy_fwd-At m0 d s n bytes d_fits s_fits apart ((n - short) % 8) _ _ two
            (omega (arith, some_words)) in
        let all : short + 8 * ((n - short) / 8) + (n - short) % 8 ≡ n = omega (arith, some_words) in
        rw long (rw all at three.copied)
    | inr few ↦
        let e : 0 + n ≡ n = omega arith in
        rw few (
          rw e at
            (byte_copy_fwd-At m0 d s n bytes d_fits s_fits apart n 0 _ begin (omega arith)).copied)
  ]
    where
      short : ℕ
      short = (2 ^ 64 - d) % 8

      begin : At m0 d s n bytes d_fits s_fits apart 0 (record { memory = m0; destp = d; srcp = s })
      begin = record {
        destp = omega arith;
        srcp = omega arith;
        copied = Copied-zero m0 d s n bytes d_fits s_fits apart;
      }
