-- ===== src/Libc/Memmove/Laws.antt =====
-- What `memmove` copies.
use phoebe.Base.{
  ℕ, ◌+◌, ◌-◌, ◌*◌, ◌/◌, ◌%◌, ◌^◌, ◌≤◌, ◌<◌, ◌≡◌, inl, inr, ◌==◌, ==_iff, leb, Bool-cases, dec_lt,
  u64, sub64, arith,
}
use phoebe.Libc.Memory.{Memory}
use phoebe.Libc.Memory.Copied.{IsBytes}
use phoebe.Libc.Memcpy.{Copy}
use phoebe.Libc.Memcpy.Steps.{Copied}
use phoebe.Libc.Memcpy.Laws.{memcpy-Copied}
use phoebe.Libc.Memmove.{
  wordcopy_bwd_aligned, wordcopy_bwd_dest_aligned, word_copy_bwd, copy_bwd, memmove,
}
use phoebe.Libc.Memmove.Steps.{
  Tail, Tail-all, AtEnd, load-source, store-Tail, byte_copy_bwd-AtEnd, aligned_pairs_bwd-Tail,
  merged_word, merged_pairs_bwd-Tail,
}

module _ (m0 : Memory) (d s n : ℕ) (bytes : IsBytes m0) (d_fits : d + n < 2 ^ 64)
    (s_fits : s + n < 2 ^ 64) where
  module _ (behind : s ≤ d) where
    wordcopy_bwd_aligned-Tail :
        (len l : ℕ) (m : Memory)
        → Tail m0 d s n bytes d_fits s_fits behind (l + 8 * len) m
        → l + 8 * len ≤ n
        → Tail m0 d s n bytes d_fits s_fits behind l
            (wordcopy_bwd_aligned m (d + (l + 8 * len)) (s + (l + 8 * len)) len)
    unfolding wordcopy_bwd_aligned
    wordcopy_bwd_aligned-Tail len l m p bound = elim (Bool-cases (len % 2 == 1)) [
      | inl odd ↦
          let is_odd : len % 2 ≡ 1 = (==_iff _ _).0 odd in
          let t = l + 16 * ((len - 1) / 2) in
          let all : l + 8 * len ≡ t + 8 = omega (arith, is_odd) in
          let s8 : sub64 (s + (t + 8)) 8 ≡ s + t = omega (arith, all, bound, s_fits) in
          let d8 : sub64 (d + (t + 8)) 8 ≡ d + t = omega (arith, all, bound, d_fits) in
          let tail = rw all at p in
          let read =
            load-source m0 d s n bytes d_fits s_fits behind 8 (t + 8) m (s + t) tail
              (omega arith) in
          let one =
            store-Tail m0 d s n bytes d_fits s_fits behind t m _ tail (omega (arith, all, bound))
              read in
          rw (odd, all, s8, d8)
            (aligned_pairs_bwd-Tail m0 d s n bytes d_fits s_fits behind ((len - 1) / 2) l _ one
              (omega (arith, all, bound)))
      | inr even ↦
          let is_even : len % 2 ≡ 0 = ground (arith, even) in
          let all : l + 8 * len ≡ l + 16 * (len / 2) = omega (arith, is_even) in
          rw (even, all)
            (aligned_pairs_bwd-Tail m0 d s n bytes d_fits s_fits behind (len / 2) l m (rw all at p)
              (omega (arith, all, bound)))
    ]

    wordcopy_bwd_dest_aligned-Tail :
        (len l : ℕ) (m : Memory)
        → Tail m0 d s n bytes d_fits s_fits behind (l + 8 * len) m
        → l + 8 * len ≤ n
        → Tail m0 d s n bytes d_fits s_fits behind l
            (wordcopy_bwd_dest_aligned m (d + (l + 8 * len)) (s + (l + 8 * len)) len)
    unfolding wordcopy_bwd_dest_aligned
    wordcopy_bwd_dest_aligned-Tail len l m p bound = elim (Bool-cases (len % 2 == 1)) [
      | inl odd ↦
          let is_odd : len % 2 ≡ 1 = (==_iff _ _).0 odd in
          let t = l + 16 * ((len - 1) / 2) in
          let c = b + 16 * ((len - 1) / 2) in
          let all : l + 8 * len ≡ t + 8 = omega (arith, is_odd) in
          let rest : (s + (t + 8)) % 8 ≡ k = omega (arith, all) in
          let last : s + (t + 8) - k ≡ c + 8 = omega (arith, all) in
          let b8 : sub64 (c + 8) 8 ≡ c = omega (arith, all, bound, s_fits) in
          let d8 : sub64 (d + (t + 8)) 8 ≡ d + t = omega (arith, all, bound, d_fits) in
          let tail = rw all at p in
          let word =
            merged_word m0 d s n bytes d_fits s_fits behind k (8 - k) whole (t + 8) (t + 8) t c m m
              tail (omega arith) tail (omega arith) (omega arith) in
          let one =
            store-Tail m0 d s n bytes d_fits s_fits behind t m _ tail (omega (arith, all, bound))
              word in
          rw (odd, all, rest, last, b8, d8, shift)
            (merged_pairs_bwd-Tail m0 d s n bytes d_fits s_fits behind k (8 - k) whole
              ((len - 1) / 2) (t + 8) l b m _ tail (omega arith) one (omega arith)
              (omega (arith, all, bound)))
      | inr even ↦
          let is_even : len % 2 ≡ 0 = ground (arith, even) in
          let t = l + 16 * (len / 2) in
          let all : l + 8 * len ≡ t = omega (arith, is_even) in
          let rest : (s + t) % 8 ≡ k = omega (arith, all) in
          let last : s + t - k ≡ b + 16 * (len / 2) = omega (arith, all) in
          let tail = rw all at p in
          rw (even, all, rest, last, shift)
            (merged_pairs_bwd-Tail m0 d s n bytes d_fits s_fits behind k (8 - k) whole (len / 2) t l
              b m m tail (omega arith) tail (omega arith) (omega (arith, all, bound)))
    ]
      where
        k : ℕ
        k = (s + l) % 8

        b : ℕ
        b = s + l - (s + l) % 8

        whole : k + (8 - k) ≡ 8
        whole = omega arith

        shift : 64 - 8 * ((s + l) % 8) ≡ 8 * (8 - (s + l) % 8)
        shift = omega arith

    word_copy_bwd-AtEnd :
        (nbytes l : ℕ) (c : Copy)
        → AtEnd m0 d s n bytes d_fits s_fits behind (l + 8 * (nbytes / 8)) c
        → l + 8 * (nbytes / 8) ≤ n
        → AtEnd m0 d s n bytes d_fits s_fits behind l (word_copy_bwd nbytes c)
    unfolding word_copy_bwd
    word_copy_bwd-AtEnd nbytes l c h bound = record {
      destp = omega (arith, h.destp, bound, d_fits);
      srcp = omega (arith, h.srcp, bound, s_fits);
      copied =
          rw (h.destp, h.srcp)
            (elim (Bool-cases ((s + (l + 8 * (nbytes / 8))) % 8 == 0)) [
              | inl aligned ↦
                  rw aligned (wordcopy_bwd_aligned-Tail (nbytes / 8) l c.memory h.copied bound)
              | inr other ↦
                  rw other (wordcopy_bwd_dest_aligned-Tail (nbytes / 8) l c.memory h.copied bound)
            ]);
    }

    copy_bwd-Tail : Tail m0 d s n bytes d_fits s_fits behind 0 (copy_bwd m0 d s n)
    unfolding copy_bwd
    copy_bwd-Tail = elim (Bool-cases (leb 16 n)) [
      | inl long ↦
          let some_words : 16 ≤ n = ground (arith, long) in
          let one =
            byte_copy_bwd-AtEnd m0 d s n bytes d_fits s_fits behind short (n - short) _
              (let e : n - short + short ≡ n = omega (arith, some_words) in rw e begin)
              (omega (arith, some_words)) in
          let e : n - short ≡ (n - short) % 8 + 8 * ((n - short) / 8) = omega arith in
          let two =
            word_copy_bwd-AtEnd (n - short) ((n - short) % 8) _ (at_end _ _ _ e one)
              (omega (arith, some_words)) in
          let three =
            byte_copy_bwd-AtEnd m0 d s n bytes d_fits s_fits behind ((n - short) % 8) 0 _
              (let z : 0 + (n - short) % 8 ≡ (n - short) % 8 = omega arith in rw z two)
              (omega (arith, some_words)) in
          rw long three.copied
      | inr few ↦
          let z : 0 + n ≡ n = omega arith in
          rw few
            (byte_copy_bwd-AtEnd m0 d s n bytes d_fits s_fits behind n 0 _ (rw z begin)
              (omega arith)).copied
    ]
      where
        short : ℕ
        short = u64 (d + n) % 8

        begin :
            AtEnd m0 d s n bytes d_fits s_fits behind n
              (record { memory = m0; destp = u64 (d + n); srcp = u64 (s + n) })
        begin = record {
          destp = omega (arith, d_fits);
          srcp = omega (arith, s_fits);
          copied = Tail-all m0 d s n bytes d_fits s_fits behind;
        }

        at_end :
            (i j : ℕ) (c : Copy)
            → i ≡ j
            → AtEnd m0 d s n bytes d_fits s_fits behind i c
            → AtEnd m0 d s n bytes d_fits s_fits behind j c
        at_end i j c e h = rw (← e) h

  -- However the pointers are aligned and the ranges overlap, the `n` bytes at `s` stand at `d` after
  -- `memmove`, and no other byte is changed.
  pub memmove-Copied : Copied m0 d s n (memmove m0 d s n)
  unfolding memmove
  memmove-Copied = elim (Bool-cases (leb n (sub64 d s))) [
    | inl forward ↦
        let far : n ≤ sub64 d s = ground (arith, forward) in
        rw forward (
          memcpy-Copied m0 d s n bytes d_fits s_fits (elim (dec_lt d s) [
            | yes before ↦ inl (omega (arith, before))
            | no after ↦ inr (omega (arith, after, far, d_fits))
          ]))
    | inr backward ↦
        let near : sub64 d s < n = ground (arith, backward) in
        let behind : s ≤ d = omega (arith, near, s_fits, d_fits) in
        let e : d + 0 ≡ d = omega arith in rw backward (rw e at (copy_bwd-Tail behind))
  ]
