-- ===== src/Libc/Memcmp/Common/Laws.antt =====
-- What comparing words says where both pointers are aligned.
use phoebe.Base.{
  ℕ, zero, suc, ◌+◌, ◌-◌, ◌*◌, ◌/◌, ◌%◌, ◌^◌, ◌<◌, ◌≤◌, ◌≡◌, refl, Bool-cases, inl, inr, ◌==◌,
  ==_iff, u64, arith,
}
use phoebe.Libc.Memory.{Memory, load_word}
use phoebe.Libc.Memory.Copied.{IsBytes}
use phoebe.Libc.Memcmp.Compare.Laws.{differ, compare_words-differ}
use phoebe.Libc.Memcmp.Common.{do1, do2, do3, loop, memcmp_common_alignment}

module _ (m : Memory) (bytes : IsBytes m) where
  -- What follows a round compares the bytes from the words that were loaded last.
  abbrev Again : (ℕ → ℕ → ℕ → ℕ → ℕ) → ℕ → ℕ → ℕ → Type 0
  Again again n t1 t2 = again (load_word m t1) (load_word m t2) (t1 + 8) (t2 + 8) ≡ differ n m t1 t2

  do1-differ :
      (again : ℕ → ℕ → ℕ → ℕ → ℕ) (n t1 t2 : ℕ)
      → t1 + 16 < 2 ^ 64
      → t2 + 16 < 2 ^ 64
      → Again again n (t1 + 8) (t2 + 8)
      → do1 again m
          (load_word m t1)
          (load_word m t2)
          (u64 (t1 + 2 ^ 64 - 16))
          (u64 (t2 + 2 ^ 64 - 16))
        ≡ differ (8 + n) m t1 t2
  unfolding do1
  do1-differ again n t1 t2 h1 h2 k =
      let a1 : u64 (u64 (t1 + 2 ^ 64 - 16) + 24) ≡ t1 + 8 = omega (arith, h1) in
      let a2 : u64 (u64 (t2 + 2 ^ 64 - 16) + 24) ≡ t2 + 8 = omega (arith, h2) in
      let b1 : u64 (u64 (t1 + 2 ^ 64 - 16) + 32) ≡ t1 + 8 + 8 = omega (arith, h1) in
      let b2 : u64 (u64 (t2 + 2 ^ 64 - 16) + 32) ≡ t2 + 8 + 8 = omega (arith, h2) in
      rw (a1, a2, b1, b2) (compare_words-differ m bytes n t1 t2 _ k)

  do2-differ :
      (again : ℕ → ℕ → ℕ → ℕ → ℕ) (n t1 t2 : ℕ)
      → t1 + 24 < 2 ^ 64
      → t2 + 24 < 2 ^ 64
      → Again again n (t1 + 16) (t2 + 16)
      → do2 again m
          (load_word m t1)
          (load_word m t2)
          (u64 (t1 + 2 ^ 64 - 8))
          (u64 (t2 + 2 ^ 64 - 8))
        ≡ differ (8 + (8 + n)) m t1 t2
  unfolding do2
  do2-differ again n t1 t2 h1 h2 k =
      let a1 : u64 (u64 (t1 + 2 ^ 64 - 8) + 16) ≡ t1 + 8 = omega (arith, h1) in
      let a2 : u64 (u64 (t2 + 2 ^ 64 - 8) + 16) ≡ t2 + 8 = omega (arith, h2) in
      let b1 : u64 (t1 + 2 ^ 64 - 8) ≡ u64 (t1 + 8 + 2 ^ 64 - 16) = omega (arith, h1) in
      let b2 : u64 (t2 + 2 ^ 64 - 8) ≡ u64 (t2 + 8 + 2 ^ 64 - 16) = omega (arith, h2) in
      let c1 : t1 + 16 ≡ t1 + 8 + 8 = omega arith in
      let c2 : t2 + 16 ≡ t2 + 8 + 8 = omega arith in
      let next =
        do1-differ again n (t1 + 8) (t2 + 8) (omega (arith, h1)) (omega (arith, h2))
          (rw (c1, c2) at k) in
      rw (a1, a2, b1, b2) (compare_words-differ m bytes (8 + n) t1 t2 _ next)

  do3-differ :
      (again : ℕ → ℕ → ℕ → ℕ → ℕ) (n t1 t2 : ℕ)
      → t1 + 32 < 2 ^ 64
      → t2 + 32 < 2 ^ 64
      → Again again n (t1 + 24) (t2 + 24)
      → do3 again m (load_word m t1) (load_word m t2) t1 t2 ≡ differ (8 + (8 + (8 + n))) m t1 t2
  unfolding do3
  do3-differ again n t1 t2 h1 h2 k =
      let a1 : u64 (t1 + 8) ≡ t1 + 8 = omega (arith, h1) in
      let a2 : u64 (t2 + 8) ≡ t2 + 8 = omega (arith, h2) in
      let b1 : u64 (t1 + 8 + 2 ^ 64 - 8) ≡ t1 = omega (arith, h1) in
      let b2 : u64 (t2 + 8 + 2 ^ 64 - 8) ≡ t2 = omega (arith, h2) in
      let c1 : t1 + 24 ≡ t1 + 8 + 16 = omega arith in
      let c2 : t2 + 24 ≡ t2 + 8 + 16 = omega arith in
      let next =
        do2-differ again n (t1 + 8) (t2 + 8) (omega (arith, h1)) (omega (arith, h2))
          (rw (c1, c2) at k) in
      rw (a1, a2) (compare_words-differ m bytes (8 + (8 + n)) t1 t2 _ (rw (b1, b2) at next))

  loop-differ :
      (left t1 t2 : ℕ)
      → t1 + 8 + 32 * left < 2 ^ 64
      → t2 + 8 + 32 * left < 2 ^ 64
      → Again (loop left m) (8 + 32 * left) t1 t2
  unfolding loop differ
  loop-differ zero t1 t2 h1 h2 = compare_words-differ m bytes 0 t1 t2 0 refl
  loop-differ (suc left) t1 t2 h1 h2 =
      let c1 : t1 + 32 ≡ t1 + 8 + 24 = omega arith in
      let c2 : t2 + 32 ≡ t2 + 8 + 24 = omega arith in
      let all : 8 + 32 * suc left ≡ 8 + (8 + (8 + (8 + (8 + 32 * left)))) = omega arith in
      let rest = loop-differ left (t1 + 32) (t2 + 32) (omega (arith, h1)) (omega (arith, h2)) in
      let next =
        do3-differ (loop left m) (8 + 32 * left) (t1 + 8) (t2 + 8) (omega (arith, h1))
          (omega (arith, h2)) (rw (c1, c2) at rest) in
      rw all (compare_words-differ m bytes _ t1 t2 _ next)

  -- The entry where the number of words is a multiple of four.
  fours-differ :
      (len t1 t2 : ℕ)
      → len % 4 ≡ 0
      → 4 ≤ len
      → t1 + 8 * len < 2 ^ 64
      → t2 + 8 * len < 2 ^ 64
      → do3 (loop ((len - 4) / 4) m) m (load_word m t1) (load_word m t2) t1 t2
        ≡ differ (8 * len) m t1 t2
  fours-differ len t1 t2 is_zero some_words h1 h2 =
      let left = (len - 4) / 4 in
      let all : 8 + (8 + (8 + (8 + 32 * ((len - 4) / 4)))) ≡ 8 * len =
        omega (arith, is_zero, some_words) in
      rw all at (
        do3-differ (loop left m) (8 + 32 * left) t1 t2 (omega (arith, h1, some_words))
          (omega (arith, h2, some_words))
          (loop-differ left (t1 + 24) (t2 + 24) (omega (arith, h1, is_zero, some_words))
            (omega (arith, h2, is_zero, some_words))))

  -- Two rows of words are compared as their bytes are.
  pub memcmp_common_alignment-differ :
      (len t1 t2 : ℕ)
      → t1 + 8 * len < 2 ^ 64
      → t2 + 8 * len < 2 ^ 64
      → memcmp_common_alignment m t1 t2 len ≡ differ (8 * len) m t1 t2
  unfolding memcmp_common_alignment differ
  memcmp_common_alignment-differ len t1 t2 h1 h2 = elim (Bool-cases (len % 4 == 2)) [
    | inl two ↦
        let is_two : len % 4 ≡ 2 = (==_iff _ _).0 two in
        let all : 8 + (8 + 32 * left 2) ≡ 8 * len = omega (arith, is_two) in
        let start =
          do1-differ (loop (left 2) m) (8 + 32 * left 2) t1 t2 (omega (arith, h1, is_two))
            (omega (arith, h2, is_two))
            (loop-differ (left 2) (t1 + 8) (t2 + 8) (omega (arith, h1, is_two))
              (omega (arith, h2, is_two))) in
        rw two (rw all at start)
    | inr not_two ↦ elim (Bool-cases (len % 4 == 3)) [
      | inl three ↦
          let is_three : len % 4 ≡ 3 = (==_iff _ _).0 three in
          let all : 8 + (8 + (8 + 32 * left 1)) ≡ 8 * len = omega (arith, is_three) in
          let start =
            do2-differ (loop (left 1) m) (8 + 32 * left 1) t1 t2 (omega (arith, h1, is_three))
              (omega (arith, h2, is_three))
              (loop-differ (left 1) (t1 + 16) (t2 + 16) (omega (arith, h1, is_three))
                (omega (arith, h2, is_three))) in
          rw (not_two, three) (rw all at start)
      | inr not_three ↦ elim (Bool-cases (len % 4 == 0)) [
        | inl fours ↦
            let is_zero : len % 4 ≡ 0 = (==_iff _ _).0 fours in
            elim (Bool-cases (len == 0)) [
              | inl empty ↦
                  let all : 8 * len ≡ 0 = ground (arith, empty) in
                  rw (not_two, not_three, fours, empty, all) refl
              | inr full ↦
                  rw (not_two, not_three, fours, full)
                    (fours-differ len t1 t2 is_zero (ground (arith, full, is_zero)) h1 h2)
            ]
        | inr not_zero ↦
            let is_one : len % 4 ≡ 1 = ground (arith, not_two, not_three, not_zero) in
            let all : 8 + 32 * ((len - 1) / 4) ≡ 8 * len = omega (arith, is_one) in
            let n1 : u64 (t1 + 8) ≡ t1 + 8 = omega (arith, h1, is_one) in
            let n2 : u64 (t2 + 8) ≡ t2 + 8 = omega (arith, h2, is_one) in
            let start =
              loop-differ ((len - 1) / 4) t1 t2 (omega (arith, h1, is_one))
                (omega (arith, h2, is_one)) in
            rw (not_two, not_three, not_zero, n1, n2) (rw all at start)
      ]
    ]
  ]
    where
      -- The rounds behind the first one, which passes `skipped` words less.
      left : ℕ → ℕ
      left skipped = (len + skipped - 4) / 4
