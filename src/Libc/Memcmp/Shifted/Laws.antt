-- ===== src/Libc/Memcmp/Shifted/Laws.antt =====
-- What comparing words says where the first pointer is not aligned.
use phoebe.Base.{
  ℕ, zero, suc, ◌+◌, ◌-◌, ◌*◌, ◌/◌, ◌%◌, ◌^◌, ◌<◌, ◌≤◌, ◌≡◌, refl, sym, ◌∙◌, Bool-cases, inl, inr,
  ◌==◌, ==_iff, u64, arith,
}
use phoebe.Libc.Memory.{Memory, load_word}
use phoebe.Libc.Memory.Copied.{IsBytes, load_bytes-add}
use phoebe.Libc.Memcpy.{merge}
use phoebe.Libc.Memcpy.Words.{merge-load}
use phoebe.Libc.Memcmp.Compare.{compare_words}
use phoebe.Libc.Memcmp.Compare.Laws.{differ, compare_words-differ}
use phoebe.Libc.Memcmp.Shifted.{do1, do2, do3, loop, memcmp_not_common_alignment}

-- The first text stands `k` bytes behind the start of a word.
module _ (m : Memory) (bytes : IsBytes m) (k h : ℕ) (whole : k + h ≡ 8) where
  merged-load :
      (b : ℕ) → merge (load_word m b) (8 * k) (load_word m (b + 8)) (8 * h) ≡ load_word m (b + k)
  merged-load b =
      let all : h + k ≡ 8 = omega (arith, whole) in
      let next : b + k + h ≡ b + 8 = omega (arith, whole) in
      merge-load k h whole m m b (b + 8) bytes bytes
      ∙ sym (rw (all, next) at (load_bytes-add h k m (b + k)))

  -- A word of the first text is compared with one of the second.
  merged-differ :
      (n b t2 rest : ℕ)
      → rest ≡ differ n m (b + 8 + k) (t2 + 8)
      → compare_words
          (merge (load_word m b) (8 * k) (load_word m (b + 8)) (8 * h))
          (load_word m t2)
          rest
        ≡ differ (8 + n) m (b + k) t2
  merged-differ n b t2 rest e =
      let c : b + 8 + k ≡ b + k + 8 = omega arith in
      rw (merged-load b) (compare_words-differ m bytes n (b + k) t2 rest (rw c at e))

  abbrev Again : (ℕ → ℕ → ℕ → ℕ → ℕ → ℕ) → ℕ → ℕ → ℕ → Type 0
  Again again n b t2 =
      again (load_word m b) (load_word m (b + 8)) (load_word m t2) (u64 (b + 16)) (t2 + 8)
      ≡ differ n m (b + k) t2

  do1-differ :
      (again : ℕ → ℕ → ℕ → ℕ → ℕ → ℕ) (n b t2 : ℕ)
      → b + k + 16 < 2 ^ 64
      → t2 + 16 < 2 ^ 64
      → Again again n (b + 8) (t2 + 8)
      → do1
          (8 * k)
          (8 * h)
          again
          m
          (load_word m b)
          (load_word m (b + 8))
          (load_word m t2)
          (u64 (b + 2 ^ 64 - 8))
          (u64 (t2 + 2 ^ 64 - 16))
        ≡ differ (8 + n) m (b + k) t2
  unfolding do1
  do1-differ again n b t2 h1 h2 next =
      let a1 : u64 (u64 (b + 2 ^ 64 - 8) + 24) ≡ b + 8 + 8 = omega (arith, h1) in
      let a2 : u64 (u64 (t2 + 2 ^ 64 - 16) + 24) ≡ t2 + 8 = omega (arith, h2) in
      let b1 : u64 (u64 (b + 2 ^ 64 - 8) + 32) ≡ u64 (b + 8 + 16) = omega (arith, h1) in
      let b2 : u64 (u64 (t2 + 2 ^ 64 - 16) + 32) ≡ t2 + 8 + 8 = omega (arith, h2) in
      rw (a1, a2, b1, b2) (merged-differ n b t2 _ next)

  do2-differ :
      (again : ℕ → ℕ → ℕ → ℕ → ℕ → ℕ) (n b t2 : ℕ)
      → b + k + 24 < 2 ^ 64
      → t2 + 24 < 2 ^ 64
      → Again again n (b + 16) (t2 + 16)
      → do2
          (8 * k)
          (8 * h)
          again
          m
          (load_word m b)
          (load_word m (b + 8))
          (load_word m t2)
          b
          (u64 (t2 + 2 ^ 64 - 8))
        ≡ differ (8 + (8 + n)) m (b + k) t2
  unfolding do2
  do2-differ again n b t2 h1 h2 next =
      let a1 : u64 (b + 16) ≡ b + 8 + 8 = omega (arith, h1) in
      let a2 : u64 (u64 (t2 + 2 ^ 64 - 8) + 16) ≡ t2 + 8 = omega (arith, h2) in
      let b1 : u64 (b + 8 + 2 ^ 64 - 8) ≡ b = omega (arith, h1) in
      let b2 : u64 (t2 + 2 ^ 64 - 8) ≡ u64 (t2 + 8 + 2 ^ 64 - 16) = omega (arith, h2) in
      let c1 : b + 16 ≡ b + 8 + 8 = omega arith in
      let c2 : t2 + 16 ≡ t2 + 8 + 8 = omega arith in
      let rest =
        do1-differ again n (b + 8) (t2 + 8) (omega (arith, h1)) (omega (arith, h2))
          (rw (c1, c2) at next) in
      rw (a1, a2, b2) (merged-differ (8 + n) b t2 _ (rw b1 at rest))

  do3-differ :
      (again : ℕ → ℕ → ℕ → ℕ → ℕ → ℕ) (n b t2 : ℕ)
      → b + k + 32 < 2 ^ 64
      → t2 + 32 < 2 ^ 64
      → Again again n (b + 24) (t2 + 24)
      → do3
          (8 * k)
          (8 * h)
          again
          m
          (load_word m b)
          (load_word m (b + 8))
          (load_word m t2)
          (b + 8)
          t2
        ≡ differ (8 + (8 + (8 + n))) m (b + k) t2
  unfolding do3
  do3-differ again n b t2 h1 h2 next =
      let a1 : u64 (b + 8 + 8) ≡ b + 8 + 8 = omega (arith, h1) in
      let a2 : u64 (t2 + 8) ≡ t2 + 8 = omega (arith, h2) in
      let b2 : u64 (t2 + 8 + 2 ^ 64 - 8) ≡ t2 = omega (arith, h2) in
      let c1 : b + 24 ≡ b + 8 + 16 = omega arith in
      let c2 : t2 + 24 ≡ t2 + 8 + 16 = omega arith in
      let rest =
        do2-differ again n (b + 8) (t2 + 8) (omega (arith, h1)) (omega (arith, h2))
          (rw (c1, c2) at next) in
      rw (a1, a2) (merged-differ (8 + (8 + n)) b t2 _ (rw b2 at rest))

  loop-differ :
      (left b t2 : ℕ)
      → b + k + 8 + 32 * left < 2 ^ 64
      → t2 + 8 + 32 * left < 2 ^ 64
      → Again (loop (8 * k) (8 * h) left m) (8 + 32 * left) b t2
  unfolding loop differ
  loop-differ zero b t2 h1 h2 = merged-differ 0 b t2 0 refl
  loop-differ (suc left) b t2 h1 h2 =
      let a1 : u64 (b + 16) ≡ b + 8 + 8 = omega (arith, h1) in
      let c1 : b + 32 ≡ b + 8 + 24 = omega arith in
      let c2 : t2 + 32 ≡ t2 + 8 + 24 = omega arith in
      let all : 8 + 32 * suc left ≡ 8 + (8 + (8 + (8 + (8 + 32 * left)))) = omega arith in
      let rest = loop-differ left (b + 32) (t2 + 32) (omega (arith, h1)) (omega (arith, h2)) in
      let next =
        do3-differ (loop (8 * k) (8 * h) left m) (8 + 32 * left) (b + 8) (t2 + 8)
          (omega (arith, h1)) (omega (arith, h2)) (rw (c1, c2) at rest) in
      rw (all, a1) (merged-differ _ b t2 _ next)

module _ (m : Memory) (bytes : IsBytes m) (t1 : ℕ) where
  abbrev k : ℕ
  k = t1 % 8

  abbrev h : ℕ
  h = 8 - t1 % 8

  abbrev b : ℕ
  b = t1 - t1 % 8

  whole : k + h ≡ 8
  whole = omega arith

  base : b + k ≡ t1
  base = omega arith

  -- The entry where the number of words is a multiple of four.
  fours-differ :
      (len t2 : ℕ)
      → len % 4 ≡ 0
      → 4 ≤ len
      → t1 + 8 * len < 2 ^ 64
      → t2 + 8 * len < 2 ^ 64
      → do3
          (8 * k)
          (8 * h)
          (loop (8 * k) (8 * h) ((len - 4) / 4) m)
          m
          (load_word m b)
          (load_word m (b + 8))
          (load_word m t2)
          (b + 8)
          t2
        ≡ differ (8 * len) m t1 t2
  fours-differ len t2 is_zero some_words h1 h2 =
      let left = (len - 4) / 4 in
      let all : 8 + (8 + (8 + (8 + 32 * ((len - 4) / 4)))) ≡ 8 * len =
        omega (arith, is_zero, some_words) in
      rw (all, base) at
        (do3-differ m bytes k h whole (loop (8 * k) (8 * h) left m) (8 + 32 * left) b t2
          (omega (arith, h1, base, some_words)) (omega (arith, h2, some_words))
          (loop-differ m bytes k h whole left (b + 24) (t2 + 24)
            (omega (arith, h1, base, is_zero, some_words))
            (omega (arith, h2, is_zero, some_words))))

  -- Two rows of words are compared as their bytes are.
  pub memcmp_not_common_alignment-differ :
      (len t2 : ℕ)
      → t1 + 8 * len < 2 ^ 64
      → t2 + 8 * len < 2 ^ 64
      → memcmp_not_common_alignment m t1 t2 len ≡ differ (8 * len) m t1 t2
  unfolding memcmp_not_common_alignment differ
  memcmp_not_common_alignment-differ len t2 h1 h2 = elim (Bool-cases (len % 4 == 2)) [
    | inl two ↦
        let is_two : len % 4 ≡ 2 = (==_iff _ _).0 two in
        let all : 8 + (8 + 32 * left 2) ≡ 8 * len = omega (arith, is_two) in
        let next : u64 (b + 8) ≡ b + 8 = omega (arith, base, h1, is_two) in
        let start =
          do1-differ m bytes k h whole (again 2) (8 + 32 * left 2) b t2
            (omega (arith, h1, base, is_two)) (omega (arith, h2, is_two))
            (loop-differ m bytes k h whole (left 2) (b + 8) (t2 + 8)
              (omega (arith, h1, base, is_two)) (omega (arith, h2, is_two))) in
        rw (two, shift, next) (rw (all, base) at start)
    | inr not_two ↦ elim (Bool-cases (len % 4 == 3)) [
      | inl three ↦
          let is_three : len % 4 ≡ 3 = (==_iff _ _).0 three in
          let all : 8 + (8 + (8 + 32 * left 1)) ≡ 8 * len = omega (arith, is_three) in
          let next : u64 (b + 8) ≡ b + 8 = omega (arith, base, h1, is_three) in
          let start =
            do2-differ m bytes k h whole (again 1) (8 + 32 * left 1) b t2
              (omega (arith, h1, base, is_three)) (omega (arith, h2, is_three))
              (loop-differ m bytes k h whole (left 1) (b + 16) (t2 + 16)
                (omega (arith, h1, base, is_three)) (omega (arith, h2, is_three))) in
          rw (not_two, three, shift, next) (rw (all, base) at start)
      | inr not_three ↦ elim (Bool-cases (len % 4 == 0)) [
        | inl fours ↦
            let is_zero : len % 4 ≡ 0 = (==_iff _ _).0 fours in
            elim (Bool-cases (len == 0)) [
              | inl empty ↦
                  let all : 8 * len ≡ 0 = ground (arith, empty) in
                  rw (not_two, not_three, fours, empty, all) refl
              | inr full ↦
                  let some_words : 4 ≤ len = ground (arith, full, is_zero) in
                  let next : u64 (b + 8) ≡ b + 8 = omega (arith, base, h1, some_words) in
                  rw (not_two, not_three, fours, full, shift, next)
                    (fours-differ len t2 is_zero some_words h1 h2)
            ]
        | inr not_fours ↦
            let is_one : len % 4 ≡ 1 = ground (arith, not_two, not_three, not_fours) in
            let all : 8 + 32 * ((len - 1) / 4) ≡ 8 * len = omega (arith, is_one) in
            let next : u64 (b + 8) ≡ b + 8 = omega (arith, base, h1, is_one) in
            let n2 : u64 (t2 + 8) ≡ t2 + 8 = omega (arith, h2, is_one) in
            let start =
              loop-differ m bytes k h whole ((len - 1) / 4) b t2 (omega (arith, h1, base, is_one))
                (omega (arith, h2, is_one)) in
            rw (not_two, not_three, not_fours, shift, next, n2) (rw (all, base) at start)
      ]
    ]
  ]
    where
      left : ℕ → ℕ
      left skipped = (len + skipped - 4) / 4

      again : ℕ → ℕ → ℕ → ℕ → ℕ → ℕ → ℕ
      again skipped = loop (8 * k) (8 * h) (left skipped) m

      shift : 64 - 8 * k ≡ 8 * h
      shift = omega (arith, whole)
