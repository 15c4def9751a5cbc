-- ===== src/Libc/Memcmp/Shifted.antt =====
-- `memcmp_not_common_alignment` of `libc/string/memcmp.c`.
pub mod Laws
use phoebe.Base.{ℕ, zero, suc, ◌+◌, ◌-◌, ◌*◌, ◌/◌, ◌%◌, ◌^◌, ◌==◌, u64, if◌then◌else◌}
use phoebe.Libc.Memory.{Memory, op_size, load_word}
use phoebe.Libc.Memcpy.{merge}
use phoebe.Libc.Memcmp.Compare.{compare_words}

-- The labels of the loop, each with the words that were loaded last.
module _ (shl shr : ℕ) where
  unfoldable pub do1 : (ℕ → ℕ → ℕ → ℕ → ℕ → ℕ) → Memory → ℕ → ℕ → ℕ → ℕ → ℕ → ℕ
  do1 again m a1 a2 b2 srcp1 srcp2 =
      let a3 = load_word m (u64 (srcp1 + 3 * op_size)) in
      let b3 = load_word m (u64 (srcp2 + 3 * op_size)) in
      compare_words (merge a1 shl a2 shr) b2
        (again a2 a3 b3 (u64 (srcp1 + 4 * op_size)) (u64 (srcp2 + 4 * op_size)))

  unfoldable pub do2 : (ℕ → ℕ → ℕ → ℕ → ℕ → ℕ) → Memory → ℕ → ℕ → ℕ → ℕ → ℕ → ℕ
  do2 again m a0 a1 b1 srcp1 srcp2 =
      let a2 = load_word m (u64 (srcp1 + 2 * op_size)) in
      let b2 = load_word m (u64 (srcp2 + 2 * op_size)) in
      compare_words (merge a0 shl a1 shr) b1 (do1 again m a1 a2 b2 srcp1 srcp2)

  unfoldable pub do3 : (ℕ → ℕ → ℕ → ℕ → ℕ → ℕ) → Memory → ℕ → ℕ → ℕ → ℕ → ℕ → ℕ
  do3 again m a3 a0 b0 srcp1 srcp2 =
      let a1 = load_word m (u64 (srcp1 + op_size)) in
      let b1 = load_word m (u64 (srcp2 + op_size)) in
      compare_words (merge a3 shl a0 shr) b0 (do2 again m a0 a1 b1 srcp1 srcp2)

  unfoldable pub loop : ℕ → Memory → ℕ → ℕ → ℕ → ℕ → ℕ → ℕ
  loop zero m a2 a3 b3 srcp1 srcp2 = compare_words (merge a2 shl a3 shr) b3 0
  loop (suc left) m a2 a3 b3 srcp1 srcp2 =
      let a0 = load_word m srcp1 in
      let b0 = load_word m srcp2 in
      compare_words (merge a2 shl a3 shr) b3 (do3 (loop left m) m a3 a0 b0 srcp1 srcp2)

-- `start` is the first pointer, before it is aligned.
unfoldable pub memcmp_not_common_alignment : Memory → ℕ → ℕ → ℕ → ℕ
memcmp_not_common_alignment m start srcp2 len =
    let shl = 8 * (start % op_size) in
    let shr = 8 * op_size - shl in
    let srcp1 = start - start % op_size in
    let a = load_word m srcp1 in
    let a' = load_word m (u64 (srcp1 + op_size)) in
    let b = load_word m srcp2 in
    if len % 4 == 2
    then do1 shl shr (loop shl shr ((len + 2 - 4) / 4) m) m a a' b (u64 (srcp1 + 2 ^ 64 - op_size))
        (u64 (srcp2 + 2 ^ 64 - 2 * op_size))
    else if len % 4 == 3
    then do2 shl shr (loop shl shr ((len + 1 - 4) / 4) m) m a a' b srcp1
        (u64 (srcp2 + 2 ^ 64 - op_size))
    else if len % 4 == 0
    then (if len == 0
        then 0
        else do3 shl shr (loop shl shr ((len - 4) / 4) m) m a a' b (u64 (srcp1 + op_size)) srcp2)
    else loop shl shr ((len - 1) / 4) m a a' b (u64 (srcp1 + 2 * op_size)) (u64 (srcp2 + op_size))
