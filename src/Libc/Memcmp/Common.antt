-- ===== src/Libc/Memcmp/Common.antt =====
-- `memcmp_common_alignment` of `libc/string/memcmp.c`.
pub mod Laws
use phoebe.Base.{ℕ, zero, suc, ◌+◌, ◌-◌, ◌*◌, ◌/◌, ◌%◌, ◌^◌, ◌==◌, u64, if◌then◌else◌}
use phoebe.Libc.Memory.{Memory, op_size, load_word}
use phoebe.Libc.Memcmp.Compare.{compare_words}

-- The labels of the loop, each with the words that were loaded last, and with `again`
-- for the condition of the loop.
unfoldable pub do1 : (ℕ → ℕ → ℕ → ℕ → ℕ) → Memory → ℕ → ℕ → ℕ → ℕ → ℕ
do1 again m a0 b0 srcp1 srcp2 =
    let a1 = load_word m (u64 (srcp1 + 3 * op_size)) in
    let b1 = load_word m (u64 (srcp2 + 3 * op_size)) in
    compare_words a0 b0 (again a1 b1 (u64 (srcp1 + 4 * op_size)) (u64 (srcp2 + 4 * op_size)))

unfoldable pub do2 : (ℕ → ℕ → ℕ → ℕ → ℕ) → Memory → ℕ → ℕ → ℕ → ℕ → ℕ
do2 again m a1 b1 srcp1 srcp2 =
    let a0 = load_word m (u64 (srcp1 + 2 * op_size)) in
    let b0 = load_word m (u64 (srcp2 + 2 * op_size)) in
    compare_words a1 b1 (do1 again m a0 b0 srcp1 srcp2)

unfoldable pub do3 : (ℕ → ℕ → ℕ → ℕ → ℕ) → Memory → ℕ → ℕ → ℕ → ℕ → ℕ
do3 again m a0 b0 srcp1 srcp2 =
    let a1 = load_word m (u64 (srcp1 + op_size)) in
    let b1 = load_word m (u64 (srcp2 + op_size)) in
    compare_words a0 b0 (do2 again m a1 b1 srcp1 srcp2)

-- The loop, with the rounds left; behind it is `do0`.
unfoldable pub loop : ℕ → Memory → ℕ → ℕ → ℕ → ℕ → ℕ
loop zero m a1 b1 srcp1 srcp2 = compare_words a1 b1 0
loop (suc left) m a1 b1 srcp1 srcp2 =
    let a0 = load_word m srcp1 in
    let b0 = load_word m srcp2 in compare_words a1 b1 (do3 (loop left m) m a0 b0 srcp1 srcp2)

-- The condition `len != 0` at the end of a round that began with `len` words.
unfoldable pub memcmp_common_alignment : Memory → ℕ → ℕ → ℕ → ℕ
memcmp_common_alignment m srcp1 srcp2 len =
    let a = load_word m srcp1 in
    let b = load_word m srcp2 in
    if len % 4 == 2
    then do1 (loop ((len + 2 - 4) / 4) m) m a b (u64 (srcp1 + 2 ^ 64 - 2 * op_size))
        (u64 (srcp2 + 2 ^ 64 - 2 * op_size))
    else if len % 4 == 3
    then do2 (loop ((len + 1 - 4) / 4) m) m a b (u64 (srcp1 + 2 ^ 64 - op_size))
        (u64 (srcp2 + 2 ^ 64 - op_size))
    else if len % 4 == 0
    then (if len == 0 then 0 else do3 (loop ((len - 4) / 4) m) m a b srcp1 srcp2)
    else loop ((len - 1) / 4) m a b (u64 (srcp1 + op_size)) (u64 (srcp2 + op_size))
