-- ===== src/Libc/Memcmp.antt =====
-- `memcmp` of `libc/string/memcmp.c`.
pub mod Compare
pub mod Common
pub mod Shifted
pub mod Laws
pub mod Tests
use phoebe.Base.{ℕ, zero, suc, ◌+◌, ◌-◌, ◌/◌, ◌%◌, ◌^◌, ◌==◌, leb, u64, if◌then◌else◌}
use phoebe.Libc.Memory.{Memory, op_size, op_t_thres}
use phoebe.Libc.Cstring.{difference}
use phoebe.Libc.Memcmp.Common.{memcmp_common_alignment}
use phoebe.Libc.Memcmp.Shifted.{memcmp_not_common_alignment}

-- A loop over single bytes, with the rounds left, and what follows it.
unfoldable pub compare_bytes : ℕ → Memory → ℕ → ℕ → ℕ → ℕ
compare_bytes zero m srcp1 srcp2 rest = rest
compare_bytes (suc left) m srcp1 srcp2 rest =
    let next = compare_bytes left m (u64 (srcp1 + 1)) (u64 (srcp2 + 1)) rest in
    if m srcp1 == m srcp2 then next else difference (m srcp1) (m srcp2)

-- The words, and the bytes behind them.
unfoldable pub compare_aligned : Memory → ℕ → ℕ → ℕ → ℕ
compare_aligned m srcp1 srcp2 len =
    let words = len / op_size in
    let res =
      if srcp1 % op_size == 0
      then memcmp_common_alignment m srcp1 srcp2 words
      else memcmp_not_common_alignment m srcp1 srcp2 words in
    let passed = len - len % op_size in
    if res == 0
    then compare_bytes (len % op_size) m (u64 (srcp1 + passed)) (u64 (srcp2 + passed)) 0
    else res

unfoldable pub memcmp : Memory → ℕ → ℕ → ℕ → ℕ
memcmp m s1 s2 len =
    let short = (2 ^ 64 - s2) % op_size in
    if leb op_t_thres len
    then compare_bytes short m s1 s2
        (compare_aligned m (u64 (s1 + short)) (u64 (s2 + short)) (len - short))
    else compare_bytes len m s1 s2 0
