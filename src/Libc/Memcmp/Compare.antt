-- ===== src/Libc/Memcmp/Compare.antt =====
-- Comparing two words of `libc/string/memcmp.c`, with `memcmp_bytes` of `libc/string/memcopy.c`. A
-- result is the pattern of an `int`.
pub mod Laws
use phoebe.Base.{ℕ, zero, suc, ◌/◌, ◌%◌, ◌==◌, if◌then◌else◌}
use phoebe.Libc.Memory.{op_size}
use phoebe.Libc.Cstring.{difference}

-- `memcmp_bytes`, with the bytes left in the words. Its callers pass words that differ.
unfoldable pub memcmp_bytes : ℕ → ℕ → ℕ → ℕ
memcmp_bytes zero a b = 0
memcmp_bytes (suc left) a b =
    let rest = memcmp_bytes left (a / 256) (b / 256) in
    if a % 256 == b % 256 then rest else difference (a % 256) (b % 256)

-- `if(a != b) return CMP_LT_OR_GT(a, b);`, and what follows.
unfoldable pub compare_words : ℕ → ℕ → ℕ → ℕ
compare_words a b rest = if a == b then rest else memcmp_bytes op_size a b
