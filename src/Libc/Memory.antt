-- ===== src/Libc/Memory.antt =====
-- Memory as a map from addresses to bytes, and the accesses of `libc/string/memcopy.h`: a `byte`
-- (lines 12 to 15) and an `op_t`, eight bytes with the lowest first.
pub mod Region
pub mod Words
pub mod Copied
use phoebe.Base.{ℕ, zero, suc, ◌+◌, ◌*◌, ◌/◌, ◌%◌, ◌==◌, if◌then◌else◌}

abbrev pub Memory : Type 0
Memory = ℕ → ℕ

abbrev pub op_size : ℕ
op_size = 8

abbrev pub op_t_thres : ℕ
op_t_thres = 16

abbrev pub store : Memory → ℕ → ℕ → Memory
store m d v a = if d == a then v else m a

-- The low `n` bytes of a value, from the address up.
pub store_bytes : ℕ → Memory → ℕ → ℕ → Memory
store_bytes zero m d w = m
store_bytes (suc n) m d w = store_bytes n (store m d (w % 256)) (d + 1) (w / 256)

unfoldable pub load_bytes : ℕ → Memory → ℕ → ℕ
load_bytes zero m s = 0
load_bytes (suc n) m s = m s + 256 * load_bytes n m (s + 1)

-- `((op_t*)p)[0]` on the left and on the right of an assignment.
abbrev pub store_word : Memory → ℕ → ℕ → Memory
store_word = store_bytes op_size

abbrev pub load_word : Memory → ℕ → ℕ
load_word = load_bytes op_size
