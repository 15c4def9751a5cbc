-- ===== src/Address.antt =====
-- `kernel/include/memory/memory.hpp`: addresses, alignment and the higher half.
pub mod Laws
pub mod Tests
use phoebe.Base.{ℕ, ◌+◌, ◌-◌, ◌/◌, ◌^◌, bit_and, leb, ◌==◌, Bool, u64, sub64, if◌then◌else◌}

abbrev pub page_size : ℕ
page_size = 0x1000

abbrev pub page_size_2mib : ℕ
page_size_2mib = 0x200000

abbrev pub page_size_1gib : ℕ
page_size_1gib = 0x40000000

-- The boot loader's offset of the higher half, `hhdm_request.response->offset`.
module _ (offset : ℕ) where
  unfoldable pub is_higher_half : ℕ → Bool
  is_higher_half addr = leb offset addr

  unfoldable pub to_higher_half : ℕ → ℕ
  unfolding is_higher_half
  to_higher_half addr = if is_higher_half addr then addr else u64 (addr + offset)

  unfoldable pub from_higher_half : ℕ → ℕ
  unfolding is_higher_half
  from_higher_half addr = if is_higher_half addr then sub64 addr offset else addr

-- `addr & ~(size - 1)` in 64 bits.
unfoldable pub align_down : ℕ → ℕ → ℕ
align_down addr size = bit_and addr (2 ^ 64 - 1 - sub64 size 1)

unfoldable pub align_up : ℕ → ℕ → ℕ
align_up addr size = align_down (sub64 (u64 (addr + size)) 1) size

unfoldable pub div_roundup : ℕ → ℕ → ℕ
div_roundup addr size = align_down addr size / size

unfoldable pub is_aligned : ℕ → ℕ → Bool
is_aligned addr size = align_down addr size == addr
