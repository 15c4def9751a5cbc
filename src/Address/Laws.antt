-- ===== src/Address/Laws.antt =====
-- What alignment by a power of two computes.
use phoebe.Base.{ℕ, ◌+◌, ◌-◌, ◌*◌, ◌/◌, ◌%◌, ◌^◌, ◌≤◌, ◌<◌, ◌≡◌, arith, u64, sub64}
use phoebe.Base.Bits.{bit_and_high}
use phoebe.Address.{page_size, align_down, align_up, div_roundup, to_higher_half, from_higher_half}

-- For pages, the mask clears the last twelve bits.
pub align_down_page :
    (addr : ℕ) → addr < 2 ^ 64 → align_down addr page_size ≡ addr / page_size * page_size
unfolding align_down
align_down_page addr h = bit_and_high 52 12 addr (omega arith)

-- An aligned address is the least multiple of the page size that is not below the address, as
-- long as that is below the top of the address space.
pub align_up_page :
    (addr : ℕ)
    → addr + page_size ≤ 2 ^ 64
    → (align_up addr page_size % page_size ≡ 0)
      × (addr ≤ align_up addr page_size)
      × (align_up addr page_size < addr + page_size)
unfolding align_up
align_up_page addr h =
    let e : sub64 (u64 (addr + page_size)) 1 ≡ addr + page_size - 1 = omega arith in
    let down = align_down_page (addr + page_size - 1) (omega arith) in rw (e, down) (omega arith)

-- `div_roundup` rounds down.
pub div_roundup_page : (addr : ℕ) → addr < 2 ^ 64 → div_roundup addr page_size ≡ addr / page_size
unfolding div_roundup
div_roundup_page addr h = rw (align_down_page addr h) (omega arith)

-- A physical address below the offset comes back from the higher half.
pub from_higher_half-to_higher_half :
    (offset addr : ℕ)
    → addr < offset
    → addr + offset < 2 ^ 64
    → from_higher_half offset (to_higher_half offset addr) ≡ addr
unfolding from_higher_half to_higher_half
from_higher_half-to_higher_half offset addr h fits = ground arith
