-- ===== src/Paging.antt =====
-- Flags and entries of page tables: `kernel/include/memory/virtual.hpp`,
-- `kernel/include/arch/amd64/mmu.hpp`, the entry of `kernel/include/arch/amd64/memory/paging.hpp`,
-- and the translation of flags in `kernel/arch/amd64/memory/paging.cpp`.
pub mod Entry
pub mod Frames
pub mod Walk
pub mod Tree
pub mod Map
pub mod Store
pub mod Ranges
pub mod Flags
pub mod Tests
use phoebe.Base.{
  ℕ, ◌-◌, ◌^◌, bit_and, bit_or, ltb, leb, ◌==◌, not, Bool, true, false, if◌then◌else◌,
}
use phoebe.Address.{page_size, page_size_2mib, page_size_1gib}

-- `flags & mask`, as a condition.
abbrev pub has : ℕ → ℕ → Bool
has flags mask = not (bit_and flags mask == 0)

-- What a caller asks for.
module _ where
  abbrev pub map_read : ℕ
  map_read = 2 ^ 0

  abbrev pub map_write : ℕ
  map_write = 2 ^ 1

  abbrev pub map_exec : ℕ
  map_exec = 2 ^ 2

  abbrev pub map_global : ℕ
  map_global = 2 ^ 3

  abbrev pub map_user : ℕ
  map_user = 2 ^ 4

  abbrev pub map_page_1gb : ℕ
  map_page_1gb = 2 ^ 5

  abbrev pub map_page_2mb : ℕ
  map_page_2mb = 2 ^ 6

  abbrev pub map_mmio : ℕ
  map_mmio = 2 ^ 7

  abbrev pub map_write_through : ℕ
  map_write_through = 2 ^ 6

  abbrev pub map_protected : ℕ
  map_protected = 2 ^ 7

  abbrev pub map_write_combining : ℕ
  map_write_combining = 2 ^ 8

  abbrev pub map_write_back : ℕ
  map_write_back = 2 ^ 9

  abbrev pub map_no_cache : ℕ
  map_no_cache = 2 ^ 10

-- What an entry holds.
module _ where
  abbrev pub page_flag_present : ℕ
  page_flag_present = 2 ^ 0

  abbrev pub page_flag_writable : ℕ
  page_flag_writable = 2 ^ 1

  abbrev pub page_flag_user_accessible : ℕ
  page_flag_user_accessible = 2 ^ 2

  abbrev pub page_flag_write_through : ℕ
  page_flag_write_through = 2 ^ 3

  abbrev pub page_flag_no_cache : ℕ
  page_flag_no_cache = 2 ^ 4

  abbrev pub page_flag_size_extension : ℕ
  page_flag_size_extension = 2 ^ 7

  abbrev pub page_flag_global : ℕ
  page_flag_global = 2 ^ 8

  abbrev pub page_flag_no_execute : ℕ
  page_flag_no_execute = 2 ^ 63

  abbrev pub new_page_flags : ℕ
  new_page_flags = 7

-- `if(test) ret |= bits;`
abbrev pub add_if : Bool → ℕ → ℕ → ℕ
add_if test bits ret = if test then bit_or ret bits else ret

unfoldable pub parse_cache : ℕ → ℕ → ℕ
parse_cache flags size =
    let patbit = if ltb page_size size then 2 ^ 12 else 2 ^ 7 in
    if has flags map_mmio
    then page_flag_no_cache
    else if has flags map_write_combining
    then bit_or page_flag_no_cache page_flag_write_through
    else if has flags map_write_through
    then patbit
    else if has flags map_protected
    then bit_or patbit page_flag_write_through
    else if has flags map_write_back
    then bit_or patbit page_flag_no_cache
    else if has flags map_no_cache
    then bit_or (bit_or patbit page_flag_no_cache) page_flag_write_through
    else 0

-- `virt::parse_flags`
unfoldable pub parse_access : ℕ → ℕ
parse_access flags =
    let huge = if has flags map_page_1gb then true else has flags map_page_2mb in
    let sized = add_if huge page_flag_size_extension 0 in
    let readable = add_if (has flags map_read) page_flag_present sized in
    let writable = add_if (has flags map_write) page_flag_writable readable in
    let user = add_if (has flags map_user) page_flag_user_accessible writable in
    let executable = add_if (not (has flags map_exec)) page_flag_no_execute user in
    add_if (has flags map_global) page_flag_global executable

unfoldable pub flag_to_page_size : ℕ → ℕ
flag_to_page_size flags =
    if has flags map_page_1gb
    then page_size_1gib
    else if has flags map_page_2mb
    then page_size_2mib
    else page_size

-- `PageMap::parse_flags`
unfoldable pub parse_flags : ℕ → ℕ
unfolding parse_cache parse_access flag_to_page_size
parse_flags flags = bit_or (parse_cache flags (flag_to_page_size flags)) (parse_access flags)

-- `MATCH_FLAGS`
abbrev pub match_flags : ℕ → ℕ → Bool
match_flags flags bits = bit_and flags bits == bits

-- The last ladder of `PageMap::vmm_flags`, where `ret` is what it adds to.
unfoldable pub vmm_cache : ℕ → ℕ → ℕ → ℕ
vmm_cache flags patbit ret =
    if match_flags flags (bit_or (bit_or patbit page_flag_no_cache) page_flag_write_through)
    then bit_or ret map_no_cache
    else if match_flags flags (bit_or patbit page_flag_no_cache)
    then bit_or ret map_write_back
    else if match_flags flags (bit_or patbit page_flag_write_through)
    then bit_or ret map_protected
    else if match_flags flags patbit
    then bit_or ret map_write_through
    else if match_flags flags (bit_or page_flag_no_cache page_flag_write_through)
    then bit_or ret map_write_combining
    else if match_flags flags page_flag_no_cache
    then bit_or ret map_mmio
    else ret

unfoldable pub vmm_flags : ℕ → Bool → ℕ
unfolding vmm_cache
vmm_flags flags large_pages =
    let patbit = if large_pages then 2 ^ 7 else 2 ^ 12 in
    let readable = add_if (has flags page_flag_present) map_read 0 in
    let writable = add_if (has flags page_flag_writable) map_write readable in
    let executable = add_if (not (has flags page_flag_no_execute)) map_exec writable in
    let user = add_if (has flags page_flag_user_accessible) map_user executable in
    let global = add_if (has flags page_flag_global) map_global user in
    vmm_cache flags patbit global

unfoldable pub get_page_size_flags : ℕ → ℕ
get_page_size_flags size =
    if size == page_size then 0 else if size == page_size_2mib then map_page_2mb else map_page_1gb

unfoldable pub get_page_size : ℕ → ℕ
get_page_size size =
    if leb page_size_1gib size
    then page_size_1gib
    else if leb page_size_2mib size
    then page_size_2mib
    else page_size

unfoldable pub required_page_size : ℕ → ℕ × ℕ
required_page_size size =
    if leb page_size_1gib size
    then (page_size_1gib, map_page_1gb)
    else if leb page_size_2mib size
    then (page_size_2mib, map_page_2mb)
    else (page_size, 0)

-- `PageTableEntry`: the 64 bits of `val`.
abbrev pub page_addr_mask : ℕ
page_addr_mask = 0x000f_ffff_ffff_f000

abbrev pub not_page_addr_mask : ℕ
not_page_addr_mask = 0xfff0_0000_0000_0fff

unfoldable pub set_flags : ℕ → ℕ → ℕ
set_flags val flags = bit_or val flags

unfoldable pub clear_flags : ℕ → ℕ → ℕ
clear_flags val flags = bit_and val (2 ^ 64 - 1 - flags)

-- The two `get_flags`.
unfoldable pub any_flag : ℕ → ℕ → Bool
any_flag val flags = has val flags

unfoldable pub get_flags : ℕ → ℕ
get_flags val = bit_and val not_page_addr_mask

unfoldable pub get_address : ℕ → ℕ
get_address val = bit_and val page_addr_mask

unfoldable pub set_address : ℕ → ℕ → ℕ
set_address val address = bit_or (bit_and val not_page_addr_mask) address

unfoldable pub is_large : ℕ → Bool
unfolding any_flag
is_large val = any_flag val page_flag_size_extension

unfoldable pub is_valid : ℕ → Bool
unfolding any_flag
is_valid val = any_flag val page_flag_present
