-- ===== src/Virtual.antt =====
-- The virtual allocator, `kernel/memory/virtual.cpp`: the maps made at the start, and rows of pages that
-- are mapped to new frames and released.
pub mod Search
pub mod Row
pub mod Allocate
pub mod Tests
use phoebe.Base.{
  ℕ, zero, suc, ◌+◌, ◌-◌, ◌*◌, ◌/◌, ◌%◌, ◌^◌, bit_or, ltb, ◌==◌, Bool, true, false, if◌then◌else◌,
  List, [], ◌∷◌, u64, sub64, Result, ok, stop, Stop, ◌>>=◌,
}
use phoebe.Address.{page_size, page_size_2mib, page_size_1gib, to_higher_half, align_down, align_up}
use phoebe.Paging.{
  is_valid, map_read, map_write, map_exec, map_write_back, map_write_combining, map_page_2mb,
  map_page_1gb,
}
use phoebe.Paging.Frames.{Frames}
use phoebe.Paging.Walk.{
  Status, no_size, virtual_to_entry, virtual_to_physical, map_page, unmap_page,
}
use phoebe.Paging.Ranges.{rounds}

-- What the boot loader says of a range of memory; `framebuffer` is its type being that one.
pub record MemmapEntry : Type 0 where
  pub base : ℕ
  pub length : ℕ
  pub framebuffer : Bool

-- `PAGE_SIZE_1GiB * 4`
abbrev pub four_gib : ℕ
four_gib = 0x1_0000_0000

-- `assert(!status)`
abbrev pub assert_ok {ℓ} : {S : Type ℓ} → Status × S → Result S
assert_ok (Status.system_ok, s) = ok s
assert_ok (Status.err_address_unreachable, s) = stop Stop.assertion

-- The map that all calls work on. `mode_max`, `top` and `pml3_translation` are as in the walk; loading it
-- is left to the processor.
module _ (frames : Frames) (offset : ℕ) (mode_max : Bool) (top : ℕ) (pml3_translation : Bool) where
  open frames use {State, allocate, read}

  -- `assert(!base_pagemap.map_page(...))`
  unfoldable pub map_asserted : ℕ → ℕ → ℕ → State → Result State
  map_asserted virtual_address physical_address flags s = do
    r ←
        map_page frames offset mode_max top pml3_translation virtual_address physical_address flags
          s
    assert_ok r

  -- The first 4 GiB, from `i` on with the pages left.
  unfoldable pub map_low : ℕ → ℕ → State → Result State
  map_low zero i s = ok s
  map_low (suc left) i s = do
    s' ←
        map_asserted (to_higher_half offset i) i (bit_or (bit_or map_read map_write) map_write_back)
          s
    map_low left (i + page_size) s'

  -- A range of memory from `j` on with the pages left, as far as it lies above 4 GiB.
  unfoldable pub map_above : ℕ → ℕ → ℕ → State → Result State
  map_above cache zero j s = ok s
  map_above cache (suc left) j s = do
    s' ←
        (if ltb j four_gib
          then ok s
          else map_asserted (to_higher_half offset j) j (bit_or (bit_or map_read map_write) cache)
              s)
    map_above cache left (j + page_size) s'

  unfoldable pub map_memmaps : List MemmapEntry → State → Result State
  map_memmaps [] s = ok s
  map_memmaps (entry ∷ memmaps) s = do
    let base = align_down entry.base page_size
    let end = align_up (u64 (entry.base + entry.length)) page_size
    s' ←
        (if ltb end four_gib
          then ok s
          else map_above (if entry.framebuffer then map_write_combining else map_write_back)
              (rounds (end - base) page_size) base s)
    map_memmaps memmaps s'

  -- The kernel, from `i` on with the pages left.
  unfoldable pub map_kernel : ℕ → ℕ → ℕ → ℕ → State → Result State
  map_kernel virtual_base physical_base zero i s = ok s
  map_kernel virtual_base physical_base (suc left) i s = do
    s' ←
        map_asserted (u64 (virtual_base + i)) (u64 (physical_base + i))
          (bit_or (bit_or (bit_or map_write map_read) map_exec) map_write_back) s
    map_kernel virtual_base physical_base left (i + page_size) s'

  -- `virtual_initialize` behind the call of `initialize`; the arguments are what the boot loader answers.
  unfoldable pub map_all : List MemmapEntry → ℕ → ℕ → ℕ → State → Result State
  map_all memmaps virtual_base physical_base kernel_size s = do
    s1 ← map_low (four_gib / page_size) 0 s
    s2 ← map_memmaps memmaps s1
    map_kernel virtual_base physical_base (rounds kernel_size page_size) 0 s2

  -- The search of `virtual_allocate` for a page that is mapped, with the pages left: whether there is
  -- none. The entry is read where there is none as well.
  unfoldable pub row_free : ℕ → ℕ → State → Result (Bool × State)
  row_free zero address s = ok (true, s)
  row_free (suc left) address s = do
    (entry, s') ←
        virtual_to_entry frames offset mode_max top
          (map_page frames offset mode_max top pml3_translation) address false page_size true s
    if entry == 0
        then stop Stop.fault
        else (if is_valid (read s' entry)
            then ok (false, s')
            else row_free left (address + page_size) s')

  -- The loop that maps the row from `start`, with the pages left: whether it has not failed.
  unfoldable pub map_row : ℕ → ℕ → ℕ → ℕ → State → Result (Bool × State)
  map_row start flags zero i s = ok (true, s)
  map_row start flags (suc left) i s = do
    (physical_address, s1) ← allocate s
    (status, s2) ←
        map_page frames offset mode_max top pml3_translation (u64 (start + i))
          (u64 (physical_address + i)) flags s1
    elim status [
      | Status.system_ok ↦ map_row start flags left (i + page_size) s2
      | Status.err_address_unreachable ↦ ok (false, s2)
    ]

  -- The attempts of `virtual_allocate` from `start` on, with those left.
  unfoldable pub attempts : ℕ → ℕ → ℕ → ℕ → State → Result (ℕ × State)
  attempts size flags zero start s = ok (0, s)
  attempts size flags (suc left) start s = do
    (free, s1) ← row_free (rounds (u64 (start + size) - start) page_size) start s
    if free
        then (do
          (mapped, s2) ← map_row start flags (rounds size page_size) 0 s1
          ok (if mapped then start else 0, s2))
        else attempts size flags left (start + page_size) s1

  -- `virtual_allocate` between two addresses: the first attempt is made wherever `end` lies.
  unfoldable pub virtual_allocate_in : ℕ → ℕ → ℕ → ℕ → State → Result (ℕ × State)
  virtual_allocate_in base limit count flags s =
      let size = u64 (count * page_size) in
      let end = sub64 limit size in attempts size flags (suc ((end - 1 - base) / page_size)) base s

  -- `virtual_allocate` behind the memory there is. `highest_physical_addr` is that of
  -- `physical_get_status`, and `kernel_virtual_base` what the boot loader answers.
  unfoldable pub virtual_allocate : (State → ℕ) → ℕ → ℕ → ℕ → State → Result (ℕ × State)
  virtual_allocate highest_physical_addr kernel_virtual_base count flags s =
      virtual_allocate_in (to_higher_half offset (highest_physical_addr s)) kernel_virtual_base
        count flags s

  -- The loop of `virtual_free`, with the rounds left. `release` is `physical_free` for one frame, and the
  -- flags are 0 by default.
  unfoldable pub free_pages : (ℕ → State → Result State) → ℕ → ℕ → State → Result State
  free_pages release zero address s = ok s
  free_pages release (suc left) address s = do
    (physical_address, s1) ← virtual_to_physical frames offset mode_max top address 0 s
    if physical_address == no_size then ok s1 else (do
      (status, s2) ← unmap_page frames offset mode_max top pml3_translation address 0 s1
      s3 ← release physical_address s2
      free_pages release left address s3)

  unfoldable pub virtual_free : (ℕ → State → Result State) → ℕ → ℕ → State → Result State
  virtual_free release ptr count s = free_pages release count (align_down ptr page_size) s
