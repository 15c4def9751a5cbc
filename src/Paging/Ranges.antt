-- ===== src/Paging/Ranges.antt =====
-- `PageMap` of `kernel/arch/amd64/memory/paging.cpp`: the calls for a row of pages, and the one that sets up a
-- map.
pub mod Loop
pub mod Laws
pub mod Tests
use phoebe.Base.{
  ℕ, zero, suc, ◌+◌, ◌-◌, ◌*◌, ◌/◌, ◌%◌, ◌^◌, Bool, true, false, u64, sub64, Result, ok, ◌>>=◌,
}
use phoebe.Address.{to_higher_half, from_higher_half}
use phoebe.Paging.{flag_to_page_size}
use phoebe.Paging.Frames.{Frames}
use phoebe.Paging.Walk.{
  Status, no_size, entry_at, get_next_lvl, map_page, unmap_page, setflags_page, remap_page,
}

-- How often `for(size_t i = 0; i < size; i += step)` runs, where `i` does not wrap around.
abbrev pub rounds : ℕ → ℕ → ℕ
rounds size step = (size + (step - 1)) / step

module _ (frames : Frames) (offset : ℕ) where
  open frames use {State, allocate, read, write}

  -- The loop over the pages of a row, with the rounds left. `failed` runs where `body` has failed.
  unfoldable pub each_page :
      (ℕ → State → Result (Status × State))
      → (ℕ → State → Result (Status × State))
      → ℕ
      → ℕ
      → ℕ
      → State
      → Result (Status × State)
  each_page body failed zero step i s = ok (Status.system_ok, s)
  each_page body failed (suc left) step i s = do
    (status, s') ← body i s
    elim status [
      | Status.system_ok ↦ each_page body failed left step (i + step) s'
      | Status.err_address_unreachable ↦ failed i s'
    ]

  abbrev pub unreachable : ℕ → State → Result (Status × State)
  unreachable i s = ok (Status.err_address_unreachable, s)

  -- `mode_max`, `top` and `pml3_translation` are as in the walk.
  module _ (mode_max : Bool) (top : ℕ) (pml3_translation : Bool) where
    unfoldable pub unmap_pages : ℕ → ℕ → ℕ → State → Result (Status × State)
    unmap_pages virtual_address size flags s =
        let step = flag_to_page_size flags in
        each_page
          (λ i.
            unmap_page frames offset mode_max top pml3_translation (u64 (virtual_address + i))
              flags)
          unreachable (rounds size step) step 0 s

    -- The pages before the one that failed are unmapped; `i - page_size` is that of `size_t`.
    unfoldable pub map_pages : ℕ → ℕ → ℕ → ℕ → State → Result (Status × State)
    map_pages virtual_address physical_address size flags s =
        let step = flag_to_page_size flags in
        each_page
          (λ i.
            map_page frames offset mode_max top pml3_translation (u64 (virtual_address + i))
              (u64 (physical_address + i)) flags)
          (λ i s'. do
            (status, s'') ← unmap_pages virtual_address (sub64 i step) flags s'
            unreachable i s'')
          (rounds size step) step 0 s

    unfoldable pub setflags_pages : ℕ → ℕ → ℕ → State → Result (Status × State)
    setflags_pages virtual_address size flags s =
        let step = flag_to_page_size flags in
        each_page (λ i. setflags_page frames offset mode_max top (u64 (virtual_address + i)) flags)
          unreachable (rounds size step) step 0 s

    unfoldable pub remap_pages : ℕ → ℕ → ℕ → ℕ → State → Result (Status × State)
    remap_pages old_virtual_address new_virtual_address size flags s =
        let step = flag_to_page_size flags in
        each_page
          (λ i.
            remap_page frames offset mode_max top pml3_translation (u64 (old_virtual_address + i))
              (u64 (new_virtual_address + i)) flags)
          unreachable (rounds size step) step 0 s

  -- The entries from `i` on of a new map of the kernel get a table each, with the rounds left.
  unfoldable pub make_tables : Bool → Bool → ℕ → ℕ → ℕ → State → Result State
  make_tables mode_max pml3_translation top zero i s = ok s
  make_tables mode_max pml3_translation top (suc left) i s = do
    (table, s') ←
        get_next_lvl frames offset (map_page frames offset mode_max top pml3_translation)
          (entry_at top i) true no_size no_size no_size s
    make_tables mode_max pml3_translation top left (i + 1) s'

  -- The entries from `i` on of a new map are those of the map `base`.
  unfoldable pub copy_tables : ℕ → ℕ → ℕ → ℕ → State → State
  copy_tables base top zero i s = s
  copy_tables base top (suc left) i s =
      copy_tables base top left (i + 1) (write s (entry_at top i) (read s (entry_at base i)))

  -- `clear` is the `memset` of a whole table; `enable_pat` is left to the processor. `pml3_translation` is
  -- that flag as the routine sets it for the kernel. The result is the new `top_lvl_`.
  unfoldable pub initialize :
      (ℕ → State → State) → Bool → Bool → ℕ → Bool → State → Result (ℕ × State)
  initialize clear mode_max pml3_translation base true s = do
    (frame, s') ← allocate s
    let top = to_higher_half offset frame
    s'' ← make_tables mode_max pml3_translation top 256 256 (clear top s')
    ok (top, s'')
  initialize clear mode_max pml3_translation base false s = do
    (frame, s') ← allocate s
    let top = to_higher_half offset frame
    ok (top, copy_tables base top 256 256 (clear top s'))
