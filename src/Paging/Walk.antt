-- ===== src/Paging/Walk.antt =====
-- `PageMap` of `kernel/arch/amd64/memory/paging.cpp`: the walk through the tables, and what it serves.
-- A pointer is its address, and 0 is `nullptr`. The tables stand in a memory that `Frames` gives.
use phoebe.Base.{
  ℕ, zero, suc, ◌+◌, ◌-◌, ◌*◌, ◌/◌, ◌%◌, ◌^◌, bit_and, bit_or, ltb, ◌==◌, not, ◌&&◌, ◌||◌, Bool,
  true, false, if◌then◌else◌, u64, Result, ok, stop, Stop, ◌>>=◌,
}
use phoebe.Address.{page_size, page_size_2mib, page_size_1gib, to_higher_half}
use phoebe.Paging.{
  new_page_flags, page_flag_present, flag_to_page_size, parse_flags, vmm_flags, get_page_size_flags,
  set_flags, any_flag, get_flags, get_address, set_address, is_large, is_valid,
}
use phoebe.Paging.Frames.{Frames}

-- `error_t`, as far as this file returns it.
pub data Status : Type 0 where
  system_ok err_address_unreachable : Status

-- `GET_PML_ENTRY`
abbrev pub get_pml_entry : ℕ → ℕ → ℕ
get_pml_entry virtual_address offset = virtual_address / 2 ^ offset % 512

-- `&table->entries[i]`
abbrev pub entry_at : ℕ → ℕ → ℕ
entry_at table i = u64 (table + 8 * i)

-- `static_cast<size_t>(-1)`
abbrev pub no_size : ℕ
no_size = 2 ^ 64 - 1

module _ (frames : Frames) (offset : ℕ) where
  open frames use {State, allocate, read, write}

  -- `entry.set_address(ret); entry.set_flags(NEW_PAGE_FLAGS);`
  unfoldable pub link : ℕ → ℕ → State → State
  unfolding set_address set_flags
  link entry ret s = write s entry (set_flags (set_address (read s entry) ret) new_page_flags)

  -- The pages of a large entry one by one, with the rounds left, by the call `map_page`.
  unfoldable pub split :
      (ℕ → ℕ → ℕ → State → Result (Status × State)) → ℕ → ℕ → ℕ → ℕ → ℕ → ℕ → State → Result State
  split map_page zero i virt phys flags size s = ok s
  split map_page (suc left) i virt phys flags size s = do
    (status, s') ← map_page (u64 (virt + i)) (u64 (phys + i)) flags s
    split map_page left (i + size) virt phys flags size s'

  -- `map_page` is `this->map_page`, as it runs where this is called.
  unfoldable pub get_next_lvl :
      (ℕ → ℕ → ℕ → State → Result (Status × State))
      → ℕ
      → Bool
      → ℕ
      → ℕ
      → ℕ
      → State
      → Result (ℕ × State)
  unfolding link split is_valid is_large get_address get_flags vmm_flags get_page_size_flags
  get_next_lvl map_page entry allocating virtual_address old_page_size size s =
      let val = read s entry in
      if is_valid val
      then (if is_large val && not (old_page_size == no_size)
          then (let old_flags = vmm_flags (get_flags val) (ltb page_size old_page_size) in
              let old_phys = get_address val in
              let old_virt = bit_and virtual_address (2 ^ 64 - 1 - (old_page_size - 1)) in
              if not (bit_and old_phys (old_page_size - 1) == 0) then stop Stop.panik else (do
                (ret, s') ← allocate s
                s'' ←
                    split map_page (old_page_size / size) 0 old_virt old_phys
                      (bit_or old_flags (get_page_size_flags size)) size (link entry ret s')
                ok (to_higher_half offset ret, s'')))
          else ok (to_higher_half offset (get_address val), s))
      else if allocating
      then (do (ret, s') ← allocate s; ok (to_higher_half offset ret, link entry ret s'))
      else ok (to_higher_half offset 0, s)

  -- The walk. `mode_max` is `is_paging_mode_max()`, and `top` is `top_lvl_`.
  module _ (mode_max : Bool) (top : ℕ) where
    -- The first of two further levels, where there are five.
    unfoldable pub get_pml4 :
        (ℕ → ℕ → ℕ → State → Result (Status × State)) → ℕ → Bool → State → Result (ℕ × State)
    get_pml4 map_page virtual_address allocating s =
        if mode_max
        then get_next_lvl map_page (entry_at top (get_pml_entry virtual_address 48)) allocating
            no_size no_size no_size s
        else ok (top, s)

    module _ (map_page : ℕ → ℕ → ℕ → State → Result (Status × State)) (virtual_address : ℕ)
        (allocating : Bool) (size : ℕ) (check_large : Bool) where
      -- `virtual_to_entry` from `pd` on; `pdp` is read once more where `pd` is meant.
      unfoldable pub from_pd : ℕ → ℕ → State → Result (ℕ × State)
      from_pd pdp pd s =
          let pd_entry = entry_at pd (get_pml_entry virtual_address 21) in
          let tested = entry_at pdp (get_pml_entry virtual_address 21) in
          if pd == 0
          then ok (0, s)
          else if size == page_size_2mib || (check_large && is_large (read s tested))
          then ok (pd_entry, s)
          else (do
            (pt, s') ←
                get_next_lvl map_page pd_entry allocating virtual_address page_size_2mib size s
            if pt == 0 then ok (0, s') else ok (entry_at pt (get_pml_entry virtual_address 12), s'))

      -- From `pdp` on.
      unfoldable pub from_pdp : ℕ → State → Result (ℕ × State)
      from_pdp pdp s =
          let pdp_entry = entry_at pdp (get_pml_entry virtual_address 30) in
          if pdp == 0
          then ok (0, s)
          else if size == page_size_1gib || (check_large && is_large (read s pdp_entry))
          then ok (pdp_entry, s)
          else (do
            (pd, s') ←
                get_next_lvl map_page pdp_entry allocating virtual_address page_size_1gib size s
            from_pd pdp pd s')

      -- From `pml4` on.
      unfoldable pub from_pml4 : ℕ → State → Result (ℕ × State)
      from_pml4 pml4 s =
          let pml4_entry = entry_at pml4 (get_pml_entry virtual_address 39) in
          if pml4 == 0 then ok (0, s) else (do
            (pdp, s') ← get_next_lvl map_page pml4_entry allocating no_size no_size no_size s
            from_pdp pdp s')

      unfoldable pub virtual_to_entry : State → Result (ℕ × State)
      virtual_to_entry s =
          if top == 0
          then ok (0, s)
          else (do (pml4, s') ← get_pml4 map_page virtual_address allocating s; from_pml4 pml4 s')

    -- `map_page` where the caller holds the lock of the map, which is not reentrant.
    abbrev pub map_page_locked : ℕ → ℕ → ℕ → State → Result (Status × State)
    map_page_locked virtual_address physical_address flags s = stop Stop.deadlock

    unfoldable pub virtual_to_physical : ℕ → ℕ → State → Result (ℕ × State)
    virtual_to_physical virtual_address flags s = do
      let size = flag_to_page_size flags
      (entry, s') ← virtual_to_entry map_page_locked virtual_address false size true s
      if entry == 0 || not (any_flag (read s' entry) page_flag_present)
          then ok (no_size, s')
          else ok (u64 (get_address (read s' entry) + virtual_address % size), s')

    -- `map_one`: `reset`, `set_address` and `set_flags`.
    unfoldable pub map_one : ℕ → ℕ → ℕ → ℕ → State → Result (Status × State)
    map_one virtual_address physical_address flags size s = do
      (entry, s') ← virtual_to_entry map_page_locked virtual_address true size false s
      if entry == 0
          then ok (err_address_unreachable, s')
          else ok (system_ok, write s' entry (set_flags (set_address 0 physical_address) flags))

    -- The loop over the 2 MiB pages of a 1 GiB page, with the rounds left.
    unfoldable pub each_2mib :
        (ℕ → State → Result (Status × State)) → ℕ → ℕ → State → Result (Status × State)
    each_2mib body zero i s = ok (system_ok, s)
    each_2mib body (suc left) i s = do
      (status, s') ← body i s
      elim status [
        | system_ok ↦ each_2mib body left (i + page_size_2mib) s'
        | err_address_unreachable ↦ ok (err_address_unreachable, s')
      ]

    -- `invalidate_page` is left to the processor.
    unfoldable pub unmap_one : ℕ → ℕ → State → Result (Status × State)
    unmap_one virtual_address size s = do
      (entry, s') ← virtual_to_entry map_page_locked virtual_address false size true s
      if entry == 0 then ok (err_address_unreachable, s') else ok (system_ok, write s' entry 0)

    unfoldable pub setflags_page : ℕ → ℕ → State → Result (Status × State)
    setflags_page virtual_address flags s = do
      (entry, s') ←
          virtual_to_entry map_page_locked virtual_address true (flag_to_page_size flags) true s
      if entry == 0
          then ok (err_address_unreachable, s')
          else ok (
            system_ok,
            write s' entry
                (set_flags (set_address 0 (get_address (read s' entry))) (parse_flags flags)),
          )

    -- `pml3_translation` is the global flag of that name.
    module _ (pml3_translation : Bool) where
      unfoldable pub map_page : ℕ → ℕ → ℕ → State → Result (Status × State)
      map_page virtual_address physical_address flags s =
          let size = flag_to_page_size flags in
          let parsed = parse_flags flags in
          if size == page_size_1gib && not pml3_translation
          then each_2mib
              (λ i.
                map_one (u64 (virtual_address + i)) (u64 (physical_address + i)) parsed
                  page_size_2mib)
              512 0 s
          else map_one virtual_address physical_address parsed size s

      unfoldable pub unmap_page : ℕ → ℕ → State → Result (Status × State)
      unmap_page virtual_address flags s =
          let size = flag_to_page_size flags in
          if size == page_size_1gib && not pml3_translation
          then each_2mib (λ i. unmap_one (u64 (virtual_address + i)) page_size_2mib) 512 0 s
          else unmap_one virtual_address size s

      -- The status of the unmapping is not read.
      unfoldable pub remap_page : ℕ → ℕ → ℕ → State → Result (Status × State)
      remap_page old_virtual_address new_virtual_address flags s = do
        (physical_address, s1) ← virtual_to_physical old_virtual_address flags s
        (status, s2) ← unmap_page old_virtual_address flags s1
        map_page new_virtual_address physical_address flags s2
