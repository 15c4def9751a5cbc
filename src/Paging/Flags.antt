-- ===== src/Paging/Flags.antt =====
-- What becomes of the flags of a mapping, at every combination of the eleven bits.
use phoebe.Base.{
  ℕ, ◌<◌, ◌≡◌, refl, bit_and, ◌==◌, not, Bool, true, false, ◌&&◌, if◌then◌else◌, ==_iff, and_true,
}
use phoebe.Base.Table.{all_below, all_below_sound}
use phoebe.Address.{page_size_2mib}
use phoebe.Paging.{
  has, map_page_1gb, map_mmio, map_write_through, map_write_back, parse_flags, vmm_flags,
  flag_to_page_size,
}

access_test : ℕ → Bool
unfolding parse_flags vmm_flags
access_test flags =
    (bit_and (vmm_flags (parse_flags flags) true) 0x1f == bit_and flags 0x1f)
    && (bit_and (vmm_flags (parse_flags flags) false) 0x1f == bit_and flags 0x1f)

access_table : all_below 2048 access_test ≡ true
unfolding all_below access_test
access_table = refl

-- The bits for reading, writing, executing, global and user pages come back from an entry as they
-- were given, whatever the other bits are and whether the page is taken for a large one.
pub vmm_flags-parse_flags :
    (flags : ℕ)
    → flags < 2048
    → (bit_and (vmm_flags (parse_flags flags) true) 0x1f ≡ bit_and flags 0x1f)
      × (bit_and (vmm_flags (parse_flags flags) false) 0x1f ≡ bit_and flags 0x1f)
unfolding access_test
vmm_flags-parse_flags flags h =
    let both = and_true _ _ (all_below_sound 2048 access_test access_table flags h) in
    ((==_iff _ _).0 both.0, (==_iff _ _).0 both.1)

-- A mapping of small pages that is write-back, and of no type that is looked for before.
abbrev pub is_write_back : ℕ → Bool
is_write_back flags = bit_and flags 0x3e0 == map_write_back

write_back_test : ℕ → Bool
unfolding parse_flags vmm_flags
write_back_test flags =
    if is_write_back flags
    then bit_and (vmm_flags (parse_flags flags) false) 0x780 == map_mmio
    else true

write_back_table : all_below 2048 write_back_test ≡ true
unfolding all_below write_back_test
write_back_table = refl

-- The entry of a write-back mapping of small pages is read back as one of device memory: the two
-- functions take the bit of the page attribute table from different places.
pub write_back_lost :
    (flags : ℕ)
    → flags < 2048
    → is_write_back flags ≡ true
    → bit_and (vmm_flags (parse_flags flags) false) 0x780 ≡ map_mmio
unfolding write_back_test
write_back_lost flags h back =
    let t = all_below_sound 2048 write_back_test write_back_table flags h in
    (==_iff _ _).0 (rw back at t)

write_through_test : ℕ → Bool
unfolding flag_to_page_size
write_through_test flags =
    if has flags map_write_through && not (has flags map_page_1gb)
    then flag_to_page_size flags == page_size_2mib
    else true

write_through_table : all_below 2048 write_through_test ≡ true
unfolding all_below write_through_test
write_through_table = refl

-- A request for write-through is at the same time one for pages of 2 MiB: unless it asks for pages
-- of 1 GiB, that is the size it gets.
pub flag_to_page_size-write_through :
    (flags : ℕ)
    → flags < 2048
    → (has flags map_write_through && not (has flags map_page_1gb)) ≡ true
    → flag_to_page_size flags ≡ page_size_2mib
unfolding write_through_test
flag_to_page_size-write_through flags h asked =
    let t = all_below_sound 2048 write_through_test write_through_table flags h in
    (==_iff _ _).0 (rw asked at t)
