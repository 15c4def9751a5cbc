-- ===== src/Paging/Tests.antt =====
-- Flags of mappings at concrete values, with what the theorems say of them.
use phoebe.Base.{◌≡◌, refl, bit_and, true, false, arith, ◌*◌, ◌^◌}
use phoebe.Paging.{get_address, get_flags, set_address, vmm_flags, parse_flags, map_mmio}
use phoebe.Paging.Entry.{get_address-set_address}
use phoebe.Paging.Flags.{vmm_flags-parse_flags, write_back_lost}

vmm_flags-parse_flags_example :
    (bit_and (vmm_flags (parse_flags 0x213) true) 0x1f ≡ bit_and 0x213 0x1f)
    × (bit_and (vmm_flags (parse_flags 0x213) false) 0x1f ≡ bit_and 0x213 0x1f)
vmm_flags-parse_flags_example = vmm_flags-parse_flags 0x213 (omega arith)

write_back_lost_example : bit_and (vmm_flags (parse_flags 0x203) false) 0x780 ≡ map_mmio
write_back_lost_example = write_back_lost 0x203 (omega arith) refl

-- The entry of a page that is not to be executed, moved to the page 0x1234.
get_address-set_address_example :
    (get_address (set_address 0x8000_0000_dead_b003 (0x1234 * 2 ^ 12)) ≡ 0x1234 * 2 ^ 12)
    × (get_flags (set_address 0x8000_0000_dead_b003 (0x1234 * 2 ^ 12))
        ≡ get_flags 0x8000_0000_dead_b003)
get_address-set_address_example =
    get_address-set_address 0x8000_0000_dead_b003 0x1234 (omega arith) (omega arith)
