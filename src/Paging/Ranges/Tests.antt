-- ===== src/Paging/Ranges/Tests.antt =====
-- Rows of three pages in the empty map over sixteen frames.
use phoebe.Base.{◌+◌, ◌*◌, ◌⊎◌, false, arith}
use phoebe.Address.{page_size}
use phoebe.Paging.{set_flags, set_address, parse_flags}
use phoebe.Paging.Map.Tests.{
  offset, machine, laws, top, level, prefix, frames, machine-IsMap, small_flags,
}
use phoebe.Paging.Ranges.{map_pages, unmap_pages}
use phoebe.Paging.Ranges.Loop.{Row, Stopped}
use phoebe.Paging.Ranges.Laws.{Empty, map_pages-Row, unmap_pages-Row}

-- The size is rounded up to pages.
map_pages-Row_example :
    Stopped frames offset laws top
      (Empty frames offset laws top)
      (map_pages frames offset false (top + offset) false 0x40_0000 0xb_8000 0x2001 3 machine)
    ⊎ Row frames offset laws top 0x40_0000
        (λ i old. set_flags (set_address 0 (0xb_8000 + i * page_size)) (parse_flags 3))
        machine
        0
        3
        (map_pages frames offset false (top + offset) false 0x40_0000 0xb_8000 0x2001 3 machine)
map_pages-Row_example =
    map_pages-Row frames offset laws top machine level prefix machine-IsMap false 0x40_0000 0x2001 3
      (omega arith) (omega arith) small_flags 0xb_8000 (omega arith) (omega arith)

unmap_pages-Row_example :
    Row frames offset laws top 0x40_0000
      (λ i old. 0)
      machine
      0
      3
      (unmap_pages frames offset false (top + offset) false 0x40_0000 0x3000 3 machine)
unmap_pages-Row_example =
    unmap_pages-Row frames offset laws top machine level prefix machine-IsMap false 0x40_0000 0x3000
      3 (omega arith) (omega arith) small_flags
