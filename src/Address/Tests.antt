-- ===== src/Address/Tests.antt =====
-- The laws of alignment at an address in the second page.
use phoebe.Base.{◌+◌, ◌%◌, ◌≤◌, ◌<◌, ◌≡◌, arith}
use phoebe.Address.{page_size, align_up}
use phoebe.Address.Laws.{align_up_page}

align_up_page_example :
    (align_up 0x1001 page_size % page_size ≡ 0)
    × (0x1001 ≤ align_up 0x1001 page_size)
    × (align_up 0x1001 page_size < 0x1001 + page_size)
align_up_page_example = align_up_page 0x1001 (omega arith)
