-- ===== src/Libc/Memcmp/Tests.antt =====
-- Forty bytes that are compared with those behind them, from addresses that are not aligned alike.
use phoebe.Base.{◌%◌, ◌≡◌, ◌==◌, if◌then◌else◌, arith}
use phoebe.Libc.Memory.{Memory}
use phoebe.Libc.Memory.Copied.{IsBytes}
use phoebe.Libc.Memcmp.{memcmp}
use phoebe.Libc.Memcmp.Compare.Laws.{differ}
use phoebe.Libc.Memcmp.Laws.{memcmp-differ}

-- The bytes repeat after 256, but for one of them.
abbrev repeating : Memory
repeating a = if a == 0x2123 then 7 else a % 256

repeating-IsBytes : IsBytes repeating
repeating-IsBytes a = ground arith

-- The byte that differs is 0x23 at the first address, and 7 at the second.
found_difference : memcmp repeating 0x2003 0x2103 40 ≡ 0x1c
unfolding differ
found_difference =
    memcmp-differ repeating repeating-IsBytes 0x2003 0x2103 40 (omega arith) (omega arith)

memcmp-differ_example : memcmp repeating 0x2003 0x2105 40 ≡ differ 40 repeating 0x2003 0x2105
memcmp-differ_example =
    memcmp-differ repeating repeating-IsBytes 0x2003 0x2105 40 (omega arith) (omega arith)
