-- ===== src/Libc/Memset/Tests.antt =====
-- Runs of `memset`, and its theorem at an address that is short of a multiple of eight by five.
use phoebe.Base.{arith}
use phoebe.Libc.Memory.{Memory}
use phoebe.Libc.Memory.Region.{Filled}
use phoebe.Libc.Memset.{memset}
use phoebe.Libc.Memset.Laws.{memset-Filled}

abbrev ones : Memory
ones a = 1

memset-Filled_example : Filled ones 0 3 28 (memset ones 3 256 20)
memset-Filled_example = memset-Filled ones 3 256 20 (omega arith)
