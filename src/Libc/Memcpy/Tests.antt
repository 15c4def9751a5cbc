-- ===== src/Libc/Memcpy/Tests.antt =====
-- Forty bytes that are copied from an address behind the start of a word, to one before it.
use phoebe.Base.{◌%◌, ◌≡◌, inl, arith}
use phoebe.Libc.Memory.{Memory}
use phoebe.Libc.Memory.Copied.{IsBytes}
use phoebe.Libc.Memcpy.{memcpy}
use phoebe.Libc.Memcpy.Steps.{Copied}
use phoebe.Libc.Memcpy.Laws.{memcpy-Copied}

abbrev counting : Memory
counting a = a % 256

counting-IsBytes : IsBytes counting
counting-IsBytes a = omega arith

-- A byte of a word that is merged.
merged_byte : memcpy counting 0x1005 0x2003 40 0x1010 ≡ 0x0e
merged_byte =
    memcpy-Copied counting 0x1005 0x2003 40 counting-IsBytes (omega arith) (omega arith)
      (inl (omega arith)) 0x1010

memcpy-Copied_example : Copied counting 0x1005 0x2003 40 (memcpy counting 0x1005 0x2003 40)
memcpy-Copied_example =
    memcpy-Copied counting 0x1005 0x2003 40 counting-IsBytes (omega arith) (omega arith)
      (inl (omega arith))
