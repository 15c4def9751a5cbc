-- ===== src/Libc/Memmove/Tests.antt =====
-- Forty bytes that are moved by three, into themselves.
use phoebe.Base.{◌%◌, arith}
use phoebe.Libc.Memory.{Memory}
use phoebe.Libc.Memory.Copied.{IsBytes}
use phoebe.Libc.Memcpy.Steps.{Copied}
use phoebe.Libc.Memmove.{memmove}
use phoebe.Libc.Memmove.Laws.{memmove-Copied}

abbrev counting : Memory
counting a = a % 256

counting-IsBytes : IsBytes counting
counting-IsBytes a = omega arith

memmove-Copied_example : Copied counting 0x1008 0x1005 40 (memmove counting 0x1008 0x1005 40)
memmove-Copied_example =
    memmove-Copied counting 0x1008 0x1005 40 counting-IsBytes (omega arith) (omega arith)
