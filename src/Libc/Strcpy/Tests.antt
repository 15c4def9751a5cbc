-- ===== src/Libc/Strcpy/Tests.antt =====
-- The text `hi` that is appended to `ab`.
use phoebe.Base.{◌==◌, if◌then◌else◌, [], ◌∷◌, refl, inl, inr, ◌≡◌, arith}
use phoebe.Libc.Memory.{Memory}
use phoebe.Libc.Memory.Copied.{IsBytes}
use phoebe.Libc.Strcpy.{strcat, strncat, strncpy}
use phoebe.Libc.Strcpy.Copies.{padded, strncpy-padded}
use phoebe.Libc.Strcpy.Holds.{Holds, ends, next}
use phoebe.Libc.Strcpy.Laws.{strcat-append}

abbrev texts : Memory
texts x =
    if x == 0x1000
    then b'a'
    else if x == 0x1001
    then b'b'
    else if x == 0x2000
    then b'h'
    else if x == 0x2001
    then b'i'
    else 0

texts-IsBytes : IsBytes texts
texts-IsBytes x = ground arith

ab-Holds : Holds texts 0x1000 (b'a' ∷ b'b' ∷ [])
ab-Holds = next refl (omega arith) (next refl (omega arith) (ends refl))

hi-Holds : Holds texts 0x2000 (b'h' ∷ b'i' ∷ [])
hi-Holds = next refl (omega arith) (next refl (omega arith) (ends refl))

strcat-append_example :
    Holds (strcat texts 0x1000 0x2000) 0x1000 (b'a' ∷ b'b' ∷ b'h' ∷ b'i' ∷ [])
    × Holds (strncat texts 0x1000 0x2000 1) 0x1000 (b'a' ∷ b'b' ∷ b'h' ∷ [])
strcat-append_example =
    strcat-append texts texts-IsBytes 0x1000 0x2000 (b'a' ∷ b'b' ∷ []) (b'h' ∷ b'i' ∷ []) ab-Holds
      hi-Holds (omega arith) (omega arith) (inl (omega arith)) 1 (omega arith)

-- With a byte behind the twelve that are asked for.
abbrev texts_behind : Memory
texts_behind x = if x == 0x300d then 7 else texts x

texts_behind-IsBytes : IsBytes texts_behind
texts_behind-IsBytes x = ground arith

behind-Holds : Holds texts_behind 0x2000 (b'h' ∷ b'i' ∷ [])
behind-Holds = next refl (omega arith) (next refl (omega arith) (ends refl))

-- The byte behind the twelve that are asked for is overwritten, since their address is not a multiple of
-- eight.
strncpy-padded_example :
    strncpy texts_behind 0x3001 0x2000 12 0x300d
    ≡ padded texts_behind texts_behind-IsBytes 0x3001 0x2000
        (b'h' ∷ b'i' ∷ [])
        behind-Holds
        12
        0x300d
strncpy-padded_example =
    strncpy-padded texts_behind texts_behind-IsBytes 0x3001 0x2000 (b'h' ∷ b'i' ∷ []) behind-Holds
      12 (omega arith) (omega arith) (inr (omega arith)) 0x300d

strncpy_over : strncpy texts_behind 0x3001 0x2000 12 0x300d ≡ 0
strncpy_over =
    strncpy-padded texts_behind texts_behind-IsBytes 0x3001 0x2000 (b'h' ∷ b'i' ∷ []) behind-Holds
      12 (omega arith) (omega arith) (inr (omega arith)) 0x300d
