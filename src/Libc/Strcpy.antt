-- ===== src/Libc/Strcpy.antt =====
-- `libc/string/strcpy.c` and `libc/string/strcat.c`.
pub mod Holds
pub mod Laws
pub mod Copies
pub mod Tests
use phoebe.Base.{
  ℕ, zero, suc, ◌+◌, ◌-◌, ◌^◌, ◌==◌, true, false, ltb, u64, if◌then◌else◌, List, [], ◌∷◌,
}
use phoebe.Libc.Memory.{Memory, store}
use phoebe.Libc.Cstring.{strlen, strnlen}
use phoebe.Libc.Memcpy.{memcpy}
use phoebe.Libc.Memset.{memset}

-- The bytes from an address to the NUL behind them, as `strlen` and `strnlen` read them, with the
-- bytes left in the address space.
unfoldable pub text_at : ℕ → Memory → ℕ → List ℕ
text_at zero m s = []
text_at (suc left) m s = elim (m s == 0) [ true ↦ [] | false ↦ m s ∷ text_at left m (s + 1) ]

abbrev pub text_of : Memory → ℕ → List ℕ
text_of m s = text_at (2 ^ 64 - s) m s

-- The memory after the call; the result of each is `dest`.
unfoldable pub strcpy : Memory → ℕ → ℕ → Memory
strcpy m dest src = let length = strlen (text_of m src) in memcpy m dest src (u64 (length + 1))

unfoldable pub strncpy : Memory → ℕ → ℕ → ℕ → Memory
strncpy m dest src count =
    let src_len = strnlen (text_of m src) count in
    if ltb src_len count
    then memset (memcpy m dest src src_len) (u64 (dest + src_len)) 0 (count - src_len)
    else memcpy m dest src count

unfoldable pub strcat : Memory → ℕ → ℕ → Memory
strcat m dest src =
    let dest_len = strlen (text_of m dest) in
    let src_len = strlen (text_of m src) in
    store (memcpy m (u64 (dest + dest_len)) src src_len) (u64 (dest + dest_len + src_len)) 0

unfoldable pub strncat : Memory → ℕ → ℕ → ℕ → Memory
strncat m dest src count =
    let dest_len = strlen (text_of m dest) in
    let src_len = strnlen (text_of m src) count in
    let copy_len = if ltb src_len count then src_len else count in
    store (memcpy m (u64 (dest + dest_len)) src copy_len) (u64 (dest + dest_len + copy_len)) 0
