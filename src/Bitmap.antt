-- ===== src/Bitmap.antt =====
-- `kernel/include/libs/bitmap.hpp`: an array of bits over a byte buffer. The buffer is the list
-- of its bytes; a read or write past its end is a `fault`.
pub mod Laws
pub mod Tests
use phoebe.Base.{
  ℕ, ◌-◌, ◌/◌, ◌%◌, ◌^◌, bit_and, bit_or, u8, ltb, ◌==◌, not, Bool, true, false, List, get_elem?,
  set, Option, none, some, Result, ok, stop, Stop, ◌>>=◌, ◌>>◌, assert,
}

pub record Bitmap : Type 0 where
  pub buffer : List ℕ  -- uint8_t*
  pub size : ℕ  -- in bits

-- `enum BitmapMark`, converted to `bool` by the assignments and comparisons of its users.
abbrev pub bitmap_free : Bool
bitmap_free = false

abbrev pub bitmap_used : Bool
bitmap_used = true

-- `1 << (index % 8)`
abbrev pub mask : ℕ → ℕ
mask index = 2 ^ (index % 8)

-- `buffer_[i]`
abbrev pub load : List ℕ → ℕ → Result ℕ
load buffer i = elim (get_elem? buffer i) [ none ↦ stop Stop.fault | some x ↦ ok x ]

unfoldable pub byte : Bitmap → ℕ → Result ℕ
byte b index = do assert (ltb index b.size); load b.buffer (index / 8)

-- A `uint8_t` and a mask is converted to `bool`.
unfoldable pub bit : Bitmap → ℕ → Result Bool
bit b index = do assert (ltb index b.size); x ← byte b index; ok (not (bit_and x (mask index) == 0))

-- What `set` writes over the byte `x`. The operand of `&=` is an `int`.
unfoldable pub marked : ℕ → ℕ → Bool → ℕ
marked x index true = u8 (bit_or x (mask index))
marked x index false = u8 (bit_and x (2 ^ 32 - 1 - mask index))

unfoldable pub set_bit : Bitmap → ℕ → Bool → Result Bitmap
set_bit b index val = do
  assert (ltb index b.size)
  x ← load b.buffer (index / 8)
  ok (record b { buffer = set b.buffer (index / 8) (marked x index val) })
