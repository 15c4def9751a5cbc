-- ===== src/Physical/Initialize.antt =====
-- `physical_initialize` of `kernel/memory/physical.cpp`: the allocator from the boot loader's map.
use phoebe.Base.{
  ℕ, zero, suc, ◌+◌, ◌-◌, ◌*◌, ◌/◌, ◌==◌, leb, u64, sub64, min, max, if◌then◌else◌, Bool, true,
  false, ◌&&◌, not, Result, ok, ◌>>=◌, ◌>>◌, assert, List, [], ◌∷◌, replicate,
}
use phoebe.Bitmap.{Bitmap, bitmap_free, set_bit}
use phoebe.Libc.Memory.{Memory}
use phoebe.Libc.Memset.{memset}
use phoebe.Address.{page_size, to_higher_half, align_up, div_roundup}
use phoebe.Physical.{PhysicalMemoryStats, Physical}

-- The types of `limine_memmap_entry` that the code tells apart.
pub data MemmapType : Type 0 where
  usable kernel_and_modules bootloader_reclaimable other : MemmapType

pub record MemmapEntry : Type 0 where
  pub base : ℕ
  pub length : ℕ
  pub type : MemmapType

abbrev pub is_usable : MemmapType → Bool
is_usable MemmapType.usable = true
is_usable _ = false

abbrev pub is_counted : MemmapType → Bool
is_counted MemmapType.other = false
is_counted _ = true

-- `phys_stats` as it is loaded: `= {}`.
abbrev pub no_stats : PhysicalMemoryStats
no_stats = record {
  highest_physical_addr = 0;
  lowest_usable_addr = 0;
  highest_usable_addr = 0;
  total_pages = 0;
  usable_pages = 0;
  used_pages = 0;
  free_pages = 0;
}

-- The body of the first loop: the `switch`, and the count behind it that `continue` skips.
unfoldable pub add_entry : PhysicalMemoryStats → MemmapEntry → PhysicalMemoryStats
add_entry s e =
    let limit = u64 (e.base + e.length) in
    let pages = e.length / page_size in
    let here = is_usable e.type in
    record {
      highest_physical_addr = max s.highest_physical_addr limit;
      lowest_usable_addr = if here then min s.lowest_usable_addr limit else s.lowest_usable_addr;
      highest_usable_addr = if here then max s.highest_usable_addr limit else s.highest_usable_addr;
      total_pages = if is_counted e.type then u64 (s.total_pages + pages) else s.total_pages;
      usable_pages = if here then u64 (s.usable_pages + pages) else s.usable_pages;
      used_pages = s.used_pages;
      free_pages = s.free_pages;
    }

unfoldable pub add_entries : PhysicalMemoryStats → List MemmapEntry → PhysicalMemoryStats
add_entries s [] = s
add_entries s (e ∷ memmaps) = add_entries (add_entry s e) memmaps

-- Bytes of the bitmap: the count of frames, rounded down to a multiple of 8 and up to a page.
unfoldable pub bitmap_size : PhysicalMemoryStats → ℕ
bitmap_size s = align_up (s.highest_usable_addr / page_size / 8) page_size

-- The bitmap, the map with the entry that holds it made smaller, the memory, and `used_pages`.
pub record Placed : Type 0 where
  pub bitmap : Bitmap
  pub memmaps : List MemmapEntry
  pub memory : Memory
  pub used_pages : ℕ

-- The second loop, up to its `break`. The buffer of the bitmap is the first `size` bytes that
-- `memset` writes; it is asked to write eight times as many.
unfoldable pub place_bitmap : ℕ → ℕ → List MemmapEntry → Memory → ℕ → Result Placed
place_bitmap offset size [] memory used = ok (record {
  bitmap = record { buffer = []; size = 0 };
  memmaps = [];
  memory = memory;
  used_pages = used;
})
place_bitmap offset size (e ∷ memmaps) memory used =
    let rest = place_bitmap offset size memmaps memory used in
    if is_usable e.type && leb size e.length
    then (do
      let buffer = to_higher_half offset e.base
      assert (not (buffer == 0) && not (u64 (size * 8) == 0))
      ok (record {
        bitmap = record { buffer = replicate size 0xff; size = u64 (size * 8) };
        memmaps = record e { base = u64 (e.base + size); length = e.length - size } ∷ memmaps;
        memory = memset memory buffer 0xff (u64 (size * 8));
        used_pages = u64 (used + div_roundup size page_size);
      }))
    else (do placed ← rest; ok (record placed { memmaps = e ∷ placed.memmaps }))

-- `for(j = 0; j < length; j += PAGE_SIZE)`, with the rounds left.
unfoldable pub free_frames : ℕ → ℕ → ℕ → Bitmap → Result Bitmap
free_frames zero base j b = ok b
free_frames (suc left) base j b = do
  b' ← set_bit b (u64 (base + j) / page_size) bitmap_free
  free_frames left base (j + page_size) b'

abbrev pub rounds : ℕ → ℕ
rounds length = (length + (page_size - 1)) / page_size

-- The third loop.
unfoldable pub free_entries : List MemmapEntry → Bitmap → Result Bitmap
free_entries [] b = ok b
free_entries (e ∷ memmaps) b =
    if is_usable e.type
    then (do b' ← free_frames (rounds e.length) e.base 0 b; free_entries memmaps b')
    else free_entries memmaps b

unfoldable pub physical_initialize : ℕ → List MemmapEntry → Memory → Result Physical
unfolding bitmap_size
physical_initialize offset memmaps memory = do
  let s = add_entries no_stats memmaps
  placed ← place_bitmap offset (bitmap_size s) memmaps memory s.used_pages
  b ← free_entries placed.memmaps placed.bitmap
  ok (record {
    stats = record s {
      lowest_usable_addr = if s.lowest_usable_addr == 0 then page_size else s.lowest_usable_addr;
      used_pages = placed.used_pages;
      free_pages = sub64 s.usable_pages placed.used_pages;
    };
    bitmap = b;
    bitmap_last_index = 0;
    memory = placed.memory;
  })
