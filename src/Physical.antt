-- ===== src/Physical.antt =====
-- `kernel/memory/physical.cpp`: the frame allocator, a bitmap with a moving index. A pointer is
-- its address, and 0 is `nullptr`. The lock that both entry points hold is not part of the state.
pub mod Range
pub mod Scan
pub mod Laws
pub mod Session
pub mod Initialize
pub mod Tests
use phoebe.Base.{
  ℕ, zero, suc, ◌+◌, ◌-◌, ◌*◌, ◌/◌, ◌==◌, u64, sub64, if◌then◌else◌, Bool, true, false, Result, ok,
  stop, Stop, ◌>>=◌,
}
use phoebe.Bitmap.{Bitmap, bitmap_free, bitmap_used, bit, set_bit}
use phoebe.Libc.Memory.{Memory}
use phoebe.Libc.Memset.{memset}
use phoebe.Address.{page_size, to_higher_half}

pub record PhysicalMemoryStats : Type 0 where
  pub highest_physical_addr : ℕ
  pub lowest_usable_addr : ℕ
  pub highest_usable_addr : ℕ
  pub total_pages : ℕ
  pub usable_pages : ℕ
  pub used_pages : ℕ
  pub free_pages : ℕ

-- The globals of the file, and the memory that the kernel writes to.
pub record Physical : Type 0 where
  pub stats : PhysicalMemoryStats
  pub bitmap : Bitmap
  pub bitmap_last_index : ℕ
  pub memory : Memory

-- `for(j = first; j < end; j++) phys_bitmap[j] = val`, with the rounds left.
unfoldable pub mark_range : ℕ → ℕ → Bool → Bitmap → Result Bitmap
mark_range zero j val b = ok b
mark_range (suc left) j val b = do b' ← set_bit b j val; mark_range left (j + 1) val b'

-- What `allocate_internal` leaves in the globals, and its result.
pub record Scanned : Type 0 where
  pub bitmap : Bitmap
  pub last : ℕ
  pub ret : ℕ

-- The `count` frames below `last` are marked, and the address of the first is the result.
unfoldable pub take_run : ℕ → ℕ → Bitmap → Result Scanned
take_run count last b = do
  let page = last - count
  b' ← mark_range (last - page) page bitmap_used b
  ok (record { bitmap = b'; last = last; ret = u64 (page * page_size) })

-- The `while` of `allocate_internal`: `left` is `limit - last`, so that the test fails at 0, and
-- `i` counts the free frames just below `last`. The index is below `limit`: `++` does not wrap.
unfoldable pub scan : ℕ → ℕ → ℕ → ℕ → Bitmap → Result Scanned
scan zero count last i b = ok (record { bitmap = b; last = last; ret = 0 })
scan (suc left) count last i b = do
  mark ← bit b last
  let restart = scan left count (last + 1) 0 b
  let next = scan left count (last + 1) (i + 1) b
  if mark then restart else if i + 1 == count then take_run count (last + 1) b else next

unfoldable pub allocate_internal : ℕ → ℕ → ℕ → Bitmap → Result Scanned
allocate_internal limit count last b = scan (limit - last) count last 0 b

-- The second pass, from the start of the bitmap.
unfoldable pub allocate_again : ℕ → ℕ → Scanned → Result Scanned
allocate_again index count first =
    if first.ret == 0
    then (do
      second ← allocate_internal index count 0 first.bitmap
      if second.ret == 0 then stop Stop.panik else ok second)
    else ok first

-- `offset` is that of the higher half.
unfoldable pub physical_allocate : ℕ → ℕ → Physical → Result (ℕ × Physical)
physical_allocate offset count p = if count == 0 then ok (0, p) else do
  let index = p.bitmap_last_index
  let limit = p.stats.highest_usable_addr / page_size
  first ← allocate_internal limit count index p.bitmap
  found ← allocate_again index count first
  ok (
    found.ret,
    record {
      stats = record p.stats {
        used_pages = u64 (p.stats.used_pages + count);
        free_pages = sub64 p.stats.free_pages count;
      };
      bitmap = found.bitmap;
      bitmap_last_index = found.last;
      memory = memset p.memory (to_higher_half offset found.ret) 0 (u64 (count * page_size));
    },
  )

unfoldable pub physical_free : ℕ → ℕ → Physical → Result Physical
physical_free ptr count p = if ptr == 0 then ok p else do
  let page = ptr / page_size
  b ← mark_range (u64 (page + count) - page) page bitmap_free p.bitmap
  ok (record p {
    stats = record p.stats {
      used_pages = sub64 p.stats.used_pages count;
      free_pages = u64 (p.stats.free_pages + count);
    };
    bitmap = b;
  })
