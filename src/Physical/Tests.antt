-- ===== src/Physical/Tests.antt =====
-- The allocator over sixteen frames, of which frame 0 is not usable.
use phoebe.Base.{ℕ, zero, suc, ◌<◌, ◌≡◌, refl, [], ◌∷◌, ok, stop, Stop, arith, get_or, ◌⊎◌}
use phoebe.Address.{to_higher_half}
use phoebe.Bitmap.{bit, byte, set_bit, marked}
use phoebe.Bitmap.Laws.{view, put}
use phoebe.Libc.Memory.{Memory}
use phoebe.Physical.{
  Physical, physical_allocate, scan, take_run, mark_range, allocate_internal, allocate_again,
}
use phoebe.Physical.Range.{free_below, fill_range}
use phoebe.Physical.Laws.{IsValid, Allocates, NoRoom, physical_allocate_lem, allocated}
use phoebe.Physical.Session.{Session, allocate, Reach, start, later, IsSound, total}
use phoebe.Physical.Session.Laws.{Reach-IsSound}

abbrev blank : Memory
blank a = 7

abbrev sixteen : Physical
sixteen = record {
  stats = record {
    highest_physical_addr = 0x20000;
    lowest_usable_addr = 0x1000;
    highest_usable_addr = 0x10000;
    total_pages = 20;
    usable_pages = 15;
    used_pages = 0;
    free_pages = 15;
  };
  bitmap = record { buffer = 1 ∷ 0 ∷ []; size = 16 };
  bitmap_last_index = 14;
  memory = blank;
}

sixteen_bytes : (i : ℕ) → get_or (1 ∷ 0 ∷ []) i 0 < 256
sixteen_bytes zero = omega arith
sixteen_bytes (suc zero) = omega arith
sixteen_bytes (suc (suc i)) = omega arith

sixteen-IsValid : IsValid sixteen
unfolding view free_below
sixteen-IsValid = record {
  bitmap = record { bytes = sixteen_bytes; fits = omega arith };
  covers = omega arith;
  addressable = omega arith;
  index = omega arith;
  null_used = refl;
  free_counted = refl;
  all_counted = refl;
  few = omega arith;
}

-- Thirteen frames do not fit behind the index: the second pass starts from the bottom.
wraps_around :
    (p' : Physical) × (physical_allocate 0 13 sixteen ≡ ok (0x1000, p'))
    × (p'.bitmap.buffer ≡ 0xff ∷ 0x3f ∷ [])
unfolding physical_allocate allocate_again allocate_internal scan take_run mark_range bit byte
    set_bit marked to_higher_half
wraps_around = (_, refl, refl)

-- Frames 1 to 14 are free, but the row passes the index: the second pass stops there.
out_of_memory : physical_allocate 0 14 sixteen ≡ stop Stop.panik
unfolding physical_allocate allocate_again allocate_internal scan take_run mark_range bit byte
    set_bit marked to_higher_half
out_of_memory = refl

physical_allocate_lem_example :
    Allocates 0 3 sixteen (physical_allocate 0 3 sixteen)
    ⊎ ((physical_allocate 0 3 sixteen ≡ stop Stop.panik) × NoRoom 3 sixteen)
physical_allocate_lem_example = physical_allocate_lem 0 3 sixteen sixteen-IsValid (omega arith)

abbrev empty : Session
empty = record { state = sixteen; held = [] }

empty-IsSound : IsSound empty
unfolding total
empty-IsSound = record { valid = sixteen-IsValid; held = tt; counted = omega arith }

abbrev one_block : Session
one_block = record {
  state = allocated 0 2 14 sixteen;
  held = record { ptr = 0xe000; count = 2 } ∷ [];
}

-- Two frames are allocated from the empty session.
one_block-Reach : Reach 0 empty one_block
unfolding physical_allocate allocate_again allocate_internal scan take_run mark_range bit byte
    set_bit marked to_higher_half allocated fill_range put
one_block-Reach = later start (allocate 2 _ (omega arith) refl)

Reach-IsSound_example : IsSound one_block
Reach-IsSound_example = Reach-IsSound one_block-Reach empty-IsSound
