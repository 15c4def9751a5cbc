-- ===== src/Paging/Map/Tests.antt =====
-- A map that has no pages, over sixteen frames at the physical address 0, of which frame 1 is the table
-- of level 4.
use phoebe.Base.{
  ℕ, zero, suc, ◌+◌, ◌<◌, ◌≡◌, ◌≢◌, ◌⊎◌, refl, ◌==◌, ==_iff, Bool-cases, if◌then◌else◌, true, false,
  inl, inr, [], ◌∷◌, arith, get_or, ok, u64,
}
use phoebe.Address.{page_size}
use phoebe.Bitmap.Laws.{view}
use phoebe.Libc.Memory.{Memory, load_word}
use phoebe.Libc.Memory.Words.{load_bytes-zero}
use phoebe.Physical.{Physical}
use phoebe.Physical.Range.{free_below}
use phoebe.Physical.Laws.{IsValid}
use phoebe.Paging.{
  set_flags, set_address, get_address, parse_flags, flag_to_page_size, has, map_read,
}
use phoebe.Paging.Frames.{Frames, Laws, slot}
use phoebe.Paging.Store.{physical_frames, physical_laws}
use phoebe.Paging.Walk.{Status, map_page, unmap_page, setflags_page, virtual_to_physical}
use phoebe.Paging.Tree.{Child}
use phoebe.Paging.Tree.Descend.{Exhausted}
use phoebe.Paging.Map.{
  IsMap, Updates, entry_of, page_number, map_page-Updates, unmap_page-Updates,
  setflags_page-Updates,
}
use phoebe.Paging.Map.Translate.{map_page-virtual_to_physical}

abbrev pub offset : ℕ
offset = 0xffff_8000_0000_0000

abbrev zeros : Memory
zeros a = 0

abbrev pub machine : Physical
machine = record {
  stats = record {
    highest_physical_addr = 0x10000;
    lowest_usable_addr = 0x1000;
    highest_usable_addr = 0x10000;
    total_pages = 16;
    usable_pages = 15;
    used_pages = 1;
    free_pages = 14;
  };
  bitmap = record { buffer = 3 ∷ 0 ∷ []; size = 16 };
  bitmap_last_index = 1;
  memory = zeros;
}

machine_bytes : (i : ℕ) → get_or (3 ∷ 0 ∷ []) i 0 < 256
machine_bytes zero = omega arith
machine_bytes (suc zero) = omega arith
machine_bytes (suc (suc i)) = omega arith

machine-IsValid : IsValid machine
unfolding view free_below
machine-IsValid = record {
  bitmap = record { bytes = machine_bytes; fits = omega arith };
  covers = omega arith;
  addressable = omega arith;
  index = omega arith;
  null_used = refl;
  free_counted = refl;
  all_counted = refl;
  few = omega arith;
}

abbrev pub laws : Laws (physical_frames offset) offset
laws = physical_laws offset 16 refl (omega arith) (omega arith) (omega arith) (omega arith)

abbrev pub top : ℕ
top = 0x1000

abbrev pub level : ℕ → ℕ
level f = if f == top then 4 else 0

abbrev pub prefix : ℕ → ℕ
prefix f = 0

at_top : (f : ℕ) → 0 < level f → f ≡ top
at_top f h = elim (Bool-cases (f == top)) [
  | inl same ↦ (==_iff f top).0 same
  | inr other ↦ absurd (omega (arith, rw other at h))
]

blank_word : (a : ℕ) → u64 (load_word zeros a) ≡ 0
blank_word a = omega (arith, load_bytes-zero 8 zeros a (λ b lo hi. refl))

pub machine-IsMap : IsMap (physical_frames offset) offset laws top machine level prefix
unfolding view physical_laws
machine-IsMap = record {
  tree = record {
    ready = (machine-IsValid, refl);
    page = λ f h. rw (at_top f h) (refl, omega arith);
    pos = λ f h. rw (at_top f h) (omega arith);
    used = λ f h. rw (at_top f h) refl;
    zero = λ i h. blank_word (slot offset 0 i);
    child = λ l f i e h. Child.empty (blank_word (slot offset f i));
  };
  at_top = refl;
}

-- The flags 3 are those for reading and writing.
pub small_flags : flag_to_page_size 3 ≡ page_size
unfolding flag_to_page_size
small_flags = refl

for_reading : has 3 map_read ≡ true
for_reading = refl

abbrev pub frames : Frames
frames = physical_frames offset

map_page-Updates_example :
    Exhausted frames offset laws
      (map_page frames offset false (top + offset) false 0x40_0000 0xb_8000 3 machine)
    ⊎ Updates frames offset laws top machine 0x40_0000
        (set_flags (set_address 0 0xb_8000) (parse_flags 3))
        (map_page frames offset false (top + offset) false 0x40_0000 0xb_8000 3 machine)
map_page-Updates_example =
    map_page-Updates frames offset laws top machine level prefix machine-IsMap false 0x40_0000
      0xb_8000 3 (omega arith) (omega arith) small_flags

unmap_page-Updates_example :
    Updates frames offset laws top machine 0x40_0000 0
      (unmap_page frames offset false (top + offset) false 0x40_0000 3 machine)
unmap_page-Updates_example =
    unmap_page-Updates frames offset laws top machine level prefix machine-IsMap false 0x40_0000 3
      small_flags

setflags_page-Updates_example :
    Exhausted frames offset laws
      (setflags_page frames offset false (top + offset) 0x40_0000 3 machine)
    ⊎ Updates frames offset laws top machine 0x40_0000
        (set_flags
          (set_address 0 (get_address (entry_of frames offset laws top machine 0x40_0000)))
          (parse_flags 3))
        (setflags_page frames offset false (top + offset) 0x40_0000 3 machine)
setflags_page-Updates_example =
    setflags_page-Updates frames offset laws top machine level prefix machine-IsMap 0x40_0000 3
      (omega arith) small_flags

map_page-virtual_to_physical_example :
    Exhausted frames offset laws
      (map_page frames offset false (top + offset) false 0x40_0123 0xb_8000 3 machine)
    ⊎ ((s' : Physical) × (map_page frames offset false
            (top + offset)
            false
            0x40_0123
            0xb_8000
            3
            machine
          ≡ ok (Status.system_ok, s'))
        × (virtual_to_physical frames offset false (top + offset) 0x40_0123 3 s'
            ≡ ok (0xb_8123, s'))
        × ((v' : ℕ)
            → page_number v' ≢ 0x400
            → (p' : ℕ) × (virtual_to_physical frames offset false (top + offset) v' 3 machine
                ≡ ok (p', machine))
              × (virtual_to_physical frames offset false (top + offset) v' 3 s' ≡ ok (p', s'))))
map_page-virtual_to_physical_example =
    map_page-virtual_to_physical frames offset laws top machine level prefix machine-IsMap false
      0x40_0123 0xb_8000 3 refl (omega arith) (omega arith) small_flags for_reading
