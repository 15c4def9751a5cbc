-- ===== src/Paging/Store.antt =====
-- The allocator of `kernel/memory/physical.cpp` and the memory that it hands out, as what the page
-- tables of `kernel/arch/amd64/memory/paging.cpp` stand on.
use phoebe.Base.{
  ℕ, ◌+◌, ◌*◌, ◌/◌, ◌%◌, ◌^◌, ◌≤◌, ◌<◌, ◌≡◌, ◌≢◌, ◌⊎◌, inl, inr, ap, ◌∙◌, ◌==◌, ◌&&◌, if◌then◌else◌,
  true, false, u64, arith, dec_lt, Bool-cases, and_true, ==_iff, Stop, stop, ok,
}
use phoebe.Address.{page_size, to_higher_half}
use phoebe.Bitmap.Laws.{view}
use phoebe.Libc.Memory.{Memory, load_word, store_word}
use phoebe.Libc.Memory.Words.{
  store_bytes-apart, load_bytes-same, load_bytes-zero, load_bytes-store_bytes,
}
use phoebe.Libc.Memory.Region.{within}
use phoebe.Libc.Memset.Laws.{memset-Filled, padding}
use phoebe.Physical.{Physical, physical_allocate}
use phoebe.Physical.Laws.{
  IsValid, limit, physical_allocate_lem, allocated, allocated-IsValid, view-allocated,
  limit-allocated, page_pos,
}
use phoebe.Paging.Frames.{Frames, Laws, Allocated, slot, IsPage}

abbrev pub physical_frames : ℕ → Frames
physical_frames offset = record {
  State = Physical;
  allocate = physical_allocate offset 1;
  read = λ p a. u64 (load_word p.memory a);
  write = λ p a w. record p { memory = store_word p.memory a w };
}

pub memory-IsValid : (p : Physical) (m : Memory) → IsValid p → IsValid (record p { memory = m })
memory-IsValid p m v = record {
  bitmap = v.bitmap;
  covers = v.covers;
  addressable = v.addressable;
  index = v.index;
  null_used = v.null_used;
  free_counted = v.free_counted;
  all_counted = v.all_counted;
  few = v.few;
}

-- `pages` is the number of frames that the allocator scans.
module _ (offset pages : ℕ) (offset_page : offset % 4096 ≡ 0) (some_offset : 0 < offset)
    (below : pages * page_size ≤ offset) (fits : offset + pages * page_size < 2 ^ 64)
    (physical : pages * page_size ≤ 2 ^ 52) where
  abbrev Ready : Physical → Type 0
  Ready p = IsValid p × (limit p ≡ pages)

  abbrev Used : Physical → ℕ → Type 0
  Used p f = view p.bitmap (f / page_size) ≡ true

  -- A byte of another entry lies outside the one that is written.
  outside :
      (f i g j a : ℕ)
      → IsPage (pages * page_size) f
      → IsPage (pages * page_size) g
      → i < 512
      → j < 512
      → (f == g && i == j) ≡ false
      → slot offset g j ≤ a
      → a < slot offset g j + 8
      → (a < slot offset f i) ⊎ (slot offset f i + 8 ≤ a)
  outside f i g j a at_f at_g i_lt j_lt other lo hi =
      elim (dec_lt (slot offset g j) (slot offset f i)) [
        | yes less ↦ inl (omega (arith, less, at_f, at_g, offset_page, hi))
        | no more ↦ elim (dec_lt (slot offset f i) (slot offset g j)) [
          | yes less ↦ inr (omega (arith, less, at_f, at_g, offset_page, lo))
          | no equal ↦
              let same : f ≡ g = omega (arith, more, equal, at_f, at_g) in
              let index : i ≡ j = omega (arith, more, equal, same) in
              absurd (ground (arith, same, index, other))
        ]
      ]

  pub read-write :
      (p : Physical) (f i g j w : ℕ)
      → IsPage (pages * page_size) f
      → IsPage (pages * page_size) g
      → i < 512
      → j < 512
      → w < 2 ^ 64
      → u64 (load_word (store_word p.memory (slot offset f i) w) (slot offset g j))
        ≡ (if f == g && i == j then w else u64 (load_word p.memory (slot offset g j)))
  read-write p f i g j w at_f at_g i_lt j_lt w_lt = elim (Bool-cases (f == g && i == j)) [
    | inl test ↦
        let both = and_true _ _ test in
        let same_table : f ≡ g = (==_iff f g).0 both.0 in
        let same_entry : i ≡ j = (==_iff i j).0 both.1 in
        let loaded = load_bytes-store_bytes 8 p.memory (slot offset f i) w w_lt in
        let here : slot offset g j ≡ slot offset f i = omega (arith, same_table, same_entry) in
        rw (test, here) (omega (arith, loaded, w_lt))
    | inr test ↦ rw test (
        ap (λ (x : ℕ). u64 x)
          (load_bytes-same 8 p.memory (store_word p.memory (slot offset f i) w) (slot offset g j)
            (λ a lo hi.
              store_bytes-apart 8 p.memory (slot offset f i) w a
                (outside f i g j a at_f at_g i_lt j_lt test lo hi))))
  ]

  -- The new frame is cleared, and the memory around it is not touched.
  memory-allocated :
      (p : Physical) (page a : ℕ)
      → page + 1 ≤ pages
      → (allocated offset 1 page p).memory a ≡ (
          if within (page * page_size + offset) (page * page_size + offset + 4096) a
          then 0
          else p.memory a)
  unfolding allocated to_higher_half
  memory-allocated p page a h =
      let inside : page * page_size < offset = omega (arith, below) in
      let top : page * page_size + offset + 4096 < 2 ^ 64 + 4096 = omega (arith, fits) in
      let address : to_higher_half offset (page * page_size) ≡ page * page_size + offset =
        ground (arith, inside, top) in
      let aligned : padding (page * page_size + offset) ≡ 0 = omega (arith, offset_page) in
      let filled =
        memset-Filled p.memory (page * page_size + offset) 0 4096 (omega (arith, aligned, fits, h))
          a in
      rw address (rw aligned at filled)

  other_page :
      (page g i b : ℕ)
      → IsPage (pages * page_size) g
      → g ≢ page * page_size
      → i < 512
      → slot offset g i ≤ b
      → b < slot offset g i + 8
      → within (page * page_size + offset) (page * page_size + offset + 4096) b ≡ false
  other_page page g i b at_g other h lo hi = elim (dec_lt g (page * page_size)) [
    | yes less ↦
        let before : b < page * page_size + offset = omega (arith, less, at_g, hi, h) in
        ground (arith, before)
    | no more ↦ elim (dec_lt (page * page_size) g) [
      | yes less ↦
          let behind : page * page_size + offset + 4096 ≤ b = omega (arith, less, at_g, lo) in
          ground (arith, behind)
      | no equal ↦ absurd (other (omega (arith, more, equal)))
    ]
  ]

  pub allocate_lem :
      (p : Physical)
      → Ready p
      → ((e : Stop) × (physical_allocate offset 1 p ≡ stop e))
        ⊎ ((f : ℕ) × (p' : Physical) × (physical_allocate offset 1 p ≡ ok (f, p'))
            × Ready p'
            × Allocated (physical_frames offset) offset (pages * page_size) Used p f p')
  allocate_lem p (valid, scanned) = elim (physical_allocate_lem offset 1 p valid (omega arith)) [
    | inr none_left ↦ inl (Stop.panik, none_left.0)
    | inl a ↦
        let pos = page_pos offset 1 p valid (omega arith) a.page a.free in
        let taken : a.page + 1 ≤ pages = omega (arith, a.to, scanned) in
        let marks = view-allocated offset 1 a.page p valid a.to in
        let frame : a.page * page_size / page_size ≡ a.page = omega arith in
        inr (
          a.page * page_size,
          allocated offset 1 a.page p,
          a.result,
          (
            allocated-IsValid offset 1 a.page p valid pos a.to a.free,
            limit-allocated offset 1 a.page p ∙ scanned,
          ),
          record {
            page = omega (arith, a.to, scanned);
            pos = omega (arith, pos);
            fresh = λ used.
                let free = a.free a.page (omega arith) (omega arith) in cc (rw frame at used, free);
            used = rw frame (marks a.page ∙ ground arith);
            kept = λ g used. marks (g / page_size) ∙ ground (arith, used);
            zero = λ i h.
                let z =
                  load_bytes-zero 8 (allocated offset 1 a.page p).memory
                    (slot offset (a.page * page_size) i)
                    (λ b lo hi. memory-allocated p a.page b taken ∙ ground (arith, lo, hi, h)) in
                omega (arith, z);
            same = λ g i at_g other h.
                ap (λ (x : ℕ). u64 x)
                  (load_bytes-same 8 p.memory (allocated offset 1 a.page p).memory (slot offset g i)
                    (λ b lo hi.
                      memory-allocated p a.page b taken
                      ∙ rw (other_page a.page g i b at_g other h lo hi)));
          },
        )
  ]

  -- What the page tables ask for is what the allocator does.
  unfoldable pub physical_laws : Laws (physical_frames offset) offset
  physical_laws = record {
    Ready = Ready;
    Used = Used;
    limit = pages * page_size;
    offset_page = offset_page;
    some_offset = some_offset;
    limit-le-offset = below;
    fits = omega (arith, fits);
    physical = physical;
    read-lt = λ p a. omega arith;
    read-write = read-write;
    write-Ready = λ p f i w at_f ready. (memory-IsValid p _ ready.0, ready.1);
    write-Used = λ p f i w g used. used;
    allocate_lem = allocate_lem;
  }
