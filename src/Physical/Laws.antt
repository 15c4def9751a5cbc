-- ===== src/Physical/Laws.antt =====
-- The allocator keeps its accounts, and hands out frames that were free.
use phoebe.Base.{
  ℕ, ◌+◌, ◌-◌, ◌*◌, ◌/◌, ◌^◌, ◌≤◌, ◌<◌, ◌≡◌, refl, ◌==◌, u64, sub64, if◌then◌else◌, true, false,
  ◌⊎◌, inl, inr, arith, ok, stop, Stop, Result, dec_lt,
}
use phoebe.Address.{page_size, to_higher_half}
use phoebe.Bitmap.{Bitmap}
use phoebe.Bitmap.Laws.{IsValid as IsValidBitmap, view}
use phoebe.Libc.Memset.{memset}
use phoebe.Physical.{
  Physical, Scanned, allocate_internal, allocate_again, physical_allocate, physical_free,
}
use phoebe.Physical.Range.{
  IsFree, fill_range, mark_range-fill_range, view-fill_range, size-fill_range, fill_range-IsValid,
  free_below, free_below-mark, in_range,
}
use phoebe.Physical.Scan.{Found, Exhausted, allocate_internal-Pass}

-- The number of frames that the allocator scans.
abbrev pub limit : Physical → ℕ
limit p = p.stats.highest_usable_addr / page_size

-- The bitmap covers the frames, the index stays below the limit, frame 0 is never free, and the
-- counts of free and used frames are those of the bitmap.
pub record IsValid (p : Physical) : Type 0 where
  pub bitmap : IsValidBitmap p.bitmap
  pub covers : limit p ≤ p.bitmap.size
  pub addressable : p.stats.highest_usable_addr < 2 ^ 64
  pub index : p.bitmap_last_index ≤ limit p
  pub null_used : view p.bitmap 0 ≡ true
  pub free_counted : p.stats.free_pages ≡ free_below (view p.bitmap) (limit p)
  pub all_counted : p.stats.used_pages + p.stats.free_pages ≡ p.stats.usable_pages
  pub few : p.stats.usable_pages < 2 ^ 64

-- The state after `count` frames from `page` were handed out.
unfoldable pub allocated : ℕ → ℕ → ℕ → Physical → Physical
allocated offset count page p = record {
  stats = record p.stats {
    used_pages = u64 (p.stats.used_pages + count);
    free_pages = sub64 p.stats.free_pages count;
  };
  bitmap = fill_range count page true p.bitmap;
  bitmap_last_index = page + count;
  memory = memset p.memory (to_higher_half offset (page * page_size)) 0 (u64 (count * page_size));
}

-- The call took `count` free frames in a row below the limit.
pub record Allocates (offset count : ℕ) (p : Physical) (r : Result (ℕ × Physical)) : Type 0 where
  pub page : ℕ
  pub to : page + count ≤ limit p
  pub free : IsFree p.bitmap page count
  pub result : r ≡ ok (page * page_size, allocated offset count page p)

-- No row of `count` free frames lies on one side of the index.
pub record NoRoom (count : ℕ) (p : Physical) : Type 0 where
  pub after :
      (page : ℕ)
      → p.bitmap_last_index ≤ page
      → page + count ≤ limit p
      → ¬ IsFree p.bitmap page count
  pub before : (page : ℕ) → page + count ≤ p.bitmap_last_index → ¬ IsFree p.bitmap page count

module _ (offset count : ℕ) (p : Physical) (valid : IsValid p) (pos : 0 < count) where
  pub page_pos : (page : ℕ) → IsFree p.bitmap page count → 0 < page
  page_pos page free = elim (dec_lt 0 page) [
    | yes h ↦ h
    | no h ↦ absurd (ground (arith, free 0, valid.null_used))
  ]

  address_lem :
      (page hi : ℕ) → page + count ≤ hi → hi ≤ limit p → u64 (page * page_size) ≡ page * page_size
  address_lem page hi h fits = omega (arith, valid.addressable)

  -- The address of a found frame is not `nullptr`.
  again-found :
      (page : ℕ) (s : Scanned)
      → page + count ≤ limit p
      → IsFree p.bitmap page count
      → s.ret ≡ u64 (page * page_size)
      → (s.ret == 0) ≡ false
  again-found page s h free e =
      ground (arith, page_pos page free, address_lem page (limit p) h (omega arith))

  abbrev first_pass : Result Scanned
  first_pass = allocate_internal (limit p) count p.bitmap_last_index p.bitmap

  abbrev second_pass : Result Scanned
  second_pass = allocate_internal p.bitmap_last_index count 0 p.bitmap

  by_first :
      (f : Found p.bitmap count p.bitmap_last_index (limit p) first_pass)
      → physical_allocate offset count p ≡ ok (f.page * page_size, allocated offset count f.page p)
  unfolding physical_allocate allocate_again allocated
  by_first f =
      let nonzero : (count == 0) ≡ false = ground arith in
      let ret : u64 (f.page * page_size) ≡ f.page * page_size =
        address_lem f.page (limit p) f.to (omega arith) in
      let nonnull : (f.page * page_size == 0) ≡ false = ground (arith, page_pos f.page f.free) in
      rw (nonzero, f.result, ret, nonnull)

  by_second :
      Exhausted p.bitmap count p.bitmap_last_index (limit p) first_pass
      → (f : Found p.bitmap count 0 p.bitmap_last_index second_pass)
      → physical_allocate offset count p ≡ ok (f.page * page_size, allocated offset count f.page p)
  unfolding physical_allocate allocate_again allocated
  by_second x f =
      let nonzero : (count == 0) ≡ false = ground arith in
      let ret : u64 (f.page * page_size) ≡ f.page * page_size =
        address_lem f.page p.bitmap_last_index f.to valid.index in
      let nonnull : (f.page * page_size == 0) ≡ false = ground (arith, page_pos f.page f.free) in
      rw (nonzero, x.result, f.result, ret, nonnull)

  by_neither :
      Exhausted p.bitmap count p.bitmap_last_index (limit p) first_pass
      → Exhausted p.bitmap count 0 p.bitmap_last_index second_pass
      → physical_allocate offset count p ≡ stop Stop.panik
  unfolding physical_allocate allocate_again
  by_neither x y =
      let nonzero : (count == 0) ≡ false = ground arith in rw (nonzero, x.result, y.result)

  -- A call for at least one frame either takes a row of free frames or stops the system, and the
  -- latter only if no such row lies on one side of the index.
  pub physical_allocate_lem :
      Allocates offset count p (physical_allocate offset count p)
      ⊎ ((physical_allocate offset count p ≡ stop Stop.panik) × NoRoom count p)
  physical_allocate_lem =
      elim (allocate_internal-Pass p.bitmap count valid.bitmap (limit p) p.bitmap_last_index pos
        valid.covers valid.index) [
          | inl f ↦ inl record { page = f.page; to = f.to; free = f.free; result = by_first f }
          | inr x ↦
              elim (allocate_internal-Pass p.bitmap count valid.bitmap p.bitmap_last_index 0 pos
                (omega (arith, valid.covers, valid.index)) (omega arith)) [
                  | inl f ↦ inl record {
                    page = f.page;
                    to = omega (arith, f.to, valid.index);
                    free = f.free;
                    result = by_second x f;
                  }
                  | inr y ↦ inr (
                    by_neither x y,
                    record {
                      after = x.none_free;
                      before = λ page h. y.none_free page (omega arith) h;
                    },
                  )
                ]
        ]

module _ (offset count page : ℕ) (p : Physical) (valid : IsValid p) where
  -- Handing out free frames keeps the accounts.
  pub allocated-IsValid :
      0 < page
      → page + count ≤ limit p
      → IsFree p.bitmap page count
      → IsValid (allocated offset count page p)
  unfolding allocated
  allocated-IsValid pos fits free = record {
    bitmap = fill_range-IsValid count page true p.bitmap valid.bitmap;
    covers = rw size-fill_range valid.covers;
    addressable = valid.addressable;
    index = fits;
    null_used = rw (marks 0) (ground (arith, valid.null_used));
    free_counted = omega (arith, taken, valid.free_counted, small);
    all_counted = omega (arith, taken, valid.free_counted, valid.all_counted, small, valid.few);
    few = valid.few;
  }
    where
      marks :
          (k : ℕ)
          → view (fill_range count page true p.bitmap) k
            ≡ (if in_range page count k then true else view p.bitmap k)
      marks = view-fill_range count page true p.bitmap valid.bitmap (omega (arith, valid.covers))

      taken :
          free_below (view (fill_range count page true p.bitmap)) (limit p) + count
          ≡ free_below (view p.bitmap) (limit p)
      taken = free_below-mark _ _ page count (limit p) marks free fits

      small : p.stats.free_pages < 2 ^ 64
      small = omega (arith, valid.all_counted, valid.few)

-- The highest usable address never changes.
pub limit-allocated :
    (offset count page : ℕ) (p : Physical) → limit (allocated offset count page p) ≡ limit p
unfolding allocated
limit-allocated offset count page p = refl

pub view-allocated :
    (offset count page : ℕ) (p : Physical)
    → IsValid p
    → page + count ≤ limit p
    → (k : ℕ)
    → view (allocated offset count page p).bitmap k
      ≡ (if in_range page count k then true else view p.bitmap k)
unfolding allocated
view-allocated offset count page p valid fits =
    view-fill_range count page true p.bitmap valid.bitmap (omega (arith, valid.covers))

-- The free frames that are handed out were counted as free: the sum does not wrap.
pub used_pages-allocated :
    (offset count page : ℕ) (p : Physical)
    → IsValid p
    → page + count ≤ limit p
    → IsFree p.bitmap page count
    → (allocated offset count page p).stats.used_pages ≡ p.stats.used_pages + count
unfolding allocated
used_pages-allocated offset count page p valid fits free = omega (
  arith,
  free_below-mark (view p.bitmap) (view (fill_range count page true p.bitmap)) page count (limit p)
      (view-fill_range count page true p.bitmap valid.bitmap (omega (arith, valid.covers))) free
      fits,
  valid.free_counted,
  valid.all_counted,
  valid.few,
)

-- The state after the frames were given back.
unfoldable pub freed : ℕ → ℕ → Physical → Physical
freed count page p = record p {
  stats = record p.stats {
    used_pages = sub64 p.stats.used_pages count;
    free_pages = u64 (p.stats.free_pages + count);
  };
  bitmap = fill_range count page false p.bitmap;
}

pub limit-freed : (count page : ℕ) (p : Physical) → limit (freed count page p) ≡ limit p
unfolding freed
limit-freed count page p = refl

pub used_pages-freed :
    (count page : ℕ) (p : Physical)
    → (freed count page p).stats.used_pages ≡ sub64 p.stats.used_pages count
unfolding freed
used_pages-freed count page p = refl

-- The frames from `lo` up to `lo + n` are in use.
abbrev pub IsUsed : Bitmap → ℕ → ℕ → Type 0
IsUsed b lo n = (k : ℕ) → lo ≤ k → k < lo + n → view b k ≡ true

module _ (count page : ℕ) (p : Physical) (valid : IsValid p) (pos : 0 < page)
    (fits : page + count ≤ limit p) where
  pub physical_free-freed : physical_free (page * page_size) count p ≡ ok (freed count page p)
  unfolding physical_free freed
  physical_free-freed =
      let nonnull : (page * page_size == 0) ≡ false = ground arith in
      let first : page * page_size / page_size ≡ page = omega arith in
      let rounds : u64 (page + count) - page ≡ count = omega (arith, valid.addressable) in
      rw (
        nonnull,
        first,
        rounds,
        mark_range-fill_range count page false p.bitmap valid.bitmap (omega (arith, valid.covers)),
      )

  pub view-freed :
      (k : ℕ)
      → view (freed count page p).bitmap k
        ≡ (if in_range page count k then false else view p.bitmap k)
  unfolding freed
  view-freed = view-fill_range count page false p.bitmap valid.bitmap (omega (arith, valid.covers))

  -- Giving back frames that are in use keeps the accounts.
  pub freed-IsValid :
      IsUsed p.bitmap page count → count ≤ p.stats.used_pages → IsValid (freed count page p)
  unfolding freed
  freed-IsValid used enough = record {
    bitmap = fill_range-IsValid count page false p.bitmap valid.bitmap;
    covers = rw size-fill_range valid.covers;
    addressable = valid.addressable;
    index = valid.index;
    null_used = rw (clears 0) (ground (arith, valid.null_used));
    free_counted = omega (arith, given, valid.free_counted, valid.all_counted, valid.few, enough);
    all_counted = omega (arith, given, valid.free_counted, valid.all_counted, valid.few, enough);
    few = valid.few;
  }
    where
      clears :
          (k : ℕ)
          → view (fill_range count page false p.bitmap) k
            ≡ (if in_range page count k then false else view p.bitmap k)
      clears = view-fill_range count page false p.bitmap valid.bitmap (omega (arith, valid.covers))

      given :
          free_below (view p.bitmap) (limit p) + count
          ≡ free_below (view (fill_range count page false p.bitmap)) (limit p)
      given =
          free_below-mark (view (fill_range count page false p.bitmap)) (view p.bitmap) page count
            (limit p) (λ k. ground (arith, clears k, used k)) (λ k l h. ground (arith, clears k))
            fits
