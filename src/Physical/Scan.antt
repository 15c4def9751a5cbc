-- ===== src/Physical/Scan.antt =====
-- What one pass of `allocate_internal` finds.
use phoebe.Base.{
  ℕ, zero, suc, ◌+◌, ◌-◌, ◌*◌, ◌≤◌, ◌<◌, ◌≡◌, subst, ◌==◌, u64, true, false, ◌⊎◌, inl, inr, arith,
  ok, Result, Bool-cases, ==_iff, dec_lt, ℕ_discrete,
}
use phoebe.Address.{page_size}
use phoebe.Bitmap.{Bitmap}
use phoebe.Bitmap.Laws.{IsValid, view, bit-view}
use phoebe.Physical.{Scanned, take_run, scan, allocate_internal}
use phoebe.Physical.Range.{IsFree, fill_range, mark_range-fill_range}

-- The pass from `lo` up to `hi` took `count` free frames in a row and marked them.
pub record Found (b : Bitmap) (count lo hi : ℕ) (r : Result Scanned) : Type 0 where
  pub page : ℕ
  pub from : lo ≤ page
  pub to : page + count ≤ hi
  pub free : IsFree b page count
  pub result :
      r
      ≡ ok (record {
        bitmap = fill_range count page true b;
        last = page + count;
        ret = u64 (page * page_size);
      })

-- There is no such row, and nothing changed but the index.
pub record Exhausted (b : Bitmap) (count lo hi : ℕ) (r : Result Scanned) : Type 0 where
  pub none_free : (page : ℕ) → lo ≤ page → page + count ≤ hi → ¬ IsFree b page count
  pub result : r ≡ ok (record { bitmap = b; last = hi; ret = 0 })

abbrev pub Pass : Bitmap → ℕ → ℕ → ℕ → Result Scanned → Type 0
Pass b count lo hi r = Found b count lo hi r ⊎ Exhausted b count lo hi r

module _ (b : Bitmap) (count : ℕ) (valid : IsValid b) where
  -- A used frame ends every row that reaches it.
  Pass-skip :
      (lo i last hi : ℕ) (r : Result Scanned)
      → lo + i ≡ last
      → i < count
      → view b last ≡ true
      → Pass b count (last + 1) hi r
      → Pass b count lo hi r
  Pass-skip lo i last hi r e h used (inl f) = inl record {
    page = f.page;
    from = omega (arith, f.from);
    to = f.to;
    free = f.free;
    result = f.result;
  }
  Pass-skip lo i last hi r e h used (inr x) = inr record {
    none_free = λ page p q free. elim (dec_lt last page) [
      | yes later ↦ x.none_free page (omega arith) q free
      | no before ↦ ground (arith, free last (omega arith) (omega arith))
    ];
    result = x.result;
  }

  IsFree-suc :
      (lo i last : ℕ) → lo + i ≡ last → IsFree b lo i → view b last ≡ false → IsFree b lo (i + 1)
  IsFree-suc lo i last e free new k p q = elim (ℕ_discrete k last) [
    | yes same ↦ rw same new
    | no other ↦ free k p (omega arith)
  ]

  scan-used :
      (left i last : ℕ)
      → last < b.size
      → view b last ≡ true
      → scan (suc left) count last i b ≡ scan left count (last + 1) 0 b
  unfolding scan
  scan-used left i last h used = rw (bit-view b last valid h, used)

  scan-free :
      (left i last : ℕ)
      → last < b.size
      → view b last ≡ false
      → (i + 1 == count) ≡ false
      → scan (suc left) count last i b ≡ scan left count (last + 1) (i + 1) b
  unfolding scan
  scan-free left i last h free short = rw (bit-view b last valid h, free, short)

  scan_hit :
      (left lo i last : ℕ)
      → lo + i ≡ last
      → last < b.size
      → view b last ≡ false
      → i + 1 ≡ count
      → scan (suc left) count last i b
        ≡ ok (record {
          bitmap = fill_range count lo true b;
          last = lo + count;
          ret = u64 (lo * page_size);
        })
  unfolding scan take_run
  scan_hit left lo i last e h free full =
      let page : last + 1 - count ≡ lo = omega arith in
      let next : lo + count ≡ last + 1 = omega arith in
      let rounds : last + 1 - lo ≡ count = omega arith in
      rw (
        bit-view b last valid h,
        free,
        (==_iff (i + 1) count).1 full,
        page,
        rounds,
        next,
        mark_range-fill_range count lo true b valid (omega arith),
      )

  scan-Pass :
      (left lo i last hi : ℕ)
      → last + left ≡ hi
      → lo + i ≡ last
      → i < count
      → hi ≤ b.size
      → IsFree b lo i
      → Pass b count lo hi (scan left count last i b)
  scan-Pass zero lo i last hi end e h fits free = inr record {
    none_free = λ page p q _. absurd (omega arith);
    result = let z : hi ≡ last = omega arith in unfold scan in rw z;
  }
  scan-Pass (suc left) lo i last hi end e h fits free = elim (Bool-cases (view b last)) [
    | inl used ↦ rw (scan-used left i last (omega arith) used) (
        Pass-skip lo i last hi _ e h used (
          scan-Pass left (last + 1) 0 (last + 1) hi (omega arith) (omega arith) (omega arith) fits
            (λ k p q. absurd (omega arith))))
    | inr new ↦ elim (Bool-cases (i + 1 == count)) [
      | inl full ↦
          let full' : i + 1 ≡ count = (==_iff (i + 1) count).0 full in
          inl record {
            page = lo;
            from = omega arith;
            to = omega arith;
            free = subst (IsFree b lo) full' (IsFree-suc lo i last e free new);
            result = scan_hit left lo i last e (omega arith) new full';
          }
      | inr short ↦ rw (scan-free left i last (omega arith) new short) (
          scan-Pass left lo (i + 1) (last + 1) hi (omega arith) (omega arith) (ground arith) fits
            (IsFree-suc lo i last e free new))
    ]
  ]

  -- A pass below `limit`, from `last` or from the limit if that is less.
  pub allocate_internal-Pass :
      (limit last : ℕ)
      → 0 < count
      → limit ≤ b.size
      → last ≤ limit
      → Pass b count last limit (allocate_internal limit count last b)
  unfolding allocate_internal
  allocate_internal-Pass limit last pos fits h =
      scan-Pass (limit - last) last 0 last limit (omega arith) (omega arith) pos fits
        (λ k p q. absurd (omega arith))
