-- ===== src/Physical/Range.antt =====
-- Marking a range of frames, and counting the free ones.
use phoebe.Base.{
  ℕ, zero, suc, ◌+◌, ◌-◌, ◌≤◌, ◌<◌, ◌≡◌, refl, ◌∙◌, ltb, leb, if◌then◌else◌, Bool, true, false,
  ◌&&◌, arith, ok, min, dec_lt,
}
use phoebe.Bitmap.{Bitmap}
use phoebe.Bitmap.Laws.{IsValid, view, put, put-IsValid, size-put, view-put, set_bit-put}
use phoebe.Physical.{mark_range}

-- The frames from `lo` up to `lo + n` are free.
abbrev pub IsFree : Bitmap → ℕ → ℕ → Type 0
IsFree b lo n = (k : ℕ) → lo ≤ k → k < lo + n → view b k ≡ false

-- The bitmap that `mark_range` returns within the bounds.
unfoldable pub fill_range : ℕ → ℕ → Bool → Bitmap → Bitmap
fill_range zero j v b = b
fill_range (suc n) j v b = fill_range n (j + 1) v (put b j v)

pub size-fill_range : (n j : ℕ) (v : Bool) (b : Bitmap) → (fill_range n j v b).size ≡ b.size
unfolding fill_range
size-fill_range zero j v b = refl
size-fill_range (suc n) j v b = size-fill_range n (j + 1) v (put b j v) ∙ size-put b j v

pub fill_range-IsValid :
    (n j : ℕ) (v : Bool) (b : Bitmap) → IsValid b → IsValid (fill_range n j v b)
unfolding fill_range
fill_range-IsValid zero j v b valid = valid
fill_range-IsValid (suc n) j v b valid =
    fill_range-IsValid n (j + 1) v (put b j v) (put-IsValid b j v valid)

pub mark_range-fill_range :
    (n j : ℕ) (v : Bool) (b : Bitmap)
    → IsValid b
    → j + n ≤ b.size
    → mark_range n j v b ≡ ok (fill_range n j v b)
unfolding mark_range fill_range
mark_range-fill_range zero j v b valid h = refl
mark_range-fill_range (suc n) j v b valid h = rw (set_bit-put b j v valid (omega arith)) (
    mark_range-fill_range n (j + 1) v (put b j v) (put-IsValid b j v valid)
      (omega (arith, size-put b j v)))

pub view-fill_range :
    (n j : ℕ) (v : Bool) (b : Bitmap)
    → IsValid b
    → j + n ≤ b.size
    → (k : ℕ) → view (fill_range n j v b) k ≡ (if leb j k && ltb k (j + n) then v else view b k)
unfolding fill_range
view-fill_range zero j v b valid h k = ground arith
view-fill_range (suc n) j v b valid h k =
    view-fill_range n (j + 1) v (put b j v) (put-IsValid b j v valid)
      (omega (arith, size-put b j v)) k
    ∙ rw (view-put b j k v valid (omega arith)) (ground arith)

-- How many of the frames below `n` are free.
unfoldable pub free_below : (ℕ → Bool) → ℕ → ℕ
free_below used zero = 0
free_below used (suc n) = free_below used n + (if used n then 0 else 1)

abbrev pub in_range : ℕ → ℕ → ℕ → Bool
in_range lo n k = leb lo k && ltb k (lo + n)

-- Marking a free range takes its length off the count.
free_below_overlap :
    (f g : ℕ → Bool) (lo n : ℕ)
    → ((k : ℕ) → g k ≡ (if in_range lo n k then true else f k))
    → ((k : ℕ) → lo ≤ k → k < lo + n → f k ≡ false)
    → (m : ℕ) → free_below g m + (min m (lo + n) - min m lo) ≡ free_below f m
unfolding free_below
free_below_overlap f g lo n marked free zero = omega arith
free_below_overlap f g lo n marked free (suc m) =
    ground (arith, free_below_overlap f g lo n marked free m, marked m, free m)

pub free_below-mark :
    (f g : ℕ → Bool) (lo n m : ℕ)
    → ((k : ℕ) → g k ≡ (if in_range lo n k then true else f k))
    → ((k : ℕ) → lo ≤ k → k < lo + n → f k ≡ false)
    → lo + n ≤ m
    → free_below g m + n ≡ free_below f m
free_below-mark f g lo n m marked free h = omega (arith, free_below_overlap f g lo n marked free m)

pub free_below-le : (f : ℕ → Bool) (m : ℕ) → free_below f m ≤ m
unfolding free_below
free_below-le f zero = omega arith
free_below-le f (suc m) = ground (arith, free_below-le f m)

pub free_below-suc : (f : ℕ → Bool) (k m : ℕ) → k < m → f k ≡ false → 0 < free_below f m
unfolding free_below
free_below-suc f k zero h e = elim h [ ]
free_below-suc f k (suc m) h e = elim (dec_lt k m) [
  | yes below ↦ omega (arith, free_below-suc f k m below e)
  | no last ↦ let same : k ≡ m = omega arith in rw (← same, e) (omega arith)
]
