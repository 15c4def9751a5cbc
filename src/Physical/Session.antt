-- ===== src/Physical/Session.antt =====
-- The allocator with its callers: any sequence of allocations, and of releases of what is held.
pub mod Laws
use phoebe.Base.{
  ℕ, zero, suc, ◌+◌, ◌-◌, ◌*◌, ◌/◌, ◌%◌, ◌^◌, ◌≤◌, ◌<◌, ◌≡◌, refl, ap, sym, ◌∙◌, subst, ◌==◌, leb,
  ltb, if◌then◌else◌, Bool, true, false, ◌&&◌, ◌⊎◌, inl, inr, arith, ok, stop, Stop, Result, List,
  [], ◌∷◌, dec_lt, max,
}
use phoebe.Address.{page_size}
use phoebe.Bitmap.{Bitmap}
use phoebe.Bitmap.Laws.{view}
use phoebe.Physical.{Physical, physical_allocate, physical_free}
use phoebe.Physical.Range.{IsFree, view-fill_range, in_range}
use phoebe.Physical.Laws.{
  IsValid, IsUsed, limit, allocated, freed, Allocates, NoRoom, physical_allocate_lem,
  allocated-IsValid, physical_free-freed, view-freed, freed-IsValid,
}

-- A block in the hands of a caller: the address it was given, and the number of frames.
pub record Block : Type 0 where
  pub ptr : ℕ
  pub count : ℕ

-- `zs` is `xs` without one entry `x`.
pub data Remove (x : Block) : List Block → List Block → Type 0 where
  here : {xs : List Block} → Remove x (x ∷ xs) xs
  there : {y : Block} {xs zs : List Block} → Remove x xs zs → Remove x (y ∷ xs) (y ∷ zs)

pub record Session : Type 0 where
  pub state : Physical
  pub held : List Block

pub data Step (offset : ℕ) (s : Session) : Session → Type 0 where
  allocate :
      (count : ℕ) (r : ℕ × Physical)
      → 0 < count
      → physical_allocate offset count s.state ≡ ok r
      → Step offset s (record { state = r.1; held = record { ptr = r.0; count = count } ∷ s.held })
  release :
      (b : Block) (rest : List Block) (p' : Physical)
      → Remove b s.held rest
      → physical_free b.ptr b.count s.state ≡ ok p'
      → Step offset s (record { state = p'; held = rest })

pub data Reach (offset : ℕ) (s : Session) : Session → Type 0 where
  start : Reach offset s s
  later : {t u : Session} → Reach offset s t → Step offset t u → Reach offset s u

-- The block is a row of frames that are in use.
pub record IsHeld (p : Physical) (b : Block) : Type 0 where
  pub page : ℕ
  pub address : b.ptr ≡ page * page_size
  pub pos : 0 < page
  pub some_frames : 0 < b.count
  pub fits : page + b.count ≤ limit p
  pub used : IsUsed p.bitmap page b.count

-- No byte lies in both blocks.
abbrev pub Apart : Block → Block → Type 0
Apart a b = (a.ptr + a.count * page_size ≤ b.ptr) ⊎ (b.ptr + b.count * page_size ≤ a.ptr)

abbrev pub AllApart : Block → List Block → Type 0
AllApart b [] = Unit {0}
AllApart b (c ∷ held) = Apart b c × AllApart b held

-- Every block is in use, and no two overlap.
abbrev pub AllHeld : Physical → List Block → Type 0
AllHeld p [] = Unit {0}
AllHeld p (b ∷ held) = IsHeld p b × AllApart b held × AllHeld p held

unfoldable pub total : List Block → ℕ
total [] = 0
total (b ∷ held) = b.count + total held

pub record IsSound (s : Session) : Type 0 where
  pub valid : IsValid s.state
  pub held : AllHeld s.state s.held
  pub counted : total s.held ≤ s.state.stats.used_pages
