-- ===== src/Paging/Frames.antt =====
-- What the page tables of `kernel/arch/amd64/memory/paging.cpp` ask of the allocator of frames and of
-- memory.
use phoebe.Base.{
  ℕ, ◌+◌, ◌*◌, ◌%◌, ◌^◌, ◌≤◌, ◌<◌, ◌≡◌, ◌≢◌, ◌⊎◌, ◌==◌, ◌&&◌, if◌then◌else◌, Result, ok, stop, Stop,
}

-- `allocate` is `physical_allocate()`; `read` and `write` are of the 64 bits of `val` in the
-- `PageTableEntry` at an address of the higher half.
pub record Frames : Type 1 where
  pub State : Type 0
  pub allocate : State → Result (ℕ × State)
  pub read : State → ℕ → ℕ
  pub write : State → ℕ → ℕ → State

-- The address of entry `i` in the table at the physical address `f`.
abbrev pub slot : ℕ → ℕ → ℕ → ℕ
slot offset f i = f + offset + 8 * i

-- A frame below the limit.
abbrev pub IsPage : ℕ → ℕ → Type 0
IsPage limit f = (f % 4096 ≡ 0) × (f + 4096 ≤ limit)

-- What an allocation of the frame `f` leaves behind: `f` was not in use and holds zeros now.
pub record Allocated (frames : Frames) (offset limit : ℕ) (Used : frames.State → ℕ → Type 0)
    (s : frames.State) (f : ℕ) (s' : frames.State) : Type 0 where
  pub page : IsPage limit f
  pub pos : 0 < f
  pub fresh : ¬ Used s f
  pub used : Used s' f
  pub kept : (g : ℕ) → Used s g → Used s' g
  pub zero : (i : ℕ) → i < 512 → frames.read s' (slot offset f i) ≡ 0
  pub same :
      (g i : ℕ)
      → IsPage limit g
      → g ≢ f
      → i < 512
      → frames.read s' (slot offset g i) ≡ frames.read s (slot offset g i)

pub record Laws (frames : Frames) (offset : ℕ) : Type 1 where
  pub Ready : frames.State → Type 0
  pub Used : frames.State → ℕ → Type 0
  pub limit : ℕ
  pub offset_page : offset % 4096 ≡ 0
  pub some_offset : 0 < offset
  pub limit-le-offset : limit ≤ offset
  pub fits : offset + limit ≤ 2 ^ 64
  pub physical : limit ≤ 2 ^ 52
  pub read-lt : (s : frames.State) (a : ℕ) → frames.read s a < 2 ^ 64
  pub read-write :
      (s : frames.State) (f i g j w : ℕ)
      → IsPage limit f
      → IsPage limit g
      → i < 512
      → j < 512
      → w < 2 ^ 64
      → frames.read (frames.write s (slot offset f i) w) (slot offset g j)
        ≡ (if f == g && i == j then w else frames.read s (slot offset g j))
  pub write-Ready :
      (s : frames.State) (f i w : ℕ)
      → IsPage limit f
      → Ready s
      → Ready (frames.write s (slot offset f i) w)
  pub write-Used :
      (s : frames.State) (f i w g : ℕ) → Used s g → Used (frames.write s (slot offset f i) w) g
  pub allocate_lem :
      (s : frames.State)
      → Ready s
      → ((e : Stop) × (frames.allocate s ≡ stop e))
        ⊎ ((f : ℕ) × (s' : frames.State) × (frames.allocate s ≡ ok (f, s'))
            × Ready s'
            × Allocated frames offset limit Used s f s')
