-- ===== src/Paging/Tree.antt =====
-- The tables of `PageMap` in `kernel/arch/amd64/memory/paging.cpp` as a tree, and the entry that the
-- walk finds for an address.
pub mod Link
pub mod Lookup
pub mod Grow
pub mod Write
pub mod Descend
pub mod Arrive
pub mod Build
pub mod Same
use phoebe.Base.{
  ℕ, zero, suc, ◌+◌, ◌-◌, ◌*◌, ◌/◌, ◌%◌, ◌^◌, ◌≤◌, ◌<◌, ◌≡◌, ◌≢◌, if◌then◌else◌, Bool, true, false,
}
use phoebe.Paging.{get_address, is_large, is_valid}
use phoebe.Paging.Frames.{Frames, Laws, slot, IsPage}

-- The index of an address in a table of level `l + 1`.
abbrev pub idx : ℕ → ℕ → ℕ
idx l v = v / 2 ^ (12 + 9 * l) % 512

-- The indices down to level 1 as one number, behind those that have given `p`.
unfoldable pub path : ℕ → ℕ → ℕ → ℕ
path zero p v = p
path (suc l) p v = path l (p * 512 + idx (suc l) v) v

module _ (frames : Frames) (offset : ℕ) where
  open frames use {State, read}

  abbrev pub word : State → ℕ → ℕ → ℕ
  word s f i = read s (slot offset f i)

  -- The frame that an entry points to. Frame 0 stands for none, as `get_next_lvl` has it.
  unfoldable pub next : State → ℕ → ℕ → ℕ
  next s f i = if is_valid (word s f i) then get_address (word s f i) else 0

  -- The table of level 1 below a table of level `l + 1`.
  unfoldable pub leaf : State → ℕ → ℕ → ℕ → ℕ
  leaf s zero f v = f
  leaf s (suc l) f v = leaf s l (next s f (idx (suc l) v)) v

  -- The entry of an address.
  abbrev pub lookup : State → ℕ → ℕ → ℕ → ℕ
  lookup s l f v = word s (leaf s l f v) (idx 0 v)

  module _ (laws : Laws frames offset) where
    -- What entry `i` of the table `f`, which is not of level 1, holds.
    pub data Child (s : State) (level prefix : ℕ → ℕ) (l f i : ℕ) : Type 0 where
      empty : word s f i ≡ 0 → Child s level prefix l f i
      link :
          is_valid (word s f i) ≡ true
          → is_large (word s f i) ≡ false
          → level (get_address (word s f i)) ≡ suc l
          → prefix (get_address (word s f i)) ≡ prefix f * 512 + i
          → Child s level prefix l f i

    -- The frames of the tables have a level and the indices that lead to them; all others have
    -- level 0. Frame 0 is none of them, and holds zeros: where
    -- a table is missing the walk goes on there.
    pub record IsTree (s : State) (level prefix : ℕ → ℕ) : Type 0 where
      pub ready : laws.Ready s
      pub page : (f : ℕ) → 0 < level f → IsPage laws.limit f
      pub pos : (f : ℕ) → 0 < level f → 0 < f
      pub used : (f : ℕ) → 0 < level f → laws.Used s f
      pub zero : (i : ℕ) → i < 512 → word s 0 i ≡ 0
      pub child : (l f i : ℕ) → level f ≡ suc (suc l) → i < 512 → Child s level prefix l f i
