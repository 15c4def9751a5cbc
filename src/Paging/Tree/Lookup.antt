-- ===== src/Paging/Tree/Lookup.antt =====
-- The walk down a tree of tables: where it leads, and what stays apart.
use phoebe.Base.{ℕ, zero, suc, ◌+◌, ◌*◌, ◌<◌, ◌≡◌, ◌⊎◌, inl, inr, refl, true, false, arith}
use phoebe.Paging.{get_address, is_large, is_valid, any_flag}
use phoebe.Paging.Frames.{Frames, Laws}
use phoebe.Paging.Tree.{idx, path, word, next, leaf, lookup, Child, IsTree}

pub idx-lt : (l v : ℕ) → idx l v < 512
idx-lt l v = omega arith

module _ (frames : Frames) (offset : ℕ) where
  open frames use {State, read}

  pub next-empty :
      (s : State) (f i : ℕ) → word frames offset s f i ≡ 0 → next frames offset s f i ≡ 0
  unfolding next is_valid any_flag
  next-empty s f i e = rw e

  pub next-link :
      (s : State) (f i : ℕ)
      → is_valid (word frames offset s f i) ≡ true
      → next frames offset s f i ≡ get_address (word frames offset s f i)
  unfolding next
  next-link s f i e = rw e

  -- No entry is found below a table that is empty.
  pub lookup-blank :
      (s : State) (l f v : ℕ)
      → ((i : ℕ) → i < 512 → word frames offset s 0 i ≡ 0)
      → ((i : ℕ) → i < 512 → word frames offset s f i ≡ 0)
      → lookup frames offset s l f v ≡ 0
  unfolding leaf
  lookup-blank s zero f v null blank = blank (idx 0 v) (idx-lt 0 v)
  lookup-blank s (suc l) f v null blank =
      let none : next frames offset s f (idx (suc l) v) ≡ 0 =
        next-empty s f (idx (suc l) v) (blank (idx (suc l) v) (idx-lt (suc l) v)) in
      rw none (lookup-blank s l 0 v null null)

  module _ (laws : Laws frames offset) (s : State) (level prefix : ℕ → ℕ)
      (tree : IsTree frames offset laws s level prefix) where
    pub leaf-null : (l v : ℕ) → leaf frames offset s l 0 v ≡ 0
    unfolding leaf
    leaf-null zero v = refl
    leaf-null (suc l) v =
        let none : next frames offset s 0 (idx (suc l) v) ≡ 0 =
          next-empty s 0 (idx (suc l) v) (tree.zero (idx (suc l) v) (idx-lt (suc l) v)) in
        rw none (leaf-null l v)

    -- A table one level below, or none.
    pub data Next (l f i : ℕ) : Type 0 where
      none_left : word frames offset s f i ≡ 0 → next frames offset s f i ≡ 0 → Next l f i
      table :
          level (next frames offset s f i) ≡ suc l
          → prefix (next frames offset s f i) ≡ prefix f * 512 + i
          → is_valid (word frames offset s f i) ≡ true
          → is_large (word frames offset s f i) ≡ false
          → Next l f i

    pub Next-cases : (l f i : ℕ) → level f ≡ suc (suc l) → i < 512 → Next l f i
    Next-cases l f i at_level h = from_child (tree.child l f i at_level h)
      where
        from_child : Child frames offset laws s level prefix l f i → Next l f i
        from_child (Child.empty e) = Next.none_left e (next-empty s f i e)
        from_child (Child.link valid small down named) =
            let e = next-link s f i valid in Next.table (rw e down) (rw e named) valid small

    -- The leaf of an address is named by its indices.
    pub leaf-path :
        (l f v : ℕ)
        → level f ≡ suc l
        → (leaf frames offset s l f v ≡ 0)
          ⊎ ((level (leaf frames offset s l f v) ≡ 1)
              × (prefix (leaf frames offset s l f v) ≡ path l (prefix f) v))
    unfolding leaf path
    leaf-path zero f v at_level = inr (at_level, refl)
    leaf-path (suc l) f v at_level =
        let down = Next-cases l f (idx (suc l) v) at_level (idx-lt (suc l) v) in
        let below = leaf-path l (next frames offset s f (idx (suc l) v)) v in
        elim down [
          | Next.none_left e null ↦ inl (rw null (leaf-null l v))
          | Next.table at_next named valid small ↦ rw (← named) (below at_next)
        ]
