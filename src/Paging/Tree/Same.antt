-- ===== src/Paging/Tree/Same.antt =====
-- A step of the allocator or of another part that leaves the tables alone.
use phoebe.Base.{ℕ, zero, suc, ◌<◌, ◌≡◌, ◌⊎◌, inl, inr, refl, sym, ◌∙◌, arith, subst}
use phoebe.Paging.Frames.{Frames, Laws, Allocated}
use phoebe.Paging.Tree.{idx, word, next, leaf, lookup, Child, IsTree}
use phoebe.Paging.Tree.Lookup.{idx-lt, lookup-blank, Next, Next-cases}

module _ (frames : Frames) (offset : ℕ) (laws : Laws frames offset) where
  open frames use {State, read}

  -- The tables are in use, and hold the words that they held.
  pub record Same (s : State) (level : ℕ → ℕ) (t : State) : Type 0 where
    pub ready : laws.Ready t
    pub used : (h : ℕ) → 0 < level h → laws.Used t h
    pub words :
        (h j : ℕ)
        → (h ≡ 0) ⊎ (0 < level h)
        → j < 512
        → word frames offset t h j ≡ word frames offset s h j

  module _ (s t : State) (level prefix : ℕ → ℕ) (tree : IsTree frames offset laws s level prefix)
      (same : Same s level t) where
    null : (j : ℕ) → j < 512 → word frames offset t 0 j ≡ 0
    null j lt = same.words 0 j (inl refl) lt ∙ tree.zero j lt

    pub same-IsTree : IsTree frames offset laws t level prefix
    same-IsTree = record {
      ready = same.ready;
      page = tree.page;
      pos = tree.pos;
      used = same.used;
      zero = null;
      child = λ l h j here lt.
          let e = same.words h j (inr (omega (arith, here))) lt in
          elim (tree.child l h j here lt) [
            | Child.empty blank ↦ Child.empty (e ∙ blank)
            | Child.link valid small down named ↦
                Child.link (rw e valid) (rw e small) (rw e down) (rw e named)
          ];
    }

    pub same-lookup :
        (l h v : ℕ) → level h ≡ suc l → lookup frames offset t l h v ≡ lookup frames offset s l h v
    unfolding leaf
    same-lookup zero h v here = same.words h (idx 0 v) (inr (omega (arith, here))) (idx-lt 0 v)
    same-lookup (suc l) h v here =
        let j = idx (suc l) v in
        let kept : next frames offset t h j ≡ next frames offset s h j =
          unfold next in rw (same.words h j (inr (omega (arith, here))) (idx-lt (suc l) v)) in
        let below = same-lookup l (next frames offset s h j) v in
        rw kept
          (elim (Next-cases frames offset laws s level prefix tree l h j here (idx-lt (suc l) v)) [
            | Next.none_left empty led ↦ rw led (
                lookup-blank frames offset t l 0 v null null
                ∙ sym (lookup-blank frames offset s l 0 v tree.zero tree.zero))
            | Next.table at_next named valid small ↦ below at_next
          ])

  -- A new frame is none of the tables.
  pub Allocated-Same :
      (s t : State) (level prefix : ℕ → ℕ) (g : ℕ)
      → IsTree frames offset laws s level prefix
      → laws.Ready t
      → Allocated frames offset laws.limit laws.Used s g t
      → Same s level t
  Allocated-Same s t level prefix g tree ready new = record {
    ready = ready;
    used = λ h p. new.kept h (tree.used h p);
    words = λ h j there lt. elim there [
      | inl e ↦ new.same h j (omega (arith, e, new.page)) (λ q. omega (arith, e, q, new.pos)) lt
      | inr p ↦
          new.same h j (tree.page h p) (λ q. new.fresh (subst (laws.Used s) q (tree.used h p))) lt
    ];
  }
