-- ===== src/Paging/Tree/Write.antt =====
-- An entry of level 1 that is written.
use phoebe.Base.{
  ℕ, zero, suc, ◌^◌, ◌<◌, ◌≡◌, ◌⊎◌, inl, inr, refl, sym, ap, ◌∙◌, ◌==◌, ◌&&◌, if◌then◌else◌, false,
  arith, Bool-cases, ==_iff,
}
use phoebe.Paging.Frames.{Frames, Laws, slot, IsPage}
use phoebe.Paging.Tree.{idx, word, next, leaf, lookup, Child, IsTree}
use phoebe.Paging.Tree.Lookup.{idx-lt, leaf-null, leaf-path, Next, Next-cases}

module _ (frames : Frames) (offset : ℕ) (laws : Laws frames offset) where
  open frames use {State, read, write}

  -- An entry that may be written: of a table of level 1, or of frame 0 if it stays 0.
  pub data Writable (level : ℕ → ℕ) (f w : ℕ) : Type 0 where
    entry : level f ≡ 1 → w < 2 ^ 64 → Writable level f w
    null : f ≡ 0 → w ≡ 0 → Writable level f w

  module _ (s : State) (level prefix : ℕ → ℕ) (top : ℕ) (f j w : ℕ)
      (tree : IsTree frames offset laws s level prefix) (some_table : 0 < level top)
      (target : Writable level f w) (in_table : j < 512) where
    abbrev written : State
    written = write s (slot offset f j) w

    page-null : IsPage laws.limit 0
    page-null = omega (arith, tree.page top some_table)

    page-of : (h : ℕ) → (h ≡ 0) ⊎ (0 < level h) → IsPage laws.limit h
    page-of h (inl e) = rw e page-null
    page-of h (inr p) = tree.page h p

    target-page : Writable level f w → IsPage laws.limit f
    target-page (Writable.entry one lt) = tree.page f (omega (arith, one))
    target-page (Writable.null e z) = rw e page-null

    target-lt : Writable level f w → w < 2 ^ 64
    target-lt (Writable.entry one lt) = lt
    target-lt (Writable.null e z) = omega (arith, z)

    word-written :
        (h k : ℕ)
        → (h ≡ 0) ⊎ (0 < level h)
        → k < 512
        → word frames offset written h k
          ≡ (if f == h && j == k then w else word frames offset s h k)
    word-written h k there lt =
        laws.read-write s f j h k w (target-page target) (page-of h there) in_table lt
          (target-lt target)

    word-null : (k : ℕ) → k < 512 → word frames offset written 0 k ≡ 0
    word-null k lt = word-written 0 k (inl refl) lt ∙ kept target
      where
        kept : Writable level f w → (if f == 0 && j == k then w else word frames offset s 0 k) ≡ 0
        kept (Writable.entry one w_lt) =
            let other : (f == 0) ≡ false = ground (arith, tree.pos f (omega (arith, one))) in
            rw other (tree.zero k lt)
        kept (Writable.null e z) = elim (Bool-cases (f == 0 && j == k)) [
          | inl test ↦ rw test z
          | inr test ↦ rw test (tree.zero k lt)
        ]

    -- The tables of level 2 or more are not touched.
    word-upper :
        (l h k : ℕ)
        → level h ≡ suc (suc l)
        → k < 512
        → word frames offset written h k ≡ word frames offset s h k
    word-upper l h k here lt = word-written h k (inr (omega (arith, here))) lt ∙ rw (apart target)
      where
        apart : Writable level f w → (f == h) ≡ false
        apart (Writable.entry one w_lt) = elim (Bool-cases (f == h)) [
          | inl e ↦ absurd (omega (arith, ap level ((==_iff f h).0 e), one, here))
          | inr e ↦ e
        ]
        apart (Writable.null e z) = ground (arith, e, tree.pos h (omega (arith, here)))

    pub written-IsTree : IsTree frames offset laws written level prefix
    written-IsTree = record {
      ready = laws.write-Ready s f j w (target-page target) tree.ready;
      page = tree.page;
      pos = tree.pos;
      used = λ h p. laws.write-Used s f j w h (tree.used h p);
      zero = word-null;
      child = λ l h k here lt.
          let e = word-upper l h k here lt in
          elim (tree.child l h k here lt) [
            | Child.empty blank ↦ Child.empty (e ∙ blank)
            | Child.link valid small down named ↦
                Child.link (rw e valid) (rw e small) (rw e down) (rw e named)
          ];
    }

    leaf-written :
        (l h v : ℕ)
        → level h ≡ suc l
        → leaf frames offset written l h v ≡ leaf frames offset s l h v
    unfolding leaf
    leaf-written zero h v here = refl
    leaf-written (suc l) h v here =
        let k = idx (suc l) v in
        let kept : next frames offset written h k ≡ next frames offset s h k =
          unfold next in rw (word-upper l h k here (idx-lt (suc l) v)) in
        let below = leaf-written l (next frames offset s h k) v in
        let null = leaf-null frames offset laws written level prefix written-IsTree l v in
        let was_null = leaf-null frames offset laws s level prefix tree l v in
        rw kept
          (elim (Next-cases frames offset laws s level prefix tree l h k here (idx-lt (suc l) v)) [
            | Next.none_left empty led ↦ rw led (null ∙ sym was_null)
            | Next.table at_next named valid small ↦ below at_next
          ])

    -- What an address has after the write.
    pub lookup-written :
        (l h v : ℕ)
        → level h ≡ suc l
        → lookup frames offset written l h v ≡ (
            if f == leaf frames offset s l h v && j == idx 0 v
            then w
            else lookup frames offset s l h v)
    lookup-written l h v here =
        let there : (leaf frames offset s l h v ≡ 0) ⊎ (0 < level (leaf frames offset s l h v)) =
          elim (leaf-path frames offset laws s level prefix tree l h v here) [
            | inl e ↦ inl e
            | inr p ↦ inr (omega (arith, p.0))
          ] in
        rw (leaf-written l h v here)
          (word-written (leaf frames offset s l h v) (idx 0 v) there (idx-lt 0 v))
