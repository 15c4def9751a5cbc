-- ===== src/Paging/Tree/Arrive.antt =====
-- The whole walk of `virtual_to_entry` in `kernel/arch/amd64/memory/paging.cpp` for pages of 4 KiB, over
-- four levels.
use phoebe.Base.{
  ℕ, suc, ◌+◌, ◌*◌, ◌<◌, ◌≡◌, inl, inr, refl, sym, ap, ◌∙◌, ◌==◌, ◌&&◌, Bool, false, arith, Result,
  ok,
}
use phoebe.Address.{page_size, page_size_2mib, page_size_1gib}
use phoebe.Paging.{is_large, any_flag}
use phoebe.Paging.Frames.{Frames, Laws, slot, IsPage}
use phoebe.Paging.Walk.{Status, no_size, virtual_to_entry, get_pml4, from_pml4, from_pdp, from_pd}
use phoebe.Paging.Tree.{idx, word, next, leaf, IsTree}
use phoebe.Paging.Tree.Lookup.{idx-lt, next-empty, Next, Next-cases}
use phoebe.Paging.Tree.Grow.{Extends}
use phoebe.Paging.Tree.Descend.{Stands, descend-read, entry_at-slot}

module _ (frames : Frames) (offset : ℕ) (laws : Laws frames offset) where
  open frames use {State, allocate, read, write}

  pub Extends-trans :
      (s t u : State) (l1 p1 l2 p2 l3 p3 : ℕ → ℕ)
      → Extends frames offset laws s l1 p1 t l2 p2
      → Extends frames offset laws t l2 p2 u l3 p3
      → Extends frames offset laws s l1 p1 u l3 p3
  Extends-trans s t u l1 p1 l2 p2 l3 p3 a b = record {
    tree = b.tree;
    level_kept = λ f p. let e = a.level_kept f p in b.level_kept f (omega (arith, e, p)) ∙ e;
    prefix_kept = λ f p.
        let e = a.level_kept f p in b.prefix_kept f (omega (arith, e, p)) ∙ a.prefix_kept f p;
    next_kept = λ l f i h lt ne.
        let e = a.level_kept f (omega (arith, h)) in
        let first = a.next_kept l f i h lt ne in
        b.next_kept l f i (e ∙ h) lt (λ z. ne (sym first ∙ z)) ∙ first;
    lookup_kept = λ l f v h.
        let e = a.level_kept f (omega (arith, h)) in
        b.lookup_kept l f v (e ∙ h) ∙ a.lookup_kept l f v h;
    used_kept = λ h used. b.used_kept h (a.used_kept h used);
  }

  pub nonnull : (f : ℕ) → (f + offset == 0) ≡ false
  nonnull f = let p = laws.some_offset in ground (arith, p)

  module _ (s : State) (level prefix : ℕ → ℕ)
      (tree : IsTree frames offset laws s level prefix) where
    -- No entry above level 1 is one of a large page.
    pub word-small :
        (l f i : ℕ)
        → Stands frames offset laws level l f
        → i < 512
        → is_large (word frames offset s f i) ≡ false
    word-small l f i (inl e) h =
        let blank : word frames offset s f i ≡ 0 = rw e (tree.zero i h) in
        rw blank (unfold is_large any_flag in refl)
    word-small l f i (inr here) h =
        elim (Next-cases frames offset laws s level prefix tree l f i here h) [
          | Next.none_left blank led ↦ rw blank (unfold is_large any_flag in refl)
          | Next.table down named valid small ↦ small
        ]

    Stands-next :
        (l f i : ℕ)
        → Stands frames offset laws level (suc l) f
        → i < 512
        → Stands frames offset laws level l (next frames offset s f i)
    Stands-next l f i (inl e) h = inl (next-empty frames offset s f i (rw e (tree.zero i h)))
    Stands-next l f i (inr here) h =
        elim (Next-cases frames offset laws s level prefix tree (suc l) f i here h) [
          | Next.none_left blank led ↦ inl led
          | Next.table down named valid small ↦ inr down
        ]

    page-of :
        IsPage laws.limit 0 → (l f : ℕ) → Stands frames offset laws level l f → IsPage laws.limit f
    page-of null l f (inl e) = rw e null
    page-of null l f (inr here) = tree.page f (omega (arith, here))

    next-page :
        IsPage laws.limit 0
        → (l f i : ℕ) → Stands frames offset laws level l f
        → i < 512
        → IsPage laws.limit (next frames offset s f i)
    next-page null l f i (inl e) h =
        let led : next frames offset s f i ≡ 0 =
          next-empty frames offset s f i (rw e (tree.zero i h)) in
        rw led null
    next-page null l f i (inr here) h =
        elim (Next-cases frames offset laws s level prefix tree l f i here h) [
          | Next.none_left blank led ↦ rw led null
          | Next.table down named valid small ↦ tree.page _ (omega (arith, down))
        ]

    module _ (null : IsPage laws.limit 0) (top : ℕ)
        (map_page : ℕ → ℕ → ℕ → State → Result (Status × State)) (va : ℕ) (check_large : Bool) where
      both-small : (w : ℕ) → is_large w ≡ false → (check_large && is_large w) ≡ false
      both-small w e = rw e (ground arith)

      pd-read :
          (f3 f2 : ℕ)
          → Stands frames offset laws level 1 f3
          → Stands frames offset laws level 0 f2
          → from_pd frames offset false
              (top + offset)
              map_page
              va
              false
              page_size
              check_large
              (f3 + offset)
              (f2 + offset)
              s
            ≡ ok (next frames offset s f2 (idx 1 va) + offset + 8 * idx 0 va, s)
      unfolding from_pd
      pd-read f3 f2 at3 at2 =
          let small = word-small 1 f3 (idx 1 va) at3 (idx-lt 1 va) in
          let tested =
            entry_at-slot frames offset laws f3 (idx 1 va) (page-of null 1 f3 at3) (idx-lt 1 va) in
          let step =
            descend-read frames offset laws map_page s level prefix tree 0 f2 (idx 1 va) va
              page_size_2mib page_size (idx-lt 1 va) null at2 in
          rw
            (
              nonnull f2,
              tested,
              both-small _ small,
              step,
              nonnull (next frames offset s f2 (idx 1 va)),
            )
            (ap {B = Result (ℕ × State)} (λ (x : ℕ). ok (x, s))
              (entry_at-slot frames offset laws (next frames offset s f2 (idx 1 va)) (idx 0 va)
                (next-page null 0 f2 (idx 1 va) at2 (idx-lt 1 va)) (idx-lt 0 va)))

      pdp-read :
          (f3 : ℕ)
          → Stands frames offset laws level 1 f3
          → from_pdp frames offset false
              (top + offset)
              map_page
              va
              false
              page_size
              check_large
              (f3 + offset)
              s
            ≡ ok (slot offset (leaf frames offset s 2 f3 va) (idx 0 va), s)
      unfolding from_pdp leaf
      pdp-read f3 at3 =
          let small = word-small 1 f3 (idx 2 va) at3 (idx-lt 2 va) in
          let tested =
            entry_at-slot frames offset laws f3 (idx 2 va) (page-of null 1 f3 at3) (idx-lt 2 va) in
          let step =
            descend-read frames offset laws map_page s level prefix tree 1 f3 (idx 2 va) va
              page_size_1gib page_size (idx-lt 2 va) null at3 in
          let at2 = Stands-next 0 f3 (idx 2 va) at3 (idx-lt 2 va) in
          rw (nonnull f3, tested, both-small _ small)
            (rw (← tested) (rw step (pd-read f3 (next frames offset s f3 (idx 2 va)) at3 at2)))

      -- Without allocation the walk of a page ends at the entry of its leaf.
      pub entry-read :
          level top ≡ 4
          → virtual_to_entry frames offset false
              (top + offset)
              map_page
              va
              false
              page_size
              check_large
              s
            ≡ ok (slot offset (leaf frames offset s 3 top va) (idx 0 va), s)
      unfolding virtual_to_entry get_pml4 from_pml4 leaf
      entry-read at_top =
          let at4 : Stands frames offset laws level 2 top = inr at_top in
          let step =
            descend-read frames offset laws map_page s level prefix tree 2 top (idx 3 va) no_size
              no_size no_size (idx-lt 3 va) null at4 in
          let at3 = Stands-next 1 top (idx 3 va) at4 (idx-lt 3 va) in
          rw (nonnull top) (rw step (pdp-read (next frames offset s top (idx 3 va)) at3))
