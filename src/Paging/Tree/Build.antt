-- ===== src/Paging/Tree/Build.antt =====
-- The walk of `virtual_to_entry` in `kernel/arch/amd64/memory/paging.cpp` that allocates the tables
-- it misses.
use phoebe.Base.{
  ℕ, suc, ◌+◌, ◌≡◌, ◌≢◌, ◌⊎◌, inl, inr, refl, ◌∙◌, ◌&&◌, Bool, true, false, arith, Result, ok,
}
use phoebe.Address.{page_size, page_size_2mib, page_size_1gib}
use phoebe.Paging.{is_large}
use phoebe.Paging.Frames.{Frames, Laws, slot}
use phoebe.Paging.Walk.{Status, no_size, virtual_to_entry, get_pml4, from_pml4, from_pdp, from_pd}
use phoebe.Paging.Tree.{idx, word, next, leaf, IsTree}
use phoebe.Paging.Tree.Lookup.{idx-lt}
use phoebe.Paging.Tree.Grow.{Extends}
use phoebe.Paging.Tree.Descend.{Descends, Exhausted, descend, entry_at-slot, Extends-refl}
use phoebe.Paging.Tree.Arrive.{Extends-trans, word-small, nonnull}

module _ (frames : Frames) (offset : ℕ) (laws : Laws frames offset) (top : ℕ)
    (map_page : ℕ → ℕ → ℕ → frames.State → Result (Status × frames.State)) (va : ℕ)
    (check_large : Bool) where
  open frames use {State, allocate, read, write}

  -- The walk from the table `f` of level `l + 1` ended at the entry of the leaf, which is a table.
  pub record Arrives (l f : ℕ) (s : State) (level prefix : ℕ → ℕ) (r : Result (ℕ × State))
      : Type 0 where
    pub frame : ℕ
    pub state : State
    pub level' : ℕ → ℕ
    pub prefix' : ℕ → ℕ
    pub result : r ≡ ok (slot offset frame (idx 0 va), state)
    pub extends : Extends frames offset laws s level prefix state level' prefix'
    pub at_level : level' frame ≡ 1
    pub led : leaf frames offset state l f va ≡ frame

  -- One step, and the rest of the walk from the table it leads to.
  step-Arrives :
      (l f : ℕ) (s : State) (level prefix : ℕ → ℕ) (reached r : Result (ℕ × State))
      (d : Descends frames offset laws s level prefix l f (idx (suc l) va) reached)
      → level f ≡ suc (suc l)
      → Arrives l d.frame d.state d.level' d.prefix' r
      → Arrives (suc l) f s level prefix r
  unfolding leaf
  step-Arrives l f s level prefix reached r d here a =
      let h : d.level' f ≡ suc (suc l) = d.extends.level_kept f (omega (arith, here)) ∙ here in
      let pos = d.extends.tree.pos d.frame (omega (arith, d.at_level)) in
      let some_next : next frames offset d.state f (idx (suc l) va) ≢ 0 =
        λ z. omega (arith, z, d.led, pos) in
      let kept = a.extends.next_kept l f (idx (suc l) va) h (idx-lt (suc l) va) some_next in
      let led : next frames offset a.state f (idx (suc l) va) ≡ d.frame = kept ∙ d.led in
      record {
        frame = a.frame;
        state = a.state;
        level' = a.level';
        prefix' = a.prefix';
        result = a.result;
        extends =
            Extends-trans frames offset laws s d.state a.state level prefix d.level' d.prefix'
              a.level' a.prefix' d.extends a.extends;
        at_level = a.at_level;
        led = rw led a.led;
      }

  module _ (s : State) (level prefix : ℕ → ℕ)
      (tree : IsTree frames offset laws s level prefix) where
    pd-build :
        (f3 f2 : ℕ)
        → level f3 ≡ 3
        → level f2 ≡ 2
        → Exhausted frames offset laws (
            from_pd frames offset false
              (top + offset)
              map_page
              va
              true
              page_size
              check_large
              (f3 + offset)
              (f2 + offset)
              s)
          ⊎ Arrives 1 f2 s level prefix (
              from_pd frames offset false
                (top + offset)
                map_page
                va
                true
                page_size
                check_large
                (f3 + offset)
                (f2 + offset)
                s)
    unfolding from_pd
    pd-build f3 f2 at3 at2 =
        let small =
          word-small frames offset laws s level prefix tree 1 f3 (idx 1 va) (inr at3)
            (idx-lt 1 va) in
        let tested =
          entry_at-slot frames offset laws f3 (idx 1 va) (tree.page f3 (omega (arith, at3)))
            (idx-lt 1 va) in
        let unlarge : (check_large && is_large (word frames offset s f3 (idx 1 va))) ≡ false =
          rw small (ground arith) in
        let some_pd = nonnull frames offset laws f2 in
        elim (descend frames offset laws map_page s level prefix tree 0 f2 (idx 1 va) va
          page_size_2mib page_size (idx-lt 1 va) at2) [
            | inl (e, t, stopped, r) ↦ inl (e, t, stopped, rw (some_pd, tested, unlarge, r))
            | inr d ↦
                let some_pt = nonnull frames offset laws d.frame in
                let last =
                  entry_at-slot frames offset laws d.frame (idx 0 va)
                    (d.extends.tree.page d.frame (omega (arith, d.at_level))) (idx-lt 0 va) in
                let leaf_here : Arrives 0 d.frame d.state d.level' d.prefix'
                    (ok (slot offset d.frame (idx 0 va), d.state)) =
                  record {
                    frame = d.frame;
                    state = d.state;
                    level' = d.level';
                    prefix' = d.prefix';
                    result = refl;
                    extends =
                        Extends-refl frames offset laws d.state d.level' d.prefix' d.extends.tree;
                    at_level = d.at_level;
                    led = unfold leaf in refl;
                  } in
                let whole = step-Arrives 0 f2 s level prefix _ _ d at2 leaf_here in
                inr (rw (some_pd, tested, unlarge, d.result, some_pt, last) whole)
          ]

  pdp-build :
      (s : State) (level prefix : ℕ → ℕ) (tree : IsTree frames offset laws s level prefix) (f3 : ℕ)
      → level f3 ≡ 3
      → Exhausted frames offset laws (
          from_pdp frames offset false
            (top + offset)
            map_page
            va
            true
            page_size
            check_large
            (f3 + offset)
            s)
        ⊎ Arrives 2 f3 s level prefix (
            from_pdp frames offset false
              (top + offset)
              map_page
              va
              true
              page_size
              check_large
              (f3 + offset)
              s)
  unfolding from_pdp
  pdp-build s level prefix tree f3 at3 =
      let small =
        word-small frames offset laws s level prefix tree 1 f3 (idx 2 va) (inr at3) (idx-lt 2 va) in
      let tested =
        entry_at-slot frames offset laws f3 (idx 2 va) (tree.page f3 (omega (arith, at3)))
          (idx-lt 2 va) in
      let unlarge : (check_large && is_large (word frames offset s f3 (idx 2 va))) ≡ false =
        rw small (ground arith) in
      let some_pdp = nonnull frames offset laws f3 in
      elim (descend frames offset laws map_page s level prefix tree 1 f3 (idx 2 va) va
        page_size_1gib page_size (idx-lt 2 va) at3) [
          | inl (e, t, stopped, r) ↦
              inl (e, t, stopped, rw (some_pdp, tested, unlarge) (rw (← tested) (rw r)))
          | inr d ↦
              let still : d.level' f3 ≡ 3 = d.extends.level_kept f3 (omega (arith, at3)) ∙ at3 in
              elim (pd-build d.state d.level' d.prefix' d.extends.tree f3 d.frame still
                d.at_level) [
                  | inl (e, t, stopped, r) ↦ inl (
                    e,
                    t,
                    stopped,
                    rw (some_pdp, tested, unlarge) (rw (← tested) (rw (d.result, r))),
                  )
                  | inr a ↦
                      let whole = step-Arrives 1 f3 s level prefix _ _ d at3 a in
                      inr (rw (some_pdp, tested, unlarge) (rw (← tested) (rw d.result whole)))
                ]
        ]

  -- The walk of a page from the top, which is of level 4.
  pub entry-build :
      (s : State) (level prefix : ℕ → ℕ) (tree : IsTree frames offset laws s level prefix)
      → level top ≡ 4
      → Exhausted frames offset laws (
          virtual_to_entry frames offset false
            (top + offset)
            map_page
            va
            true
            page_size
            check_large
            s)
        ⊎ Arrives 3 top s level prefix (
            virtual_to_entry frames offset false
              (top + offset)
              map_page
              va
              true
              page_size
              check_large
              s)
  unfolding virtual_to_entry get_pml4 from_pml4
  entry-build s level prefix tree at4 =
      let some_top = nonnull frames offset laws top in
      elim (descend frames offset laws map_page s level prefix tree 2 top (idx 3 va) no_size no_size
        no_size (idx-lt 3 va) at4) [
          | inl (e, t, stopped, r) ↦ inl (e, t, stopped, rw some_top (rw r))
          | inr d ↦ elim (pdp-build d.state d.level' d.prefix' d.extends.tree d.frame d.at_level) [
            | inl (e, t, stopped, r) ↦ inl (e, t, stopped, rw some_top (rw d.result r))
            | inr a ↦
                let whole = step-Arrives 2 top s level prefix _ _ d at4 a in
                inr (rw some_top (rw d.result whole))
          ]
        ]
