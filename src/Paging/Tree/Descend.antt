-- ===== src/Paging/Tree/Descend.antt =====
-- One step of the walk by `get_next_lvl` in `kernel/arch/amd64/memory/paging.cpp`.
use phoebe.Base.{
  ℕ, suc, ◌+◌, ◌*◌, ◌^◌, ◌<◌, ◌≡◌, ◌⊎◌, inl, inr, refl, ◌==◌, true, false, arith, Result, ok, stop,
  Stop,
}
use phoebe.Address.{to_higher_half}
use phoebe.Paging.{get_address}
use phoebe.Paging.Frames.{Frames, Laws, slot, IsPage}
use phoebe.Paging.Walk.{Status, entry_at, get_next_lvl, link}
use phoebe.Paging.Tree.{word, next, IsTree}
use phoebe.Paging.Tree.Lookup.{next-empty, next-link, Next, Next-cases}
use phoebe.Paging.Tree.Grow.{Extends, grown-Extends, next_self, update}

module _ (frames : Frames) (offset : ℕ) (laws : Laws frames offset) where
  open frames use {State, allocate, read, write}

  pub entry_at-slot :
      (f i : ℕ) → IsPage laws.limit f → i < 512 → entry_at (f + offset) i ≡ slot offset f i
  entry_at-slot f i page h = omega (arith, page, laws.fits)

  to_higher_half-frame : (f : ℕ) → IsPage laws.limit f → to_higher_half offset f ≡ f + offset
  unfolding to_higher_half
  to_higher_half-frame f page =
      let below : f < offset = omega (arith, page, laws.limit-le-offset) in
      let fits : f + offset < 2 ^ 64 = omega (arith, page, laws.fits) in ground (arith, below, fits)

  -- A frame that the walk can stand at: none, or a table of level 2 or more.
  abbrev pub Stands : (ℕ → ℕ) → ℕ → ℕ → Type 0
  Stands level l f = (f ≡ 0) ⊎ (level f ≡ suc (suc l))

  module _ (map_page : ℕ → ℕ → ℕ → State → Result (Status × State)) (s : State)
      (level prefix : ℕ → ℕ) (tree : IsTree frames offset laws s level prefix)
      (l f i va old size : ℕ) (in_table : i < 512) where
    -- Without allocation the walk goes on to the next table, or to frame 0, and changes nothing.
    pub descend-read :
        IsPage laws.limit 0
        → Stands level l f
        → get_next_lvl frames offset map_page (entry_at (f + offset) i) false va old size s
          ≡ ok (next frames offset s f i + offset, s)
    unfolding get_next_lvl
    descend-read null (inl e) =
        let blank : word frames offset s f i ≡ 0 = rw e (tree.zero i in_table) in
        let page : IsPage laws.limit f = rw e null in
        rw (
          entry_at-slot f i page in_table,
          blank,
          to_higher_half-frame 0 null,
          next-empty frames offset s f i blank,
        )
    descend-read null (inr here) =
        let page : IsPage laws.limit f = tree.page f (omega (arith, here)) in
        let at_slot = entry_at-slot f i page in_table in
        elim (Next-cases frames offset laws s level prefix tree l f i here in_table) [
          | Next.none_left blank led ↦ rw (at_slot, blank, to_higher_half-frame 0 null, led)
          | Next.table down named valid small ↦
              let led = next-link frames offset s f i valid in
              let there : 0 < level (get_address (word frames offset s f i)) =
                omega (arith, rw led at down) in
              rw (at_slot, valid, small, led, to_higher_half-frame _ (tree.page _ there))
        ]

  pub Extends-refl :
      (s : State) (level prefix : ℕ → ℕ)
      → IsTree frames offset laws s level prefix
      → Extends frames offset laws s level prefix s level prefix
  Extends-refl s level prefix tree = record {
    tree = tree;
    level_kept = λ f p. refl;
    prefix_kept = λ f p. refl;
    next_kept = λ l f i h lt ne. refl;
    lookup_kept = λ l f v h. refl;
    used_kept = λ h used. used;
  }

  -- With allocation the walk goes on to a table, a new one where there was none.
  pub record Descends (s : State) (level prefix : ℕ → ℕ) (l f i : ℕ) (r : Result (ℕ × State))
      : Type 0 where
    pub frame : ℕ
    pub state : State
    pub level' : ℕ → ℕ
    pub prefix' : ℕ → ℕ
    pub result : r ≡ ok (frame + offset, state)
    pub extends : Extends frames offset laws s level prefix state level' prefix'
    pub at_level : level' frame ≡ suc l
    pub named : prefix' frame ≡ prefix f * 512 + i
    pub led : next frames offset state f i ≡ frame

  -- The allocator stopped, and the routine with it.
  abbrev pub Exhausted {κ} : {A : Type κ} → Result A → Type κ
  Exhausted r = (e : Stop) × (t : State) × (allocate t ≡ stop e) × (r ≡ stop e)

  module _ (map_page : ℕ → ℕ → ℕ → State → Result (Status × State)) (s : State)
      (level prefix : ℕ → ℕ) (tree : IsTree frames offset laws s level prefix)
      (l f i va old size : ℕ) (in_table : i < 512) (here : level f ≡ suc (suc l)) where
    abbrev reached : Result (ℕ × State)
    reached = get_next_lvl frames offset map_page (entry_at (f + offset) i) true va old size s

    pub descend : Exhausted reached ⊎ Descends s level prefix l f i reached
    unfolding get_next_lvl
    descend =
        let page : IsPage laws.limit f = tree.page f (omega (arith, here)) in
        let at_slot = entry_at-slot f i page in_table in
        elim (Next-cases frames offset laws s level prefix tree l f i here in_table) [
          | Next.table down named valid small ↦
              let led = next-link frames offset s f i valid in
              let there : 0 < level (get_address (word frames offset s f i)) =
                omega (arith, rw led at down) in
              inr (record {
                frame = next frames offset s f i;
                state = s;
                level' = level;
                prefix' = prefix;
                result =
                    rw (at_slot, valid, small, led, to_higher_half-frame _ (tree.page _ there));
                extends = Extends-refl s level prefix tree;
                at_level = down;
                named = named;
                led = refl;
              })
          | Next.none_left blank led ↦ elim (laws.allocate_lem s tree.ready) [
            | inl (e, stopped) ↦ inl (e, s, stopped, rw (at_slot, blank, stopped))
            | inr (g, t, allocated, ready, new) ↦
                let itself : (g == g) ≡ true = ground arith in
                inr (record {
                  frame = g;
                  state = link frames offset (slot offset f i) g t;
                  level' = update level g (suc l);
                  prefix' = update prefix g (prefix f * 512 + i);
                  result = rw (at_slot, blank, allocated, to_higher_half-frame g new.page);
                  extends =
                      grown-Extends frames offset laws s t level prefix l f i g tree here in_table
                        blank ready new;
                  at_level = rw itself;
                  named = rw itself;
                  led =
                      next_self frames offset laws s t level prefix l f i g tree here in_table blank
                        ready new;
                })
          ]
        ]
