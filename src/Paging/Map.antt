-- ===== src/Paging/Map.antt =====
-- What `map_page`, `unmap_page`, `setflags_page` and `virtual_to_physical` of
-- `kernel/arch/amd64/memory/paging.cpp` do to the pages of 4 KiB, over four levels.
pub mod Words
pub mod Translate
pub mod Tests
use phoebe.Base.{
  ℕ, zero, suc, ◌+◌, ◌-◌, ◌*◌, ◌/◌, ◌%◌, ◌^◌, ◌≤◌, ◌<◌, ◌≡◌, ◌≢◌, ◌⊎◌, inl, inr, refl, sym, ap, ◌∙◌,
  subst, ◌==◌, ◌&&◌, ◌||◌, not, if◌then◌else◌, Bool, true, false, u64, arith, Bool-cases, and_true,
  ==_iff, Result, ok, stop, Stop, ◌>>=◌,
}
use phoebe.Address.{page_size, page_size_1gib}
use phoebe.Paging.{
  set_flags, set_address, parse_flags, flag_to_page_size, get_address, any_flag, page_flag_present,
}
use phoebe.Paging.Frames.{Frames, Laws, slot, IsPage}
use phoebe.Paging.Walk.{
  Status, no_size, map_page_locked, map_one, map_page, unmap_one, unmap_page, setflags_page,
  virtual_to_physical,
}
use phoebe.Paging.Tree.{idx, path, word, leaf, lookup, IsTree}
use phoebe.Paging.Tree.Lookup.{idx-lt, leaf-path}
use phoebe.Paging.Tree.Grow.{Extends}
use phoebe.Paging.Tree.Write.{Writable, written-IsTree, lookup-written}
use phoebe.Paging.Tree.Descend.{Exhausted}
use phoebe.Paging.Tree.Arrive.{entry-read}
use phoebe.Paging.Map.Words.{word-lt, get_address-lt}
use phoebe.Paging.Tree.Build.{Arrives, entry-build}

-- The number of the page of a virtual address of 48 bits.
abbrev pub page_number : ℕ → ℕ
page_number v = v / 2 ^ 12 % 2 ^ 36

-- The indices of an address are the digits of its page number.
path-page_number :
    (p v v' : ℕ) → path 3 p v ≡ path 3 p v' → idx 0 v ≡ idx 0 v' → page_number v ≡ page_number v'
unfolding path
path-page_number p v v' e i = omega (arith, e, i)

module _ (frames : Frames) (offset : ℕ) (laws : Laws frames offset) (top : ℕ) where
  open frames use {State, allocate, read, write}

  nonnull-slot : (f i : ℕ) → (slot offset f i == 0) ≡ false
  nonnull-slot f i = let p = laws.some_offset in ground (arith, p)

  -- The tables below `top` are a tree of four levels, and frame 0 holds zeros.
  pub record IsMap (s : State) (level prefix : ℕ → ℕ) : Type 0 where
    pub tree : IsTree frames offset laws s level prefix
    pub at_top : level top ≡ 4

  -- The entry of an address: 0 where there is no table for it.
  unfoldable pub entry_of : State → ℕ → ℕ
  entry_of s v = lookup frames offset s 3 top v

  -- The routine succeeded: it left a tree in which the page of `v` has the entry `w`, and every other
  -- page the entry that it had. The frames in use stay in use.
  pub record Updates (s : State) (v w : ℕ) (r : Result (Status × State)) : Type 0 where
    pub state : State
    pub level : ℕ → ℕ
    pub prefix : ℕ → ℕ
    pub result : r ≡ ok (Status.system_ok, state)
    pub valid : IsMap state level prefix
    pub here : entry_of state v ≡ w
    pub elsewhere : (v' : ℕ) → page_number v' ≢ page_number v → entry_of state v' ≡ entry_of s v'
    pub used_kept : (h : ℕ) → laws.Used s h → laws.Used state h

  module _ (s : State) (level prefix : ℕ → ℕ) (map : IsMap s level prefix) where
    -- Two pages of one table have different entries.
    same_leaf :
        (v v' : ℕ)
        → level (leaf frames offset s 3 top v) ≡ 1
        → leaf frames offset s 3 top v ≡ leaf frames offset s 3 top v'
        → idx 0 v ≡ idx 0 v'
        → page_number v ≡ page_number v'
    same_leaf v v' one e i =
        let some_leaf : 0 < leaf frames offset s 3 top v = map.tree.pos _ (omega (arith, one)) in
        let first = leaf-path frames offset laws s level prefix map.tree 3 top v map.at_top in
        let second = leaf-path frames offset laws s level prefix map.tree 3 top v' map.at_top in
        elim first [
          | inl z ↦ absurd (omega (arith, z, some_leaf))
          | inr p ↦ elim second [
            | inl z ↦ absurd (omega (arith, z, e, some_leaf))
            | inr q ↦ path-page_number (prefix top) v v' (sym p.1 ∙ ap prefix e ∙ q.1) i
          ]
        ]

    -- Writing the entry of the leaf of `v` changes the page of `v` alone.
    write-Updates :
        (v w f : ℕ)
        → Writable frames offset laws level f w
        → leaf frames offset s 3 top v ≡ f
        → IsMap (write s (slot offset f (idx 0 v)) w) level prefix
          × (entry_of (write s (slot offset f (idx 0 v)) w) v ≡ w)
          × ((v' : ℕ)
              → page_number v' ≢ page_number v
              → entry_of (write s (slot offset f (idx 0 v)) w) v' ≡ entry_of s v')
    unfolding entry_of
    write-Updates v w f target led = (
      record {
        tree =
            written-IsTree frames offset laws s level prefix top f (idx 0 v) w map.tree some_top
              target (idx-lt 0 v);
        at_top = map.at_top;
      },
      at_write v
          ∙ (let test : (f == leaf frames offset s 3 top v && idx 0 v == idx 0 v) ≡ true =
                ground (arith, led) in
              rw test),
      elsewhere target,
    )
      where
        some_top : 0 < level top
        some_top = omega (arith, map.at_top)

        at_write :
            (u : ℕ)
            → lookup frames offset (write s (slot offset f (idx 0 v)) w) 3 top u ≡ (
                if f == leaf frames offset s 3 top u && idx 0 v == idx 0 u
                then w
                else lookup frames offset s 3 top u)
        at_write u =
            lookup-written frames offset laws s level prefix top f (idx 0 v) w map.tree some_top
              target (idx-lt 0 v) 3 top u map.at_top

        elsewhere :
            Writable frames offset laws level f w
            → (v' : ℕ) → page_number v' ≢ page_number v
            → lookup frames offset (write s (slot offset f (idx 0 v)) w) 3 top v'
              ≡ lookup frames offset s 3 top v'
        elsewhere (Writable.entry one lt) v' other =
            at_write v'
            ∙ elim (Bool-cases (f == leaf frames offset s 3 top v' && idx 0 v == idx 0 v')) [
              | inl test ↦
                  let both = and_true _ _ test in
                  let same = (==_iff f (leaf frames offset s 3 top v')).0 both.0 in
                  let index = (==_iff (idx 0 v) (idx 0 v')).0 both.1 in
                  absurd (other (sym (same_leaf v v' (ap level led ∙ one) (led ∙ same) index)))
              | inr test ↦ rw test
            ]
        elsewhere (Writable.null z z') v' other =
            at_write v'
            ∙ elim (Bool-cases (f == leaf frames offset s 3 top v' && idx 0 v == idx 0 v')) [
              | inl test ↦
                  let both = and_true _ _ test in
                  let same = (==_iff f (leaf frames offset s 3 top v')).0 both.0 in
                  let blank : word frames offset s (leaf frames offset s 3 top v') (idx 0 v') ≡ 0 =
                    subst (λ (x : ℕ). word frames offset s x (idx 0 v') ≡ 0) (sym z ∙ same)
                      (map.tree.zero (idx 0 v') (idx-lt 0 v')) in
                  rw test (z' ∙ sym blank)
              | inr test ↦ rw test
            ]

  module _ (s : State) (level prefix : ℕ → ℕ) (map : IsMap s level prefix) where
    page-null : IsPage laws.limit 0
    page-null = omega (arith, map.tree.page top (omega (arith, map.at_top)))

    -- Over tables that are a tree of four levels, with frame 0 holding zeros, for pages of 4 KiB,
    -- `map_page` gives the page of `v` the entry of `p` with the flags and changes no other page,
    -- unless the allocator stops.
    pub map_page-Updates :
        (pml3_translation : Bool) (v p flags : ℕ)
        → p < 2 ^ 64
        → flags < 2048
        → flag_to_page_size flags ≡ page_size
        → Exhausted frames offset laws
            (map_page frames offset false (top + offset) pml3_translation v p flags s)
          ⊎ Updates s v
              (set_flags (set_address 0 p) (parse_flags flags))
              (map_page frames offset false (top + offset) pml3_translation v p flags s)
    unfolding map_page map_one entry_of
    map_page-Updates pml3_translation v p flags address known small =
        let w : ℕ = set_flags (set_address 0 p) (parse_flags flags) in
        elim (entry-build frames offset laws top
          (map_page_locked frames offset false (top + offset)) v false s level prefix map.tree
          map.at_top) [
            | inl (e, t, stopped, r) ↦ inl (e, t, stopped, rw small (rw r))
            | inr a ↦
                let built : IsMap a.state a.level' a.prefix' = record {
                  tree = a.extends.tree;
                  at_top = a.extends.level_kept top (omega (arith, map.at_top)) ∙ map.at_top;
                } in
                let (valid, here, elsewhere) =
                  write-Updates a.state a.level' a.prefix' built v w a.frame
                    (Writable.entry a.at_level (word-lt p flags address known)) a.led in
                inr (record {
                  state = write a.state (slot offset a.frame (idx 0 v)) w;
                  level = a.level';
                  prefix = a.prefix';
                  result = rw small (rw (a.result, nonnull-slot a.frame (idx 0 v)));
                  valid = valid;
                  here = here;
                  elsewhere =
                      λ v' other. elsewhere v' other ∙ a.extends.lookup_kept 3 top v' map.at_top;
                  used_kept = λ h used.
                      laws.write-Used a.state a.frame (idx 0 v) w h (a.extends.used_kept h used);
                })
          ]

    -- Over tables that are a tree of four levels, with frame 0 holding zeros, for pages of 4 KiB,
    -- `unmap_page` leaves the page of `v` without an entry and changes no other page.
    pub unmap_page-Updates :
        (pml3_translation : Bool) (v flags : ℕ)
        → flag_to_page_size flags ≡ page_size
        → Updates s v 0 (unmap_page frames offset false (top + offset) pml3_translation v flags s)
    unfolding unmap_page unmap_one entry_of
    unmap_page-Updates pml3_translation v flags small =
        let f = leaf frames offset s 3 top v in
        let r =
          entry-read frames offset laws s level prefix map.tree page-null top
            (map_page_locked frames offset false (top + offset)) v true map.at_top in
        let (valid, here, elsewhere) =
          write-Updates s level prefix map v 0 f
            (zero_writable
              (leaf-path frames offset laws s level prefix map.tree 3 top v map.at_top))
            refl in
        record {
          state = write s (slot offset f (idx 0 v)) 0;
          level = level;
          prefix = prefix;
          result = rw small (rw (r, nonnull-slot f (idx 0 v)));
          valid = valid;
          here = here;
          elsewhere = elsewhere;
          used_kept = λ h used. laws.write-Used s f (idx 0 v) 0 h used;
        }
      where
        zero_writable :
            {f n : ℕ}
            → (f ≡ 0) ⊎ ((level f ≡ 1) × (prefix f ≡ n))
            → Writable frames offset laws level f 0
        zero_writable (inl e) = Writable.null e refl
        zero_writable (inr p) = Writable.entry p.0 (omega arith)

    -- Over tables that are a tree of four levels, with frame 0 holding zeros, for pages of 4 KiB,
    -- `setflags_page` gives the page of `v` the entry of the same address with the flags and changes
    -- no other page, unless the allocator stops.
    pub setflags_page-Updates :
        (v flags : ℕ)
        → flags < 2048
        → flag_to_page_size flags ≡ page_size
        → Exhausted frames offset laws (setflags_page frames offset false (top + offset) v flags s)
          ⊎ Updates s v
              (set_flags (set_address 0 (get_address (entry_of s v))) (parse_flags flags))
              (setflags_page frames offset false (top + offset) v flags s)
    unfolding setflags_page entry_of
    setflags_page-Updates v flags known small =
        let w : ℕ = set_flags (set_address 0 (get_address (entry_of s v))) (parse_flags flags) in
        elim (entry-build frames offset laws top
          (map_page_locked frames offset false (top + offset)) v true s level prefix map.tree
          map.at_top) [
            | inl (e, t, stopped, r) ↦ inl (e, t, stopped, rw small (rw r))
            | inr a ↦
                let built : IsMap a.state a.level' a.prefix' = record {
                  tree = a.extends.tree;
                  at_top = a.extends.level_kept top (omega (arith, map.at_top)) ∙ map.at_top;
                } in
                let address = get_address-lt (entry_of s v) (laws.read-lt s _) in
                let (valid, here, elsewhere) =
                  write-Updates a.state a.level' a.prefix' built v w a.frame
                    (Writable.entry a.at_level
                      (word-lt (get_address (entry_of s v)) flags address known))
                    a.led in
                let old : word frames offset a.state a.frame (idx 0 v) ≡ entry_of s v =
                  rw a.led at (a.extends.lookup_kept 3 top v map.at_top) in
                inr (record {
                  state = write a.state (slot offset a.frame (idx 0 v)) w;
                  level = a.level';
                  prefix = a.prefix';
                  result = rw small (rw (a.result, nonnull-slot a.frame (idx 0 v), old));
                  valid = valid;
                  here = here;
                  elsewhere =
                      λ v' other. elsewhere v' other ∙ a.extends.lookup_kept 3 top v' map.at_top;
                  used_kept = λ h used.
                      laws.write-Used a.state a.frame (idx 0 v) w h (a.extends.used_kept h used);
                })
          ]

    -- `virtual_to_physical` reads the entry of the page, and returns -1 where it is not present.
    pub virtual_to_physical-entry_of :
        (v flags : ℕ)
        → flag_to_page_size flags ≡ page_size
        → virtual_to_physical frames offset false (top + offset) v flags s
          ≡ ok (
            if any_flag (entry_of s v) page_flag_present
                then u64 (get_address (entry_of s v) + v % page_size)
                else no_size,
            s,
          )
    unfolding virtual_to_physical entry_of
    virtual_to_physical-entry_of v flags small =
        let r =
          entry-read frames offset laws s level prefix map.tree page-null top
            (map_page_locked frames offset false (top + offset)) v true map.at_top in
        let f = leaf frames offset s 3 top v in
        elim (Bool-cases (any_flag (word frames offset s f (idx 0 v)) page_flag_present)) [
          | inl present ↦ rw small (rw (r, nonnull-slot f (idx 0 v), present))
          | inr absent ↦ rw small (rw (r, nonnull-slot f (idx 0 v), absent))
        ]
