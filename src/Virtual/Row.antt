-- ===== src/Virtual/Row.antt =====
-- The loop of `virtual_allocate` in `kernel/memory/virtual.cpp` that maps a row of pages to new frames.
use phoebe.Base.{
  ℕ, zero, suc, ◌+◌, ◌*◌, ◌^◌, ◌≤◌, ◌<◌, ◌≡◌, ◌≢◌, ◌⊎◌, inl, inr, refl, ◌∙◌, subst, ◌==◌,
  if◌then◌else◌, arith, dec_lt, u64, Bool, true, false, Result, ok, stop, Stop,
}
use phoebe.Address.{page_size}
use phoebe.Paging.{set_flags, set_address, parse_flags, flag_to_page_size}
use phoebe.Paging.Frames.{Frames, Laws, IsPage}
use phoebe.Paging.Tree.Same.{Same, same-IsTree, same-lookup, Allocated-Same}
use phoebe.Paging.Map.{IsMap, entry_of, page_number, map_page-Updates}
use phoebe.Paging.Ranges.Loop.{distinct}
use phoebe.Paging.Ranges.Laws.{Empty}
use phoebe.Virtual.{map_row}

module _ (frames : Frames) (offset : ℕ) (laws : Laws frames offset) (top : ℕ) where
  open frames use {State, allocate}

  module _ (s t : State) (level prefix : ℕ → ℕ) (map : IsMap frames offset laws top s level prefix)
      (same : Same frames offset laws s level t) where
    pub same-IsMap : IsMap frames offset laws top t level prefix
    same-IsMap = record {
      tree = same-IsTree frames offset laws s t level prefix map.tree same;
      at_top = map.at_top;
    }

    pub same-entry_of :
        (v : ℕ) → entry_of frames offset laws top t v ≡ entry_of frames offset laws top s v
    unfolding entry_of
    same-entry_of v =
        same-lookup frames offset laws s t level prefix map.tree same 3 top v map.at_top

  -- The allocator stopped, and the routine with it.
  abbrev pub Starved {κ} : {A : Type κ} → Result A → Type κ
  Starved r = (e : Stop) × Empty frames offset laws top e × (r ≡ stop e)

  module _ (v flags : ℕ) where
    -- The frame `g` was not in use in the state `s` and is in use in `t`, where the entry of the page `i`
    -- of the row points to `i` pages behind it.
    pub record IsNew (s t : State) (i g : ℕ) : Type 0 where
      pub page : IsPage laws.limit g
      pub pos : 0 < g
      pub fresh : ¬ laws.Used s g
      pub used : laws.Used t g
      pub entry :
          entry_of frames offset laws top t (v + i * page_size)
          ≡ set_flags (set_address 0 (g + i * page_size)) (parse_flags flags)

  module _ (pml3_translation : Bool) (v flags n : ℕ) (known : flags < 2048)
      (small : flag_to_page_size flags ≡ page_size) (few : n ≤ 2 ^ 36)
      (fits : v + n * page_size ≤ 2 ^ 64) where
    -- The pages of the row from `k` on are mapped to new frames, one for each, every other page has the
    -- entry that it had, and the frames in use stay in use.
    pub record MapsRow (s : State) (k : ℕ) (r : Result (Bool × State)) : Type 0 where
      pub state : State
      pub level : ℕ → ℕ
      pub prefix : ℕ → ℕ
      pub frame : ℕ → ℕ
      pub result : r ≡ ok (true, state)
      pub valid : IsMap frames offset laws top state level prefix
      pub inside : (i : ℕ) → k ≤ i → i < n → IsNew v flags s state i (frame i)
      pub apart : (i j : ℕ) → k ≤ i → i < j → j < n → frame i ≢ frame j
      pub used_kept : (h : ℕ) → laws.Used s h → laws.Used state h
      pub outside :
          (v' : ℕ)
          → ((i : ℕ) → k ≤ i → i < n → page_number v' ≢ page_number (v + i * page_size))
          → entry_of frames offset laws top state v' ≡ entry_of frames offset laws top s v'

    abbrev row : ℕ → ℕ → State → Result (Bool × State)
    row left k s =
        map_row frames offset false (top + offset) pml3_translation v flags left (k * page_size) s

    -- One round: a new frame, and the page mapped to it.
    record Round (s : State) (left k : ℕ) : Type 0 where
      state : State
      level : ℕ → ℕ
      prefix : ℕ → ℕ
      result : row (suc left) k s ≡ row left (k + 1) state
      valid : IsMap frames offset laws top state level prefix
      frame : ℕ
      here : IsNew v flags s state k frame
      used_kept : (h : ℕ) → laws.Used s h → laws.Used state h
      elsewhere :
          (v' : ℕ)
          → page_number v' ≢ page_number (v + k * page_size)
          → entry_of frames offset laws top state v' ≡ entry_of frames offset laws top s v'

    round :
        (left k : ℕ) (s : State) (level prefix : ℕ → ℕ)
        → k < n
        → IsMap frames offset laws top s level prefix
        → Starved (row (suc left) k s) ⊎ Round s left k
    unfolding map_row
    round left k s level prefix bound map = elim (laws.allocate_lem s map.tree.ready) [
      | inl (e, empty) ↦ inl (e, (s, empty), rw empty refl)
      | inr (g, t, allocated, ready, new) ↦
          let same = Allocated-Same frames offset laws s t level prefix g map.tree ready new in
          let map' = same-IsMap s t level prefix map same in
          let virt : u64 (v + k * page_size) ≡ v + k * page_size = omega (arith, bound, fits) in
          let phys : u64 (g + k * page_size) ≡ g + k * page_size =
            omega (arith, bound, few, new.page, laws.physical) in
          let next : k * page_size + page_size ≡ (k + 1) * page_size = omega arith in
          elim (map_page-Updates frames offset laws top t level prefix map' pml3_translation
            (v + k * page_size) (g + k * page_size) flags
            (omega (arith, bound, few, new.page, laws.physical)) known small) [
              | inl (e, t', empty, stopped) ↦
                  inl (e, (t', empty), rw allocated (rw (virt, phys) (rw stopped refl)))
              | inr u ↦ inr (record {
                state = u.state;
                level = u.level;
                prefix = u.prefix;
                result = rw allocated (rw (virt, phys) (rw u.result (rw next refl)));
                valid = u.valid;
                frame = g;
                here = record {
                  page = new.page;
                  pos = new.pos;
                  fresh = new.fresh;
                  used = u.used_kept g new.used;
                  entry = u.here;
                };
                used_kept = λ h used. u.used_kept h (new.kept h used);
                elsewhere =
                    λ v' other. u.elsewhere v' other ∙ same-entry_of s t level prefix map same v';
              })
            ]
    ]

    MapsRow-step :
        (left k : ℕ) (s : State)
        → k < n
        → (a : Round s left k) → MapsRow a.state (k + 1) (row left (k + 1) a.state)
        → MapsRow s k (row (suc left) k s)
    MapsRow-step left k s bound a rest = record {
      state = rest.state;
      level = rest.level;
      prefix = rest.prefix;
      result = a.result ∙ rest.result;
      valid = rest.valid;
      frame = frame;
      inside = λ i from to. elim (dec_lt k i) [
        | yes behind ↦ rw (rest_frame i behind) (still i (omega (arith, behind)) to)
        | no first ↦ let at_k : i ≡ k = omega (arith, first, from) in rw (at_k, own_frame) first_new
      ];
      apart = λ i j from order to. elim (dec_lt k i) [
        | yes behind ↦
            rw (rest_frame i behind, rest_frame j (omega (arith, order, behind)))
              (rest.apart i j (omega (arith, behind)) order to)
        | no first ↦
            let at_k : i ≡ k = omega (arith, first, from) in
            rw (at_k, own_frame, rest_frame j (omega (arith, order, from)))
              (λ e.
                (rest.inside j (omega (arith, order, from)) to).fresh
                  (subst (laws.Used a.state) e a.here.used))
      ];
      used_kept = λ h used. rest.used_kept h (a.used_kept h used);
      outside = λ v' other.
          rest.outside v' (λ i after before. other i (omega (arith, after)) before)
          ∙ a.elsewhere v' (other k (omega arith) bound);
    }
      where
        kept :
            entry_of frames offset laws top rest.state (v + k * page_size)
            ≡ entry_of frames offset laws top a.state (v + k * page_size)
        kept =
            rest.outside (v + k * page_size)
              (λ j after before. distinct v k j (omega (arith, after)) (omega (arith, before, few)))

        frame : ℕ → ℕ
        frame i = if i == k then a.frame else rest.frame i

        own_frame : frame k ≡ a.frame
        own_frame = let here : (k == k) ≡ true = ground arith in rw here refl

        rest_frame : (i : ℕ) → k < i → frame i ≡ rest.frame i
        rest_frame i behind = let other : (i == k) ≡ false = ground (arith, behind) in rw other refl

        still : (i : ℕ) → k + 1 ≤ i → i < n → IsNew v flags s rest.state i (rest.frame i)
        still i from to =
            let new = rest.inside i from to in
            record {
              page = new.page;
              pos = new.pos;
              fresh = λ used. new.fresh (a.used_kept (rest.frame i) used);
              used = new.used;
              entry = new.entry;
            }

        first_new : IsNew v flags s rest.state k a.frame
        first_new = record {
          page = a.here.page;
          pos = a.here.pos;
          fresh = a.here.fresh;
          used = rest.used_kept a.frame a.here.used;
          entry = kept ∙ a.here.entry;
        }

    pub map_row-MapsRow :
        (left k : ℕ) (s : State) (level prefix : ℕ → ℕ)
        → k + left ≡ n
        → IsMap frames offset laws top s level prefix
        → Starved (row left k s) ⊎ MapsRow s k (row left k s)
    unfolding map_row
    map_row-MapsRow zero k s level prefix all map = inr (record {
      state = s;
      level = level;
      prefix = prefix;
      result = refl;
      valid = map;
      frame = λ i. 0;
      inside = λ i from to. absurd (omega (arith, from, to, all));
      apart = λ i j from order to. absurd (omega (arith, from, order, to, all));
      used_kept = λ h used. used;
      outside = λ v' other. refl;
    })
    map_row-MapsRow (suc left) k s level prefix all map =
        elim (round left k s level prefix (omega (arith, all)) map) [
          | inl starved ↦ inl starved
          | inr a ↦
              elim (map_row-MapsRow left (k + 1) a.state a.level a.prefix (omega (arith, all))
                a.valid) [
                  | inl (e, empty, stopped) ↦ inl (e, empty, a.result ∙ stopped)
                  | inr rest ↦ inr (MapsRow-step left k s (omega (arith, all)) a rest)
                ]
        ]
