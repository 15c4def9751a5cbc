-- ===== src/Paging/Ranges/Laws.antt =====
-- What `map_pages`, `unmap_pages` and `setflags_pages` of `kernel/arch/amd64/memory/paging.cpp` do to
-- the pages of a row, over four levels and for pages of 4 KiB.
use phoebe.Base.{
  ℕ, ◌+◌, ◌*◌, ◌^◌, ◌≤◌, ◌<◌, ◌≡◌, ◌⊎◌, inl, inr, arith, Bool, false, u64, stop, Stop,
}
use phoebe.Address.{page_size}
use phoebe.Paging.{set_flags, set_address, get_address, parse_flags, flag_to_page_size}
use phoebe.Paging.Frames.{Frames, Laws}
use phoebe.Paging.Map.{IsMap, map_page-Updates, unmap_page-Updates, setflags_page-Updates}
use phoebe.Paging.Ranges.{rounds, map_pages, unmap_pages, setflags_pages, unreachable}
use phoebe.Paging.Ranges.Loop.{Row, Stopped, each_page-Row}

module _ (frames : Frames) (offset : ℕ) (laws : Laws frames offset) (top : ℕ) where
  open frames use {State, allocate}

  -- The allocator stops.
  abbrev pub Empty : Stop → Type 0
  Empty e = (t : State) × (allocate t ≡ stop e)

  module _ (s : State) (level prefix : ℕ → ℕ) (map : IsMap frames offset laws top s level prefix)
      (pml3_translation : Bool) (v size flags : ℕ) (few : rounds size page_size ≤ 2 ^ 36)
      (fits : v + rounds size page_size * page_size ≤ 2 ^ 64)
      (small : flag_to_page_size flags ≡ page_size) where
    -- Over tables that are a tree of four levels, with frame 0 holding zeros,
    -- `map_pages` gives each page of the row from `v` its page of the row from `p` and the flags, and
    -- leaves all other pages as they were, unless the allocator stops it.
    pub map_pages-Row :
        (p : ℕ)
        → p + rounds size page_size * page_size ≤ 2 ^ 64
        → flags < 2048
        → Stopped frames offset laws top Empty
            (map_pages frames offset false (top + offset) pml3_translation v p size flags s)
          ⊎ Row frames offset laws top v
              (λ i old. set_flags (set_address 0 (p + i * page_size)) (parse_flags flags))
              s
              0
              (rounds size page_size)
              (map_pages frames offset false (top + offset) pml3_translation v p size flags s)
    unfolding map_pages
    map_pages-Row p room known = rw small (
        each_page-Row frames offset laws top v
          (λ i old. set_flags (set_address 0 (p + i * page_size)) (parse_flags flags))
          (rounds size page_size) few Empty _ _
          (λ i s' level' prefix' inside map'.
            let virt : u64 (v + i * page_size) ≡ v + i * page_size = omega (arith, inside, fits) in
            let phys : u64 (p + i * page_size) ≡ p + i * page_size = omega (arith, inside, room) in
            rw (virt, phys)
              (elim (map_page-Updates frames offset laws top s' level' prefix' map' pml3_translation
                (v + i * page_size) (p + i * page_size) flags (omega (arith, inside, room)) known
                small) [
                  | inl (e, t, empty, stopped) ↦ inl (e, (t, empty), stopped)
                  | inr updates ↦ inr updates
                ]))
          s level prefix map)

    -- Over tables that are a tree of four levels, with frame 0 holding zeros,
    -- `unmap_pages` leaves no page of the row from `v` an entry, and all other pages as they were.
    pub unmap_pages-Row :
        Row frames offset laws top v
          (λ i old. 0)
          s
          0
          (rounds size page_size)
          (unmap_pages frames offset false (top + offset) pml3_translation v size flags s)
    unfolding unmap_pages
    unmap_pages-Row =
        rw small
          (elim (each_page-Row frames offset laws top v (λ i old. 0) (rounds size page_size) few
            (λ e. ⊥) _ (unreachable frames offset)
            (λ i s' level' prefix' inside map'.
              let virt : u64 (v + i * page_size) ≡ v + i * page_size =
                omega (arith, inside, fits) in
              rw virt (
                inr (
                  unmap_page-Updates frames offset laws top s' level' prefix' map' pml3_translation
                    (v + i * page_size) flags small)))
            s level prefix map) [
              | inl (e, impossible, stopped) ↦ absurd impossible
              | inr row ↦ row
            ])

    -- Over tables that are a tree of four levels, with frame 0 holding zeros,
    -- `setflags_pages` gives each page of the row from `v` the flags at the address that it has, and
    -- leaves all other pages as they were, unless the allocator stops it.
    pub setflags_pages-Row :
        flags < 2048
        → Stopped frames offset laws top Empty
            (setflags_pages frames offset false (top + offset) pml3_translation v size flags s)
          ⊎ Row frames offset laws top v
              (λ i old. set_flags (set_address 0 (get_address old)) (parse_flags flags))
              s
              0
              (rounds size page_size)
              (setflags_pages frames offset false (top + offset) pml3_translation v size flags s)
    unfolding setflags_pages
    setflags_pages-Row known = rw small (
        each_page-Row frames offset laws top v
          (λ i old. set_flags (set_address 0 (get_address old)) (parse_flags flags))
          (rounds size page_size) few Empty _ (unreachable frames offset)
          (λ i s' level' prefix' inside map'.
            let virt : u64 (v + i * page_size) ≡ v + i * page_size = omega (arith, inside, fits) in
            rw virt
              (elim (setflags_page-Updates frames offset laws top s' level' prefix' map'
                (v + i * page_size) flags known small) [
                  | inl (e, t, empty, stopped) ↦ inl (e, (t, empty), stopped)
                  | inr updates ↦ inr updates
                ]))
          s level prefix map)
