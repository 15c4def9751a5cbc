-- ===== src/Virtual/Allocate.antt =====
-- What `virtual_allocate` of `kernel/memory/virtual.cpp` hands out between two addresses.
use phoebe.Base.{ℕ, ◌+◌, ◌*◌, ◌^◌, ◌≤◌, ◌<◌, ◌≡◌, ◌≢◌, ◌⊎◌, Bool, false, Result, ok, ◌>>=◌}
use phoebe.Address.{page_size}
use phoebe.Paging.{flag_to_page_size}
use phoebe.Paging.Frames.{Frames, Laws}
use phoebe.Paging.Map.{IsMap, entry_of, page_number}
use phoebe.Virtual.{attempts, row_free, map_row}
use phoebe.Virtual.Search.{IsBlank}
use phoebe.Virtual.Row.{Starved, IsNew}

module _ (frames : Frames) (offset : ℕ) (laws : Laws frames offset) (top : ℕ)
    (pml3_translation : Bool) (s : frames.State) (level prefix : ℕ → ℕ)
    (map : IsMap frames offset laws top s level prefix) (limit count flags : ℕ)
    (known : flags < 2048) (small : flag_to_page_size flags ≡ page_size) (few : count ≤ 2 ^ 36)
    (addresses : limit < 2 ^ 64) where
  -- A row between `base` and the limit was handed out: none of its pages was present, each has the entry
  -- of a frame of its own now that was not in use before, and no other page has changed.
  pub record Hands (base : ℕ) (r : Result (ℕ × frames.State)) : Type 0 where
    pub start : ℕ
    pub state : frames.State
    pub level' : ℕ → ℕ
    pub prefix' : ℕ → ℕ
    pub result : r ≡ ok (start, state)
    pub from : base ≤ start
    pub to : start + count * page_size ≤ limit
    pub blank : IsBlank frames offset laws top pml3_translation s level prefix map start count
    pub valid : IsMap frames offset laws top state level' prefix'
    pub frame : ℕ → ℕ
    pub inside : (i : ℕ) → i < count → IsNew frames offset laws top start flags s state i (frame i)
    pub apart : (i j : ℕ) → i < j → j < count → frame i ≢ frame j
    pub outside :
        (v' : ℕ)
        → ((i : ℕ) → i < count → page_number v' ≢ page_number (start + i * page_size))
        → entry_of frames offset laws top state v' ≡ entry_of frames offset laws top s v'

  -- The allocator of frames stopped, or no row was found and nothing is changed, or a row was handed out.
  abbrev pub Answers : ℕ → Result (ℕ × frames.State) → Type 0
  Answers base r = Starved frames offset laws top r ⊎ (r ≡ ok (0, s)) ⊎ Hands base r

  abbrev tries : ℕ → ℕ → Result (ℕ × frames.State)
  tries left start =
      attempts frames offset false (top + offset) pml3_translation (count * page_size) flags left
        start s

  abbrev searched : ℕ → Result (Bool × frames.State)
  searched start = row_free frames offset false (top + offset) pml3_translation count start s

  abbrev mapped : ℕ → Result (Bool × frames.State)
  mapped start = map_row frames offset false (top + offset) pml3_translation start flags count 0 s
