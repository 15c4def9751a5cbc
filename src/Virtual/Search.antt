-- ===== src/Virtual/Search.antt =====
-- The search of `virtual_allocate` in `kernel/memory/virtual.cpp` for a row of pages none of which is present.
use phoebe.Base.{
  ℕ, zero, suc, ◌+◌, ◌*◌, ◌<◌, ◌≡◌, ◌⊎◌, inl, inr, refl, ◌∙◌, arith, ◌==◌, Bool, true, false,
  Bool-cases, Result, ok,
}
use phoebe.Address.{page_size}
use phoebe.Paging.{is_valid}
use phoebe.Paging.Frames.{Frames, Laws, slot, IsPage}
use phoebe.Paging.Walk.{map_page}
use phoebe.Paging.Tree.{idx, leaf}
use phoebe.Paging.Tree.Arrive.{entry-read}
use phoebe.Paging.Map.{IsMap, entry_of}
use phoebe.Virtual.{row_free}

module _ (frames : Frames) (offset : ℕ) (laws : Laws frames offset) (top : ℕ)
    (pml3_translation : Bool) (s : frames.State) (level prefix : ℕ → ℕ)
    (map : IsMap frames offset laws top s level prefix) where
  -- The pages of the row from `v` have no entry that is valid.
  abbrev pub IsBlank : ℕ → ℕ → Type 0
  IsBlank v n =
      (i : ℕ) → i < n → is_valid (entry_of frames offset laws top s (v + i * page_size)) ≡ false

  -- The search answers whether none of the pages is present, and changes nothing.
  pub record Searched (v n : ℕ) (r : Result (Bool × frames.State)) : Type 0 where
    pub answer : Bool
    pub result : r ≡ ok (answer, s)
    pub blank : answer ≡ true → IsBlank v n

  abbrev search : ℕ → ℕ → Result (Bool × frames.State)
  search n v = row_free frames offset false (top + offset) pml3_translation n v s

  -- The page at `v` has an entry, or the search goes on behind it.
  search-step :
      (n v : ℕ)
      → ((is_valid (entry_of frames offset laws top s v) ≡ true)
          × (search (suc n) v ≡ ok (false, s)))
        ⊎ ((is_valid (entry_of frames offset laws top s v) ≡ false)
            × (search (suc n) v ≡ search n (v + page_size)))
  unfolding row_free entry_of
  search-step n v =
      let null : IsPage laws.limit 0 =
        omega (arith, map.tree.page top (omega (arith, map.at_top))) in
      let found =
        entry-read frames offset laws s level prefix map.tree null top
          (map_page frames offset false (top + offset) pml3_translation) v true map.at_top in
      let f = leaf frames offset s 3 top v in
      let some_slot : (slot offset f (idx 0 v) == 0) ≡ false =
        (let p = laws.some_offset in ground (arith, p)) in
      elim (Bool-cases (is_valid (frames.read s (slot offset f (idx 0 v))))) [
        | inl valid ↦ inl (valid, rw found (rw (some_slot, valid) refl))
        | inr absent ↦ inr (absent, rw found (rw (some_slot, absent) refl))
      ]

  IsBlank-suc :
      (n v : ℕ)
      → is_valid (entry_of frames offset laws top s v) ≡ false
      → IsBlank (v + page_size) n
      → IsBlank v (suc n)
  IsBlank-suc n v first rest zero below =
      let here : v + 0 * page_size ≡ v = omega arith in rw here first
  IsBlank-suc n v first rest (suc i) below =
      let next : v + suc i * page_size ≡ v + page_size + i * page_size = omega arith in
      rw next (rest i (omega (arith, below)))

  pub row_free-Searched : (n v : ℕ) → Searched v n (search n v)
  unfolding row_free
  row_free-Searched zero v = record {
    answer = true;
    result = refl;
    blank = λ yes i below. absurd (omega (arith, below));
  }
  row_free-Searched (suc n) v =
      let rest = row_free-Searched n (v + page_size) in
      elim (search-step n v) [
        | inl (valid, e) ↦ record { answer = false; result = e; blank = λ wrong. absurd (cc wrong) }
        | inr (absent, e) ↦ record {
          answer = rest.answer;
          result = e ∙ rest.result;
          blank = λ all. IsBlank-suc n v absent (rest.blank all);
        }
      ]
