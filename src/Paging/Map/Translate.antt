-- ===== src/Paging/Map/Translate.antt =====
-- A page that was mapped, translated.
use phoebe.Base.{
  ℕ, ◌+◌, ◌*◌, ◌/◌, ◌%◌, ◌^◌, ◌<◌, ◌≡◌, ◌≢◌, ◌⊎◌, inl, inr, refl, bit_and, ◌==◌, ==_iff, ◌&&◌, ◌||◌,
  and_true, not, if◌then◌else◌, Bool, true, false, u64, arith, ok,
}
use phoebe.Base.Table.{all_below, all_below_sound}
use phoebe.Base.Bits.{bit_and_split, bit_or_split, bit_and-zero, bit_or-zero, zero-bit_or}
use phoebe.Address.{page_size}
use phoebe.Paging.{
  has, map_read, set_flags, set_address, get_address, any_flag, parse_flags, flag_to_page_size,
  page_flag_present,
}
use phoebe.Paging.Entry.{entry, get_address-entry}
use phoebe.Paging.Frames.{Frames, Laws}
use phoebe.Paging.Walk.{Status, map_page, virtual_to_physical}
use phoebe.Paging.Tree.Descend.{Exhausted}
use phoebe.Paging.Map.Words.{parse_flags-lt, word-lt}
use phoebe.Paging.Map.{IsMap, page_number, map_page-Updates, virtual_to_physical-entry_of}

-- The flags of small pages have none of the bits of the address, and the lowest is that for reading.
clear_test : ℕ → Bool
unfolding parse_flags flag_to_page_size
clear_test flags =
    if flag_to_page_size flags == page_size
    then (parse_flags flags / 2 ^ 12 % 2 ^ 40 == 0)
      && (not (has flags map_read) || (parse_flags flags % 2 == 1))
    else true

clear_table : all_below 2048 clear_test ≡ true
unfolding all_below clear_test
clear_table = refl

either_lem : (a b : Bool) → not a || b ≡ true → a ≡ true → b ≡ true
either_lem true b both _ = both
either_lem false b _ wrong = absurd (cc wrong)

parse_flags-clear :
    (flags : ℕ)
    → flags < 2048
    → flag_to_page_size flags ≡ page_size
    → (parse_flags flags / 2 ^ 12 % 2 ^ 40 ≡ 0)
      × (has flags map_read ≡ true → parse_flags flags % 2 ≡ 1)
unfolding clear_test
parse_flags-clear flags known small =
    let test = all_below_sound 2048 clear_test clear_table flags known in
    let is_small = (==_iff (flag_to_page_size flags) page_size).1 small in
    let both = and_true _ _ (rw is_small at test) in
    ((==_iff _ _).0 both.0, λ readable. (==_iff _ _).0 (either_lem _ _ both.1 readable))

odd-present : (w : ℕ) → w < 2 ^ 64 → w % 2 ≡ 1 → any_flag w page_flag_present ≡ true
unfolding any_flag
odd-present w bound odd =
    let whole : w / 2 * 2 ^ 1 + 1 ≡ w = omega (arith, odd) in
    let split = bit_and_split 1 (w / 2) 0 1 1 (omega arith) (omega arith) in
    let rest = bit_and-zero 64 (w / 2) (omega (arith, bound)) in
    let one : bit_and w 1 ≡ 1 = rw (whole, rest) at split in rw one refl

entry-odd : (h a l : ℕ) → l % 2 ≡ 1 → entry h a l % 2 ≡ 1
unfolding entry
entry-odd h a l odd = omega (arith, odd)

module _ (p flags : ℕ) (aligned : p % 4096 ≡ 0) (below : p < 2 ^ 52) (known : flags < 2048)
    (small : flag_to_page_size flags ≡ page_size) where
  abbrev high : ℕ
  high = parse_flags flags / 2 ^ 52

  abbrev low : ℕ
  low = parse_flags flags % 2 ^ 12

  -- The entry that is written holds the address and the flags side by side.
  word-entry : set_flags (set_address 0 p) (parse_flags flags) ≡ entry high (p / 4096) low
  unfolding set_flags set_address entry
  word-entry =
      let a = p / 4096 in
      let clear = (parse_flags-clear flags known small).0 in
      let bound = parse_flags-lt flags known in
      let address : a * 2 ^ 12 + 0 ≡ p = omega (arith, aligned) in
      let split : high * 2 ^ 40 * 2 ^ 12 + low ≡ parse_flags flags = omega (arith, clear) in
      let outer = bit_or_split 12 a (high * 2 ^ 40) 0 low (omega arith) (omega arith) in
      let inner = bit_or_split 40 0 high a 0 (omega (arith, below)) (omega arith) in
      let a0 : 0 * 2 ^ 40 + a ≡ a = omega arith in
      let h0 : high * 2 ^ 40 + 0 ≡ high * 2 ^ 40 = omega arith in
      rw (zero-bit_or p) (
        omega (
          arith,
          rw (address, split) at outer,
          rw (a0, h0) at inner,
          zero-bit_or high,
          zero-bit_or low,
          bit_or-zero 40 a (omega (arith, below)),
        ))

  get_address-word : get_address (set_flags (set_address 0 p) (parse_flags flags)) ≡ p
  get_address-word =
      let bound = parse_flags-lt flags known in
      rw word-entry (
        omega (
          arith,
          get_address-entry high (p / 4096) low (omega (arith, bound)) (omega (arith, below))
              (omega arith),
          aligned,
        ))

  word-present :
      has flags map_read ≡ true
      → any_flag (set_flags (set_address 0 p) (parse_flags flags)) page_flag_present ≡ true
  word-present readable =
      let odd = (parse_flags-clear flags known small).1 readable in
      let last : set_flags (set_address 0 p) (parse_flags flags) % 2 ≡ 1 =
        rw word-entry (entry-odd high (p / 4096) low (omega (arith, odd))) in
      odd-present _ (word-lt p flags (omega (arith, below)) known) last

-- Over tables that are a tree of four levels, with frame 0 holding zeros, a page that is mapped for reading
-- is translated to the frame it was mapped to, and the addresses
-- of all other pages are translated as before, unless the allocator stops the mapping.
pub map_page-virtual_to_physical :
    (frames : Frames) (offset : ℕ) (laws : Laws frames offset) (top : ℕ) (s : frames.State)
    (level prefix : ℕ → ℕ) (map : IsMap frames offset laws top s level prefix)
    (pml3_translation : Bool) (v p flags : ℕ)
    → p % 4096 ≡ 0
    → p < 2 ^ 52
    → flags < 2048
    → flag_to_page_size flags ≡ page_size
    → has flags map_read ≡ true
    → Exhausted frames offset laws
        (map_page frames offset false (top + offset) pml3_translation v p flags s)
      ⊎ ((s' : frames.State) × (map_page frames offset false
              (top + offset)
              pml3_translation
              v
              p
              flags
              s
            ≡ ok (Status.system_ok, s'))
          × (virtual_to_physical frames offset false (top + offset) v flags s'
              ≡ ok (p + v % page_size, s'))
          × ((v' : ℕ)
              → page_number v' ≢ page_number v
              → (p' : ℕ) × (virtual_to_physical frames offset false (top + offset) v' flags s
                  ≡ ok (p', s))
                × (virtual_to_physical frames offset false (top + offset) v' flags s'
                    ≡ ok (p', s'))))
map_page-virtual_to_physical frames offset laws top s level prefix map pml3_translation v p flags
      aligned below known small readable =
    elim (map_page-Updates frames offset laws top s level prefix map pml3_translation v p flags
      (omega (arith, below)) known small) [
        | inl stopped ↦ inl stopped
        | inr u ↦
            let after =
              virtual_to_physical-entry_of frames offset laws top u.state u.level u.prefix
                u.valid in
            let before = virtual_to_physical-entry_of frames offset laws top s level prefix map in
            let present = word-present p flags aligned below known small readable in
            let address = get_address-word p flags aligned below known small in
            let plain : u64 (p + v % page_size) ≡ p + v % page_size = omega (arith, below) in
            inr (
              u.state,
              u.result,
              rw (u.here, present, address, plain) at (after v flags small),
              λ v' other.
                  (_, before v' flags small, rw (u.elsewhere v' other) at (after v' flags small)),
            )
      ]
