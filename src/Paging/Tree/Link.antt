-- ===== src/Paging/Tree/Link.antt =====
-- The word that `set_address` and `set_flags(NEW_PAGE_FLAGS)` write into an empty entry.
use phoebe.Base.{ℕ, ◌+◌, ◌*◌, ◌/◌, ◌%◌, ◌^◌, ◌<◌, ◌≡◌, bit_and, true, false, arith}
use phoebe.Base.Bits.{bit_and_split, bit_or-eq-add, bit_and-zero, zero-bit_or}
use phoebe.Paging.{
  new_page_flags, page_flag_present, page_flag_size_extension, set_flags, any_flag, get_address,
  set_address, is_large, is_valid,
}
use phoebe.Paging.Entry.{entry, get_address-entry}

module _ (f : ℕ) (aligned : f % 4096 ≡ 0) (below : f < 2 ^ 52) where
  abbrev pub linked : ℕ
  linked = set_flags (set_address 0 f) new_page_flags

  linked-sum : linked ≡ f + 7
  unfolding set_flags set_address
  linked-sum =
      let whole : f / 4096 * 2 ^ 12 ≡ f = omega arith in
      rw (zero-bit_or f)
        (rw whole at (bit_or-eq-add 40 12 (f / 4096) 7 (omega arith) (omega arith)))

  linked-entry : linked ≡ entry 0 (f / 4096) 7
  unfolding entry
  linked-entry = omega (arith, linked-sum)

  pub linked-lt : linked < 2 ^ 64
  unfolding entry
  linked-lt = omega (arith, linked-entry)

  pub get_address-linked : get_address linked ≡ f
  get_address-linked =
      let at_entry = get_address-entry 0 (f / 4096) 7 (omega arith) (omega arith) (omega arith) in
      rw linked-entry (omega (arith, at_entry))

  low-bits : (m : ℕ) → m < 4096 → bit_and linked m ≡ bit_and 7 m
  low-bits m h =
      let parts = bit_and_split 12 (f / 4096) 0 7 m (omega arith) h in
      let whole : f / 4096 * 2 ^ 12 + 7 ≡ linked = omega (arith, linked-sum) in
      let mask : 0 * 2 ^ 12 + m ≡ m = omega arith in
      omega (arith, rw (whole, mask) at parts, bit_and-zero 40 (f / 4096) (omega arith))

  pub is_valid-linked : is_valid linked ≡ true
  unfolding is_valid any_flag
  is_valid-linked = rw (low-bits page_flag_present (omega arith))

  pub is_large-linked : is_large linked ≡ false
  unfolding is_large any_flag
  is_large-linked = rw (low-bits page_flag_size_extension (omega arith))
