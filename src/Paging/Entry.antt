-- ===== src/Paging/Entry.antt =====
-- The address and the flags of `PageTableEntry` in `kernel/include/arch/amd64/memory/paging.hpp`.
use phoebe.Base.{ℕ, ◌+◌, ◌-◌, ◌*◌, ◌/◌, ◌%◌, ◌^◌, ◌<◌, ◌≡◌, sym, ◌∙◌, bit_and, arith}
use phoebe.Base.Bits.{
  bit_and_split, bit_or_split, bit_and_ones, bit_and-zero, bit_or-zero, zero-bit_or,
}
use phoebe.Paging.{get_address, get_flags, set_address, not_page_addr_mask}

-- The twelve bits above the address, the number of the page, and the twelve bits below.
unfoldable pub entry : ℕ → ℕ → ℕ → ℕ
entry high page low = (high * 2 ^ 40 + page) * 2 ^ 12 + low

module _ (h m l : ℕ) (hh : h < 2 ^ 12) (hm : m < 2 ^ 40) (hl : l < 2 ^ 12) where
  pub get_address-entry : get_address (entry h m l) ≡ m * 2 ^ 12
  unfolding get_address entry
  get_address-entry =
      let outer = bit_and_split 12 (h * 2 ^ 40 + m) (2 ^ 40 - 1) l 0 hl (omega arith) in
      let inner = bit_and_split 40 h 0 m (2 ^ 40 - 1) hm (omega arith) in
      omega (arith, outer, inner, bit_and-zero 12 h hh, bit_and_ones 40 m hm, bit_and-zero 12 l hl)

  get_flags-entry : get_flags (entry h m l) ≡ entry h 0 l
  unfolding get_flags entry
  get_flags-entry =
      let outer = bit_and_split 12 (h * 2 ^ 40 + m) (4095 * 2 ^ 40) l 4095 hl (omega arith) in
      let inner = bit_and_split 40 h 4095 m 0 hm (omega arith) in
      omega (arith, outer, inner, bit_and_ones 12 h hh, bit_and-zero 40 m hm, bit_and_ones 12 l hl)

  pub set_address-entry :
      (a : ℕ) → a < 2 ^ 40 → set_address (entry h m l) (a * 2 ^ 12) ≡ entry h a l
  unfolding set_address entry
  set_address-entry a ha =
      let kept : bit_and (entry h m l) not_page_addr_mask ≡ (h * 2 ^ 40 + 0) * 2 ^ 12 + l =
        unfold get_flags in get_flags-entry in
      let outer = bit_or_split 12 (h * 2 ^ 40 + 0) a l 0 hl (omega arith) in
      let inner = bit_or_split 40 h 0 0 a (omega arith) ha in
      let no_rest : a * 2 ^ 12 + 0 ≡ a * 2 ^ 12 = omega arith in
      let no_high : 0 * 2 ^ 40 + a ≡ a = omega arith in
      rw kept (
        omega (
          arith,
          rw no_rest at outer,
          rw no_high at inner,
          bit_or-zero 12 h hh,
          bit_or-zero 12 l hl,
          zero-bit_or a,
        ))

-- A value of 64 bits is an entry.
pub entry-parts : (v : ℕ) → entry (v / 2 ^ 52) (v / 2 ^ 12 % 2 ^ 40) (v % 2 ^ 12) ≡ v
unfolding entry
entry-parts v = omega arith

-- An entry gives back the address of a page that was written to it, below the 52 bits of physical
-- addresses, and its flags stay as they were.
pub get_address-set_address :
    (v a : ℕ)
    → v < 2 ^ 64
    → a < 2 ^ 40
    → (get_address (set_address v (a * 2 ^ 12)) ≡ a * 2 ^ 12)
      × (get_flags (set_address v (a * 2 ^ 12)) ≡ get_flags v)
get_address-set_address v a hv ha =
    let h = v / 2 ^ 52 in
    let m = v / 2 ^ 12 % 2 ^ 40 in
    let l = v % 2 ^ 12 in
    let hh : h < 2 ^ 12 = omega arith in
    let hm : m < 2 ^ 40 = omega arith in
    let hl : l < 2 ^ 12 = omega arith in
    let whole = entry-parts v in
    let written = rw whole at (set_address-entry h m l hh hm hl a ha) in
    let before = rw whole at (get_flags-entry h m l hh hm hl) in
    rw written (get_address-entry h a l hh ha hl, get_flags-entry h a l hh ha hl ∙ sym before)
