-- ===== src/Paging/Map/Words.antt =====
-- The words that are written into the entries of pages have 64 bits.
use phoebe.Base.{ℕ, ◌^◌, ◌<◌, ◌≡◌, refl, ltb, bit_or, Bool, true, arith, ltb→lt}
use phoebe.Base.Table.{all_below, all_below_sound}
use phoebe.Base.Bits.{bit_and-lt, bit_or-lt, zero-bit_or}
use phoebe.Paging.{page_addr_mask, get_address, set_flags, set_address, parse_flags}

flags_test : ℕ → Bool
unfolding parse_flags
flags_test flags = ltb (parse_flags flags) (2 ^ 64)

flags_table : all_below 2048 flags_test ≡ true
unfolding all_below flags_test
flags_table = refl

pub parse_flags-lt : (flags : ℕ) → flags < 2048 → parse_flags flags < 2 ^ 64
unfolding flags_test
parse_flags-lt flags h =
    ltb→lt (parse_flags flags) (2 ^ 64) (all_below_sound 2048 flags_test flags_table flags h)

pub word-lt :
    (address flags : ℕ)
    → address < 2 ^ 64
    → flags < 2048
    → set_flags (set_address 0 address) (parse_flags flags) < 2 ^ 64
unfolding set_flags set_address
word-lt address flags p q =
    let low : bit_or 0 address < 2 ^ 64 = rw (zero-bit_or address) p in
    bit_or-lt 64 (bit_or 0 address) (parse_flags flags) low (parse_flags-lt flags q)

pub get_address-lt : (val : ℕ) → val < 2 ^ 64 → get_address val < 2 ^ 64
unfolding get_address
get_address-lt val h = bit_and-lt 64 val page_addr_mask h (omega arith)
