-- ===== src/Libc/Print.antt =====
-- `libc/stdio/print.c`, up to the conversion of integers. The
-- buffer in which an integer is put together is the list of its characters with the last one first,
-- which is the order in which `output_reverse` takes them; its `len` is the length of the list.
pub mod Output
pub mod Digits
pub mod Room
pub mod Padding
pub mod Laws
pub mod Tests
use phoebe.Base.{
  ℕ, zero, suc, ◌+◌, ◌-◌, ◌*◌, ◌/◌, ◌%◌, ◌^◌, bit_and, bit_or, ltb, ◌==◌, not, Bool, true, false,
  ◌&&◌, ◌||◌, if◌then◌else◌, u8, u64, sub64, List, [], ◌∷◌, ◌++◌, Option, none, some, length,
}
use phoebe.Libc.Stdio.{File, put}
use phoebe.Libc.Ctype.{isdigit}
use phoebe.Libc.Strtol.{deref, advance, char_to_int}

abbrev pub integer_buffer_size : ℕ
integer_buffer_size = 32

module _ where
  abbrev pub flags_zeropad : ℕ
  flags_zeropad = 2 ^ 0

  abbrev pub flags_left : ℕ
  flags_left = 2 ^ 1

  abbrev pub flags_plus : ℕ
  flags_plus = 2 ^ 2

  abbrev pub flags_space : ℕ
  flags_space = 2 ^ 3

  abbrev pub flags_hash : ℕ
  flags_hash = 2 ^ 4

  abbrev pub flags_uppercase : ℕ
  flags_uppercase = 2 ^ 5

  abbrev pub flags_precision : ℕ
  flags_precision = 2 ^ 11

  abbrev pub flags_pointer : ℕ
  flags_pointer = 2 ^ 13

-- `flags & mask`, as a condition, and `flags &= ~mask` on an `unsigned int`.
abbrev pub is_set : ℕ → ℕ → Bool
is_set flags mask = not (bit_and flags mask == 0)

abbrev pub without : ℕ → ℕ → ℕ
without flags mask = bit_and flags (2 ^ 32 - 1 - mask)

-- The value, and the text behind the digits.
unfoldable pub stdio_atou : ℕ → List ℕ → ℕ × List ℕ
stdio_atou val [] = (val, [])
stdio_atou val (c ∷ str) =
    if isdigit (char_to_int c)
    then stdio_atou (u64 (u64 (val * 10) + (c - b'0'))) str
    else (val, c ∷ str)

-- The loop that pads with spaces in front, with the rounds left, and the one that writes the buffer.
unfoldable pub put_spaces : ℕ → File → File
put_spaces zero fp = fp
put_spaces (suc left) fp = put_spaces left (put fp b' ')

unfoldable pub put_all : List ℕ → File → File
put_all [] fp = fp
put_all (c ∷ buffer) fp = put_all buffer (put fp c)

-- The loop that pads behind, on fuel: at most one round for each column of `width`.
unfoldable pub put_up_to : ℕ → ℕ → ℕ → File → File
put_up_to zero start_pos width fp = fp
put_up_to (suc fuel) start_pos width fp =
    let rest = put_up_to fuel start_pos width (put fp b' ') in
    if ltb (sub64 fp.position start_pos) width then rest else fp

unfoldable pub output_reverse : File → List ℕ → ℕ → ℕ → File
unfolding put_spaces put_all put_up_to
output_reverse fp buffer width flags =
    let front =
      if not (is_set flags flags_left) && not (is_set flags flags_zeropad)
      then put_spaces (width - length buffer) fp
      else fp in
    let written = put_all buffer front in
    if is_set flags flags_left then put_up_to width fp.position width written else written

-- `while(len < limit && len < INTEGER_BUFFER_SIZE) buffer[len++] = '0';`, on fuel: the buffer has room
-- for no more rounds than its size.
unfoldable pub pad_zeros : ℕ → ℕ → List ℕ → List ℕ
pad_zeros zero limit buffer = buffer
pad_zeros (suc fuel) limit buffer =
    let rest = pad_zeros fuel limit (b'0' ∷ buffer) in
    if ltb (length buffer) limit && ltb (length buffer) integer_buffer_size then rest else buffer

-- `if(len < INTEGER_BUFFER_SIZE) buffer[len++] = c;`
unfoldable pub push : ℕ → List ℕ → List ℕ
push c buffer = if ltb (length buffer) integer_buffer_size then c ∷ buffer else buffer

-- `width` without the column of the sign, and the zeros that fill the width.
unfoldable pub sign_width : Bool → ℕ → ℕ → ℕ
sign_width negative width flags =
    if not (is_set flags flags_left)
      && ((not (width == 0) && is_set flags flags_zeropad)
          && (negative || is_set flags (bit_or flags_plus flags_space)))
    then width - 1
    else width

unfoldable pub pad_width : ℕ → ℕ → List ℕ → List ℕ
unfolding pad_zeros
pad_width width flags buffer =
    if not (is_set flags flags_left) && is_set flags flags_zeropad
    then pad_zeros integer_buffer_size width buffer
    else buffer

-- Taking back zeros of the padding, where there are any.
unfoldable pub take_back : ℕ → List ℕ → List ℕ
take_back unpadded_len buffer = if ltb unpadded_len (length buffer) then advance buffer else buffer

unfoldable pub make_room : ℕ → ℕ → ℕ → ℕ → ℕ → List ℕ → List ℕ
unfolding take_back
make_room unpadded_len base precision width flags buffer =
    let len = length buffer in
    if not (is_set flags flags_precision) && (not (len == 0) && (len == precision || len == width))
    then (let once = take_back unpadded_len buffer in
        if not (length once == 0) && (base == 16 || base == 2)
        then take_back unpadded_len once
        else once)
    else buffer

-- The letter of the prefix, and the zero in front of it.
unfoldable pub push_prefix : ℕ → ℕ → List ℕ → List ℕ
unfolding push
push_prefix base flags buffer = push b'0' (
    if base == 16
    then push (if is_set flags flags_uppercase then b'X' else b'x') buffer
    else if base == 2
    then push b'b' buffer
    else buffer)

unfoldable pub push_sign : Bool → ℕ → List ℕ → List ℕ
unfolding push
push_sign negative flags buffer =
    if negative
    then push b'-' buffer
    else if is_set flags flags_plus
    then push b'+' buffer
    else if is_set flags flags_space
    then push b' ' buffer
    else buffer

-- The buffer that is written at last, and the width and the flags that go with it.
pub record Finished : Type 0 where
  pub buffer : List ℕ
  pub width : ℕ
  pub flags : ℕ

unfoldable pub finish : List ℕ → Bool → ℕ → ℕ → ℕ → ℕ → Finished
unfolding sign_width pad_width pad_zeros make_room push_prefix push_sign
finish digits negative base precision width flags =
    let width' = sign_width negative width flags in
    let padded = pad_zeros integer_buffer_size precision (pad_width width' flags digits) in
    let flags' =
      if base == 8 && ltb (length digits) (length padded)
      then without flags flags_hash
      else flags in
    let prefixed =
      if is_set flags' (bit_or flags_hash flags_pointer)
      then push_prefix base flags' (make_room (length digits) base precision width' flags' padded)
      else padded in
    record { buffer = push_sign negative flags' prefixed; width = width'; flags = flags' }

unfoldable pub finalize_integer : File → List ℕ → Bool → ℕ → ℕ → ℕ → ℕ → File
unfolding finish output_reverse
finalize_integer fp digits negative base precision width flags =
    let r = finish digits negative base precision width flags in
    output_reverse fp r.buffer r.width r.flags

unfoldable pub digit_char : ℕ → ℕ → ℕ
digit_char flags digit =
    if ltb digit 10
    then b'0' + digit
    else (if is_set flags flags_uppercase then b'A' else b'a') + digit - 10

-- `do … while(value && len < INTEGER_BUFFER_SIZE)`, with the room left in the buffer.
unfoldable pub put_digits : ℕ → ℕ → ℕ → ℕ → List ℕ → List ℕ
unfolding digit_char
put_digits zero base flags value buffer = buffer
put_digits (suc room) base flags value buffer =
    let buffer' = digit_char flags (value % base) ∷ buffer in
    let rest = put_digits room base flags (value / base) buffer' in
    if value / base == 0 then buffer' else rest

-- The digits, and the flags behind them.
unfoldable pub digits_and_flags : ℕ → ℕ → ℕ → List ℕ × ℕ
unfolding put_digits
digits_and_flags value base flags =
    if value == 0
    then (if not (is_set flags flags_precision)
        then (b'0' ∷ [], without flags flags_hash)
        else if base == 16
        then ([], without flags flags_hash)
        else ([], flags))
    else (put_digits integer_buffer_size base flags value [], flags)

unfoldable pub print_integer : File → ℕ → Bool → ℕ → ℕ → ℕ → ℕ → File
unfolding digits_and_flags finalize_integer
print_integer fp value negative base precision width flags =
    let (digits, flags') = digits_and_flags value base flags in
    finalize_integer fp digits negative base precision width flags'

-- The flags of a directive, and the format behind them.
unfoldable pub parse_flags : ℕ → List ℕ → ℕ × List ℕ
parse_flags flags [] = (flags, [])
parse_flags flags (c ∷ format) =
    if c == b'0'
    then parse_flags (bit_or flags flags_zeropad) format
    else if c == b'-'
    then parse_flags (bit_or flags flags_left) format
    else if c == b'+'
    then parse_flags (bit_or flags flags_plus) format
    else if c == b' '
    then parse_flags (bit_or flags flags_space) format
    else if c == b'#'
    then parse_flags (bit_or flags flags_hash) format
    else (flags, c ∷ format)
