-- ===== src/Libc/Format.antt =====
-- `format_string` of `libc/stdio/print.c` and the functions over it in `libc/stdio/vprintf.c`. A format
-- is the list of its bytes up to the terminating NUL, and the arguments are a list.
pub mod Shorter
pub mod Laws
pub mod Directives
pub mod Closed
pub mod Kept
pub mod Termination
pub mod Calls
pub mod Text
pub mod Tests
use phoebe.Base.{
  ℕ, zero, suc, ◌+◌, ◌-◌, ◌*◌, ◌/◌, ◌%◌, ◌^◌, bit_and, bit_or, ltb, leb, ◌==◌, not, Bool, true,
  false, ◌&&◌, ◌||◌, if◌then◌else◌, u8, u64, List, [], ◌∷◌, Option, none, some, length,
}
use phoebe.Libc.Memory.{Memory, store_bytes}
use phoebe.Libc.Stdio.{File, put, append_termination}
use phoebe.Libc.Ctype.{isdigit}
use phoebe.Libc.Strtol.{deref, advance, char_to_int}
use phoebe.Libc.Cstring.{strnlen}
use phoebe.Libc.Print.{
  flags_zeropad, flags_left, flags_plus, flags_space, flags_hash, flags_uppercase, flags_precision,
  flags_pointer, is_set, without, stdio_atou, put_spaces, put_all, output_reverse, print_integer,
  parse_flags,
}

module _ where
  abbrev pub flags_char : ℕ
  flags_char = 2 ^ 6

  abbrev pub flags_short : ℕ
  flags_short = 2 ^ 7

  abbrev pub flags_int : ℕ
  flags_int = 2 ^ 8

  abbrev pub flags_long : ℕ
  flags_long = 2 ^ 9

  abbrev pub flags_long_long : ℕ
  flags_long_long = 2 ^ 10

  abbrev pub flags_signed : ℕ
  flags_signed = 2 ^ 14

-- `INT_MAX`, as `MAX_POSSIBLE_BUFFER_SIZE`.
abbrev pub max_possible_buffer_size : ℕ
max_possible_buffer_size = 2 ^ 31 - 1

-- A variable argument: its 64 bits, or a pointer to a text.
pub data Argument : Type 0 where
  word : ℕ → Argument
  text : List ℕ → Argument

-- How a call ends: with `SYSTEM_OK`, with `SYSTEM_ERR_CANCELED`, or in what the language leaves
-- undefined: no argument of the kind that is asked for, a negation that overflows, or a read behind the
-- end of the format. `spent` is the end of the fuel.
pub data PrintStatus : Type 0 where
  system_ok err_canceled bad_argument overflow overrun spent : PrintStatus

pub data Attempt {ℓ} (A : Type ℓ) : Type ℓ where
  got : A → Attempt A
  halt : PrintStatus → Attempt A

module _ {ℓ κ} {A : Type ℓ} {B : Type κ} where
  infixl 5 ◌>>=◌
  abbrev pub ◌>>=◌ : Attempt A → (A → Attempt B) → Attempt B
  got a >>= f = f a
  halt status >>= f = halt status

-- `ADVANCE_IN_FORMAT_STRING`
abbrev pub advance_in_format : List ℕ → Attempt (List ℕ)
advance_in_format [] = halt err_canceled
advance_in_format (c ∷ []) = halt err_canceled
advance_in_format (c ∷ d ∷ format) = got (d ∷ format)

-- `va_arg`, of an integer or a pointer as its 64 bits.
abbrev pub next_word : List Argument → Attempt (ℕ × List Argument)
next_word [] = halt bad_argument
next_word (word w ∷ args) = got (w, args)
next_word (text s ∷ args) = halt bad_argument

-- What is known of a directive, the format behind it, and the arguments that are left.
pub record Directive : Type 0 where
  pub flags : ℕ
  pub width : ℕ
  pub precision : ℕ
  pub format : List ℕ
  pub args : List Argument

-- `flags |= mask`
abbrev pub with_flags : ℕ → Directive → Directive
with_flags mask d = record d { flags = bit_or d.flags mask }

-- An `int` in 32 bits is negative from `2 ^ 31` on.
abbrev pub is_negative : ℕ → ℕ → Bool
is_negative bits w = leb (2 ^ (bits - 1)) (w % 2 ^ bits)

-- The width `*`.
unfoldable pub width_argument : Directive → Attempt Directive
width_argument d = do
  (w, args) ← next_word d.args
  let wide = w % 2 ^ 32
  if wide == 2 ^ 31 then halt overflow else (do
    format ← advance_in_format d.format
    if is_negative 32 w
        then got (record {
          flags = bit_or d.flags flags_left;
          width = 2 ^ 32 - wide;
          precision = d.precision;
          format = format;
          args = args;
        })
        else got (record d { width = wide; format = format; args = args }))

unfoldable pub parse_width : Directive → Attempt Directive
parse_width d =
    if isdigit (char_to_int (deref d.format))
    then got (record d { width = (stdio_atou 0 d.format).0; format = (stdio_atou 0 d.format).1 })
    else if deref d.format == b'*'
    then width_argument d
    else got d

-- The digits behind the minus sign of a negative precision.
unfoldable pub skip_digits : List ℕ → Attempt (List ℕ)
skip_digits [] = halt err_canceled
skip_digits (c ∷ format) = if isdigit (char_to_int c) then skip_digits format else got (c ∷ format)

-- The precision `*`.
unfoldable pub precision_argument : Directive → Attempt Directive
precision_argument d = do
  (w, args) ← next_word d.args
  format ← advance_in_format d.format
  if is_negative 32 w
      then got (record d { flags = without d.flags flags_precision; format = format; args = args })
      else got (record d { precision = w % 2 ^ 32; format = format; args = args })

-- What stands behind the dot.
unfoldable pub precision_value : Directive → Attempt Directive
precision_value d =
    let c = deref d.format in
    if c == b'-'
    then (do
      format ← skip_digits (advance d.format)
      got (record d { flags = without d.flags flags_precision; format = format }))
    else if isdigit (char_to_int c)
    then got
        (record d { precision = (stdio_atou 0 d.format).0; format = (stdio_atou 0 d.format).1 })
    else if c == b'*'
    then precision_argument d
    else got d

unfoldable pub parse_precision : Directive → Attempt Directive
parse_precision d =
    if deref d.format == b'.'
    then (do
      format ← advance_in_format d.format
      precision_value (record d { flags = bit_or d.flags flags_precision; format = format }))
    else got d

-- A letter that sets flags, and is passed.
unfoldable pub passing : ℕ → Directive → Attempt Directive
passing mask d = do
  format ← advance_in_format d.format
  got (record d { flags = bit_or d.flags mask; format = format })

-- The letter `c`, once more or not.
unfoldable pub passing_twice : ℕ → ℕ → ℕ → Directive → Attempt Directive
passing_twice c once twice d = do
  e ← passing once d
  if deref e.format == c then passing twice e else got e

-- The first digit of a size in bits is passed, and then the second digit `c` or nothing.
unfoldable pub second_digit : ℕ → (Directive → Attempt Directive) → Directive → Attempt Directive
second_digit c pass d = do e ← passing 0 d; if deref e.format == c then pass e else got e

-- The 6 of `16` is passed also where the format ends behind it.
unfoldable pub pass_16 : Directive → Attempt Directive
pass_16 d = got (record d { flags = bit_or d.flags flags_short; format = advance d.format })

-- The size in bits behind an `I`.
unfoldable pub parse_bits : Directive → Attempt Directive
parse_bits d =
    let c = deref d.format in
    if c == b'8'
    then passing flags_char d
    else if c == b'1'
    then second_digit b'6' pass_16 d
    else if c == b'3'
    then second_digit b'2' (passing flags_int) d
    else if c == b'6'
    then second_digit b'4' (passing flags_long) d
    else got d

-- `ptrdiff_t`, `intmax_t` and `size_t` have the size of `long`.
unfoldable pub parse_length : Directive → Attempt Directive
parse_length d =
    let c = deref d.format in
    if c == b'I'
    then (do e ← passing 0 d; parse_bits e)
    else if c == b'l'
    then passing_twice b'l' flags_long flags_long_long d
    else if c == b'h'
    then passing_twice b'h' flags_short flags_char d
    else if c == b't' || (c == b'j' || c == b'z')
    then passing flags_long d
    else got d

-- What a directive leaves: the stream, the format behind it, and the arguments.
abbrev pub Rest : Type 0
Rest = File × List ℕ × List Argument

-- `STDIO_ABS` of a signed value of `bits` bits.
abbrev pub magnitude : ℕ → ℕ → ℕ
magnitude bits w = if is_negative bits w then 2 ^ bits - w % 2 ^ bits else w % 2 ^ bits

-- The bits of an argument that a length leaves.
unfoldable pub bits_of : ℕ → ℕ
bits_of flags =
    if is_set flags flags_long_long || is_set flags flags_long
    then 64
    else if is_set flags flags_char
    then 8
    else if is_set flags flags_short
    then 16
    else 32

unfoldable pub print_signed : File → ℕ → ℕ → Directive → Attempt Rest
print_signed fp flags base d = do
  (w, args) ← next_word d.args
  let bits = bits_of flags
  got (
    print_integer fp (magnitude bits w) (is_negative bits w) base d.precision d.width flags,
    advance d.format,
    args,
  )

unfoldable pub print_unsigned : File → ℕ → ℕ → Directive → Attempt Rest
print_unsigned fp flags base d = do
  (w, args) ← next_word d.args
  let flags' = without flags (bit_or flags_plus flags_space)
  got (
    print_integer fp (w % 2 ^ bits_of flags') false base d.precision d.width flags',
    advance d.format,
    args,
  )

abbrev pub base_of : ℕ → ℕ
base_of c =
    if c == b'x' || c == b'X' then 16 else if c == b'o' then 8 else if c == b'b' then 2 else 10

-- The flags that the letter `c` leaves for the conversion of an integer.
unfoldable pub integer_flags : ℕ → ℕ → ℕ
integer_flags c flags =
    let signed = if c == b'd' || c == b'i' then bit_or flags flags_signed else flags in
    let plain = if base_of c == 10 then without signed flags_hash else signed in
    let upper = if c == b'X' then bit_or plain flags_uppercase else plain in
    if is_set upper flags_precision then without upper flags_zeropad else upper

unfoldable pub print_number : File → Directive → Attempt Rest
print_number fp d =
    let c = deref d.format in
    let flags = integer_flags c d.flags in
    if is_set flags flags_signed
    then print_signed fp flags (base_of c) d
    else print_unsigned fp flags (base_of c) d

-- `while(len++ < width) putc(' ', fp);`
abbrev pub pad_columns : ℕ → ℕ → File → File
pad_columns len width fp = put_spaces (width - len) fp

unfoldable pub print_char : File → Directive → Attempt Rest
print_char fp d = do
  (w, args) ← next_word d.args
  let front = if not (is_set d.flags flags_left) then pad_columns 1 d.width fp else fp
  let written = put front (u8 w)
  got (
    if is_set d.flags flags_left then pad_columns 1 d.width written else written,
    advance d.format,
    args,
  )

-- `while((*str != '\0') && (!(flags & FLAGS_PRECISION) || precision))`
unfoldable pub put_text : Bool → ℕ → List ℕ → File → File
put_text bounded precision [] fp = fp
put_text bounded zero (c ∷ str) fp = if bounded then fp else put_text bounded zero str (put fp c)
put_text bounded (suc precision) (c ∷ str) fp = put_text bounded precision str (put fp c)

unfoldable pub print_text : File → List ℕ → Directive → File
print_text fp str d =
    let found = strnlen str (if d.precision == 0 then max_possible_buffer_size else d.precision) in
    let bounded = is_set d.flags flags_precision in
    let len = if bounded then (if ltb found d.precision then found else d.precision) else found in
    let front = if not (is_set d.flags flags_left) then pad_columns len d.width fp else fp in
    let written = put_text bounded d.precision str front in
    if is_set d.flags flags_left then pad_columns len d.width written else written

-- A null pointer prints the padding only, since the length of its text is given as 0.
unfoldable pub print_string : File → Directive → Attempt Rest
print_string fp d = elim d.args [
  | [] ↦ halt bad_argument
  | text str ∷ args ↦ got (print_text fp str d, advance d.format, args)
  | word w ∷ args ↦
      if w == 0
      then got (output_reverse fp [] d.width d.flags, advance d.format, args)
      else halt bad_argument
]

-- The width is that of `0x` and 16 digits.
unfoldable pub print_pointer : File → Directive → Attempt Rest
print_pointer fp d = do
  (value, args) ← next_word d.args
  let flags = bit_or d.flags (bit_or flags_zeropad flags_pointer)
  got (
    if value == 0
        then output_reverse fp (b'(' ∷ b'n' ∷ b'i' ∷ b'l' ∷ b')' ∷ []) 18 flags
        else print_integer fp value false 16 d.precision 18 flags,
    advance d.format,
    args,
  )

-- The bytes of the position that `%n` stores.
unfoldable pub stored_bytes : ℕ → ℕ
stored_bytes flags =
    if is_set flags flags_char
    then 1
    else if is_set flags flags_short
    then 2
    else if is_set flags flags_long || is_set flags flags_long_long
    then 8
    else 4

unfoldable pub store_position : File → Directive → Attempt Rest
store_position fp d = do
  (ptr, args) ← next_word d.args
  got (
    record fp { memory = store_bytes (stored_bytes d.flags) fp.memory ptr fp.position },
    advance d.format,
    args,
  )

abbrev pub is_number : ℕ → Bool
is_number c =
    c == b'd'
    || (c == b'i' || (c == b'u' || (c == b'x' || (c == b'X' || (c == b'o' || c == b'b')))))

-- The specifier. Where the format ends in front of it the NUL is written, and read past.
unfoldable pub convert : File → Directive → Attempt Rest
convert fp d =
    let c = deref d.format in
    if is_number c
    then print_number fp d
    else if c == b'c'
    then print_char fp d
    else if c == b's'
    then print_string fp d
    else if c == b'p'
    then print_pointer fp d
    else if c == b'n'
    then store_position fp d
    else if c == 0
    then halt overrun
    else got (put fp c, advance d.format, d.args)

-- A directive behind its `%`, where the format does not end.
unfoldable pub run_directive : File → List ℕ → List Argument → Attempt Rest
run_directive fp format args = do
  a ← parse_width (record {
    flags = (parse_flags 0 format).0;
    width = 0;
    precision = 0;
    format = (parse_flags 0 format).1;
    args = args;
  })
  b ← parse_precision a
  c ← parse_length b
  convert fp c

-- How the loop goes on behind a directive.
abbrev pub resume :
    (File → List ℕ → List Argument → PrintStatus × File) → File → Attempt Rest → PrintStatus × File
resume again fp (halt status) = (status, fp)
resume again fp (got (fp', format, args)) = again fp' format args

-- A round of the loop at the character `c`.
unfoldable pub round :
    (File → List ℕ → List Argument → PrintStatus × File)
    → File
    → ℕ
    → List ℕ
    → List Argument
    → PrintStatus × File
round again fp c [] args = elim (c == b'%') [
  | true ↦ (err_canceled, fp)
  | false ↦ again (put fp c) [] args
]
round again fp c (d ∷ rest) args = elim (c == b'%') [
  | true ↦ resume again fp (run_directive fp (d ∷ rest) args)
  | false ↦ again (put fp c) (d ∷ rest) args
]

-- The loop, on fuel: each round passes a character of the format.
unfoldable pub format_string : ℕ → File → List ℕ → List Argument → PrintStatus × File
format_string zero fp format args = (spent, fp)
format_string (suc fuel) fp [] args = (system_ok, fp)
format_string (suc fuel) fp (c ∷ format) args = round (format_string fuel) fp c format args

-- `vsnprintf_internal`
unfoldable pub vsnprintf_internal : File → List ℕ → List Argument → PrintStatus × File
vsnprintf_internal fp format args =
    let r = format_string (suc (length format)) fp format args in (r.0, append_termination r.1)

-- `vsnprintf` gives the status and the memory.
unfoldable pub vsnprintf : Memory → ℕ → ℕ → List ℕ → List Argument → PrintStatus × Memory
vsnprintf m buffer maxlen format args =
    let stream : File = record {
      buffer = buffer;
      buffer_size = maxlen;
      position = 0;
      write_func = none;
      sent = [];
      memory = m;
    } in
    let r = vsnprintf_internal stream format args in (r.0, r.1.memory)

-- `ULONG_MAX` is the size.
unfoldable pub vsprintf : Memory → ℕ → List ℕ → List Argument → PrintStatus × Memory
vsprintf m buffer format args = vsnprintf m buffer (2 ^ 64 - 1) format args
