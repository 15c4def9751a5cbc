-- ===== src/Libc/Format/Kept.antt =====
-- No part of a directive passes the end of a format that ends behind a directive or plain text.
use phoebe.Base.{ℕ, ◌≡◌, refl, true, false, ◌==◌, ==_iff, List, [], ◌∷◌, arith}
use phoebe.Libc.Ctype.{isdigit}
use phoebe.Libc.Strtol.{deref, advance, char_to_int}
use phoebe.Libc.Stdio.{File}
use phoebe.Libc.Format.{
  Argument, word, text, err_canceled, bad_argument, overflow, overrun, flags_char, flags_int,
  flags_long, flags_long_long, flags_short, Attempt, got, halt, ◌>>=◌, next_word, Directive,
  parse_width, width_argument, parse_precision, precision_argument, precision_value, skip_digits,
  passing, passing_twice, second_digit, pass_16, parse_bits, parse_length, print_number,
  print_signed, print_unsigned, print_char, print_string, print_pointer, store_position, convert,
  run_directive,
}
use phoebe.Libc.Format.Closed.{
  IsLive, IsClosed, bind-Keeps, if-Keeps, if_true-Keeps, IsLiveAt, IsClosedBehind, next_word-Keeps,
  advance_in_format-Keeps, advance-IsClosed, deref-IsLive, no_digit, stdio_atou-IsLive,
  parse_flags-IsLive, Keeps, keeps, stops, nothing, live, last, more,
}

width_argument-Keeps : (d : Directive) → IsLiveAt d → Keeps IsLiveAt (width_argument d)
unfolding width_argument
width_argument-Keeps d l = bind-Keeps (next_word-Keeps d.args) (λ r _.
    if-Keeps _ (stops overflow refl) (
      bind-Keeps (advance_in_format-Keeps d.format l)
        (λ format h. if-Keeps _ (keeps _ h) (keeps _ h))))

parse_width-Keeps : (d : Directive) → IsLiveAt d → Keeps IsLiveAt (parse_width d)
unfolding parse_width
parse_width-Keeps d l =
    if-Keeps _ (keeps _ (stdio_atou-IsLive d.format l 0))
      (if-Keeps _ (width_argument-Keeps d l) (keeps d l))

skip_digits-Keeps : (s : List ℕ) → IsClosed s → Keeps IsLive (skip_digits s)
unfolding skip_digits
skip_digits-Keeps _ nothing = stops err_canceled refl
skip_digits-Keeps [] (live l) = stops err_canceled refl
skip_digits-Keeps (c ∷ s) (live l) =
    if-Keeps _ (skip_digits-Keeps s (advance-IsClosed (c ∷ s) l)) (keeps _ l)

precision_argument-Keeps : (d : Directive) → IsLiveAt d → Keeps IsLiveAt (precision_argument d)
unfolding precision_argument
precision_argument-Keeps d l = bind-Keeps (next_word-Keeps d.args) (λ r _.
    bind-Keeps (advance_in_format-Keeps d.format l)
      (λ format h. if-Keeps _ (keeps _ h) (keeps _ h)))

precision_value-Keeps : (d : Directive) → IsLiveAt d → Keeps IsLiveAt (precision_value d)
unfolding precision_value
precision_value-Keeps d l =
    if-Keeps _
      (bind-Keeps (skip_digits-Keeps (advance d.format) (advance-IsClosed d.format l))
        (λ format h. keeps _ h))
      (if-Keeps _ (keeps _ (stdio_atou-IsLive d.format l 0))
        (if-Keeps _ (precision_argument-Keeps d l) (keeps d l)))

parse_precision-Keeps : (d : Directive) → IsLiveAt d → Keeps IsLiveAt (parse_precision d)
unfolding parse_precision
parse_precision-Keeps d l =
    if-Keeps _
      (bind-Keeps (advance_in_format-Keeps d.format l) (λ format h. precision_value-Keeps _ h))
      (keeps d l)

passing-Keeps : (mask : ℕ) (d : Directive) → IsLiveAt d → Keeps IsLiveAt (passing mask d)
unfolding passing
passing-Keeps mask d l = bind-Keeps (advance_in_format-Keeps d.format l) (λ format h. keeps _ h)

passing_twice-Keeps :
    (c once twice : ℕ) (d : Directive) → IsLiveAt d → Keeps IsLiveAt (passing_twice c once twice d)
unfolding passing_twice
passing_twice-Keeps c once twice d l =
    bind-Keeps (passing-Keeps once d l) (λ e h. if-Keeps _ (passing-Keeps twice e h) (keeps e h))

second_digit-Keeps :
    (c : ℕ) (pass : Directive → Attempt Directive) (d : Directive)
    → IsLiveAt d
    → ((e : Directive) → IsLiveAt e → (deref e.format == c) ≡ true → Keeps IsLiveAt (pass e))
    → Keeps IsLiveAt (second_digit c pass d)
unfolding second_digit
second_digit-Keeps c pass d l k =
    bind-Keeps (passing-Keeps 0 d l)
      (λ e h. if_true-Keeps (deref e.format == c) (λ test. k e h test) (keeps e h))

-- The 6 is not the end of the format.
advance-IsLive : (s : List ℕ) → IsLive s → (deref s == b'6') ≡ true → IsLive (advance s)
unfolding isdigit
advance-IsLive _ (last {c} h) e =
    let six : c ≡ b'6' = (==_iff c b'6').0 e in
    let digit : isdigit (char_to_int c) ≡ true = rw six refl in
    let bad : true ≡ false = rw digit at (no_digit c h) in ground (arith, bad)
advance-IsLive _ (more n l) e = l

pass_16-Keeps :
    (d : Directive) → IsLiveAt d → (deref d.format == b'6') ≡ true → Keeps IsLiveAt (pass_16 d)
unfolding pass_16
pass_16-Keeps d l e = keeps _ (advance-IsLive d.format l e)

parse_bits-Keeps : (d : Directive) → IsLiveAt d → Keeps IsLiveAt (parse_bits d)
unfolding parse_bits
parse_bits-Keeps d l = if-Keeps _ (passing-Keeps flags_char d l) (
    if-Keeps _ (second_digit-Keeps b'6' pass_16 d l pass_16-Keeps) (
      if-Keeps _ (second_digit-Keeps b'2' _ d l (λ e h _. passing-Keeps flags_int e h)) (
        if-Keeps _ (second_digit-Keeps b'4' _ d l (λ e h _. passing-Keeps flags_long e h))
          (keeps d l))))

parse_length-Keeps : (d : Directive) → IsLiveAt d → Keeps IsLiveAt (parse_length d)
unfolding parse_length
parse_length-Keeps d l =
    if-Keeps _ (bind-Keeps (passing-Keeps 0 d l) (λ e h. parse_bits-Keeps e h)) (
      if-Keeps _ (passing_twice-Keeps b'l' flags_long flags_long_long d l) (
        if-Keeps _ (passing_twice-Keeps b'h' flags_short flags_char d l)
          (if-Keeps _ (passing-Keeps flags_long d l) (keeps d l))))

word-Keeps :
    (d : Directive) (fp : ℕ → File)
    → IsLiveAt d
    → Keeps IsClosedBehind (do (w, args) ← next_word d.args; got (fp w, advance d.format, args))
word-Keeps d fp l =
    bind-Keeps (next_word-Keeps d.args) (λ r _. keeps _ (advance-IsClosed d.format l))

print_string-Keeps :
    (fp : File) (d : Directive) → IsLiveAt d → Keeps IsClosedBehind (print_string fp d)
unfolding print_string
print_string-Keeps fp d l = go d.args
  where
    go : (args : List Argument) → Keeps IsClosedBehind (print_string fp (record d { args = args }))
    go [] = stops bad_argument refl
    go (text str ∷ args) = keeps _ (advance-IsClosed d.format l)
    go (word w ∷ args) =
        if-Keeps _ (keeps _ (advance-IsClosed d.format l)) (stops bad_argument refl)

print_number-Keeps :
    (fp : File) (d : Directive) → IsLiveAt d → Keeps IsClosedBehind (print_number fp d)
unfolding print_number print_signed print_unsigned
print_number-Keeps fp d l = if-Keeps _ (word-Keeps d _ l) (word-Keeps d _ l)

print_char-Keeps : (fp : File) (d : Directive) → IsLiveAt d → Keeps IsClosedBehind (print_char fp d)
unfolding print_char
print_char-Keeps fp d l = word-Keeps d _ l

print_pointer-Keeps :
    (fp : File) (d : Directive) → IsLiveAt d → Keeps IsClosedBehind (print_pointer fp d)
unfolding print_pointer
print_pointer-Keeps fp d l = word-Keeps d _ l

store_position-Keeps :
    (fp : File) (d : Directive) → IsLiveAt d → Keeps IsClosedBehind (store_position fp d)
unfolding store_position
store_position-Keeps fp d l = word-Keeps d _ l

no_end :
    (d : Directive)
    → IsLiveAt d
    → (deref d.format == 0) ≡ true
    → Keeps IsClosedBehind (halt overrun)
no_end d l none =
    let bad : true ≡ false = rw none at (deref-IsLive d.format l) in ground (arith, bad)

convert-Keeps : (fp : File) (d : Directive) → IsLiveAt d → Keeps IsClosedBehind (convert fp d)
unfolding convert
convert-Keeps fp d l = if-Keeps _ (print_number-Keeps fp d l) (
    if-Keeps _ (print_char-Keeps fp d l) (
      if-Keeps _ (print_string-Keeps fp d l) (
        if-Keeps _ (print_pointer-Keeps fp d l) (
          if-Keeps _ (store_position-Keeps fp d l)
            (if_true-Keeps _ (no_end d l) (keeps _ (advance-IsClosed d.format l)))))))

-- A directive of such a format leaves the end of one or nothing.
pub run_directive-Keeps :
    (fp : File) (format : List ℕ) (args : List Argument)
    → IsLive format
    → Keeps IsClosedBehind (run_directive fp format args)
unfolding run_directive
run_directive-Keeps fp format args l =
    bind-Keeps (parse_width-Keeps _ (parse_flags-IsLive format l 0)) (λ a h.
      bind-Keeps (parse_precision-Keeps a h)
        (λ b h'. bind-Keeps (parse_length-Keeps b h') (λ c h''. convert-Keeps fp c h'')))
