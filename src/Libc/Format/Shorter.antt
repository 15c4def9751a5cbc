-- ===== src/Libc/Format/Shorter.antt =====
-- No part of a directive makes the format longer, and none runs out of fuel.
use phoebe.Base.{
  ℕ, ◌+◌, ◌-◌, ◌*◌, ◌^◌, ◌≤◌, ◌≡◌, refl, inl, inr, Bool-cases, Bool, true, false, if◌then◌else◌,
  List, [], ◌∷◌, length, arith, u64, bit_or,
}
use phoebe.Libc.Ctype.{isdigit}
use phoebe.Libc.Strtol.{advance, char_to_int}
use phoebe.Libc.Stdio.{File}
use phoebe.Libc.Print.{stdio_atou, parse_flags}
use phoebe.Libc.Format.{
  Argument, word, text, PrintStatus, err_canceled, bad_argument, overflow, overrun, flags_char,
  flags_int, flags_long, flags_long_long, flags_short, Attempt, got, halt, ◌>>=◌, advance_in_format,
  next_word, Directive, parse_width, width_argument, parse_precision, precision_argument,
  precision_value, skip_digits, passing, passing_twice, second_digit, pass_16, parse_bits,
  parse_length, Rest, print_number, print_signed, print_unsigned, print_char, print_string,
  print_pointer, store_position, convert, run_directive,
}

abbrev pub is_spent : PrintStatus → Bool
is_spent PrintStatus.spent = true
is_spent _ = false

-- The attempt ended otherwise than out of fuel, or with something of a size up to `n`.
pub data Within {A : Type 0} (size : A → ℕ) (n : ℕ) : Attempt A → Type 0 where
  within : (a : A) → size a ≤ n → Within size n (got a)
  stopped : (status : PrintStatus) → is_spent status ≡ false → Within size n (halt status)

bind-Within :
    {A B : Type 0} {size : A → ℕ} {size' : B → ℕ} {n m : ℕ} {a : Attempt A} {f : A → Attempt B}
    → Within size n a
    → ((x : A) → size x ≤ n → Within size' m (f x))
    → Within size' m (a >>= f)
bind-Within (within a h) k = k a h
bind-Within (stopped status h) k = stopped status h

Within-le :
    {A : Type 0} {size : A → ℕ} {n m : ℕ} {a : Attempt A}
    → Within size n a
    → n ≤ m
    → Within size m a
Within-le (within a h) le = within a (omega (arith, h, le))
Within-le (stopped status h) le = stopped status h

if-Within :
    {A : Type 0} {size : A → ℕ} {n : ℕ} (b : Bool) {x y : Attempt A}
    → Within size n x
    → Within size n y
    → Within size n (if b then x else y)
if-Within true p q = p
if-Within false p q = q

trans_le : {a b c : ℕ} → a ≤ b → b ≤ c → a ≤ c
trans_le p q = omega (arith, p, q)

same_le : (a : ℕ) → a ≤ a
same_le a = omega arith

abbrev pub left : Directive → ℕ
left d = length d.format

abbrev pub behind : Rest → ℕ
behind r = length r.1

abbrev no_size : ℕ × List Argument → ℕ
no_size r = 0

length-advance : (s : List ℕ) → length (advance s) ≤ length s
length-advance [] = omega arith
length-advance (c ∷ s) = omega arith

next_word-Within : (args : List Argument) → Within no_size 0 (next_word args)
next_word-Within [] = stopped bad_argument refl
next_word-Within (word w ∷ args) = within _ (omega arith)
next_word-Within (text s ∷ args) = stopped bad_argument refl

advance_in_format-Within :
    (format : List ℕ) → Within length (length format) (advance_in_format format)
advance_in_format-Within [] = stopped err_canceled refl
advance_in_format-Within (c ∷ []) = stopped err_canceled refl
advance_in_format-Within (c ∷ d ∷ format) = within _ (omega arith)

length-stdio_atou : (val : ℕ) (s : List ℕ) → length (stdio_atou val s).1 ≤ length s
unfolding stdio_atou
length-stdio_atou val [] = omega arith
length-stdio_atou val (c ∷ s) = elim (Bool-cases (isdigit (char_to_int c))) [
  | inl digit ↦
      rw digit
        (let rest = length-stdio_atou (u64 (u64 (val * 10) + (c - b'0'))) s in omega (arith, rest))
  | inr other ↦ rw other (omega arith)
]

pub length-parse_flags : (flags : ℕ) (s : List ℕ) → length (parse_flags flags s).1 ≤ length s
unfolding parse_flags
length-parse_flags flags [] = omega arith
length-parse_flags flags (c ∷ s) = ground (
  arith,
  length-parse_flags (bit_or flags (2 ^ 0)) s,
  length-parse_flags (bit_or flags (2 ^ 1)) s,
  length-parse_flags (bit_or flags (2 ^ 2)) s,
  length-parse_flags (bit_or flags (2 ^ 3)) s,
  length-parse_flags (bit_or flags (2 ^ 4)) s,
)

width_argument-Within : (d : Directive) → Within left (left d) (width_argument d)
unfolding width_argument
width_argument-Within d = bind-Within (next_word-Within d.args) (λ r _.
    if-Within _ (stopped overflow refl) (
      bind-Within (advance_in_format-Within d.format)
        (λ format h. if-Within _ (within _ h) (within _ h))))

parse_width-Within : (d : Directive) → Within left (left d) (parse_width d)
unfolding parse_width
parse_width-Within d =
    if-Within _ (within _ (length-stdio_atou 0 d.format))
      (if-Within _ (width_argument-Within d) (within _ (same_le _)))

skip_digits-Within : (s : List ℕ) → Within length (length s) (skip_digits s)
unfolding skip_digits
skip_digits-Within [] = stopped err_canceled refl
skip_digits-Within (c ∷ s) =
    if-Within _ (Within-le (skip_digits-Within s) (omega arith)) (within _ (same_le _))

precision_argument-Within : (d : Directive) → Within left (left d) (precision_argument d)
unfolding precision_argument
precision_argument-Within d = bind-Within (next_word-Within d.args) (λ r _.
    bind-Within (advance_in_format-Within d.format)
      (λ format h. if-Within _ (within _ h) (within _ h)))

precision_value-Within : (d : Directive) → Within left (left d) (precision_value d)
unfolding precision_value
precision_value-Within d =
    if-Within _
      (bind-Within (skip_digits-Within (advance d.format))
        (λ format h. within _ (trans_le h (length-advance d.format))))
      (if-Within _ (within _ (length-stdio_atou 0 d.format))
        (if-Within _ (precision_argument-Within d) (within _ (same_le _))))

parse_precision-Within : (d : Directive) → Within left (left d) (parse_precision d)
unfolding parse_precision
parse_precision-Within d =
    if-Within _
      (bind-Within (advance_in_format-Within d.format)
        (λ format h. Within-le (precision_value-Within _) h))
      (within _ (same_le _))

passing-Within : (mask : ℕ) (d : Directive) → Within left (left d) (passing mask d)
unfolding passing
passing-Within mask d = bind-Within (advance_in_format-Within d.format) (λ format h. within _ h)

passing_twice-Within :
    (c once twice : ℕ) (d : Directive) → Within left (left d) (passing_twice c once twice d)
unfolding passing_twice
passing_twice-Within c once twice d =
    bind-Within (passing-Within once d)
      (λ e h. if-Within _ (Within-le (passing-Within twice e) h) (within _ h))

second_digit-Within :
    (c : ℕ) (pass : Directive → Attempt Directive) (d : Directive)
    → ((e : Directive) → Within left (left e) (pass e))
    → Within left (left d) (second_digit c pass d)
unfolding second_digit
second_digit-Within c pass d k =
    bind-Within (passing-Within 0 d) (λ e h. if-Within _ (Within-le (k e) h) (within _ h))

pass_16-Within : (d : Directive) → Within left (left d) (pass_16 d)
unfolding pass_16
pass_16-Within d = within _ (length-advance d.format)

parse_bits-Within : (d : Directive) → Within left (left d) (parse_bits d)
unfolding parse_bits
parse_bits-Within d = if-Within _ (passing-Within flags_char d) (
    if-Within _ (second_digit-Within b'6' pass_16 d pass_16-Within) (
      if-Within _ (second_digit-Within b'2' _ d (passing-Within flags_int)) (
        if-Within _ (second_digit-Within b'4' _ d (passing-Within flags_long))
          (within d (same_le _)))))

parse_length-Within : (d : Directive) → Within left (left d) (parse_length d)
unfolding parse_length
parse_length-Within d =
    if-Within _ (bind-Within (passing-Within 0 d) (λ e h. Within-le (parse_bits-Within e) h)) (
      if-Within _ (passing_twice-Within b'l' flags_long flags_long_long d) (
        if-Within _ (passing_twice-Within b'h' flags_short flags_char d)
          (if-Within _ (passing-Within flags_long d) (within _ (same_le _)))))

word-Within :
    (d : Directive) (fp : ℕ → File)
    → Within behind (left d) (do (w, args) ← next_word d.args; got (fp w, advance d.format, args))
word-Within d fp = bind-Within (next_word-Within d.args) (λ r _. within _ (length-advance d.format))

print_string-Within : (fp : File) (d : Directive) → Within behind (left d) (print_string fp d)
unfolding print_string
print_string-Within fp d = go d.args
  where
    go :
        (args : List Argument) → Within behind (left d) (print_string fp (record d { args = args }))
    go [] = stopped bad_argument refl
    go (text str ∷ args) = within _ (length-advance d.format)
    go (word w ∷ args) =
        if-Within _ (within _ (length-advance d.format)) (stopped bad_argument refl)

print_number-Within : (fp : File) (d : Directive) → Within behind (left d) (print_number fp d)
unfolding print_number print_signed print_unsigned
print_number-Within fp d = if-Within _ (word-Within d _) (word-Within d _)

print_char-Within : (fp : File) (d : Directive) → Within behind (left d) (print_char fp d)
unfolding print_char
print_char-Within fp d = word-Within d _

print_pointer-Within : (fp : File) (d : Directive) → Within behind (left d) (print_pointer fp d)
unfolding print_pointer
print_pointer-Within fp d = word-Within d _

store_position-Within : (fp : File) (d : Directive) → Within behind (left d) (store_position fp d)
unfolding store_position
store_position-Within fp d = word-Within d _

convert-Within : (fp : File) (d : Directive) → Within behind (left d) (convert fp d)
unfolding convert
convert-Within fp d = if-Within _ (print_number-Within fp d) (
    if-Within _ (print_char-Within fp d) (
      if-Within _ (print_string-Within fp d) (
        if-Within _ (print_pointer-Within fp d) (
          if-Within _ (store_position-Within fp d)
            (if-Within _ (stopped overrun refl) (within _ (length-advance d.format)))))))

-- A directive leaves no more of the format than it had.
pub run_directive-Within :
    (fp : File) (format : List ℕ) (args : List Argument)
    → Within behind (length format) (run_directive fp format args)
unfolding run_directive
run_directive-Within fp format args =
    bind-Within (Within-le (parse_width-Within _) (length-parse_flags 0 format)) (λ a h.
      bind-Within (Within-le (parse_precision-Within a) h) (λ b h'.
        bind-Within (Within-le (parse_length-Within b) h')
          (λ c h''. Within-le (convert-Within fp c) h'')))
