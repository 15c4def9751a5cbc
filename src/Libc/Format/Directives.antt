-- ===== src/Libc/Format/Directives.antt =====
-- Formats of plain text and of directives for unsigned numbers, and formats that end too early.
use phoebe.Base.{
  ℕ, suc, ◌^◌, ◌%◌, ◌≤◌, ◌<◌, ◌≡◌, refl, sym, ap, ◌∙◌, Bool, true, false, if◌then◌else◌, ◌==◌, not,
  ◌&&◌, ◌||◌, and_true, List, [], ◌∷◌, ◌++◌, length, arith, bit_or,
}
use mathlib.Core.List.{append-nil}
use phoebe.Base.Table.{all_below, all_below_sound}
use phoebe.Base.Bits.{bit_or-lt}
use phoebe.Libc.Ctype.{isdigit}
use phoebe.Libc.Strtol.{strtoul}
use phoebe.Libc.Stdio.{File, put}
use phoebe.Libc.Print.{
  put_all, parse_flags, print_integer, flags_plus, flags_space, is_set, without,
}
use phoebe.Libc.Print.Output.{put_all-append, position-lt}
use phoebe.Libc.Print.Laws.{print_integer-strtoul}
use phoebe.Libc.Format.{
  Argument, word, PrintStatus, system_ok, overrun, got, halt, Directive, parse_width,
  parse_precision, parse_length, passing, passing_twice, convert, print_number, print_unsigned,
  integer_flags, bits_of, flags_signed, flags_long, run_directive, resume, format_string,
}
use phoebe.Libc.Format.Laws.{printed, step_plain, step_directive, same_fuel}

-- No character begins a directive.
unfoldable pub is_plain : List ℕ → Bool
is_plain [] = true
is_plain (c ∷ p) = not (c == b'%') && is_plain p

-- Plain text is written as it stands, and what follows is printed behind it.
printed-plain :
    (p rest : List ℕ) (fp : File) (args : List Argument)
    → is_plain p ≡ true
    → printed fp (p ++ rest) args ≡ printed (put_all p fp) rest args
unfolding is_plain put_all
printed-plain [] rest fp args h = refl
printed-plain (c ∷ p) rest fp args h =
    let other : (c == b'%') ≡ false = ground (arith, h) in
    let more : is_plain p ≡ true = ground (arith, h) in
    step_plain (suc (length (p ++ rest))) fp c (p ++ rest) args other
    ∙ printed-plain p rest (put fp c) args more

pub printed-end : (fp : File) (args : List Argument) → printed fp [] args ≡ (system_ok, fp)
unfolding format_string
printed-end fp args = refl

printed-text :
    (p : List ℕ) (fp : File) (args : List Argument)
    → is_plain p ≡ true
    → printed fp p args ≡ (system_ok, put_all p fp)
unfolding is_plain put_all
printed-text [] fp args h = printed-end fp args
printed-text (c ∷ p) fp args h =
    let other : (c == b'%') ≡ false = ground (arith, h) in
    let more : is_plain p ≡ true = ground (arith, h) in
    step_plain (suc (length p)) fp c p args other ∙ printed-text p (put fp c) args more

-- The characters that set a flag.
abbrev pub is_flag : ℕ → Bool
is_flag c = c == b'0' || (c == b'-' || (c == b'+' || (c == b' ' || c == b'#')))

unfoldable pub are_flags : List ℕ → Bool
are_flags [] = true
are_flags (c ∷ fs) = is_flag c && are_flags fs

-- The bits of a character that sets a flag.
flag_of : ℕ → ℕ
flag_of c =
    if c == b'0'
    then 1
    else if c == b'-'
    then 2
    else if c == b'+'
    then 4
    else if c == b' '
    then 8
    else 16

parse_flags-suc :
    (flags c : ℕ) (s : List ℕ)
    → is_flag c ≡ true
    → (flag_of c < 32) × (parse_flags flags (c ∷ s) ≡ parse_flags (bit_or flags (flag_of c)) s)
unfolding parse_flags flag_of
parse_flags-suc flags c s h = ground (arith, h)

-- The flags are read up to a character that is none.
flags-read :
    (fs s : List ℕ) (flags : ℕ)
    → are_flags fs ≡ true
    → flags < 32
    → ((g : ℕ) → parse_flags g s ≡ (g, s))
    → (g : ℕ) × (g < 32) × (parse_flags flags (fs ++ s) ≡ (g, s))
unfolding are_flags
flags-read [] s flags h few stop = (flags, few, stop flags)
flags-read (c ∷ fs) s flags h few stop =
    let both = and_true _ _ h in
    let first = parse_flags-suc flags c (fs ++ s) both.0 in
    let (g, few', e) =
      flags-read fs s (bit_or flags (flag_of c)) both.1 (bit_or-lt 5 flags (flag_of c) few first.0)
        stop in
    (g, few', first.1 ∙ e)

pub stop-letter :
    (c : ℕ) (s : List ℕ) (g : ℕ) → is_flag c ≡ false → parse_flags g (c ∷ s) ≡ (g, c ∷ s)
unfolding parse_flags
stop-letter c s g h = ground (arith, h)

-- With `l` and any flags the letter `u` takes all 64 bits.
lu_test : ℕ → Bool
unfolding integer_flags bits_of
lu_test g =
    let flags = integer_flags b'u' (bit_or g flags_long) in
    not (is_set flags flags_signed)
    && (bits_of (without flags (bit_or flags_plus flags_space)) == 64)

lu_table : all_below 32 lu_test ≡ true
unfolding all_below lu_test
lu_table = refl

lu_flags :
    (g : ℕ)
    → g < 32
    → (is_set (integer_flags b'u' (bit_or g flags_long)) flags_signed ≡ false)
      × (bits_of
            (without (integer_flags b'u' (bit_or g flags_long)) (bit_or flags_plus flags_space))
          ≡ 64)
unfolding lu_test
lu_flags g h =
    let test = all_below_sound 32 lu_test lu_table g h in
    (ground (arith, test), ground (arith, test))

-- A directive `%lu` with flags.
abbrev lu : ℕ → List ℕ → List Argument → Directive
lu g s args = record { flags = g; width = 0; precision = 0; format = s; args = args }

lu-width :
    (g : ℕ) (s : List ℕ) (args : List Argument)
    → parse_width (lu g (b'l' ∷ s) args) ≡ got (lu g (b'l' ∷ s) args)
unfolding parse_width isdigit
lu-width g s args = refl

lu-precision :
    (g : ℕ) (s : List ℕ) (args : List Argument)
    → parse_precision (lu g (b'l' ∷ s) args) ≡ got (lu g (b'l' ∷ s) args)
unfolding parse_precision
lu-precision g s args = refl

lu-length :
    (g : ℕ) (q : List ℕ) (args : List Argument)
    → parse_length (lu g (b'l' ∷ b'u' ∷ q) args) ≡ got (lu (bit_or g flags_long) (b'u' ∷ q) args)
unfolding parse_length passing_twice passing
lu-length g q args = refl

-- The flags with which the number is printed.
lu_printed : ℕ → ℕ
lu_printed g = without (integer_flags b'u' (bit_or g flags_long)) (bit_or flags_plus flags_space)

lu-convert :
    (fp : File) (g w : ℕ) (q : List ℕ) (args : List Argument)
    → g < 32
    → w < 2 ^ 64
    → convert fp (lu (bit_or g flags_long) (b'u' ∷ q) (word w ∷ args))
      ≡ got (print_integer fp w false 10 0 0 (lu_printed g), q, args)
unfolding convert print_number print_unsigned lu_printed
lu-convert fp g w q args few fits =
    let (unsigned, all_bits) = lu_flags g few in
    let plain : w % 2 ^ 64 ≡ w = omega (arith, fits) in rw (unsigned, all_bits, plain) refl

lu-run :
    (fp : File) (format q : List ℕ) (g w : ℕ) (args : List Argument)
    → g < 32
    → w < 2 ^ 64
    → parse_flags 0 format ≡ (g, b'l' ∷ b'u' ∷ q)
    → run_directive fp format (word w ∷ args)
      ≡ got (print_integer fp w false 10 0 0 (lu_printed g), q, args)
unfolding run_directive
lu-run fp format q g w args few fits e = rw e (
    rw (lu-width g (b'u' ∷ q) (word w ∷ args)) (
      rw (lu-precision g (b'u' ∷ q) (word w ∷ args))
        (rw (lu-length g q (word w ∷ args)) (lu-convert fp g w q args few fits))))

-- A directive that is read and leaves the stream, the format and the arguments `r`.
printed-run :
    (fp fp' : File) (d : ℕ) (format rest : List ℕ) (args args' : List Argument)
    → length rest ≤ length format
    → run_directive fp (d ∷ format) args ≡ got (fp', rest, args')
    → printed fp (b'%' ∷ d ∷ format) args ≡ printed fp' rest args'
printed-run fp fp' d format rest args args' shorter e =
    step_directive (suc (suc (length format))) fp b'%' d format args refl
    ∙ ap (resume (format_string (suc (suc (length format)))) fp) e
    ∙ same_fuel (suc (suc (length format))) (suc (length rest)) fp' rest args'
        (omega (arith, shorter)) (omega arith)

length-behind : (fs s : List ℕ) → length s ≤ length (fs ++ s)
length-behind [] s = omega arith
length-behind (c ∷ fs) s = omega (arith, length-behind fs s)

-- The directive `%lu` with the flags `fs`, in front of `q`.
printed-lu :
    (fp : File) (fs q : List ℕ) (w : ℕ) (args : List Argument)
    → are_flags fs ≡ true
    → w < 2 ^ 64
    → (flags : ℕ) × (printed fp (b'%' ∷ (fs ++ (b'l' ∷ b'u' ∷ q))) (word w ∷ args)
        ≡ printed (print_integer fp w false 10 0 0 flags) q args)
printed-lu fp [] q w args h fits =
    let (g, few, e) =
      flags-read [] (b'l' ∷ b'u' ∷ q) 0 h (omega arith) (λ g. stop-letter b'l' (b'u' ∷ q) g refl) in
    (
      lu_printed g,
      printed-run fp _ b'l' (b'u' ∷ q) q (word w ∷ args) args (omega arith)
          (lu-run fp _ q g w args few fits e),
    )
printed-lu fp (c ∷ fs) q w args h fits =
    let (g, few, e) =
      flags-read (c ∷ fs) (b'l' ∷ b'u' ∷ q) 0 h (omega arith)
        (λ g. stop-letter b'l' (b'u' ∷ q) g refl) in
    (
      lu_printed g,
      printed-run fp _ c (fs ++ (b'l' ∷ b'u' ∷ q)) q (word w ∷ args) args
          (omega (arith, length-behind fs (b'l' ∷ b'u' ∷ q))) (lu-run fp _ q g w args few fits e),
    )

-- A format of plain text around `%lu` with any flags writes the text around a number that `strtoul`
-- reads as the argument.
pub format_string-strtoul :
    (fp : File) (p fs q : List ℕ) (w : ℕ) (args : List Argument)
    → fp.position < 2 ^ 64
    → is_plain p ≡ true
    → are_flags fs ≡ true
    → is_plain q ≡ true
    → w < 2 ^ 64
    → (text : List ℕ) × (printed fp (p ++ (b'%' ∷ (fs ++ (b'l' ∷ b'u' ∷ q)))) (word w ∷ args)
        ≡ (system_ok, put_all (p ++ (text ++ q)) fp))
      × ((strtoul text 10).value ≡ w)
format_string-strtoul fp p fs q w args at plain flagged plain' fits =
    let front = put_all p fp in
    let (flags, run) = printed-lu front fs q w args flagged fits in
    let (text, number, read) =
      print_integer-strtoul front w 0 0 flags (position-lt p fp at) fits (omega arith) in
    (
      text,
      printed-plain p _ fp (word w ∷ args) plain
          ∙ run
          ∙ ap (λ (f : File). printed f q args) number
          ∙ printed-text q (put_all text front) args plain'
          ∙ ap (λ (f : File). (system_ok, f))
              (sym (put_all-append p (text ++ q) fp ∙ put_all-append text q front)),
      read,
    )

overrun-run :
    (fp : File) (format : List ℕ) (g : ℕ) (args : List Argument)
    → parse_flags 0 format ≡ (g, [])
    → run_directive fp format args ≡ halt overrun
unfolding run_directive parse_width parse_precision parse_length convert isdigit
overrun-run fp format g args e = rw e refl

stop-nil : (g : ℕ) → parse_flags g [] ≡ (g, [])
unfolding parse_flags
stop-nil g = refl

overrun-end :
    (fp : File) (fs : List ℕ) (args : List Argument)
    → are_flags fs ≡ true
    → run_directive fp fs args ≡ halt overrun
overrun-end fp fs args flagged =
    let (g, few, e) = flags-read fs [] 0 flagged (omega arith) stop-nil in
    overrun-run fp fs g args (ap (parse_flags 0) (sym (append-nil fs)) ∙ e)

-- A format that ends behind the flags of a directive is read past its end.
pub format_string-overrun :
    (fp : File) (p : List ℕ) (c : ℕ) (fs : List ℕ) (args : List Argument)
    → is_plain p ≡ true
    → are_flags (c ∷ fs) ≡ true
    → (printed fp (p ++ (b'%' ∷ c ∷ fs)) args).0 ≡ overrun
format_string-overrun fp p c fs args plain flagged =
    let front = put_all p fp in
    ap (λ (r : PrintStatus × File). r.0)
      (printed-plain p _ fp args plain
        ∙ step_directive (suc (suc (length fs))) front b'%' c fs args refl
        ∙ ap (resume (format_string (suc (suc (length fs)))) front)
            (overrun-end front (c ∷ fs) args flagged))
