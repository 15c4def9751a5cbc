-- ===== src/Libc/Format/Tests.antt =====
-- Formats printed into a buffer.
use phoebe.Base.{ℕ, ◌≡◌, ◌≢◌, refl, List, [], ◌∷◌, ◌++◌, none, arith}
use phoebe.Libc.Strtol.{strtoul}
use phoebe.Libc.Stdio.{File, putc, append_termination}
use phoebe.Libc.Print.{put_all}
use phoebe.Libc.Cstring.{strnlen}
use phoebe.Libc.Ctype.{isdigit}
use phoebe.Libc.Print.{parse_flags, stdio_atou, put_spaces}
use phoebe.Libc.Stdio.{put}
use phoebe.Libc.Format.{
  round, run_directive, parse_width, parse_precision, precision_value, parse_length, convert,
  print_string, print_text, put_text, skip_digits, err_canceled, word, text, system_ok, overrun,
  spent, format_string,
}
use phoebe.Libc.Format.Calls.{fprintf, fputs}
use phoebe.Libc.Format.Text.{text_format, fprintf-fputs}
use phoebe.Libc.Format.Laws.{printed}
use phoebe.Libc.Format.Closed.{IsClosed, live, last, more}
use phoebe.Libc.Format.Termination.{format_string-terminates}
use phoebe.Libc.Format.Directives.{
  is_plain, are_flags, format_string-strtoul, format_string-overrun,
}

abbrev page : File
page = record {
  buffer = 4096;
  buffer_size = 64;
  position = 0;
  write_func = none;
  sent = [];
  memory = λ a. 0;
}

-- `n=%-lu;`
abbrev line : List ℕ
line = b'n' ∷ b'=' ∷ b'%' ∷ b'-' ∷ b'l' ∷ b'u' ∷ b';' ∷ []

line-IsClosed : IsClosed line
unfolding isdigit
line-IsClosed =
    live (more refl (more refl (more refl (more refl (more refl (more refl (last refl)))))))

format_string-terminates_example :
    ((format_string 20 page line (word 42 ∷ [])).0 ≢ spent)
    × ((format_string 20 page line (word 42 ∷ [])).0 ≢ overrun)
    × (format_string 20 page line (word 42 ∷ []) ≡ printed page line (word 42 ∷ []))
format_string-terminates_example =
    format_string-terminates 20 page line (word 42 ∷ []) line-IsClosed (omega arith)

format_string-strtoul_example :
    (text : List ℕ) × (printed page line (word 42 ∷ [])
      ≡ (system_ok, put_all (b'n' ∷ b'=' ∷ (text ++ (b';' ∷ []))) page))
    × ((strtoul text 10).value ≡ 42)
unfolding is_plain are_flags put_all
format_string-strtoul_example =
    format_string-strtoul page (b'n' ∷ b'=' ∷ []) (b'-' ∷ []) (b';' ∷ []) 42 [] (omega arith) refl
      refl refl (omega arith)

format_string-overrun_example : (printed page (b'n' ∷ b'=' ∷ b'%' ∷ b'-' ∷ []) []).0 ≡ overrun
unfolding is_plain are_flags
format_string-overrun_example = format_string-overrun page (b'n' ∷ b'=' ∷ []) b'-' [] [] refl refl

fprintf-fputs_example :
    fprintf page text_format (text (b'o' ∷ b'k' ∷ []) ∷ [])
    ≡ (system_ok, append_termination (fputs (b'o' ∷ b'k' ∷ []) page).1)
unfolding fputs putc
fprintf-fputs_example = fprintf-fputs page (b'o' ∷ b'k' ∷ []) [] refl

-- `%.2s` writes the first two bytes of a text.
text_cut :
    (printed page (b'%' ∷ b'.' ∷ b'2' ∷ b's' ∷ []) (text (b'o' ∷ b'k' ∷ b'a' ∷ []) ∷ [])).1.position
    ≡ 2
unfolding format_string round run_directive parse_flags parse_width parse_precision precision_value
    parse_length convert print_string print_text put_text strnlen isdigit stdio_atou put_spaces put
text_cut = refl

-- A precision whose sign is followed by nothing cancels the call.
cut_precision : (printed page (b'%' ∷ b'.' ∷ b'-' ∷ []) []).0 ≡ err_canceled
unfolding format_string round run_directive parse_flags parse_width parse_precision precision_value
    skip_digits isdigit
cut_precision = refl
