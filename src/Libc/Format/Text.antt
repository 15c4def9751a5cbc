-- ===== src/Libc/Format/Text.antt =====
-- Texts that are written by `fputs` and by the directive `%s`.
use phoebe.Base.{
  ℕ, ◌-◌, ◌^◌, ◌≤◌, ◌≡◌, refl, sym, ap, ◌∙◌, ◌==◌, Bool-cases, false, inl, inr, List, [], ◌∷◌,
  arith,
}
use phoebe.Libc.Ctype.{isdigit}
use phoebe.Libc.Cstring.{strnlen}
use phoebe.Libc.Stdio.{File, put, putc, append_termination}
use phoebe.Libc.Print.{put_all, put_spaces, parse_flags}
use phoebe.Libc.Format.{
  Argument, text, system_ok, got, Directive, parse_width, parse_precision, parse_length, convert,
  print_text, print_string, put_text, run_directive, resume, format_string, vsnprintf_internal,
}
use phoebe.Libc.Format.Laws.{printed, step_directive}
use phoebe.Libc.Format.Directives.{printed-end}
use phoebe.Libc.Format.Calls.{fputs, fprintf, system_err_internal}

-- `%s`
abbrev pub text_format : List ℕ
text_format = b'%' ∷ b's' ∷ []

fputs-put_all : (s : List ℕ) (fp : File) → (fputs s fp).0 ≡ 0 → (fputs s fp).1 ≡ put_all s fp
unfolding fputs put_all put
fputs-put_all [] fp h = refl
fputs-put_all (c ∷ s) fp h = elim (Bool-cases ((putc c fp).0 == 0)) [
  | inl e ↦ rw e (fputs-put_all s (putc c fp).1 (rw e at h))
  | inr e ↦
      let failed : system_err_internal ≡ 0 = rw e at h in
      let bad : 1 ≤ 0 = omega (arith, failed) in elim bad [ ]
]

put_text-put_all : (s : List ℕ) (fp : File) → put_text false 0 s fp ≡ put_all s fp
unfolding put_text put_all
put_text-put_all [] fp = refl
put_text-put_all (c ∷ s) fp = put_text-put_all s (put fp c)

abbrev plain_text : List Argument → Directive
plain_text args = record { flags = 0; width = 0; precision = 0; format = b's' ∷ []; args = args }

print_text-put_all :
    (fp : File) (s : List ℕ) (args : List Argument)
    → print_text fp s (plain_text args) ≡ put_all s fp
unfolding print_text put_spaces
print_text-put_all fp s args =
    let none : 0 - strnlen s (2 ^ 31 - 1) ≡ 0 = omega arith in rw none (put_text-put_all s fp)

text-run :
    (fp : File) (s : List ℕ) (args : List Argument)
    → run_directive fp (b's' ∷ []) (text s ∷ args) ≡ got (put_all s fp, [], args)
unfolding run_directive parse_flags parse_width parse_precision parse_length convert print_string
    isdigit
text-run fp s args = rw (sym (print_text-put_all fp s (text s ∷ args))) refl

-- Where `fputs` reports success, `fprintf` with `%s` writes the text as `fputs` does, and terminates the
-- buffer behind it.
pub fprintf-fputs :
    (fp : File) (s : List ℕ) (args : List Argument)
    → (fputs s fp).0 ≡ 0
    → fprintf fp text_format (text s ∷ args) ≡ (system_ok, append_termination (fputs s fp).1)
unfolding vsnprintf_internal format_string
fprintf-fputs fp s args h =
    let run : printed fp text_format (text s ∷ args) ≡ (system_ok, put_all s fp) =
      step_directive 2 fp b'%' b's' [] (text s ∷ args) refl
      ∙ ap (resume (format_string 2) fp) (text-run fp s args)
      ∙ printed-end (put_all s fp) args in
    rw (run, fputs-put_all s fp h) refl
