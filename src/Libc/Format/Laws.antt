-- ===== src/Libc/Format/Laws.antt =====
-- What `format_string` does with a format.
use phoebe.Base.{
  ℕ, zero, suc, ◌≤◌, ◌<◌, ◌≡◌, refl, sym, ◌∙◌, inl, inr, Bool-cases, true, false, ◌==◌, List, [],
  ◌∷◌, length, arith,
}
use phoebe.Libc.Stdio.{File, put}
use phoebe.Libc.Format.{
  Argument, PrintStatus, Attempt, Rest, err_canceled, run_directive, resume, round, format_string,
}
use phoebe.Libc.Format.Shorter.{Within, within, stopped, behind, run_directive-Within}

-- The loop with as much fuel as the format is long, as `vsnprintf_internal` runs it.
abbrev pub printed : File → List ℕ → List Argument → PrintStatus × File
printed fp format args = format_string (suc (length format)) fp format args

pub step_plain :
    (fuel : ℕ) (fp : File) (c : ℕ) (format : List ℕ) (args : List Argument)
    → (c == b'%') ≡ false
    → format_string (suc fuel) fp (c ∷ format) args ≡ format_string fuel (put fp c) format args
unfolding format_string round
step_plain fuel fp c [] args e = rw (e, round) refl
step_plain fuel fp c (d ∷ rest) args e = rw (e, round) refl

pub step_directive :
    (fuel : ℕ) (fp : File) (c d : ℕ) (rest : List ℕ) (args : List Argument)
    → (c == b'%') ≡ true
    → format_string (suc fuel) fp (c ∷ d ∷ rest) args
      ≡ resume (format_string fuel) fp (run_directive fp (d ∷ rest) args)
unfolding format_string round
step_directive fuel fp c d rest args e = rw (e, round) refl

pub step_end :
    (fuel : ℕ) (fp : File) (c : ℕ) (args : List Argument)
    → (c == b'%') ≡ true
    → format_string (suc fuel) fp (c ∷ []) args ≡ (err_canceled, fp)
unfolding format_string round
step_end fuel fp c args e = rw (e, round) refl

-- Two runs with more fuel than the format is long are the same.
resume-same :
    (n fuel fuel' : ℕ) (fp : File) (a : Attempt Rest)
    → Within behind n a
    → ((fp' : File) (format : List ℕ) (args : List Argument)
        → length format ≤ n
        → format_string fuel fp' format args ≡ format_string fuel' fp' format args)
    → resume (format_string fuel) fp a ≡ resume (format_string fuel') fp a
resume-same n fuel fuel' fp a (within (fp', format, args) h) k = k fp' format args h
resume-same n fuel fuel' fp a (stopped status h) k = refl

pub same_fuel :
    (fuel fuel' : ℕ) (fp : File) (format : List ℕ) (args : List Argument)
    → length format < fuel
    → length format < fuel'
    → format_string fuel fp format args ≡ format_string fuel' fp format args
unfolding format_string
same_fuel zero fuel' fp format args h h' = elim h [ ]
same_fuel (suc fuel) zero fp format args h h' = elim h' [ ]
same_fuel (suc fuel) (suc fuel') fp [] args h h' = refl
same_fuel (suc fuel) (suc fuel') fp (c ∷ []) args h h' = elim (Bool-cases (c == b'%')) [
  | inl e ↦ step_end fuel fp c args e ∙ sym (step_end fuel' fp c args e)
  | inr e ↦
      step_plain fuel fp c [] args e
      ∙ same_fuel fuel fuel' (put fp c) [] args (omega (arith, h)) (omega (arith, h'))
      ∙ sym (step_plain fuel' fp c [] args e)
]
same_fuel (suc fuel) (suc fuel') fp (c ∷ d ∷ rest) args h h' = elim (Bool-cases (c == b'%')) [
  | inl e ↦
      step_directive fuel fp c d rest args e
      ∙ resume-same (suc (length rest)) fuel fuel' fp _ (run_directive-Within fp (d ∷ rest) args)
          (λ fp' format args' le.
            same_fuel fuel fuel' fp' format args' (omega (arith, le, h)) (omega (arith, le, h')))
      ∙ sym (step_directive fuel' fp c d rest args e)
  | inr e ↦
      step_plain fuel fp c (d ∷ rest) args e
      ∙ same_fuel fuel fuel' (put fp c) (d ∷ rest) args (omega (arith, h)) (omega (arith, h'))
      ∙ sym (step_plain fuel' fp c (d ∷ rest) args e)
]
