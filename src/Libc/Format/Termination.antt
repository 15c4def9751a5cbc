-- ===== src/Libc/Format/Termination.antt =====
-- `format_string` passes a format that ends behind a directive or plain text, and stops.
use phoebe.Base.{
  ℕ, zero, suc, ◌≤◌, ◌<◌, ◌≡◌, ◌≢◌, refl, ap, inl, inr, Bool-cases, false, ◌==◌, List, [], ◌∷◌,
  length, arith,
}
use phoebe.Libc.Stdio.{File, put}
use phoebe.Libc.Format.{Argument, spent, overrun, Attempt, Rest, resume, format_string}
use phoebe.Libc.Format.Shorter.{Within, within, stopped, behind, run_directive-Within}
use phoebe.Libc.Format.Closed.{
  more, IsClosed, nothing, live, is_lost, Keeps, keeps, stops, IsClosedBehind,
}
use phoebe.Libc.Format.Kept.{run_directive-Keeps}
use phoebe.Libc.Format.Laws.{printed, step_plain, step_end, step_directive, same_fuel}

-- What a directive leaves is shorter, and ends as well.
resume-lost :
    (n fuel : ℕ) (fp : File) (a : Attempt Rest)
    → Within behind n a
    → Keeps IsClosedBehind a
    → ((fp' : File) (format : List ℕ) (args : List Argument)
        → IsClosed format
        → length format ≤ n
        → is_lost (format_string fuel fp' format args).0 ≡ false)
    → is_lost (resume (format_string fuel) fp a).0 ≡ false
resume-lost n fuel fp _ (within (fp', format, args) h) (keeps _ e) k = k fp' format args e h
resume-lost n fuel fp _ (stopped status h) (stops _ e) k = e

not_lost :
    (fuel : ℕ) (fp : File) (format : List ℕ) (args : List Argument)
    → IsClosed format
    → length format < fuel
    → is_lost (format_string fuel fp format args).0 ≡ false
unfolding format_string
not_lost zero fp format args e h = elim h [ ]
not_lost (suc fuel) fp [] args e h = refl
not_lost (suc fuel) fp (c ∷ []) args e h = elim (Bool-cases (c == b'%')) [
  | inl percent ↦ rw (step_end fuel fp c args percent) refl
  | inr plain ↦
      rw (step_plain fuel fp c [] args plain)
        (not_lost fuel (put fp c) [] args nothing (omega (arith, h)))
]
not_lost (suc fuel) fp (c ∷ d ∷ rest) args (live (more n l)) h = elim (Bool-cases (c == b'%')) [
  | inl percent ↦ rw (step_directive fuel fp c d rest args percent) (
      resume-lost (suc (length rest)) fuel fp _ (run_directive-Within fp (d ∷ rest) args)
        (run_directive-Keeps fp (d ∷ rest) args l)
        (λ fp' format args' e le. not_lost fuel fp' format args' e (omega (arith, h, le))))
  | inr plain ↦
      rw (step_plain fuel fp c (d ∷ rest) args plain)
        (not_lost fuel (put fp c) (d ∷ rest) args (live l) (omega (arith, h)))
]

-- A format without a NUL in it, that is empty or ends with a character that is neither a flag nor a digit,
-- is passed to its end or left at an error: with more fuel than it is long `format_string` neither runs out
-- of fuel nor reads behind the end of the format, and more fuel changes nothing. Errors are a format that
-- ends within a directive, and, where the behaviour of the code is undefined, an argument that is missing
-- or of another kind and a width of `INT_MIN`.
pub format_string-terminates :
    (fuel : ℕ) (fp : File) (format : List ℕ) (args : List Argument)
    → IsClosed format
    → length format < fuel
    → ((format_string fuel fp format args).0 ≢ spent)
      × ((format_string fuel fp format args).0 ≢ overrun)
      × (format_string fuel fp format args ≡ printed fp format args)
format_string-terminates fuel fp format args e h =
    let kept = not_lost fuel fp format args e h in
    (
      λ out. cc (kept, ap is_lost out),
      λ out. cc (kept, ap is_lost out),
      same_fuel fuel (suc (length format)) fp format args h (omega arith),
    )
