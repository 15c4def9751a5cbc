-- ===== src/Libc/Format/Calls.antt =====
-- The calls over `vsnprintf_internal` in `libc/stdio/vprintf.c` and `libc/stdio/printf.c`, and the calls
-- of `libc/stdio/fputs.c` and `libc/stdio/putc.c` that write plain text. A stream that a call writes is
-- given back with its result, and `stdout` is an argument.
use phoebe.Base.{ℕ, ◌-◌, ◌^◌, ◌==◌, if◌then◌else◌, List, [], ◌∷◌}
use phoebe.Libc.Memory.{Memory}
use phoebe.Libc.Stdio.{File, putc}
use phoebe.Libc.Format.{Argument, PrintStatus, vsnprintf_internal, vsnprintf, vsprintf}

-- A `va_list` begins with the first argument behind the format.
abbrev pub snprintf : Memory → ℕ → ℕ → List ℕ → List Argument → PrintStatus × Memory
snprintf = vsnprintf

abbrev pub sprintf : Memory → ℕ → List ℕ → List Argument → PrintStatus × Memory
sprintf = vsprintf

abbrev pub vfprintf : File → List ℕ → List Argument → PrintStatus × File
vfprintf = vsnprintf_internal

abbrev pub vprintf : File → List ℕ → List Argument → PrintStatus × File
vprintf stdout format args = vfprintf stdout format args

abbrev pub fprintf : File → List ℕ → List Argument → PrintStatus × File
fprintf = vfprintf

abbrev pub printf : File → List ℕ → List Argument → PrintStatus × File
printf stdout format args = vprintf stdout format args

-- `SYSTEM_ERR_INTERNAL`, which is -1, as the pattern of an `int`.
abbrev pub system_err_internal : ℕ
system_err_internal = 2 ^ 32 - 1

-- The loop over the characters that are left.
unfoldable pub fputs : List ℕ → File → ℕ × File
fputs [] stream = (0, stream)
fputs (c ∷ s) stream =
    let written = putc c stream in
    let rest = fputs s written.1 in
    if written.0 == 0 then rest else (system_err_internal, written.1)

unfoldable pub puts : List ℕ → File → ℕ × File
puts s stdout = let r = fputs s stdout in (r.0, (putc b'\n' r.1).1)

abbrev pub putchar : ℕ → File → ℕ × File
putchar c stdout = putc c stdout
