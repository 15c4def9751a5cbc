-- ===== src/Libc/Print/Tests.antt =====
-- Integers printed into a buffer, with what the theorems say of them.
use phoebe.Base.{ℕ, ◌≡◌, refl, true, false, List, [], ◌∷◌, none, ◌++◌, replicate, arith}
use phoebe.Libc.Strtol.{strtoul}
use phoebe.Libc.Print.{print_integer, output_reverse, put_all, finish}
use phoebe.Libc.Stdio.{File}
use phoebe.Libc.Print.Output.{justified, output_reverse-justified}
use phoebe.Libc.Print.Laws.{print_integer-strtoul}

abbrev page : File
page = record {
  buffer = 4096;
  buffer_size = 64;
  position = 2;
  write_func = none;
  sent = [];
  memory = λ a. 0;
}

-- `%+06d` of 407 is `+00407`.
finish_407 :
    (finish (b'4' ∷ b'0' ∷ b'7' ∷ []) false 10 0 6 5).buffer
    ≡ b'+' ∷ b'0' ∷ b'0' ∷ b'4' ∷ b'0' ∷ b'7' ∷ []
unfolding finish
finish_407 = refl

-- The array is full behind 32 digits: the sign of `%.32d` is dropped.
finish_sign_dropped :
    (finish (b'7' ∷ []) true 10 32 0 2048).buffer ≡ replicate 31 b'0' ++ (b'7' ∷ [])
unfolding finish
finish_sign_dropped = refl

print_integer-strtoul_example :
    (text : List ℕ) × (print_integer page 407 false 10 0 6 5 ≡ put_all text page)
    × ((strtoul text 10).value ≡ 407)
print_integer-strtoul_example =
    print_integer-strtoul page 407 0 6 5 (omega arith) (omega arith) (omega arith)

output_reverse-justified_example :
    output_reverse page (b'4' ∷ b'2' ∷ []) 4 2 ≡ put_all (justified (b'4' ∷ b'2' ∷ []) 4 2) page
output_reverse-justified_example =
    output_reverse-justified page (b'4' ∷ b'2' ∷ []) 4 2 (omega arith) (omega arith) (omega arith)
