-- ===== src/Libc/Cstring/Tests.antt =====
-- Texts at concrete values, with what the theorems say of them.
use phoebe.Base.{ℕ, ◌≡◌, ◌↔◌, ltb, if◌then◌else◌, List, [], ◌∷◌, arith}
use phoebe.Libc.Cstring.{strcmp, strncmp}
use phoebe.Libc.Cstring.Laws.{IsText, take, last_of, strncmp_lem, strcmp_lem}

abbrev foo : List ℕ
foo = b'f' ∷ b'o' ∷ b'o' ∷ []

abbrev fox : List ℕ
fox = b'f' ∷ b'o' ∷ b'x' ∷ []

foo-IsText : IsText foo
foo-IsText =
    IsText.more (omega arith, omega arith)
      (IsText.more (omega arith, omega arith) (IsText.more (omega arith, omega arith) IsText.empty))

fox-IsText : IsText fox
fox-IsText =
    IsText.more (omega arith, omega arith)
      (IsText.more (omega arith, omega arith) (IsText.more (omega arith, omega arith) IsText.empty))

strncmp_lem_example : (strncmp 2 foo fox ≡ 0) ↔ (take 2 foo ≡ take 2 fox)
strncmp_lem_example = strncmp_lem 2 foo fox foo-IsText fox-IsText

-- `fop` is compared with `fox` behind a common `fo`.
strcmp_lem_example :
    strcmp 0 (b'f' ∷ b'o' ∷ b'p' ∷ []) fox
    ≡ (if ltb b'p' (last_of 0 (b'f' ∷ b'o' ∷ [])) then 1 else 0)
strcmp_lem_example =
    strcmp_lem 0 (b'f' ∷ b'o' ∷ []) [] [] b'p' b'x' (λ e. absurd (omega (arith, e)))
