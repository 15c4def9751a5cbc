-- ===== src/Libc/Cstring.antt =====
-- `libc/string/strlen.c` and `libc/string/strcmp.c`. A text is the list of its bytes up to the
-- terminating NUL, which is left out: reading at the end gives 0.
pub mod Laws
pub mod Tests
use phoebe.Base.{
  ℕ, zero, suc, ◌+◌, ◌-◌, ◌%◌, ◌^◌, ltb, leb, ◌==◌, not, ◌&&◌, if◌then◌else◌, u64, List, [], ◌∷◌,
}
use phoebe.Libc.Strtol.{deref, advance}

-- `end - s`, where `end` has moved past the characters.
unfoldable pub strlen : List ℕ → ℕ
strlen [] = 0
strlen (c ∷ end) = suc (strlen end)

-- The loop with the number `length` of the characters that it has passed.
unfoldable pub strnlen_loop : ℕ → ℕ → List ℕ → ℕ
strnlen_loop maxlen length [] = length
strnlen_loop maxlen length (c ∷ end) =
    if leb length maxlen then strnlen_loop maxlen (u64 (length + 1)) end else length

unfoldable pub strnlen : List ℕ → ℕ → ℕ
unfolding strnlen_loop
strnlen string maxlen = strnlen_loop maxlen 0 string

-- `strcmp`, where `before` is the byte in front of `s2`, which the result is read from. Once `s1`
-- is at its end, the loop ends with 0 if `s2` is too.
unfoldable pub strcmp : ℕ → List ℕ → List ℕ → ℕ
strcmp before [] [] = 0
strcmp before [] (d ∷ s2) = if ltb 0 before then 1 else 0
strcmp before (c ∷ s1) [] = if ltb c before then 1 else 0
strcmp before (c ∷ s1) (d ∷ s2) =
    let rest = strcmp d s1 s2 in if c == d then rest else (if ltb c before then 1 else 0)

-- The difference of two bytes as the pattern of an `int`.
abbrev pub difference : ℕ → ℕ → ℕ
difference a b = (a + 2 ^ 32 - b) % 2 ^ 32

-- The loop of `strncmp`: `count` is the number of rounds, and the last is one at a NUL.
unfoldable pub strncmp : ℕ → List ℕ → List ℕ → ℕ
strncmp zero s1 s2 = 0
strncmp (suc count) [] s2 = difference 0 (deref s2)
strncmp (suc count) (c ∷ s1) s2 =
    let rest = strncmp count s1 (advance s2) in
    if not (c == deref s2) then difference c (deref s2) else rest
