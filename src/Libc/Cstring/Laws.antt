-- ===== src/Libc/Cstring/Laws.antt =====
-- What the functions on texts return, against the texts as lists.
use phoebe.Base.{
  ℕ, zero, suc, ◌+◌, ◌^◌, ◌≤◌, ◌<◌, ◌≡◌, ◌≢◌, ◌++◌, ◌↔◌, refl, ap, ◌∙◌, ltb, leb, ◌==◌,
  if◌then◌else◌, min, true, false, Bool-cases, inl, inr, List, [], ◌∷◌, length, arith, ==_iff, u64,
}
use phoebe.Libc.Strtol.{deref, advance}
use phoebe.Libc.Cstring.{strlen, strnlen, strnlen_loop, strcmp, strncmp, difference}

-- A byte of a text.
abbrev IsChar : ℕ → Type 0
IsChar c = (0 < c) × (c < 256)

pub data IsText : List ℕ → Type 0 where
  empty : IsText []
  more : {c : ℕ} {s : List ℕ} → IsChar c → IsText s → IsText (c ∷ s)

-- The first `n` bytes.
abbrev pub take : ℕ → List ℕ → List ℕ
take zero s = []
take (suc n) [] = []
take (suc n) (c ∷ s) = c ∷ take n s

difference-zero : (a b : ℕ) → a < 256 → b < 256 → difference a b ≡ 0 → a ≡ b
difference-zero a b p q e = omega (arith, p, q, e)

-- `strncmp` returns 0 exactly if the texts agree in their first `count` bytes.
pub strncmp_lem :
    (count : ℕ) (s1 s2 : List ℕ)
    → IsText s1
    → IsText s2
    → (strncmp count s1 s2 ≡ 0) ↔ (take count s1 ≡ take count s2)
unfolding strncmp
strncmp_lem zero s1 s2 p q = (λ _. refl, λ _. refl)
strncmp_lem (suc count) [] [] p q = (λ _. refl, λ _. refl)
strncmp_lem (suc count) [] (d ∷ s2) p (IsText.more (pos, lt) q) = (
  λ e. absurd (omega (arith, difference-zero 0 d (omega arith) lt e, pos)),
  λ e. absurd (omega (arith, ap length e)),
)
strncmp_lem (suc count) (c ∷ s1) [] (IsText.more (pos, lt) p) q =
    let test : (c == 0) ≡ false = ground (arith, pos) in
    rw test (
      λ e. absurd (omega (arith, difference-zero c 0 lt (omega arith) e, pos)),
      λ e. absurd (omega (arith, ap length e)),
    )
strncmp_lem (suc count) (c ∷ s1) (d ∷ s2) (IsText.more (pos, lt) p) (IsText.more (pos', lt') q) =
    let ih = strncmp_lem count s1 s2 p q in
    elim (Bool-cases (c == d)) [
      | inl same ↦
          let e : c ≡ d = (==_iff c d).0 same in
          rw same (
            λ r. ap (λ (x : ℕ). x ∷ take count s1) e ∙ ap (λ (t : List ℕ). d ∷ t) (ih.0 r),
            λ r. ih.1 (ap advance r),
          )
      | inr other ↦ rw other (
        λ r. absurd (ground (arith, other, difference-zero c d lt lt' r)),
        λ r. absurd (ground (arith, other, ap deref r)),
      )
    ]

pub length-strlen : (s : List ℕ) → length s ≡ strlen s
unfolding strlen
length-strlen [] = refl
length-strlen (c ∷ s) = ap suc (length-strlen s)

strnlen_loop_lem :
    (maxlen n : ℕ) (s : List ℕ)
    → maxlen + 1 < 2 ^ 64
    → n ≤ maxlen + 1
    → strnlen_loop maxlen n s ≡ min (n + length s) (maxlen + 1)
unfolding strnlen_loop
strnlen_loop_lem maxlen n [] m h = omega (arith, m, h)
strnlen_loop_lem maxlen n (c ∷ s) m h = elim (Bool-cases (leb n maxlen)) [
  | inl go ↦
      let below : n ≤ maxlen = ground (arith, go) in
      let e : u64 (n + 1) ≡ n + 1 = omega (arith, m, below) in
      let rest = strnlen_loop_lem maxlen (n + 1) s m (omega (arith, below)) in
      rw (go, e) (omega (arith, rest))
  | inr done ↦ let above : maxlen < n = ground (arith, done) in rw done (omega (arith, above, h))
]

-- `strnlen` is the length of the text up to one more than `maxlen`, not up to `maxlen`.
pub strnlen_lem :
    (s : List ℕ) (maxlen : ℕ) → maxlen + 1 < 2 ^ 64 → strnlen s maxlen ≡ min (strlen s) (maxlen + 1)
unfolding strnlen strlen
strnlen_lem s maxlen h =
    let loop = strnlen_loop_lem maxlen 0 s h (omega arith) in omega (arith, loop, length-strlen s)

-- The last byte before a text, where `before` is the one in front of it.
unfoldable pub last_of : ℕ → List ℕ → ℕ
last_of before [] = before
last_of before (c ∷ s) = last_of c s

-- Where two texts first differ, `strcmp` compares the byte of the first with the last common byte,
-- and not with the byte of the second: the sign of its result does not depend on the latter.
pub strcmp_lem :
    (before : ℕ) (common s1 s2 : List ℕ) (c d : ℕ)
    → c ≢ d
    → strcmp before (common ++ c ∷ s1) (common ++ d ∷ s2)
      ≡ (if ltb c (last_of before common) then 1 else 0)
unfolding strcmp last_of
strcmp_lem before [] s1 s2 c d ne =
    let test : (c == d) ≡ false = elim (Bool-cases (c == d)) [
      | inl same ↦ absurd (ne ((==_iff c d).0 same))
      | inr other ↦ other
    ] in
    rw test
strcmp_lem before (x ∷ common) s1 s2 c d ne =
    let test : (x == x) ≡ true = (==_iff x x).1 refl in rw test (strcmp_lem x common s1 s2 c d ne)

-- Equal texts compare as 0.
pub strcmp_refl : (before : ℕ) (s : List ℕ) → strcmp before s s ≡ 0
unfolding strcmp
strcmp_refl before [] = refl
strcmp_refl before (c ∷ s) =
    let test : (c == c) ≡ true = (==_iff c c).1 refl in rw test (strcmp_refl c s)
