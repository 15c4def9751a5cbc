-- ===== src/Libc/Memcmp/Compare/Laws.antt =====
-- What comparing words says of their bytes.
use phoebe.Base.{
  ℕ, zero, suc, ◌+◌, ◌/◌, ◌%◌, ◌≡◌, ◌≢◌, refl, sym, Bool-cases, true, inl, inr, ◌==◌, ==_iff,
  if◌then◌else◌, arith,
}
use phoebe.Libc.Memory.{Memory, load_bytes, load_word}
use phoebe.Libc.Memory.Copied.{IsBytes}
use phoebe.Libc.Cstring.{difference}
use phoebe.Libc.Memcmp.Compare.{memcmp_bytes, compare_words}

-- The difference of the first two of `n` bytes that differ, and 0 where none do.
unfoldable pub differ : ℕ → Memory → ℕ → ℕ → ℕ
differ zero m s1 s2 = 0
differ (suc n) m s1 s2 =
    let rest = differ n m (s1 + 1) (s2 + 1) in
    if m s1 == m s2 then rest else difference (m s1) (m s2)

module _ (m : Memory) (bytes : IsBytes m) where
  low : (k s : ℕ) → load_bytes (suc k) m s % 256 ≡ m s
  unfolding load_bytes
  low k s = omega (arith, bytes s)

  high : (k s : ℕ) → load_bytes (suc k) m s / 256 ≡ load_bytes k m (s + 1)
  unfolding load_bytes
  high k s = omega (arith, bytes s)

  -- Equal values have no byte that differs.
  same-differ :
      (k n s1 s2 : ℕ)
      → load_bytes k m s1 ≡ load_bytes k m s2
      → differ (k + n) m s1 s2 ≡ differ n m (s1 + k) (s2 + k)
  unfolding differ load_bytes
  same-differ zero n s1 s2 e =
      let e1 : s1 + 0 ≡ s1 = omega arith in
      let e2 : s2 + 0 ≡ s2 = omega arith in let e0 : 0 + n ≡ n = omega arith in rw (e0, e1, e2) refl
  same-differ (suc k) n s1 s2 e =
      let first : (m s1 == m s2) ≡ true = (==_iff _ _).1 (omega (arith, e, bytes s1, bytes s2)) in
      let more : load_bytes k m (s1 + 1) ≡ load_bytes k m (s2 + 1) =
        omega (arith, e, bytes s1, bytes s2) in
      let e1 : s1 + suc k ≡ s1 + 1 + k = omega arith in
      let e2 : s2 + suc k ≡ s2 + 1 + k = omega arith in
      let e0 : suc k + n ≡ suc (k + n) = omega arith in
      rw (e0, first, e1, e2) (same-differ k n (s1 + 1) (s2 + 1) more)

  memcmp_bytes-differ :
      (k n s1 s2 : ℕ)
      → load_bytes k m s1 ≢ load_bytes k m s2
      → memcmp_bytes k (load_bytes k m s1) (load_bytes k m s2) ≡ differ (k + n) m s1 s2
  unfolding memcmp_bytes differ load_bytes
  memcmp_bytes-differ zero n s1 s2 e = elim (e refl) [ ]
  memcmp_bytes-differ (suc k) n s1 s2 e =
      let e0 : suc k + n ≡ suc (k + n) = omega arith in
      rw (e0, low k s1, low k s2, high k s1, high k s2)
        (elim (Bool-cases (m s1 == m s2)) [
          | inl same ↦
              let first : m s1 ≡ m s2 = (==_iff _ _).0 same in
              rw same (memcmp_bytes-differ k n (s1 + 1) (s2 + 1) (λ p. e (omega (arith, first, p))))
          | inr other ↦ rw other refl
        ])

  -- Two words are compared as their bytes are.
  pub compare_words-differ :
      (n s1 s2 rest : ℕ)
      → rest ≡ differ n m (s1 + 8) (s2 + 8)
      → compare_words (load_word m s1) (load_word m s2) rest ≡ differ (8 + n) m s1 s2
  unfolding compare_words
  compare_words-differ n s1 s2 rest h = elim (Bool-cases (load_word m s1 == load_word m s2)) [
    | inl e ↦ rw (e, h) (sym (same-differ 8 n s1 s2 ((==_iff _ _).0 e)))
    | inr e ↦ rw e (memcmp_bytes-differ 8 n s1 s2 (λ p. grind (arith, e, p)))
  ]
