-- ===== src/Libc/Strcpy/Laws.antt =====
-- What the copies of texts leave at the destination.
use phoebe.Base.{
  ℕ, zero, suc, ◌+◌, ◌-◌, ◌^◌, ◌≤◌, ◌<◌, ◌≡◌, ◌⊎◌, inl, inr, refl, sym, ap, ◌∙◌, ◌==◌, min, ltb,
  leb, if◌then◌else◌, u64, Bool-cases, true, false, List, [], ◌∷◌, ◌++◌, length, arith,
}
use phoebe.Libc.Memory.{Memory, store}
use phoebe.Libc.Memory.Region.{within}
use phoebe.Libc.Memory.Copied.{IsBytes}
use phoebe.Libc.Cstring.{strlen, strnlen}
use phoebe.Libc.Cstring.Laws.{take, length-strlen, strnlen_lem}
use phoebe.Libc.Memcpy.{memcpy}
use phoebe.Libc.Memcpy.Steps.{Copied}
use phoebe.Libc.Memcpy.Laws.{memcpy-Copied}
use phoebe.Libc.Strcpy.{text_of, strcat, strncat}
use phoebe.Libc.Strcpy.Holds.{Holds, text_of-Holds, Holds-copied, Holds-append}

pub take-length : (t : List ℕ) → take (length t) t ≡ t
take-length [] = refl
take-length (c ∷ t) = ap (λ (u : List ℕ). c ∷ u) (take-length t)

pub strlen-text_of :
    (m : Memory) (s : ℕ) (t : List ℕ)
    → Holds m s t
    → s + length t < 2 ^ 64
    → strlen (text_of m s) ≡ length t
strlen-text_of m s t h fits = ap strlen (text_of-Holds m s t h fits) ∙ sym (length-strlen t)

-- The first `k` bytes of the text `b` are copied behind the text `a`, and a NUL is written behind them.
module _ (m : Memory) (bytes : IsBytes m) (dest src : ℕ) (a b : List ℕ) (at_dest : Holds m dest a)
    (at_src : Holds m src b) (k : ℕ) (few : k ≤ length b) (d_fits : dest + length a + k < 2 ^ 64)
    (s_fits : src + k < 2 ^ 64)
    (apart : (dest + length a ≤ src) ⊎ (src + k ≤ dest + length a)) where
  appended : Memory
  appended = store (memcpy m (dest + length a) src k) (dest + length a + k) 0

  copied : Copied m (dest + length a) src k (memcpy m (dest + length a) src k)
  copied = memcpy-Copied m (dest + length a) src k bytes d_fits s_fits apart

  -- Other bytes are as before.
  appended-apart : (x : ℕ) → (x < dest + length a) ⊎ (dest + length a + k < x) → appended x ≡ m x
  unfolding appended
  appended-apart x (inl below) =
      let out : within (dest + length a) (dest + length a + k) x ≡ false = ground (arith, below) in
      let miss : (dest + length a + k == x) ≡ false = ground (arith, below) in
      rw miss (rw out at (copied x))
  appended-apart x (inr above) =
      let out : within (dest + length a) (dest + length a + k) x ≡ false = ground (arith, above) in
      let miss : (dest + length a + k == x) ≡ false = ground (arith, above) in
      rw miss (rw out at (copied x))

  appended-copied : (i : ℕ) → i < k → appended (dest + length a + i) ≡ m (src + i)
  unfolding appended
  appended-copied i below =
      let x = dest + length a + i in
      let inside : within (dest + length a) (dest + length a + k) (dest + length a + i) ≡ true =
        ground (arith, below) in
      let miss : (dest + length a + k == dest + length a + i) ≡ false = ground (arith, below) in
      let index : src + (dest + length a + i - (dest + length a)) ≡ src + i = omega arith in
      rw miss (rw (inside, index) at (copied (dest + length a + i)))

  appended-end : appended (dest + length a + k) ≡ 0
  unfolding appended
  appended-end = ground arith

  appended-Holds : Holds appended dest (a ++ take k b)
  appended-Holds =
      Holds-append m appended dest a (take k b) at_dest
        (λ i below. appended-apart (dest + i) (inl (omega (arith, below))))
        (Holds-copied k m appended src (dest + length a) b at_src few appended-copied appended-end)

take-above : (n : ℕ) (t : List ℕ) → length t ≤ n → take n t ≡ t
take-above zero [] few = refl
take-above zero (c ∷ t) few = let bad : 1 ≤ 0 = omega (arith, few) in elim bad [ ]
take-above (suc n) [] few = refl
take-above (suc n) (c ∷ t) few = ap (λ (u : List ℕ). c ∷ u) (take-above n t (omega (arith, few)))

module _ (m : Memory) (bytes : IsBytes m) (dest src : ℕ) (a b : List ℕ) (at_dest : Holds m dest a)
    (at_src : Holds m src b) (d_fits : dest + length a + length b < 2 ^ 64)
    (s_fits : src + length b < 2 ^ 64)
    (apart : (dest + length a ≤ src) ⊎ (src + length b ≤ dest + length a)) where
  ends_fit : (k : ℕ) → k ≤ length b → (dest + length a ≤ src) ⊎ (src + k ≤ dest + length a)
  ends_fit k few = elim apart [
    | inl below ↦ inl below
    | inr above ↦ inr (omega (arith, above, few))
  ]

  result : (k : ℕ) → k ≤ length b → Memory
  result k few =
      appended m bytes dest src a b at_dest at_src k few (omega (arith, d_fits, few))
        (omega (arith, s_fits, few)) (ends_fit k few)

  result-Holds : (k : ℕ) (few : k ≤ length b) → Holds (result k few) dest (a ++ take k b)
  unfolding result
  result-Holds k few =
      appended-Holds m bytes dest src a b at_dest at_src k few (omega (arith, d_fits, few))
        (omega (arith, s_fits, few)) (ends_fit k few)

  strcat-result : strcat m dest src ≡ result (length b) (omega arith)
  unfolding strcat result appended
  strcat-result =
      let n = strlen-text_of m dest a at_dest (omega (arith, d_fits)) in
      let k = strlen-text_of m src b at_src s_fits in
      let start : u64 (dest + length a) ≡ dest + length a = omega (arith, d_fits) in
      let end : u64 (dest + length a + length b) ≡ dest + length a + length b =
        omega (arith, d_fits) in
      rw (n, k, start, end) refl

  copy_len : ℕ → ℕ
  copy_len count =
      if ltb (strnlen (text_of m src) count) count then strnlen (text_of m src) count else count

  copy_len-min : (count : ℕ) → count + 1 < 2 ^ 64 → copy_len count ≡ min (length b) count
  unfolding copy_len
  copy_len-min count small =
      let e = text_of-Holds m src b at_src s_fits in
      let n = strnlen_lem b count small in rw e (ground (arith, n, length-strlen b))

  strncat-result :
      (count k : ℕ) (few : k ≤ length b)
      → copy_len count ≡ k
      → strncat m dest src count ≡ result k few
  unfolding strncat result appended copy_len
  strncat-result count k few e =
      let n = strlen-text_of m dest a at_dest (omega (arith, d_fits)) in
      let start : u64 (dest + length a) ≡ dest + length a = omega (arith, d_fits) in
      let end : u64 (dest + length a + k) ≡ dest + length a + k = omega (arith, d_fits, few) in
      rw (e, n, start, end) refl

  take-min : (count : ℕ) → take (min (length b) count) b ≡ take count b
  take-min count = elim (Bool-cases (leb (length b) count)) [
    | inl below ↦
        let e : min (length b) count ≡ length b = ground (arith, below) in
        rw e (take-length b ∙ sym (take-above count b (ground (arith, below))))
    | inr above ↦ let e : min (length b) count ≡ count = ground (arith, above) in rw e refl
  ]

  -- `strcat` leaves at the destination the text that stood there with the text at the source behind it,
  -- and `strncat` with the first `count` bytes of that text behind it.
  pub strcat-append :
      (count : ℕ)
      → count + 1 < 2 ^ 64
      → Holds (strcat m dest src) dest (a ++ b)
        × Holds (strncat m dest src count) dest (a ++ take count b)
  strcat-append count small = (
    rw strcat-result (rw (take-length b) at (result-Holds (length b) (omega arith))),
    rw (strncat-result count (min (length b) count) (omega arith) (copy_len-min count small))
        (rw (take-min count) at (result-Holds (min (length b) count) (omega arith))),
  )
