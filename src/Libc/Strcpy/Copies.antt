-- ===== src/Libc/Strcpy/Copies.antt =====
-- What `strcpy` and `strncpy` leave at the destination.
use phoebe.Base.{
  ℕ, ◌+◌, ◌-◌, ◌^◌, ◌≤◌, ◌<◌, ◌≡◌, ◌⊎◌, inl, inr, refl, sym, ◌∙◌, min, ltb, if◌then◌else◌, u64,
  Bool-cases, true, false, List, length, arith,
}
use phoebe.Libc.Memory.{Memory}
use phoebe.Libc.Memory.Region.{within}
use phoebe.Libc.Memory.Copied.{IsBytes}
use phoebe.Libc.Cstring.{strnlen}
use phoebe.Libc.Cstring.Laws.{length-strlen, strnlen_lem}
use phoebe.Libc.Memcpy.{memcpy}
use phoebe.Libc.Memcpy.Laws.{memcpy-Copied}
use phoebe.Libc.Memset.Laws.{written, memset-Filled}
use phoebe.Libc.Strcpy.{strcpy, strncpy}
use phoebe.Libc.Strcpy.Holds.{Holds, text_of-Holds, Holds-copied, Holds-end}
use phoebe.Libc.Strcpy.Laws.{take-length, strlen-text_of}

-- A range that is written behind another one.
layers :
    (d k w x p q v : ℕ)
    → v ≡ (if within d (d + k) x then p else q)
    → (if within (d + k) (d + k + w) x then 0 else v)
      ≡ (if within d (d + k) x then p else if within (d + k) (d + k + w) x then 0 else q)
layers d k w x p q v e = elim (Bool-cases (within d (d + k) x)) [
  | inl first ↦
      let second : within (d + k) (d + k + w) x ≡ false = ground (arith, first) in
      rw (first, second) (rw first at e)
  | inr other ↦ rw other (rw (rw other at e) refl)
]

module _ (m : Memory) (bytes : IsBytes m) (dest src : ℕ) (b : List ℕ) (at_src : Holds m src b) where
  -- `strcpy` copies the text with its NUL.
  pub strcpy-Holds :
      dest + length b + 1 < 2 ^ 64
      → src + length b + 1 < 2 ^ 64
      → (dest ≤ src) ⊎ (src + length b + 1 ≤ dest)
      → Holds (strcpy m dest src) dest b
  unfolding strcpy
  strcpy-Holds d_fits s_fits apart =
      let n = strlen-text_of m src b at_src (omega (arith, s_fits)) in
      let small : u64 (length b + 1) ≡ length b + 1 = omega (arith, d_fits) in
      let apart' : (dest ≤ src) ⊎ (src + (length b + 1) ≤ dest) = ground (arith, apart) in
      let copied =
        memcpy-Copied m dest src (length b + 1) bytes (omega (arith, d_fits))
          (omega (arith, s_fits)) apart' in
      let each : (i : ℕ)
          → i ≤ length b
          → memcpy m dest src (length b + 1) (dest + i) ≡ m (src + i) =
        λ i below.
          let inside : within dest (dest + (length b + 1)) (dest + i) ≡ true =
            ground (arith, below) in
          let index : src + (dest + i - dest) ≡ src + i = omega arith in
          rw (inside, index) at (copied (dest + i)) in
      rw (n, small)
        (rw (take-length b) at (
          Holds-copied (length b) m (memcpy m dest src (length b + 1)) src dest b at_src
            (omega arith) (λ i below. each i (omega (arith, below)))
            (each (length b) (omega arith) ∙ Holds-end m src b at_src)))

  -- What `strncpy` leaves at the address `x`: a text that is shorter than `count`, and behind it the NULs
  -- that `memset` writes, or the first `count` bytes of the text.
  abbrev pub padded : ℕ → ℕ → ℕ
  padded count x =
      if within dest (dest + min (length b) count) x
      then m (src + (x - dest))
      else if within (dest + length b)
          (dest + length b + written (dest + length b) (count - length b)) x
      then 0
      else m x

  -- `strncpy` pads a short text with NULs up to `count` bytes, and, since `memset` does, with up to seven
  -- more where at least eight are to be written from an address that is not a multiple of eight.
  pub strncpy-padded :
      (count : ℕ)
      → dest + length b + count + 8 < 2 ^ 64
      → src + length b + count < 2 ^ 64
      → (dest ≤ src) ⊎ (src + length b ≤ dest)
      → (x : ℕ) → strncpy m dest src count x ≡ padded count x
  unfolding strncpy
  strncpy-padded count d_fits s_fits apart x =
      rw (text_of-Holds m src b at_src (omega (arith, s_fits)))
        (elim (Bool-cases (ltb (length b) count)) [
          | inl short ↦
              let less : length b < count = ground (arith, short) in
              let found : strnlen b count ≡ length b = omega (arith, known, less) in
              let all : min (length b) count ≡ length b = omega (arith, less) in
              let d_here : u64 (dest + length b) ≡ dest + length b = omega (arith, d_fits) in
              let filled =
                memset-Filled (memcpy m dest src (length b)) (dest + length b) 0 (count - length b)
                  (omega (arith, d_fits, less)) x in
              rw (found, short, d_here, all)
                (filled ∙ layers dest (length b) _ x _ _ _ (copied (length b) (omega arith)))
          | inr long ↦
              let more : count ≤ length b = ground (arith, long) in
              let found : ltb (strnlen b count) count ≡ false = ground (arith, known, more) in
              let all : min (length b) count ≡ count = omega (arith, more) in
              let none_left : count - length b ≡ 0 = omega (arith, more) in
              let none : within (dest + length b) (dest + length b + 0) x ≡ false = ground arith in
              rw (found, all, none_left) (rw none (copied count more))
        ])
    where
      known : strnlen b count ≡ min (length b) (count + 1)
      known = rw (sym (length-strlen b)) at (strnlen_lem b count (omega (arith, d_fits)))

      copied :
          (k : ℕ)
          → k ≤ length b
          → memcpy m dest src k x ≡ (if within dest (dest + k) x then m (src + (x - dest)) else m x)
      copied k few =
          memcpy-Copied m dest src k bytes (omega (arith, d_fits, few)) (omega (arith, s_fits, few))
            (ground (arith, apart, few)) x
