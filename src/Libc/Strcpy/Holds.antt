-- ===== src/Libc/Strcpy/Holds.antt =====
-- Texts in memory.
use phoebe.Base.{
  ℕ, zero, suc, ◌+◌, ◌-◌, ◌^◌, ◌≤◌, ◌<◌, ◌≡◌, ◌≢◌, refl, ap, ◌∙◌, ◌==◌, true, false, List, [], ◌∷◌,
  ◌++◌, length, arith,
}
use phoebe.Libc.Memory.{Memory}
use phoebe.Libc.Cstring.Laws.{take}
use phoebe.Libc.Strcpy.{text_at, text_of}

-- The text stands at the address, with a NUL behind it and none in it.
pub data Holds (m : Memory) : ℕ → List ℕ → Type 0 where
  ends : {s : ℕ} → m s ≡ 0 → Holds m s []
  next : {s c : ℕ} {t : List ℕ} → m s ≡ c → c ≢ 0 → Holds m (s + 1) t → Holds m s (c ∷ t)

-- It is the text that is read there.
text_at-Holds :
    (left : ℕ) (m : Memory) (s : ℕ) (t : List ℕ)
    → Holds m s t
    → length t < left
    → text_at left m s ≡ t
unfolding text_at
text_at-Holds zero m s t h few = let bad : 1 ≤ 0 = omega (arith, few) in elim bad [ ]
text_at-Holds (suc left) m s [] (ends e) few =
    let here : (m s == 0) ≡ true = ground (arith, e) in rw (here, text_at) refl
text_at-Holds (suc left) m s (c ∷ t) (next e n h) few =
    let other : (m s == 0) ≡ false = grind (arith, e, n) in
    rw (other, text_at)
      (rw e (ap (λ (u : List ℕ). c ∷ u) (text_at-Holds left m (s + 1) t h (omega (arith, few)))))

pub text_of-Holds :
    (m : Memory) (s : ℕ) (t : List ℕ) → Holds m s t → s + length t < 2 ^ 64 → text_of m s ≡ t
text_of-Holds m s t h fits = text_at-Holds (2 ^ 64 - s) m s t h (omega (arith, fits))

-- The first bytes of a text, copied and with a NUL behind them.
pub Holds-copied :
    (k : ℕ) (m m' : Memory) (s d : ℕ) (t : List ℕ)
    → Holds m s t
    → k ≤ length t
    → ((i : ℕ) → i < k → m' (d + i) ≡ m (s + i))
    → m' (d + k) ≡ 0
    → Holds m' d (take k t)
Holds-copied zero m m' s d t h few same end = let e : d + 0 ≡ d = omega arith in ends (rw e at end)
Holds-copied (suc k) m m' s d [] h few same end =
    let bad : 1 ≤ 0 = omega (arith, few) in elim bad [ ]
Holds-copied (suc k) m m' s d (c ∷ t) (next e n h) few same end =
    let d0 : d + 0 ≡ d = omega arith in
    let s0 : s + 0 ≡ s = omega arith in
    let dk : d + suc k ≡ d + 1 + k = omega arith in
    next (rw (d0, s0) at (same 0 (omega arith)) ∙ e) n (
      Holds-copied k m m' (s + 1) (d + 1) t h (omega (arith, few))
        (λ i below.
          let di : d + suc i ≡ d + 1 + i = omega arith in
          let si : s + suc i ≡ s + 1 + i = omega arith in
          rw (di, si) at (same (suc i) (omega (arith, below))))
        (rw dk at end))

-- A text behind the bytes of another one.
pub Holds-append :
    (m m' : Memory) (s : ℕ) (a t : List ℕ)
    → Holds m s a
    → ((i : ℕ) → i < length a → m' (s + i) ≡ m (s + i))
    → Holds m' (s + length a) t
    → Holds m' s (a ++ t)
Holds-append m m' s [] t h same rest = let e : s + 0 ≡ s = omega arith in rw e at rest
Holds-append m m' s (c ∷ a) t (next e n h) same rest =
    let s0 : s + 0 ≡ s = omega arith in
    let sk : s + suc (length a) ≡ s + 1 + length a = omega arith in
    next (rw s0 at (same 0 (omega arith)) ∙ e) n (
      Holds-append m m' (s + 1) a t h
        (λ i below.
          let si : s + suc i ≡ s + 1 + i = omega arith in
          rw si at (same (suc i) (omega (arith, below))))
        (rw sk at rest))

pub Holds-end : (m : Memory) (s : ℕ) (t : List ℕ) → Holds m s t → m (s + length t) ≡ 0
Holds-end m s [] (ends e) = let s0 : s + 0 ≡ s = omega arith in rw s0 e
Holds-end m s (c ∷ t) (next e n h) =
    let sk : s + suc (length t) ≡ s + 1 + length t = omega arith in rw sk (Holds-end m (s + 1) t h)
