-- ===== src/Libc/Strtol/Scan.antt =====
-- The digit loop against the number that the digits denote, for every base and limit.
use phoebe.Base.{
  ℕ, ◌+◌, ◌*◌, ◌/◌, ◌%◌, ◌^◌, ◌≤◌, ◌<◌, ◌≡◌, refl, ap, ltb, ◌==◌, Bool, true, false, ◌&&◌, ◌||◌,
  u64, List, [], ◌∷◌, none, some, arith, Bool-cases, inl, inr, ◌⊎◌, Option-cases, dec_lt,
}
use native.Mathlib.Nat.{mul-le-mul_right}
use phoebe.Libc.Strtol.{next_digit, Any, Total, is_overflow, add_digit, accumulate, scan}

-- The digits at the front of a text, and what follows them.
unfoldable pub digits_of : ℕ → List ℕ → List ℕ
digits_of base [] = []
digits_of base (c ∷ s) = elim (next_digit base c) [ none ↦ [] | some d ↦ d ∷ digits_of base s ]

unfoldable pub after_digits : ℕ → List ℕ → List ℕ
after_digits base [] = []
after_digits base (c ∷ s) = elim (next_digit base c) [ none ↦ c ∷ s | some d ↦ after_digits base s ]

-- The number that digits denote, behind those that have given `acc`.
unfoldable pub number : ℕ → ℕ → List ℕ → ℕ
number base acc [] = acc
number base acc (d ∷ ds) = number base (acc * base + d) ds

next_digit-lt : (base c d : ℕ) → next_digit base c ≡ some d → d < base
unfolding next_digit
next_digit-lt base c d h = ground arith

le-number : (base acc : ℕ) (ds : List ℕ) → 0 < base → acc ≤ number base acc ds
unfolding number
le-number base acc [] h = omega arith
le-number base acc (d ∷ ds) h = omega (arith, le-number base (acc * base + d) ds h, grows)
  where
    grows : acc ≤ acc * base
    grows = grind arith

-- The test of the loop is exact: it finds out whether the next value passes the limit.
module _ (base max acc d : ℕ) (digit : d < base) (below : acc ≤ max) where
  abbrev passes : Bool
  passes = ltb (max / base) acc || (acc == max / base && ltb (max % base) d)

  parts : max / base * base + max % base ≡ max
  parts = grind arith

  rest : max % base < base
  rest = omega arith

  passes→lt : passes ≡ true → max < acc * base + d
  passes→lt h = by_case (ground arith)
    where
      by_case : (max / base < acc) ⊎ ((acc ≡ max / base) × (max % base < d)) → max < acc * base + d
      by_case (inl p) = omega (arith, parts, rest, mul-le-mul_right base p)
      by_case (inr p) = omega (arith, parts, ap (λ (t : ℕ). t * base) p.0)

  not_passes→le : passes ≡ false → acc * base + d ≤ max
  not_passes→le h = by_case (ground arith)
    where
      by_case : (acc < max / base) ⊎ ((acc ≡ max / base) × (d ≤ max % base)) → acc * base + d ≤ max
      by_case (inl p) = omega (arith, parts, mul-le-mul_right base p)
      by_case (inr p) = omega (arith, parts, ap (λ (t : ℕ). t * base) p.0)

-- What the loop knows of the number so far: it is in `acc`, or it has passed the limit.
abbrev pub seen : Any → List ℕ → Any
seen any [] = any
seen any (d ∷ ds) = Any.digits

record Reads (base max : ℕ) (s : List ℕ) (t : Total) (r : Total × List ℕ) : Type 0 where
  ends : r.1 ≡ after_digits base s
  exact :
      number base t.acc (digits_of base s) ≤ max
      → (r.0 ≡ record {
        acc = number base t.acc (digits_of base s);
        any = seen t.any (digits_of base s);
      })
  past : max < number base t.acc (digits_of base s) → (r.0).any ≡ Any.overflow

-- One character of each function over a text.
module _ (base c : ℕ) (s : List ℕ) where
  pub digits_of-none : next_digit base c ≡ none → digits_of base (c ∷ s) ≡ []
  unfolding digits_of
  digits_of-none e = rw (e, digits_of)

  pub digits_of-some :
      {d : ℕ} → next_digit base c ≡ some d → digits_of base (c ∷ s) ≡ d ∷ digits_of base s
  unfolding digits_of
  digits_of-some e = rw (e, digits_of)

  after_digits-none : next_digit base c ≡ none → after_digits base (c ∷ s) ≡ c ∷ s
  unfolding after_digits
  after_digits-none e = rw (e, after_digits)

  after_digits-some :
      {d : ℕ} → next_digit base c ≡ some d → after_digits base (c ∷ s) ≡ after_digits base s
  unfolding after_digits
  after_digits-some e = rw (e, after_digits)

  accumulate-none :
      (cutoff cutlim : ℕ) (t : Total)
      → next_digit base c ≡ none
      → accumulate base cutoff cutlim (c ∷ s) t ≡ (t, c ∷ s)
  unfolding accumulate
  accumulate-none cutoff cutlim t e = rw (e, accumulate)

  accumulate-some :
      (cutoff cutlim : ℕ) (t : Total) {d : ℕ}
      → next_digit base c ≡ some d
      → accumulate base cutoff cutlim (c ∷ s) t
        ≡ accumulate base cutoff cutlim s (add_digit base cutoff cutlim t d)
  unfolding accumulate
  accumulate-some cutoff cutlim t e = rw (e, accumulate)

-- Once past the limit, the loop only looks for the end.
accumulate_past :
    (base cutoff cutlim acc : ℕ) (s : List ℕ)
    → accumulate base cutoff cutlim s (record { acc = acc; any = Any.overflow })
      ≡ (record { acc = acc; any = Any.overflow }, after_digits base s)
unfolding accumulate after_digits add_digit
accumulate_past base cutoff cutlim acc [] = refl
accumulate_past base cutoff cutlim acc (c ∷ s) = elim (Option-cases (next_digit base c)) [
  | inl e ↦ rw (accumulate-none base c s cutoff cutlim _ e, after_digits-none base c s e)
  | inr (d, e) ↦
      rw (accumulate-some base c s cutoff cutlim _ e, after_digits-some base c s e)
        (accumulate_past base cutoff cutlim acc s)
]

seen_digits : (ds : List ℕ) → seen Any.digits ds ≡ Any.digits
seen_digits [] = refl
seen_digits (d ∷ ds) = refl

module _ (base max : ℕ) (some_base : 0 < base) (fits : max < 2 ^ 64) where
  -- At a digit the loop takes the next value, if that is not past the limit.
  add_digit_within :
      (acc : ℕ) (any : Any) (d : ℕ)
      → is_overflow any ≡ false
      → acc ≤ max
      → d < base
      → acc * base + d ≤ max
      → add_digit base (max / base) (max % base) (record { acc = acc; any = any }) d
        ≡ record { acc = acc * base + d; any = Any.digits }
  unfolding add_digit
  add_digit_within acc any d fresh below digit within =
      let test : passes base max acc d digit below ≡ false =
        elim (Bool-cases (passes base max acc d digit below)) [
          | inl p ↦ absurd (omega (arith, passes→lt base max acc d digit below p))
          | inr p ↦ p
        ] in
      let exact : u64 (u64 (acc * base) + d) ≡ acc * base + d = omega arith in
      rw (fresh, test, exact)

  add_digit_past :
      (acc : ℕ) (any : Any) (d : ℕ)
      → acc ≤ max
      → d < base
      → max < acc * base + d
      → add_digit base (max / base) (max % base) (record { acc = acc; any = any }) d
        ≡ record { acc = acc; any = Any.overflow }
  unfolding add_digit
  add_digit_past acc any d below digit past =
      let test : passes base max acc d digit below ≡ true =
        elim (Bool-cases (passes base max acc d digit below)) [
          | inl p ↦ p
          | inr p ↦ absurd (omega (arith, not_passes→le base max acc d digit below p))
        ] in
      rw test (ground arith)

  module _ (c : ℕ) (s : List ℕ) (acc : ℕ) (any : Any) (below : acc ≤ max) where
    abbrev here : Total
    here = record { acc = acc; any = any }

    Reads-none : next_digit base c ≡ none → Reads base max (c ∷ s) here (here, c ∷ s)
    unfolding number
    Reads-none e = record {
      ends = rw (after_digits-none base c s e);
      exact = λ _. rw (digits_of-none base c s e);
      past = λ p. absurd (omega (arith, rw (digits_of-none base c s e) at p));
    }

    Reads-within :
        (d : ℕ) (r : Total × List ℕ)
        → next_digit base c ≡ some d
        → Reads base max s (record { acc = acc * base + d; any = Any.digits }) r
        → Reads base max (c ∷ s) here r
    unfolding number
    Reads-within d r e f = record {
      ends = rw (after_digits-some base c s e) f.ends;
      exact = λ p.
          rw (digits_of-some base c s e)
            (rw seen_digits at (f.exact (rw (digits_of-some base c s e) at p)));
      past = λ p. f.past (rw (digits_of-some base c s e) at p);
    }

    Reads-past :
        (d : ℕ)
        → next_digit base c ≡ some d
        → max < acc * base + d
        → Reads base max
            (c ∷ s)
            here
            (record { acc = acc; any = Any.overflow }, after_digits base s)
    unfolding number
    Reads-past d e over = record {
      ends = rw (after_digits-some base c s e);
      exact = λ p. absurd (
          omega (
            arith,
            rw (digits_of-some base c s e) at p,
            le-number base (acc * base + d) (digits_of base s) some_base,
          ));
      past = λ _. refl;
    }

  accumulate-Reads :
      (s : List ℕ) (acc : ℕ) (any : Any)
      → is_overflow any ≡ false
      → acc ≤ max
      → Reads base max s
          (record { acc = acc; any = any })
          (accumulate base (max / base) (max % base) s (record { acc = acc; any = any }))
  accumulate-Reads [] acc any fresh below =
      unfold accumulate digits_of after_digits number in
      record { ends = refl; exact = λ _. refl; past = λ p. absurd (omega arith) }
  accumulate-Reads (c ∷ s) acc any fresh below = elim (Option-cases (next_digit base c)) [
    | inl e ↦ rw (accumulate-none base c s _ _ _ e) (Reads-none c s acc any below e)
    | inr (d, e) ↦
        let digit = next_digit-lt base c d e in
        elim (dec_lt max (acc * base + d)) [
          | yes over ↦
              rw
                (
                  accumulate-some base c s _ _ _ e,
                  add_digit_past acc any d below digit over,
                  accumulate_past base (max / base) (max % base) acc s,
                )
                (Reads-past c s acc any below d e over)
          | no within ↦
              rw
                (
                  accumulate-some base c s _ _ _ e,
                  add_digit_within acc any d fresh below digit (omega arith),
                )
                (Reads-within c s acc any below d _ e
                  (accumulate-Reads s (acc * base + d) Any.digits refl (omega arith)))
        ]
  ]

-- What `scan` makes of a text: the number that its digits denote, if that is within the limit.
pub record Scans (max base : ℕ) (s : List ℕ) (r : Total × List ℕ) : Type 0 where
  pub ends : r.1 ≡ after_digits base s
  pub exact :
      number base 0 (digits_of base s) ≤ max
      → (r.0 ≡ record {
        acc = number base 0 (digits_of base s);
        any = seen Any.no_digits (digits_of base s);
      })
  pub past : max < number base 0 (digits_of base s) → (r.0).any ≡ Any.overflow

pub scan-Scans :
    (max base : ℕ) (s : List ℕ) → 0 < base → max < 2 ^ 64 → Scans max base s (scan max base s)
unfolding scan
scan-Scans max base s some_base fits =
    let r = accumulate-Reads base max some_base fits s 0 Any.no_digits refl (omega arith) in
    record { ends = r.ends; exact = r.exact; past = r.past }
