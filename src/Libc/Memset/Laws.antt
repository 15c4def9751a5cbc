-- ===== src/Libc/Memset/Laws.antt =====
-- What `memset` writes.
use phoebe.Base.{
  ℕ, zero, suc, ◌+◌, ◌-◌, ◌*◌, ◌/◌, ◌%◌, ◌^◌, ◌<◌, ◌≡◌, refl, ◌==◌, leb, ==_iff, u8, u64,
  if◌then◌else◌, Bool, true, false, arith, Bool-cases, inl, inr, ◌∙◌,
}
use phoebe.Base.Table.{all_below, all_below_sound}
use phoebe.Libc.Memory.{Memory}
use phoebe.Libc.Memory.Region.{Filled, Filled-store, repeated, store_bytes-Filled}
use phoebe.Libc.Memset.{
  Cursor, put_byte, put_word, put_block, align, repeat, spread, memset_words, memset,
}

-- From `s` to `s'` the pointer moved by `k` bytes, and these are `v` now.
record Advance (v k : ℕ) (s s' : Cursor) : Type 0 where
  moved : s'.destp ≡ s.destp + k
  filled : Filled s.memory v s.destp (s.destp + k) s'.memory

Advance-zero : (v : ℕ) (s : Cursor) → Advance v 0 s s
Advance-zero v s = record { moved = omega arith; filled = λ a. ground arith }

Advance-trans :
    (v j k : ℕ) (s t u : Cursor) → Advance v j s t → Advance v k t u → Advance v (j + k) s u
Advance-trans v j k s t u p q = record {
  moved = omega (arith, p.moved, q.moved);
  filled = λ a. ground (arith, p.moved, p.filled a, q.filled a);
}

repeat-Advance :
    (v k : ℕ) (body : Cursor → Cursor)
    → ((s : Cursor) → s.destp + k < 2 ^ 64 → Advance v k s (body s))
    → (n : ℕ) (s : Cursor) → s.destp + n * k < 2 ^ 64
    → Advance v (n * k) s (repeat n body s)
unfolding repeat
repeat-Advance v k body step zero s h = let e : 0 * k ≡ 0 = omega arith in rw e (Advance-zero v s)
repeat-Advance v k body step (suc n) s h =
    let e : suc n * k ≡ k + n * k = grind arith in
    let first = step s (omega (arith, e)) in
    rw e (
      Advance-trans v k (n * k) s (body s) (repeat n body (body s)) first
        (repeat-Advance v k body step n (body s) (omega (arith, e, first.moved))))

put_byte-Advance : (c : ℕ) (s : Cursor) → s.destp + 1 < 2 ^ 64 → Advance (u8 c) 1 s (put_byte c s)
unfolding put_byte
put_byte-Advance c s h = record {
  moved = omega arith;
  filled = Filled-store s.memory (u8 c) s.destp;
}

spread_test : ℕ → Bool
unfolding spread repeated
spread_test c = spread c == repeated 8 c

spread_table : all_below 256 spread_test ≡ true
unfolding all_below spread_test
spread_table = refl

-- The shifts put the byte in all eight places.
spread-repeated : (c : ℕ) → spread c ≡ repeated 8 (u8 c)
spread-repeated c = spread_u8 ∙ (==_iff _ _).0 table
  where
    table : (spread (u8 c) == repeated 8 (u8 c)) ≡ true
    table = unfold spread_test in all_below_sound 256 spread_test spread_table (u8 c) (omega arith)

    spread_u8 : spread c ≡ spread (u8 c)
    spread_u8 = unfold spread in (let e : u8 c ≡ u8 (u8 c) = omega arith in rw (← e))

put_word-Advance :
    (c : ℕ) (s : Cursor) → s.destp + 8 < 2 ^ 64 → Advance (u8 c) 8 s (put_word (spread c) s)
unfolding put_word
put_word-Advance c s h = record {
  moved = omega arith;
  filled = rw (spread-repeated c) (store_bytes-Filled 8 s.memory s.destp (u8 c) (omega arith));
}

-- A block is eight words in a row.
put_block-repeat : (word : ℕ) (s : Cursor) → put_block word s ≡ repeat 8 (put_word word) s
unfolding put_block repeat put_word
put_block-repeat word s =
    let d = s.destp in
    let e2 : u64 (u64 (d + 8) + 8) ≡ u64 (d + 16) = omega arith in
    let e3 : u64 (u64 (d + 16) + 8) ≡ u64 (d + 24) = omega arith in
    let e4 : u64 (u64 (d + 24) + 8) ≡ u64 (d + 32) = omega arith in
    let e5 : u64 (u64 (d + 32) + 8) ≡ u64 (d + 40) = omega arith in
    let e6 : u64 (u64 (d + 40) + 8) ≡ u64 (d + 48) = omega arith in
    let e7 : u64 (u64 (d + 48) + 8) ≡ u64 (d + 56) = omega arith in
    let e8 : u64 (u64 (d + 56) + 8) ≡ u64 (d + 64) = omega arith in rw (e2, e3, e4, e5, e6, e7, e8)

put_block-Advance :
    (c : ℕ) (s : Cursor) → s.destp + 64 < 2 ^ 64 → Advance (u8 c) 64 s (put_block (spread c) s)
put_block-Advance c s h =
    rw put_block-repeat
      (repeat-Advance (u8 c) 8 (put_word (spread c)) (put_word-Advance c) 8 s (omega arith))

-- The bytes from `d` to the next multiple of eight.
abbrev pub padding : ℕ → ℕ
padding d = (8 - d % 8) % 8

align-Advance :
    (fuel c : ℕ) (s : Cursor)
    → padding s.destp < fuel
    → s.destp + padding s.destp < 2 ^ 64
    → Advance (u8 c) (padding s.destp) s (align fuel c s)
unfolding align
align-Advance zero c s p h = elim p [ ]
align-Advance (suc fuel) c s p h = elim (Bool-cases (s.destp % 8 == 0)) [
  | inl done ↦
      let e : padding s.destp ≡ 0 = ground arith in rw (done, align, e) (Advance-zero (u8 c) s)
  | inr more ↦
      let pad : 0 < padding s.destp = ground arith in
      let first = put_byte-Advance c s (omega arith) in
      let e : padding s.destp ≡ 1 + padding (put_byte c s).destp = omega (arith, first.moved) in
      rw (more, align, e)
        (Advance-trans (u8 c) 1 (padding (put_byte c s).destp) s (put_byte c s) _ first
          (align-Advance fuel c (put_byte c s) (omega (arith, e)) (omega (arith, e, first.moved))))
]

-- The bytes that a call with a length of `n` writes: past `d + n`, it also writes as many as it
-- took to align `d`, when it writes words at all.
abbrev pub written : ℕ → ℕ → ℕ
written d n = if leb 8 n then n + padding d else n

memset_words-Advance :
    (c n : ℕ) (s : Cursor)
    → s.destp + padding s.destp + n < 2 ^ 64
    → Advance (u8 c) (padding s.destp + n / 8 * 8) s (memset_words c n s)
unfolding memset_words
memset_words-Advance c n s h =
    let first = align-Advance 8 c s (omega arith) (omega arith) in
    let second =
      repeat-Advance (u8 c) 64 (put_block (spread c)) (put_block-Advance c) (n / 64) (align 8 c s)
        (omega (arith, first.moved)) in
    let third =
      repeat-Advance (u8 c) 8 (put_word (spread c)) (put_word-Advance c) (n % 64 / 8)
        (repeat (n / 64) (put_block (spread c)) (align 8 c s))
        (omega (arith, first.moved, second.moved)) in
    let e : padding s.destp + n / 8 * 8 ≡ padding s.destp + n / 64 * 64 + n % 64 / 8 * 8 =
      omega arith in
    rw e (Advance-trans _ _ _ _ _ _ (Advance-trans _ _ _ _ _ _ first second) third)

-- Every call whose writes end below the top of the address space fills the `n` bytes at `d` with
-- the low byte of `c`, and changes no byte but these and, where it writes words (`n` is at least
-- 8), as many behind them as `d` is short of a multiple of eight.
pub memset-Filled :
    (m : Memory) (d c n : ℕ)
    → d + padding d + n < 2 ^ 64
    → Filled m (u8 c) d (d + written d n) (memset m d c n)
unfolding memset
memset-Filled m d c n h = elim (Bool-cases (leb 8 n)) [
  | inl words ↦ rw (words, memset) (whole_words words)
  | inr short ↦ rw (short, memset) (bytes short)
]
  where
    start : Cursor
    start = record { memory = m; destp = d }

    bytes : leb 8 n ≡ false → Filled m (u8 c) d (d + n) (repeat n (put_byte c) start).memory
    bytes short =
        let all = repeat-Advance (u8 c) 1 (put_byte c) (put_byte-Advance c) n start (omega arith) in
        λ a. ground (arith, all.filled a)

    whole_words :
        leb 8 n ≡ true
        → Filled m
            (u8 c)
            d
            (d + (n + padding d))
            (repeat (n % 64 % 8) (put_byte c) (memset_words c n start)).memory
    whole_words words =
        let first = memset_words-Advance c n start (omega arith) in
        let rest =
          repeat-Advance (u8 c) 1 (put_byte c) (put_byte-Advance c) (n % 64 % 8)
            (memset_words c n start) (omega (arith, first.moved)) in
        let e : d + (n + padding d) ≡ d + (padding d + n / 8 * 8 + n % 64 % 8 * 1) = omega arith in
        rw e ((Advance-trans _ _ _ _ _ _ first rest).filled)
