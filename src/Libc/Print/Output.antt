-- ===== src/Libc/Print/Output.antt =====
-- What `output_reverse` of `libc/stdio/print.c` writes.
use phoebe.Base.{
  ℕ, zero, suc, ◌+◌, ◌-◌, ◌^◌, ◌≤◌, ◌<◌, ◌≡◌, refl, sym, ◌∙◌, ltb, if◌then◌else◌, u64, sub64, List,
  [], ◌∷◌, ◌++◌, length, replicate, arith, Bool-cases, Option-cases, inl, inr,
}
use phoebe.Libc.Print.{
  put_spaces, put_all, put_up_to, output_reverse, is_set, flags_left, flags_zeropad,
}
use phoebe.Libc.Stdio.{File, putc, put}

put-position : (fp : File) (c : ℕ) → (put fp c).position ≡ u64 (fp.position + 1)
unfolding put putc
put-position fp c = elim (Option-cases fp.write_func) [ inl e ↦ rw e | inr p ↦ rw p.1 ]

pub position-lt :
    (text : List ℕ) (fp : File) → fp.position < 2 ^ 64 → (put_all text fp).position < 2 ^ 64
unfolding put_all
position-lt [] fp p = p
position-lt (c ∷ text) fp p = position-lt text (put fp c) (omega (arith, put-position fp c))

pub put_all-append :
    (xs ys : List ℕ) (fp : File) → put_all (xs ++ ys) fp ≡ put_all ys (put_all xs fp)
unfolding put_all
put_all-append [] ys fp = refl
put_all-append (c ∷ xs) ys fp = put_all-append xs ys (put fp c)

put_spaces-put_all : (n : ℕ) (fp : File) → put_spaces n fp ≡ put_all (replicate n b' ') fp
unfolding put_spaces put_all
put_spaces-put_all zero fp = refl
put_spaces-put_all (suc n) fp = put_spaces-put_all n (put fp b' ')

-- The columns that are written since `start_pos`.
abbrev columns : ℕ → File → ℕ
columns start_pos fp = sub64 fp.position start_pos

columns-put_all :
    (text : List ℕ) (fp : File) (start_pos : ℕ)
    → fp.position < 2 ^ 64
    → start_pos < 2 ^ 64
    → columns start_pos fp + length text < 2 ^ 64
    → columns start_pos (put_all text fp) ≡ columns start_pos fp + length text
unfolding put_all
columns-put_all [] fp start_pos p s h = omega arith
columns-put_all (c ∷ text) fp start_pos p s h =
    let moved = put-position fp c in
    let next : columns start_pos (put fp c) ≡ columns start_pos fp + 1 = omega (arith, moved) in
    let rest =
      columns-put_all text (put fp c) start_pos (omega (arith, moved)) s (omega (arith, next)) in
    omega (arith, rest, next)

put_up_to-put_all :
    (fuel start_pos width : ℕ) (fp : File)
    → fp.position < 2 ^ 64
    → start_pos < 2 ^ 64
    → width < 2 ^ 64
    → width ≤ columns start_pos fp + fuel
    → put_up_to fuel start_pos width fp ≡ put_all (replicate (width - columns start_pos fp) b' ') fp
unfolding put_up_to put_all
put_up_to-put_all zero start_pos width fp p s w h =
    let done : width - columns start_pos fp ≡ 0 = omega arith in rw done
put_up_to-put_all (suc fuel) start_pos width fp p s w h =
    elim (Bool-cases (ltb (columns start_pos fp) width)) [
      | inl test ↦
          let moved = put-position fp b' ' in
          let below : columns start_pos fp < width = ground (arith, test) in
          let next : columns start_pos (put fp b' ') ≡ columns start_pos fp + 1 =
            omega (arith, moved, below) in
          let left : width - columns start_pos fp ≡ suc (width - columns start_pos (put fp b' ')) =
            omega (arith, next, below) in
          let rest =
            put_up_to-put_all fuel start_pos width (put fp b' ') (omega (arith, moved)) s w
              (omega (arith, next)) in
          rw (test, left) rest
      | inr test ↦
          let done : width - columns start_pos fp ≡ 0 = ground (arith, test) in rw (test, done)
    ]

-- The buffer with the spaces that bring it to the width, on the side that the flags ask for.
unfoldable pub justified : List ℕ → ℕ → ℕ → List ℕ
justified buffer width flags =
    let spaces = replicate (width - length buffer) b' ' in
    if is_set flags flags_left
    then buffer ++ spaces
    else if is_set flags flags_zeropad
    then buffer
    else spaces ++ buffer

-- `output_reverse` writes the buffer with the spaces that bring it to the width: behind it with
-- `FLAGS_LEFT`, none with `FLAGS_ZEROPAD` alone, and otherwise in front.
pub output_reverse-justified :
    (fp : File) (buffer : List ℕ) (width flags : ℕ)
    → fp.position < 2 ^ 64
    → width < 2 ^ 64
    → length buffer < 2 ^ 64
    → output_reverse fp buffer width flags ≡ put_all (justified buffer width flags) fp
unfolding output_reverse justified
output_reverse-justified fp buffer width flags p w l = elim (Bool-cases (is_set flags flags_left)) [
  | inl left ↦
      let start : columns fp.position fp ≡ 0 = omega arith in
      let written = columns-put_all buffer fp fp.position p p (omega (arith, start)) in
      let count : columns fp.position (put_all buffer fp) ≡ length buffer =
        omega (arith, written, start) in
      let behind =
        put_up_to-put_all width fp.position width (put_all buffer fp) (position-lt buffer fp p) p w
          (omega arith) in
      let spaces : List ℕ = replicate (width - length buffer) b' ' in
      rw left ((rw count at behind) ∙ sym (put_all-append buffer spaces fp))
  | inr left ↦ elim (Bool-cases (is_set flags flags_zeropad)) [
    | inl zeros ↦ rw (left, zeros)
    | inr zeros ↦
        let spaces : List ℕ = replicate (width - length buffer) b' ' in
        rw (left, zeros, put_spaces-put_all (width - length buffer) fp)
          (sym (put_all-append spaces buffer fp))
  ]
]
