-- ===== src/Libc/Print/Padding.antt =====
-- The zeros and the sign that `finalize_integer` of `libc/stdio/print.c` puts in front of the digits.
use phoebe.Base.{
  ℕ, zero, suc, ◌≤◌, ◌≡◌, inl, inr, refl, ap, ltb, ◌==◌, not, true, false, ◌&&◌, ◌||◌, List, ◌∷◌,
  ◌++◌, length, replicate, length-append, arith, Bool-cases, bit_or,
}
use phoebe.Libc.Print.{
  is_set, flags_precision, flags_hash, flags_left, flags_zeropad, flags_plus, flags_space,
  flags_pointer, integer_buffer_size, push, pad_zeros, pad_width, take_back, make_room, push_prefix,
  push_sign, finish, sign_width,
}

-- Zeros in front of the digits.
abbrev pub Padded : List ℕ → List ℕ → Type 0
Padded digits buffer = (k : ℕ) × (buffer ≡ replicate k b'0' ++ digits)

Padded-zero : (digits buffer : List ℕ) → Padded digits buffer → Padded digits (b'0' ∷ buffer)
Padded-zero digits buffer (k, e) = (suc k, ap (λ (s : List ℕ). b'0' ∷ s) e)

pad_zeros-Padded :
    (fuel limit : ℕ) (digits buffer : List ℕ)
    → Padded digits buffer
    → Padded digits (pad_zeros fuel limit buffer)
unfolding pad_zeros
pad_zeros-Padded zero limit digits buffer p = p
pad_zeros-Padded (suc fuel) limit digits buffer p =
    elim (Bool-cases (ltb (length buffer) limit && ltb (length buffer) integer_buffer_size)) [
      | inl test ↦
          rw test (pad_zeros-Padded fuel limit digits (b'0' ∷ buffer) (Padded-zero digits buffer p))
      | inr test ↦ rw test p
    ]

take_back-Padded :
    (digits buffer : List ℕ)
    → Padded digits buffer
    → Padded digits (take_back (length digits) buffer)
unfolding take_back
take_back-Padded digits buffer (zero, e) =
    let test : ltb (length digits) (length digits) ≡ false = ground arith in rw (e, test) (0, refl)
take_back-Padded digits buffer (suc k, e) =
    let count = length-append (replicate k b'0') digits in
    let test : ltb (length digits) (suc (length (replicate k b'0' ++ digits))) ≡ true =
      ground (arith, count) in
    rw (e, test) (k, refl)

make_room-Padded :
    (precision width flags : ℕ) (digits buffer : List ℕ)
    → Padded digits buffer
    → Padded digits (make_room (length digits) 10 precision width flags buffer)
unfolding make_room
make_room-Padded precision width flags digits buffer p =
    let len = length buffer in
    elim (Bool-cases (
      not (is_set flags flags_precision)
      && (not (len == 0) && (len == precision || len == width)))) [
        | inl test ↦
            let never : (not (length (take_back (length digits) buffer) == 0)
                  && (10 == 16 || 10 == 2))
                ≡ false =
              ground arith in
            rw (test, never) (take_back-Padded digits buffer p)
        | inr test ↦ rw test p
      ]

push-Padded : (digits buffer : List ℕ) → Padded digits buffer → Padded digits (push b'0' buffer)
unfolding push
push-Padded digits buffer p = elim (Bool-cases (ltb (length buffer) integer_buffer_size)) [
  | inl test ↦ rw test (Padded-zero digits buffer p)
  | inr test ↦ rw test p
]

pad_width-Padded :
    (width flags : ℕ) (digits buffer : List ℕ)
    → Padded digits buffer
    → Padded digits (pad_width width flags buffer)
unfolding pad_width
pad_width-Padded width flags digits buffer p =
    elim (Bool-cases (not (is_set flags flags_left) && is_set flags flags_zeropad)) [
      | inl test ↦ rw test (pad_zeros-Padded integer_buffer_size width digits buffer p)
      | inr test ↦ rw test p
    ]

-- The buffer that is finished in base 10 without a minus sign: at most one character, which is a
-- plus sign or a space, then zeros, and the digits.
pub data Signed (digits : List ℕ) : List ℕ → Type 0 where
  bare : {buffer : List ℕ} → Padded digits buffer → Signed digits buffer
  plus : {buffer : List ℕ} → Padded digits buffer → Signed digits (b'+' ∷ buffer)
  space : {buffer : List ℕ} → Padded digits buffer → Signed digits (b' ' ∷ buffer)

push_sign-Signed :
    (flags : ℕ) (digits buffer : List ℕ)
    → Padded digits buffer
    → Signed digits (push_sign false flags buffer)
unfolding push_sign push
push_sign-Signed flags digits buffer p = elim (Bool-cases (is_set flags flags_plus)) [
  | inl add ↦ elim (Bool-cases (ltb (length buffer) integer_buffer_size)) [
    | inl room ↦ rw (add, room) (Signed.plus p)
    | inr room ↦ rw (add, room) (Signed.bare p)
  ]
  | inr add ↦ elim (Bool-cases (is_set flags flags_space)) [
    | inl blank ↦ elim (Bool-cases (ltb (length buffer) integer_buffer_size)) [
      | inl room ↦ rw (add, blank, room) (Signed.space p)
      | inr room ↦ rw (add, blank, room) (Signed.bare p)
    ]
    | inr blank ↦ rw (add, blank) (Signed.bare p)
  ]
]

pub finish-Signed :
    (digits : List ℕ) (precision width flags : ℕ)
    → Signed digits (finish digits false 10 precision width flags).buffer
unfolding finish push_prefix
finish-Signed digits precision width flags =
    let w = sign_width false width flags in
    let padded = pad_zeros integer_buffer_size precision (pad_width w flags digits) in
    let p : Padded digits padded =
      pad_zeros-Padded integer_buffer_size precision digits (pad_width w flags digits)
        (pad_width-Padded w flags digits digits (0, refl)) in
    elim (Bool-cases (is_set flags (bit_or flags_hash flags_pointer))) [
      | inl hash ↦ rw hash (
          push_sign-Signed flags digits _
            (push-Padded digits _ (make_room-Padded precision w flags digits padded p)))
      | inr hash ↦ rw hash (push_sign-Signed flags digits padded p)
    ]

pub finish-width :
    (digits : List ℕ) (precision width flags : ℕ)
    → (finish digits false 10 precision width flags).width ≤ width
unfolding finish sign_width
finish-width digits precision width flags = ground arith
