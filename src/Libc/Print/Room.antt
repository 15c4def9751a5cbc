-- ===== src/Libc/Print/Room.antt =====
-- The buffer of `print_integer` of `libc/stdio/print.c` never holds more than its size.
use phoebe.Base.{
  ℕ, zero, suc, ◌+◌, ◌/◌, ◌%◌, ◌≤◌, ◌<◌, ltb, ◌==◌, Bool, true, false, ◌&&◌, if◌then◌else◌, List,
  [], ◌∷◌, length, arith, Bool-cases, inl, inr,
}
use phoebe.Libc.Strtol.{advance}
use phoebe.Libc.Print.{
  put_digits, digit_char, digits_and_flags, is_set, flags_precision, flags_hash,
  integer_buffer_size, push, pad_zeros, pad_width, take_back, make_room, push_prefix, push_sign,
  finish, sign_width, without,
}

pub record Fits (buffer : List ℕ) : Type 0 where
  pub count : length buffer ≤ integer_buffer_size

-- A choice between two buffers that fit.
either : (test : Bool) (xs ys : List ℕ) → Fits xs → Fits ys → Fits (if test then xs else ys)
either true xs ys p q = p
either false xs ys p q = q

push-Fits : (c : ℕ) (buffer : List ℕ) → Fits buffer → Fits (push c buffer)
unfolding push
push-Fits c buffer p = elim (Bool-cases (ltb (length buffer) integer_buffer_size)) [
  | inl test ↦ rw test (record { count = ground (arith, test) })
  | inr test ↦ rw test p
]

pad_zeros-Fits :
    (fuel limit : ℕ) (buffer : List ℕ) → Fits buffer → Fits (pad_zeros fuel limit buffer)
unfolding pad_zeros
pad_zeros-Fits zero limit buffer p = p
pad_zeros-Fits (suc fuel) limit buffer p =
    elim (Bool-cases (ltb (length buffer) limit && ltb (length buffer) integer_buffer_size)) [
      | inl test ↦
          let room : length buffer < integer_buffer_size = ground (arith, test) in
          rw test
            (pad_zeros-Fits fuel limit (b'0' ∷ buffer) (record { count = omega (arith, room) }))
      | inr test ↦ rw test p
    ]

advance-Fits : (buffer : List ℕ) → Fits buffer → Fits (advance buffer)
advance-Fits [] p = p
advance-Fits (c ∷ buffer) p = record { count = omega (arith, p.count) }

take_back-Fits : (n : ℕ) (buffer : List ℕ) → Fits buffer → Fits (take_back n buffer)
unfolding take_back
take_back-Fits n buffer p = either _ _ _ (advance-Fits buffer p) p

make_room-Fits :
    (n base precision width flags : ℕ) (buffer : List ℕ)
    → Fits buffer
    → Fits (make_room n base precision width flags buffer)
unfolding make_room
make_room-Fits n base precision width flags buffer p =
    let once = take_back-Fits n buffer p in
    either _ _ _ (either _ _ _ (take_back-Fits n _ once) once) p

push_prefix-Fits :
    (base flags : ℕ) (buffer : List ℕ) → Fits buffer → Fits (push_prefix base flags buffer)
unfolding push_prefix
push_prefix-Fits base flags buffer p =
    push-Fits b'0' _
      (either _ _ _ (push-Fits _ buffer p) (either _ _ _ (push-Fits b'b' buffer p) p))

push_sign-Fits :
    (negative : Bool) (flags : ℕ) (buffer : List ℕ)
    → Fits buffer
    → Fits (push_sign negative flags buffer)
unfolding push_sign
push_sign-Fits negative flags buffer p =
    either _ _ _ (push-Fits b'-' buffer p)
      (either _ _ _ (push-Fits b'+' buffer p) (either _ _ _ (push-Fits b' ' buffer p) p))

put_digits-Fits :
    (room base flags value : ℕ) (buffer : List ℕ)
    → length buffer + room ≤ integer_buffer_size
    → Fits (put_digits room base flags value buffer)
unfolding put_digits
put_digits-Fits zero base flags value buffer p = record { count = omega (arith, p) }
put_digits-Fits (suc room) base flags value buffer p =
    let here : Fits (digit_char flags (value % base) ∷ buffer) = record {
      count = omega (arith, p);
    } in
    either _ _ _ here (put_digits-Fits room base flags (value / base) _ (omega (arith, p)))

digits_and_flags-Fits : (value base flags : ℕ) → Fits (digits_and_flags value base flags).0
unfolding digits_and_flags
digits_and_flags-Fits value base flags = elim (Bool-cases (value == 0)) [
  | inl none_left ↦ elim (Bool-cases (is_set flags flags_precision)) [
    | inl exact ↦ elim (Bool-cases (base == 16)) [
      | inl hex ↦ rw (none_left, exact, hex) (record { count = omega arith })
      | inr other ↦ rw (none_left, exact, other) (record { count = omega arith })
    ]
    | inr free ↦ rw (none_left, free) (record { count = omega arith })
  ]
  | inr some_left ↦
      rw some_left (put_digits-Fits integer_buffer_size base flags value [] (omega arith))
]

pad_width-Fits :
    (width flags : ℕ) (buffer : List ℕ) → Fits buffer → Fits (pad_width width flags buffer)
unfolding pad_width
pad_width-Fits width flags buffer p =
    either _ _ _ (pad_zeros-Fits integer_buffer_size width buffer p) p

-- Digits that fit the array leave a finished buffer that does.
finish-Fits :
    (digits : List ℕ) (negative : Bool) (base precision width flags : ℕ)
    → Fits digits
    → Fits (finish digits negative base precision width flags).buffer
unfolding finish
finish-Fits digits negative base precision width flags p =
    let w = sign_width negative width flags in
    let padded = pad_zeros integer_buffer_size precision (pad_width w flags digits) in
    let flags' : ℕ =
      if base == 8 && ltb (length digits) (length padded)
      then without flags flags_hash
      else flags in
    let fits : Fits padded =
      pad_zeros-Fits integer_buffer_size precision _ (pad_width-Fits w flags digits p) in
    push_sign-Fits negative flags' _ (
      either _ _ _
        (push_prefix-Fits base flags' _
          (make_room-Fits (length digits) base precision w flags' padded fits))
        fits)

-- The buffer that `print_integer` writes fits the array it is put together in.
pub written-Fits :
    (value : ℕ) (negative : Bool) (base precision width flags : ℕ)
    → Fits
        (finish
          (digits_and_flags value base flags).0
          negative
          base
          precision
          width
          (digits_and_flags value base flags).1).buffer
written-Fits value negative base precision width flags =
    finish-Fits _ negative base precision width _ (digits_and_flags-Fits value base flags)
