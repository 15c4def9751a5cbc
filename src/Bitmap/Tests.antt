-- ===== src/Bitmap/Tests.antt =====
-- The laws of the bitmap at two bytes.
use phoebe.Base.{ℕ, zero, suc, ◌<◌, ◌≡◌, refl, false, [], ◌∷◌, ok, ◌>>=◌, arith, get_or}
use phoebe.Bitmap.{Bitmap, bit, marked, set_bit}
use phoebe.Bitmap.Laws.{IsValid, bit-set_bit}

abbrev pair : Bitmap
pair = record { buffer = 0xf0 ∷ 0x0f ∷ []; size = 12 }

pair-IsValid : IsValid pair
pair-IsValid = record { bytes = bytes; fits = omega arith }
  where
    bytes : (i : ℕ) → get_or (0xf0 ∷ 0x0f ∷ []) i 0 < 256
    bytes zero = omega arith
    bytes (suc zero) = omega arith
    bytes (suc (suc i)) = omega arith

clear_high : set_bit pair 7 false ≡ ok (record { buffer = 0x70 ∷ 0x0f ∷ []; size = 12 })
unfolding set_bit marked
clear_high = refl

bit-set_bit_example : (set_bit pair 9 false >>= λ b. bit b 9) ≡ ok false
bit-set_bit_example = bit-set_bit pair 9 9 false pair-IsValid (omega arith) (omega arith)
