-- ===== src/Base/Outcome.antt =====
-- What a kernel routine may end in besides a value.
use mathlib.Core.Path.{◌≡◌}
use mathlib.Core.Bool.{Bool, true, false}

-- `assertion` is a failed `assert`, `panik` a call of `log_panik`; both stop the system.
-- `fault` is an access outside the array, which the language leaves undefined; `deadlock` is a wait for
-- a lock that the waiting thread holds.
pub data Stop : Type 0 where
  assertion panik fault deadlock : Stop

pub data Result {ℓ} (A : Type ℓ) : Type ℓ where
  ok : A → Result A
  stop : Stop → Result A

-- A step that stops ends the routine.
module _ {ℓ κ} {A : Type ℓ} {B : Type κ} where
  infixl 5 ◌>>=◌
  abbrev pub ◌>>=◌ : Result A → (A → Result B) → Result B
  stop reason >>= next = stop reason
  ok value >>= next = next value

infixl 5 ◌>>◌
abbrev pub ◌>>◌ {κ} : {B : Type κ} → Result (Unit {0}) → Result B → Result B
first >> second = first >>= λ _. second

-- `assert(test)` of `libc/include/assert.h`.
abbrev pub assert : Bool → Result (Unit {0})
assert true = ok tt
assert false = stop Stop.assertion

pub ok-injective {ℓ} : {A : Type ℓ} {a b : A} → ok a ≡ ok b → a ≡ b
ok-injective e = cc

pub ok-ne-stop {ℓ} : {A : Type ℓ} {a : A} {e : Stop} → ok a ≡ stop e → ⊥
ok-ne-stop q = cc
