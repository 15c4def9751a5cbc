-- ===== src/Bitmap/Laws.antt =====
-- A bitmap is a map from indices to bits: `bit` and `set` behave as lookup and update.
use phoebe.Base.{
  ℕ, ◌+◌, ◌*◌, ◌/◌, ◌%◌, ◌^◌, ◌≤◌, ◌<◌, bit_and, ◌≡◌, refl, ◌==◌, if◌then◌else◌, not, Bool, true,
  false, ◌&&◌, length, length-set, get_or, get_or-set_self, get_or-set_ne, get_elem?-eq-get_or, ok,
  set, ◌>>=◌, sym, ◌∙◌, ok-injective, ok-ne-stop, List, arith, and_true, dec_lt, ℕ_discrete, stop,
  Stop, set_outside, lt→ltb,
}
use phoebe.Base.Table.{all_below, all_below_sound}
use phoebe.Bitmap.{Bitmap, load, bit, byte, marked, set_bit}

-- The buffer holds bytes, and one for each bit.
pub record IsValid (b : Bitmap) : Type 0 where
  pub bytes : (i : ℕ) → get_or b.buffer i 0 < 256
  pub fits : b.size ≤ 8 * length b.buffer

-- The abstract view: the bit at each index.
abbrev pub tested : ℕ → ℕ → Bool
tested x k = not (bit_and x (2 ^ k) == 0)

unfoldable pub view : Bitmap → ℕ → Bool
view b i = tested (get_or b.buffer (i / 8) 0) (i % 8)

bool_eq : Bool → Bool → Bool
bool_eq true b = b
bool_eq false b = not b

bool_eq→≡ : (a b : Bool) → bool_eq a b ≡ true → a ≡ b
unfolding bool_eq
bool_eq→≡ true true h = refl
bool_eq→≡ false false h = refl
bool_eq→≡ true false h = ground arith
bool_eq→≡ false true h = ground arith

-- Byte `x`, written bit `k`, read bit `j`, packed in one number.
cell_test : ℕ → Bool
unfolding bool_eq marked
cell_test n =
    let x = n / 64 in
    let k = n / 8 % 8 in
    let j = n % 8 in
    bool_eq (tested (marked x k true) j) (if k == j then true else tested x j)
    && bool_eq (tested (marked x k false) j) (if k == j then false else tested x j)

cell_table : all_below 16384 cell_test ≡ true
unfolding all_below cell_test
cell_table = refl

cell : (x k j : ℕ) → x < 256 → k < 8 → j < 8 → cell_test (x * 64 + k * 8 + j) ≡ true
cell x k j hx hk hj = all_below_sound 16384 cell_test cell_table (x * 64 + k * 8 + j) (omega arith)

cell_unpacked :
    (x k j : ℕ)
    → x < 256
    → k < 8
    → j < 8
    → (bool_eq (tested (marked x k true) j) (if k == j then true else tested x j)
        && bool_eq (tested (marked x k false) j) (if k == j then false else tested x j))
      ≡ true
unfolding cell_test
cell_unpacked x k j hx hk hj =
    let n = x * 64 + k * 8 + j in
    let ex : n / 64 ≡ x = omega arith in
    let ek : n / 8 % 8 ≡ k = omega arith in
    let ej : n % 8 ≡ j = omega arith in rw (ex, ek, ej) at (cell x k j hx hk hj)

-- What a write of bit `k` does to bit `j` of the byte.
tested-marked :
    (v : Bool) (x k j : ℕ)
    → x < 256
    → k < 8
    → j < 8
    → tested (marked x k v) j ≡ (if k == j then v else tested x j)
tested-marked true x k j hx hk hj = bool_eq→≡ _ _ (and_true _ _ (cell_unpacked x k j hx hk hj)).0
tested-marked false x k j hx hk hj = bool_eq→≡ _ _ (and_true _ _ (cell_unpacked x k j hx hk hj)).1

marked-lt : (v : Bool) (x i : ℕ) → marked x i v < 256
unfolding marked
marked-lt true x i = omega arith
marked-lt false x i = omega arith

marked-mod : (v : Bool) (x i : ℕ) → marked x i v ≡ marked x (i % 8) v
unfolding marked
marked-mod true x i = let e : i % 8 % 8 ≡ i % 8 = omega arith in rw e
marked-mod false x i = let e : i % 8 % 8 ≡ i % 8 = omega arith in rw e

-- The bitmap that `set_bit` returns within the bounds.
unfoldable pub put : Bitmap → ℕ → Bool → Bitmap
put b i v = record b { buffer = set b.buffer (i / 8) (marked (get_or b.buffer (i / 8) 0) i v) }

pub size-put : (b : Bitmap) (i : ℕ) (v : Bool) → (put b i v).size ≡ b.size
unfolding put
size-put b i v = refl

load-get_or : (buffer : List ℕ) (i : ℕ) → i < length buffer → load buffer i ≡ ok (get_or buffer i 0)
load-get_or buffer i h = rw (get_elem?-eq-get_or buffer i 0 h, load)

-- Within the bounds a read succeeds and gives the bit of the view.
pub bit-view : (b : Bitmap) (i : ℕ) → IsValid b → i < b.size → bit b i ≡ ok (view b i)
unfolding bit byte view
bit-view b i valid h =
    rw (lt→ltb i b.size h, load-get_or b.buffer (i / 8) (omega (arith, valid.fits)))

pub set_bit-put :
    (b : Bitmap) (i : ℕ) (v : Bool) → IsValid b → i < b.size → set_bit b i v ≡ ok (put b i v)
unfolding set_bit put
set_bit-put b i v valid h =
    rw (lt→ltb i b.size h, load-get_or b.buffer (i / 8) (omega (arith, valid.fits)))

pub put-IsValid : (b : Bitmap) (i : ℕ) (v : Bool) → IsValid b → IsValid (put b i v)
unfolding put
put-IsValid b i v valid = record {
  bytes = λ j. bytes_of j (dec_lt (i / 8) (length b.buffer)) (ℕ_discrete (i / 8) j);
  fits = rw length-set valid.fits;
}
  where
    new : ℕ
    new = marked (get_or b.buffer (i / 8) 0) i v

    bytes_of :
        (j : ℕ)
        → Dec (i / 8 < length b.buffer)
        → Dec (i / 8 ≡ j)
        → get_or (set b.buffer (i / 8) new) j 0 < 256
    bytes_of j (yes h) (yes e) =
        rw (← e, get_or-set_self b.buffer (i / 8) new 0 h) (marked-lt v _ i)
    bytes_of j _ (no e) = rw (get_or-set_ne b.buffer (i / 8) j new 0 e) (valid.bytes j)
    bytes_of j (no h) (yes e) = rw (set_outside b.buffer (i / 8) new h) (valid.bytes j)

-- A write is a point update of the view.
pub view-put :
    (b : Bitmap) (i j : ℕ) (v : Bool)
    → IsValid b
    → i < b.size
    → view (put b i v) j ≡ (if i == j then v else view b j)
unfolding view put
view-put b i j v valid h = same_byte (ℕ_discrete (i / 8) (j / 8))
  where
    x : ℕ
    x = get_or b.buffer (i / 8) 0

    same_byte :
        Dec (i / 8 ≡ j / 8)
        → tested (get_or (set b.buffer (i / 8) (marked x i v)) (j / 8) 0) (j % 8)
          ≡ (if i == j then v else tested (get_or b.buffer (j / 8) 0) (j % 8))
    same_byte (yes e) =
        rw
          (
            ← e,
            get_or-set_self b.buffer (i / 8) (marked x i v) 0 (omega (arith, valid.fits)),
            marked-mod v x i,
            tested-marked v x (i % 8) (j % 8) (valid.bytes (i / 8)) (omega arith) (omega arith),
          )
          (index_eq v)
      where
        index_eq :
            (v : Bool)
            → (if i % 8 == j % 8 then v else tested x (j % 8))
              ≡ (if i == j then v else tested x (j % 8))
        index_eq v = ground arith
    same_byte (no e) = rw (get_or-set_ne b.buffer (i / 8) (j / 8) (marked x i v) 0 e) (ground arith)

-- Outside the bounds both stop at the assertion.
pub bit_outside :
    (b : Bitmap) (i : ℕ) (v : Bool)
    → b.size ≤ i
    → (bit b i ≡ stop Stop.assertion) × (set_bit b i v ≡ stop Stop.assertion)
unfolding bit set_bit
bit_outside b i v h = (ground arith, ground arith)

-- In a bitmap whose buffer has a byte for each eight bits, a write within the bounds succeeds, and
-- a read of any index within the bounds then gives the value written, at the index of the write,
-- and what it gave before at every other.
pub bit-set_bit :
    (b : Bitmap) (i j : ℕ) (v : Bool)
    → IsValid b
    → i < b.size
    → j < b.size
    → (set_bit b i v >>= λ b'. bit b' j) ≡ (if i == j then ok v else bit b j)
bit-set_bit b i j v valid hi hj =
    rw
      (
        set_bit-put b i v valid hi,
        bit-view (put b i v) j (put-IsValid b i v valid) (rw size-put hj),
        bit-view b j valid hj,
        view-put b i j v valid hi,
      )
      (ground arith)

-- A write within the bounds keeps the bytes bytes and the sizes as they were.
pub set_bit-IsValid :
    (b b' : Bitmap) (i : ℕ) (v : Bool)
    → IsValid b
    → set_bit b i v ≡ ok b'
    → IsValid b' × (b'.size ≡ b.size)
set_bit-IsValid b b' i v valid e = elim (dec_lt i b.size) [
  | yes h ↦
      let same : put b i v ≡ b' = ok-injective (sym (set_bit-put b i v valid h) ∙ e) in
      rw (← same) (put-IsValid b i v valid, size-put b i v)
  | no h ↦ absurd (ok-ne-stop (sym e ∙ (bit_outside b i v (omega arith)).1))
]
