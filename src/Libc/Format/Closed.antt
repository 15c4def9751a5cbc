-- ===== src/Libc/Format/Closed.antt =====
-- Formats that end behind a directive or plain text: what the parts of a directive leave of them.
use phoebe.Base.{
  ℕ, ◌≡◌, refl, sym, subst, Bool, true, false, if◌then◌else◌, not, ◌&&◌, ◌==◌, List, [], ◌∷◌, arith,
}
use phoebe.Libc.Ctype.{isdigit}
use phoebe.Libc.Strtol.{deref, advance, char_to_int}
use phoebe.Libc.Print.{stdio_atou, parse_flags}
use phoebe.Libc.Format.{
  Argument, word, text, PrintStatus, err_canceled, bad_argument, Attempt, got, halt, ◌>>=◌,
  advance_in_format, next_word, Directive, Rest,
}
use phoebe.Libc.Format.Directives.{is_flag, stop-letter}

-- A character that ends a format: neither NUL nor a flag nor a digit.
abbrev pub is_last : ℕ → Bool
is_last c = not (c == 0) && (not (is_flag c) && not (isdigit (char_to_int c)))

-- The format has no NUL in it, and ends with such a character.
pub data IsLive : List ℕ → Type 0 where
  last : {c : ℕ} → is_last c ≡ true → IsLive (c ∷ [])
  more : {c d : ℕ} {s : List ℕ} → (c == 0) ≡ false → IsLive (d ∷ s) → IsLive (c ∷ d ∷ s)

pub data IsClosed : List ℕ → Type 0 where
  nothing : IsClosed []
  live : {s : List ℕ} → IsLive s → IsClosed s

-- The run is cut off: out of fuel, or behind the end of the format.
abbrev pub is_lost : PrintStatus → Bool
is_lost PrintStatus.spent = true
is_lost PrintStatus.overrun = true
is_lost _ = false

-- The attempt ended, but was not cut off, or with something that has the property.
pub data Keeps {A : Type 0} (P : A → Type 0) : Attempt A → Type 0 where
  keeps : (a : A) → P a → Keeps P (got a)
  stops : (status : PrintStatus) → is_lost status ≡ false → Keeps P (halt status)

pub bind-Keeps :
    {A B : Type 0} {P : A → Type 0} {Q : B → Type 0} {a : Attempt A} {f : A → Attempt B}
    → Keeps P a
    → ((x : A) → P x → Keeps Q (f x))
    → Keeps Q (a >>= f)
bind-Keeps (keeps a h) k = k a h
bind-Keeps (stops status h) k = stops status h

pub if-Keeps :
    {A : Type 0} {P : A → Type 0} (b : Bool) {x y : Attempt A}
    → Keeps P x
    → Keeps P y
    → Keeps P (if b then x else y)
if-Keeps true p q = p
if-Keeps false p q = q

-- The test is known on the first branch.
pub if_true-Keeps :
    {A : Type 0} {P : A → Type 0} (b : Bool) {x y : Attempt A}
    → (b ≡ true → Keeps P x)
    → Keeps P y
    → Keeps P (if b then x else y)
if_true-Keeps true p q = p refl
if_true-Keeps false p q = q

abbrev pub IsLiveAt : Directive → Type 0
IsLiveAt d = IsLive d.format

abbrev pub IsClosedBehind : Rest → Type 0
IsClosedBehind r = IsClosed r.1

abbrev IsAny : ℕ × List Argument → Type 0
IsAny r = r ≡ r

pub next_word-Keeps : (args : List Argument) → Keeps IsAny (next_word args)
next_word-Keeps [] = stops bad_argument refl
next_word-Keeps (word w ∷ args) = keeps _ refl
next_word-Keeps (text s ∷ args) = stops bad_argument refl

pub advance_in_format-Keeps : (s : List ℕ) → IsLive s → Keeps IsLive (advance_in_format s)
advance_in_format-Keeps _ (last h) = stops err_canceled refl
advance_in_format-Keeps _ (more n l) = keeps _ l

pub advance-IsClosed : (s : List ℕ) → IsLive s → IsClosed (advance s)
advance-IsClosed _ (last h) = nothing
advance-IsClosed _ (more n l) = live l

pub deref-IsLive : (s : List ℕ) → IsLive s → (deref s == 0) ≡ false
deref-IsLive _ (last {c} h) = ground (arith, h)
deref-IsLive _ (more n l) = n

pub no_digit : (c : ℕ) → is_last c ≡ true → isdigit (char_to_int c) ≡ false
no_digit c h = third (c == 0) (is_flag c) (isdigit (char_to_int c)) h
  where
    third : (x y z : Bool) → (not x && (not y && not z)) ≡ true → z ≡ false
    third x y z e = ground (arith, e)

no_flag : (c : ℕ) → is_last c ≡ true → is_flag c ≡ false
no_flag c h = second (c == 0) (is_flag c) (isdigit (char_to_int c)) h
  where
    second : (x y z : Bool) → (not x && (not y && not z)) ≡ true → y ≡ false
    second x y z e = ground (arith, e)

-- What is left behind characters that were passed.
abbrev LeavesLive : ℕ × List ℕ → Type 0
LeavesLive r = IsLive r.1

if-LeavesLive :
    (b : Bool) (x y : ℕ × List ℕ) → LeavesLive x → LeavesLive y → LeavesLive (if b then x else y)
if-LeavesLive true x y p q = p
if-LeavesLive false x y p q = q

pub stdio_atou-IsLive : (s : List ℕ) → IsLive s → (val : ℕ) → LeavesLive (stdio_atou val s)
unfolding stdio_atou
stdio_atou-IsLive _ (last {c} h) val = rw (no_digit c h) (last h)
stdio_atou-IsLive _ (more {c} n l) val =
    if-LeavesLive (isdigit (char_to_int c)) _ _ (stdio_atou-IsLive _ l _) (more n l)

pub parse_flags-IsLive : (s : List ℕ) → IsLive s → (flags : ℕ) → LeavesLive (parse_flags flags s)
unfolding parse_flags
parse_flags-IsLive _ (last {c} h) flags =
    subst LeavesLive (sym (stop-letter c [] flags (no_flag c h))) (last h)
parse_flags-IsLive _ (more {c} n l) flags =
    if-LeavesLive (c == b'0') _ _ (parse_flags-IsLive _ l _) (
      if-LeavesLive (c == b'-') _ _ (parse_flags-IsLive _ l _) (
        if-LeavesLive (c == b'+') _ _ (parse_flags-IsLive _ l _) (
          if-LeavesLive (c == b' ') _ _ (parse_flags-IsLive _ l _)
            (if-LeavesLive (c == b'#') _ _ (parse_flags-IsLive _ l _) (more n l)))))
