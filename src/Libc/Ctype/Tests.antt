-- ===== src/Libc/Ctype/Tests.antt =====
-- The classes of `ctype.c` at a letter.
use phoebe.Base.{◌≡◌, false, ◌&&◌, ◌||◌, ◌∷◌, ◌++◌, pos}
use phoebe.Libc.Ctype.{
  isdigit, isupper, islower, isalpha, isalnum, isascii, iscntrl, isgraph, isprint, isspace, isblank,
  isxdigit,
}
use phoebe.Libc.Ctype.Laws.{
  decimal, upper, lower, hexadecimal, punctuation, blanks, spaces, among, class_laws,
}

class_laws_example :
    (isdigit (pos b'F') ≡ among decimal (pos b'F'))
    × (isupper (pos b'F') ≡ among upper (pos b'F'))
    × (islower (pos b'F') ≡ among lower (pos b'F'))
    × (isalpha (pos b'F') ≡ among (upper ++ lower) (pos b'F'))
    × (isalnum (pos b'F') ≡ among (upper ++ (lower ++ decimal)) (pos b'F'))
    × (isxdigit (pos b'F') ≡ among hexadecimal (pos b'F'))
    × (isblank (pos b'F') ≡ among blanks (pos b'F'))
    × (isspace (pos b'F') ≡ among spaces (pos b'F'))
    × (isgraph (pos b'F') ≡ among (punctuation ++ (upper ++ (lower ++ decimal))) (pos b'F'))
    × (isprint (pos b'F') ≡ among (32 ∷ (punctuation ++ (upper ++ (lower ++ decimal)))) (pos b'F'))
    × (isascii (pos b'F') ≡ (iscntrl (pos b'F') || isprint (pos b'F')))
    × ((iscntrl (pos b'F') && isprint (pos b'F')) ≡ false)
class_laws_example = class_laws (pos b'F')
