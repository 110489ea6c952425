-- ===== src/Text/Compare.antt =====
-- Null-terminated strings: which lists of bytes they are, and equality.
use libwrouter.Base.{◌<◌, ◌≡◌, refl, [], ◌∷◌, true, arith}
use libwrouter.Text.{Bytes, bytes_eq}

-- The bytes of a null-terminated string.
abbrev pub NulFree : Bytes → Type 0
NulFree [] = Unit
NulFree (c ∷ cs) = (0 < c) × NulFree cs

pub bytes_eq_sound : (a b : Bytes) → bytes_eq a b ≡ true → a ≡ b
unfolding bytes_eq
bytes_eq_sound [] [] h = refl
bytes_eq_sound [] (y ∷ ys) h = cc
bytes_eq_sound (x ∷ xs) [] h = cc
bytes_eq_sound (x ∷ xs) (y ∷ ys) h = ground (arith, bytes_eq_sound xs ys)

pub bytes_eq_refl : (a : Bytes) → bytes_eq a a ≡ true
unfolding bytes_eq
bytes_eq_refl [] = refl
bytes_eq_refl (x ∷ xs) = ground (arith, bytes_eq_refl xs)
