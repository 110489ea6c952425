-- ===== src/Text.antt =====
-- Bytes and C strings: what the sources use of <ctype.h> and <string.h>, in the "C" locale.
-- A pointer into a string is the list of the bytes from it to the end of the string; a read at
-- the end of a null-terminated string gives the terminator, 0.
pub mod Compare
use libwrouter.Base.{ℕ, List, [], ◌∷◌, Bool, true, false, ◌&&◌, ◌||◌, ltb, leb, ◌==◌}

abbrev pub Bytes : Type 0
Bytes = List ℕ

abbrev pub slash : ℕ
slash = b'/'

-- `*c` on a null-terminated string.
abbrev pub peek : Bytes → ℕ
peek [] = 0
peek (c ∷ _) = c

-- `c + 1` on a string whose first byte is not the terminator.
abbrev pub advance : Bytes → Bytes
advance [] = []
advance (_ ∷ cs) = cs

unfoldable pub isspace : ℕ → Bool
isspace c = c == 32 || (leb 9 c && leb c 13)

unfoldable pub iscntrl : ℕ → Bool
iscntrl c = ltb c 32 || c == 127

unfoldable pub isalpha : ℕ → Bool
isalpha c = (leb b'A' c && leb c b'Z') || (leb b'a' c && leb c b'z')

unfoldable pub isalnum : ℕ → Bool
unfolding isalpha
isalnum c = isalpha c || (leb b'0' c && leb c b'9')

-- The characters that both lexers refuse in a literal.
unfoldable pub is_illegal : ℕ → Bool
unfolding isspace iscntrl
is_illegal c = c == b'*' || c == b'#' || c == b'?' || isspace c || iscntrl c

-- The equality of two byte strings.
unfoldable pub bytes_eq : Bytes → Bytes → Bool
bytes_eq [] [] = true
bytes_eq (x ∷ xs) (y ∷ ys) = x == y && bytes_eq xs ys
bytes_eq _ _ = false
