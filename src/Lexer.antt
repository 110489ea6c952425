-- ===== src/Lexer.antt =====
-- lexer.c: the lexer of request paths. A request is the list of the `length` bytes that the caller
-- passes, or `none` for NULL. The pointers `str` and `cursor` are the bytes from them to
-- `str + length`, so `c == end` is the empty list.
pub mod Stream
use libwrouter.Base.{
  ℕ, zero, suc, ◌-◌, ◌%◌, ◌^◌, List, [], ◌∷◌, Bool, true, false, Option, none, some, ltb, ◌==◌,
  ◌&&◌, length, if◌then◌else◌,
}
use libwrouter.Text.{Bytes, slash, is_illegal}
use libwrouter.Token.{
  Token, TokenType, illegal, literal, trailing, end, zero_token, lexer_char_limit,
}

pub record Lexer : Type 0 where
  pub str : Option Bytes
  pub cursor : Option Bytes
  pub length : ℕ

-- `memset(lx, 0, sizeof(*lx))`
abbrev pub unloaded : Lexer
unloaded = record { str = none; cursor = none; length = 0 }

unfoldable pub lexer_load : Option Bytes → Lexer
lexer_load none = unloaded
lexer_load (some []) = unloaded
lexer_load (some (c ∷ cs)) =
    if c == slash
    then if ltb lexer_char_limit (length (c ∷ cs))
      then unloaded
      else record { str = some (c ∷ cs); cursor = some (c ∷ cs); length = length (c ∷ cs) }
    else unloaded

-- The loop over the characters of a literal: where it stops, or `none` at an illegal one.
unfoldable pub consume : Bytes → Option Bytes
consume [] = some []
consume (c ∷ cs) = if c == slash then some (c ∷ cs) else if is_illegal c then none else consume cs

abbrev pub special : TokenType → Token
special t = record zero_token { type = t }

-- The literal that starts at `start`.
unfoldable pub lex_literal : Lexer → Bytes → Lexer × Token
unfolding consume
lex_literal lx start = elim (consume start) [
  | none ↦ (lx, zero_token)
  | some c ↦ (
    record lx { cursor = some c },
    record { ptr = some start; length = (length start - length c) % 2 ^ 16; type = literal },
  )
]

abbrev pub starts_slash : Bytes → Bool
starts_slash [] = false
starts_slash (c ∷ _) = c == slash

-- At a cursor with a byte `x` in front of `rest`.
unfoldable pub lex_at : Lexer → ℕ → Bytes → Lexer × Token
unfolding lex_literal
lex_at lx x [] =
    if x == slash
    then (lx, special (if length (x ∷ []) == lx.length then end else trailing))
    else lex_literal lx []
lex_at lx x (y ∷ rest) = if y == slash then (lx, zero_token) else lex_literal lx (y ∷ rest)

unfoldable pub lexer_next : Lexer → Lexer × Token
unfolding lex_at
lexer_next lx = elim lx.cursor [
  | none ↦ (lx, zero_token)
  | some [] ↦ if lx.length == 0 then (lx, zero_token) else (lx, special end)
  | some (x ∷ rest) ↦ if lx.length == 0 then (lx, zero_token) else lex_at lx x rest
]
