-- ===== src/Token.antt =====
-- token.h, token.c and common.h: the tokens of the two lexers.
use libwrouter.Base.{ℕ, [], Bool, false, Option, none, some, ◌&&◌, ◌==◌, take, length}
use libwrouter.Text.{Bytes, bytes_eq}

-- TOKEN_ILLEGAL ... TOKEN_END
pub data TokenType : Type 0 where
  illegal literal param wildcard trailing end : TokenType

pub record Token : Type 0 where
  pub ptr : Option Bytes
  pub length : ℕ
  pub type : TokenType

-- `token_t tok = { 0 }`
abbrev pub zero_token : Token
zero_token = record { ptr = none; length = 0; type = illegal }

-- `16 * UINT8_MAX`
abbrev pub lexer_char_limit : ℕ
lexer_char_limit = 4080

-- The bytes that a token with a pointer names.
abbrev pub text_of : Token → Bytes
text_of tok = elim tok.ptr [ none ↦ [] | some p ↦ take tok.length p ]

-- A segment's string is its bytes, whose number is `str_length`; a segment without a string (the
-- root) is `none`. `strncmp` over the token's length compares all of both.
unfoldable pub token_matches_segment : Token → Option Bytes → Bool
unfolding bytes_eq
token_matches_segment tok none = false
token_matches_segment tok (some str) = elim tok.ptr [
  | none ↦ false
  | some p ↦ tok.length == length str && bytes_eq (take tok.length p) str
]
