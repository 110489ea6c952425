-- ===== src/Prelexer.antt =====
-- prelexer.c: the lexer of route patterns. A pattern is a null-terminated string: a pointer into it
-- is the list of the bytes before the terminator, and `peek` reads through it.
pub mod Progress
pub mod Pattern
use libwrouter.Base.{
  ℕ, ◌+◌, ◌-◌, ◌%◌, ◌^◌, [], ◌∷◌, Bool, true, false, not, Option, none, some, ltb, ◌==◌, ◌&&◌, ◌||◌,
  length, if◌then◌else◌,
}
use libwrouter.Text.{Bytes, slash, peek, advance, is_illegal, isalpha, isalnum}
use libwrouter.Token.{
  Token, TokenType, illegal, literal, param, wildcard, trailing, end, zero_token, lexer_char_limit,
}

-- wrouter_param_syntax_t
pub data ParamSyntax : Type 0 where
  colon brace angle : ParamSyntax

pub record Prelexer : Type 0 where
  pub str : Option Bytes
  pub cursor : Option Bytes
  pub param_syntax : ParamSyntax

-- `prelexer_t lx = { 0 }`
abbrev pub zero_prelexer : Prelexer
zero_prelexer = record { str = none; cursor = none; param_syntax = colon }

unfoldable pub prelexer_init : Prelexer → ParamSyntax → Prelexer
prelexer_init lx syntax = record lx { cursor = none; param_syntax = syntax }

unfoldable pub prelexer_load : Prelexer → Option Bytes → Prelexer
prelexer_load lx none = zero_prelexer
prelexer_load lx (some p) =
    if peek p == 0
    then zero_prelexer
    else if peek p == slash
    then record lx { str = some p; cursor = some p }
    else zero_prelexer

-- `(*c == ':' && colon) || (*c == '<' && angle) || (*c == '{' && brace)`
abbrev pub opens : ParamSyntax → ℕ → Bool
opens colon c = c == b':'
opens angle c = c == b'<'
opens brace c = c == b'{'

-- `(*c == '>' && angle) || (*c == '}' && brace)`
abbrev pub closes : ParamSyntax → ℕ → Bool
closes colon c = false
closes angle c = c == b'>'
closes brace c = c == b'}'

-- How the loop over the characters of a token ends: at a stop, with `extra`, or at an illegal one.
pub data Scan : Type 0 where
  stopped : Bytes → ℕ → Scan
  illegal_at : Bytes → Scan

unfoldable pub scan : Bool → ParamSyntax → Bytes → Scan
scan is_param syntax [] = stopped [] 0
scan is_param syntax (c ∷ cs) =
    if c == 0 || c == slash
    then stopped (c ∷ cs) 0
    else if is_param && closes syntax c
    then stopped (c ∷ cs) 1
    else if is_param && not (isalnum c) && not (c == b'_')
    then illegal_at (c ∷ cs)
    else if not is_param && is_illegal c
    then illegal_at (c ∷ cs)
    else scan is_param syntax cs

abbrev pub skip : ℕ → Bytes → Bytes
skip extra c = if extra == 0 then c else advance c

-- `finish`
abbrev pub finish : Prelexer → Bytes → Token → Prelexer × Token
finish lx c tok = (record lx { cursor = some c }, tok)

abbrev pub of_type : TokenType → Token
of_type t = record zero_token { type = t }

-- From the start of a token's string: the loop, the guard on the length, and the token.
unfoldable pub prelex_string : Prelexer → TokenType → Bool → Bytes → Prelexer × Token
unfolding scan
prelex_string lx type is_param start = elim (scan is_param lx.param_syntax start) [
  | illegal_at c ↦ finish lx c zero_token
  | stopped c extra ↦
      if ltb lexer_char_limit (length start - length c)
      then finish lx c zero_token
      else finish lx (skip extra c)
          (record { ptr = some start; length = (length start - length c) % 2 ^ 16; type = type })
]

-- Behind the slash, at a character that is neither the terminator nor a slash.
unfoldable pub prelex_segment : Prelexer → Bytes → Prelexer × Token
unfolding prelex_string
prelex_segment lx c =
    if opens lx.param_syntax (peek c)
    then if isalpha (peek (advance c))
      then prelex_string lx param true (advance c)
      else finish lx (advance c) zero_token
    else if peek c == b'*'
    then finish lx (advance c)
        (of_type (if peek (advance c) == 0 || peek (advance c) == slash then wildcard else illegal))
    else prelex_string lx literal false c

-- `c - 1 == lx->str`
abbrev pub is_second : Prelexer → Bytes → Bool
is_second lx c = elim lx.str [ none ↦ false | some s ↦ length c + 1 == length s ]

-- `if (*c == '/') c++;`
abbrev pub skip_slash : Bytes → Bytes
skip_slash c = if peek c == slash then advance c else c

-- Behind the slash, if there was one.
unfoldable pub prelex_behind : Prelexer → Bytes → Prelexer × Token
unfolding prelex_segment
prelex_behind lx c =
    if peek c == 0
    then finish lx c (of_type (if is_second lx c then end else trailing))
    else if peek c == slash
    then finish lx c zero_token
    else prelex_segment lx c

unfoldable pub prelexer_next : Prelexer → Prelexer × Token
unfolding prelex_behind
prelexer_next lx = elim lx.cursor [
  | none ↦ (lx, zero_token)
  | some c ↦ if peek c == 0 then finish lx c (of_type end) else prelex_behind lx (skip_slash c)
]
