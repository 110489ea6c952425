-- ===== src/Prelexer/Pattern.antt =====
-- A pattern as the list of its literals and parameters, and what ends it.
use mathlib.Core.Option
use libwrouter.Base.{ℕ, zero, suc, ◌+◌, List, [], ◌∷◌, Option, none, some, length}
use libwrouter.Text.{Bytes}
use libwrouter.Token.{TokenType, text_of}
use libwrouter.Prelexer.{
  Prelexer, ParamSyntax, zero_prelexer, prelexer_init, prelexer_load, prelexer_next,
}

pub data Piece : Type 0 where
  lit par : Bytes → Piece

-- The end of the pattern, a trailing slash, or a wildcard.
pub data Ending : Type 0 where
  finished slashed rest : Ending

abbrev pub Pattern : Type 0
Pattern = List Piece × Ending

abbrev pub put_front : Piece → Option Pattern → Option Pattern
put_front x = Option.map (λ (p : Pattern). (x ∷ p.0, p.1))

-- A wildcard, with the type of the token behind it.
abbrev pub wildcard_end : TokenType → Option Pattern
wildcard_end TokenType.end = some ([], rest)
wildcard_end _ = none

-- What the prelexer reads, if it is a pattern; `none` also when the fuel runs out.
unfoldable pub pattern_from : ℕ → Prelexer → Option Pattern
pattern_from zero lx = none
pattern_from (suc fuel) lx =
    let (lx', tok) = prelexer_next lx in
    let more = pattern_from fuel lx' in
    elim tok.type [
      | TokenType.end ↦ some ([], finished)
      | TokenType.trailing ↦ some ([], slashed)
      | TokenType.wildcard ↦ wildcard_end (prelexer_next lx').1.type
      | TokenType.literal ↦ put_front (lit (text_of tok)) more
      | TokenType.param ↦ put_front (par (text_of tok)) more
      | TokenType.illegal ↦ none
    ]

-- The bytes of a pattern, and one more: the rounds that its tokens take at most.
abbrev pub enough : Option Bytes → ℕ
enough none = 1
enough (some p) = length p + 1

unfoldable pub pattern_of : ParamSyntax → Option Bytes → Option Pattern
unfolding pattern_from
pattern_of syntax p = pattern_from (enough p) (prelexer_load (prelexer_init zero_prelexer syntax) p)
