-- ===== src/Lexer/Stream.antt =====
-- The tokens of a request: its literals, in order, and what ends them.
use libwrouter.Base.{
  ℕ, zero, suc, ◌-◌, ◌%◌, ◌^◌, ◌≤◌, ◌<◌, ◌≡◌, ◌≢◌, refl, List, [], ◌∷◌, false, Option, none, some,
  inl, inr, arith, length, take, Option-cases, Bool-cases, ◌==◌, if◌then◌else◌,
}
use libwrouter.Text.{Bytes, slash, is_illegal}
use libwrouter.Text.Compare.{NulFree}
use libwrouter.Token.{Token, TokenType, text_of, zero_token}
use libwrouter.Lexer.{Lexer, consume, lex_literal, lex_at, lexer_next, special}

-- The literal tokens, the type of the token behind them, and the lexer there.
unfoldable pub stream : ℕ → Lexer → List Token × TokenType × Lexer
stream zero lx = ([], TokenType.illegal, lx)
stream (suc fuel) lx =
    let (lx', tok) = lexer_next lx in
    elim tok.type [
      | TokenType.literal ↦ let (toks, ending, last) = stream fuel lx' in (tok ∷ toks, ending, last)
      | other ↦ ([], other, lx')
    ]

-- The bytes that are left to read.
abbrev pub left : Lexer → ℕ
left lx = elim lx.cursor [ none ↦ 0 | some c ↦ length c ]

legal_pos : (x : ℕ) → is_illegal x ≡ false → 0 < x
unfolding is_illegal
legal_pos x h = ground arith

consume-le : (s c : Bytes) → consume s ≡ some c → length c ≤ length s
unfolding consume
consume-le [] c e = ground arith
consume-le (x ∷ s) c e = ground (arith, consume-le s c)

NulFree-take-consume :
    (k : ℕ) (s c : Bytes) → consume s ≡ some c → k ≤ length s - length c → NulFree (take k s)
unfolding consume
NulFree-take-consume zero s c e h = tt
NulFree-take-consume (suc k) [] c e h = tt
NulFree-take-consume (suc k) (x ∷ s) c e h =
    ground (arith, legal_pos x, consume-le s c, NulFree-take-consume k s c)

-- A literal token has a text with no terminator in it, and its bytes have been read.
abbrev pub IsLiteral : Lexer → Lexer × Token → Type 0
IsLiteral lx (lx', tok) = NulFree (text_of tok) × (left lx' < left lx)

literal-lex_literal :
    (lx : Lexer) (start : Bytes)
    → length start < left lx
    → (lex_literal lx start).1.type ≡ TokenType.literal
    → IsLiteral lx (lex_literal lx start)
unfolding lex_literal
literal-lex_literal lx start b h = elim (Option-cases (consume start)) [
  | inl e ↦ cc (rw (e, lex_literal) at h)
  | inr (c, e) ↦
      rw (e, lex_literal)
        (
          NulFree-take-consume ((length start - length c) % 2 ^ 16) start c e (omega arith),
          omega (arith, consume-le start c e),
        )
]

literal-lex_at :
    (lx : Lexer) (x : ℕ) (rest : Bytes)
    → left lx ≡ suc (length rest)
    → (lex_at lx x rest).1.type ≡ TokenType.literal
    → IsLiteral lx (lex_at lx x rest)
unfolding lex_at
literal-lex_at lx x [] b h = elim (Bool-cases (x == slash)) [
  | inl e ↦ absurd (ground arith)
  | inr e ↦ rw (e, lex_at) (literal-lex_literal lx [] (omega arith) (rw (e, lex_at) at h))
]
literal-lex_at lx x (y ∷ rest) b h = elim (Bool-cases (y == slash)) [
  | inl e ↦ absurd (ground arith)
  | inr e ↦ rw (e, lex_at) (literal-lex_literal lx (y ∷ rest) (omega arith) (rw (e, lex_at) at h))
]

-- lexer_next, by the cursor.
next_at : Lexer → Option Bytes → Lexer × Token
unfolding lex_at
next_at lx none = (lx, zero_token)
next_at lx (some []) = if lx.length == 0 then (lx, zero_token) else (lx, special TokenType.end)
next_at lx (some (x ∷ rest)) = if lx.length == 0 then (lx, zero_token) else lex_at lx x rest

lexer_next-next_at : (lx : Lexer) → lexer_next lx ≡ next_at lx lx.cursor
unfolding lexer_next next_at
lexer_next-next_at lx = by_cursor lx.cursor
  where
    by_cursor :
        (c : Option Bytes)
        → (elim c as (λ _. Lexer × Token) [
          | none ↦ (lx, zero_token)
          | some [] ↦ if lx.length == 0 then (lx, zero_token) else (lx, special TokenType.end)
          | some (x ∷ rest) ↦ if lx.length == 0 then (lx, zero_token) else lex_at lx x rest
        ])
          ≡ next_at lx c
    by_cursor none = refl
    by_cursor (some []) = refl
    by_cursor (some (x ∷ rest)) = refl

literal-next_at :
    (lx : Lexer) (c : Option Bytes)
    → lx.cursor ≡ c
    → (next_at lx c).1.type ≡ TokenType.literal
    → IsLiteral lx (next_at lx c)
unfolding next_at
literal-next_at lx none e h = cc
literal-next_at lx (some []) e h = absurd (ground arith)
literal-next_at lx (some (x ∷ rest)) e h = elim (Bool-cases (lx.length == 0)) [
  | inl z ↦ absurd (ground arith)
  | inr nz ↦ rw (nz, next_at) (literal-lex_at lx x rest (rw e refl) (rw (nz, next_at) at h))
]

-- Where lexer_next gives a literal, no byte of its text is the terminator, and fewer bytes of the
-- request are left than before.
pub lexer_next_literal :
    (lx : Lexer) → (lexer_next lx).1.type ≡ TokenType.literal → IsLiteral lx (lexer_next lx)
lexer_next_literal lx = rw (lexer_next-next_at lx) (literal-next_at lx lx.cursor refl)

-- The stream, by its first token.
pub stream-literal :
    (fuel : ℕ) (lx : Lexer)
    → (lexer_next lx).1.type ≡ TokenType.literal
    → stream (suc fuel) lx ≡ (
      (lexer_next lx).1 ∷ (stream fuel (lexer_next lx).0).0,
      (stream fuel (lexer_next lx).0).1,
      (stream fuel (lexer_next lx).0).2,
    )
unfolding stream
stream-literal fuel lx e = rw (e, stream) refl

pub stream-ending :
    (fuel : ℕ) (lx : Lexer) (ty : TokenType)
    → (lexer_next lx).1.type ≡ ty
    → ty ≢ TokenType.literal
    → stream (suc fuel) lx ≡ ([], ty, (lexer_next lx).0)
unfolding stream
stream-ending fuel lx TokenType.literal e ne = absurd (ne refl)
stream-ending fuel lx TokenType.illegal e ne = rw (e, stream) refl
stream-ending fuel lx TokenType.param e ne = rw (e, stream) refl
stream-ending fuel lx TokenType.wildcard e ne = rw (e, stream) refl
stream-ending fuel lx TokenType.trailing e ne = rw (e, stream) refl
stream-ending fuel lx TokenType.end e ne = rw (e, stream) refl
