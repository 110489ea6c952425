-- ===== src/Prelexer/Progress.antt =====
-- The tokens of a pattern that have a string: where it comes from, and what it leaves to read.
use libwrouter.Base.{
  ℕ, zero, suc, ◌-◌, ◌%◌, ◌^◌, ◌≤◌, ◌<◌, ◌≡◌, refl, sym, ◌∙◌, ◌⊎◌, inl, inr, [], ◌∷◌, Bool, true,
  false, none, some, arith, length, take, ltb, ◌==◌, ◌||◌, Bool-cases, Option-cases, if◌then◌else◌,
}
use libwrouter.Text.{Bytes, slash, peek, advance, isalpha}
use libwrouter.Text.Compare.{NulFree}
use libwrouter.Token.{Token, TokenType, text_of, lexer_char_limit}
use libwrouter.Prelexer.{
  Prelexer, ParamSyntax, Scan, stopped, illegal_at, scan, skip, skip_slash, opens, prelex_string,
  prelex_segment, prelex_behind, prelexer_next, is_second,
}

-- The bytes that are left to read.
abbrev pub unread : Prelexer → ℕ
unread lx = elim lx.cursor [ none ↦ 0 | some c ↦ length c ]

-- The token has a string of its length, with no terminator in it, and fewer than `n` bytes are left.
abbrev pub IsPiece : ℕ → Prelexer × Token → Type 0
IsPiece n (lx, tok) =
    (p : Bytes) × (tok.ptr ≡ some p)
    × (tok.length ≤ length p)
    × NulFree (text_of tok)
    × (unread lx < n)

-- TOKEN_LITERAL and TOKEN_PARAM
abbrev pub has_string : TokenType → Bool
has_string TokenType.literal = true
has_string TokenType.param = true
has_string _ = false

Scan-cases :
    (r : Scan)
    → ((c : Bytes) × (extra : ℕ) × (r ≡ stopped c extra)) ⊎ ((c : Bytes) × (r ≡ illegal_at c))
Scan-cases (stopped c extra) = inl (c, extra, refl)
Scan-cases (illegal_at c) = inr (c, refl)

scan-le :
    (is_param : Bool) (syntax : ParamSyntax) (s c : Bytes) (extra : ℕ)
    → scan is_param syntax s ≡ stopped c extra
    → length c ≤ length s
unfolding scan
scan-le is_param syntax [] c extra e = ground arith
scan-le is_param syntax (x ∷ s) c extra e = ground (arith, scan-le is_param syntax s c extra)

-- The bytes up to where the scan stops are no terminators.
NulFree-scan :
    (is_param : Bool) (syntax : ParamSyntax) (k : ℕ) (s c : Bytes) (extra : ℕ)
    → scan is_param syntax s ≡ stopped c extra
    → k ≤ length s - length c
    → NulFree (take k s)
unfolding scan
NulFree-scan is_param syntax zero s c extra e h = tt
NulFree-scan is_param syntax (suc k) [] c extra e h = tt
NulFree-scan is_param syntax (suc k) (x ∷ s) c extra e h =
    ground (arith, scan-le is_param syntax s c extra, NulFree-scan is_param syntax k s c extra)

-- A literal has a byte at least.
scan_literal-lt :
    (syntax : ParamSyntax) (s c : Bytes) (extra : ℕ)
    → (peek s == 0) ≡ false
    → (peek s == slash) ≡ false
    → scan false syntax s ≡ stopped c extra
    → length c < length s
unfolding scan
scan_literal-lt syntax [] c extra z d e = ground arith
scan_literal-lt syntax (x ∷ s) c extra z d e = ground (arith, scan-le false syntax s c extra)

length-skip : (extra : ℕ) (c : Bytes) → length (skip extra c) ≤ length c
length-skip zero c = omega arith
length-skip (suc extra) [] = ground arith
length-skip (suc extra) (x ∷ c) = ground arith

length-advance : (c : Bytes) → (peek c == 0) ≡ false → length (advance c) < length c
length-advance [] z = cc
length-advance (x ∷ c) z = omega arith

IsPiece-string :
    (lx : Prelexer) (type : TokenType) (is_param : Bool) (start : Bytes) (n : ℕ)
    → ((c : Bytes) (extra : ℕ)
        → scan is_param lx.param_syntax start ≡ stopped c extra
        → length c < n)
    → has_string (prelex_string lx type is_param start).1.type ≡ true
    → IsPiece n (prelex_string lx type is_param start)
unfolding prelex_string
IsPiece-string lx type is_param start n shorter legal =
    elim (Scan-cases (scan is_param lx.param_syntax start)) [
      | inr (c, e) ↦ cc (rw (e, prelex_string) at legal)
      | inl (c, extra, e) ↦ elim (Bool-cases (ltb lexer_char_limit (length start - length c))) [
        | inl long ↦ cc (rw (e, long, prelex_string) at legal)
        | inr short ↦
            let le = scan-le is_param lx.param_syntax start c extra e in
            let small : (length start - length c) % 2 ^ 16 ≤ length start - length c =
              ground arith in
            rw (e, short, prelex_string)
              (
                start,
                refl,
                omega arith,
                NulFree-scan is_param lx.param_syntax _ start c extra e small,
                omega (arith, length-skip extra c, shorter c extra e),
              )
      ]
    ]

no_string : (b : Bool) → has_string (if b then TokenType.wildcard else TokenType.illegal) ≡ false
no_string true = refl
no_string false = refl

no_string_end : (b : Bool) → has_string (if b then TokenType.end else TokenType.trailing) ≡ false
no_string_end true = refl
no_string_end false = refl

IsPiece-segment :
    (lx : Prelexer) (c : Bytes)
    → (peek c == 0) ≡ false
    → (peek c == slash) ≡ false
    → has_string (prelex_segment lx c).1.type ≡ true
    → IsPiece (length c) (prelex_segment lx c)
unfolding prelex_segment
IsPiece-segment lx c z d legal = elim (Bool-cases (opens lx.param_syntax (peek c))) [
  | inl opening ↦ elim (Bool-cases (isalpha (peek (advance c)))) [
    | inl alpha ↦
        rw (opening, alpha, prelex_segment)
          (IsPiece-string lx TokenType.param true (advance c) (length c)
            (λ c' extra e.
              omega
                (arith, length-advance c z, scan-le true lx.param_syntax (advance c) c' extra e))
            (rw (opening, alpha, prelex_segment) at legal))
    | inr other ↦ cc (rw (opening, other, prelex_segment) at legal)
  ]
  | inr plain ↦ elim (Bool-cases (peek c == 42)) [
    | inl star ↦ cc (
        sym (no_string (peek (advance c) == 0 || peek (advance c) == slash))
        ∙ rw (plain, star, prelex_segment) at legal)
    | inr other ↦
        rw (plain, other, prelex_segment)
          (IsPiece-string lx TokenType.literal false c (length c)
            (λ c' extra e. scan_literal-lt lx.param_syntax c c' extra z d e)
            (rw (plain, other, prelex_segment) at legal))
  ]
]

IsPiece-behind :
    (lx : Prelexer) (c : Bytes)
    → has_string (prelex_behind lx c).1.type ≡ true
    → IsPiece (length c) (prelex_behind lx c)
unfolding prelex_behind
IsPiece-behind lx c legal = elim (Bool-cases (peek c == 0)) [
  | inl z ↦ cc (sym (no_string_end (is_second lx c)) ∙ rw (z, prelex_behind) at legal)
  | inr nz ↦ elim (Bool-cases (peek c == slash)) [
    | inl d ↦ cc (rw (nz, d, prelex_behind) at legal)
    | inr nd ↦
        rw (nz, nd, prelex_behind)
          (IsPiece-segment lx c nz nd (rw (nz, nd, prelex_behind) at legal))
  ]
]

length-skip_slash : (c : Bytes) → length (skip_slash c) ≤ length c
length-skip_slash [] = ground arith
length-skip_slash (x ∷ c) = ground arith

-- A literal or a parameter of a pattern has a string without a terminator, and fewer bytes of the
-- pattern are left behind it than before it.
pub prelexer_next-IsPiece :
    (lx : Prelexer)
    → has_string (prelexer_next lx).1.type ≡ true
    → IsPiece (unread lx) (prelexer_next lx)
unfolding prelexer_next
prelexer_next-IsPiece lx legal = elim (Option-cases lx.cursor) [
  | inl e ↦ cc (rw (e, prelexer_next) at legal)
  | inr (c, e) ↦ elim (Bool-cases (peek c == 0)) [
    | inl z ↦ cc (rw (e, z, prelexer_next) at legal)
    | inr nz ↦
        let (p, ptr, len, nul, less) =
          IsPiece-behind lx (skip_slash c) (rw (e, nz, prelexer_next) at legal) in
        rw (e, nz, prelexer_next) (p, ptr, len, nul, omega (arith, less, length-skip_slash c))
  ]
]
