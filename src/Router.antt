-- ===== src/Router.antt =====
-- router.c: matching a request against the compiled graph, and freeing a router.
pub mod Tree
pub mod Flags
pub mod Names
pub mod Step
pub mod Round
pub mod Refine
pub mod Release
pub mod Instance
pub mod Answers
pub mod Plain
use Prim.Native.Nat.{Ordering, compare}
use libwrouter.Base.{
  ℕ, zero, suc, ◌+◌, ◌*◌, List, [], ◌∷◌, ◌++◌, Bool, true, false, not, Option, none, some, ltb,
  ◌==◌, ◌||◌, length, map, bit_and, if◌then◌else◌,
}
use libwrouter.Text.{Bytes}
use libwrouter.Token.{Token, TokenType, text_of}
use libwrouter.World.{World, Run, returns, crashes}
use libwrouter.Lexer.{Lexer, lexer_next}
use libwrouter.Route.{Route}
use libwrouter.Params.{Param, Params, reset, param_next}
use libwrouter.Search.{bisect, scan}
use libwrouter.Symbol.{Symbols, symbol_nresolve, symbol_lookup}
use libwrouter.Terminal.{Terminals, terminal_lookup}
use libwrouter.Graph.Cells.{
  Cells, uint16, flag_terminal, flag_has_param, flag_has_wildcard, flag_has_trailing, literals_mask,
}

-- struct wrouter_router; `graph` is `none` for NULL.
pub record Router : Type 0 where
  pub graph : Option Cells
  pub literals : Symbols
  pub params : Symbols
  pub terminals : Terminals
  pub fallback : Route
  pub max_params : ℕ
  pub num_routes : ℕ
  pub graph_size : ℕ
  pub retain : Bool
  pub release : Bool

-- `*node & flag`
unfoldable pub has : ℕ → ℕ → Bool
has word flag = not (bit_and word flag == 0)

-- The variables of route_match that live through its loop, and the parts of the dispatcher.
pub record Walk : Type 0 where
  pub lx : Lexer
  pub cursor : ℕ
  pub w_edge : Option ℕ
  pub w_param : Option Bytes
  pub params : Params

-- The route that was found, with the lexer and the parameters as they are left.
pub record Match : Type 0 where
  pub route : Option Route
  pub lx : Lexer
  pub params : Params

-- `not_found`
abbrev pub not_found : Lexer → Params → Match
not_found lx ps = record { route = none; lx = lx; params = reset ps }

-- WILDCARD_PARAM
abbrev pub wildcard_param : Bytes
wildcard_param = b'_' ∷ []

abbrev pub behind : Bool → ℕ → ℕ → ℕ
behind flag width at = if flag then at + width else at

-- The number of bytes from a pointer to the end of the path.
abbrev pub bytes_left : Option Bytes → ℕ
bytes_left none = 0
bytes_left (some p) = length p

-- The offset behind the literal edge of the symbol, among the `n` edges from `base` on.
unfoldable pub follow_symbol : Cells → ℕ → ℕ → ℕ → Option ℕ
unfolding bisect scan
follow_symbol g base n symbol =
    let probe = λ (i : ℕ). compare symbol (g (base + i * 2)) in
    elim (if ltb 16 n then bisect n probe 0 n else scan n probe 0) [
      | none ↦ none
      | some i ↦ some (g (base + i * 2 + 1))
    ]

module _ (router : Router) (g : Cells) where
  -- `terminal`
  unfoldable pub at_terminal : ℕ → Lexer → Params → Match
  at_terminal cursor lx ps = record {
    route = terminal_lookup router.terminals cursor;
    lx = lx;
    params = ps;
  }

  -- `If this node has literals, try to resolve and match.`
  unfoldable pub follow_literal : ℕ → ℕ → Token → Option ℕ
  follow_literal base word tok =
      let n = bit_and word literals_mask in
      let symbol = symbol_nresolve router.literals (text_of tok) in
      if n == 0 then none else if symbol == 0 then none else follow_symbol g base n symbol

  -- `wildcard`, where an edge has been seen.
  unfoldable pub at_wildcard : Option ℕ → Option Bytes → Lexer → Params → Run Match
  at_wildcard none w_param lx ps = returns (not_found lx ps)
  at_wildcard (some edge) w_param lx ps =
      elim (param_next ps (record {
        name = some wildcard_param;
        value = w_param;
        length = uint16 (bytes_left w_param);
      })) [ crashes ↦ crashes | returns ps' ↦ returns (at_terminal (g edge) lx ps') ]

  -- TOKEN_TRAILING
  unfoldable pub at_trailing : ℕ → ℕ → Lexer → Params → Match
  at_trailing word t_edge lx ps =
      if has word flag_has_trailing then at_terminal (g t_edge) lx ps else not_found lx ps

  -- TOKEN_END
  unfoldable pub at_end : ℕ → ℕ → Lexer → Params → Match
  at_end word at lx ps = if has word flag_terminal then at_terminal at lx ps else not_found lx ps

  -- TOKEN_LITERAL at the node with this word: `go` goes on at an offset.
  unfoldable pub at_literal :
      (ℕ → Params → Option (Run Match))
      → ℕ
      → ℕ
      → ℕ
      → Lexer
      → Token
      → Option ℕ
      → Option Bytes
      → Params
      → Option (Run Match)
  at_literal go at word base lx tok w_edge w_param ps = elim (follow_literal base word tok) [
    | some offset ↦ go offset ps
    | none ↦ elim (has word flag_has_param) [
      | false ↦ some (at_wildcard w_edge w_param lx ps)
      | true ↦ elim (symbol_lookup router.params (g (at + 1))) [
        | crashes ↦ some crashes
        | returns name ↦
            elim (param_next ps (record { name = name; value = tok.ptr; length = tok.length })) [
              | crashes ↦ some crashes
              | returns ps' ↦ go (g (at + 1 + 1)) ps'
            ]
      ]
    ]
  ]

  -- The body of the loop behind `lexer_next`, for the token.
  unfoldable pub visit : (Walk → Option (Run Match)) → Walk → Lexer → Token → Option (Run Match)
  visit go w lx tok =
      let at = w.cursor in
      let word = g at in
      let special = behind (has word flag_has_param) 2 (at + 1) in
      let w_edge = if has word flag_has_wildcard then some special else w.w_edge in
      let w_param = if has word flag_has_wildcard then tok.ptr else w.w_param in
      let t_edge = behind (has word flag_has_wildcard) 1 special in
      let base = behind (has word flag_has_trailing) 1 t_edge in
      let next = λ (cursor : ℕ) (ps : Params).
        go (record { lx = lx; cursor = cursor; w_edge = w_edge; w_param = w_param; params = ps }) in
      elim tok.type [
        | TokenType.literal ↦ at_literal next at word base lx tok w_edge w_param w.params
        | TokenType.trailing ↦ some (returns (at_trailing word t_edge lx w.params))
        | TokenType.end ↦ some (returns (at_end word at lx w.params))
        | _ ↦ some (returns (not_found lx w.params))
      ]

  -- The loop from `lexer_next`; `none` when the fuel runs out.
  unfoldable pub match_loop : ℕ → Walk → Option (Run Match)
  match_loop zero w = none
  match_loop (suc fuel) w = let (lx, tok) = lexer_next w.lx in visit (match_loop fuel) w lx tok

-- The rounds of the loop: each takes a byte of the path at least.
abbrev pub rounds : Lexer → ℕ
rounds lx = bytes_left lx.cursor + 1

unfoldable pub route_match : Router → Lexer → Params → Option (Run Match)
route_match router lx ps = elim router.graph [
  | none ↦ some (returns (not_found lx ps))
  | some g ↦
      match_loop router g (rounds lx)
        (record { lx = lx; cursor = 0; w_edge = none; w_param = none; params = reset ps })
]

unfoldable pub wrouter_route_count : Router → ℕ
wrouter_route_count router = router.num_routes

-- The calls of the release callback, and what freeing memory twice does.
unfoldable pub wrouter_free : Option Router → World → Run World
wrouter_free none w = returns w
wrouter_free (some r) w =
    let calls = r.fallback.ctx ∷ map (λ (t : Route). t.ctx) r.terminals.base in
    if r.literals.freed || r.params.freed || r.terminals.freed
    then crashes
    else returns (if r.release then record w { released = w.released ++ calls } else w)

-- `rpp` and `*rpp` NULL are `none`; what `*rpp` is afterwards, and the world.
unfoldable pub wrouter_destroy : Option Router → World → Run (Option Router × World)
unfolding wrouter_free
wrouter_destroy r w = elim (wrouter_free r w) [
  | crashes ↦ crashes
  | returns w' ↦ returns (none, w')
]
