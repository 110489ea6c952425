-- ===== src/Router/Refine.antt =====
-- route_match against the description of a match on the tree of segments.

use libwrouter.Base.{
  ℕ, zero, suc, ◌+◌, ◌≤◌, ◌<◌, ◌≡◌, ◌≢◌, refl, sym, ◌∙◌, ap, ◌⊎◌, inl, inr, List, Option, some,
  none, arith, length,
}
use libwrouter.Text.{Bytes}
use libwrouter.Token.{Token, TokenType}
use libwrouter.Lexer.{Lexer, lexer_next}
use libwrouter.Lexer.Stream.{stream, left, lexer_next_literal, stream-literal, stream-ending}
use libwrouter.Params.{Params, reset}
use libwrouter.Segment.{Node, node}
use libwrouter.Symbol.{Symbols}
use libwrouter.Symbol.Resolve.{IsSymbolList}
use libwrouter.Terminal.{no_terminals}
use libwrouter.Graph.Cells.{Cells}
use libwrouter.Graph.Literals.{lit_of}
use libwrouter.Graph.Layout.{cells}
use libwrouter.Graph.Compile.{Compiling, graph_compile}
use libwrouter.Graph.Keys.{Keyed, Extends-graph_compile}
use libwrouter.Graph.Represents.{Represents, IsCompilable}
use libwrouter.Graph.Correct.{graph_compile_correct}
use libwrouter.Router.{Router, match_loop, route_match, rounds}
use libwrouter.Router.Tree.{Wildcard, Outcome, nearest, tree_walk, IsNamed}
use libwrouter.Router.Names.{IsSound, At}
use libwrouter.Router.Step.{seen, Remembers}
use libwrouter.Router.Round.{visit_literal, visit_ending, Remembers-next}

literal_or_not : (ty : TokenType) → (ty ≡ TokenType.literal) ⊎ (ty ≢ TokenType.literal)
literal_or_not TokenType.literal = inl refl
literal_or_not TokenType.illegal = inr (λ e. cc)
literal_or_not TokenType.param = inr (λ e. cc)
literal_or_not TokenType.wildcard = inr (λ e. cc)
literal_or_not TokenType.trailing = inr (λ e. cc)
literal_or_not TokenType.end = inr (λ e. cc)

-- What the tree gives for what the lexer reads.
abbrev pub walk_stream : List Token × TokenType × Lexer → Node → Wildcard → Params → Outcome
walk_stream (toks, ending, last) n w ps = tree_walk toks ending n w ps

module _ (router : Router) (g : Cells) (sound : IsSound router) where
  pub match_loop_refines :
      (fuel : ℕ) (n : Node) (at : ℕ) (lx : Lexer) (w_edge : Option ℕ) (w_param : Option Bytes)
      (w : Wildcard) (ps : Params)
      → At router g sound n at
      → IsNamed router.literals router.params n
      → Remembers router g sound w_edge w_param w
      → left lx < fuel
      → seen (
          match_loop router g fuel
            (record { lx = lx; cursor = at; w_edge = w_edge; w_param = w_param; params = ps }))
        ≡ some (walk_stream (stream fuel lx) n w ps)
  unfolding match_loop tree_walk Represents
  match_loop_refines zero n at lx w_edge w_param w ps rep named h lt = absurd (omega arith)
  match_loop_refines (suc fuel) (node t u sp cs) at lx w_edge w_param w ps rep named h lt =
      elim (literal_or_not (lexer_next lx).1.type) [
        | inl type ↦
            let (nul, less) = lexer_next_literal lx type in
            let rest = stream fuel (lexer_next lx).0 in
            visit_literal router g sound t u sp cs at rep named (match_loop router g fuel) lx w_edge
              w_param ps (lexer_next lx).0 (lexer_next lx).1 w h
              (λ child ps'. walk_stream rest child (nearest sp (lexer_next lx).1 w) ps')
              (λ child o ps' r m.
                match_loop_refines fuel child o (lexer_next lx).0 _ _
                  (nearest sp (lexer_next lx).1 w) ps' r m
                  (Remembers-next router g sound sp at (lexer_next lx).1 w_edge w_param w rep.2 h)
                  (omega arith))
              nul type
            ∙ ap (λ x. some (walk_stream x (node t u sp cs) w ps))
                (sym (stream-literal fuel lx type))
        | inr other ↦
            visit_ending router g sound t u sp cs at rep named (match_loop router g fuel) lx w_edge
              w_param ps (lexer_next lx).0 (lexer_next lx).1 w h (lexer_next lx).1.type refl other
            ∙ ap (λ x. some (walk_stream x (node t u sp cs) w ps))
                (sym (stream-ending fuel lx (lexer_next lx).1.type refl other))
      ]

  -- On a graph that represents a tree of named segments, route_match comes to an end for every
  -- request, and its route, its parameters and its crash are those that the tree gives for the
  -- tokens of the request.
  pub route_match_refines :
      (n : Node) (lx : Lexer) (ps : Params)
      → router.graph ≡ some g
      → At router g sound n 0
      → IsNamed router.literals router.params n
      → seen (route_match router lx ps)
        ≡ some (walk_stream (stream (rounds lx) lx) n none (reset ps))
  unfolding route_match
  route_match_refines n lx ps e rep named =
      rw (e, route_match)
        (match_loop_refines (rounds lx) n 0 lx none none none (reset ps) rep named refl
          (omega arith))

-- The compiler's input: sorted lists of few names, and a tree that fits the graph and is named.
pub record IsInput (L P : Symbols) (n : Node) : Type 0 where
  pub literals : IsSymbolList L
  pub params : IsSymbolList P
  pub few_literals : length L.base ≤ 65535
  pub few_params : length P.base ≤ 65535
  pub compilable : IsCompilable (lit_of L) n
  pub named : IsNamed L P n
  pub fits : cells n ≤ 65536

-- Where graph_compile starts.
abbrev pub origin : List ℕ → Compiling
origin retained = record { graph = λ i. 0; cur = 0; terminals = no_terminals; retained = retained }

-- The router with the graph and the dictionary that graph_compile leaves.
abbrev pub with_graph : Router → Node → List ℕ → Router
with_graph r n retained =
    let s = graph_compile r.literals r.params r.retain n (origin retained) in
    record r { graph = some s.graph; terminals = s.terminals }

-- On the graph and dictionary that graph_compile makes of a tree (named by sorted symbol lists of
-- at most 65535 strings, at most 65536 cells, no NULL, at most 4095 children of different symbols
-- at each node), route_match comes to an end for every request, and its route, its parameters and
-- its crash are those of the description on the tree: a child of the segment's name first, then the
-- parameter, then the nearest wildcard. The description has the wildcard take a request with a
-- legal segment at its place also where a later part is illegal, such as a path with query
-- parameters, which the README says does not match.
pub route_match-graph_compile :
    (r : Router) (n : Node) (retained : List ℕ) (lx : Lexer) (ps : Params)
    → IsInput r.literals r.params n
    → seen (route_match (with_graph r n retained) lx ps)
      ≡ some (walk_stream (stream (rounds lx) lx) n none (reset ps))
route_match-graph_compile r n retained lx ps input =
    let s = graph_compile r.literals r.params r.retain n (origin retained) in
    let fits : 0 + cells n ≤ 65536 = omega (arith, input.fits) in
    let start : Keyed (origin retained) = record {
      sorted = record { paired = refl; ascending = λ i j p q. absurd (omega arith) };
      below = λ i p. absurd (omega arith);
    } in
    let ext = Extends-graph_compile r.literals r.params r.retain n (origin retained) start fits in
    let sound : IsSound (with_graph r n retained) = record {
      terminals = ext.keyed.sorted;
      literals = input.literals;
      params = input.params;
      few_literals = input.few_literals;
      few_params = input.few_params;
    } in
    route_match_refines (with_graph r n retained) s.graph sound n lx ps refl
      (graph_compile_correct r.literals r.params r.retain n (origin retained) start input.compilable
        (λ j p q. refl) fits)
      input.named
