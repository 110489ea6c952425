-- ===== src/Examples/Witnesses.antt =====
-- The theorems at concrete inputs: a tree with a literal, and the lists and dictionaries it needs.
use libwrouter.Examples.Data.{name_a, name_b, two, route, tree, start, bare, request, no_room}
use libwrouter.Base.{
  ◌≤◌, ◌≡◌, ◌≢◌, refl, ap, ◌↔◌, inl, inr, [], ◌∷◌, true, some, arith, get_or, get_elem?,
}
use libwrouter.Search.{bisect}
use libwrouter.Text.{bytes_eq, is_illegal}
use libwrouter.World.{returns}
use libwrouter.Symbol.{no_symbols}
use libwrouter.Lexer.{lexer_next}
use libwrouter.Lexer.Stream.{stream, IsLiteral, lexer_next_literal}
use libwrouter.Router.{route_match}
use libwrouter.Router.Tree.{child_named, tree_walk, IsNamed}
use libwrouter.Router.Step.{seen}
use libwrouter.Router.Refine.{IsInput, with_graph, route_match-graph_compile}
use libwrouter.Symbol.{symbol_resolve, symbol_nresolve, sort_symbols, symbol_compare}
use libwrouter.Symbol.Sort.{Ascending, AllNulFree, Ascending-sort_symbols}
use libwrouter.Symbol.Resolve.{
  IsSymbolList, symbol_resolve_iff, symbol_nresolve-eq, symbol_resolve_injective,
}
use libwrouter.Terminal.{Terminals, no_terminals, terminal_append, terminal_lookup}
use libwrouter.Terminal.Lookup.{IsSorted, Holds, terminal_lookup_iff}
use libwrouter.Graph.Compile.{graph_compile}
use libwrouter.Graph.Layout.{cells, routes, Counts, graph_stats_lem}
use libwrouter.Graph.Stats.{graph_stats, zero_stats}
use libwrouter.Graph.Extent.{cur-graph_compile}
use libwrouter.Graph.Frame.{graph_compile-Keeps}
use libwrouter.Graph.Keys.{Keyed, Extends, Extends-graph_compile}
use libwrouter.Graph.Literals.{lit_of}
use libwrouter.Graph.Represents.{IsCompilable, Represents}
use libwrouter.Graph.Correct.{graph_compile_correct}

two-IsSymbolList : IsSymbolList two
unfolding symbol_compare
two-IsSymbolList = record {
  ascending = ((refl, tt), (tt, tt));
  nul_free = ((omega arith, tt), ((omega arith, tt), tt));
}

start-Keyed : Keyed start
start-Keyed = record {
  sorted = record { paired = refl; ascending = λ i j p q. absurd (omega arith) };
  below = λ i p. absurd (omega arith);
}

distinct_symbols : lit_of two name_b ≢ lit_of two name_a
unfolding symbol_resolve symbol_compare bisect
distinct_symbols = λ e. absurd (omega arith)

tree-IsCompilable : IsCompilable (lit_of two) tree
unfolding IsCompilable
tree-IsCompilable =
    let leaf : (0 ≤ 4095) × Unit {0} × Unit {0} × Unit {0} = (omega arith, tt, tt, tt) in
    (omega arith, ((distinct_symbols, tt), (tt, tt)), tt, (leaf, (leaf, tt)))

graph_compile_correct_example :
    Represents
      (lit_of two)
      (lit_of two)
      (Holds (graph_compile two two true tree start).terminals)
      (graph_compile two two true tree start).graph
      tree
      0
unfolding cells
graph_compile_correct_example =
    graph_compile_correct two two true tree start start-Keyed tree-IsCompilable (λ j p q. refl)
      (omega arith)

graph_compile-Keeps_example : (graph_compile two two true tree start).graph 7 ≡ 0
unfolding cells
graph_compile-Keeps_example = graph_compile-Keeps two two true tree start 7 (inr (omega arith))

cur-graph_compile_example : (graph_compile two two true tree start).cur ≡ 7
unfolding cells
cur-graph_compile_example = cur-graph_compile two two true tree start

Extends-graph_compile_example : Extends 3 start (graph_compile two two true tree start)
unfolding routes cells
Extends-graph_compile_example =
    Extends-graph_compile two two true tree start start-Keyed (omega arith)

graph_stats_lem_example : Counts 7 3 zero_stats (graph_stats tree zero_stats)
unfolding routes cells
graph_stats_lem_example = graph_stats_lem tree zero_stats

abbrev dictionary : Terminals
dictionary = terminal_append no_terminals 5 (route 8)

dictionary-IsSorted : IsSorted dictionary
unfolding terminal_append
dictionary-IsSorted = record { paired = refl; ascending = λ i j p q. absurd (omega arith) }

terminal_lookup_iff_example :
    (terminal_lookup dictionary 5 ≡ some (route 8)) ↔ Holds dictionary 5 (route 8)
terminal_lookup_iff_example = terminal_lookup_iff dictionary 5 (route 8) dictionary-IsSorted

symbol_resolve_iff_example : (symbol_resolve two name_b ≡ 2) ↔ (get_elem? two.base 1 ≡ some name_b)
symbol_resolve_iff_example = symbol_resolve_iff two name_b two-IsSymbolList (omega arith, tt) 1

symbol_nresolve-eq_example : symbol_nresolve two name_b ≡ symbol_resolve two name_b
symbol_nresolve-eq_example = symbol_nresolve-eq two name_b two-IsSymbolList (omega arith, tt)

symbol_resolve_injective_example : name_a ≡ name_a
symbol_resolve_injective_example =
    symbol_resolve_injective two name_a name_a two-IsSymbolList (omega arith, tt) (omega arith, tt)
      (inl refl) refl

names-AllNulFree : AllNulFree (name_b ∷ name_a ∷ [])
names-AllNulFree = ((omega arith, tt), ((omega arith, tt), tt))

Ascending-sort_symbols_example : Ascending (sort_symbols (name_b ∷ name_a ∷ []))
Ascending-sort_symbols_example =
    Ascending-sort_symbols (name_b ∷ name_a ∷ []) names-AllNulFree
      ((λ e. absurd (omega (arith, ap (λ ss. get_or ss 0 0) e)), tt), (tt, tt))

no_symbols-IsSymbolList : IsSymbolList no_symbols
no_symbols-IsSymbolList = record { ascending = tt; nul_free = tt }

tree-IsNamed : IsNamed two no_symbols tree
unfolding IsNamed
tree-IsNamed =
    (tt, ((omega arith, tt), inr (inl refl), (tt, tt), ((omega arith, tt), inl refl, (tt, tt), tt)))

tree-IsInput : IsInput two no_symbols tree
unfolding cells
tree-IsInput = record {
  literals = two-IsSymbolList;
  params = no_symbols-IsSymbolList;
  few_literals = omega arith;
  few_params = omega arith;
  compilable = tree-IsCompilable;
  named = tree-IsNamed;
  fits = omega arith;
}

route_match-graph_compile_example :
    seen (route_match (with_graph bare tree []) request no_room)
    ≡ some (returns (some (route 3), no_room))
unfolding stream lexer_next is_illegal tree_walk child_named bytes_eq
route_match-graph_compile_example =
    route_match-graph_compile bare tree [] request no_room tree-IsInput

lexer_next_literal_example : IsLiteral request (lexer_next request)
unfolding lexer_next is_illegal
lexer_next_literal_example = lexer_next_literal request refl
