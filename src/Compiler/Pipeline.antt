-- ===== src/Compiler/Pipeline.antt =====
-- wrouter_compile from the builder to the router: what the router matches.
use mathlib.Core.Path.{subst}
use libwrouter.Base.{
  ℕ, ◌≤◌, ◌≡◌, refl, sym, ap, ◌∙◌, inl, inr, true, false, ltb, ◌||◌, ◌==◌, if◌then◌else◌, List, [],
  ◌∷◌, some, none, arith, length, Bool-cases,
}
use libwrouter.Memory.{malloc}
use libwrouter.World.{World, Run, returns}
use libwrouter.Text.{Bytes}
use libwrouter.Lexer.{Lexer}
use libwrouter.Lexer.Stream.{stream}
use libwrouter.Params.{Params, reset}
use libwrouter.Route.{call_back}
use libwrouter.Errors.{ok, builder_corrupted}
use libwrouter.Terminal.{terminal_alloc}
use libwrouter.Symbol.{Symbols, SymbolTable, symbol_compile, uint16_max}
use libwrouter.Symbol.Sort.{
  AllNulFree, Ascending, In, In-sort_symbols, Ascending-sort_symbols, AllNulFree-sort_symbols,
  length-sort_symbols,
}
use libwrouter.Symbol.Resolve.{IsSymbolList}
use libwrouter.Graph.Stats.{graph_stats, zero_stats}
use libwrouter.Graph.Layout.{cells, routes, graph_stats_lem}
use libwrouter.Router.{Router, route_match, rounds}
use libwrouter.Router.Step.{seen}
use libwrouter.Router.Refine.{IsInput, walk_stream, route_match-graph_compile}
use libwrouter.Builder.{Builder}
use libwrouter.Builder.Contract.{IsIntact}
use libwrouter.Symbol.Append.{IsTable}
use libwrouter.Compiler.{
  Compiled, run_graph, create_router, wrouter_compile, new_router, check_range, compile_literals,
  compile_params, alloc_terminals, alloc_graph,
}
use libwrouter.Compiler.Outcome.{IsCompiled, IsFilled, Finish, ensured, ready}
use libwrouter.Compiler.Names.{IsTree-by_names}

length_zero : (xs : List Bytes) → length xs ≡ 0 → xs ≡ []
length_zero [] e = refl
length_zero (x ∷ xs) e = absurd (omega (arith, e))

pub IsFilled-of : (tbl : SymbolTable) → IsTable tbl → IsFilled tbl
IsFilled-of tbl t e = length_zero tbl.base (sym t.counted ∙ e)

list_of :
    (tbl : SymbolTable) (syms : Symbols) → IsTable tbl → IsCompiled tbl syms → IsSymbolList syms
list_of tbl syms t c = record {
  ascending =
      subst Ascending (sym c.sorted) (Ascending-sort_symbols tbl.base t.nul_free t.distinct);
  nul_free = subst AllNulFree (sym c.sorted) (AllNulFree-sort_symbols tbl.base t.nul_free);
}

few_of :
    (tbl : SymbolTable) (syms : Symbols)
    → IsTable tbl
    → IsCompiled tbl syms
    → length syms.base ≤ 65535
few_of tbl syms t c = omega (arith, ap length c.sorted, length-sort_symbols tbl.base, t.few)

member_of :
    (tbl : SymbolTable) (syms : Symbols) (str : Bytes)
    → IsCompiled tbl syms
    → In str tbl.base
    → In str syms.base
member_of tbl syms str c h = subst (In str) (sym c.sorted) ((In-sort_symbols str tbl.base).1 h)

IsInput-of :
    (b : Builder) (L P : Symbols)
    → IsIntact b
    → IsCompiled b.literals L
    → IsCompiled b.params P
    → (graph_stats b.root zero_stats).size ≤ 65535
    → IsInput L P b.root
IsInput-of b L P source cl cp small =
    let list = list_of b.literals L source.literals cl in
    let few = few_of b.literals L source.literals cl in
    let (c, m) =
      IsTree-by_names b.literals.base b.params.base L P list few
        (λ str h. member_of b.literals L str cl h) (λ str h. member_of b.params P str cp h) b.root
        source.tree in
    record {
      literals = list;
      params = list_of b.params P source.params cp;
      few_literals = few;
      few_params = few_of b.params P source.params cp;
      compilable = c;
      named = m;
      fits = omega (arith, small, (graph_stats_lem b.root zero_stats).size);
    }

module _ (b : Builder) (source : IsIntact b) (lx : Lexer) (ps : Params) where
  -- The router matches what the builder's tree says.
  abbrev Matches : Router → World → Type 0
  Matches r w =
      seen (route_match r lx ps) ≡ some (walk_stream (stream (rounds lx) lx) b.root none (reset ps))

  Matches-run_graph :
      (retained released : List ℕ)
      → Finish Matches b
          (IsFilled-of b.literals source.literals)
          (IsFilled-of b.params source.params)
          retained
          released
  unfolding run_graph
  Matches-run_graph retained released L P mem cl cp small few =
      route_match-graph_compile
        (ready Matches b (IsFilled-of b.literals source.literals)
          (IsFilled-of b.params source.params) retained released L P)
        b.root retained lx ps (IsInput-of b L P source cl cp small)

-- For a builder whose tree takes its names, different ones at each node, from tables of at most
-- 65535 different null-terminated strings, a router that wrouter_compile returns matches every
-- request as the tree says: route_match comes to an end, with the route, the parameters and the
-- crash of the description on the tree (a child of the segment's name first, then the parameter,
-- then the nearest wildcard). The description has the wildcard take a request with a legal segment
-- at its place also where a later part is illegal, such as a path with query parameters, which the
-- README says does not match.
pub wrouter_compile-route_match :
    (b : Builder) (w : World) (c : Compiled) (r : Router) (lx : Lexer) (ps : Params)
    → IsIntact b
    → wrouter_compile (some b) true w ≡ returns c
    → c.router ≡ some r
    → seen (route_match r lx ps) ≡ some (walk_stream (stream (rounds lx) lx) b.root none (reset ps))
wrouter_compile-route_match b w c r lx ps source e f =
    ensured (Matches b source lx ps) b (IsFilled-of b.literals source.literals)
      (IsFilled-of b.params source.params) w
      (Matches-run_graph b source lx ps (call_back b.retain w.retained b.fallback.ctx) w.released) c
      r e f

symbol_compile_always :
    (tbl : SymbolTable) → ((symbol_compile tbl []).0 ≡ ok) × ((symbol_compile tbl []).2 ≡ [])
unfolding symbol_compile malloc
symbol_compile_always tbl = elim (Bool-cases (tbl.count == 0)) [
  | inl p ↦ rw (p, symbol_compile) (refl, refl)
  | inr p ↦ rw (p, symbol_compile) (refl, refl)
]

-- A router is returned.
abbrev pub Succeeds : Run Compiled → Type 0
Succeeds x = (c : Compiled) × (r : Router) × (x ≡ returns c) × (c.router ≡ some r)

module _ (b : Builder) (retained released : List ℕ) where
  -- Where no allocation fails.
  abbrev pub roomy : List ℕ → World
  roomy calls = record { mem = []; retained = calls; released = released }

  Succeeds-terminals : (r : Router) → Succeeds (alloc_terminals b r (roomy retained))
  unfolding alloc_terminals alloc_graph run_graph malloc terminal_alloc
  Succeeds-terminals r = (_, _, refl, refl)

  Succeeds-params : (r : Router) → Succeeds (compile_params b r (roomy retained))
  unfolding compile_params
  Succeeds-params r =
      let (fine, mem) = symbol_compile_always b.params in
      let r' = record r { params = (symbol_compile b.params []).1 } in
      rw (fine, compile_params)
        (subst (λ m. Succeeds (alloc_terminals b r' (record (roomy retained) { mem = m })))
          (sym mem) (Succeeds-terminals r'))

  Succeeds-literals : (r : Router) → Succeeds (compile_literals b r (roomy retained))
  unfolding compile_literals
  Succeeds-literals r =
      let (fine, mem) = symbol_compile_always b.literals in
      let r' = record r { literals = (symbol_compile b.literals []).1 } in
      rw (fine, compile_literals)
        (subst (λ m. Succeeds (compile_params b r' (record (roomy retained) { mem = m }))) (sym mem)
          (Succeeds-params r'))

  Succeeds-range :
      cells b.root ≤ 65535
      → routes b.root ≤ 65535
      → Succeeds (check_range b (new_router b (graph_stats b.root zero_stats)) (roomy retained))
  unfolding check_range
  Succeeds-range size count =
      let k = graph_stats_lem b.root zero_stats in
      let s : (ltb uint16_max (graph_stats b.root zero_stats).size
            || ltb uint16_max (graph_stats b.root zero_stats).terminals)
          ≡ false =
        ground (arith, k.size, k.terminals) in
      rw (s, check_range) (Succeeds-literals (new_router b (graph_stats b.root zero_stats)))

-- Where no allocation fails, wrouter_compile returns a router for every builder that is not corrupted
-- and whose tree has at most 65535 cells and 65535 routes.
pub wrouter_compile_returns :
    (b : Builder) (retained released : List ℕ)
    → b.corrupted ≡ false
    → cells b.root ≤ 65535
    → routes b.root ≤ 65535
    → Succeeds (wrouter_compile (some b) true (roomy b retained released retained))
unfolding wrouter_compile create_router malloc
wrouter_compile_returns b retained released whole size count =
    subst
      (λ corrupted. Succeeds (
        if corrupted
        then returns (record {
          router = none;
          err = some builder_corrupted;
          world = roomy b retained released retained;
        })
        else create_router b (roomy b retained released retained)))
      (sym whole)
      (Succeeds-range b (call_back b.retain retained b.fallback.ctx) released size count)
