-- ===== src/Graph/Compile.antt =====
-- graph_compile of graph.c.
use libwrouter.Base.{ℕ, ◌+◌, List, Bool, Option, none, some, bit_or}
use libwrouter.Route.{Route, call_back}
use libwrouter.Terminal.{Terminals, terminal_append}
use libwrouter.Symbol.{Symbols, symbol_resolve}
use libwrouter.Segment.{
  Node, Special, Segments, node, spec_none, spec_param, spec_wildcard, spec_param_null,
  spec_wildcard_null, nil, cons, child_count,
}
use libwrouter.Graph.Cells.{
  Cells, uint16, store, read_pairs, write_pairs, sort_edges, flag_terminal, flag_has_param,
  flag_has_wildcard, flag_has_trailing,
}

-- The edges of a special segment at its node.
abbrev pub edges_special : Special → ℕ
edges_special (spec_param str child) = 2
edges_special (spec_wildcard route) = 1
edges_special _ = 0

-- What graph_compile changes: the graph, `*pcur`, the terminals, and the calls of the retain
-- callback.
pub record Compiling : Type 0 where
  pub graph : Cells
  pub cur : ℕ
  pub terminals : Terminals
  pub retained : List ℕ

-- `*(*pcur)++ = v`
abbrev pub emit : Compiling → ℕ → Compiling
emit s v = record s { graph = store s.graph s.cur v; cur = s.cur + 1 }

-- `(*pcur)++`
abbrev pub reserve : Compiling → Compiling
reserve s = record s { cur = s.cur + 1 }

-- `g[i] = v`
abbrev pub assign : Compiling → ℕ → ℕ → Compiling
assign s i v = record s { graph = store s.graph i v }

-- `*node |= flag`
abbrev pub set_flag : Compiling → ℕ → ℕ → Compiling
set_flag s i flag = assign s i (bit_or (s.graph i) flag)

module _ (literals params : Symbols) (retain : Bool) where
  -- terminal_append and router_retain for the node at offset `ref`.
  unfoldable pub terminate : Compiling → ℕ → Route → Compiling
  unfolding terminal_append
  terminate s ref route = record s {
    terminals = terminal_append s.terminals (uint16 ref) route;
    retained = call_back retain s.retained route.ctx;
  }

  -- `Terminate node.`
  unfoldable pub compile_terminal : Option Route → ℕ → Compiling → Compiling
  unfolding terminate store
  compile_terminal none at s = s
  compile_terminal (some route) at s = terminate (set_flag s at flag_terminal) at route

  -- `Special edges.`
  unfoldable pub compile_edges : Special → ℕ → Compiling → Compiling
  unfolding store
  compile_edges (spec_param str child) at s =
      let s' = set_flag s at flag_has_param in
      reserve (emit s' (uint16 (symbol_resolve params str)))
  compile_edges (spec_wildcard route) at s = reserve (set_flag s at flag_has_wildcard)
  compile_edges _ at s = s

  -- `Trailing-slash edge`
  unfoldable pub compile_trailing_edge : Option Route → ℕ → Compiling → Compiling
  unfolding store
  compile_trailing_edge none at s = s
  compile_trailing_edge (some route) at s = reserve (set_flag s at flag_has_trailing)

  -- `Resolve symbols and save into into the literal edges.`
  unfoldable pub compile_symbols : Segments → Compiling → Compiling
  unfolding store
  compile_symbols nil s = s
  compile_symbols (cons str child cs) s =
      compile_symbols cs (reserve (emit s (uint16 (symbol_resolve literals str))))

  -- `Append wildcard node.`, `Append trailing node.`: the node, and the edge at `edge` to it.
  unfoldable pub compile_leaf : ℕ → Route → Compiling → Compiling
  unfolding terminate store
  compile_leaf edge route s =
      let s' = set_flag (reserve s) s.cur flag_terminal in
      terminate (assign s' edge (uint16 s.cur)) s.cur route

  unfoldable pub compile_trailing : Option Route → ℕ → Compiling → Compiling
  unfolding compile_leaf
  compile_trailing none edge s = s
  compile_trailing (some route) edge s = compile_leaf edge route s

  -- `Sort the edges by symbol.`
  unfoldable pub sort_literals : ℕ → ℕ → Compiling → Compiling
  unfolding read_pairs write_pairs sort_edges
  sort_literals base count s = record s {
    graph = write_pairs s.graph base (sort_edges (read_pairs s.graph base count));
  }

  -- graph_compile up to the literal edges: the node at `s.cur` and its edges, not yet their targets.
  unfoldable pub compile_head : Node → Compiling → Compiling
  unfolding store compile_terminal compile_edges compile_trailing_edge
  compile_head (node terminal trailing special children) s =
      let at = s.cur in
      let s₁ = set_flag (reserve s) at (child_count children) in
      let s₂ = compile_terminal terminal at s₁ in
      compile_trailing_edge trailing at (compile_edges special at s₂)

  -- The node's offset is `s.cur`, where the node is appended. The edges stand behind it: of the
  -- special segment, of the trailing slash, and of the literals.
  unfoldable mutual
    pub graph_compile : Node → Compiling → Compiling
    graph_compile (node terminal trailing special children) s =
        let at = s.cur in
        let s₁ = compile_head (node terminal trailing special children) s in
        let base = s₁.cur in
        let s₂ = compile_symbols children s₁ in
        let s₃ = sort_literals base (child_count children) (compile_literals children base s₂) in
        let s₄ = compile_special special (at + 1) s₃ in
        compile_trailing trailing (at + 1 + edges_special special) s₄

    -- `Recurse into literal nodes and save their offsets.`, from the edge at `edge` on.
    pub compile_literals : Segments → ℕ → Compiling → Compiling
    compile_literals nil edge s = s
    compile_literals (cons str child cs) edge s =
        let s' = graph_compile child s in
        compile_literals cs (edge + 2) (assign s' (edge + 1) (uint16 s.cur))

    -- `Descend into parameter.` and `Append wildcard node.`: the edges start at `edge`.
    pub compile_special : Special → ℕ → Compiling → Compiling
    compile_special spec_none edge s = s
    compile_special (spec_param str child) edge s =
        assign (graph_compile child s) (edge + 1) (uint16 s.cur)
    compile_special (spec_wildcard route) edge s = compile_leaf edge route s
    compile_special spec_param_null edge s = s
    compile_special spec_wildcard_null edge s = s
