-- ===== src/Graph/Frame.antt =====
-- Each step of graph_compile leaves the cells outside its own ranges as they are.
use libwrouter.Base.{ℕ, ◌+◌, ◌*◌, ◌≡◌, ◌≢◌, refl, ◌∙◌, Bool, Option, none, some, arith, bit_or}
use libwrouter.Route.{Route}
use libwrouter.Segment.{
  Node, Special, Segments, node, spec_none, spec_param, spec_wildcard, spec_param_null,
  spec_wildcard_null, nil, cons, child_count,
}
use libwrouter.Symbol.{Symbols, symbol_resolve}
use libwrouter.Graph.Cells.{
  uint16, read_pairs, sort_edges, flag_terminal, flag_has_param, flag_has_wildcard,
  flag_has_trailing,
}
use libwrouter.Graph.Stats.{count_route}
use libwrouter.Graph.Compile.{
  Compiling, emit, reserve, assign, set_flag, terminate, compile_terminal, compile_edges,
  compile_trailing_edge, compile_symbols, compile_leaf, compile_trailing, sort_literals,
  compile_head, graph_compile, compile_literals, compile_special, edges_special,
}
use libwrouter.Graph.Layout.{cells, cells_special, cells_children}
use libwrouter.Graph.Extent.{
  Outside, store_ne, write_pairs-Outside, length-read_pairs, length-sort_edges,
  cur-compile_terminal, cur-compile_head, cur-compile_symbols, cur-sort_literals, cur-graph_compile,
  cur-compile_literals, cur-compile_special, after_head, after_symbols, after_literals, after_sort,
  after_special,
}

-- A step leaves the cell `j` as it is.
abbrev pub Keeps : ℕ → Compiling → Compiling → Type 0
Keeps j s s' = s'.graph j ≡ s.graph j

module _ (L P : Symbols) (ret : Bool) (j : ℕ) where
  Keeps-flag : (s : Compiling) (at flag : ℕ) → j ≢ at → Keeps j s (set_flag s at flag)
  Keeps-flag s at flag h = store_ne s.graph at (bit_or (s.graph at) flag) j h

  Keeps-terminal :
      (t : Option Route) (at : ℕ) (s : Compiling)
      → j ≢ at
      → Keeps j s (compile_terminal L P ret t at s)
  unfolding compile_terminal terminate
  Keeps-terminal none at s h = refl
  Keeps-terminal (some r) at s h = Keeps-flag s at flag_terminal h

  Keeps-edges :
      (sp : Special) (at : ℕ) (s : Compiling)
      → j ≢ at
      → Outside j s.cur (edges_special sp)
      → Keeps j s (compile_edges L P ret sp at s)
  unfolding compile_edges
  Keeps-edges spec_none at s h o = refl
  Keeps-edges (spec_param str child) at s h o =
      let s' = set_flag s at flag_has_param in
      store_ne s'.graph s.cur (uint16 (symbol_resolve P str)) j (omega arith)
      ∙ Keeps-flag s at flag_has_param h
  Keeps-edges (spec_wildcard r) at s h o = Keeps-flag s at flag_has_wildcard h
  Keeps-edges sp at s h o = refl

  Keeps-trailing_edge :
      (t : Option Route) (at : ℕ) (s : Compiling)
      → j ≢ at
      → Keeps j s (compile_trailing_edge L P ret t at s)
  unfolding compile_trailing_edge
  Keeps-trailing_edge none at s h = refl
  Keeps-trailing_edge (some r) at s h = Keeps-flag s at flag_has_trailing h

  pub Keeps-head :
      (t u : Option Route) (sp : Special) (cs : Segments) (s : Compiling)
      → Outside j s.cur (1 + edges_special sp)
      → Keeps j s (compile_head L P ret (node t u sp cs) s)
  unfolding compile_head compile_terminal terminate
  Keeps-head t u sp cs s o =
      let s₁ = set_flag (reserve s) s.cur (child_count cs) in
      let s₂ = compile_terminal L P ret t s.cur s₁ in
      let h : j ≢ s.cur = omega arith in
      Keeps-trailing_edge u s.cur (compile_edges L P ret sp s.cur s₂) h
      ∙ (Keeps-edges sp s.cur s₂ h (ground (arith, cur-compile_terminal L P ret t s.cur s₁))
          ∙ (Keeps-terminal t s.cur s₁ h ∙ Keeps-flag (reserve s) s.cur (child_count cs) h))

  pub Keeps-symbols :
      (cs : Segments) (s : Compiling)
      → Outside j s.cur (2 * child_count cs)
      → Keeps j s (compile_symbols L P ret cs s)
  unfolding compile_symbols
  Keeps-symbols nil s o = refl
  Keeps-symbols (cons str child cs) s o =
      Keeps-symbols cs (reserve (emit s (uint16 (symbol_resolve L str)))) (omega arith)
      ∙ store_ne s.graph s.cur (uint16 (symbol_resolve L str)) j (omega arith)

  pub Keeps-leaf :
      (edge : ℕ) (r : Route) (s : Compiling)
      → j ≢ edge
      → j ≢ s.cur
      → Keeps j s (compile_leaf L P ret edge r s)
  unfolding compile_leaf terminate
  Keeps-leaf edge r s h k =
      store_ne (set_flag (reserve s) s.cur flag_terminal).graph edge (uint16 s.cur) j h
      ∙ Keeps-flag (reserve s) s.cur flag_terminal k

  pub Keeps-trailing :
      (t : Option Route) (edge : ℕ) (s : Compiling)
      → Outside j edge (count_route t)
      → Outside j s.cur (count_route t)
      → Keeps j s (compile_trailing L P ret t edge s)
  unfolding compile_trailing
  Keeps-trailing none edge s o p = refl
  Keeps-trailing (some r) edge s o p = Keeps-leaf edge r s (omega arith) (omega arith)

  pub Keeps-sort :
      (base n : ℕ) (s : Compiling)
      → Outside j base (2 * n)
      → Keeps j s (sort_literals L P ret base n s)
  unfolding sort_literals
  Keeps-sort base n s o =
      let ps = read_pairs s.graph base n in
      write_pairs-Outside (sort_edges ps) s.graph base n j
        (length-sort_edges ps ∙ length-read_pairs s.graph base n) o

  mutual
    unfolding graph_compile cells

    Keeps-node :
        (n : Node) (s : Compiling)
        → Outside j s.cur (cells n)
        → Keeps j s (graph_compile L P ret n s)
    Keeps-node (node t u sp cs) s o =
        let s₁ = after_head L P ret t u sp cs s in
        let s₂ = after_symbols L P ret t u sp cs s in
        let s₃ = after_literals L P ret t u sp cs s in
        let s₄ = after_sort L P ret t u sp cs s in
        let s₅ = after_special L P ret t u sp cs s in
        let c₁ = cur-compile_head L P ret t u sp cs s in
        let c₂ = cur-compile_symbols L P ret cs s₁ in
        let c₃ = cur-compile_literals L P ret cs s₁.cur s₂ in
        let c₄ = cur-sort_literals L P ret s₁.cur (child_count cs) s₃ in
        let c₅ = cur-compile_special L P ret sp (s.cur + 1) s₄ in
        Keeps-trailing u (s.cur + 1 + edges_special sp) s₅ (ground arith) (ground arith)
        ∙ (Keeps-special sp (s.cur + 1) s₄ (ground arith) (ground arith)
            ∙ (Keeps-sort s₁.cur (child_count cs) s₃ (ground arith)
                ∙ (Keeps-children cs s₁.cur s₂ (ground arith) (ground arith)
                    ∙ (Keeps-symbols cs s₁ (ground arith)
                        ∙ Keeps-head t u sp cs s (ground arith)))))

    Keeps-children :
        (cs : Segments) (edge : ℕ) (s : Compiling)
        → Outside j edge (2 * child_count cs)
        → Outside j s.cur (cells_children cs)
        → Keeps j s (compile_literals L P ret cs edge s)
    Keeps-children nil edge s o p = refl
    Keeps-children (cons str child cs) edge s o p =
        let s' = graph_compile L P ret child s in
        let c = cur-graph_compile L P ret child s in
        Keeps-children cs (edge + 2) (assign s' (edge + 1) (uint16 s.cur)) (ground arith)
          (ground arith)
        ∙ (store_ne s'.graph (edge + 1) (uint16 s.cur) j (ground arith)
            ∙ Keeps-node child s (ground arith))

    Keeps-special :
        (sp : Special) (edge : ℕ) (s : Compiling)
        → Outside j edge (edges_special sp)
        → Outside j s.cur (cells_special sp)
        → Keeps j s (compile_special L P ret sp edge s)
    Keeps-special (spec_param str child) edge s o p =
        let s' = graph_compile L P ret child s in
        store_ne s'.graph (edge + 1) (uint16 s.cur) j (ground arith) ∙ Keeps-node child s p
    Keeps-special (spec_wildcard r) edge s o p = Keeps-leaf edge r s (ground arith) (ground arith)
    Keeps-special spec_none edge s o p = refl
    Keeps-special spec_param_null edge s o p = refl
    Keeps-special spec_wildcard_null edge s o p = refl

  pub Keeps-literals :
      (cs : Segments) (edge : ℕ) (s : Compiling)
      → Outside j edge (2 * child_count cs)
      → Outside j s.cur (cells_children cs)
      → Keeps j s (compile_literals L P ret cs edge s)
  Keeps-literals cs edge s o p = Keeps-children cs edge s o p

  pub Keeps-compile_special :
      (sp : Special) (edge : ℕ) (s : Compiling)
      → Outside j edge (edges_special sp)
      → Outside j s.cur (cells_special sp)
      → Keeps j s (compile_special L P ret sp edge s)
  Keeps-compile_special sp edge s o p = Keeps-special sp edge s o p

-- graph_compile leaves every cell outside the `cells n` cells from the cursor on as it is.
pub graph_compile-Keeps :
    (L P : Symbols) (ret : Bool) (n : Node) (s : Compiling) (j : ℕ)
    → Outside j s.cur (cells n)
    → (graph_compile L P ret n s).graph j ≡ s.graph j
graph_compile-Keeps L P ret n s j o = Keeps-node L P ret j n s o
