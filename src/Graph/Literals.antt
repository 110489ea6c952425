-- ===== src/Graph/Literals.antt =====
-- The literal edges that graph_compile leaves: before the sort they are the symbols and offsets of
-- the children, in order.
use mathlib.Core.Path.{subst}
use libwrouter.Base.{
  ℕ, ◌+◌, ◌*◌, ◌≤◌, ◌<◌, ◌≡◌, refl, ◌∙◌, ap, inl, inr, Bool, [], ◌∷◌, some, none, arith,
}
use libwrouter.Text.{Bytes}
use libwrouter.Route.{Route}
use libwrouter.Segment.{Node, Segments, node, nil, cons, child_count}
use libwrouter.Symbol.{Symbols, symbol_resolve}
use libwrouter.Graph.Cells.{Cells, uint16, read_pairs, sort_edges}
use libwrouter.Graph.Compile.{
  Compiling, emit, reserve, assign, graph_compile, compile_symbols, compile_literals,
}
use libwrouter.Graph.Layout.{cells, cells_children}
use libwrouter.Graph.Extent.{store_ne, store_eq, cur-graph_compile}
use libwrouter.Graph.Frame.{Keeps-symbols, Keeps-literals, graph_compile-Keeps}
use libwrouter.Graph.Edges.{
  Pairs, FreshEdge, DistinctEdges, InEdges, FreshEdge-sort_edges, InEdges-sort_edges,
  Ascends-sort_edges,
}
use libwrouter.Graph.Follow.{follow_symbol-found, follow_symbol-none}
use libwrouter.Graph.Represents.{FreshChild, DistinctChildren, Represents, RepresentsChildren}
use libwrouter.Router.{follow_symbol}

pub cells_pos : (n : Node) → 0 < cells n
unfolding cells
cells_pos (node t u sp cs) = omega arith

module _ (lit : Bytes → ℕ) where
  -- The symbols of the children stand at every other cell from `edge` on.
  abbrev pub SymbolsAt : Cells → ℕ → Segments → Type 0
  SymbolsAt g edge nil = Unit
  SymbolsAt g edge (cons str child cs) = (g edge ≡ lit str) × SymbolsAt g (edge + 2) cs

  -- The edges of children that are compiled one behind the other from the offset `cur` on.
  abbrev pub children_pairs : Segments → ℕ → Pairs
  children_pairs nil cur = []
  children_pairs (cons str child cs) cur = (lit str, cur) ∷ children_pairs cs (cur + cells child)

  pub SymbolsAt-congr :
      (g h : Cells) (edge : ℕ) (cs : Segments)
      → ((j : ℕ) → edge ≤ j → j < edge + 2 * child_count cs → h j ≡ g j)
      → SymbolsAt g edge cs
      → SymbolsAt h edge cs
  SymbolsAt-congr g h edge nil same at = tt
  SymbolsAt-congr g h edge (cons str child cs) same at = (
    same edge (omega arith) (omega arith) ∙ at.0,
    SymbolsAt-congr g h (edge + 2) cs (λ j p q. same j (omega arith) (omega arith)) at.1,
  )

  pub FreshEdge-children_pairs :
      (a : ℕ) (cs : Segments) (cur : ℕ) → FreshChild lit a cs → FreshEdge a (children_pairs cs cur)
  FreshEdge-children_pairs a nil cur f = tt
  FreshEdge-children_pairs a (cons str child cs) cur f =
      (f.0, FreshEdge-children_pairs a cs (cur + cells child) f.1)

  pub DistinctEdges-children_pairs :
      (cs : Segments) (cur : ℕ) → DistinctChildren lit cs → DistinctEdges (children_pairs cs cur)
  DistinctEdges-children_pairs nil cur d = tt
  DistinctEdges-children_pairs (cons str child cs) cur d = (
    FreshEdge-children_pairs (lit str) cs (cur + cells child) d.0,
    DistinctEdges-children_pairs cs (cur + cells child) d.1,
  )

-- The cell of a string's symbol.
abbrev pub lit_of : Symbols → Bytes → ℕ
lit_of syms str = uint16 (symbol_resolve syms str)

module _ (L P : Symbols) (ret : Bool) where
  pub SymbolsAt-compile_symbols :
      (cs : Segments) (s : Compiling)
      → SymbolsAt (lit_of L) (compile_symbols L P ret cs s).graph s.cur cs
  unfolding compile_symbols
  SymbolsAt-compile_symbols nil s = tt
  SymbolsAt-compile_symbols (cons str child cs) s =
      let s' = reserve (emit s ((lit_of L) str)) in
      (
        Keeps-symbols L P ret s.cur cs s' (inl (omega arith))
            ∙ store_eq s.graph s.cur ((lit_of L) str),
        subst (λ e. SymbolsAt (lit_of L) (compile_symbols L P ret cs s').graph e cs) (omega arith)
            (SymbolsAt-compile_symbols cs s'),
      )

  pub read_pairs-compile_literals :
      (cs : Segments) (edge : ℕ) (s : Compiling)
      → SymbolsAt (lit_of L) s.graph edge cs
      → edge + 2 * child_count cs ≤ s.cur
      → s.cur + cells_children cs ≤ 65536
      → read_pairs (compile_literals L P ret cs edge s).graph edge (child_count cs)
        ≡ children_pairs (lit_of L) cs s.cur
  unfolding read_pairs compile_literals cells
  read_pairs-compile_literals nil edge s at b small = refl
  read_pairs-compile_literals (cons str child cs) edge s at b small =
      let s' = graph_compile L P ret child s in
      let a = assign s' (edge + 1) (uint16 s.cur) in
      let c = cur-graph_compile L P ret child s in
      let below = λ (j : ℕ) (lt : j < s.cur). graph_compile-Keeps L P ret child s j (inl lt) in
      let e₀ : (compile_literals L P ret cs (edge + 2) a).graph edge ≡ (lit_of L) str =
        Keeps-literals L P ret edge cs (edge + 2) a (inl (omega arith)) (inl (omega arith))
        ∙ (store_ne s'.graph (edge + 1) (uint16 s.cur) edge (omega arith)
            ∙ (below edge (omega arith) ∙ at.0)) in
      let e₁ : (compile_literals L P ret cs (edge + 2) a).graph (edge + 1) ≡ s.cur =
        Keeps-literals L P ret (edge + 1) cs (edge + 2) a (inl (omega arith)) (inl (omega arith))
        ∙ (store_eq s'.graph (edge + 1) (uint16 s.cur) ∙ omega (arith, cells_pos child)) in
      let at' =
        SymbolsAt-congr (lit_of L) s.graph a.graph (edge + 2) cs
          (λ j p q.
            store_ne s'.graph (edge + 1) (uint16 s.cur) j (omega arith) ∙ below j (omega arith))
          at.1 in
      let rest = read_pairs-compile_literals cs (edge + 2) a at' (omega arith) (omega arith) in
      ground (arith, ap (children_pairs (lit_of L) cs) c)

-- The search over the sorted edges, in the final graph.
module _ (lit par : Bytes → ℕ) (T : ℕ → Route → Type 0) (g : Cells) where
  -- The children stand one behind the other from the offset `cur` on.
  abbrev pub ChildrenAt : Segments → ℕ → Type 0
  ChildrenAt nil cur = Unit
  ChildrenAt (cons str child cs) cur =
      Represents lit par T g child cur × ChildrenAt cs (cur + cells child)

  module _ (base n : ℕ) (all : Pairs)
      (found : (a o : ℕ) → InEdges a o all → follow_symbol g base n a ≡ some o) where
    pub RepresentsChildren-of :
        (cs : Segments) (cur : ℕ)
        → ((a o : ℕ) → InEdges a o (children_pairs lit cs cur) → InEdges a o all)
        → ChildrenAt cs cur
        → RepresentsChildren lit par T g cs base n
    unfolding Represents
    RepresentsChildren-of nil cur sub at = tt
    RepresentsChildren-of (cons str child cs) cur sub at = (
      cur,
      found (lit str) cur (sub (lit str) cur (inl (refl, refl))),
      at.0,
      RepresentsChildren-of cs (cur + cells child) (λ a o h. sub a o (inr h)) at.1,
    )

  module _ (base n : ℕ) (cs : Segments) (cur : ℕ) (d : DistinctChildren lit cs)
      (reads : read_pairs g base n ≡ sort_edges (children_pairs lit cs cur)) where
    -- Every child is found, at its node.
    pub RepresentsChildren-sorted : ChildrenAt cs cur → RepresentsChildren lit par T g cs base n
    RepresentsChildren-sorted at =
        RepresentsChildren-of base n (children_pairs lit cs cur)
          (λ a o h.
            follow_symbol-found g base n (sort_edges (children_pairs lit cs cur)) reads a o
              (Ascends-sort_edges (children_pairs lit cs cur)
                (DistinctEdges-children_pairs lit cs cur d))
              (InEdges-sort_edges a o (children_pairs lit cs cur) h))
          cs cur (λ a o h. h) at

    -- No other symbol is.
    pub follow_symbol-fresh : (a : ℕ) → FreshChild lit a cs → follow_symbol g base n a ≡ none
    follow_symbol-fresh a f =
        follow_symbol-none g base n (sort_edges (children_pairs lit cs cur)) reads a (
          FreshEdge-sort_edges a (children_pairs lit cs cur)
            (FreshEdge-children_pairs lit a cs cur f))
