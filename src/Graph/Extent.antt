-- ===== src/Graph/Extent.antt =====
-- graph_compile writes to the cells that graph_stats counted, and to no other.
use libwrouter.Base.{
  ℕ, zero, suc, ◌+◌, ◌*◌, ◌≤◌, ◌<◌, ◌≡◌, ◌≢◌, refl, ◌⊎◌, ◌∙◌, List, [], ◌∷◌, Bool, Option, none,
  some, arith, length, ap,
}
use libwrouter.Route.{Route}
use libwrouter.Segment.{
  Node, Special, Segments, node, spec_none, spec_param, spec_wildcard, spec_param_null,
  spec_wildcard_null, nil, cons, child_count,
}
use libwrouter.Symbol.{Symbols, symbol_resolve}
use libwrouter.Graph.Cells.{Cells, uint16, store, write_pairs, read_pairs, sort_edges, insert_edge}
use libwrouter.Graph.Stats.{count_route}
use libwrouter.Graph.Compile.{
  Compiling, emit, reserve, assign, set_flag, terminate, compile_terminal, compile_edges,
  compile_trailing_edge, compile_symbols, compile_leaf, compile_trailing, sort_literals,
  compile_head, graph_compile, compile_literals, compile_special, edges_special,
}
use libwrouter.Graph.Layout.{cells, cells_special, cells_children}

pub store_ne : (g : Cells) (i v j : ℕ) → j ≢ i → store g i v j ≡ g j
unfolding store
store_ne g i v j h = ground arith

pub store_eq : (g : Cells) (i v : ℕ) → store g i v i ≡ v
unfolding store
store_eq g i v = ground arith

-- The cell is in none of the ranges that a step may write to.
abbrev pub Outside : ℕ → ℕ → ℕ → Type 0
Outside j low width = (j < low) ⊎ (low + width ≤ j)

pub write_pairs-Outside :
    (ps : List (ℕ × ℕ)) (g : Cells) (i n j : ℕ)
    → length ps ≡ n
    → Outside j i (2 * n)
    → write_pairs g i ps j ≡ g j
unfolding write_pairs
write_pairs-Outside [] g i n j l o = refl
write_pairs-Outside ((a, b) ∷ ps) g i zero j l o = absurd (omega arith)
write_pairs-Outside ((a, b) ∷ ps) g i (suc n) j l o = ground (
  arith,
  write_pairs-Outside ps (store (store g i a) (i + 1) b) (i + 2) n j,
  store_ne (store g i a) (i + 1) b j,
  store_ne g i a j,
)

pub length-read_pairs : (g : Cells) (i n : ℕ) → length (read_pairs g i n) ≡ n
unfolding read_pairs
length-read_pairs g i zero = refl
length-read_pairs g i (suc n) = ap suc (length-read_pairs g (i + 2) n)

length-insert_edge :
    (a b : ℕ) (ps : List (ℕ × ℕ)) → length (insert_edge (a, b) ps) ≡ suc (length ps)
unfolding insert_edge
length-insert_edge a b [] = refl
length-insert_edge a b ((c, d) ∷ ps) = ground (arith, length-insert_edge a b ps)

pub length-sort_edges : (ps : List (ℕ × ℕ)) → length (sort_edges ps) ≡ length ps
unfolding sort_edges
length-sort_edges [] = refl
length-sort_edges ((a, b) ∷ ps) =
    length-insert_edge a b (sort_edges ps) ∙ ap suc (length-sort_edges ps)

module _ (L P : Symbols) (ret : Bool) where
  pub cur-compile_terminal :
      (t : Option Route) (at : ℕ) (s : Compiling) → ((compile_terminal L P ret t at s).cur ≡ s.cur)
  unfolding compile_terminal terminate
  cur-compile_terminal none at s = refl
  cur-compile_terminal (some r) at s = refl

  cur-compile_edges :
      (sp : Special) (at : ℕ) (s : Compiling)
      → (compile_edges L P ret sp at s).cur ≡ s.cur + edges_special sp
  unfolding compile_edges
  cur-compile_edges spec_none at s = omega arith
  cur-compile_edges (spec_param str child) at s = omega arith
  cur-compile_edges sp at s = omega arith

  cur-compile_trailing_edge :
      (t : Option Route) (at : ℕ) (s : Compiling)
      → (compile_trailing_edge L P ret t at s).cur ≡ s.cur + count_route t
  unfolding compile_trailing_edge
  cur-compile_trailing_edge none at s = omega arith
  cur-compile_trailing_edge (some r) at s = omega arith

  pub cur-compile_head :
      (t u : Option Route) (sp : Special) (cs : Segments) (s : Compiling)
      → (compile_head L P ret (node t u sp cs) s).cur ≡ s.cur + 1 + edges_special sp + count_route u
  unfolding compile_head
  cur-compile_head t u sp cs s =
      let s₁ = set_flag (reserve s) s.cur (child_count cs) in
      let s₂ = compile_terminal L P ret t s.cur s₁ in
      omega (
        arith,
        cur-compile_terminal t s.cur s₁,
        cur-compile_edges sp s.cur s₂,
        cur-compile_trailing_edge u s.cur (compile_edges L P ret sp s.cur s₂),
      )

  pub cur-compile_symbols :
      (cs : Segments) (s : Compiling)
      → (compile_symbols L P ret cs s).cur ≡ s.cur + 2 * child_count cs
  unfolding compile_symbols
  cur-compile_symbols nil s = omega arith
  cur-compile_symbols (cons str child cs) s =
      omega (arith, cur-compile_symbols cs (reserve (emit s (uint16 (symbol_resolve L str)))))

  pub cur-compile_leaf :
      (edge : ℕ) (r : Route) (s : Compiling) → (compile_leaf L P ret edge r s).cur ≡ s.cur + 1
  unfolding compile_leaf terminate
  cur-compile_leaf edge r s = refl

  pub cur-compile_trailing :
      (t : Option Route) (edge : ℕ) (s : Compiling)
      → (compile_trailing L P ret t edge s).cur ≡ s.cur + count_route t
  unfolding compile_trailing
  cur-compile_trailing none edge s = omega arith
  cur-compile_trailing (some r) edge s = cur-compile_leaf edge r s

  pub cur-sort_literals :
      (base n : ℕ) (s : Compiling) → (sort_literals L P ret base n s).cur ≡ s.cur
  unfolding sort_literals
  cur-sort_literals base n s = refl

  -- The steps of graph_compile at a node, named.
  module _ (t u : Option Route) (sp : Special) (cs : Segments) (s : Compiling) where
    abbrev pub after_head : Compiling
    after_head = compile_head L P ret (node t u sp cs) s

    abbrev pub after_symbols : Compiling
    after_symbols = compile_symbols L P ret cs after_head

    abbrev pub after_literals : Compiling
    after_literals = compile_literals L P ret cs after_head.cur after_symbols

    abbrev pub after_sort : Compiling
    after_sort = sort_literals L P ret after_head.cur (child_count cs) after_literals

    abbrev pub after_special : Compiling
    after_special = compile_special L P ret sp (s.cur + 1) after_sort

  mutual
    unfolding graph_compile cells

    cur-node : (n : Node) (s : Compiling) → (graph_compile L P ret n s).cur ≡ s.cur + cells n
    cur-node (node t u sp cs) s = omega (
      arith,
      cur-compile_head t u sp cs s,
      cur-compile_symbols cs (after_head t u sp cs s),
      cur-children cs (after_head t u sp cs s).cur (after_symbols t u sp cs s),
      cur-sort_literals (after_head t u sp cs s).cur (child_count cs) (after_literals t u sp cs s),
      cur-special sp (s.cur + 1) (after_sort t u sp cs s),
      cur-compile_trailing u (s.cur + 1 + edges_special sp) (after_special t u sp cs s),
    )

    cur-children :
        (cs : Segments) (edge : ℕ) (s : Compiling)
        → (compile_literals L P ret cs edge s).cur ≡ s.cur + cells_children cs
    cur-children nil edge s = omega arith
    cur-children (cons str child cs) edge s = omega (
      arith,
      cur-node child s,
      cur-children cs (edge + 2) (assign (graph_compile L P ret child s) (edge + 1) (uint16 s.cur)),
    )

    cur-special :
        (sp : Special) (edge : ℕ) (s : Compiling)
        → (compile_special L P ret sp edge s).cur ≡ s.cur + cells_special sp
    cur-special (spec_param str child) edge s = cur-node child s
    cur-special (spec_wildcard r) edge s = cur-compile_leaf edge r s
    cur-special spec_none edge s = omega arith
    cur-special spec_param_null edge s = omega arith
    cur-special spec_wildcard_null edge s = omega arith

  -- graph_compile moves the cursor by the number of cells of the tree.
  pub cur-graph_compile :
      (n : Node) (s : Compiling) → (graph_compile L P ret n s).cur ≡ s.cur + cells n
  cur-graph_compile n s = cur-node n s

  pub cur-compile_literals :
      (cs : Segments) (edge : ℕ) (s : Compiling)
      → (compile_literals L P ret cs edge s).cur ≡ s.cur + cells_children cs
  cur-compile_literals cs edge s = cur-children cs edge s

  pub cur-compile_special :
      (sp : Special) (edge : ℕ) (s : Compiling)
      → (compile_special L P ret sp edge s).cur ≡ s.cur + cells_special sp
  cur-compile_special sp edge s = cur-special sp edge s
