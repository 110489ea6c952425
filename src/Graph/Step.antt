-- ===== src/Graph/Step.antt =====
-- The steps of graph_compile at one node, seen from its end: which step wrote the value that a cell
-- of the node has in the final graph.
use libwrouter.Base.{ℕ, ◌+◌, ◌*◌, ◌≤◌, ◌<◌, ◌≡◌, ◌∙◌, ap, ◌⊎◌, inl, inr, Bool, Option, arith}
use libwrouter.Route.{Route}
use libwrouter.Segment.{Special, Segments, node, child_count}
use libwrouter.Symbol.{Symbols}
use libwrouter.Graph.Cells.{Cells, read_pairs, sort_edges}
use libwrouter.Graph.Stats.{count_route}
use libwrouter.Graph.Compile.{
  Compiling, graph_compile, compile_trailing, sort_literals, edges_special,
}
use libwrouter.Graph.Layout.{cells, cells_special, cells_children}
use libwrouter.Graph.Extent.{
  length-read_pairs, length-sort_edges, cur-compile_head, cur-compile_symbols, cur-sort_literals,
  cur-compile_literals, cur-compile_special, after_head, after_symbols, after_literals, after_sort,
  after_special,
}
use libwrouter.Graph.Frame.{
  Keeps-head, Keeps-symbols, Keeps-trailing, Keeps-sort, Keeps-literals, Keeps-compile_special,
}
use libwrouter.Graph.Word.{word-compile_head}
use libwrouter.Graph.Follow.{read_pairs-write_pairs, read_pairs_congr}
use libwrouter.Graph.Literals.{
  lit_of, children_pairs, SymbolsAt-compile_symbols, read_pairs-compile_literals,
}
use libwrouter.Graph.Represents.{word}

-- From the cursor on the next cells are still zero.
abbrev pub Fresh : Compiling → ℕ → Type 0
Fresh s width = (j : ℕ) → s.cur ≤ j → j < s.cur + width → s.graph j ≡ 0

-- The cells of a range have the values that they have at the end.
abbrev pub Final : Cells → Compiling → ℕ → ℕ → Type 0
Final g s low width = (j : ℕ) → low ≤ j → j < low + width → g j ≡ s.graph j

module _ (L P : Symbols) (ret : Bool) (t u : Option Route) (sp : Special) (cs : Segments)
    (s : Compiling) where
  abbrev s₁ : Compiling
  s₁ = after_head L P ret t u sp cs s

  abbrev s₂ : Compiling
  s₂ = after_symbols L P ret t u sp cs s

  abbrev s₃ : Compiling
  s₃ = after_literals L P ret t u sp cs s

  abbrev s₄ : Compiling
  s₄ = after_sort L P ret t u sp cs s

  abbrev s₅ : Compiling
  s₅ = after_special L P ret t u sp cs s

  -- The cursor after each step.
  pub record Cursors : Type 0 where
    pub head : s₁.cur ≡ s.cur + 1 + edges_special sp + count_route u
    pub symbols : s₂.cur ≡ s₁.cur + 2 * child_count cs
    pub literals : s₃.cur ≡ s₂.cur + cells_children cs
    pub sort : s₄.cur ≡ s₃.cur
    pub special : s₅.cur ≡ s₄.cur + cells_special sp

  pub cursors : Cursors
  cursors = record {
    head = cur-compile_head L P ret t u sp cs s;
    symbols = cur-compile_symbols L P ret cs s₁;
    literals = cur-compile_literals L P ret cs s₁.cur s₂;
    sort = cur-sort_literals L P ret s₁.cur (child_count cs) s₃;
    special = cur-compile_special L P ret sp (s.cur + 1) s₄;
  }

  -- The head's cells are not touched until the special step.
  pub head_cell : (j : ℕ) → j < s₁.cur → s₄.graph j ≡ s₁.graph j
  head_cell j h =
      let c = cursors in
      Keeps-sort L P ret j s₁.cur (child_count cs) s₃ (inl h)
      ∙ (Keeps-literals L P ret j cs s₁.cur s₂ (inl h) (inl (omega arith))
          ∙ Keeps-symbols L P ret j cs s₁ (inl h))

  module _ (fresh : Fresh s (cells (node t u sp cs))) where
    pub Fresh-children : Fresh s₂ (cells_children cs)
    unfolding cells
    Fresh-children j p q =
        let c = cursors in
        Keeps-symbols L P ret j cs s₁ (inr (omega arith))
        ∙ (Keeps-head L P ret j t u sp cs s (inr (omega arith))
            ∙ fresh j (omega arith) (omega arith))

    pub Fresh-special : Fresh s₄ (cells_special sp)
    unfolding cells
    Fresh-special j p q =
        let c = cursors in
        Keeps-sort L P ret j s₁.cur (child_count cs) s₃ (inr (omega arith))
        ∙ (Keeps-literals L P ret j cs s₁.cur s₂ (inr (omega arith)) (inr (omega arith))
            ∙ (Keeps-symbols L P ret j cs s₁ (inr (omega arith))
                ∙ (Keeps-head L P ret j t u sp cs s (inr (omega arith))
                    ∙ fresh j (omega arith) (omega arith))))

  module _ (g : Cells)
      (final : Final g
        (graph_compile L P ret (node t u sp cs) s)
        s.cur
        (cells (node t u sp cs))) where
    -- The trailing step has its edge and its node.
    pub Final-trailing :
        Final g
          (compile_trailing L P ret u (s.cur + 1 + edges_special sp) s₅)
          (s.cur + 1 + edges_special sp)
          (count_route u)
    unfolding graph_compile cells
    Final-trailing j p q = final j (omega arith) (omega arith)

    final_before :
        (j : ℕ)
        → s.cur ≤ j
        → j < s₅.cur
        → (j < s.cur + 1 + edges_special sp) ⊎ (s.cur + 1 + edges_special sp + count_route u ≤ j)
        → g j ≡ s₅.graph j
    unfolding graph_compile cells
    final_before j p q o =
        let c = cursors in
        final j p (omega arith)
        ∙ Keeps-trailing L P ret j u (s.cur + 1 + edges_special sp) s₅ o (inl q)

    pub Final-special_edges : Final g s₅ (s.cur + 1) (edges_special sp)
    Final-special_edges j p q =
        let c = cursors in final_before j (omega arith) (omega arith) (inl q)

    pub Final-special : Final g s₅ s₄.cur (cells_special sp)
    Final-special j p q =
        let c = cursors in final_before j (omega arith) (omega arith) (inr (omega arith))

    final_sorted : (j : ℕ) → s₁.cur ≤ j → j < s₄.cur → g j ≡ s₄.graph j
    final_sorted j p q =
        let c = cursors in
        final_before j (omega arith) (omega arith) (inr (omega arith))
        ∙ Keeps-compile_special L P ret j sp (s.cur + 1) s₄ (inr (omega arith)) (inl q)

    pub Final-children : Final g s₃ s₂.cur (cells_children cs)
    Final-children j p q =
        let c = cursors in
        final_sorted j (omega arith) (omega arith)
        ∙ Keeps-sort L P ret j s₁.cur (child_count cs) s₃ (inr (omega arith))

    pub final_word : s.graph s.cur ≡ 0 → child_count cs ≤ 4095 → g s.cur ≡ word t u sp cs
    final_word zero small =
        let c = cursors in
        final_before s.cur (omega arith) (omega arith) (inl (omega arith))
        ∙ (Keeps-compile_special L P ret s.cur sp (s.cur + 1) s₄ (inl (omega arith))
              (inl (omega arith))
            ∙ (head_cell s.cur (omega arith) ∙ word-compile_head L P ret t u sp cs s zero small))

    -- The literal edges are the sorted edges of the children.
    pub final_edges :
        s.cur + cells (node t u sp cs) ≤ 65536
        → read_pairs g s₁.cur (child_count cs) ≡ sort_edges (children_pairs (lit_of L) cs s₂.cur)
    unfolding cells sort_literals
    final_edges small =
        let c = cursors in
        let n = child_count cs in
        let ps = read_pairs s₃.graph s₁.cur n in
        read_pairs_congr g s₄.graph s₁.cur n (λ j p q. final_sorted j p (omega arith))
        ∙ (read_pairs-write_pairs (sort_edges ps) s₃.graph s₁.cur n
              (length-sort_edges ps ∙ length-read_pairs s₃.graph s₁.cur n)
            ∙ ap sort_edges (
                read_pairs-compile_literals L P ret cs s₁.cur s₂
                  (SymbolsAt-compile_symbols L P ret cs s₁) (omega arith) (omega arith)))
