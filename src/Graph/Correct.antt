-- ===== src/Graph/Correct.antt =====
-- graph_compile is correct: where it has run, the cells represent the tree.
use mathlib.Core.Path.{subst}
use libwrouter.Base.{
  ℕ, ◌+◌, ◌*◌, ◌≤◌, ◌<◌, ◌≡◌, refl, ◌∙◌, sym, inl, inr, Bool, Option, some, none, arith,
}
use libwrouter.Text.{Bytes}
use libwrouter.Route.{Route}
use libwrouter.Terminal.Lookup.{Holds}
use libwrouter.Segment.{
  Node, Special, Segments, node, spec_none, spec_param, spec_wildcard, spec_param_null,
  spec_wildcard_null, nil, cons, child_count,
}
use libwrouter.Symbol.{Symbols}
use libwrouter.Graph.Cells.{Cells, uint16, flag_terminal}
use libwrouter.Graph.Stats.{count_route}
use libwrouter.Graph.Compile.{
  Compiling, assign, set_flag, reserve, graph_compile, compile_literals, compile_special,
  compile_trailing, compile_leaf, edges_special,
}
use libwrouter.Graph.Layout.{cells, cells_special, cells_children}
use libwrouter.Graph.Extent.{
  store_ne, store_eq, cur-graph_compile, after_head, after_symbols, after_literals, after_sort,
  after_special,
}
use libwrouter.Graph.Frame.{Keeps-literals, graph_compile-Keeps}
use libwrouter.Graph.Keys.{
  Keyed, Extends-head, Holds-head, Extends-leaf, Extends-symbols, Extends-sort, Extends-assign,
  Extends-trailing_node, Extends-compile_literals, Extends-special, Extends-graph_compile,
}
use libwrouter.Graph.Word.{symbol-compile_head}
use libwrouter.Graph.Literals.{
  cells_pos, ChildrenAt, lit_of, RepresentsChildren-sorted, follow_symbol-fresh,
}
use libwrouter.Graph.Step.{
  Fresh, Final, cursors, head_cell, Fresh-children, Fresh-special, Final-trailing,
  Final-special_edges, Final-special, Final-children, final_word, final_edges,
}
use libwrouter.Router.{follow_symbol}
use libwrouter.Graph.Represents.{
  Entry, IsCompilable, IsCompilableSpecial, IsCompilableChildren, Represents, RepresentsSpecial,
  RepresentsChildren, FreshChild,
}

module _ (L P : Symbols) (ret : Bool) (T : ℕ → Route → Type 0) (g : Cells) where
  abbrev lit : Bytes → ℕ
  lit = lit_of L

  abbrev par : Bytes → ℕ
  par = lit_of P

  -- All entries so far are in the final dictionary.
  abbrev Kept : Compiling → Type 0
  Kept s = (k : ℕ) (r : Route) → Holds s.terminals k r → T k r

  correct_leaf :
      (edge : ℕ) (r : Route) (s : Compiling)
      → Keyed s
      → s.cur < 65536
      → Final g (compile_leaf L P ret edge r s) edge 1
      → Kept (compile_leaf L P ret edge r s)
      → T (g edge) r
  unfolding compile_leaf
  correct_leaf edge r s k small final kept =
      let (e, h) = Extends-leaf L P ret edge r s k small in
      let at : g edge ≡ s.cur =
        final edge (omega arith) (omega arith)
        ∙ (store_eq (set_flag (reserve s) s.cur flag_terminal).graph edge (uint16 s.cur)
            ∙ omega arith) in
      subst (λ o. T o r) (sym at) (kept s.cur r h)

  correct_trailing :
      (u : Option Route) (edge : ℕ) (s : Compiling)
      → Keyed s
      → s.cur + count_route u ≤ 65536
      → Final g (compile_trailing L P ret u edge s) edge (count_route u)
      → Kept (compile_trailing L P ret u edge s)
      → Entry lit par T g u (g edge)
  unfolding compile_trailing
  correct_trailing none edge s k small final kept = tt
  correct_trailing (some r) edge s k small final kept =
      correct_leaf edge r s k (omega arith) final kept

  -- The symbol of a parameter stands at its edge.
  abbrev HasSymbol : Special → ℕ → Type 0
  HasSymbol (spec_param str child) v = v ≡ par str
  HasSymbol _ v = Unit

  has_symbol :
      (t u : Option Route) (sp : Special) (cs : Segments) (s : Compiling)
      → HasSymbol sp ((after_head L P ret t u sp cs s).graph (s.cur + 1))
  has_symbol t u (spec_param str child) cs s = symbol-compile_head L P ret t u str child cs s
  has_symbol t u spec_none cs s = tt
  has_symbol t u (spec_wildcard r) cs s = tt
  has_symbol t u spec_param_null cs s = tt
  has_symbol t u spec_wildcard_null cs s = tt

  HasSymbol-congr :
      (sp : Special) {v w : ℕ} → (0 < edges_special sp → w ≡ v) → HasSymbol sp v → HasSymbol sp w
  HasSymbol-congr (spec_param str child) e h = e (omega arith) ∙ h
  HasSymbol-congr spec_none e h = tt
  HasSymbol-congr (spec_wildcard r) e h = tt
  HasSymbol-congr spec_param_null e h = tt
  HasSymbol-congr spec_wildcard_null e h = tt

  correct_terminal :
      (t u : Option Route) (sp : Special) (cs : Segments) (s : Compiling)
      → Keyed s
      → s.cur < 65536
      → Kept (after_head L P ret t u sp cs s)
      → Entry lit par T g t s.cur
  correct_terminal none u sp cs s k small kept = tt
  correct_terminal (some r) u sp cs s k small kept =
      kept s.cur r (Holds-head L P ret r u sp cs s k small)

  mutual
    unfolding graph_compile cells Represents IsCompilable

    correct_node :
        (n : Node) (s : Compiling)
        → Keyed s
        → IsCompilable lit n
        → Fresh s (cells n)
        → s.cur + cells n ≤ 65536
        → Final g (graph_compile L P ret n s) s.cur (cells n)
        → Kept (graph_compile L P ret n s)
        → Represents lit par T g n s.cur
    correct_node (node t u sp cs) s k c fresh small final kept =
        let s₁ = after_head L P ret t u sp cs s in
        let s₂ = after_symbols L P ret t u sp cs s in
        let s₃ = after_literals L P ret t u sp cs s in
        let s₄ = after_sort L P ret t u sp cs s in
        let s₅ = after_special L P ret t u sp cs s in
        let x = cursors L P ret t u sp cs s in
        let at = s.cur + 1 + edges_special sp in
        let e₁ = Extends-head L P ret t u sp cs s k (omega arith) in
        let e₂ = Extends-symbols L P ret cs s₁ e₁.keyed in
        let e₃ = Extends-compile_literals L P ret cs s₁.cur s₂ e₂.keyed (omega arith) in
        let e₄ = Extends-sort L P ret s₁.cur (child_count cs) s₃ e₃.keyed in
        let e₅ = Extends-special L P ret sp (s.cur + 1) s₄ e₄.keyed (omega arith) in
        let e₆ = Extends-trailing_node L P ret u at s₅ e₅.keyed (omega arith) in
        let kept₅ = λ (a : ℕ) (r : Route) (h : Holds s₅.terminals a r). kept a r (e₆.grows a r h) in
        let kept₃ = λ (a : ℕ) (r : Route) (h : Holds s₃.terminals a r).
          kept₅ a r (e₅.grows a r (e₄.grows a r h)) in
        let kept₁ = λ (a : ℕ) (r : Route) (h : Holds s₁.terminals a r).
          kept₃ a r (e₃.grows a r (e₂.grows a r h)) in
        let children =
          correct_children cs s₁.cur s₂ e₂.keyed c.3 (Fresh-children L P ret t u sp cs s fresh)
            (omega arith) (omega arith) (Final-children L P ret t u sp cs s g final) kept₃ in
        let edges = final_edges L P ret t u sp cs s g final small in
        (
          final_word L P ret t u sp cs s g final (fresh s.cur (omega arith) (omega arith)) c.0,
          correct_terminal t u sp cs s k (omega arith) kept₁,
          correct_special sp (s.cur + 1) s₄ e₄.keyed c.2
              (HasSymbol-congr sp (λ h. head_cell L P ret t u sp cs s (s.cur + 1) (omega arith))
                (has_symbol t u sp cs s))
              (Fresh-special L P ret t u sp cs s fresh) (omega arith) (omega arith)
              (Final-special_edges L P ret t u sp cs s g final)
              (Final-special L P ret t u sp cs s g final) kept₅,
          correct_trailing u at s₅ e₅.keyed (omega arith)
              (Final-trailing L P ret t u sp cs s g final) kept,
          subst (λ b. RepresentsChildren lit par T g cs b (child_count cs)) x.head
              (RepresentsChildren-sorted lit par T g s₁.cur (child_count cs) cs s₂.cur c.1 edges
                children),
          subst (λ b. (a : ℕ) → FreshChild lit a cs → follow_symbol g b (child_count cs) a ≡ none)
              x.head (follow_symbol-fresh lit par T g s₁.cur (child_count cs) cs s₂.cur c.1 edges),
          c.0,
        )

    correct_children :
        (cs : Segments) (edge : ℕ) (s : Compiling)
        → Keyed s
        → IsCompilableChildren lit cs
        → Fresh s (cells_children cs)
        → edge + 2 * child_count cs ≤ s.cur
        → s.cur + cells_children cs ≤ 65536
        → Final g (compile_literals L P ret cs edge s) s.cur (cells_children cs)
        → Kept (compile_literals L P ret cs edge s)
        → ChildrenAt lit par T g cs s.cur
    correct_children nil edge s k c fresh b small final kept = tt
    correct_children (cons str child cs) edge s k c fresh b small final kept =
        let s' = graph_compile L P ret child s in
        let a = assign s' (edge + 1) (uint16 s.cur) in
        let cur = cur-graph_compile L P ret child s in
        let e₁ = Extends-graph_compile L P ret child s k (omega arith) in
        let e₁' = Extends-assign L P ret (edge + 1) (uint16 s.cur) e₁ in
        let e₂ = Extends-compile_literals L P ret cs (edge + 2) a e₁'.keyed (omega arith) in
        (
          correct_node child s k c.0 (λ j p q. fresh j p (omega arith)) (omega arith)
              (λ j p q.
                final j p (omega arith)
                ∙ (Keeps-literals L P ret j cs (edge + 2) a (inr (omega arith)) (inl (omega arith))
                    ∙ store_ne s'.graph (edge + 1) (uint16 s.cur) j (omega arith)))
              (λ j r h. kept j r (e₂.grows j r h)),
          subst (ChildrenAt lit par T g cs) cur (
              correct_children cs (edge + 2) a e₁'.keyed c.1
                (λ j p q.
                  store_ne s'.graph (edge + 1) (uint16 s.cur) j (omega arith)
                  ∙ (graph_compile-Keeps L P ret child s j (inr (omega arith))
                      ∙ fresh j (omega arith) (omega arith)))
                (omega arith) (omega arith) (λ j p q. final j (omega arith) (omega arith)) kept),
        )

    correct_special :
        (sp : Special) (edge : ℕ) (s : Compiling)
        → Keyed s
        → IsCompilableSpecial lit sp
        → HasSymbol sp (s.graph edge)
        → Fresh s (cells_special sp)
        → edge + edges_special sp ≤ s.cur
        → s.cur + cells_special sp ≤ 65536
        → Final g (compile_special L P ret sp edge s) edge (edges_special sp)
        → Final g (compile_special L P ret sp edge s) s.cur (cells_special sp)
        → Kept (compile_special L P ret sp edge s)
        → RepresentsSpecial lit par T g sp edge
    correct_special (spec_param str child) edge s k c at fresh b small edges final kept =
        let s' = graph_compile L P ret child s in
        let target : g (edge + 1) ≡ s.cur =
          edges (edge + 1) (omega arith) (omega arith)
          ∙ (store_eq s'.graph (edge + 1) (uint16 s.cur) ∙ omega (arith, cells_pos child)) in
        (
          edges edge (omega arith) (omega arith)
              ∙ (store_ne s'.graph (edge + 1) (uint16 s.cur) edge (omega arith)
                  ∙ (graph_compile-Keeps L P ret child s edge (inl (omega arith)) ∙ at)),
          subst (Represents lit par T g child) (sym target) (
              correct_node child s k c fresh small
                (λ j p q. final j p q ∙ store_ne s'.graph (edge + 1) (uint16 s.cur) j (omega arith))
                kept),
        )
    correct_special (spec_wildcard r) edge s k c at fresh b small edges final kept =
        correct_leaf edge r s k (omega arith) edges kept
    correct_special spec_none edge s k c at fresh b small edges final kept = tt
    correct_special spec_param_null edge s k c at fresh b small edges final kept = c
    correct_special spec_wildcard_null edge s k c at fresh b small edges final kept = c

-- From a dictionary with ascending keys below the cursor, in a graph of at most 65536 cells, of which
-- those of the tree are still zero, graph_compile leaves cells and a dictionary that represent the tree
-- at the cursor. The tree has no NULL, and at every node at most 4095 children, of different symbols.
pub graph_compile_correct :
    (L P : Symbols) (ret : Bool) (n : Node) (s : Compiling)
    → Keyed s
    → IsCompilable (lit_of L) n
    → Fresh s (cells n)
    → s.cur + cells n ≤ 65536
    → Represents
        (lit_of L)
        (lit_of P)
        (Holds (graph_compile L P ret n s).terminals)
        (graph_compile L P ret n s).graph
        n
        s.cur
graph_compile_correct L P ret n s k c fresh small =
    let s' = graph_compile L P ret n s in
    correct_node L P ret (Holds s'.terminals) s'.graph n s k c fresh small (λ j p q. refl)
      (λ a r h. h)
