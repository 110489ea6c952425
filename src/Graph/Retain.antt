-- ===== src/Graph/Retain.antt =====
-- The calls of the retain callback in graph_compile.
use libwrouter.Base.{
  append_assoc, ℕ, ◌+◌, ◌≡◌, refl, sym, ◌∙◌, ap, List, [], ◌∷◌, ◌++◌, true, false, Option, none,
  some,
}
use libwrouter.Route.{Route}
use libwrouter.Segment.{
  Node, Special, Segments, node, spec_none, spec_param, spec_wildcard, spec_param_null,
  spec_wildcard_null, nil, cons, child_count,
}
use libwrouter.Symbol.{Symbols, symbol_resolve}
use libwrouter.Terminal.{terminal_append}
use libwrouter.Graph.Cells.{uint16}
use libwrouter.Graph.Compile.{
  Compiling, emit, reserve, assign, set_flag, terminate, compile_terminal, compile_edges,
  compile_trailing_edge, compile_symbols, compile_leaf, compile_trailing, sort_literals,
  compile_head, graph_compile, compile_literals, compile_special, edges_special,
}

-- The contexts of the dictionary's routes, in order.
abbrev pub contexts : List Route → List ℕ
contexts [] = []
contexts (r ∷ rs) = r.ctx ∷ contexts rs

contexts-append :
    (rs : List Route) (r : Route) → contexts (rs ++ r ∷ []) ≡ contexts rs ++ r.ctx ∷ []
contexts-append [] r = refl
contexts-append (q ∷ rs) r = ap (λ cs. q.ctx ∷ cs) (contexts-append rs r)

-- What has been retained behind `earlier` are the contexts of the dictionary, which has not been
-- freed.
abbrev pub IsBalanced : List ℕ → Compiling → Type 0
IsBalanced earlier s =
    (s.retained ≡ earlier ++ contexts s.terminals.base) × (s.terminals.freed ≡ false)

module _ (L P : Symbols) (earlier : List ℕ) where
  IsBalanced-terminate :
      (s : Compiling) (ref : ℕ) (r : Route)
      → IsBalanced earlier s
      → IsBalanced earlier (terminate L P true s ref r)
  unfolding terminate terminal_append
  IsBalanced-terminate s ref r h = (
    ap (λ l. l ++ r.ctx ∷ []) h.0
        ∙ (append_assoc earlier (contexts s.terminals.base) (r.ctx ∷ [])
            ∙ ap (λ l. earlier ++ l) (sym (contexts-append s.terminals.base r))),
    h.1,
  )

  IsBalanced-terminal :
      (t : Option Route) (at : ℕ) (s : Compiling)
      → IsBalanced earlier s
      → IsBalanced earlier (compile_terminal L P true t at s)
  unfolding compile_terminal
  IsBalanced-terminal none at s h = h
  IsBalanced-terminal (some r) at s h = IsBalanced-terminate (set_flag s at 4096) at r h

  IsBalanced-edges :
      (sp : Special) (at : ℕ) (s : Compiling)
      → IsBalanced earlier s
      → IsBalanced earlier (compile_edges L P true sp at s)
  unfolding compile_edges
  IsBalanced-edges (spec_param str child) at s h = h
  IsBalanced-edges (spec_wildcard r) at s h = h
  IsBalanced-edges spec_none at s h = h
  IsBalanced-edges spec_param_null at s h = h
  IsBalanced-edges spec_wildcard_null at s h = h

  IsBalanced-trailing_edge :
      (t : Option Route) (at : ℕ) (s : Compiling)
      → IsBalanced earlier s
      → IsBalanced earlier (compile_trailing_edge L P true t at s)
  unfolding compile_trailing_edge
  IsBalanced-trailing_edge none at s h = h
  IsBalanced-trailing_edge (some r) at s h = h

  IsBalanced-symbols :
      (cs : Segments) (s : Compiling)
      → IsBalanced earlier s
      → IsBalanced earlier (compile_symbols L P true cs s)
  unfolding compile_symbols
  IsBalanced-symbols nil s h = h
  IsBalanced-symbols (cons str child cs) s h =
      IsBalanced-symbols cs (reserve (emit s (uint16 (symbol_resolve L str)))) h

  IsBalanced-leaf :
      (edge : ℕ) (r : Route) (s : Compiling)
      → IsBalanced earlier s
      → IsBalanced earlier (compile_leaf L P true edge r s)
  unfolding compile_leaf
  IsBalanced-leaf edge r s h =
      IsBalanced-terminate (assign (set_flag (reserve s) s.cur 4096) edge (uint16 s.cur)) s.cur r h

  IsBalanced-trailing :
      (t : Option Route) (edge : ℕ) (s : Compiling)
      → IsBalanced earlier s
      → IsBalanced earlier (compile_trailing L P true t edge s)
  unfolding compile_trailing
  IsBalanced-trailing none edge s h = h
  IsBalanced-trailing (some r) edge s h = IsBalanced-leaf edge r s h

  IsBalanced-head :
      (n : Node) (s : Compiling)
      → IsBalanced earlier s
      → IsBalanced earlier (compile_head L P true n s)
  unfolding compile_head
  IsBalanced-head (node t u sp cs) s h = IsBalanced-trailing_edge u s.cur _ (
      IsBalanced-edges sp s.cur _
        (IsBalanced-terminal t s.cur (set_flag (reserve s) s.cur (child_count cs)) h))

  mutual
    unfolding graph_compile sort_literals

    IsBalanced-node :
        (n : Node) (s : Compiling)
        → IsBalanced earlier s
        → IsBalanced earlier (graph_compile L P true n s)
    IsBalanced-node (node t u sp cs) s h =
        let s₁ = compile_head L P true (node t u sp cs) s in
        let s₂ = compile_symbols L P true cs s₁ in
        let s₃ = compile_literals L P true cs s₁.cur s₂ in
        let s₄ = sort_literals L P true s₁.cur (child_count cs) s₃ in
        let h₂ = IsBalanced-symbols cs s₁ (IsBalanced-head (node t u sp cs) s h) in
        let h₃ = IsBalanced-children cs s₁.cur s₂ h₂ in
        IsBalanced-trailing u (s.cur + 1 + edges_special sp)
          (compile_special L P true sp (s.cur + 1) s₄) (IsBalanced-special sp (s.cur + 1) s₄ h₃)

    IsBalanced-children :
        (cs : Segments) (edge : ℕ) (s : Compiling)
        → IsBalanced earlier s
        → IsBalanced earlier (compile_literals L P true cs edge s)
    IsBalanced-children nil edge s h = h
    IsBalanced-children (cons str child cs) edge s h =
        IsBalanced-children cs (edge + 2)
          (assign (graph_compile L P true child s) (edge + 1) (uint16 s.cur))
          (IsBalanced-node child s h)

    IsBalanced-special :
        (sp : Special) (edge : ℕ) (s : Compiling)
        → IsBalanced earlier s
        → IsBalanced earlier (compile_special L P true sp edge s)
    IsBalanced-special (spec_param str child) edge s h = IsBalanced-node child s h
    IsBalanced-special (spec_wildcard r) edge s h = IsBalanced-leaf edge r s h
    IsBalanced-special spec_none edge s h = h
    IsBalanced-special spec_param_null edge s h = h
    IsBalanced-special spec_wildcard_null edge s h = h

  -- With a retain callback, graph_compile keeps what has been retained in step with the dictionary.
  pub graph_compile-IsBalanced :
      (n : Node) (s : Compiling)
      → IsBalanced earlier s
      → IsBalanced earlier (graph_compile L P true n s)
  graph_compile-IsBalanced n s h = IsBalanced-node n s h
