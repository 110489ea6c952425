-- ===== src/Graph/Word.antt =====
-- The cells that graph_compile writes at the head of a node.
use libwrouter.Base.{
  ℕ, ◌+◌, ◌*◌, ◌≤◌, ◌<◌, ◌≡◌, ◌≢◌, refl, ◌∙◌, ap, Bool, Option, none, some, arith, bit_or,
}
use libwrouter.Base.Bits.{bit_or_pow, zero-bit_or}
use libwrouter.Text.{Bytes}
use libwrouter.Route.{Route}
use libwrouter.Segment.{
  Node, Special, Segments, node, spec_none, spec_param, spec_wildcard, child_count,
}
use libwrouter.Symbol.{Symbols, symbol_resolve}
use libwrouter.Graph.Cells.{uint16, flag_has_param}
use libwrouter.Graph.Stats.{count_route}
use libwrouter.Graph.Compile.{
  Compiling, reserve, set_flag, compile_terminal, compile_edges, compile_trailing_edge,
  compile_head, terminate,
}
use libwrouter.Graph.Extent.{store_ne, store_eq, cur-compile_terminal}
use libwrouter.Graph.Represents.{word, param_bit, wildcard_bit}

module _ (L P : Symbols) (ret : Bool) where
  word_terminal :
      (t : Option Route) (at : ℕ) (s : Compiling) (w : ℕ)
      → s.graph at ≡ w
      → w < 4096
      → (compile_terminal L P ret t at s).graph at ≡ w + 4096 * count_route t
  unfolding compile_terminal terminate
  word_terminal none at s w e h = omega arith
  word_terminal (some r) at s w e h =
      store_eq s.graph at (bit_or (s.graph at) 4096)
      ∙ (ap (λ v. bit_or v 4096) e ∙ (bit_or_pow 12 w h ∙ omega arith))

  word_edges :
      (sp : Special) (at : ℕ) (s : Compiling) (w : ℕ)
      → s.graph at ≡ w
      → w < 8192
      → at < s.cur
      → (compile_edges L P ret sp at s).graph at ≡ w + 8192 * param_bit sp + 16384 * wildcard_bit sp
  unfolding compile_edges
  word_edges spec_none at s w e h lt = omega arith
  word_edges (spec_param str child) at s w e h lt =
      let s' = set_flag s at flag_has_param in
      store_ne s'.graph s.cur (uint16 (symbol_resolve P str)) at (omega arith)
      ∙ (store_eq s.graph at (bit_or (s.graph at) 8192)
          ∙ (ap (λ v. bit_or v 8192) e ∙ (bit_or_pow 13 w h ∙ omega arith)))
  word_edges (spec_wildcard r) at s w e h lt =
      store_eq s.graph at (bit_or (s.graph at) 16384)
      ∙ (ap (λ v. bit_or v 16384) e ∙ (bit_or_pow 14 w (omega arith) ∙ omega arith))
  word_edges sp at s w e h lt = omega arith

  word_trailing :
      (u : Option Route) (at : ℕ) (s : Compiling) (w : ℕ)
      → s.graph at ≡ w
      → w < 32768
      → (compile_trailing_edge L P ret u at s).graph at ≡ w + 32768 * count_route u
  unfolding compile_trailing_edge
  word_trailing none at s w e h = omega arith
  word_trailing (some r) at s w e h =
      store_eq s.graph at (bit_or (s.graph at) 32768)
      ∙ (ap (λ v. bit_or v 32768) e ∙ (bit_or_pow 15 w h ∙ omega arith))

  Keeps-trailing_edge :
      (u : Option Route) (at : ℕ) (s : Compiling) (j : ℕ)
      → j ≢ at
      → (compile_trailing_edge L P ret u at s).graph j ≡ s.graph j
  unfolding compile_trailing_edge
  Keeps-trailing_edge none at s j h = refl
  Keeps-trailing_edge (some r) at s j h = store_ne s.graph at (bit_or (s.graph at) 32768) j h

  module _ (t u : Option Route) (sp : Special) (cs : Segments) (s : Compiling) where
    abbrev s₁ : Compiling
    s₁ = set_flag (reserve s) s.cur (child_count cs)

    abbrev s₂ : Compiling
    s₂ = compile_terminal L P ret t s.cur s₁

    abbrev s₃ : Compiling
    s₃ = compile_edges L P ret sp s.cur s₂

    param_bits : (x : Special) → 8192 * param_bit x + 16384 * wildcard_bit x ≤ 16384
    param_bits (spec_param str child) = omega arith
    param_bits (spec_wildcard r) = omega arith
    param_bits x = omega arith

    -- A fresh cell at the cursor becomes the node's word.
    pub word-compile_head :
        s.graph s.cur ≡ 0
        → child_count cs ≤ 4095
        → (compile_head L P ret (node t u sp cs) s).graph s.cur ≡ word t u sp cs
    unfolding compile_head
    word-compile_head zero small =
        let w₁ : s₁.graph s.cur ≡ child_count cs =
          store_eq s.graph s.cur (bit_or (s.graph s.cur) (child_count cs))
          ∙ (ap (λ v. bit_or v (child_count cs)) zero ∙ zero-bit_or (child_count cs)) in
        let w₂ = word_terminal t s.cur s₁ (child_count cs) w₁ (omega arith) in
        let c = cur-compile_terminal L P ret t s.cur s₁ in
        let w = child_count cs + 4096 * count_route t in
        let b : count_route t ≤ 1 = count_bound t in
        let w₃ = word_edges sp s.cur s₂ w w₂ (omega arith) (omega arith) in
        word_trailing u s.cur s₃ (w + 8192 * param_bit sp + 16384 * wildcard_bit sp) w₃
          (omega (arith, param_bits sp))
      where
        count_bound : (x : Option Route) → count_route x ≤ 1
        count_bound none = omega arith
        count_bound (some r) = omega arith

  -- The parameter's symbol stands behind the node.
  pub symbol-compile_head :
      (t u : Option Route) (str : Bytes) (child : Node) (cs : Segments) (s : Compiling)
      → (compile_head L P ret (node t u (spec_param str child) cs) s).graph (s.cur + 1)
        ≡ uint16 (symbol_resolve P str)
  unfolding compile_head compile_edges
  symbol-compile_head t u str child cs s =
      let a₁ = s₁ t u (spec_param str child) cs s in
      let a₂ = s₂ t u (spec_param str child) cs s in
      let a₃ = s₃ t u (spec_param str child) cs s in
      let c : s.cur + 1 ≡ a₂.cur = omega (arith, cur-compile_terminal L P ret t s.cur a₁) in
      let a₂' = set_flag a₂ s.cur flag_has_param in
      Keeps-trailing_edge u s.cur a₃ (s.cur + 1) (omega arith)
      ∙ (ap a₃.graph c ∙ store_eq a₂'.graph a₂.cur (uint16 (symbol_resolve P str)))
