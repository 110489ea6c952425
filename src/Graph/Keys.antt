-- ===== src/Graph/Keys.antt =====
-- The terminals that graph_compile appends: their keys ascend, which terminal_lookup relies on, and
-- there are as many as graph_stats counted, which terminal_alloc allocates.
use mathlib.Core.Path.{subst}
use libwrouter.Base.{
  ℕ, ◌+◌, ◌≤◌, ◌<◌, ◌≡◌, refl, sym, ap, ◌∙◌, Bool, Option, none, some, arith, length, length-append,
  ◌∷◌, [], get_or,
}
use libwrouter.Route.{Route}
use libwrouter.Terminal.{Terminals}
use libwrouter.Terminal.Lookup.{
  IsSorted, Holds, KeysBelow, Holds-terminal_append, Holds-terminal_append_self,
  terminal_append-IsSorted, terminal_append-KeysBelow,
}
use libwrouter.Segment.{
  Node, Special, Segments, node, spec_none, spec_param, spec_wildcard, spec_param_null,
  spec_wildcard_null, nil, cons, child_count,
}
use libwrouter.Symbol.{Symbols, symbol_resolve}
use libwrouter.Graph.Cells.{uint16, flag_terminal}
use libwrouter.Graph.Stats.{count_route}
use libwrouter.Graph.Compile.{
  Compiling, emit, reserve, assign, set_flag, terminate, compile_terminal, compile_edges,
  compile_trailing_edge, compile_symbols, compile_leaf, compile_trailing, sort_literals,
  compile_head, graph_compile, compile_literals, compile_special, edges_special,
}
use libwrouter.Graph.Layout.{
  cells, cells_special, cells_children, routes, routes_special, routes_children,
}
use libwrouter.Graph.Extent.{
  cur-compile_terminal, cur-compile_head, cur-compile_symbols, cur-sort_literals, cur-graph_compile,
  cur-compile_literals, cur-compile_special, after_head, after_symbols, after_literals, after_sort,
  after_special,
}

-- A sorted dictionary with all keys below the cursor.
pub record Keyed (s : Compiling) : Type 0 where
  pub sorted : IsSorted s.terminals
  pub below : KeysBelow s.terminals s.cur

-- A step that adds `n` entries keeps the old ones, the order and the bound.
pub record Extends (n : ℕ) (s s' : Compiling) : Type 0 where
  pub keyed : Keyed s'
  pub grows : (k : ℕ) (r : Route) → Holds s.terminals k r → Holds s'.terminals k r
  pub added : length s'.terminals.refs ≡ length s.terminals.refs + n

Extends-idle :
    {s s' : Compiling} → Keyed s → s'.terminals ≡ s.terminals → s.cur ≤ s'.cur → Extends 0 s s'
Extends-idle {s} {s'} k e le = record {
  keyed = record {
    sorted = subst IsSorted (sym e) k.sorted;
    below = λ i h.
        subst (λ t. i < length t.refs → get_or t.refs i 0 < s'.cur) (sym e)
          (λ p. omega (arith, k.below i p)) h;
  };
  grows = λ j r h. subst (λ t. Holds t j r) (sym e) h;
  added = omega (arith, ap (λ (t : Terminals). length t.refs) e);
}

Extends-trans : {m n : ℕ} {s t u : Compiling} → Extends m s t → Extends n t u → Extends (m + n) s u
Extends-trans a b = record {
  keyed = b.keyed;
  grows = λ k r h. b.grows k r (a.grows k r h);
  added = omega (arith, a.added, b.added);
}

uint16_of_lt : (v : ℕ) → v < 65536 → uint16 v ≡ v
uint16_of_lt v h = omega arith

module _ (L P : Symbols) (ret : Bool) where
  -- `terminate` at an offset that no key has reached.
  pub Extends-terminate :
      (s : Compiling) (ref : ℕ) (r : Route)
      → IsSorted s.terminals
      → KeysBelow s.terminals ref
      → ref < s.cur
      → ref < 65536
      → Extends 1 s (terminate L P ret s ref r) × Holds (terminate L P ret s ref r).terminals ref r
  unfolding terminate
  Extends-terminate s ref r sorted below lt small =
      let e = uint16_of_lt ref small in
      rw e (
        record {
          keyed = record {
            sorted = terminal_append-IsSorted s.terminals ref r sorted below;
            below = terminal_append-KeysBelow s.terminals ref r s.cur below lt;
          };
          grows = Holds-terminal_append s.terminals ref r;
          added = length-append s.terminals.refs (ref ∷ []);
        },
        Holds-terminal_append_self s.terminals ref r sorted,
      )

  Extends-terminal :
      (t : Option Route) (at : ℕ) (s : Compiling)
      → IsSorted s.terminals
      → KeysBelow s.terminals at
      → at < s.cur
      → at < 65536
      → Extends (count_route t) s (compile_terminal L P ret t at s)
  unfolding compile_terminal
  Extends-terminal none at s sorted below lt small =
      Extends-idle (record { sorted = sorted; below = λ i h. omega (arith, below i h) }) refl
        (omega arith)
  Extends-terminal (some r) at s sorted below lt small =
      let (e, h) = Extends-terminate (set_flag s at flag_terminal) at r sorted below lt small in
      record { keyed = e.keyed; grows = e.grows; added = e.added }

  -- The node's own entry.
  pub Holds-terminal :
      (r : Route) (at : ℕ) (s : Compiling)
      → IsSorted s.terminals
      → KeysBelow s.terminals at
      → at < s.cur
      → at < 65536
      → Holds (compile_terminal L P ret (some r) at s).terminals at r
  unfolding compile_terminal
  Holds-terminal r at s sorted below lt small =
      (Extends-terminate (set_flag s at flag_terminal) at r sorted below lt small).1

  terminals-edges :
      (sp : Special) (at : ℕ) (s : Compiling)
      → (compile_edges L P ret sp at s).terminals ≡ s.terminals
  unfolding compile_edges
  terminals-edges spec_none at s = refl
  terminals-edges sp at s = refl

  terminals-trailing_edge :
      (t : Option Route) (at : ℕ) (s : Compiling)
      → (compile_trailing_edge L P ret t at s).terminals ≡ s.terminals
  unfolding compile_trailing_edge
  terminals-trailing_edge none at s = refl
  terminals-trailing_edge (some r) at s = refl

  terminals-symbols :
      (cs : Segments) (s : Compiling) → (compile_symbols L P ret cs s).terminals ≡ s.terminals
  unfolding compile_symbols
  terminals-symbols nil s = refl
  terminals-symbols (cons str child cs) s =
      terminals-symbols cs (reserve (emit s (uint16 (symbol_resolve L str))))

  terminals-sort :
      (base n : ℕ) (s : Compiling) → (sort_literals L P ret base n s).terminals ≡ s.terminals
  unfolding sort_literals
  terminals-sort base n s = refl

  module _ (t u : Option Route) (sp : Special) (cs : Segments) (s : Compiling) (k : Keyed s)
      (small : s.cur < 65536) where
    abbrev appended : Compiling
    appended = set_flag (reserve s) s.cur (child_count cs)

    head_terminals :
        (compile_head L P ret (node t u sp cs) s).terminals
        ≡ (compile_terminal L P ret t s.cur appended).terminals
    unfolding compile_head
    head_terminals =
        terminals-trailing_edge u s.cur
          (compile_edges L P ret sp s.cur (compile_terminal L P ret t s.cur appended))
        ∙ terminals-edges sp s.cur (compile_terminal L P ret t s.cur appended)

    pub Extends-head : Extends (count_route t) s (compile_head L P ret (node t u sp cs) s)
    Extends-head =
        let first = Extends-terminal t s.cur appended k.sorted k.below (omega arith) small in
        let c = cur-compile_terminal L P ret t s.cur appended in
        let d = cur-compile_head L P ret t u sp cs s in
        let le : (compile_terminal L P ret t s.cur appended).cur
            ≤ (compile_head L P ret (node t u sp cs) s).cur =
          omega arith in
        let rest = Extends-idle first.keyed head_terminals le in
        record {
          keyed = rest.keyed;
          grows = λ j r h. rest.grows j r (first.grows j r h);
          added = omega (arith, first.added, rest.added);
        }

  pub Holds-head :
      (r : Route) (u : Option Route) (sp : Special) (cs : Segments) (s : Compiling)
      → Keyed s
      → s.cur < 65536
      → Holds (compile_head L P ret (node (some r) u sp cs) s).terminals s.cur r
  Holds-head r u sp cs s k small =
      subst (λ t. Holds t s.cur r) (sym (head_terminals (some r) u sp cs s k small))
        (Holds-terminal r s.cur (appended (some r) u sp cs s k small) k.sorted k.below (omega arith)
          small)

  pub Extends-leaf :
      (edge : ℕ) (r : Route) (s : Compiling)
      → Keyed s
      → s.cur < 65536
      → Extends 1 s (compile_leaf L P ret edge r s)
        × Holds (compile_leaf L P ret edge r s).terminals s.cur r
  unfolding compile_leaf
  Extends-leaf edge r s k small =
      let s' = assign (set_flag (reserve s) s.cur flag_terminal) edge (uint16 s.cur) in
      let (e, h) = Extends-terminate s' s.cur r k.sorted k.below (omega arith) small in
      (record { keyed = e.keyed; grows = e.grows; added = e.added }, h)

  pub Extends-trailing_node :
      (t : Option Route) (edge : ℕ) (s : Compiling)
      → Keyed s
      → s.cur + count_route t ≤ 65536
      → Extends (count_route t) s (compile_trailing L P ret t edge s)
  unfolding compile_trailing
  Extends-trailing_node none edge s k small = Extends-idle k refl (omega arith)
  Extends-trailing_node (some r) edge s k small = (Extends-leaf edge r s k (omega arith)).0

  pub Extends-symbols :
      (cs : Segments) (s : Compiling) → Keyed s → Extends 0 s (compile_symbols L P ret cs s)
  Extends-symbols cs s k =
      Extends-idle k (terminals-symbols cs s) (omega (arith, cur-compile_symbols L P ret cs s))

  pub Extends-sort :
      (base n : ℕ) (s : Compiling) → Keyed s → Extends 0 s (sort_literals L P ret base n s)
  Extends-sort base n s k =
      Extends-idle k (terminals-sort base n s) (omega (arith, cur-sort_literals L P ret base n s))

  pub Extends-assign :
      {n : ℕ} {s s' : Compiling} (i v : ℕ) → Extends n s s' → Extends n s (assign s' i v)
  Extends-assign i v e = record {
    keyed = record { sorted = e.keyed.sorted; below = e.keyed.below };
    grows = e.grows;
    added = e.added;
  }

  mutual
    unfolding graph_compile cells routes

    Extends-node :
        (n : Node) (s : Compiling)
        → Keyed s
        → s.cur + cells n ≤ 65536
        → Extends (routes n) s (graph_compile L P ret n s)
    Extends-node (node t u sp cs) s k small =
        let s₁ = after_head L P ret t u sp cs s in
        let s₂ = after_symbols L P ret t u sp cs s in
        let s₃ = after_literals L P ret t u sp cs s in
        let s₄ = after_sort L P ret t u sp cs s in
        let s₅ = after_special L P ret t u sp cs s in
        let c₁ = cur-compile_head L P ret t u sp cs s in
        let c₂ = cur-compile_symbols L P ret cs s₁ in
        let c₃ = cur-compile_literals L P ret cs s₁.cur s₂ in
        let c₄ = cur-sort_literals L P ret s₁.cur (child_count cs) s₃ in
        let c₅ = cur-compile_special L P ret sp (s.cur + 1) s₄ in
        let e₁ = Extends-head t u sp cs s k (omega arith) in
        let e₂ = Extends-symbols cs s₁ e₁.keyed in
        let e₃ = Extends-children cs s₁.cur s₂ e₂.keyed (omega arith) in
        let e₄ = Extends-sort s₁.cur (child_count cs) s₃ e₃.keyed in
        let e₅ = Extends-compile_special sp (s.cur + 1) s₄ e₄.keyed (omega arith) in
        let e₆ = Extends-trailing_node u (s.cur + 1 + edges_special sp) s₅ e₅.keyed (omega arith) in
        record {
          keyed = e₆.keyed;
          grows = λ j r h.
              e₆.grows j r
                (e₅.grows j r (e₄.grows j r (e₃.grows j r (e₂.grows j r (e₁.grows j r h)))));
          added = omega (arith, e₁.added, e₂.added, e₃.added, e₄.added, e₅.added, e₆.added);
        }

    Extends-children :
        (cs : Segments) (edge : ℕ) (s : Compiling)
        → Keyed s
        → s.cur + cells_children cs ≤ 65536
        → Extends (routes_children cs) s (compile_literals L P ret cs edge s)
    Extends-children nil edge s k small = Extends-idle k refl (omega arith)
    Extends-children (cons str child cs) edge s k small =
        let s' = assign (graph_compile L P ret child s) (edge + 1) (uint16 s.cur) in
        let c = cur-graph_compile L P ret child s in
        let e₁ = Extends-assign (edge + 1) (uint16 s.cur) (Extends-node child s k (omega arith)) in
        let e₂ = Extends-children cs (edge + 2) s' e₁.keyed (omega arith) in Extends-trans e₁ e₂

    Extends-compile_special :
        (sp : Special) (edge : ℕ) (s : Compiling)
        → Keyed s
        → s.cur + cells_special sp ≤ 65536
        → Extends (routes_special sp) s (compile_special L P ret sp edge s)
    Extends-compile_special (spec_param str child) edge s k small =
        Extends-assign (edge + 1) (uint16 s.cur) (Extends-node child s k small)
    Extends-compile_special (spec_wildcard r) edge s k small =
        (Extends-leaf edge r s k (omega arith)).0
    Extends-compile_special spec_none edge s k small = Extends-idle k refl (omega arith)
    Extends-compile_special spec_param_null edge s k small = Extends-idle k refl (omega arith)
    Extends-compile_special spec_wildcard_null edge s k small = Extends-idle k refl (omega arith)

  pub Extends-compile_literals :
      (cs : Segments) (edge : ℕ) (s : Compiling)
      → Keyed s
      → s.cur + cells_children cs ≤ 65536
      → Extends (routes_children cs) s (compile_literals L P ret cs edge s)
  Extends-compile_literals cs edge s k small = Extends-children cs edge s k small

  pub Extends-special :
      (sp : Special) (edge : ℕ) (s : Compiling)
      → Keyed s
      → s.cur + cells_special sp ≤ 65536
      → Extends (routes_special sp) s (compile_special L P ret sp edge s)
  Extends-special sp edge s k small = Extends-compile_special sp edge s k small

  -- From a dictionary with ascending keys below the cursor, in a graph of at most 65536 cells,
  -- graph_compile leaves such a dictionary: it has all entries from before, and one more for each route
  -- of the tree.
  pub Extends-graph_compile :
      (n : Node) (s : Compiling)
      → Keyed s
      → s.cur + cells n ≤ 65536
      → Extends (routes n) s (graph_compile L P ret n s)
  Extends-graph_compile n s k small = Extends-node n s k small
