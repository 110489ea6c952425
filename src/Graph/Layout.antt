-- ===== src/Graph/Layout.antt =====
-- How many cells and terminals a tree takes in the graph, and that graph_stats counts just these.
use libwrouter.Base.{ℕ, ◌+◌, ◌*◌, ◌≡◌, Option, none, some, arith}
use libwrouter.Route.{Route}
use libwrouter.Segment.{
  Node, Special, Segments, node, spec_none, spec_param, spec_wildcard, spec_param_null,
  spec_wildcard_null, nil, cons, child_count,
}
use libwrouter.Graph.Compile.{edges_special}
use libwrouter.Graph.Stats.{
  GraphStats, graph_stats, stats_special, stats_children, stats_trailing, stats_wildcard,
  stats_param, count_route,
}

unfoldable mutual
  pub cells : Node → ℕ
  cells (node t tr sp cs) =
      1
      + edges_special sp
      + count_route tr
      + 2 * child_count cs
      + cells_children cs
      + cells_special sp
      + count_route tr

  pub cells_special : Special → ℕ
  cells_special (spec_param str child) = cells child
  cells_special (spec_wildcard route) = 1
  cells_special spec_none = 0
  cells_special spec_param_null = 0
  cells_special spec_wildcard_null = 0

  pub cells_children : Segments → ℕ
  cells_children nil = 0
  cells_children (cons str child cs) = cells child + cells_children cs

unfoldable mutual
  pub routes : Node → ℕ
  routes (node t tr sp cs) = count_route t + routes_children cs + routes_special sp + count_route tr

  pub routes_special : Special → ℕ
  routes_special (spec_param str child) = routes child
  routes_special (spec_wildcard route) = 1
  routes_special spec_none = 0
  routes_special spec_param_null = 0
  routes_special spec_wildcard_null = 0

  pub routes_children : Segments → ℕ
  routes_children nil = 0
  routes_children (cons str child cs) = routes child + routes_children cs

-- The statistics after a part of the tree that takes `c` cells and `r` terminals.
pub record Counts (c r : ℕ) (s s' : GraphStats) : Type 0 where
  pub size : s'.size ≡ s.size + c
  pub terminals : s'.terminals ≡ s.terminals + r
  pub depth : s'.param_depth ≡ s.param_depth

Counts-trailing :
    (tr : Option Route) (s : GraphStats)
    → Counts (2 * count_route tr) (count_route tr) s (stats_trailing tr s)
Counts-trailing none s = omega arith
Counts-trailing (some r) s = omega arith

mutual
  unfolding graph_stats stats_wildcard stats_param cells routes

  Counts-graph_stats : (n : Node) (s : GraphStats) → Counts (cells n) (routes n) s (graph_stats n s)
  Counts-graph_stats (node t tr sp cs) s =
      let s₁ = record s { size = s.size + 1; terminals = s.terminals + count_route t } in
      let s₂ = stats_special sp (stats_trailing tr s₁) in
      let s₃ = record s₂ { size = s₂.size + 2 * child_count cs } in
      omega (
        arith,
        Counts-trailing tr s₁,
        Counts-special sp (stats_trailing tr s₁),
        Counts-children cs s₃,
      )

  Counts-special :
      (sp : Special) (s : GraphStats)
      → Counts (edges_special sp + cells_special sp) (routes_special sp) s (stats_special sp s)
  Counts-special (spec_param str child) s = omega (arith, Counts-graph_stats child (stats_param s))
  Counts-special (spec_wildcard route) s = omega arith
  Counts-special spec_none s = omega arith
  Counts-special spec_param_null s = omega arith
  Counts-special spec_wildcard_null s = omega arith

  Counts-children :
      (cs : Segments) (s : GraphStats)
      → Counts (cells_children cs) (routes_children cs) s (stats_children cs s)
  Counts-children nil s = omega arith
  Counts-children (cons str child cs) s =
      omega (arith, Counts-graph_stats child s, Counts-children cs (graph_stats child s))

-- graph_stats adds the number of cells and the number of routes of the tree to the size and to the
-- terminals, and leaves the depth as it was.
pub graph_stats_lem : (n : Node) (s : GraphStats) → Counts (cells n) (routes n) s (graph_stats n s)
graph_stats_lem n s = Counts-graph_stats n s
