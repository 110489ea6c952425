-- ===== src/Graph/Stats.antt =====
-- graph_stats of graph.c: the sizes that wrouter_compile allocates by.
use libwrouter.Base.{ℕ, ◌+◌, ◌-◌, ◌*◌, Option, none, some, ltb, leb, if◌then◌else◌}
use libwrouter.Route.{Route}
use libwrouter.Segment.{
  Node, Special, Segments, node, spec_none, spec_param, spec_wildcard, spec_param_null,
  spec_wildcard_null, nil, cons, child_count,
}

-- graph_stats_t
pub record GraphStats : Type 0 where
  pub terminals : ℕ
  pub size : ℕ
  pub param_depth : ℕ
  pub max_params : ℕ

abbrev pub zero_stats : GraphStats
zero_stats = record { terminals = 0; size = 0; param_depth = 0; max_params = 0 }

abbrev pub count_route : Option Route → ℕ
count_route none = 0
count_route (some r) = 1

-- `Reserve space for wildcard parameter.`
unfoldable pub stats_wildcard : GraphStats → GraphStats
stats_wildcard s = record s {
  size = s.size + 2;
  terminals = s.terminals + 1;
  max_params = if leb s.max_params s.param_depth then s.max_params + 1 else s.max_params;
}

unfoldable pub stats_param : GraphStats → GraphStats
stats_param s = record s {
  size = s.size + 2;
  param_depth = s.param_depth + 1;
  max_params = if ltb s.max_params (s.param_depth + 1) then s.max_params + 1 else s.max_params;
}

abbrev pub stats_trailing : Option Route → GraphStats → GraphStats
stats_trailing none s = s
stats_trailing (some r) s = record s { terminals = s.terminals + 1; size = s.size + 2 }

unfoldable mutual
  unfolding stats_wildcard stats_param

  pub graph_stats : Node → GraphStats → GraphStats
  graph_stats (node terminal trailing special children) s =
      let s₁ = record s { size = s.size + 1; terminals = s.terminals + count_route terminal } in
      let s₂ = stats_special special (stats_trailing trailing s₁) in
      stats_children children (record s₂ { size = s₂.size + 2 * child_count children })

  -- `Special edges.` The C code reads through the NULL of a special segment
  -- that could not be allocated; here it counts nothing. wrouter_compile refuses the builder of such
  -- a segment, which is corrupted.
  pub stats_special : Special → GraphStats → GraphStats
  stats_special (spec_param str child) s =
      let s' = graph_stats child (stats_param s) in record s' { param_depth = s'.param_depth - 1 }
  stats_special (spec_wildcard route) s = stats_wildcard s
  stats_special spec_none s = s
  stats_special spec_param_null s = s
  stats_special spec_wildcard_null s = s

  pub stats_children : Segments → GraphStats → GraphStats
  stats_children nil s = s
  stats_children (cons str child cs) s = stats_children cs (graph_stats child s)
