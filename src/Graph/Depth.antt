-- ===== src/Graph/Depth.antt =====
-- The parameters that graph_stats reserves, against those that the patterns of the tree need.
use mathlib.Core.Option.{some-injective}
use libwrouter.Base.{
  ℕ, suc, ◌+◌, ◌*◌, ◌≤◌, ◌≡◌, refl, ◌∙◌, ap, inl, inr, List, [], ◌∷◌, Option, none, some, arith,
  Bool-cases, Option-cases,
}
use libwrouter.Text.{Bytes, bytes_eq}
use libwrouter.Route.{Route}
use libwrouter.Prelexer.Pattern.{Piece, lit, par, Ending, finished, slashed, rest}
use libwrouter.Segment.{
  Node, Special, Segments, node, spec_none, spec_param, spec_wildcard, spec_param_null,
  spec_wildcard_null, nil, cons, child_count,
}
use libwrouter.Graph.Stats.{
  GraphStats, graph_stats, stats_special, stats_children, stats_trailing, stats_wildcard,
  stats_param, count_route,
}
use libwrouter.Router.Tree.{child_named}
use libwrouter.Builder.Insert.{route_at}

-- The cells for parameters that a request takes which matches the pattern: one for each parameter, and
-- one for a wildcard.
abbrev pub captured : List Piece → Ending → ℕ
captured [] rest = 1
captured [] e = 0
captured (lit name ∷ ps) e = captured ps e
captured (par name ∷ ps) e = suc (captured ps e)

-- Enough cells for the depth, and no fewer later.
pub record Reserves (s s' : GraphStats) : Type 0 where
  pub depth : s'.param_depth ≡ s.param_depth
  pub max_params : s.max_params ≤ s'.max_params

Reserves-trailing : (tr : Option Route) (s : GraphStats) → Reserves s (stats_trailing tr s)
Reserves-trailing none s = omega arith
Reserves-trailing (some r) s = omega arith

pub param-reserves :
    (s : GraphStats)
    → s.param_depth ≤ s.max_params
    → ((stats_param s).param_depth ≤ (stats_param s).max_params)
      × (s.max_params ≤ (stats_param s).max_params)
unfolding stats_param
param-reserves s h = ground arith

wildcard-reserves :
    (s : GraphStats)
    → s.param_depth ≤ s.max_params
    → (s.param_depth + 1 ≤ (stats_wildcard s).max_params)
      × (s.max_params ≤ (stats_wildcard s).max_params)
unfolding stats_wildcard
wildcard-reserves s h = ground arith

mutual
  unfolding graph_stats stats_param stats_wildcard

  Reserves-graph_stats :
      (n : Node) (s : GraphStats) → s.param_depth ≤ s.max_params → Reserves s (graph_stats n s)
  Reserves-graph_stats (node t tr sp cs) s h =
      let s₁ = record s { size = s.size + 1; terminals = s.terminals + count_route t } in
      let k = Reserves-trailing tr s₁ in
      let s₂ = stats_special sp (stats_trailing tr s₁) in
      let m = Reserves-special sp (stats_trailing tr s₁) (omega arith) in
      let s₃ = record s₂ { size = s₂.size + 2 * child_count cs } in
      let l = Reserves-children cs s₃ (omega arith) in omega (arith, k, m, l)

  Reserves-special :
      (sp : Special) (s : GraphStats)
      → s.param_depth ≤ s.max_params
      → Reserves s (stats_special sp s)
  Reserves-special (spec_param str child) s h =
      let p = param-reserves s h in
      omega (arith, p.0, p.1, Reserves-graph_stats child (stats_param s) p.0)
  Reserves-special (spec_wildcard route) s h = record {
    depth = refl;
    max_params = (wildcard-reserves s h).1;
  }
  Reserves-special spec_none s h = omega arith
  Reserves-special spec_param_null s h = omega arith
  Reserves-special spec_wildcard_null s h = omega arith

  Reserves-children :
      (cs : Segments) (s : GraphStats)
      → s.param_depth ≤ s.max_params
      → Reserves s (stats_children cs s)
  Reserves-children nil s h = omega arith
  Reserves-children (cons str child cs) s h =
      let k = Reserves-graph_stats child s h in
      omega (arith, k, Reserves-children cs (graph_stats child s) (omega arith))

pub graph_stats-Reserves :
    (n : Node) (s : GraphStats) → s.param_depth ≤ s.max_params → Reserves s (graph_stats n s)
graph_stats-Reserves n s h = Reserves-graph_stats n s h

-- graph_stats at a child, somewhere in that of the children.
pub record Visits (cs : Segments) (s : GraphStats) (child : Node) : Type 0 where
  pub at : GraphStats
  pub depth : at.param_depth ≡ s.param_depth
  pub low : s.max_params ≤ at.max_params
  pub high : (graph_stats child at).max_params ≤ (stats_children cs s).max_params

pub visits :
    (cs : Segments) (name : Bytes) (child : Node) (s : GraphStats)
    → s.param_depth ≤ s.max_params
    → child_named cs name ≡ some child
    → Visits cs s child
unfolding child_named graph_stats
visits nil name child s h e = absurd cc
visits (cons str d cs) name child s h e =
    let k = Reserves-graph_stats d s h in
    elim (Bool-cases (bytes_eq str name)) [
      | inl same ↦
          let eq = some-injective d child (rw (same, child_named) at e) in
          record {
            at = s;
            depth = refl;
            low = omega arith;
            high = omega (
              arith,
              k,
              Reserves-children cs (graph_stats d s) (omega arith),
              ap (λ x. (graph_stats x s).max_params) eq,
            );
          }
      | inr differ ↦
          let v =
            visits cs name child (graph_stats d s) (omega arith) (rw (differ, child_named) at e) in
          record {
            at = v.at;
            depth = v.depth ∙ k.depth;
            low = omega (arith, k.max_params, v.low);
            high = v.high;
          }
    ]

-- The statistics before the special edges of a node, and before its children.
abbrev pub at_special : Option Route → Option Route → GraphStats → GraphStats
at_special t tr s =
    stats_trailing tr (record s { size = s.size + 1; terminals = s.terminals + count_route t })

abbrev pub at_children : Segments → GraphStats → GraphStats
at_children cs s = record s { size = s.size + 2 * child_count cs }

-- What graph_stats reserves at a node is no less than what it reserves up to the node's children.
pub node-reserves :
    (t tr : Option Route) (sp : Special) (cs : Segments) (s : GraphStats)
    → s.param_depth ≤ s.max_params
    → ((at_special t tr s).param_depth ≡ s.param_depth)
      × (s.max_params ≤ (at_special t tr s).max_params)
      × ((stats_special sp (at_special t tr s)).param_depth ≡ s.param_depth)
      × (s.max_params ≤ (stats_special sp (at_special t tr s)).max_params)
      × ((stats_special sp (at_special t tr s)).max_params
          ≤ (graph_stats (node t tr sp cs) s).max_params)
unfolding graph_stats
node-reserves t tr sp cs s h =
    let k =
      Reserves-trailing tr
        (record s { size = s.size + 1; terminals = s.terminals + count_route t }) in
    let m = Reserves-special sp (at_special t tr s) (omega arith) in
    let l =
      Reserves-children cs (at_children cs (stats_special sp (at_special t tr s))) (omega arith) in
    (omega arith, omega arith, omega arith, omega arith, l.max_params)

-- From as many cells as the depth on, graph_stats reserves for each pattern with a route in the tree, at
-- the depth of the tree, one cell for each parameter of the pattern and one for its wildcard.
pub graph_stats-captured :
    (ps : List Piece) (e : Ending) (n : Node) (s : GraphStats) (r : Route)
    → s.param_depth ≤ s.max_params
    → route_at ps e n ≡ some r
    → s.param_depth + captured ps e ≤ (graph_stats n s).max_params
unfolding route_at graph_stats
graph_stats-captured [] finished (node t tr sp cs) s r h k =
    let q = node-reserves t tr sp cs s h in omega (arith, q.3, q.4)
graph_stats-captured [] slashed (node t tr sp cs) s r h k =
    let q = node-reserves t tr sp cs s h in omega (arith, q.3, q.4)
graph_stats-captured [] rest (node t tr (spec_wildcard r') cs) s r h k =
    let q = node-reserves t tr (spec_wildcard r') cs s h in
    omega (arith, q.0, q.1, q.4, wildcard-reserves (at_special t tr s) (omega (arith, q.0, q.1)))
graph_stats-captured [] rest (node t tr sp cs) s r h k = absurd cc
graph_stats-captured (lit name ∷ ps) e (node t tr sp cs) s r h k =
    elim (Option-cases (child_named cs name)) [
      | inl miss ↦ cc (rw (miss, route_at) at k)
      | inr (child, there) ↦
          let q = node-reserves t tr sp cs s h in
          let s' = at_children cs (stats_special sp (at_special t tr s)) in
          let v = visits cs name child s' (omega (arith, q.2, q.3)) there in
          omega (
            arith,
            q.2,
            q.3,
            v.depth,
            v.high,
            graph_stats-captured ps e child v.at r (omega (arith, q.2, q.3, v.depth, v.low))
                (rw (there, route_at) at k),
          )
    ]
graph_stats-captured (par name ∷ ps) e (node t tr (spec_param str child) cs) s r h k =
    elim (Bool-cases (bytes_eq str name)) [
      | inr differ ↦ cc (rw (differ, route_at) at k)
      | inl same ↦
          let q = node-reserves t tr (spec_param str child) cs s h in
          let s' = at_special t tr s in
          omega (
            arith,
            q.0,
            q.4,
            graph_stats-captured ps e child (stats_param s') r
                (param-reserves s' (omega (arith, q.0, q.1))).0 (rw (same, route_at) at k),
          )
    ]
graph_stats-captured (par name ∷ ps) e (node t tr sp cs) s r h k = absurd cc
