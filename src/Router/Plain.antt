-- ===== src/Router/Plain.antt =====
-- The walk on a tree without wildcards writes to no cell behind the parameters that graph_stats reserves.
use mathlib.Core.Path.{subst}
use libwrouter.Base.{
  ◌≤◌, ◌≡◌, refl, sym, inl, inr, List, [], ◌∷◌, ◌++◌, Option, none, some, true, arith, ltb,
  length-append, Option-cases,
}
use libwrouter.Text.Compare.{bytes_eq_refl}
use libwrouter.World.{returns}
use libwrouter.Token.{Token, TokenType, text_of}
use libwrouter.Route.{Route}
use libwrouter.Params.{Param, Params, param_next, count}
use libwrouter.Prelexer.Pattern.{Piece, lit, par, rest}
use libwrouter.Segment.{
  Node, Special, Segments, node, spec_none, spec_param, spec_wildcard, spec_param_null,
  spec_wildcard_null,
}
use libwrouter.Graph.Stats.{GraphStats, graph_stats, stats_special, stats_param}
use libwrouter.Graph.Depth.{
  visits, graph_stats-Reserves, node-reserves, param-reserves, at_special, at_children,
}
use libwrouter.Router.Tree.{child_named, nearest, Outcome, fall_back, take_special, tree_walk}
use libwrouter.Builder.Insert.{route_at, wildcard_route}

-- No pattern with a wildcard has a route.
abbrev pub IsPlain : Node → Type 0
IsPlain n = (ps : List Piece) (r : Route) → ¬ (route_at ps rest n ≡ some r)

-- The walk comes to an end within the cells.
abbrev pub Comes : Outcome → Type 0
Comes x = (t : Option Route) × (p : Params) × (x ≡ returns (t, p))

nearest-none : (sp : Special) (tok : Token) → wildcard_route sp ≡ none → nearest sp tok none ≡ none
nearest-none (spec_wildcard r) tok e = absurd cc
nearest-none spec_none tok e = refl
nearest-none (spec_param str child) tok e = refl
nearest-none spec_param_null tok e = refl
nearest-none spec_wildcard_null tok e = refl

module _ (t u : Option Route) (cs : Segments) where
  no_wildcard : (sp : Special) → IsPlain (node t u sp cs) → wildcard_route sp ≡ none
  unfolding route_at
  no_wildcard sp plain = elim (Option-cases (wildcard_route sp)) [
    | inl e ↦ e
    | inr (r, e) ↦ absurd (plain [] r e)
  ]

  IsPlain-child :
      (sp : Special) (child : Node) (tok : Token)
      → IsPlain (node t u sp cs)
      → child_named cs (text_of tok) ≡ some child
      → IsPlain child
  unfolding route_at
  IsPlain-child sp child tok plain there ps r e =
      plain (lit (text_of tok) ∷ ps) r (rw (there, route_at) e)

  -- A literal that is no child.
  take_special-Comes :
      (go : Node → Params → Outcome) (sp : Special) (tok : Token) (s : GraphStats) (p : Params)
      → IsPlain (node t u sp cs)
      → s.param_depth ≤ s.max_params
      → count p ≤ s.param_depth
      → (graph_stats (node t u sp cs) s).max_params ≤ p.capacity
      → ((child : Node) (s' : GraphStats) (q : Params)
          → IsPlain child
          → s'.param_depth ≤ s'.max_params
          → count q ≤ s'.param_depth
          → (graph_stats child s').max_params ≤ q.capacity
          → Comes (go child q))
      → Comes (take_special go sp tok none p)
  unfolding take_special fall_back param_next graph_stats stats_param route_at
  take_special-Comes go (spec_param str child) tok s p plain h k fits below =
      let q = node-reserves t u (spec_param str child) cs s h in
      let s' = stats_param (at_special t u s) in
      let deeper = (param-reserves (at_special t u s) (omega (arith, q.0, q.1))).0 in
      let cell : Param = record { name = some str; value = tok.ptr; length = tok.length } in
      let more = graph_stats-Reserves child s' deeper in
      let room : ltb (count p) p.capacity ≡ true =
        ground (arith, q.0, q.4, more.max_params, deeper) in
      rw (room, take_special, param_next)
        (below child s' (record p { base = p.base ++ cell ∷ [] })
          (λ ps r e. plain (par str ∷ ps) r (rw (bytes_eq_refl str, route_at) e)) deeper
          (omega (arith, q.0, length-append p.base (cell ∷ []))) (omega (arith, q.4)))
  take_special-Comes go (spec_wildcard r) tok s p plain h k fits below = absurd (plain [] r refl)
  take_special-Comes go spec_none tok s p plain h k fits below = (_, _, refl)
  take_special-Comes go spec_param_null tok s p plain h k fits below = (_, _, refl)
  take_special-Comes go spec_wildcard_null tok s p plain h k fits below = (_, _, refl)

-- On a tree without wildcards, where as many cells are left as graph_stats reserves, the walk comes to an
-- end within the cells.
pub tree_walk-Comes :
    (toks : List Token) (x : TokenType) (n : Node) (s : GraphStats) (p : Params)
    → IsPlain n
    → s.param_depth ≤ s.max_params
    → count p ≤ s.param_depth
    → (graph_stats n s).max_params ≤ p.capacity
    → Comes (tree_walk toks x n none p)
unfolding tree_walk graph_stats
tree_walk-Comes [] x (node t u sp cs) s p plain h k fits = (_, _, refl)
tree_walk-Comes (tok ∷ toks) x (node t u sp cs) s p plain h k fits =
    let clear = nearest-none sp tok (no_wildcard t u cs sp plain) in
    elim (Option-cases (child_named cs (text_of tok))) [
      | inr (child, there) ↦
          let q = node-reserves t u sp cs s h in
          let s' = at_children cs (stats_special sp (at_special t u s)) in
          let v = visits cs (text_of tok) child s' (omega (arith, q.2, q.3)) there in
          rw (there, tree_walk)
            (subst (λ w. Comes (tree_walk toks x child w p)) (sym clear)
              (tree_walk-Comes toks x child v.at p (IsPlain-child t u cs sp child tok plain there)
                (omega (arith, q.2, q.3, v.depth, v.low)) (omega (arith, q.2, v.depth))
                (omega (arith, v.high))))
      | inl miss ↦
          rw (miss, tree_walk)
            (take_special-Comes t u cs (λ child q. tree_walk toks x child (nearest sp tok none) q)
              sp tok s p plain h k fits
              (λ child s' q plain' h' k' fits'.
                subst (λ w. Comes (tree_walk toks x child w q)) (sym clear)
                  (tree_walk-Comes toks x child s' q plain' h' k' fits')))
    ]
