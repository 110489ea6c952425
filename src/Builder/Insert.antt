-- ===== src/Builder/Insert.antt =====
-- The tree of segments as a map from patterns to routes, and the insertion of a route as a relation
-- between trees.
use libwrouter.Base.{◌<◌, ◌≡◌, List, [], ◌∷◌, false, Option, none, some, if◌then◌else◌}
use libwrouter.Text.{Bytes, bytes_eq}
use libwrouter.Text.Compare.{NulFree}
use libwrouter.Route.{Route}
use libwrouter.Prelexer.Pattern.{Piece, lit, par, Ending, finished, slashed, rest}
use libwrouter.Segment.{
  Node, Special, Segments, node, spec_none, spec_param, spec_wildcard, nil, cons, empty_node,
  child_count, append_segment,
}
use libwrouter.Router.Tree.{child_named}
use libwrouter.Builder.{is_param}

abbrev pub param_named : Special → Bytes → Option Node
param_named (spec_param str child) name = if bytes_eq str name then some child else none
param_named _ name = none

abbrev pub wildcard_route : Special → Option Route
wildcard_route (spec_wildcard r) = some r
wildcard_route _ = none

abbrev pub route_here : Ending → Node → Option Route
route_here finished (node t tr sp cs) = t
route_here slashed (node t tr sp cs) = tr
route_here rest (node t tr sp cs) = wildcard_route sp

abbrev pub step_into : Piece → Node → Option Node
step_into (lit name) (node t tr sp cs) = child_named cs name
step_into (par name) (node t tr sp cs) = param_named sp name

-- The route that the tree holds for a pattern.
unfoldable pub route_at : List Piece → Ending → Node → Option Route
unfolding child_named bytes_eq
route_at [] e n = route_here e n
route_at (x ∷ ps) e n = elim (step_into x n) [ none ↦ none | some child ↦ route_at ps e child ]

-- The children with another node for the child of a name.
abbrev pub set_child : Segments → Bytes → Node → Segments
set_child nil name n = nil
set_child (cons str child cs) name n =
    if bytes_eq str name then cons str n cs else cons str child (set_child cs name n)

-- `Inserts r n ps e n'`: the route is put into the tree `n` under a pattern, which makes it `n'`.
pub data Inserts (r : Route) : Node → List Piece → Ending → Node → Type 0 where
  terminal :
      (tr : Option Route) (sp : Special) (cs : Segments)
      → Inserts r (node none tr sp cs) [] finished (node (some r) tr sp cs)
  trailing :
      (t : Option Route) (sp : Special) (cs : Segments)
      → Inserts r (node t none sp cs) [] slashed (node t (some r) sp cs)
  wildcard :
      (t tr : Option Route) (cs : Segments)
      → Inserts r (node t tr spec_none cs) [] rest (node t tr (spec_wildcard r) cs)
  new_child :
      (t tr : Option Route) (sp : Special) (cs : Segments) (name : Bytes) (ps : List Piece)
      (e : Ending) (n : Node)
      → is_param sp ≡ false
      → child_named cs name ≡ none
      → child_count cs < 4095
      → NulFree name
      → Inserts r empty_node ps e n
      → Inserts r (node t tr sp cs) (lit name ∷ ps) e (node t tr sp (append_segment cs name n))
  old_child :
      (t tr : Option Route) (sp : Special) (cs : Segments) (name : Bytes) (ps : List Piece)
      (e : Ending) (child n : Node)
      → is_param sp ≡ false
      → child_named cs name ≡ some child
      → Inserts r child ps e n
      → Inserts r (node t tr sp cs) (lit name ∷ ps) e (node t tr sp (set_child cs name n))
  new_param :
      (t tr : Option Route) (name : Bytes) (ps : List Piece) (e : Ending) (n : Node)
      → NulFree name
      → Inserts r empty_node ps e n
      → Inserts r (node t tr spec_none nil) (par name ∷ ps) e (node t tr (spec_param name n) nil)
  old_param :
      (t tr : Option Route) (name : Bytes) (ps : List Piece) (e : Ending) (child n : Node)
      → Inserts r child ps e n
      → Inserts r
          (node t tr (spec_param name child) nil)
          (par name ∷ ps)
          e
          (node t tr (spec_param name n) nil)
