-- ===== src/Builder/Contexts.antt =====
-- How often a context stands in a tree, and in the calls that segment_release makes for the tree.
use libwrouter.Base.{
  ℕ, ◌+◌, ◌≡◌, refl, ap, inl, inr, List, [], ◌∷◌, ◌++◌, Option, none, some, arith, ◌==◌, Bool-cases,
  if◌then◌else◌,
}
use mathlib.Core.Option.{some-injective}
use libwrouter.Text.{Bytes, bytes_eq}
use libwrouter.Route.{Route}
use libwrouter.Prelexer.Pattern.{Piece, Ending}
use libwrouter.Segment.{
  Node, Special, Segments, node, spec_none, spec_param, spec_wildcard, spec_param_null,
  spec_wildcard_null, nil, cons, append_segment, ctx_of, segment_release, release_special,
  release_children,
}
use libwrouter.Segment.Shape.{IsTree, IsTreeSpecial, IsTreeChildren}
use libwrouter.Router.Tree.{child_named}
use libwrouter.Builder.Insert.{
  Inserts, terminal, trailing, wildcard, new_child, old_child, new_param, old_param, set_child,
}

abbrev pub hit : ℕ → ℕ → ℕ
hit c x = if x == c then 1 else 0

-- How often a context is in a list of calls.
abbrev pub times : ℕ → List ℕ → ℕ
times c [] = 0
times c (x ∷ xs) = hit c x + times c xs

pub times-append : (c : ℕ) (xs ys : List ℕ) → times c (xs ++ ys) ≡ times c xs + times c ys
times-append c [] ys = omega arith
times-append c (x ∷ xs) ys = omega (arith, times-append c xs ys)

abbrev pub route_times : ℕ → Option Route → ℕ
route_times c none = 0
route_times c (some r) = hit c r.ctx

-- How often a context is in a tree.
unfoldable mutual
  pub node_times : ℕ → Node → ℕ
  node_times c (node t tr sp cs) =
      children_times c cs + special_times c sp + route_times c tr + route_times c t

  pub special_times : ℕ → Special → ℕ
  special_times c (spec_param str child) = node_times c child
  special_times c (spec_wildcard r) = hit c r.ctx
  special_times c spec_none = 0
  special_times c spec_param_null = 0
  special_times c spec_wildcard_null = 0

  pub children_times : ℕ → Segments → ℕ
  children_times c nil = 0
  children_times c (cons str child cs) = node_times c child + children_times c cs

times-ctx_of : (c : ℕ) (r : Option Route) → times c (ctx_of r) ≡ route_times c r
times-ctx_of c none = refl
times-ctx_of c (some r) = omega arith

-- The calls that are made, and how often each context is in them.
abbrev pub Calls : (ℕ → ℕ) → Option (List ℕ) → Type 0
Calls often r = (calls : List ℕ) × (r ≡ some calls) × ((c : ℕ) → times c calls ≡ often c)

module _ (ls ps : List Bytes) where
  mutual
    unfolding segment_release node_times IsTree

    release_node : (n : Node) → IsTree ls ps n → Calls (λ c. node_times c n) (segment_release n)
    release_node (node t tr sp cs) tree =
        let (first, e, f) = release_all cs tree.3 in
        let (second, g, h) = release_spec sp tree.2 in
        (
          first ++ (second ++ (ctx_of tr ++ ctx_of t)),
          rw (e, g, segment_release) refl,
          λ c. omega (
            arith,
            f c,
            h c,
            times-append c first (second ++ (ctx_of tr ++ ctx_of t)),
            times-append c second (ctx_of tr ++ ctx_of t),
            times-append c (ctx_of tr) (ctx_of t),
            times-ctx_of c tr,
            times-ctx_of c t,
          ),
        )

    release_spec :
        (sp : Special)
        → IsTreeSpecial ls ps sp
        → Calls (λ c. special_times c sp) (release_special sp)
    release_spec (spec_param str child) tree = release_node child tree.2
    release_spec (spec_wildcard r) tree = (r.ctx ∷ [], refl, λ c. omega arith)
    release_spec spec_none tree = ([], refl, λ c. refl)
    release_spec spec_param_null tree = absurd tree
    release_spec spec_wildcard_null tree = absurd tree

    release_all :
        (cs : Segments)
        → IsTreeChildren ls ps cs
        → Calls (λ c. children_times c cs) (release_children cs)
    release_all nil tree = ([], refl, λ c. refl)
    release_all (cons str child cs) tree =
        let (first, e, f) = release_node child tree.2 in
        let (others, g, h) = release_all cs tree.3 in
        (
          first ++ others,
          rw (e, g, release_children) refl,
          λ c. omega (arith, f c, h c, times-append c first others),
        )

  pub segment_release-Calls :
      (n : Node) → IsTree ls ps n → Calls (λ c. node_times c n) (segment_release n)
  segment_release-Calls n tree = release_node n tree

children_times-append_segment :
    (c : ℕ) (cs : Segments) (name : Bytes) (n : Node)
    → children_times c (append_segment cs name n) ≡ children_times c cs + node_times c n
unfolding node_times
children_times-append_segment c nil name n = omega arith
children_times-append_segment c (cons str child cs) name n =
    omega (arith, children_times-append_segment c cs name n)

children_times-set_child :
    (c : ℕ) (cs : Segments) (name : Bytes) (child n : Node)
    → child_named cs name ≡ some child
    → children_times c (set_child cs name n) + node_times c child
      ≡ children_times c cs + node_times c n
unfolding node_times child_named
children_times-set_child c nil name child n e = cc
children_times-set_child c (cons str d cs) name child n e = elim (Bool-cases (bytes_eq str name)) [
  | inl same ↦
      let eq = some-injective d child (rw (same, child_named) at e) in
      rw same (omega (arith, ap (node_times c) eq))
  | inr differ ↦
      rw differ
        (omega (arith, children_times-set_child c cs name child n (rw (differ, child_named) at e)))
]

-- Inserting a route adds its context once.
pub node_times-Inserts :
    (c : ℕ) {r : Route} {n n' : Node} {ps : List Piece} {e : Ending}
    → Inserts r n ps e n'
    → node_times c n' ≡ node_times c n + hit c r.ctx
unfolding node_times
node_times-Inserts c (terminal tr sp cs) = omega arith
node_times-Inserts c (trailing t sp cs) = omega arith
node_times-Inserts c (wildcard t tr cs) = omega arith
node_times-Inserts c (new_child t tr sp cs name ps e n plain no_child few nul i) =
    omega (arith, children_times-append_segment c cs name n, node_times-Inserts c i)
node_times-Inserts c (old_child t tr sp cs name ps e child n plain there i) =
    omega (arith, children_times-set_child c cs name child n there, node_times-Inserts c i)
node_times-Inserts c (new_param t tr name ps e n nul i) = omega (arith, node_times-Inserts c i)
node_times-Inserts c (old_param t tr name ps e child n i) = omega (arith, node_times-Inserts c i)
