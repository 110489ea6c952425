-- ===== src/Router/Answers.antt =====
-- A route that the walk finds belongs to a pattern that takes the request.
use mathlib.Core.Option.{some-injective}
use libwrouter.Base.{◌≡◌, refl, ap, ◌⊎◌, inl, inr, List, [], ◌∷◌, Option, none, some, Option-cases}
use libwrouter.Text.{Bytes}
use libwrouter.Text.Compare.{bytes_eq_refl}
use libwrouter.World.{Run-cases}
use libwrouter.Token.{Token, TokenType, text_of}
use libwrouter.Route.{Route}
use libwrouter.Params.{Param, Params, param_next}
use libwrouter.Prelexer.Pattern.{lit, par, finished, slashed, rest, Pattern}
use libwrouter.Segment.{
  Node, Special, Segments, node, spec_none, spec_param, spec_wildcard, spec_param_null,
  spec_wildcard_null,
}
use libwrouter.Router.{bytes_left, wildcard_param}
use libwrouter.Graph.Cells.{uint16}
use libwrouter.Router.Tree.{child_named, Wildcard, nearest, fall_back, take_special, tree_walk}
use libwrouter.Builder.Insert.{route_at, wildcard_route}
use libwrouter.Router.Instance.{Reads, Spoils, found}

-- The request is an instance of the pattern, or the pattern ends in a wildcard and the request is
-- illegal only behind a legal literal at the place of the wildcard.
abbrev pub Takes : Pattern → List Token → TokenType → Type 0
Takes q toks t = Reads q.0 q.1 toks t ⊎ ((q.1 ≡ rest) × Spoils q.0 toks t)

wildcard-Takes : (tok : Token) (toks : List Token) (t : TokenType) → Takes ([], rest) (tok ∷ toks) t
wildcard-Takes tok toks TokenType.illegal = inr (refl, refl)
wildcard-Takes tok toks t = inl (λ e. cc)

lit-Takes :
    (tok : Token) (q : Pattern) (toks : List Token) (t : TokenType)
    → Takes q toks t
    → Takes (lit (text_of tok) ∷ q.0, q.1) (tok ∷ toks) t
lit-Takes tok q toks t (inl reads) = inl (refl, reads)
lit-Takes tok q toks t (inr (e, spoils)) = inr (e, (refl, spoils))

par-Takes :
    (name : Bytes) (tok : Token) (q : Pattern) (toks : List Token) (t : TokenType)
    → Takes q toks t
    → Takes (par name ∷ q.0, q.1) (tok ∷ toks) t
par-Takes name tok q toks t (inl reads) = inl reads
par-Takes name tok q toks t (inr (e, spoils)) = inr (e, spoils)

-- A pattern that has the route in the tree, and that takes the request.
abbrev pub Answers : Node → Route → List Token → TokenType → Type 0
Answers n r toks t = (q : Pattern) × (route_at q.0 q.1 n ≡ some r) × Takes q toks t

-- The nearest wildcard has the route.
abbrev pub IsNearest : Wildcard → Route → Type 0
IsNearest none r = ⊥
IsNearest (some (r', path)) r = r' ≡ r

fall_back-IsNearest :
    (w : Wildcard) (p : Params) (r : Route) → found (fall_back w p) ≡ some r → IsNearest w r
unfolding fall_back
fall_back-IsNearest none p r h = absurd cc
fall_back-IsNearest (some (r', path)) p r h =
    let cell : Param = record {
      name = some wildcard_param;
      value = path;
      length = uint16 (bytes_left path);
    } in
    elim (Run-cases (param_next p cell)) [
      | inl e ↦ cc (rw (e, fall_back) at h)
      | inr (p', e) ↦ some-injective r' r (rw (e, fall_back) at h)
    ]

arrive-Answers :
    (t u : Option Route) (sp : Special) (cs : Segments) (x : TokenType) (w : Wildcard) (p : Params)
    (r : Route)
    → found (tree_walk [] x (node t u sp cs) w p) ≡ some r
    → Answers (node t u sp cs) r [] x
unfolding tree_walk route_at
arrive-Answers (some s) u sp cs TokenType.end w p r h = (([], finished), h, inl refl)
arrive-Answers none u sp cs TokenType.end w p r h = absurd cc
arrive-Answers t (some s) sp cs TokenType.trailing w p r h = (([], slashed), h, inl refl)
arrive-Answers t none sp cs TokenType.trailing w p r h = absurd cc
arrive-Answers t u sp cs x w p r h = absurd cc

nearest-IsNearest :
    (sp : Special) (tok : Token) (w : Wildcard) (r : Route)
    → IsNearest (nearest sp tok w) r
    → (wildcard_route sp ≡ some r) ⊎ IsNearest w r
nearest-IsNearest (spec_wildcard s) tok w r h = inl (ap some h)
nearest-IsNearest spec_none tok w r h = inr h
nearest-IsNearest (spec_param str child) tok w r h = inr h
nearest-IsNearest spec_param_null tok w r h = inr h
nearest-IsNearest spec_wildcard_null tok w r h = inr h

module _ (t u : Option Route) (sp : Special) (cs : Segments) (tok : Token) (toks : List Token)
    (x : TokenType) (w : Wildcard) (r : Route) where
  -- What answers below a child answers at the node.
  below_child :
      (child : Node)
      → child_named cs (text_of tok) ≡ some child
      → Answers child r toks x ⊎ IsNearest (nearest sp tok w) r
      → Answers (node t u sp cs) r (tok ∷ toks) x ⊎ IsNearest w r
  unfolding route_at
  below_child child there (inl (q, h, k)) =
      inl ((lit (text_of tok) ∷ q.0, q.1), rw (there, route_at) h, lit-Takes tok q toks x k)
  below_child child there (inr m) = elim (nearest-IsNearest sp tok w r m) [
    | inl e ↦ inl (([], rest), e, wildcard-Takes tok toks x)
    | inr e ↦ inr e
  ]

-- A literal that is no child: what answers below the parameter answers at the node.
special-Answers :
    (t u : Option Route) (cs : Segments) (tok : Token) (toks : List Token) (x : TokenType)
    (w : Wildcard) (r : Route) (sp : Special) (p : Params)
    → ((child : Node) (p' : Params)
        → found (tree_walk toks x child (nearest sp tok w) p') ≡ some r
        → Answers child r toks x ⊎ IsNearest (nearest sp tok w) r)
    → found (take_special (λ child p'. tree_walk toks x child (nearest sp tok w) p') sp tok w p)
      ≡ some r
    → Answers (node t u sp cs) r (tok ∷ toks) x ⊎ IsNearest w r
unfolding take_special route_at
special-Answers t u cs tok toks x w r (spec_param str child) p below h =
    let cell : Param = record { name = some str; value = tok.ptr; length = tok.length } in
    elim (Run-cases (param_next p cell)) [
      | inl e ↦ cc (rw (e, take_special) at h)
      | inr (p', e) ↦ elim (below child p' (rw (e, take_special) at h)) [
        | inl (q, k, m) ↦
            inl (
              (par str ∷ q.0, q.1),
              rw (bytes_eq_refl str, route_at) k,
              par-Takes str tok q toks x m,
            )
        | inr m ↦ inr m
      ]
    ]
special-Answers t u cs tok toks x w r (spec_wildcard s) p below h =
    inl (
      ([], rest),
      ap some (fall_back-IsNearest (some (s, tok.ptr)) p r h),
      wildcard-Takes tok toks x,
    )
special-Answers t u cs tok toks x w r spec_none p below h = inr (fall_back-IsNearest w p r h)
special-Answers t u cs tok toks x w r spec_param_null p below h = inr (fall_back-IsNearest w p r h)
special-Answers t u cs tok toks x w r spec_wildcard_null p below h =
    inr (fall_back-IsNearest w p r h)

-- The route that a walk finds is that of a pattern in the tree that takes the request, or that of the nearest wildcard passed before.
pub tree_walk-Answers :
    (toks : List Token) (x : TokenType) (n : Node) (w : Wildcard) (p : Params) (r : Route)
    → found (tree_walk toks x n w p) ≡ some r
    → Answers n r toks x ⊎ IsNearest w r
unfolding tree_walk route_at take_special
tree_walk-Answers [] x (node t u sp cs) w p r h = inl (arrive-Answers t u sp cs x w p r h)
tree_walk-Answers (tok ∷ toks) x (node t u sp cs) w p r h =
    elim (Option-cases (child_named cs (text_of tok))) [
      | inr (child, there) ↦
          below_child t u sp cs tok toks x w r child there
            (tree_walk-Answers toks x child (nearest sp tok w) p r (rw (there, tree_walk) at h))
      | inl miss ↦
          special-Answers t u cs tok toks x w r sp p
            (λ child p'. tree_walk-Answers toks x child (nearest sp tok w) p' r)
            (rw (miss, tree_walk) at h)
    ]
