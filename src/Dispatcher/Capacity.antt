-- ===== src/Dispatcher/Capacity.antt =====
-- The cells of a dispatcher's parameters: as many as the router reserves, at any time.

use libwrouter.Base.{
  ◌≡◌, refl, sym, ◌∙◌, ap, inl, inr, List, [], ◌∷◌, Option, none, some, Option-cases, Bool-cases,
  ltb, Bool, true, false,
}
use libwrouter.World.{Run, returns, crashes, Run-cases, returns_injective}
use libwrouter.Token.{Token, TokenType, text_of}
use libwrouter.Route.{Route}
use libwrouter.Params.{Param, Params, param_next, count}
use libwrouter.Segment.{
  Node, Special, node, spec_none, spec_param, spec_wildcard, spec_param_null, spec_wildcard_null,
}
use libwrouter.Router.{bytes_left, wildcard_param}
use libwrouter.Graph.Cells.{uint16}
use libwrouter.Router.Tree.{
  child_named, Wildcard, nearest, Outcome, arrive, fall_back, take_special, tree_walk,
}

-- As many cells as before, if the walk comes to an end.
abbrev pub IsKept : Params → Outcome → Type 0
IsKept p crashes = Unit
IsKept p (returns (route, q)) = q.capacity ≡ p.capacity

has_value : Run Params → Bool
has_value crashes = false
has_value (returns q) = true

capacity-param_next :
    (p : Params) (cell : Param) (q : Params)
    → param_next p cell ≡ returns q
    → q.capacity ≡ p.capacity
unfolding param_next has_value
capacity-param_next p cell q e = elim (Bool-cases (ltb (count p) p.capacity)) [
  | inl h ↦ sym (ap (λ (x : Params). x.capacity) (returns_injective _ q (rw (h, param_next) at e)))
  | inr h ↦ cc (ap has_value (rw (h, param_next) at e))
]

fall_back-IsKept : (w : Wildcard) (p : Params) → IsKept p (fall_back w p)
unfolding fall_back
fall_back-IsKept none p = refl
fall_back-IsKept (some (r, path)) p =
    let cell : Param = record {
      name = some wildcard_param;
      value = path;
      length = uint16 (bytes_left path);
    } in
    elim (Run-cases (param_next p cell)) [
      | inl e ↦ rw (e, fall_back) tt
      | inr (q, e) ↦ rw (e, fall_back) (capacity-param_next p cell q e)
    ]

IsKept-trans : (p q : Params) (o : Outcome) → q.capacity ≡ p.capacity → IsKept q o → IsKept p o
IsKept-trans p q crashes e h = tt
IsKept-trans p q (returns (route, p')) e h = h ∙ e

take_special-IsKept :
    (go : Node → Params → Outcome) (sp : Special) (tok : Token) (w : Wildcard) (p : Params)
    → ((child : Node) (q : Params) → IsKept q (go child q))
    → IsKept p (take_special go sp tok w p)
unfolding take_special
take_special-IsKept go (spec_param str child) tok w p h =
    let cell : Param = record { name = some str; value = tok.ptr; length = tok.length } in
    elim (Run-cases (param_next p cell)) [
      | inl e ↦ rw (e, take_special) tt
      | inr (q, e) ↦
          rw (e, take_special)
            (IsKept-trans p q (go child q) (capacity-param_next p cell q e) (h child q))
    ]
take_special-IsKept go (spec_wildcard r) tok w p h = fall_back-IsKept (some (r, tok.ptr)) p
take_special-IsKept go spec_none tok w p h = fall_back-IsKept w p
take_special-IsKept go spec_param_null tok w p h = fall_back-IsKept w p
take_special-IsKept go spec_wildcard_null tok w p h = fall_back-IsKept w p

arrive-IsKept :
    (x : TokenType) (t u : Option Route) (p : Params) → IsKept p (returns (arrive x t u p))
arrive-IsKept TokenType.end none u p = refl
arrive-IsKept TokenType.end (some r) u p = refl
arrive-IsKept TokenType.trailing t none p = refl
arrive-IsKept TokenType.trailing t (some r) p = refl
arrive-IsKept x t u p = refl

pub tree_walk-IsKept :
    (toks : List Token) (x : TokenType) (n : Node) (w : Wildcard) (p : Params)
    → IsKept p (tree_walk toks x n w p)
unfolding tree_walk
tree_walk-IsKept [] x (node t u sp cs) w p = arrive-IsKept x t u p
tree_walk-IsKept (tok ∷ toks) x (node t u sp cs) w p =
    elim (Option-cases (child_named cs (text_of tok))) [
      | inl miss ↦
          rw (miss, tree_walk)
            (take_special-IsKept (λ child q. tree_walk toks x child (nearest sp tok w) q) sp tok w p
              (λ child q. tree_walk-IsKept toks x child (nearest sp tok w) q))
      | inr (child, there) ↦
          rw (there, tree_walk) (tree_walk-IsKept toks x child (nearest sp tok w) p)
    ]
