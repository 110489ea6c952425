-- ===== src/Router/Instance.antt =====
-- Which requests are instances of a pattern, and what the tree gives for them.
use libwrouter.Base.{
  ◌+◌, ◌≤◌, ◌≡◌, ◌≢◌, refl, ◌∙◌, ap, ◌⊎◌, inl, inr, List, [], ◌∷◌, ◌++◌, true, Option, none, some,
  arith, ltb, length-append, append-nil, append_assoc, Bool-cases, Option-cases,
}
use libwrouter.Text.{bytes_eq}
use libwrouter.Text.Compare.{bytes_eq_sound}
use libwrouter.World.{returns, crashes}
use libwrouter.Token.{Token, TokenType, text_of}
use libwrouter.Route.{Route}
use libwrouter.Params.{Param, Params, param_next, count}
use libwrouter.Prelexer.Pattern.{Piece, lit, par, Ending, finished, slashed, rest}
use libwrouter.Segment.{Node, Special, Segments, node, spec_param}
use libwrouter.Graph.Depth.{captured}
use libwrouter.Router.Tree.{child_named, Wildcard, nearest, Outcome, take_special, tree_walk}
use libwrouter.Builder.Insert.{route_at}
use libwrouter.Builder.Exclusive.{IsExclusive, child_named-IsExclusive}

-- The literals of a request and the token behind them are an instance of the pattern.
abbrev pub Reads : List Piece → Ending → List Token → TokenType → Type 0
Reads [] finished [] t = t ≡ TokenType.end
Reads [] slashed [] t = t ≡ TokenType.trailing
Reads [] rest (tok ∷ toks) t = t ≢ TokenType.illegal
Reads (lit name ∷ ps) e (tok ∷ toks) t = (text_of tok ≡ name) × Reads ps e toks t
Reads (par name ∷ ps) e (tok ∷ toks) t = Reads ps e toks t
Reads _ _ _ _ = ⊥

-- The request is illegal: it starts with the pieces and a legal literal behind them, and goes on to an
-- illegal byte or an empty segment.
abbrev pub Spoils : List Piece → List Token → TokenType → Type 0
Spoils [] (tok ∷ toks) t = t ≡ TokenType.illegal
Spoils (lit name ∷ ps) (tok ∷ toks) t = (text_of tok ≡ name) × Spoils ps toks t
Spoils (par name ∷ ps) (tok ∷ toks) t = Spoils ps toks t
Spoils _ _ _ = ⊥

-- The parameters of a request that is an instance.
abbrev pub values : List Piece → List Token → List Param
values (par name ∷ ps) (tok ∷ toks) =
    record { name = some name; value = tok.ptr; length = tok.length } ∷ values ps toks
values (lit name ∷ ps) (tok ∷ toks) = values ps toks
values _ _ = []

-- More parameters.
abbrev pub filled_by : Params → List Param → Params
filled_by p xs = record p { base = p.base ++ xs }

-- The route that a walk finds.
abbrev pub found : Outcome → Option Route
found crashes = none
found (returns (route, ps)) = route

ended :
    (t u : Option Route) (sp : Special) (cs : Segments) (w : Wildcard) (p : Params) (r : Route)
    (x : TokenType)
    → ((t ≡ some r) × (x ≡ TokenType.end)) ⊎ ((u ≡ some r) × (x ≡ TokenType.trailing))
    → tree_walk [] x (node t u sp cs) w p ≡ returns (some r, filled_by p [])
unfolding tree_walk
ended t u sp cs w p r x (inl (h, k)) = cc (ap (λ l. record p { base = l }) (append-nil p.base))
ended t u sp cs w p r x (inr (h, k)) = cc (ap (λ l. record p { base = l }) (append-nil p.base))

-- In a tree whose nodes with a parameter have no children, where there is room for the parameters of
-- the pattern: for an instance of a pattern without a wildcard that has a route, the walk gives this
-- route, and adds the parameters of the instance.
pub tree_walk-Reads :
    (ps : List Piece) (e : Ending) (toks : List Token) (t : TokenType) (n : Node) (w : Wildcard)
    (p : Params) (r : Route)
    → IsExclusive n
    → e ≢ rest
    → route_at ps e n ≡ some r
    → Reads ps e toks t
    → count p + captured ps e ≤ p.capacity
    → tree_walk toks t n w p ≡ returns (some r, filled_by p (values ps toks))
unfolding tree_walk route_at IsExclusive take_special param_next child_named
tree_walk-Reads [] finished [] t (node t' u sp cs) w p r x ne h k room =
    ended t' u sp cs w p r t (inl (h, k))
tree_walk-Reads [] slashed [] t (node t' u sp cs) w p r x ne h k room =
    ended t' u sp cs w p r t (inr (h, k))
tree_walk-Reads [] rest toks t n w p r x ne h k room = absurd (ne refl)
tree_walk-Reads [] finished (tok ∷ toks) t n w p r x ne h k room = absurd k
tree_walk-Reads [] slashed (tok ∷ toks) t n w p r x ne h k room = absurd k
tree_walk-Reads (lit name ∷ ps) e [] t n w p r x ne h k room = absurd k
tree_walk-Reads (par name ∷ ps) e [] t n w p r x ne h k room = absurd k
tree_walk-Reads (lit name ∷ ps) e (tok ∷ toks) t (node t' u sp cs) w p r x ne h k room =
    elim (Option-cases (child_named cs name)) [
      | inl miss ↦ cc (rw (miss, route_at) at h)
      | inr (child, there) ↦
          rw (k.0, there, tree_walk)
            (tree_walk-Reads ps e toks t child (nearest sp tok w) p r
              (child_named-IsExclusive cs name child x.1 there) ne (rw (there, route_at) at h) k.1
              room)
    ]
tree_walk-Reads (par name ∷ ps) e (tok ∷ toks) t (node t' u (spec_param str child) cs) w p r x ne h
      k room =
    elim (Bool-cases (bytes_eq str name)) [
      | inr differ ↦ cc (rw (differ, route_at) at h)
      | inl same ↦
          let fits : ltb (count p) p.capacity ≡ true = ground arith in
          let cell : Param = record { name = some str; value = tok.ptr; length = tok.length } in
          let p' = filled_by p (cell ∷ []) in
          let walk =
            tree_walk-Reads ps e toks t child (nearest (spec_param str child) tok w) p' r x.0.1 ne
              (rw (same, route_at) at h) k (omega (arith, length-append p.base (cell ∷ []))) in
          let eq : filled_by p' (values ps toks)
              ≡ filled_by p (values (par name ∷ ps) (tok ∷ toks)) =
            cc (append_assoc p.base (cell ∷ []) (values ps toks), bytes_eq_sound str name same) in
          rw (x.0.0, fits, tree_walk, take_special, param_next, child_named)
            (walk ∙ ap (λ y. returns (some r, y)) eq)
    ]
tree_walk-Reads (par name ∷ ps) e (tok ∷ toks) t (node t' u sp cs) w p r x ne h k room = absurd cc
