-- ===== src/Router/Tree.antt =====
-- What a request matches, described on the tree of segments: the literals of the request walk down
-- the tree, a child of the same name first, then the parameter; the nearest wildcard that was passed
-- takes a request that has nowhere to go.
use libwrouter.Base.{List, [], ◌∷◌, Option, some, none, if◌then◌else◌}
use libwrouter.Text.{Bytes, bytes_eq}
use libwrouter.Text.Compare.{NulFree}
use libwrouter.Token.{Token, TokenType, text_of}
use libwrouter.World.{Run, returns, crashes}
use libwrouter.Route.{Route}
use libwrouter.Params.{Params, reset, param_next}
use libwrouter.Segment.{
  Node, Special, Segments, node, spec_none, spec_param, spec_wildcard, spec_param_null,
  spec_wildcard_null, nil, cons,
}
use libwrouter.Symbol.{Symbols}
use libwrouter.Symbol.Sort.{In}
use libwrouter.Graph.Cells.{uint16}
use libwrouter.Router.{bytes_left, wildcard_param}

unfoldable pub child_named : Segments → Bytes → Option Node
unfolding bytes_eq
child_named nil name = none
child_named (cons str child cs) name = if bytes_eq str name then some child else child_named cs name

-- The route of the nearest wildcard, and the rest of the path there.
abbrev pub Wildcard : Type 0
Wildcard = Option (Route × Option Bytes)

abbrev pub nearest : Special → Token → Wildcard → Wildcard
nearest (spec_wildcard r) tok w = some (r, tok.ptr)
nearest _ tok w = w

-- The route, if any, and the parameters.
abbrev pub Outcome : Type 0
Outcome = Run (Option Route × Params)

abbrev pub missed : Params → Option Route × Params
missed ps = (none, reset ps)

abbrev pub hit : Option Route → Params → Option Route × Params
hit none ps = missed ps
hit (some r) ps = (some r, ps)

unfoldable pub fall_back : Wildcard → Params → Outcome
fall_back none ps = returns (missed ps)
fall_back (some (r, rest)) ps =
    elim (param_next ps
      (record { name = some wildcard_param; value = rest; length = uint16 (bytes_left rest) })) [
        | crashes ↦ crashes
        | returns ps' ↦ returns (some r, ps')
      ]

-- The request ends at a node: with its terminal, or with its trailing slash.
abbrev pub arrive : TokenType → Option Route → Option Route → Params → Option Route × Params
arrive TokenType.end t u ps = hit t ps
arrive TokenType.trailing t u ps = hit u ps
arrive _ t u ps = missed ps

-- A literal that is no child: it is the parameter, or the nearest wildcard takes the request.
unfoldable pub take_special :
    (Node → Params → Outcome) → Special → Token → Wildcard → Params → Outcome
unfolding fall_back
take_special go (spec_param str child) tok w ps =
    elim (param_next ps (record { name = some str; value = tok.ptr; length = tok.length })) [
      | crashes ↦ crashes
      | returns ps' ↦ go child ps'
    ]
take_special go (spec_wildcard r) tok w ps = fall_back (some (r, tok.ptr)) ps
take_special go spec_none tok w ps = fall_back w ps
take_special go spec_param_null tok w ps = fall_back w ps
take_special go spec_wildcard_null tok w ps = fall_back w ps

unfoldable pub tree_walk : List Token → TokenType → Node → Wildcard → Params → Outcome
unfolding child_named take_special
tree_walk [] ending (node t u sp cs) w ps = returns (arrive ending t u ps)
tree_walk (tok ∷ toks) ending (node t u sp cs) w ps = elim (child_named cs (text_of tok)) [
  | some child ↦ tree_walk toks ending child (nearest sp tok w) ps
  | none ↦
      take_special (λ child ps'. tree_walk toks ending child (nearest sp tok w) ps') sp tok w ps
]

-- The names of the tree are null-terminated strings of the router's symbol lists.
unfoldable mutual
  pub IsNamed : Symbols → Symbols → Node → Type 0
  IsNamed L P (node t u sp cs) = IsNamedSpecial L P sp × IsNamedChildren L P cs

  pub IsNamedSpecial : Symbols → Symbols → Special → Type 0
  IsNamedSpecial L P (spec_param str child) = NulFree str × In str P.base × IsNamed L P child
  IsNamedSpecial L P spec_none = Unit
  IsNamedSpecial L P (spec_wildcard r) = Unit
  IsNamedSpecial L P spec_param_null = Unit
  IsNamedSpecial L P spec_wildcard_null = Unit

  pub IsNamedChildren : Symbols → Symbols → Segments → Type 0
  IsNamedChildren L P nil = Unit
  IsNamedChildren L P (cons str child cs) =
      NulFree str × In str L.base × IsNamed L P child × IsNamedChildren L P cs
