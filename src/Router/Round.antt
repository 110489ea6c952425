-- ===== src/Router/Round.antt =====
-- A round of the loop of route_match: what it does at a node of the tree, for each token.

use libwrouter.Base.{
  ℕ, ◌+◌, ◌≡◌, ◌≢◌, refl, ap, inl, inr, Option, some, none, arith, Option-cases, if◌then◌else◌,
}
use libwrouter.Text.{Bytes}
use libwrouter.Text.Compare.{NulFree}
use libwrouter.Token.{Token, TokenType, text_of}
use libwrouter.World.{Run, returns}
use libwrouter.Lexer.{Lexer}
use libwrouter.Route.{Route}
use libwrouter.Params.{Params}
use libwrouter.Segment.{
  Node, Special, Segments, node, spec_none, spec_param, spec_wildcard, spec_param_null,
  spec_wildcard_null,
}
use libwrouter.Terminal.Lookup.{Holds}
use libwrouter.Graph.Cells.{Cells}
use libwrouter.Graph.Compile.{edges_special}
use libwrouter.Graph.Literals.{lit_of}
use libwrouter.Graph.Represents.{Entry, Represents, edge_base}
use libwrouter.Router.{
  Router, Match, Walk, behind, at_terminal, at_literal, at_trailing, at_end, visit, not_found,
}
use libwrouter.Router.Tree.{
  child_named, Wildcard, nearest, Outcome, hit, arrive, take_special, IsNamed,
}
use libwrouter.Router.Flags.{is_param, is_wildcard, is_some}
use libwrouter.Router.Step.{
  EdgeAt, view, seen, Remembers, Follows, found_terminal, special_refines, has_param, has_wildcard,
  has_trailing, has_terminal, literals_count,
}
use libwrouter.Router.Names.{IsSound, At, follow_literal-found, follow_literal-none}

-- What a node's special segment makes of the edge that the loop remembers.
abbrev pub next_edge : Special → ℕ → Option ℕ → Option ℕ
next_edge sp at w_edge = if is_wildcard sp then some (behind (is_param sp) 2 (at + 1)) else w_edge

abbrev pub next_param : Special → Token → Option Bytes → Option Bytes
next_param sp tok w_param = if is_wildcard sp then tok.ptr else w_param

base_lem :
    (u : Option Route) (sp : Special) (at : ℕ)
    → behind (is_some u) 1 (behind (is_wildcard sp) 1 (behind (is_param sp) 2 (at + 1)))
      ≡ edge_base u sp at
base_lem none (spec_param str child) at = omega arith
base_lem (some r) (spec_param str child) at = omega arith
base_lem none (spec_wildcard r') at = omega arith
base_lem (some r) (spec_wildcard r') at = omega arith
base_lem none sp at = omega arith
base_lem (some r) sp at = omega arith

trailing_lem :
    (sp : Special) (at : ℕ)
    → behind (is_wildcard sp) 1 (behind (is_param sp) 2 (at + 1)) ≡ at + 1 + edges_special sp
trailing_lem (spec_param str child) at = omega arith
trailing_lem (spec_wildcard r') at = omega arith
trailing_lem sp at = omega arith

pub Remembers-next :
    (router : Router) (g : Cells) (sound : IsSound router) (sp : Special) (at : ℕ) (tok : Token)
    (w_edge : Option ℕ) (w_param : Option Bytes) (w : Wildcard)
    → EdgeAt router g sound sp (at + 1)
    → Remembers router g sound w_edge w_param w
    → Remembers router g sound
        (next_edge sp at w_edge)
        (next_param sp tok w_param)
        (nearest sp tok w)
unfolding Represents
Remembers-next router g sound (spec_wildcard r) at tok w_edge w_param w rep h =
    (at + 1, refl, rep, refl)
Remembers-next router g sound (spec_param str child) at tok w_edge w_param w rep h = h
Remembers-next router g sound spec_none at tok w_edge w_param w rep h = h
Remembers-next router g sound spec_param_null at tok w_edge w_param w rep h = h
Remembers-next router g sound spec_wildcard_null at tok w_edge w_param w rep h = h

module _ (router : Router) (g : Cells) (sound : IsSound router) (t u : Option Route) (sp : Special)
    (cs : Segments) (at : ℕ) (rep : At router g sound (node t u sp cs) at)
    (named : IsNamed router.literals router.params (node t u sp cs)) where
  literal_refines :
      (go : ℕ → Params → Option (Run Match)) (down : Node → Params → Outcome)
      → Follows router g sound go down
      → (lx : Lexer) (tok : Token) (w_edge : Option ℕ) (w_param : Option Bytes) (w : Wildcard)
        (ps : Params)
      → NulFree (text_of tok)
      → Remembers router g sound w_edge w_param (nearest sp tok w)
      → seen (at_literal router g go at (g at) (edge_base u sp at) lx tok w_edge w_param ps)
        ≡ some (elim (child_named cs (text_of tok)) [
          | some child ↦ down child ps
          | none ↦ take_special down sp tok w ps
        ])
  unfolding at_literal Represents IsNamed
  literal_refines go down follows lx tok w_edge w_param w ps nul h =
      let flag = has_param router g sound t u sp cs at rep named in
      let count = literals_count router g sound t u sp cs at rep named in
      elim (Option-cases (child_named cs (text_of tok))) [
        | inl e ↦
            let f =
              follow_literal-none router g sound tok (g at) (edge_base u sp at) cs count nul rep.5
                named.1 e in
            rw (f, e, flag, at_literal)
              (special_refines router g sound go down follows lx tok w_edge w_param w ps sp (at + 1)
                rep.2 named.0 h)
        | inr (child, e) ↦
            let (o, f, rep', names) =
              follow_literal-found router g sound tok (g at) (edge_base u sp at) cs count nul child
                rep.4 named.1 e in
            rw (f, e, at_literal) (follows child o ps rep' names)
      ]

  module _ (go : Walk → Option (Run Match)) (before : Lexer) (w_edge : Option ℕ)
      (w_param : Option Bytes) (ps : Params) (lx : Lexer) (tok : Token) (w : Wildcard)
      (h : Remembers router g sound w_edge w_param w) where
    abbrev pub here : Walk
    here = record { lx = before; cursor = at; w_edge = w_edge; w_param = w_param; params = ps }

    -- The walk after the round, at an offset.
    abbrev pub onward : ℕ → Params → Walk
    onward o ps' = record {
      lx = lx;
      cursor = o;
      w_edge = next_edge sp at w_edge;
      w_param = next_param sp tok w_param;
      params = ps';
    }

    pub visit_literal :
        (down : Node → Params → Outcome)
        → Follows router g sound (λ o ps'. go (onward o ps')) down
        → NulFree (text_of tok)
        → tok.type ≡ TokenType.literal
        → seen (visit router g go here lx tok)
          ≡ some (elim (child_named cs (text_of tok)) [
            | some child ↦ down child ps
            | none ↦ take_special down sp tok w ps
          ])
    unfolding visit Represents
    visit_literal down follows nul type =
        rw
          (
            type,
            has_param router g sound t u sp cs at rep named,
            has_wildcard router g sound t u sp cs at rep named,
            has_trailing router g sound t u sp cs at rep named,
            base_lem u sp at,
            visit,
          )
          (literal_refines (λ o ps'. go (onward o ps')) down follows lx tok (next_edge sp at w_edge)
            (next_param sp tok w_param) w ps nul
            (Remembers-next router g sound sp at tok w_edge w_param w rep.2 h))

    -- The terminal at an offset, where there is one.
    ending_refines :
        (v : Option Route) (o : ℕ)
        → Entry (lit_of router.literals) (lit_of router.params) (Holds router.terminals) g v o
        → view (returns (if is_some v then at_terminal router g o lx ps else not_found lx ps))
          ≡ returns (hit v ps)
    unfolding at_terminal
    ending_refines none o e = refl
    ending_refines (some r) o e = rw (found_terminal router g sound o r e, at_terminal) refl

    pub visit_ending :
        (ty : TokenType)
        → tok.type ≡ ty
        → ty ≢ TokenType.literal
        → seen (visit router g go here lx tok) ≡ some (returns (arrive ty t u ps))
    unfolding visit Represents at_end at_trailing
    visit_ending TokenType.literal type ne = absurd (ne refl)
    visit_ending TokenType.end type ne =
        rw (type, has_terminal router g sound t u sp cs at rep named, visit, at_end)
          (ap some (ending_refines t at rep.1))
    visit_ending TokenType.trailing type ne =
        rw
          (
            type,
            has_param router g sound t u sp cs at rep named,
            has_wildcard router g sound t u sp cs at rep named,
            has_trailing router g sound t u sp cs at rep named,
            trailing_lem sp at,
            visit,
            at_trailing,
          )
          (ap some (ending_refines u (g (at + 1 + edges_special sp)) rep.3))
    visit_ending TokenType.illegal type ne = rw (type, visit) refl
    visit_ending TokenType.param type ne = rw (type, visit) refl
    visit_ending TokenType.wildcard type ne = rw (type, visit) refl
