-- ===== src/Router/Step.antt =====
-- One round of the loop of route_match against one step down the tree.
use mathlib.Core.Option
use libwrouter.Base.{ℕ, ◌+◌, ◌≡◌, refl, ◌∙◌, ap, inl, inr, true, false, Option, some, none, bit_and}
use libwrouter.Text.{Bytes}
use libwrouter.Text.Compare.{NulFree}
use libwrouter.Token.{Token}
use libwrouter.World.{Run, returns, crashes, Run-cases}
use libwrouter.Lexer.{Lexer}
use libwrouter.Route.{Route}
use libwrouter.Params.{Param, Params, param_next}
use libwrouter.Segment.{
  Node, Special, Segments, node, spec_none, spec_param, spec_wildcard, spec_param_null,
  spec_wildcard_null, child_count,
}
use libwrouter.Symbol.{symbol_lookup}
use libwrouter.Symbol.Sort.{In}
use libwrouter.Symbol.Resolve.{symbol_lookup-symbol_resolve}
use libwrouter.Terminal.{terminal_lookup}
use libwrouter.Terminal.Lookup.{Holds, terminal_lookup_found}
use libwrouter.Graph.Cells.{
  Cells, uint16, flag_has_param, flag_has_wildcard, flag_has_trailing, flag_terminal, literals_mask,
}
use libwrouter.Graph.Literals.{lit_of}
use libwrouter.Graph.Represents.{Represents, RepresentsSpecial}
use libwrouter.Router.{Router, Match, has, bytes_left, wildcard_param, at_terminal, at_wildcard}
use libwrouter.Router.Tree.{
  Wildcard, nearest, Outcome, fall_back, take_special, IsNamed, IsNamedSpecial,
}
use libwrouter.Router.Flags.{
  is_param, is_wildcard, is_some, has-terminal, has-param, has-wildcard, has-trailing,
  literals-word,
}
use libwrouter.Router.Names.{IsSound, At, lit_of-eq}

-- What of a match the tree's description speaks of.
abbrev pub view : Run Match → Outcome
view crashes = crashes
view (returns m) = returns (m.route, m.params)

abbrev pub seen : Option (Run Match) → Option Outcome
seen = Option.map view

module _ (router : Router) (g : Cells) (sound : IsSound router) where
  -- The edge and the rest of the path that the loop remembers are those of the nearest wildcard.
  abbrev pub Remembers : Option ℕ → Option Bytes → Wildcard → Type 0
  Remembers w_edge w_param none = w_edge ≡ none
  Remembers w_edge w_param (some (r, rest)) =
      (o : ℕ) × (w_edge ≡ some o) × Holds router.terminals (g o) r × (w_param ≡ rest)

  pub found_terminal :
      (o : ℕ) (r : Route) → Holds router.terminals o r → terminal_lookup router.terminals o ≡ some r
  found_terminal o r h = terminal_lookup_found router.terminals o r sound.terminals h

  wildcard_param_of : Option Bytes → Param
  wildcard_param_of rest = record {
    name = some wildcard_param;
    value = rest;
    length = uint16 (bytes_left rest);
  }

  pub at_wildcard_refines :
      (w_edge : Option ℕ) (w_param : Option Bytes) (w : Wildcard) (lx : Lexer) (ps : Params)
      → Remembers w_edge w_param w
      → view (at_wildcard router g w_edge w_param lx ps) ≡ fall_back w ps
  unfolding at_wildcard fall_back at_terminal wildcard_param_of
  at_wildcard_refines w_edge w_param none lx ps h = rw (h, at_wildcard)
  at_wildcard_refines w_edge w_param (some (r, rest)) lx ps (o, e, entry, same) =
      elim (Run-cases (param_next ps (wildcard_param_of rest))) [
        | inl crash ↦ rw (e, same, crash, at_wildcard, fall_back) refl
        | inr (ps', ok) ↦
            rw (e, same, ok, at_wildcard, fall_back, found_terminal (g o) r entry) refl
      ]

  -- Going on at an offset does what `down` does at the node that the offset represents.
  abbrev pub Follows : (ℕ → Params → Option (Run Match)) → (Node → Params → Outcome) → Type 0
  Follows go down =
      (child : Node) (o : ℕ) (ps : Params)
      → At router g sound child o
      → IsNamed router.literals router.params child
      → seen (go o ps) ≡ some (down child ps)

  -- The special segment of a node, at the edge.
  abbrev pub EdgeAt : Special → ℕ → Type 0
  EdgeAt =
      RepresentsSpecial (lit_of router.literals) (lit_of router.params) (Holds router.terminals) g

  abbrev pub param_of : Option Bytes → Token → Param
  param_of name tok = record { name = name; value = tok.ptr; length = tok.length }

  symbol_lookup-edge :
      (str : Bytes) (symbol : ℕ)
      → symbol ≡ lit_of router.params str
      → NulFree str
      → In str router.params.base
      → symbol_lookup router.params symbol ≡ returns (some str)
  symbol_lookup-edge str symbol e n member =
      ap (symbol_lookup router.params)
        (e ∙ lit_of-eq router.params str sound.params sound.few_params n)
      ∙ symbol_lookup-symbol_resolve router.params str sound.params n member

  module _ (go : ℕ → Params → Option (Run Match)) (down : Node → Params → Outcome)
      (follows : Follows go down) (lx : Lexer) (tok : Token) (w_edge : Option ℕ)
      (w_param : Option Bytes) (w : Wildcard) (ps : Params) where
    abbrev pub param_step : Run (Option Bytes) → ℕ → Option (Run Match)
    param_step found edge = elim found [
      | crashes ↦ some crashes
      | returns name ↦ elim (param_next ps (param_of name tok)) [
        | crashes ↦ some crashes
        | returns ps' ↦ go (g (edge + 1)) ps'
      ]
    ]

    -- `Check for parameter.` and what follows it.
    abbrev pub special_step : Special → ℕ → Option (Run Match)
    special_step sp edge = elim (is_param sp) [
      | false ↦ some (at_wildcard router g w_edge w_param lx ps)
      | true ↦ param_step (symbol_lookup router.params (g edge)) edge
    ]

    param_refines :
        (r : Run Params) (child : Node) (o : ℕ)
        → At router g sound child o
        → IsNamed router.literals router.params child
        → seen (elim r [ crashes ↦ some crashes | returns ps' ↦ go o ps' ])
          ≡ some (elim r [ crashes ↦ crashes | returns ps' ↦ down child ps' ])
    param_refines crashes child o rep named = refl
    param_refines (returns ps') child o rep named = follows child o ps' rep named

    pub special_refines :
        (sp : Special) (edge : ℕ)
        → EdgeAt sp edge
        → IsNamedSpecial router.literals router.params sp
        → Remembers w_edge w_param (nearest sp tok w)
        → seen (special_step sp edge) ≡ some (take_special down sp tok w ps)
    unfolding take_special Represents IsNamed
    special_refines (spec_param str child) edge rep named h =
        ap (λ name. seen (param_step name edge))
          (symbol_lookup-edge str (g edge) rep.0 named.0 named.1)
        ∙ param_refines (param_next ps (param_of (some str) tok)) child (g (edge + 1)) rep.1 named.2
    special_refines (spec_wildcard r) edge rep named h =
        ap some (at_wildcard_refines w_edge w_param (some (r, tok.ptr)) lx ps h)
    special_refines spec_none edge rep named h =
        ap some (at_wildcard_refines w_edge w_param w lx ps h)
    special_refines spec_param_null edge rep named h = absurd rep
    special_refines spec_wildcard_null edge rep named h = absurd rep

  module _ (t u : Option Route) (sp : Special) (cs : Segments) (at : ℕ)
      (rep : At router g sound (node t u sp cs) at)
      (named : IsNamed router.literals router.params (node t u sp cs)) where
    pub has_param : has (g at) flag_has_param ≡ is_param sp
    unfolding Represents
    has_param = ap (λ n. has n flag_has_param) rep.0 ∙ has-param t u sp cs rep.6

    pub has_wildcard : has (g at) flag_has_wildcard ≡ is_wildcard sp
    unfolding Represents
    has_wildcard = ap (λ n. has n flag_has_wildcard) rep.0 ∙ has-wildcard t u sp cs rep.6

    pub has_trailing : has (g at) flag_has_trailing ≡ is_some u
    unfolding Represents
    has_trailing = ap (λ n. has n flag_has_trailing) rep.0 ∙ has-trailing t u sp cs rep.6

    pub has_terminal : has (g at) flag_terminal ≡ is_some t
    unfolding Represents
    has_terminal = ap (λ n. has n flag_terminal) rep.0 ∙ has-terminal t u sp cs rep.6

    pub literals_count : bit_and (g at) literals_mask ≡ child_count cs
    unfolding Represents
    literals_count = ap (λ n. bit_and n literals_mask) rep.0 ∙ literals-word t u sp cs rep.6
