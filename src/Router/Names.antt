-- ===== src/Router/Names.antt =====
-- follow_literal finds the child of a segment's name, and nothing where there is no such child.
use mathlib.Core.Path.{subst}
use mathlib.Core.Option.{some-injective}
use libwrouter.Base.{
  ℕ, ◌≤◌, ◌≡◌, ◌≢◌, sym, ◌∙◌, ap, inl, inr, true, some, none, arith, length, bit_and, Bool-cases,
}
use libwrouter.Text.{Bytes, bytes_eq}
use libwrouter.Text.Compare.{NulFree, bytes_eq_sound, bytes_eq_refl}
use libwrouter.Token.{Token, text_of}
use libwrouter.Segment.{Node, Segments, nil, cons, child_count}
use libwrouter.Symbol.{Symbols, symbol_resolve, symbol_nresolve}
use libwrouter.Symbol.Sort.{In}
use libwrouter.Symbol.Resolve.{
  IsSymbolList, symbol_nresolve-eq, symbol_resolve-In, symbol_resolve-le, symbol_resolve_injective,
}
use libwrouter.Terminal.Lookup.{IsSorted, Holds}
use libwrouter.Graph.Cells.{Cells, literals_mask}
use libwrouter.Graph.Literals.{lit_of}
use libwrouter.Graph.Represents.{FreshChild, Represents, RepresentsChildren}
use libwrouter.Router.{Router, follow_symbol, follow_literal}
use libwrouter.Router.Tree.{child_named, IsNamed, IsNamedChildren}

-- What matching relies on: the lists and the dictionary are sorted, and symbols fit a cell.
pub record IsSound (router : Router) : Type 0 where
  pub terminals : IsSorted router.terminals
  pub literals : IsSymbolList router.literals
  pub params : IsSymbolList router.params
  pub few_literals : length router.literals.base ≤ 65535
  pub few_params : length router.params.base ≤ 65535

pub lit_of-eq :
    (syms : Symbols) (str : Bytes)
    → IsSymbolList syms
    → length syms.base ≤ 65535
    → NulFree str
    → lit_of syms str ≡ symbol_resolve syms str
lit_of-eq syms str l few n = omega (arith, symbol_resolve-le syms str l n)

module _ (router : Router) (g : Cells) (sound : IsSound router) where
  abbrev L : Symbols
  L = router.literals

  abbrev P : Symbols
  P = router.params

  abbrev pub At : Node → ℕ → Type 0
  At = Represents (lit_of L) (lit_of P) (Holds router.terminals) g

  abbrev ChildrenAt : Segments → ℕ → ℕ → Type 0
  ChildrenAt = RepresentsChildren (lit_of L) (lit_of P) (Holds router.terminals) g

  -- The edge of a child's name, and the child behind it.
  abbrev pub Found : ℕ → ℕ → Bytes → Node → Type 0
  Found base n name child =
      (o : ℕ) × (follow_symbol g base n (lit_of L name) ≡ some o)
      × At child o
      × IsNamed L P child
      × NulFree name
      × In name L.base

  child-Found :
      (cs : Segments) (base n : ℕ) (name : Bytes) (child : Node)
      → ChildrenAt cs base n
      → IsNamedChildren L P cs
      → child_named cs name ≡ some child
      → Found base n name child
  unfolding child_named Represents IsNamed
  child-Found nil base n name child at named e = cc
  child-Found (cons str c cs) base n name child at named e = elim (Bool-cases (bytes_eq str name)) [
    | inl same ↦
        let c' : some c ≡ some child = rw (same, child_named) at e in
        subst (λ x. Found base n x child) (bytes_eq_sound str name same)
          (subst (λ d. Found base n str d) (some-injective c child c')
            (at.0, at.1, at.2, named.2, named.0, named.1))
    | inr other ↦ child-Found cs base n name child at.3 named.3 (rw (other, child_named) at e)
  ]

  child_fresh :
      (cs : Segments) (name : Bytes)
      → IsNamedChildren L P cs
      → NulFree name
      → child_named cs name ≡ none
      → symbol_resolve L name ≢ 0
      → FreshChild (lit_of L) (symbol_resolve L name) cs
  unfolding child_named IsNamed
  child_fresh nil name named n e h = tt
  child_fresh (cons str c cs) name named n e h = elim (Bool-cases (bytes_eq str name)) [
    | inl same ↦ cc (rw (same, child_named) at e)
    | inr other ↦ (
      λ clash.
          let eq = lit_of-eq L str sound.literals sound.few_literals named.0 in
          let same =
            symbol_resolve_injective L str name sound.literals named.0 n named.1
              (sym (clash ∙ eq)) in
          cc (subst (λ x. bytes_eq str x ≡ true) same (bytes_eq_refl str)),
      child_fresh cs name named.3 n (rw (other, child_named) at e) h,
    )
  ]

  child_count-ne :
      (cs : Segments) (name : Bytes) (child : Node)
      → child_named cs name ≡ some child
      → child_count cs ≢ 0
  unfolding child_named
  child_count-ne nil name child e = cc
  child_count-ne (cons str c cs) name child e = omega arith

  module _ (tok : Token) (word base : ℕ) (cs : Segments)
      (count : bit_and word literals_mask ≡ child_count cs) (n : NulFree (text_of tok)) where
    nresolve : symbol_nresolve L (text_of tok) ≡ symbol_resolve L (text_of tok)
    nresolve = symbol_nresolve-eq L (text_of tok) sound.literals n

    pub follow_literal-found :
        (child : Node)
        → ChildrenAt cs base (child_count cs)
        → IsNamedChildren L P cs
        → child_named cs (text_of tok) ≡ some child
        → (o : ℕ) × (follow_literal router g base word tok ≡ some o)
          × At child o
          × IsNamed L P child
    unfolding follow_literal
    follow_literal-found child at named e =
        let (o, follow, rep, names, nul, member) =
          child-Found cs base (child_count cs) (text_of tok) child at named e in
        let (i, s) = symbol_resolve-In L (text_of tok) sound.literals n member in
        let eq = lit_of-eq L (text_of tok) sound.literals sound.few_literals n in
        let some_child : child_count cs ≢ 0 = child_count-ne cs (text_of tok) child e in
        (
          o,
          ground (arith, nresolve, ap (follow_symbol g base (child_count cs)) (sym eq)),
          rep,
          names,
        )

    pub follow_literal-none :
        ((a : ℕ) → FreshChild (lit_of L) a cs → follow_symbol g base (child_count cs) a ≡ none)
        → IsNamedChildren L P cs
        → child_named cs (text_of tok) ≡ none
        → follow_literal router g base word tok ≡ none
    unfolding follow_literal
    follow_literal-none fresh named e = ground (
      arith,
      nresolve,
      fresh (symbol_resolve L (text_of tok)),
      child_fresh cs (text_of tok) named n e,
    )
