-- ===== src/Compiler/Names.antt =====
-- A tree whose names are strings of two lists, and what that gives for the lists that are sorted.
use libwrouter.Base.{◌≤◌, ◌≡◌, sym, ◌∙◌, List, length}
use libwrouter.Text.{Bytes}
use libwrouter.Text.Compare.{NulFree}
use libwrouter.Segment.{
  Node, Special, Segments, node, spec_none, spec_param, spec_wildcard, spec_param_null,
  spec_wildcard_null, nil, cons,
}
use libwrouter.Segment.Shape.{FreshName, DistinctNames, IsTree, IsTreeSpecial, IsTreeChildren}
use libwrouter.Symbol.{Symbols}
use libwrouter.Symbol.Sort.{In}
use libwrouter.Symbol.Resolve.{IsSymbolList, symbol_resolve_injective}
use libwrouter.Graph.Literals.{lit_of}
use libwrouter.Graph.Represents.{
  IsCompilable, IsCompilableSpecial, IsCompilableChildren, FreshChild, DistinctChildren,
}
use libwrouter.Router.Tree.{IsNamed, IsNamedSpecial, IsNamedChildren}
use libwrouter.Router.Names.{lit_of-eq}

module _ (ls ps : List Bytes) (L P : Symbols) (list : IsSymbolList L) (few : length L.base ≤ 65535)
    (of_ls : (str : Bytes) → In str ls → In str L.base)
    (of_ps : (str : Bytes) → In str ps → In str P.base) where
  lit_injective : (a b : Bytes) → NulFree a → NulFree b → In a ls → lit_of L a ≡ lit_of L b → a ≡ b
  lit_injective a b na nb member e =
      symbol_resolve_injective L a b list na nb (of_ls a member)
        (sym (lit_of-eq L a list few na) ∙ (e ∙ lit_of-eq L b list few nb))

  fresh_by :
      (a : Bytes) (cs : Segments)
      → NulFree a
      → In a ls
      → FreshName a cs
      → IsTreeChildren ls ps cs
      → FreshChild (lit_of L) (lit_of L a) cs
  unfolding IsTree
  fresh_by a nil n member f tree = tt
  fresh_by a (cons str child cs) n member f tree =
      (λ clash. f.0 (lit_injective a str n tree.0 member clash), fresh_by a cs n member f.1 tree.3)

  distinct_by :
      (cs : Segments) → DistinctNames cs → IsTreeChildren ls ps cs → DistinctChildren (lit_of L) cs
  unfolding IsTree
  distinct_by nil d tree = tt
  distinct_by (cons str child cs) d tree =
      (fresh_by str cs tree.0 tree.1 d.0 tree.3, distinct_by cs d.1 tree.3)

  mutual
    unfolding IsTree IsCompilable IsNamed

    IsCompilable-node : (n : Node) → IsTree ls ps n → IsCompilable (lit_of L) n × IsNamed L P n
    IsCompilable-node (node t u sp cs) tree =
        let (c, m) = compilable_special sp tree.2 in
        let (c', m') = compilable_children cs tree.3 in
        ((tree.0, distinct_by cs tree.1 tree.3, c, c'), (m, m'))

    compilable_special :
        (sp : Special)
        → IsTreeSpecial ls ps sp
        → IsCompilableSpecial (lit_of L) sp × IsNamedSpecial L P sp
    compilable_special (spec_param str child) tree =
        let (c, m) = IsCompilable-node child tree.2 in (c, (tree.0, of_ps str tree.1, m))
    compilable_special spec_none tree = (tt, tt)
    compilable_special (spec_wildcard r) tree = (tt, tt)
    compilable_special spec_param_null tree = absurd tree
    compilable_special spec_wildcard_null tree = absurd tree

    compilable_children :
        (cs : Segments)
        → IsTreeChildren ls ps cs
        → IsCompilableChildren (lit_of L) cs × IsNamedChildren L P cs
    compilable_children nil tree = (tt, tt)
    compilable_children (cons str child cs) tree =
        let (c, m) = IsCompilable-node child tree.2 in
        let (c', m') = compilable_children cs tree.3 in ((c, c'), (tree.0, of_ls str tree.1, m, m'))

  pub IsTree-by_names : (n : Node) → IsTree ls ps n → IsCompilable (lit_of L) n × IsNamed L P n
  IsTree-by_names n tree = IsCompilable-node n tree
