-- ===== src/Segment/Shape.antt =====
-- The shape of a builder's tree: names of the tables, different ones at each node, and no NULL.
use libwrouter.Base.{◌≤◌, ◌≢◌, List, arith}
use libwrouter.Text.{Bytes}
use libwrouter.Text.Compare.{NulFree}
use libwrouter.Segment.{
  Node, Special, Segments, node, spec_none, spec_param, spec_wildcard, spec_param_null,
  spec_wildcard_null, nil, cons, child_count, empty_node,
}
use libwrouter.Symbol.Sort.{In}

-- The name is that of none of the children.
abbrev pub FreshName : Bytes → Segments → Type 0
FreshName name nil = Unit
FreshName name (cons str child cs) = (name ≢ str) × FreshName name cs

abbrev pub DistinctNames : Segments → Type 0
DistinctNames nil = Unit
DistinctNames (cons str child cs) = FreshName str cs × DistinctNames cs

-- The children of a node have different names, at most 4095 of them; all names are null-terminated
-- strings of the lists, and there is no NULL.
unfoldable mutual
  pub IsTree : List Bytes → List Bytes → Node → Type 0
  IsTree ls ps (node t u sp cs) =
      (child_count cs ≤ 4095) × DistinctNames cs × IsTreeSpecial ls ps sp × IsTreeChildren ls ps cs

  pub IsTreeSpecial : List Bytes → List Bytes → Special → Type 0
  IsTreeSpecial ls ps (spec_param str child) = NulFree str × In str ps × IsTree ls ps child
  IsTreeSpecial ls ps spec_none = Unit
  IsTreeSpecial ls ps (spec_wildcard r) = Unit
  IsTreeSpecial ls ps spec_param_null = ⊥
  IsTreeSpecial ls ps spec_wildcard_null = ⊥

  pub IsTreeChildren : List Bytes → List Bytes → Segments → Type 0
  IsTreeChildren ls ps nil = Unit
  IsTreeChildren ls ps (cons str child cs) =
      NulFree str × In str ls × IsTree ls ps child × IsTreeChildren ls ps cs

-- The lists may grow.
module _ (ls ps ls' ps' : List Bytes) (more : (s : Bytes) → In s ls → In s ls')
    (more' : (s : Bytes) → In s ps → In s ps') where
  mutual
    unfolding IsTree

    grow_node : (n : Node) → IsTree ls ps n → IsTree ls' ps' n
    grow_node (node t u sp cs) h = (h.0, h.1, grow_special sp h.2, grow_children cs h.3)

    grow_special : (sp : Special) → IsTreeSpecial ls ps sp → IsTreeSpecial ls' ps' sp
    grow_special (spec_param str child) h = (h.0, more' str h.1, grow_node child h.2)
    grow_special spec_none h = tt
    grow_special (spec_wildcard r) h = tt
    grow_special spec_param_null h = absurd h
    grow_special spec_wildcard_null h = absurd h

    grow_children : (cs : Segments) → IsTreeChildren ls ps cs → IsTreeChildren ls' ps' cs
    grow_children nil h = tt
    grow_children (cons str child cs) h =
        (h.0, more str h.1, grow_node child h.2, grow_children cs h.3)

  pub IsTree-grow : (n : Node) → IsTree ls ps n → IsTree ls' ps' n
  IsTree-grow n h = grow_node n h

  pub IsTreeSpecial-grow : (sp : Special) → IsTreeSpecial ls ps sp → IsTreeSpecial ls' ps' sp
  IsTreeSpecial-grow sp h = grow_special sp h

  pub IsTreeChildren-grow : (cs : Segments) → IsTreeChildren ls ps cs → IsTreeChildren ls' ps' cs
  IsTreeChildren-grow cs h = grow_children cs h

pub empty_node-IsTree : (ls ps : List Bytes) → IsTree ls ps empty_node
unfolding IsTree
empty_node-IsTree ls ps = (omega arith, tt, tt, tt)
