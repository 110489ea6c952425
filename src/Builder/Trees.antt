-- ===== src/Builder/Trees.antt =====
-- A well-formed tree, with a child added or changed.
use mathlib.Core.Option.{some-injective}
use mathlib.Core.Path.{subst}
use libwrouter.Base.{suc, ◌≡◌, ◌≢◌, refl, sym, ◌∙◌, ap, inl, inr, List, none, some, Bool-cases}
use libwrouter.Text.{Bytes, bytes_eq}
use libwrouter.Text.Compare.{NulFree, bytes_eq_refl}
use libwrouter.Segment.{Node, Segments, nil, cons, child_count, append_segment}
use libwrouter.Segment.Shape.{FreshName, DistinctNames, IsTree, IsTreeChildren}
use libwrouter.Symbol.Sort.{In}
use libwrouter.Router.Tree.{child_named}
use libwrouter.Builder.Insert.{set_child}

pub child_count-append_segment :
    (cs : Segments) (name : Bytes) (n : Node)
    → child_count (append_segment cs name n) ≡ suc (child_count cs)
child_count-append_segment nil name n = refl
child_count-append_segment (cons str c cs) name n = ap suc (child_count-append_segment cs name n)

pub child_count-set_child :
    (cs : Segments) (name : Bytes) (n : Node) → child_count (set_child cs name n) ≡ child_count cs
child_count-set_child nil name n = refl
child_count-set_child (cons str c cs) name n = elim (Bool-cases (bytes_eq str name)) [
  | inl same ↦ rw same refl
  | inr differ ↦ rw differ (ap suc (child_count-set_child cs name n))
]

FreshName-append_segment :
    (s : Bytes) (cs : Segments) (name : Bytes) (n : Node)
    → FreshName s cs
    → s ≢ name
    → FreshName s (append_segment cs name n)
FreshName-append_segment s nil name n f ne = (ne, tt)
FreshName-append_segment s (cons str c cs) name n f ne =
    (f.0, FreshName-append_segment s cs name n f.1 ne)

pub DistinctNames-append_segment :
    (cs : Segments) (name : Bytes) (n : Node)
    → DistinctNames cs
    → child_named cs name ≡ none
    → DistinctNames (append_segment cs name n)
unfolding child_named
DistinctNames-append_segment nil name n d e = (tt, tt)
DistinctNames-append_segment (cons str c cs) name n d e = elim (Bool-cases (bytes_eq str name)) [
  | inl same ↦ cc (rw (same, child_named) at e)
  | inr differ ↦ (
    FreshName-append_segment str cs name n d.0
        (λ eq. cc (ap (bytes_eq str) (sym eq) ∙ bytes_eq_refl str)),
    DistinctNames-append_segment cs name n d.1 (rw (differ, child_named) at e),
  )
]

FreshName-set_child :
    (s : Bytes) (cs : Segments) (name : Bytes) (n : Node)
    → FreshName s cs
    → FreshName s (set_child cs name n)
FreshName-set_child s nil name n f = tt
FreshName-set_child s (cons str c cs) name n f = elim (Bool-cases (bytes_eq str name)) [
  | inl same ↦ rw same f
  | inr differ ↦ rw differ (f.0, FreshName-set_child s cs name n f.1)
]

pub DistinctNames-set_child :
    (cs : Segments) (name : Bytes) (n : Node)
    → DistinctNames cs
    → DistinctNames (set_child cs name n)
DistinctNames-set_child nil name n d = tt
DistinctNames-set_child (cons str c cs) name n d = elim (Bool-cases (bytes_eq str name)) [
  | inl same ↦ rw same d
  | inr differ ↦
      rw differ (FreshName-set_child str cs name n d.0, DistinctNames-set_child cs name n d.1)
]

module _ (ls ps : List Bytes) where
  pub IsTreeChildren-append_segment :
      (cs : Segments) (name : Bytes) (n : Node)
      → IsTreeChildren ls ps cs
      → NulFree name
      → In name ls
      → IsTree ls ps n
      → IsTreeChildren ls ps (append_segment cs name n)
  unfolding IsTree
  IsTreeChildren-append_segment nil name n h nul member tree = (nul, member, tree, tt)
  IsTreeChildren-append_segment (cons str c cs) name n h nul member tree =
      (h.0, h.1, h.2, IsTreeChildren-append_segment cs name n h.3 nul member tree)

  pub IsTreeChildren-set_child :
      (cs : Segments) (name : Bytes) (n : Node)
      → IsTreeChildren ls ps cs
      → IsTree ls ps n
      → IsTreeChildren ls ps (set_child cs name n)
  unfolding IsTree
  IsTreeChildren-set_child nil name n h tree = tt
  IsTreeChildren-set_child (cons str c cs) name n h tree = elim (Bool-cases (bytes_eq str name)) [
    | inl same ↦ rw same (h.0, h.1, tree, h.3)
    | inr differ ↦ rw differ (h.0, h.1, h.2, IsTreeChildren-set_child cs name n h.3 tree)
  ]

  pub IsTree-child_named :
      (cs : Segments) (name : Bytes) (child : Node)
      → IsTreeChildren ls ps cs
      → child_named cs name ≡ some child
      → IsTree ls ps child
  unfolding child_named IsTree
  IsTree-child_named nil name child h e = cc
  IsTree-child_named (cons str c cs) name child h e = elim (Bool-cases (bytes_eq str name)) [
    | inl same ↦ subst (IsTree ls ps) (some-injective c child (rw (same, child_named) at e)) h.2
    | inr differ ↦ IsTree-child_named cs name child h.3 (rw (differ, child_named) at e)
  ]
