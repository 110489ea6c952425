-- ===== src/Builder/Exclusive.antt =====
-- A node with a parameter has no literal children in the trees that the builder makes.
use mathlib.Core.Path.{subst}
use mathlib.Core.Option.{some-injective}
use libwrouter.Base.{◌≡◌, refl, sym, inl, inr, List, false, some, Bool-cases}
use libwrouter.Text.{Bytes, bytes_eq}
use libwrouter.World.{World}
use libwrouter.Route.{Route}
use libwrouter.Prelexer.Pattern.{Piece, Ending}
use libwrouter.Segment.{
  Node, Special, Segments, node, spec_none, spec_param, spec_wildcard, spec_param_null,
  spec_wildcard_null, nil, cons, empty_node, append_segment,
}
use libwrouter.Router.Tree.{child_named}
use libwrouter.Builder.{Builder, is_param}
use libwrouter.Builder.Api.{Options}
use libwrouter.Builder.Insert.{
  Inserts, terminal, trailing, wildcard, new_child, old_child, new_param, old_param, set_child,
}
use libwrouter.Builder.Contract.{Adds-of}
use libwrouter.Builder.Built.{Calls, Built, created, filled, Built-IsFaithful, root-created}

unfoldable mutual
  pub IsExclusive : Node → Type 0
  IsExclusive (node t u sp cs) = IsExclusiveSpecial sp cs × IsExclusiveChildren cs

  pub IsExclusiveSpecial : Special → Segments → Type 0
  IsExclusiveSpecial (spec_param str child) cs = (cs ≡ nil) × IsExclusive child
  IsExclusiveSpecial spec_none cs = Unit
  IsExclusiveSpecial (spec_wildcard r) cs = Unit
  IsExclusiveSpecial spec_param_null cs = Unit
  IsExclusiveSpecial spec_wildcard_null cs = Unit

  pub IsExclusiveChildren : Segments → Type 0
  IsExclusiveChildren nil = Unit
  IsExclusiveChildren (cons str child cs) = IsExclusive child × IsExclusiveChildren cs

empty_node-IsExclusive : IsExclusive empty_node
unfolding IsExclusive
empty_node-IsExclusive = (tt, tt)

plain : (sp : Special) (cs : Segments) → is_param sp ≡ false → IsExclusiveSpecial sp cs
unfolding IsExclusive
plain (spec_param str child) cs e = absurd cc
plain spec_none cs e = tt
plain (spec_wildcard r) cs e = tt
plain spec_param_null cs e = tt
plain spec_wildcard_null cs e = tt

pub child_named-IsExclusive :
    (cs : Segments) (name : Bytes) (child : Node)
    → IsExclusiveChildren cs
    → child_named cs name ≡ some child
    → IsExclusive child
unfolding IsExclusive child_named
child_named-IsExclusive nil name child h e = absurd cc
child_named-IsExclusive (cons str d cs) name child h e = elim (Bool-cases (bytes_eq str name)) [
  | inl same ↦ subst IsExclusive (some-injective d child (rw (same, child_named) at e)) h.0
  | inr differ ↦ child_named-IsExclusive cs name child h.1 (rw (differ, child_named) at e)
]

append_segment-IsExclusive :
    (cs : Segments) (name : Bytes) (n : Node)
    → IsExclusiveChildren cs
    → IsExclusive n
    → IsExclusiveChildren (append_segment cs name n)
unfolding IsExclusive
append_segment-IsExclusive nil name n h k = (k, tt)
append_segment-IsExclusive (cons str d cs) name n h k =
    (h.0, append_segment-IsExclusive cs name n h.1 k)

set_child-IsExclusive :
    (cs : Segments) (name : Bytes) (n : Node)
    → IsExclusiveChildren cs
    → IsExclusive n
    → IsExclusiveChildren (set_child cs name n)
unfolding IsExclusive
set_child-IsExclusive nil name n h k = tt
set_child-IsExclusive (cons str d cs) name n h k = elim (Bool-cases (bytes_eq str name)) [
  | inl same ↦ rw same (k, h.1)
  | inr differ ↦ rw differ (h.0, set_child-IsExclusive cs name n h.1 k)
]

Inserts-IsExclusive :
    {r : Route} {n n' : Node} {ps : List Piece} {e : Ending}
    → Inserts r n ps e n'
    → IsExclusive n
    → IsExclusive n'
unfolding IsExclusive
Inserts-IsExclusive (terminal tr sp cs) h = h
Inserts-IsExclusive (trailing t sp cs) h = h
Inserts-IsExclusive (wildcard t tr cs) h = (tt, h.1)
Inserts-IsExclusive (new_child t tr sp cs name ps e n clear no_child few nul i) h = (
  plain sp (append_segment cs name n) clear,
  append_segment-IsExclusive cs name n h.1 (Inserts-IsExclusive i empty_node-IsExclusive),
)
Inserts-IsExclusive (old_child t tr sp cs name ps e child n clear there i) h = (
  plain sp (set_child cs name n) clear,
  set_child-IsExclusive cs name n h.1
      (Inserts-IsExclusive i (child_named-IsExclusive cs name child h.1 there)),
)
Inserts-IsExclusive (new_param t tr name ps e n nul i) h =
    ((refl, Inserts-IsExclusive i empty_node-IsExclusive), tt)
Inserts-IsExclusive (old_param t tr name ps e child n i) h =
    ((refl, Inserts-IsExclusive i h.0.1), tt)

pub Built-IsExclusive :
    {o : Options} {v : World} {calls : Calls} {b : Builder} {w : World}
    → Built o v calls b w
    → IsExclusive b.root
Built-IsExclusive {o} {v} (created b w e) =
    subst IsExclusive (sym (root-created o v b w e)) empty_node-IsExclusive
Built-IsExclusive {o} {v} (filled calls b b' w w' string r built e) =
    let f = Built-IsFaithful o v built in
    Inserts-IsExclusive (Adds-of b b' w w' string r f.intact f.usable e).inserts
      (Built-IsExclusive built)
