-- ===== src/Builder/Descend.antt =====
-- A literal token in builder_add_route.
use libwrouter.Base.{
  ◌≤◌, ◌<◌, ◌≡◌, refl, sym, ◌∙◌, inl, inr, Bool, false, Option, none, some, arith, length, leb,
  Bool-cases, Option-cases,
}
use libwrouter.Text.{Bytes}
use libwrouter.Text.Compare.{NulFree}
use libwrouter.Token.{Token, text_of}
use libwrouter.Errors.{out_of_range, literal_conflicts_with_param}
use libwrouter.Route.{Route}
use libwrouter.Prelexer.Pattern.{lit, Pattern, put_front}
use libwrouter.Symbol.Sort.{In}
use libwrouter.Segment.{
  Node, Special, Segments, node, empty_node, child_count, append_segment, segment_create,
  segment_append_child,
}
use libwrouter.Router.Tree.{child_named}
use libwrouter.Builder.{Tables, Added, is_param, under, add_new_literal, add_literal}
use libwrouter.Builder.Insert.{new_child, old_child, set_child}
use libwrouter.Builder.Step.{
  IsReady, IsTreeOf, Keeps, Result, fails, goes_on, Keeps-trans, segment_create-Appends,
}
use libwrouter.Builder.Match.{segment_find_child_by_token-eq, update_child-eq}
use mathlib.Core.Path.{subst, fun_ext}
use libwrouter.Segment.Shape.{
  IsTree, IsTreeSpecial, IsTreeChildren, IsTreeSpecial-grow, IsTreeChildren-grow, empty_node-IsTree,
}
use libwrouter.Builder.Trees.{
  child_count-append_segment, child_count-set_child, DistinctNames-append_segment,
  DistinctNames-set_child, IsTreeChildren-append_segment, IsTreeChildren-set_child,
  IsTree-child_named,
}

module _ (t tr : Option Route) (sp : Special) (cs : Segments) (tb tb' : Tables)
    (keeps : Keeps tb tb') (h : IsTreeOf tb (node t tr sp cs)) (name : Bytes) (n : Node)
    (tree : IsTreeOf tb' n) where
  abbrev more : (s : Bytes) → In s tb.literals.base → In s tb'.literals.base
  more = keeps.literals

  special_kept : IsTreeSpecial tb'.literals.base tb'.params.base sp
  unfolding IsTree
  special_kept =
      IsTreeSpecial-grow tb.literals.base tb.params.base tb'.literals.base tb'.params.base
        keeps.literals keeps.params sp h.2

  children_kept : IsTreeChildren tb'.literals.base tb'.params.base cs
  unfolding IsTree
  children_kept =
      IsTreeChildren-grow tb.literals.base tb.params.base tb'.literals.base tb'.params.base
        keeps.literals keeps.params cs h.3

  IsTree-with_child :
      NulFree name
      → In name tb'.literals.base
      → child_named cs name ≡ none
      → child_count cs < 4095
      → IsTreeOf tb' (node t tr sp (append_segment cs name n))
  unfolding IsTree
  IsTree-with_child nul member no_child few = (
    omega (arith, child_count-append_segment cs name n),
    DistinctNames-append_segment cs name n h.1 no_child,
    special_kept,
    IsTreeChildren-append_segment tb'.literals.base tb'.params.base cs name n children_kept nul
        member tree,
  )

  IsTree-changed_child : IsTreeOf tb' (node t tr sp (set_child cs name n))
  unfolding IsTree
  IsTree-changed_child = (
    omega (arith, child_count-set_child cs name n, h.0),
    DistinctNames-set_child cs name n h.1,
    special_kept,
    IsTreeChildren-set_child tb'.literals.base tb'.params.base cs name n children_kept tree,
  )

module _ (retain : Bool) (route : Route) (go : Node → Tables → Option Added)
    (pattern : Option Pattern)
    (go_lem : (cur : Node) (tb : Tables)
      → IsReady tb
      → Result retain route cur tb pattern (go cur tb))
    (tok : Token) (p : Bytes) (ptr : tok.ptr ≡ some p) (len : tok.length ≤ length p)
    (nul : NulFree (text_of tok)) where
  abbrev text : Bytes
  text = text_of tok

  -- The tables and the world after segment_create for a literal.
  abbrev with_literal : Tables → Tables
  with_literal tb =
      let a = segment_create tb.literals tok tb.world.mem in
      record tb { literals = a.tbl; world = record tb.world { mem = a.mem } }

  new_literal_lem :
      (t tr : Option Route) (sp : Special) (cs : Segments) (tb : Tables)
      → IsReady tb
      → is_param sp ≡ false
      → child_named cs text ≡ none
      → Result retain route
          (node t tr sp cs)
          tb
          (put_front (lit text) pattern)
          (add_new_literal go tok t tr sp cs tb)
  unfolding add_new_literal segment_append_child
  new_literal_lem t tr sp cs tb ready plain no_child =
      elim (segment_create-Appends tb.literals tok tb.world.mem ready.literals nul) [
        | inr (nothing, ne) ↦
            rw (nothing, add_new_literal)
              (fails retain route (node t tr sp cs) tb _
                (segment_create tb.literals tok tb.world.mem).err (node t tr sp cs)
                (with_literal tb) ne refl refl)
        | inl stored ↦ elim (Bool-cases (leb 4095 (child_count cs))) [
          | inl full ↦
              rw (stored.result, full, add_new_literal, segment_append_child)
                (fails retain route (node t tr sp cs) tb _ out_of_range (node t tr sp cs)
                  (with_literal tb) (λ x. cc) refl refl)
          | inr room ↦
              rw (stored.result, room, add_new_literal, segment_append_child)
                (goes_on retain route go pattern go_lem tok p ptr len nul (node t tr sp cs)
                  empty_node tb (with_literal tb) (lit text)
                  (λ n. node t tr sp (append_segment cs text n))
                  (record { literals = stored.table; params = ready.params })
                  (record { literals = stored.grows; params = λ s h. h })
                  (λ h.
                    empty_node-IsTree (with_literal tb).literals.base (with_literal tb).params.base)
                  (λ a n k h tree.
                    IsTree-with_child t tr sp cs tb a
                      (Keeps-trans tb (with_literal tb) a
                        (record { literals = stored.grows; params = λ s m. m }) k)
                      h text n tree nul (k.literals text stored.member) no_child (ground arith))
                  refl refl
                  (λ ps e n i.
                    new_child t tr sp cs text ps e n plain no_child (ground arith) nul i))
        ]
      ]

  old_child_lem :
      (t tr : Option Route) (sp : Special) (cs : Segments) (child : Node) (tb : Tables)
      → IsReady tb
      → is_param sp ≡ false
      → child_named cs text ≡ some child
      → Result retain route
          (node t tr sp cs)
          tb
          (put_front (lit text) pattern)
          (under (λ n. node t tr sp (set_child cs text n)) (go child tb))
  unfolding IsTree
  old_child_lem t tr sp cs child tb ready plain there =
      let keeps : Keeps tb tb = record { literals = λ s m. m; params = λ s m. m } in
      goes_on retain route go pattern go_lem tok p ptr len nul (node t tr sp cs) child tb tb
        (lit text) (λ n. node t tr sp (set_child cs text n)) ready keeps
        (λ h. IsTree-child_named tb.literals.base tb.params.base cs text child h.3 there)
        (λ a n k h tree. IsTree-changed_child t tr sp cs tb a k h text n tree) refl refl
        (λ ps e n i. old_child t tr sp cs text ps e child n plain there i)

  pub add_literal_lem :
      (cur : Node) (tb : Tables)
      → IsReady tb
      → Result retain route cur tb (put_front (lit text) pattern) (add_literal go tok cur tb)
  unfolding add_literal
  add_literal_lem (node t tr sp cs) tb ready = elim (Bool-cases (is_param sp)) [
    | inl clash ↦
        rw (clash, add_literal)
          (fails retain route (node t tr sp cs) tb _ literal_conflicts_with_param (node t tr sp cs)
            tb (λ x. cc) refl refl)
    | inr plain ↦
        let find = segment_find_child_by_token-eq tok p ptr len cs in
        elim (Option-cases (child_named cs text)) [
          | inl gone ↦
              rw (plain, find ∙ gone, add_literal) (new_literal_lem t tr sp cs tb ready plain gone)
          | inr (child, there) ↦
              rw (plain, find ∙ there, add_literal)
                (subst
                  (λ (f : Node → Segments).
                    Result retain route (node t tr sp cs) tb (put_front (lit text) pattern)
                      (under (λ n. node t tr sp (f n)) (go child tb)))
                  (sym (fun_ext (update_child-eq tok p ptr len cs)))
                  (old_child_lem t tr sp cs child tb ready plain there))
        ]
  ]
