-- ===== src/Builder/Capture.antt =====
-- A parameter token in builder_add_route.
use libwrouter.Base.{
  suc, ◌≤◌, ◌≡◌, refl, sym, ◌∙◌, inl, inr, Bool, false, Option, some, arith, length, ◌==◌,
  Bool-cases,
}
use libwrouter.Text.{Bytes, bytes_eq}
use libwrouter.Text.Compare.{NulFree, bytes_eq_sound}
use libwrouter.Token.{Token, text_of}
use libwrouter.Errors.{
  param_conflicts_with_wildcard, param_conflicts_with_literal, param_name_mismatch,
}
use libwrouter.Route.{Route}
use libwrouter.Prelexer.Pattern.{par, Pattern, put_front}
use libwrouter.Segment.{
  Node, Special, node, spec_none, spec_param, spec_wildcard, spec_param_null, spec_wildcard_null,
  nil, cons, empty_node, child_count, segment_create,
}
use libwrouter.Builder.{Tables, Added, is_wildcard, under, add_new_param, add_at_param, add_param}
use libwrouter.Builder.Insert.{new_param, old_param}
use libwrouter.Builder.Step.{IsReady, Result, fails, goes_on, segment_create-Appends}
use libwrouter.Builder.Match.{token_matches_segment-eq}
use mathlib.Core.Path.{subst}
use libwrouter.Segment.Shape.{IsTree, empty_node-IsTree}

module _ (retain : Bool) (route : Route) (go : Node → Tables → Option Added)
    (pattern : Option Pattern)
    (go_lem : (cur : Node) (tb : Tables)
      → IsReady tb
      → Result retain route cur tb pattern (go cur tb))
    (tok : Token) (p : Bytes) (ptr : tok.ptr ≡ some p) (len : tok.length ≤ length p)
    (nul : NulFree (text_of tok)) where
  abbrev text : Bytes
  text = text_of tok

  -- The tables and the world after segment_create for a parameter.
  abbrev with_param : Tables → Tables
  with_param tb =
      let a = segment_create tb.params tok tb.world.mem in
      record tb { params = a.tbl; world = record tb.world { mem = a.mem } }

  new_param_lem :
      (t tr : Option Route) (tb : Tables)
      → IsReady tb
      → Result retain route
          (node t tr spec_none nil)
          tb
          (put_front (par text) pattern)
          (add_new_param go tok t tr nil tb)
  unfolding add_new_param IsTree
  new_param_lem t tr tb ready =
      elim (segment_create-Appends tb.params tok tb.world.mem ready.params nul) [
        | inr (nothing, ne) ↦
            rw (nothing, add_new_param)
              (fails retain route (node t tr spec_none nil) tb _
                (segment_create tb.params tok tb.world.mem).err (node t tr spec_param_null nil)
                (with_param tb) ne refl refl)
        | inl stored ↦
            rw (stored.result, add_new_param)
              (goes_on retain route go pattern go_lem tok p ptr len nul (node t tr spec_none nil)
                empty_node tb (with_param tb) (par text) (λ n. node t tr (spec_param text n) nil)
                (record { literals = ready.literals; params = stored.table })
                (record { literals = λ s m. m; params = stored.grows })
                (λ h. empty_node-IsTree (with_param tb).literals.base (with_param tb).params.base)
                (λ a n k h tree. (omega arith, tt, (nul, k.params text stored.member, tree), tt))
                refl refl (λ ps e n i. new_param t tr text ps e n nul i))
      ]

  old_param_lem :
      (t tr : Option Route) (child : Node) (tb : Tables)
      → IsReady tb
      → Result retain route
          (node t tr (spec_param text child) nil)
          tb
          (put_front (par text) pattern)
          (under (λ n. node t tr (spec_param text n) nil) (go child tb))
  unfolding IsTree
  old_param_lem t tr child tb ready =
      goes_on retain route go pattern go_lem tok p ptr len nul
        (node t tr (spec_param text child) nil) child tb tb (par text)
        (λ n. node t tr (spec_param text n) nil) ready
        (record { literals = λ s m. m; params = λ s m. m }) (λ h. h.2.2)
        (λ a n k h tree. (omega arith, tt, (nul, k.params text h.2.1, tree), tt)) refl refl
        (λ ps e n i. old_param t tr text ps e child n i)

  at_param_lem :
      (t tr : Option Route) (sp : Special) (tb : Tables)
      → IsReady tb
      → Result retain route
          (node t tr sp nil)
          tb
          (put_front (par text) pattern)
          (add_at_param go tok t tr sp nil tb)
  unfolding add_at_param
  at_param_lem t tr spec_none tb ready = new_param_lem t tr tb ready
  at_param_lem t tr (spec_param str child) tb ready =
      let match = token_matches_segment-eq tok p ptr len str in
      elim (Bool-cases (bytes_eq str text)) [
        | inl same ↦
            rw (match ∙ same, add_at_param)
              (subst
                (λ (name : Bytes).
                  Result retain route (node t tr (spec_param name child) nil) tb
                    (put_front (par text) pattern)
                    (under (λ n. node t tr (spec_param name n) nil) (go child tb)))
                (sym (bytes_eq_sound str text same)) (old_param_lem t tr child tb ready))
        | inr differ ↦
            rw (match ∙ differ, add_at_param)
              (fails retain route (node t tr (spec_param str child) nil) tb _ param_name_mismatch
                (node t tr (spec_param str child) nil) tb (λ x. cc) refl refl)
      ]
  at_param_lem t tr (spec_wildcard r) tb ready =
      fails retain route _ tb _ param_name_mismatch (node t tr (spec_wildcard r) nil) tb (λ x. cc)
        refl refl
  at_param_lem t tr spec_param_null tb ready =
      fails retain route _ tb _ param_name_mismatch (node t tr spec_param_null nil) tb (λ x. cc)
        refl refl
  at_param_lem t tr spec_wildcard_null tb ready =
      fails retain route _ tb _ param_name_mismatch (node t tr spec_wildcard_null nil) tb (λ x. cc)
        refl refl

  pub add_param_lem :
      (cur : Node) (tb : Tables)
      → IsReady tb
      → Result retain route cur tb (put_front (par text) pattern) (add_param go tok cur tb)
  unfolding add_param
  add_param_lem (node t tr sp nil) tb ready = elim (Bool-cases (is_wildcard sp)) [
    | inl clash ↦
        rw (clash, add_param)
          (fails retain route (node t tr sp nil) tb _ param_conflicts_with_wildcard
            (node t tr sp nil) tb (λ x. cc) refl refl)
    | inr plain ↦ rw (plain, add_param) (at_param_lem t tr sp tb ready)
  ]
  add_param_lem (node t tr sp (cons str child cs)) tb ready = elim (Bool-cases (is_wildcard sp)) [
    | inl clash ↦
        rw (clash, add_param)
          (fails retain route (node t tr sp (cons str child cs)) tb _ param_conflicts_with_wildcard
            (node t tr sp (cons str child cs)) tb (λ x. cc) refl refl)
    | inr plain ↦
        let some_child : (suc (child_count cs) == 0) ≡ false = ground arith in
        rw (plain, some_child, add_param)
          (fails retain route (node t tr sp (cons str child cs)) tb _ param_conflicts_with_literal
            (node t tr sp (cons str child cs)) tb (λ x. cc) refl refl)
  ]
