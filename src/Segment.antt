-- ===== src/Segment.antt =====
-- segment.c: the tree of segments. A segment_t is a string `str` and a node. The root has no string,
-- so it is a node alone. The list from `head` over `next` to `tail` is `Segments`, and `child_count`
-- is its length.
pub mod Shape
use libwrouter.Base.{ℕ, suc, List, [], ◌∷◌, ◌++◌, Option, none, some, leb, if◌then◌else◌}
use libwrouter.Text.{Bytes}
use libwrouter.Token.{Token, text_of, token_matches_segment}
use libwrouter.Memory.{Memory, malloc}
use libwrouter.Errors.{no_memory}
use libwrouter.Route.{Route}
use libwrouter.Symbol.{SymbolTable, Appended, symbol_append}

mutual
  -- terminal, trailing, special (with spec_type) and the children
  pub data Node : Type 0 where
    node : Option Route → Option Route → Special → Segments → Node

  -- SPEC_PARAM and SPEC_WILDCARD come also with a NULL in the union, where an allocation behind the
  -- change of `spec_type` failed.
  pub data Special : Type 0 where
    spec_none : Special
    spec_param : Bytes → Node → Special
    spec_wildcard : Route → Special
    spec_param_null : Special
    spec_wildcard_null : Special

  pub data Segments : Type 0 where
    nil : Segments
    cons : Bytes → Node → Segments → Segments

-- `calloc(1, sizeof(segment_t))`
abbrev pub empty_node : Node
empty_node = node none none spec_none nil

-- `child_count`
abbrev pub child_count : Segments → ℕ
child_count nil = 0
child_count (cons str child cs) = suc (child_count cs)

-- NODE_MAX_CHILD_COUNT
abbrev pub node_max_child_count : ℕ
node_max_child_count = 4095

-- The string of the new segment, or the error, and what the table and the memory are afterwards.
unfoldable pub segment_create : SymbolTable → Token → Memory → Appended
unfolding malloc symbol_append
segment_create symtbl tok mem =
    let (segment, mem') = malloc mem in
    elim segment [
      | none ↦ record { result = none; err = no_memory; tbl = symtbl; mem = mem' }
      | some _ ↦ symbol_append symtbl (text_of tok) mem'
    ]

-- The list with the child behind `tail`.
abbrev pub append_segment : Segments → Bytes → Node → Segments
append_segment nil str child = cons str child nil
append_segment (cons s c cs) str child = cons s c (append_segment cs str child)

-- The children after the call, or `none` for WROUTER_ERR_OUT_OF_RANGE.
unfoldable pub segment_append_child : Segments → Bytes → Node → Option Segments
segment_append_child cs str child =
    if leb node_max_child_count (child_count cs) then none else some (append_segment cs str child)

-- The loop over the children: the first whose string the token matches.
unfoldable pub find_child : Segments → Token → Option Node
unfolding token_matches_segment
find_child nil tok = none
find_child (cons str child cs) tok =
    if token_matches_segment tok (some str) then some child else find_child cs tok

unfoldable pub segment_find_child_by_token : Segments → Token → Option Node
unfolding find_child
segment_find_child_by_token cs tok = elim tok.ptr [ none ↦ none | some _ ↦ find_child cs tok ]

-- The tree after a change at the child that segment_find_child_by_token points to.
unfoldable pub update_child : Segments → Token → Node → Segments
unfolding token_matches_segment
update_child nil tok child' = nil
update_child (cons str child cs) tok child' =
    if token_matches_segment tok (some str)
    then cons str child' cs
    else cons str child (update_child cs tok child')

-- The context of a route, if the pointer to it is not NULL.
abbrev pub ctx_of : Option Route → List ℕ
ctx_of none = []
ctx_of (some route) = route.ctx ∷ []

-- The contexts that segment_release hands to the callback, in order; `none` where it reads through
-- the NULL of a special segment.
unfoldable mutual
  pub segment_release : Node → Option (List ℕ)
  segment_release (node terminal trailing special children) = elim (release_children children) [
    | none ↦ none
    | some first ↦ elim (release_special special) [
      | none ↦ none
      | some second ↦ some (first ++ (second ++ (ctx_of trailing ++ ctx_of terminal)))
    ]
  ]

  pub release_special : Special → Option (List ℕ)
  release_special spec_none = some []
  release_special (spec_param str child) = segment_release child
  release_special (spec_wildcard route) = some (route.ctx ∷ [])
  release_special spec_param_null = none
  release_special spec_wildcard_null = none

  pub release_children : Segments → Option (List ℕ)
  release_children nil = some []
  release_children (cons str child cs) = elim (segment_release child) [
    | none ↦ none
    | some first ↦ elim (release_children cs) [ none ↦ none | some rest ↦ some (first ++ rest) ]
  ]
