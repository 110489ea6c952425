-- ===== src/Builder.antt =====
-- builder.c: routes are added to a tree of segments. The loop of builder_add_route walks down the
-- tree and changes it in place; the model returns each changed node on the way back.
pub mod Api
pub mod Insert
pub mod Update
pub mod Match
pub mod Trees
pub mod Step
pub mod Descend
pub mod Capture
pub mod Loop
pub mod Contract
pub mod Contexts
pub mod Built
pub mod Listed
pub mod Exclusive
use mathlib.Core.Option
use libwrouter.Base.{
  ℕ, zero, suc, ◌+◌, Bool, true, false, not, Option, none, some, length, ◌==◌, if◌then◌else◌,
}
use libwrouter.Text.{Bytes}
use libwrouter.Memory.{malloc}
use libwrouter.World.{World}
use libwrouter.Token.{Token, TokenType, token_matches_segment}
use libwrouter.Prelexer.{
  Prelexer, ParamSyntax, zero_prelexer, prelexer_init, prelexer_load, prelexer_next,
}
use libwrouter.Errors.{
  Error, ok, no_memory, out_of_range, illegal_pattern, duplicate_route,
  literal_conflicts_with_param, param_conflicts_with_wildcard, param_conflicts_with_literal,
  param_name_mismatch, wildcard_conflicts_with_param, wildcard_not_final, builder_corrupted,
}
use libwrouter.Route.{Route, call_back}
use libwrouter.Symbol.{SymbolTable}
use libwrouter.Segment.{
  Node, Special, Segments, node, spec_none, spec_param, spec_wildcard, spec_param_null,
  spec_wildcard_null, empty_node, child_count, append_segment, segment_create, segment_append_child,
  segment_find_child_by_token, update_child,
}

-- struct wrouter_builder. `retain` and `release` say whether the callback is set.
pub record Builder : Type 0 where
  pub root : Node
  pub literals : SymbolTable
  pub params : SymbolTable
  pub fallback : Route
  pub retain : Bool
  pub release : Bool
  pub param_syntax : ParamSyntax
  pub corrupted : Bool

-- What the walk changes beside the tree.
pub record Tables : Type 0 where
  pub literals : SymbolTable
  pub params : SymbolTable
  pub world : World

-- The end of the walk: the error code, and the segment from which it went on.
pub record Added : Type 0 where
  pub err : Error
  pub node : Node
  pub tables : Tables

-- `spec_type == SPEC_PARAM`
abbrev pub is_param : Special → Bool
is_param (spec_param str child) = true
is_param spec_param_null = true
is_param _ = false

-- `spec_type == SPEC_WILDCARD`
abbrev pub is_wildcard : Special → Bool
is_wildcard (spec_wildcard route) = true
is_wildcard spec_wildcard_null = true
is_wildcard _ = false

abbrev pub stop : Error → Node → Tables → Added
stop err n tb = record { err = err; node = n; tables = tb }

-- The walk behind a segment, put back under its parent.
abbrev pub under : (Node → Node) → Option Added → Option Added
under f r = Option.map (λ (a : Added). record a { node = f a.node }) r

module _ (retain : Bool) (route : Route) where
  -- The copy of the route, if there was memory for it.
  unfoldable pub builder_terminate : World → Option Route × World
  unfolding malloc
  builder_terminate w =
      let (copy, mem') = malloc w.mem in
      elim copy [
        | none ↦ (none, record w { mem = mem' })
        | some _ ↦
            (some route, record w { mem = mem'; retained = call_back retain w.retained route.ctx })
      ]

  -- The terminal with its error code, and the tables after builder_terminate.
  unfoldable pub terminate : Tables → (Option Route → Node) → Added
  unfolding builder_terminate
  terminate tb put =
      let (copy, w) = builder_terminate tb.world in
      stop (elim copy [ none ↦ no_memory | some _ ↦ ok ]) (put copy) (record tb { world = w })

  -- TOKEN_END
  unfoldable pub add_terminal : Node → Tables → Added
  unfolding terminate
  add_terminal (node (some t) tr sp cs) tb = stop duplicate_route (node (some t) tr sp cs) tb
  add_terminal (node none tr sp cs) tb = terminate tb (λ t. node t tr sp cs)

  -- TOKEN_TRAILING
  unfoldable pub add_trailing : Node → Tables → Added
  unfolding terminate
  add_trailing (node t (some tr) sp cs) tb = stop duplicate_route (node t (some tr) sp cs) tb
  add_trailing (node t none sp cs) tb = terminate tb (λ tr. node t tr sp cs)

  abbrev pub wildcard_of : Option Route → Special
  wildcard_of none = spec_wildcard_null
  wildcard_of (some r) = spec_wildcard r

  -- TOKEN_WILDCARD, with the type of the token behind it.
  unfoldable pub add_wildcard : TokenType → Node → Tables → Added
  unfolding terminate
  add_wildcard next (node t tr sp cs) tb =
      if is_wildcard sp
      then stop duplicate_route (node t tr sp cs) tb
      else if is_param sp
      then stop wildcard_conflicts_with_param (node t tr sp cs) tb
      else elim next [
        | TokenType.end ↦ terminate tb (λ r. node t tr (wildcard_of r) cs)
        | _ ↦ stop wildcard_not_final (node t tr sp cs) tb
      ]

-- `go` is the rest of the walk, from a segment on.
module _ (go : Node → Tables → Option Added) (tok : Token) where
  -- TOKEN_LITERAL with no child of that name.
  unfoldable pub add_new_literal :
      Option Route → Option Route → Special → Segments → Tables → Option Added
  unfolding segment_create segment_append_child
  add_new_literal t tr sp cs tb =
      let a = segment_create tb.literals tok tb.world.mem in
      let tb' = record tb { literals = a.tbl; world = record tb.world { mem = a.mem } } in
      elim a.result [
        | none ↦ some (stop a.err (node t tr sp cs) tb')
        | some str ↦ elim (segment_append_child cs str empty_node) [
          | none ↦ some (stop out_of_range (node t tr sp cs) tb')
          | some _ ↦ under (λ n. node t tr sp (append_segment cs str n)) (go empty_node tb')
        ]
      ]

  -- TOKEN_LITERAL
  unfoldable pub add_literal : Node → Tables → Option Added
  unfolding add_new_literal segment_find_child_by_token update_child
  add_literal (node t tr sp cs) tb = elim (is_param sp) [
    | true ↦ some (stop literal_conflicts_with_param (node t tr sp cs) tb)
    | false ↦ elim (segment_find_child_by_token cs tok) [
      | none ↦ add_new_literal t tr sp cs tb
      | some child ↦ under (λ n. node t tr sp (update_child cs tok n)) (go child tb)
    ]
  ]

  -- TOKEN_PARAM with no special segment yet: `spec_type` is set first.
  unfoldable pub add_new_param : Option Route → Option Route → Segments → Tables → Option Added
  unfolding segment_create
  add_new_param t tr cs tb =
      let a = segment_create tb.params tok tb.world.mem in
      let tb' = record tb { params = a.tbl; world = record tb.world { mem = a.mem } } in
      elim a.result [
        | none ↦ some (stop a.err (node t tr spec_param_null cs) tb')
        | some str ↦ under (λ n. node t tr (spec_param str n) cs) (go empty_node tb')
      ]

  -- TOKEN_PARAM, by the special segment that is there. The last case is never met: the builder is
  -- corrupted once it holds such a segment.
  unfoldable pub add_at_param :
      Option Route → Option Route → Special → Segments → Tables → Option Added
  unfolding add_new_param token_matches_segment
  add_at_param t tr spec_none cs tb = add_new_param t tr cs tb
  add_at_param t tr (spec_param str child) cs tb = elim (token_matches_segment tok (some str)) [
    | true ↦ under (λ n. node t tr (spec_param str n) cs) (go child tb)
    | false ↦ some (stop param_name_mismatch (node t tr (spec_param str child) cs) tb)
  ]
  add_at_param t tr sp cs tb = some (stop param_name_mismatch (node t tr sp cs) tb)

  -- TOKEN_PARAM
  unfoldable pub add_param : Node → Tables → Option Added
  unfolding add_at_param
  add_param (node t tr sp cs) tb = elim (is_wildcard sp) [
    | true ↦ some (stop param_conflicts_with_wildcard (node t tr sp cs) tb)
    | false ↦ elim (child_count cs == 0) [
      | false ↦ some (stop param_conflicts_with_literal (node t tr sp cs) tb)
      | true ↦ add_at_param t tr sp cs tb
    ]
  ]

module _ (retain : Bool) (route : Route) where
  -- The loop of builder_add_route; `none` when the fuel runs out.
  unfoldable pub add_loop : ℕ → Prelexer → Node → Tables → Option Added
  unfolding add_terminal add_trailing add_wildcard add_literal add_param prelexer_next
  add_loop zero lx cur tb = none
  add_loop (suc fuel) lx cur tb =
      let (lx', tok) = prelexer_next lx in
      elim tok.type [
        | TokenType.end ↦ some (add_terminal retain route cur tb)
        | TokenType.literal ↦ add_literal (add_loop fuel lx') tok cur tb
        | TokenType.param ↦ add_param (add_loop fuel lx') tok cur tb
        | TokenType.wildcard ↦ some (add_wildcard retain route (prelexer_next lx').1.type cur tb)
        | TokenType.trailing ↦ some (add_trailing retain route cur tb)
        | TokenType.illegal ↦ some (stop illegal_pattern cur tb)
      ]

-- The rounds that a pattern needs at most: each literal and each parameter takes a character.
abbrev pub rounds : Option Bytes → ℕ
rounds none = 1
rounds (some p) = length p + 1

abbrev pub tables_of : Builder → World → Tables
tables_of b w = record { literals = b.literals; params = b.params; world = w }

-- The error code, the builder and the world after the call.
unfoldable pub builder_add_route :
    Builder → World → Option Bytes → Route → Option (Error × Builder × World)
unfolding add_loop prelexer_init prelexer_load
builder_add_route b w pattern route =
    if b.corrupted
    then some (builder_corrupted, b, w)
    else let lx = prelexer_load (prelexer_init zero_prelexer b.param_syntax) pattern in
      Option.map
        (λ a. (
          a.err,
          record b { root = a.node; literals = a.tables.literals; params = a.tables.params },
          a.tables.world,
        ))
        (add_loop b.retain route (rounds pattern) lx b.root (tables_of b w))
