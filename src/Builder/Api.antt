-- ===== src/Builder/Api.antt =====
-- The public operations of builder.c: creating a builder, adding routes to it, and freeing it.
use mathlib.Core.Option
use libwrouter.Base.{ℕ, ◌++◌, ◌∷◌, [], Bool, true, false, Option, none, some, if◌then◌else◌}
use libwrouter.Text.{Bytes}
use libwrouter.Memory.{malloc}
use libwrouter.World.{World, Run, returns, crashes}
use libwrouter.Prelexer.{ParamSyntax}
use libwrouter.Errors.{Error, ok}
use libwrouter.Route.{Route, call_back}
use libwrouter.Symbol.{empty_table}
use libwrouter.Segment.{empty_node, segment_release}
use libwrouter.Builder.{Builder, builder_add_route}

-- wrouter_options_t
pub record Options : Type 0 where
  pub fallback_handler : Option ℕ
  pub fallback_ctx : ℕ
  pub param_syntax : ParamSyntax
  pub retain : Bool
  pub release : Bool

-- The builder after `Copy options`, with its root.
abbrev pub fresh_builder : Options → Builder
fresh_builder o = record {
  root = empty_node;
  literals = empty_table;
  params = empty_table;
  fallback = record { handler = o.fallback_handler; ctx = o.fallback_ctx };
  retain = o.retain;
  release = o.release;
  param_syntax = o.param_syntax;
  corrupted = false;
}

-- Without memory for the root the builder is freed again: builder_release hands the NULL root to
-- segment_release if a release callback is set.
unfoldable pub wrouter_builder_create : Options → World → Run (Option Builder × World)
unfolding malloc
wrouter_builder_create o w =
    let (builder, mem') = malloc w.mem in
    elim builder [
      | none ↦ returns (none, record w { mem = mem' })
      | some _ ↦
          let (root, mem'') = malloc mem' in
          let w' = record w {
            mem = mem'';
            retained = call_back o.retain w.retained o.fallback_ctx;
          } in
          elim root [
            | none ↦ if o.release then crashes else returns (none, w')
            | some _ ↦ returns (some (fresh_builder o), w')
          ]
    ]

-- `if (err != WROUTER_OK) builder->corrupted = true;`
abbrev pub mark : Error × Builder × World → Error × Builder × World
mark (ok, b, w) = (ok, b, w)
mark (err, b, w) = (err, record b { corrupted = true }, w)

unfoldable pub wrouter_add_route :
    Builder → World → Option Bytes → Route → Option (Error × Builder × World)
unfolding builder_add_route
wrouter_add_route b w pattern route = Option.map mark (builder_add_route b w pattern route)

unfoldable pub wrouter_add_handler :
    Builder → World → Option Bytes → Option ℕ → Option (Error × Builder × World)
unfolding wrouter_add_route
wrouter_add_handler b w pattern handler =
    wrouter_add_route b w pattern (record { handler = handler; ctx = 0 })

unfoldable pub wrouter_add_handler_ctx :
    Builder → World → Option Bytes → Option ℕ → ℕ → Option (Error × Builder × World)
unfolding wrouter_add_route
wrouter_add_handler_ctx b w pattern handler ctx =
    wrouter_add_route b w pattern (record { handler = handler; ctx = ctx })

unfoldable pub wrouter_add_context :
    Builder → World → Option Bytes → ℕ → Option (Error × Builder × World)
unfolding wrouter_add_route
wrouter_add_context b w pattern ctx =
    wrouter_add_route b w pattern (record { handler = none; ctx = ctx })

-- builder_release, and with it all of wrouter_builder_free that can be seen from outside.
unfoldable pub builder_release : Builder → World → Run World
unfolding segment_release
builder_release b w =
    if b.release
    then elim (segment_release b.root) [
      | none ↦ crashes
      | some ctxs ↦ returns (record w { released = w.released ++ (ctxs ++ b.fallback.ctx ∷ []) })
    ]
    else returns w

unfoldable pub wrouter_builder_free : Option Builder → World → Run World
unfolding builder_release
wrouter_builder_free none w = returns w
wrouter_builder_free (some b) w = builder_release b w

-- `bpp` and `*bpp` NULL are `none`; what `*bpp` is afterwards, and the world.
unfoldable pub wrouter_builder_destroy : Option Builder → World → Run (Option Builder × World)
unfolding wrouter_builder_free
wrouter_builder_destroy b w = elim (wrouter_builder_free b w) [
  | crashes ↦ crashes
  | returns w' ↦ returns (none, w')
]
