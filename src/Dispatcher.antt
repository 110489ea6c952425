-- ===== src/Dispatcher.antt =====
-- dispatcher.c: dispatching a request to a handler, or resolving it to a context.
pub mod Capacity
pub mod Serving
pub mod Service
use libwrouter.Base.{ℕ, [], Option, none, some, ◌==◌, if◌then◌else◌}
use libwrouter.Text.{Bytes}
use libwrouter.Memory.{malloc}
use libwrouter.World.{World, Run, returns, crashes}
use libwrouter.Lexer.{Lexer, unloaded, lexer_load}
use libwrouter.Route.{Route}
use libwrouter.Params.{Params, params_alloc}
use libwrouter.Router.{Router, Match, route_match}

-- struct wrouter_dispatcher
pub record Dispatcher : Type 0 where
  pub router : Router
  pub lx : Lexer
  pub params : Params

-- The dispatcher from calloc.
abbrev pub no_params : Params
no_params = record { base = []; capacity = 0 }

unfoldable pub wrouter_dispatcher_create : Router → World → Option Dispatcher × World
unfolding malloc params_alloc
wrouter_dispatcher_create router w =
    let (dispatcher, mem') = malloc w.mem in
    elim dispatcher [
      | none ↦ (none, record w { mem = mem' })
      | some _ ↦
          if router.max_params == 0
          then (
            some (record { router = router; lx = unloaded; params = no_params }),
            record w { mem = mem' },
          )
          else let (params, mem'') = params_alloc router.max_params mem' in
            elim params [
              | none ↦ (none, record w { mem = mem'' })
              | some ps ↦ (
                some (record { router = router; lx = unloaded; params = ps }),
                record w { mem = mem'' },
              )
            ]
    ]

-- The call `route->handler(dispatch_ctx, route->ctx, &dispatcher->params)`.
pub record Call : Type 0 where
  pub handler : ℕ
  pub ctx : ℕ
  pub params : Params

-- `if (route == NULL) route = &dispatcher->router->fallback;`
abbrev pub or_fallback : Dispatcher → Option Route → Route
or_fallback d none = d.router.fallback
or_fallback d (some route) = route

abbrev pub call_of : Route → Params → Option Call
call_of route ps = elim route.handler [
  | none ↦ none
  | some h ↦ some (record { handler = h; ctx = route.ctx; params = ps })
]

-- The dispatcher after a match.
abbrev pub matched : Dispatcher → Match → Dispatcher
matched d m = record d { lx = m.lx; params = m.params }

-- The call that is made, if any, and the dispatcher afterwards; `none` when the fuel runs out. A
-- path is the list of its bytes, so this is wrouter_dispatch too.
unfoldable pub wrouter_ndispatch :
    Dispatcher → Option Bytes → Option (Run (Option Call × Dispatcher))
unfolding lexer_load route_match
wrouter_ndispatch d path = elim (route_match d.router (lexer_load path) d.params) [
  | none ↦ none
  | some crashes ↦ some crashes
  | some (returns m) ↦ some (returns (call_of (or_fallback d m.route) m.params, matched d m))
]

-- The context that is returned, and the dispatcher afterwards; so also wrouter_resolve.
unfoldable pub wrouter_nresolve : Dispatcher → Option Bytes → Option (Run (ℕ × Dispatcher))
unfolding lexer_load route_match
wrouter_nresolve d path = elim (route_match d.router (lexer_load path) d.params) [
  | none ↦ none
  | some crashes ↦ some crashes
  | some (returns m) ↦ some (returns ((or_fallback d m.route).ctx, matched d m))
]
