-- ===== src/Compiler/Settings.antt =====
-- What a router takes over from its builder.
use libwrouter.Base.{◌≡◌, refl, true, some}
use libwrouter.World.{World, returns}
use libwrouter.Route.{call_back}
use libwrouter.Graph.Stats.{graph_stats, zero_stats}
use libwrouter.Router.{Router}
use libwrouter.Builder.{Builder}
use libwrouter.Builder.Contract.{IsIntact}
use libwrouter.Compiler.{Compiled, run_graph, wrouter_compile}
use libwrouter.Compiler.Outcome.{Finish, ensured}
use libwrouter.Compiler.Pipeline.{IsFilled-of}

-- The reserved parameters, and the fallback.
abbrev pub HasSettings : Builder → Router → World → Type 0
HasSettings b r w =
    (r.max_params ≡ (graph_stats b.root zero_stats).max_params) × (r.fallback ≡ b.fallback)

module _ (b : Builder) (intact : IsIntact b) (w : World) where
  HasSettings-run_graph :
      Finish
        (HasSettings b)
        b
        (IsFilled-of b.literals intact.literals)
        (IsFilled-of b.params intact.params)
        (call_back b.retain w.retained b.fallback.ctx)
        w.released
  unfolding run_graph
  HasSettings-run_graph L P mem cl cp small few = (refl, refl)

  pub wrouter_compile-HasSettings :
      (c : Compiled) (r : Router)
      → wrouter_compile (some b) true w ≡ returns c
      → c.router ≡ some r
      → HasSettings b r c.world
  wrouter_compile-HasSettings c r e f =
      ensured (HasSettings b) b (IsFilled-of b.literals intact.literals)
        (IsFilled-of b.params intact.params) w HasSettings-run_graph c r e f
