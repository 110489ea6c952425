-- ===== src/Compiler/Extent.antt =====
-- What wrouter_compile writes lies in what it has allocated: num_routes entries of the dictionary and
-- graph_size cells of the graph.
use libwrouter.Base.{ℕ, ◌+◌, ◌≤◌, List, ◌≡◌, refl, inr, true, some, arith, length}
use libwrouter.World.{World, returns}
use libwrouter.Route.{call_back}
use libwrouter.Terminal.{no_terminals}
use libwrouter.Terminal.Lookup.{IsSorted, KeysBelow}
use libwrouter.Graph.Cells.{Cells}
use libwrouter.Graph.Stats.{graph_stats, zero_stats}
use libwrouter.Graph.Layout.{graph_stats_lem}
use libwrouter.Graph.Compile.{Compiling, graph_compile}
use libwrouter.Graph.Keys.{Keyed, Extends-graph_compile}
use libwrouter.Graph.Extent.{cur-graph_compile}
use libwrouter.Graph.Frame.{graph_compile-Keeps}
use libwrouter.Router.{Router}
use libwrouter.Builder.{Builder}
use libwrouter.Builder.Contract.{IsIntact}
use libwrouter.Compiler.{Compiled, zeroed, run_graph, wrouter_compile}
use libwrouter.Compiler.Outcome.{Finish, ensured}
use libwrouter.Compiler.Pipeline.{IsFilled-of}

pub record IsWithin (r : Router) (w : World) : Type 0 where
  pub filled : length r.terminals.refs ≡ r.num_routes
  pub sorted : IsSorted r.terminals
  pub keys : KeysBelow r.terminals r.graph_size
  pub untouched : (g : Cells) × (r.graph ≡ some g) × ((j : ℕ) → g (r.graph_size + j) ≡ 0)
  pub narrow : (r.graph_size ≤ 65535) × (r.num_routes ≤ 65535)

-- The cursor at the start of a graph.
abbrev fresh : List ℕ → Compiling
fresh retained = record { graph = zeroed; cur = 0; terminals = no_terminals; retained = retained }

fresh-Keyed : (retained : List ℕ) → Keyed (fresh retained)
fresh-Keyed retained = record {
  sorted = record { paired = refl; ascending = λ i j p q. absurd (omega arith) };
  below = λ i p. absurd (omega arith);
}

module _ (b : Builder) (intact : IsIntact b) (retained released : List ℕ) where
  IsWithin-run_graph :
      Finish IsWithin b
        (IsFilled-of b.literals intact.literals)
        (IsFilled-of b.params intact.params)
        retained
        released
  unfolding run_graph
  IsWithin-run_graph L P mem cl cp small few =
      let s = graph_compile L P b.retain b.root (fresh retained) in
      let counts = graph_stats_lem b.root zero_stats in
      let end = cur-graph_compile L P b.retain b.root (fresh retained) in
      let e =
        Extends-graph_compile L P b.retain b.root (fresh retained) (fresh-Keyed retained)
          (omega (arith, small, counts.size)) in
      record {
        filled = omega (arith, e.added, counts.terminals);
        sorted = e.keyed.sorted;
        keys = λ i p. omega (arith, e.keyed.below i p, end, counts.size);
        untouched = (
          s.graph,
          refl,
          λ j.
              graph_compile-Keeps L P b.retain b.root (fresh retained)
                ((graph_stats b.root zero_stats).size + j) (inr (omega (arith, counts.size))),
        );
        narrow = (small, few);
      }

-- For an intact builder (its tables and its tree are well-formed), in a router that wrouter_compile
-- returns, the dictionary has as many entries as were counted for its allocation, with ascending
-- keys below the size of the graph; every cell from the size of the graph on is zero, as after its
-- allocation; and both sizes fit in 16 bits.
pub wrouter_compile-IsWithin :
    (b : Builder) (w : World) (c : Compiled) (r : Router)
    → IsIntact b
    → wrouter_compile (some b) true w ≡ returns c
    → c.router ≡ some r
    → IsWithin r c.world
wrouter_compile-IsWithin b w c r intact e f =
    ensured IsWithin b (IsFilled-of b.literals intact.literals) (IsFilled-of b.params intact.params)
      w (IsWithin-run_graph b intact (call_back b.retain w.retained b.fallback.ctx) w.released) c r
      e f
