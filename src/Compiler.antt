-- ===== src/Compiler.antt =====
-- compiler.c: from a builder to a router.

pub mod Outcome
pub mod Pipeline
pub mod Names
pub mod Lifetime
pub mod Settings
pub mod Failure
pub mod Extent
use libwrouter.Base.{Bool, true, false, Option, none, some, ltb, ◌||◌, if◌then◌else◌}
use libwrouter.Memory.{malloc}
use libwrouter.World.{World, Run, returns, crashes}
use libwrouter.Errors.{Error, ok, no_memory, out_of_range, null_argument, builder_corrupted}
use libwrouter.Route.{call_back}
use libwrouter.Symbol.{no_symbols, symbol_compile, uint16_max}
use libwrouter.Terminal.{no_terminals, terminal_alloc}
use libwrouter.Graph.Cells.{Cells}
use libwrouter.Graph.Stats.{GraphStats, zero_stats, graph_stats}
use libwrouter.Graph.Compile.{graph_compile}
use libwrouter.Router.{Router, wrouter_free}
use libwrouter.Builder.{Builder}
use libwrouter.Builder.Api.{wrouter_builder_destroy}

-- The router or NULL, what is written to `*err`, and the world after the call.
pub record Compiled : Type 0 where
  pub router : Option Router
  pub err : Option Error
  pub world : World

-- `calloc`
abbrev pub zeroed : Cells
zeroed i = 0

-- The router after the graph statistics.
abbrev pub new_router : Builder → GraphStats → Router
new_router b stats = record {
  graph = none;
  literals = no_symbols;
  params = no_symbols;
  terminals = no_terminals;
  fallback = b.fallback;
  max_params = stats.max_params;
  num_routes = stats.terminals;
  graph_size = stats.size;
  retain = b.retain;
  release = b.release;
}

-- `failure`
unfoldable pub fail : Error → Router → World → Run Compiled
unfolding wrouter_free
fail err r w = elim (wrouter_free (some r) w) [
  | crashes ↦ crashes
  | returns w' ↦ returns (record { router = none; err = some err; world = w' })
]

-- `Compile the graph.`
unfoldable pub run_graph : Builder → Router → World → Run Compiled
unfolding graph_compile
run_graph b r w =
    let s =
      graph_compile r.literals r.params r.retain b.root
        (record { graph = zeroed; cur = 0; terminals = r.terminals; retained = w.retained }) in
    returns (record {
      router = some (record r { graph = some s.graph; terminals = s.terminals });
      err = some ok;
      world = record w { retained = s.retained };
    })

-- `Allocate the graph.`
unfoldable pub alloc_graph : Builder → Router → World → Run Compiled
unfolding fail run_graph malloc
alloc_graph b r w =
    let (graph, mem') = malloc w.mem in
    let w' = record w { mem = mem' } in
    elim graph [ none ↦ fail no_memory r w' | some _ ↦ run_graph b r w' ]

unfoldable pub alloc_terminals : Builder → Router → World → Run Compiled
unfolding fail alloc_graph terminal_alloc
alloc_terminals b r w =
    let (done, ts, mem') = terminal_alloc w.mem in
    let r' = record r { terminals = ts } in
    let w' = record w { mem = mem' } in
    elim done [ false ↦ fail no_memory r' w' | true ↦ alloc_graph b r' w' ]

-- `Allocate and compile symbols for parameters.`
unfoldable pub compile_params : Builder → Router → World → Run Compiled
unfolding fail alloc_terminals symbol_compile
compile_params b r w =
    let (err, syms, mem') = symbol_compile b.params w.mem in
    let r' = record r { params = syms } in
    let w' = record w { mem = mem' } in
    elim err [ ok ↦ alloc_terminals b r' w' | other ↦ fail other r' w' ]

-- `Allocate and compile symbols for literals.`
unfoldable pub compile_literals : Builder → Router → World → Run Compiled
unfolding fail compile_params symbol_compile
compile_literals b r w =
    let (err, syms, mem') = symbol_compile b.literals w.mem in
    let r' = record r { literals = syms } in
    let w' = record w { mem = mem' } in
    elim err [ ok ↦ compile_params b r' w' | other ↦ fail other r' w' ]

-- `Range checking.`
unfoldable pub check_range : Builder → Router → World → Run Compiled
unfolding fail compile_literals
check_range b r w =
    if ltb uint16_max r.graph_size || ltb uint16_max r.num_routes
    then fail out_of_range r w
    else compile_literals b r w

-- `New router.`
unfoldable pub create_router : Builder → World → Run Compiled
unfolding check_range graph_stats malloc
create_router b w =
    let (router, mem') = malloc w.mem in
    elim router [
      | none ↦
          returns (record { router = none; err = some no_memory; world = record w { mem = mem' } })
      | some _ ↦
          check_range b (new_router b (graph_stats b.root zero_stats))
            (record w { mem = mem'; retained = call_back b.retain w.retained b.fallback.ctx })
    ]

-- `has_err` says that `err` is not NULL.
unfoldable pub wrouter_compile : Option Builder → Bool → World → Run Compiled
unfolding create_router
wrouter_compile builder false w = returns (record { router = none; err = none; world = w })
wrouter_compile none true w =
    returns (record { router = none; err = some null_argument; world = w })
wrouter_compile (some b) true w =
    if b.corrupted
    then returns (record { router = none; err = some builder_corrupted; world = w })
    else create_router b w

-- wrouter_builder_destroy at the end of wrouter_consume.
abbrev pub and_destroy : Option Builder → Compiled → Run Compiled
and_destroy builder c = elim (wrouter_builder_destroy builder c.world) [
  | crashes ↦ crashes
  | returns (_, w) ↦ returns (record c { world = w })
]

-- The builder is freed on every path; `none` stands for a NULL `bpp` and for a NULL `*bpp`.
unfoldable pub wrouter_consume : Option Builder → Bool → World → Run Compiled
unfolding wrouter_compile wrouter_builder_destroy
wrouter_consume builder false w =
    and_destroy builder (record { router = none; err = none; world = w })
wrouter_consume none true w =
    returns (record { router = none; err = some null_argument; world = w })
wrouter_consume (some b) true w = elim (wrouter_compile (some b) true w) [
  | crashes ↦ crashes
  | returns c ↦ and_destroy (some b) c
]
