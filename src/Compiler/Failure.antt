-- ===== src/Compiler/Failure.antt =====
-- What wrouter_compile leaves behind when it gives no router.
use mathlib.Core.Path.{subst}
use mathlib.Core.Option.{some-injective}
use libwrouter.Base.{
  ℕ, ◌≡◌, ◌≢◌, refl, sym, ap, inl, inr, List, [], ◌∷◌, ◌++◌, true, none, some, ◌||◌, ltb,
  Bool-cases, Option-cases, append-nil,
}
use libwrouter.Memory.{Memory, malloc}
use libwrouter.World.{World, Run, returns, crashes}
use libwrouter.Errors.{Error, ok, no_memory, out_of_range, builder_corrupted}
use libwrouter.Route.{call_back}
use libwrouter.Symbol.{Symbols, no_symbols, symbol_compile, uint16_max}
use libwrouter.Terminal.{Terminals, no_terminals, terminal_alloc}
use libwrouter.Graph.Stats.{graph_stats, zero_stats}
use libwrouter.Router.{Router, wrouter_free}
use libwrouter.Builder.{Builder}
use libwrouter.Compiler.{
  Compiled, fail, run_graph, alloc_graph, alloc_terminals, compile_params, compile_literals,
  check_range, create_router, wrouter_compile, new_router,
}

-- Without a router there is an error, and what was retained since has been released.
abbrev pub IsRepaid : World → Run Compiled → Type 0
IsRepaid w crashes = Unit
IsRepaid w (returns c) =
    c.router ≡ none
    → (c.err ≢ some ok)
      × ((calls : List ℕ) × (c.world.retained ≡ w.retained ++ calls)
          × (c.world.released ≡ w.released ++ calls))

base-terminal_alloc : (mem : Memory) → (terminal_alloc mem).1.base ≡ []
unfolding terminal_alloc
base-terminal_alloc mem = elim (Option-cases (malloc mem).0) [
  | inl p ↦ rw (p, terminal_alloc) refl
  | inr (a, p) ↦ elim (Option-cases (malloc (malloc mem).1).0) [
    | inl q ↦ rw (p, q, terminal_alloc) refl
    | inr (b, q) ↦ rw (p, q, terminal_alloc) refl
  ]
]

module _ (b : Builder) (releases : b.release ≡ true) (w : World) where
  -- The world once the context of the fallback has been retained.
  abbrev at_memory : Memory → World
  at_memory mem = record w { mem = mem; retained = w.retained ++ b.fallback.ctx ∷ [] }

  -- A router before its graph is compiled.
  abbrev router_with : Symbols → Symbols → Terminals → Router
  router_with L P ts = record (new_router b (graph_stats b.root zero_stats)) {
    literals = L;
    params = P;
    terminals = ts;
  }

  IsRepaid-fail :
      (err : Error) (L P : Symbols) (ts : Terminals) (mem : Memory)
      → err ≢ ok
      → ts.base ≡ []
      → IsRepaid w (fail err (router_with L P ts) (at_memory mem))
  unfolding fail wrouter_free
  IsRepaid-fail err L P ts mem ne e = elim (Bool-cases (L.freed || P.freed || ts.freed)) [
    | inl twice ↦ rw (twice, fail, wrouter_free) tt
    | inr once ↦
        rw (once, releases, e, fail, wrouter_free)
          (λ no_router. (λ h. ne (some-injective err ok h), (b.fallback.ctx ∷ [], refl, refl)))
  ]

  IsRepaid-run_graph : (r : Router) (v : World) → IsRepaid w (run_graph b r v)
  unfolding run_graph
  IsRepaid-run_graph r v no_router = absurd cc

  IsRepaid-alloc_graph :
      (L P : Symbols) (ts : Terminals) (mem : Memory)
      → ts.base ≡ []
      → IsRepaid w (alloc_graph b (router_with L P ts) (at_memory mem))
  unfolding alloc_graph
  IsRepaid-alloc_graph L P ts mem e = elim (Option-cases (malloc mem).0) [
    | inl p ↦ rw (p, alloc_graph) (IsRepaid-fail no_memory L P ts (malloc mem).1 (λ h. cc) e)
    | inr (a, p) ↦
        rw (p, alloc_graph) (IsRepaid-run_graph (router_with L P ts) (at_memory (malloc mem).1))
  ]

  IsRepaid-alloc_terminals :
      (L P : Symbols) (mem : Memory)
      → IsRepaid w (alloc_terminals b (router_with L P no_terminals) (at_memory mem))
  unfolding alloc_terminals
  IsRepaid-alloc_terminals L P mem =
      let ts = (terminal_alloc mem).1 in
      let mem' = (terminal_alloc mem).2 in
      elim (Bool-cases (terminal_alloc mem).0) [
        | inl p ↦
            rw (p, alloc_terminals) (IsRepaid-alloc_graph L P ts mem' (base-terminal_alloc mem))
        | inr p ↦
            rw (p, alloc_terminals)
              (IsRepaid-fail no_memory L P ts mem' (λ h. cc) (base-terminal_alloc mem))
      ]

  -- Behind symbol_compile: on WROUTER_OK the compilation goes on.
  by_code :
      (err : Error) (x : Run Compiled) (other : Error → Run Compiled)
      → IsRepaid w x
      → ((e : Error) → e ≢ ok → IsRepaid w (other e))
      → IsRepaid w (elim err as (λ _. Run Compiled) [ ok ↦ x | e ↦ other e ])
  by_code ok x other h k = h
  by_code err x other h k = k err (λ e. cc)

  IsRepaid-compile_params :
      (L : Symbols) (mem : Memory)
      → IsRepaid w (compile_params b (router_with L no_symbols no_terminals) (at_memory mem))
  unfolding compile_params
  IsRepaid-compile_params L mem =
      let P = (symbol_compile b.params mem).1 in
      let mem' = (symbol_compile b.params mem).2 in
      by_code (symbol_compile b.params mem).0 _ _ (IsRepaid-alloc_terminals L P mem')
        (λ e ne. IsRepaid-fail e L P no_terminals mem' ne refl)

  IsRepaid-compile_literals :
      (mem : Memory)
      → IsRepaid w
          (compile_literals b (router_with no_symbols no_symbols no_terminals) (at_memory mem))
  unfolding compile_literals
  IsRepaid-compile_literals mem =
      let L = (symbol_compile b.literals mem).1 in
      let mem' = (symbol_compile b.literals mem).2 in
      by_code (symbol_compile b.literals mem).0 _ _ (IsRepaid-compile_params L mem')
        (λ e ne. IsRepaid-fail e L no_symbols no_terminals mem' ne refl)

  IsRepaid-check_range :
      (mem : Memory)
      → IsRepaid w (check_range b (router_with no_symbols no_symbols no_terminals) (at_memory mem))
  unfolding check_range
  IsRepaid-check_range mem =
      let stats = graph_stats b.root zero_stats in
      elim (Bool-cases (ltb uint16_max stats.size || ltb uint16_max stats.terminals)) [
        | inl p ↦
            rw (p, check_range)
              (IsRepaid-fail out_of_range no_symbols no_symbols no_terminals mem (λ h. cc) refl)
        | inr p ↦ rw (p, check_range) (IsRepaid-compile_literals mem)
      ]

  unpaid :
      (err : Error) (mem : Memory)
      → err ≢ ok
      → IsRepaid w
          (returns (record { router = none; err = some err; world = record w { mem = mem } }))
  unpaid err mem ne no_router = (
    λ h. ne (some-injective err ok h),
    ([], sym (append-nil w.retained), sym (append-nil w.released)),
  )

  IsRepaid-create_router : b.retain ≡ true → IsRepaid w (create_router b w)
  unfolding create_router
  IsRepaid-create_router retains = elim (Option-cases (malloc w.mem).0) [
    | inl p ↦ rw (p, create_router) (unpaid no_memory (malloc w.mem).1 (λ h. cc))
    | inr (a, p) ↦
        rw (p, create_router)
          (subst
            (λ calls. IsRepaid w (
              check_range b (router_with no_symbols no_symbols no_terminals)
                (record w { mem = (malloc w.mem).1; retained = calls })))
            (sym (ap (λ has. call_back has w.retained b.fallback.ctx) retains))
            (IsRepaid-check_range (malloc w.mem).1))
  ]

-- Where wrouter_compile gives no router, for a builder with both callbacks, and frees no memory twice,
-- it gives an error, and the contexts that it has retained it has released, in the same order.
pub wrouter_compile-IsRepaid :
    (b : Builder) (w : World)
    → b.retain ≡ true
    → b.release ≡ true
    → IsRepaid w (wrouter_compile (some b) true w)
unfolding wrouter_compile
wrouter_compile-IsRepaid b w retains releases = elim (Bool-cases b.corrupted) [
  | inl p ↦ rw (p, wrouter_compile) (unpaid b releases w builder_corrupted w.mem (λ h. cc))
  | inr p ↦ rw (p, wrouter_compile) (IsRepaid-create_router b releases w retains)
]
