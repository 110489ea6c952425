-- ===== src/Compiler/Outcome.antt =====
-- What a router has gone through when wrouter_compile returns it.
use mathlib.Core.Path.{subst}
use libwrouter.Base.{
  ℕ, ◌≤◌, List, [], ==_iff, ◌≡◌, refl, sym, ap, inl, inr, true, false, some, none, arith,
  Bool-cases, Option-cases, ltb, ◌||◌, ◌==◌,
}
use libwrouter.Memory.{Memory, malloc}
use libwrouter.World.{World, Run, returns, crashes}
use libwrouter.Errors.{Error, ok, no_memory, out_of_range}
use libwrouter.Symbol.{Symbols, SymbolTable, symbol_compile, sort_symbols, uint16_max}
use libwrouter.Terminal.{no_terminals, terminal_alloc}
use libwrouter.Graph.Stats.{GraphStats, zero_stats, graph_stats}
use libwrouter.Router.{Router, wrouter_free}
use libwrouter.Route.{call_back}
use libwrouter.Builder.{Builder}
use libwrouter.Compiler.{
  Compiled, fail, run_graph, alloc_graph, alloc_terminals, compile_params, compile_literals,
  check_range, new_router, create_router, wrouter_compile,
}

-- The list is the table's strings, sorted, in memory of its own.
pub record IsCompiled (tbl : SymbolTable) (syms : Symbols) : Type 0 where
  pub sorted : syms.base ≡ sort_symbols tbl.base
  pub owned : syms.freed ≡ false

-- A table without slots has no strings.
abbrev pub IsFilled : SymbolTable → Type 0
IsFilled tbl = tbl.count ≡ 0 → tbl.base ≡ []

IsCompiled-by :
    (tbl : SymbolTable) (mem : Memory)
    → IsFilled tbl
    → (symbol_compile tbl mem).0 ≡ ok
    → IsCompiled tbl (symbol_compile tbl mem).1
unfolding symbol_compile sort_symbols
IsCompiled-by tbl mem filled e = elim (Bool-cases (tbl.count == 0)) [
  | inl z ↦
      rw (z, symbol_compile)
        (record {
          sorted = sym (ap sort_symbols (filled ((==_iff tbl.count 0).0 z)));
          owned = refl;
        })
  | inr nz ↦ elim (Option-cases (malloc mem).0) [
    | inl p ↦ cc (rw (nz, p, symbol_compile) at e)
    | inr (a, p) ↦ elim (Option-cases (malloc (malloc mem).1).0) [
      | inl q ↦ cc (rw (nz, p, q, symbol_compile) at e)
      | inr (b, q) ↦ rw (nz, p, q, symbol_compile) (record { sorted = refl; owned = refl })
    ]
  ]
]

-- `Q` holds for the router and the world, if a router is returned.
abbrev pub Ensures : (Router → World → Type 0) → Run Compiled → Type 0
Ensures Q crashes = Unit
Ensures Q (returns c) = elim c.router as (λ _. Type 0) [ none ↦ Unit | some r ↦ Q r c.world ]

module _ (Q : Router → World → Type 0) where
  Ensures-fail : (err : Error) (r : Router) (w : World) → Ensures Q (fail err r w)
  unfolding fail
  Ensures-fail err r w = by_free (wrouter_free (some r) w)
    where
      by_free :
          (x : Run World)
          → Ensures Q (elim x as (λ _. Run Compiled) [
            | crashes ↦ crashes
            | returns w' ↦ returns (record { router = none; err = some err; world = w' })
          ])
      by_free crashes = tt
      by_free (returns w') = tt

  after :
      (err : Error) (x : Run Compiled) (other : Error → Run Compiled)
      → (err ≡ ok → Ensures Q x)
      → ((e : Error) → Ensures Q (other e))
      → Ensures Q (elim err as (λ _. Run Compiled) [ ok ↦ x | e ↦ other e ])
  after ok x other h k = h refl
  after e x other h k = k e

  terminals_by :
      (mem : Memory) → (terminal_alloc mem).0 ≡ true → (terminal_alloc mem).1 ≡ no_terminals
  unfolding terminal_alloc
  terminals_by mem e = elim (Option-cases (malloc mem).0) [
    | inl p ↦ cc (rw (p, terminal_alloc) at e)
    | inr (a, p) ↦ elim (Option-cases (malloc (malloc mem).1).0) [
      | inl q ↦ cc (rw (p, q, terminal_alloc) at e)
      | inr (b, q) ↦ rw (p, q, terminal_alloc) refl
    ]
  ]

  module _ (b : Builder) (filled : IsFilled b.literals) (filled' : IsFilled b.params)
      (retained released : List ℕ) where
    abbrev pub stats : GraphStats
    stats = graph_stats b.root zero_stats

    -- The router before its graph is compiled.
    abbrev pub ready : Symbols → Symbols → Router
    ready L P = record (new_router b stats) { literals = L; params = P }

    abbrev pub at_memory : Memory → World
    at_memory mem = record { mem = mem; retained = retained; released = released }

    module _
        (finish : (L P : Symbols) (mem : Memory)
          → IsCompiled b.literals L
          → IsCompiled b.params P
          → stats.size ≤ 65535
          → stats.terminals ≤ 65535
          → Ensures Q (run_graph b (ready L P) (at_memory mem)))
        (small : stats.size ≤ 65535) (few : stats.terminals ≤ 65535) where
      module _ (L P : Symbols) (of_literals : IsCompiled b.literals L)
          (of_params : IsCompiled b.params P) where
        Ensures-alloc_graph : (mem : Memory) → Ensures Q (alloc_graph b (ready L P) (at_memory mem))
        unfolding alloc_graph
        Ensures-alloc_graph mem = elim (Option-cases (malloc mem).0) [
          | inl p ↦
              rw (p, alloc_graph) (Ensures-fail no_memory (ready L P) (at_memory (malloc mem).1))
          | inr (a, p) ↦
              rw (p, alloc_graph) (finish L P (malloc mem).1 of_literals of_params small few)
        ]

        Ensures-alloc_terminals :
            (mem : Memory) → Ensures Q (alloc_terminals b (ready L P) (at_memory mem))
        unfolding alloc_terminals
        Ensures-alloc_terminals mem = elim (Bool-cases (terminal_alloc mem).0) [
          | inl p ↦
              rw (p, alloc_terminals)
                (subst
                  (λ ts. Ensures Q (
                    alloc_graph b (record (ready L P) { terminals = ts })
                      (at_memory (terminal_alloc mem).2)))
                  (sym (terminals_by mem p)) (Ensures-alloc_graph (terminal_alloc mem).2))
          | inr p ↦
              rw (p, alloc_terminals)
                (Ensures-fail no_memory (record (ready L P) { terminals = (terminal_alloc mem).1 })
                  (at_memory (terminal_alloc mem).2))
        ]

      Ensures-compile_params :
          (L : Symbols) (mem : Memory)
          → IsCompiled b.literals L
          → Ensures Q
              (compile_params b (record (new_router b stats) { literals = L }) (at_memory mem))
      unfolding compile_params
      Ensures-compile_params L mem of_literals =
          let syms = (symbol_compile b.params mem).1 in
          let mem' = (symbol_compile b.params mem).2 in
          after (symbol_compile b.params mem).0 _ _
            (λ e.
              Ensures-alloc_terminals L syms of_literals (IsCompiled-by b.params mem filled' e)
                mem')
            (λ e. Ensures-fail e (ready L syms) (at_memory mem'))

      Ensures-compile_literals :
          (mem : Memory) → Ensures Q (compile_literals b (new_router b stats) (at_memory mem))
      unfolding compile_literals
      Ensures-compile_literals mem =
          let syms = (symbol_compile b.literals mem).1 in
          let mem' = (symbol_compile b.literals mem).2 in
          after (symbol_compile b.literals mem).0 _ _
            (λ e. Ensures-compile_params syms mem' (IsCompiled-by b.literals mem filled e))
            (λ e. Ensures-fail e (record (new_router b stats) { literals = syms }) (at_memory mem'))

    abbrev pub Finish : Type 0
    Finish =
        (L P : Symbols) (mem : Memory)
        → IsCompiled b.literals L
        → IsCompiled b.params P
        → stats.size ≤ 65535
        → stats.terminals ≤ 65535
        → Ensures Q (run_graph b (ready L P) (at_memory mem))

    pub Ensures-check_range :
        Finish → (mem : Memory) → Ensures Q (check_range b (new_router b stats) (at_memory mem))
    unfolding check_range
    Ensures-check_range finish mem =
        elim (Bool-cases (ltb uint16_max stats.size || ltb uint16_max stats.terminals)) [
          | inl p ↦
              rw (p, check_range) (Ensures-fail out_of_range (new_router b stats) (at_memory mem))
          | inr p ↦
              rw (p, check_range)
                (Ensures-compile_literals finish (ground arith) (ground arith) mem)
        ]

-- What holds at the end of run_graph holds of a router that wrouter_compile returns.
module _ (Q : Router → World → Type 0) (b : Builder) (filled : IsFilled b.literals)
    (filled' : IsFilled b.params) (w : World)
    (finish : Finish Q b filled filled'
      (call_back b.retain w.retained b.fallback.ctx)
      w.released) where
  Ensures-create_router : Ensures Q (create_router b w)
  unfolding create_router
  Ensures-create_router = elim (Option-cases (malloc w.mem).0) [
    | inl p ↦ rw (p, create_router) tt
    | inr (a, p) ↦
        rw (p, create_router)
          (Ensures-check_range Q b filled filled' (call_back b.retain w.retained b.fallback.ctx)
            w.released finish (malloc w.mem).1)
  ]

  Ensures-wrouter_compile : Ensures Q (wrouter_compile (some b) true w)
  unfolding wrouter_compile
  Ensures-wrouter_compile = elim (Bool-cases b.corrupted) [
    | inl p ↦ rw (p, wrouter_compile) tt
    | inr p ↦ rw (p, wrouter_compile) Ensures-create_router
  ]

  pub ensured :
      (c : Compiled) (r : Router)
      → wrouter_compile (some b) true w ≡ returns c
      → c.router ≡ some r
      → Q r c.world
  ensured c r e f =
      subst (λ o. elim o as (λ _. Type 0) [ none ↦ Unit | some r' ↦ Q r' c.world ]) f
        (subst (Ensures Q) e Ensures-wrouter_compile)
