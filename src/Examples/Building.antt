-- ===== src/Examples/Building.antt =====
-- The theorems on builders, their tables and the life of a router, at the builder of Examples.Adding.
use libwrouter.Base.{
  none, ℕ, ◌+◌, ◌≤◌, ◌≡◌, refl, ◌↔◌, List, [], ◌∷◌, ◌++◌, ap, true, false, some, arith,
}
use libwrouter.Arena.{arena_alloc}
use libwrouter.Text.{is_illegal, isalpha, isalnum}
use libwrouter.World.{World, returns}
use libwrouter.Errors.{Error, builder_corrupted, duplicate_route}
use libwrouter.Prelexer.{
  Prelexer, zero_prelexer, colon, prelexer_load, prelexer_init, prelexer_next, scan, prelex_string,
  prelex_segment, prelex_behind,
}
use libwrouter.Prelexer.Pattern.{Pattern, pattern_of}
use libwrouter.Prelexer.Progress.{IsPiece, unread, prelexer_next-IsPiece}
use libwrouter.Symbol.{empty_table, symbol_append}
use libwrouter.Symbol.Append.{Appends, empty_table-IsTable, symbol_append-Appends}
use libwrouter.Graph.Stats.{graph_stats, zero_stats}
use libwrouter.Graph.Layout.{cells, routes}
use libwrouter.Graph.Depth.{captured, graph_stats-captured}
use libwrouter.Builder.{Builder}
use libwrouter.Builder.Api.{wrouter_add_route}
use libwrouter.Builder.Insert.{route_at}
use libwrouter.Builder.Contract.{
  IsIntact, Ends, Updates, wrouter_add_route_lem, wrouter_add_route-Updates,
  wrouter_add_route_again,
}
use libwrouter.Builder.Contexts.{times}
use libwrouter.Builder.Built.{Frees, Built-IsFaithful, Built-IsIntact, wrouter_builder_free-Built}
use libwrouter.Builder.Listed.{Listed, route_at-Built}
use libwrouter.Compiler.{Compiled, wrouter_compile, wrouter_consume}
use libwrouter.Compiler.Pipeline.{Succeeds, wrouter_compile_returns}
use libwrouter.Compiler.Lifetime.{
  IsPaired, IsSettled, settled, wrouter_free-wrouter_compile, wrouter_consume-IsSettled,
}
use libwrouter.Compiler.Failure.{IsRepaid, wrouter_compile-IsRepaid}
use libwrouter.Router.{wrouter_free}
use libwrouter.Examples.Data.{name_a}
use libwrouter.Examples.Adding.{
  options, calm, pattern_a, pattern_b, first, second, calls, built, Built-first, ended, add_second,
  Listed-a, parsed_a, handled,
}

Built-IsIntact_example : IsIntact second.1 × (second.1.corrupted ≡ false)
Built-IsIntact_example = Built-IsIntact options (calm []) calls second.1 second.2 built

intact : IsIntact second.1 × (second.1.corrupted ≡ false)
intact = Built-IsIntact options (calm []) calls second.1 second.2 built

route_at-Built_example :
    (route_at parsed_a.0 parsed_a.1 second.1.root ≡ some (handled 1))
    ↔ Listed colon calls parsed_a (handled 1)
route_at-Built_example = route_at-Built options (calm []) built parsed_a (handled 1)

wrouter_add_route_lem_example :
    (r : Error × Builder × World) × (wrouter_add_route second.1 second.2
        (some pattern_a)
        (handled 3)
      ≡ some r)
    × Ends second.1 second.2 (some pattern_a) (handled 3) r
wrouter_add_route_lem_example =
    wrouter_add_route_lem second.1 second.2 (some pattern_a) (handled 3) intact.0 intact.1

wrouter_add_route-Updates_example :
    (p : Pattern) × (pattern_of first.1.param_syntax (some pattern_b) ≡ some p)
    × Updates first.1.root second.1.root p (handled 2)
wrouter_add_route-Updates_example =
    wrouter_add_route-Updates first.1 second.1 first.2 second.2 (some pattern_b) (handled 2)
      (Built-IsIntact options (calm []) ((some pattern_a, handled 1) ∷ []) first.1 first.2
        Built-first).0
      (Built-IsIntact options (calm []) ((some pattern_a, handled 1) ∷ []) first.1 first.2
        Built-first).1
      add_second

-- A second route for `/b/`.
abbrev third : Error × Builder × World
third = ended (wrouter_add_route second.1 second.2 (some pattern_b) (handled 4))

wrouter_add_route_again_example :
    wrouter_add_route third.1 third.2 (some pattern_a) (handled 5)
    ≡ some (builder_corrupted, third.1, third.2)
unfolding wrouter_add_route is_illegal arena_alloc isalpha isalnum
wrouter_add_route_again_example =
    wrouter_add_route_again second.1 third.1 second.2 third.2 third.2 duplicate_route
      (some pattern_b) (some pattern_a) (handled 4) (handled 5) intact.0 intact.1 (λ e. cc) refl

wrouter_builder_free-Built_example :
    (freed : List ℕ) × Frees (some second.1) second.2 freed
    × ((c : ℕ) → times c second.2.retained ≡ times c [] + times c freed)
wrouter_builder_free-Built_example =
    wrouter_builder_free-Built options (calm []) calls second.1 second.2 second.2 built refl refl

compiled : Succeeds (wrouter_compile (some second.1) true second.2)
unfolding cells routes wrouter_add_route is_illegal arena_alloc isalpha isalnum
compiled = wrouter_compile_returns second.1 (9 ∷ 1 ∷ 2 ∷ []) [] refl (omega arith) (omega arith)

wrouter_free-wrouter_compile_example :
    IsPaired second.2.retained second.2.released compiled.1 compiled.0.world
wrouter_free-wrouter_compile_example =
    wrouter_free-wrouter_compile second.1 second.2 compiled.0 compiled.1 intact.0
      (Built-IsFaithful options (calm []) built).retain
      (Built-IsFaithful options (calm []) built).release compiled.2 compiled.3

consumes :
    (b : Builder) (w : World) (c : Compiled) (freed : List ℕ)
    → wrouter_compile (some b) true w ≡ returns c
    → Frees (some b) c.world freed
    → wrouter_consume (some b) true w
      ≡ returns (record c { world = record c.world { released = c.world.released ++ freed } })
unfolding wrouter_consume
consumes b w c freed e f = rw (e, wrouter_consume) (ap (settled c) f)

freed_builder :
    (freed : List ℕ) × Frees (some second.1) compiled.0.world freed
    × ((c : ℕ) → times c second.2.retained ≡ times c [] + times c freed)
freed_builder =
    wrouter_builder_free-Built options (calm []) calls second.1 second.2 compiled.0.world built refl
      refl

abbrev consumed : Compiled
consumed = record compiled.0 {
  world = record compiled.0.world { released = compiled.0.world.released ++ freed_builder.0 };
}

wrouter_consume-IsSettled_example :
    (u : World) × (wrouter_free (some compiled.1) consumed.world ≡ returns u)
    × IsSettled (calm []) u
wrouter_consume-IsSettled_example =
    wrouter_consume-IsSettled options (calm []) calls second.1 second.2 consumed compiled.1 built
      refl refl (consumes second.1 second.2 compiled.0 freed_builder.0 compiled.2 freed_builder.1)
      compiled.3

graph_stats-captured_example :
    0 + captured parsed_a.0 parsed_a.1 ≤ (graph_stats second.1.root zero_stats).max_params
graph_stats-captured_example =
    graph_stats-captured parsed_a.0 parsed_a.1 second.1.root zero_stats (handled 1) (omega arith)
      ((route_at-Built options (calm []) built parsed_a (handled 1)).1 Listed-a)

symbol_append-Appends_example : Appends empty_table name_a (symbol_append empty_table name_a [])
symbol_append-Appends_example =
    symbol_append-Appends empty_table name_a [] empty_table-IsTable (omega arith, tt)

-- At the start of the pattern `/a/:id`.
abbrev at_start : Prelexer
at_start = prelexer_load (prelexer_init zero_prelexer colon) (some pattern_a)

prelexer_next-IsPiece_example : IsPiece (unread at_start) (prelexer_next at_start)
unfolding prelexer_next prelexer_load prelexer_init scan prelex_string prelex_segment prelex_behind
    is_illegal isalpha isalnum
prelexer_next-IsPiece_example = prelexer_next-IsPiece at_start refl

-- The world with no memory for the router's graph: the allocations before it succeed.
abbrev short : World
short = record {
  mem = some 0 ∷ some 0 ∷ some 0 ∷ some 0 ∷ some 0 ∷ some 0 ∷ some 0 ∷ none ∷ [];
  retained = second.2.retained;
  released = [];
}

wrouter_compile-IsRepaid_example : IsRepaid short (wrouter_compile (some second.1) true short)
wrouter_compile-IsRepaid_example =
    wrouter_compile-IsRepaid second.1 short (Built-IsFaithful options (calm []) built).retain
      (Built-IsFaithful options (calm []) built).release
