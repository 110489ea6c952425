-- ===== src/Examples/Adding.antt =====
-- A builder that is created, filled and compiled, and a dispatcher of its router.
use libwrouter.Base.{
  ◌≢◌, ℕ, ◌+◌, ◌≡◌, refl, inl, inr, List, [], ◌∷◌, true, false, Option, none, some, arith, ◌==◌,
}
use libwrouter.Arena.{arena_alloc}
use libwrouter.Text.{Bytes, slash, is_illegal, isalpha, isalnum}
use libwrouter.Memory.{malloc}
use libwrouter.World.{World, Run, returns}
use libwrouter.Errors.{Error, ok}
use libwrouter.Route.{Route}
use libwrouter.Lexer.{unloaded, lexer_load, lexer_next}
use libwrouter.Lexer.Stream.{stream}
use libwrouter.Prelexer.{
  colon, prelexer_load, prelexer_init, prelexer_next, scan, prelex_string, prelex_segment,
  prelex_behind,
}
use libwrouter.Prelexer.Pattern.{lit, par, finished, rest, Pattern, pattern_of}
use libwrouter.Graph.Stats.{graph_stats}
use libwrouter.Graph.Layout.{cells, routes}
use libwrouter.Builder.{Builder}
use libwrouter.Builder.Api.{Options, fresh_builder, wrouter_builder_create, wrouter_add_route}
use libwrouter.Builder.Built.{Calls, Built, created, filled, Built-IsIntact}
use libwrouter.Builder.Listed.{Listed}
use libwrouter.Router.{Router}
use libwrouter.Compiler.{wrouter_compile}
use libwrouter.Compiler.Pipeline.{Succeeds, roomy, wrouter_compile_returns}
use libwrouter.Compiler.Settings.{wrouter_compile-HasSettings}
use libwrouter.Dispatcher.{
  Dispatcher, wrouter_dispatcher_create, wrouter_ndispatch, wrouter_nresolve,
}
use libwrouter.Dispatcher.Serving.{Serving, opened}
use libwrouter.Dispatcher.Service.{
  IsInstance, values_of, IsJustified, IsExplained, wrouter_nresolve-Listed,
  wrouter_ndispatch-Listed, wrouter_nresolve-IsExplained, wrouter_nresolve_plain,
}

abbrev pub options : Options
options = record {
  fallback_handler = some 7;
  fallback_ctx = 9;
  param_syntax = colon;
  retain = true;
  release = true;
}

-- No allocation fails.
abbrev pub calm : List ℕ → World
calm calls = record { mem = []; retained = calls; released = [] }

-- `/a/:id`
abbrev pub pattern_a : Bytes
pattern_a = slash ∷ b'a' ∷ slash ∷ b':' ∷ b'i' ∷ b'd' ∷ []

-- `/b/`
abbrev pub pattern_b : Bytes
pattern_b = slash ∷ b'b' ∷ slash ∷ []

abbrev pub Ended : Type 0
Ended = Error × Builder × World

abbrev pub ended : Option Ended → Ended
ended (some r) = r
ended none = (ok, fresh_builder options, calm [])

-- A route with a handler.
abbrev pub handled : ℕ → Route
handled n = record { handler = some (n + 100); ctx = n }

abbrev pub first : Ended
first =
    ended (wrouter_add_route (fresh_builder options) (calm (9 ∷ [])) (some pattern_a) (handled 1))

abbrev pub second : Ended
second = ended (wrouter_add_route first.1 first.2 (some pattern_b) (handled 2))

empty : Built options (calm []) [] (fresh_builder options) (calm (9 ∷ []))
unfolding wrouter_builder_create malloc
empty = created (fresh_builder options) (calm (9 ∷ [])) refl

add_first :
    wrouter_add_route (fresh_builder options) (calm (9 ∷ [])) (some pattern_a) (handled 1)
    ≡ some (ok, first.1, first.2)
unfolding wrouter_add_route is_illegal arena_alloc isalpha isalnum
add_first = refl

pub add_second :
    wrouter_add_route first.1 first.2 (some pattern_b) (handled 2) ≡ some (ok, second.1, second.2)
unfolding wrouter_add_route is_illegal arena_alloc isalpha isalnum
add_second = refl

abbrev pub calls : Calls
calls = (some pattern_b, handled 2) ∷ (some pattern_a, handled 1) ∷ []

pub Built-first : Built options (calm []) ((some pattern_a, handled 1) ∷ []) first.1 first.2
Built-first =
    filled [] (fresh_builder options) first.1 (calm (9 ∷ [])) first.2 (some pattern_a) (handled 1)
      empty add_first

pub built : Built options (calm []) calls second.1 second.2
built =
    filled ((some pattern_a, handled 1) ∷ []) first.1 second.1 first.2 second.2 (some pattern_b)
      (handled 2) Built-first add_second

pub compiled : Succeeds (wrouter_compile (some second.1) true (roomy second.1 [] [] []))
unfolding cells routes wrouter_add_route is_illegal arena_alloc isalpha isalnum
compiled = wrouter_compile_returns second.1 [] [] refl (omega arith) (omega arith)

abbrev router : Router
router = compiled.1

reserved : router.max_params ≡ 1
unfolding graph_stats wrouter_add_route is_illegal arena_alloc isalpha isalnum
reserved =
    (wrouter_compile-HasSettings second.1
      (Built-IsIntact options (calm []) calls second.1 second.2 built).0 (roomy second.1 [] [] [])
      compiled.0 router compiled.2 compiled.3).0

abbrev dispatcher : Dispatcher
dispatcher = record {
  router = router;
  lx = unloaded;
  params = record { base = []; capacity = router.max_params };
}

serving : Serving router dispatcher
unfolding wrouter_dispatcher_create malloc
serving =
    let some_cells : (router.max_params == 0) ≡ false = ground (arith, reserved) in
    opened dispatcher (calm []) (calm []) (rw (some_cells, wrouter_dispatcher_create) refl)

-- `/a/5`
abbrev request_a : Bytes
request_a = slash ∷ b'a' ∷ slash ∷ b'5' ∷ []

abbrev pub parsed_a : Pattern
parsed_a = (lit (b'a' ∷ []) ∷ par (b'i' ∷ b'd' ∷ []) ∷ [], finished)

pub Listed-a : Listed colon calls parsed_a (handled 1)
unfolding pattern_of prelexer_next scan prelex_string prelex_segment prelex_behind prelexer_load
    prelexer_init is_illegal isalpha isalnum
Listed-a = inr (inl (refl, refl))

pub IsInstance-a : IsInstance parsed_a (some request_a)
unfolding stream lexer_next lexer_load is_illegal
IsInstance-a = (refl, refl)

wrouter_nresolve-Listed_example :
    (d' : Dispatcher) × (wrouter_nresolve dispatcher (some request_a) ≡ some (returns (1, d')))
    × (d'.params.base ≡ values_of parsed_a (some request_a))
wrouter_nresolve-Listed_example =
    wrouter_nresolve-Listed options (calm []) calls second.1 second.2 (roomy second.1 [] [] [])
      compiled.0 dispatcher router built compiled.2 compiled.3 serving (some request_a) parsed_a
      (handled 1) Listed-a (λ e. cc) IsInstance-a

wrouter_ndispatch-Listed_example :
    (d' : Dispatcher) × (wrouter_ndispatch dispatcher (some request_a)
      ≡ some (returns (some (record { handler = 101; ctx = 1; params = d'.params }), d')))
    × (d'.params.base ≡ values_of parsed_a (some request_a))
wrouter_ndispatch-Listed_example =
    wrouter_ndispatch-Listed options (calm []) calls second.1 second.2 (roomy second.1 [] [] [])
      compiled.0 dispatcher router built compiled.2 compiled.3 serving (some request_a) parsed_a
      (handled 1) Listed-a (λ e. cc) IsInstance-a

wrouter_nresolve-IsExplained_example :
    (x : Run (ℕ × Dispatcher)) × (wrouter_nresolve dispatcher (some request_a) ≡ some x)
    × IsExplained options calls (some request_a) x
wrouter_nresolve-IsExplained_example =
    wrouter_nresolve-IsExplained options (calm []) calls second.1 second.2 (roomy second.1 [] [] [])
      compiled.0 dispatcher router built compiled.2 compiled.3 serving (some request_a)

no_wildcard : (p : Pattern) (r : Route) → Listed colon calls p r → p.1 ≢ rest
unfolding pattern_of prelexer_next scan prelex_string prelex_segment prelex_behind prelexer_load
    prelexer_init is_illegal isalpha isalnum
no_wildcard p r (inl (e, same)) k = absurd cc
no_wildcard p r (inr (inl (e, same))) k = absurd cc
no_wildcard p r (inr (inr never)) k = absurd never

wrouter_nresolve_plain_example :
    (x : ℕ) × (d' : Dispatcher) × (wrouter_nresolve dispatcher (some request_a)
      ≡ some (returns (x, d')))
    × IsJustified options calls (some request_a) (returns (x, d'))
wrouter_nresolve_plain_example =
    wrouter_nresolve_plain options (calm []) calls second.1 second.2 (roomy second.1 [] [] [])
      compiled.0 dispatcher router built compiled.2 compiled.3 serving (some request_a) no_wildcard
