-- ===== src/Examples.antt =====
-- Runs of the model on the routes of the README.
mod Data
mod Witnesses
mod Whole
mod Adding
mod Building
mod Copying
use Prim.Native.Char.{code}
use Prim.Native.String.{String}
use libwrouter.Base.{ℕ, List, [], ◌∷◌, Bool, true, false, Option, none, some, ◌≡◌, refl}
use libwrouter.Text.{Bytes, is_illegal, isalpha, isalnum}
use libwrouter.Arena.{arena_alloc}
use libwrouter.World.{World, Run, returns, crashes}
use libwrouter.Prelexer.{ParamSyntax, colon, angle, brace}
use libwrouter.Errors.{Error, ok}
use libwrouter.Route.{Route}
use libwrouter.Builder.{Builder}
use libwrouter.Builder.Api.{Options, wrouter_builder_create, wrouter_add_context}
use libwrouter.Graph.Compile.{
  compile_head, compile_symbols, sort_literals, compile_trailing, compile_leaf,
}
use libwrouter.Params.{Param, Params}
use libwrouter.Params.{param_next}
use libwrouter.Lexer.{lexer_next}
use libwrouter.Symbol.{symbol_nresolve, symbol_resolve, symbol_lookup}
use libwrouter.Terminal.{terminal_lookup}
use libwrouter.Router.{
  Router, match_loop, visit, at_literal, at_wildcard, at_trailing, at_end, at_terminal,
  follow_literal, follow_symbol, has,
}
use libwrouter.Dispatcher.{Dispatcher, wrouter_dispatcher_create, wrouter_nresolve}
use libwrouter.Compiler.{Compiled, wrouter_compile}

abbrev pub codes : String → List ℕ
codes String.[] = []
codes (String.◌∷◌ c s) = code c ∷ codes s

abbrev pub options : Options
options = record {
  fallback_handler = none;
  fallback_ctx = 99;
  param_syntax = colon;
  retain = true;
  release = true;
}

abbrev pub quiet : World
quiet = record { mem = []; retained = []; released = [] }

program : Unit {0}
unfolding wrouter_builder_create wrouter_add_context wrouter_compile wrouter_dispatcher_create
    wrouter_nresolve match_loop visit at_literal at_wildcard at_trailing at_end at_terminal
    follow_literal follow_symbol has terminal_lookup symbol_nresolve symbol_lookup lexer_next
    param_next compile_head compile_symbols sort_literals compile_trailing compile_leaf
program = tt

add_all : List (Bytes × ℕ) → Builder → World → Option (Error × Builder × World)
unfolding program
add_all [] b w = some (ok, b, w)
add_all ((p, ctx) ∷ rest) b w = elim (wrouter_add_context b w (some p) ctx) [
  | some (ok, b', w') ↦ add_all rest b' w'
  | other ↦ other
]

build : List (Bytes × ℕ) → Option Router
unfolding program add_all
build routes = elim (wrouter_builder_create options quiet) [
  | returns (some b, w) ↦ elim (add_all routes b w) [
    | some (ok, b', w') ↦ elim (wrouter_compile (some b') true w') [
      | returns c ↦ c.router
      | crashes ↦ none
    ]
    | _ ↦ none
  ]
  | _ ↦ none
]

-- The context, and the names and values of the parameters.
resolve : List (Bytes × ℕ) → Bytes → Option (Run (ℕ × List Param))
unfolding program build
resolve routes path = elim (build routes) [
  | none ↦ none
  | some r ↦ elim (wrouter_dispatcher_create r quiet).0 [
    | none ↦ none
    | some d ↦ elim (wrouter_nresolve d (some path)) [
      | none ↦ none
      | some crashes ↦ some crashes
      | some (returns (ctx, d')) ↦ some (returns (ctx, d'.params.base))
    ]
  ]
]

abbrev pub readme : List (Bytes × ℕ)
readme =
    (codes "/account", 1)
    ∷ (codes "/account/create", 2)
    ∷ (codes "/account/a/:account_id", 3)
    ∷ (codes "/files/*", 4)
    ∷ (codes "/files/a/", 5)
    ∷ (codes "/", 6)
    ∷ []

context_of : Option (Run (ℕ × List Param)) → Option ℕ
context_of (some (returns (ctx, ps))) = some ctx
context_of _ = none

abbrev overlapping : List (Bytes × ℕ)
overlapping = (codes "/a/*", 1) ∷ (codes "/a/b/:id/c", 2) ∷ []

test_literals : context_of (resolve readme (codes "/account/create")) ≡ some 2
unfolding program resolve context_of is_illegal arena_alloc isalpha isalnum symbol_resolve
test_literals = refl

test_param : context_of (resolve readme (codes "/account/a/1234")) ≡ some 3
unfolding program resolve context_of is_illegal arena_alloc isalpha isalnum symbol_resolve
test_param = refl

test_wildcard : context_of (resolve readme (codes "/files/b/c")) ≡ some 4
unfolding program resolve context_of is_illegal arena_alloc isalpha isalnum symbol_resolve
test_wildcard = refl

test_trailing : context_of (resolve readme (codes "/files/a/")) ≡ some 5
unfolding program resolve context_of is_illegal arena_alloc isalpha isalnum symbol_resolve
test_trailing = refl

test_root : context_of (resolve readme (codes "/")) ≡ some 6
unfolding program resolve context_of is_illegal arena_alloc isalpha isalnum symbol_resolve
test_root = refl

-- The wildcard's parameter is written behind the only cell that was allocated.
test_overflow : resolve overlapping (codes "/a/b/5/d") ≡ some crashes
unfolding program resolve context_of is_illegal arena_alloc isalpha isalnum symbol_resolve
test_overflow = refl

-- The wildcard takes a path with query parameters, if a legal segment stands before them.
test_query : context_of (resolve ((codes "/*", 1) ∷ []) (codes "/foo/bar?query=hi")) ≡ some 1
unfolding program resolve context_of is_illegal arena_alloc isalpha isalnum symbol_resolve
test_query = refl

test_query_first : context_of (resolve ((codes "/*", 1) ∷ []) (codes "/?query=hi")) ≡ some 99
unfolding program resolve context_of is_illegal arena_alloc isalpha isalnum symbol_resolve
test_query_first = refl
