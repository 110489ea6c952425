-- ===== src/Examples/Whole.antt =====
-- The pipeline from a builder to a request, at a concrete builder.
use libwrouter.Examples.Data.{name_a, name_b, route, tree, request, no_room}
use libwrouter.Base.{ℕ, ◌≡◌, refl, ap, inl, inr, [], ◌∷◌, true, false, some, none, arith, get_or}
use libwrouter.Arena.{Block, block_alloc}
use libwrouter.Arena.Bounds.{IsPlaced, block_alloc-IsPlaced}
use libwrouter.Text.{bytes_eq, is_illegal}
use libwrouter.World.{returns}
use libwrouter.Prelexer.{colon}
use libwrouter.Lexer.{lexer_next}
use libwrouter.Lexer.Stream.{stream}
use libwrouter.Symbol.{SymbolTable, empty_table, no_symbols}
use libwrouter.Terminal.{no_terminals}
use libwrouter.Builder.{Builder}
use libwrouter.Router.{Router, route_match}
use libwrouter.Router.Step.{seen}
use libwrouter.Router.Tree.{child_named, tree_walk}
use libwrouter.Graph.Layout.{cells, routes}
use libwrouter.Compiler.{wrouter_compile}
use libwrouter.Segment.Shape.{IsTree}
use libwrouter.Symbol.Append.{IsTable}
use libwrouter.Builder.Contract.{IsIntact}
use libwrouter.Compiler.Extent.{IsWithin, wrouter_compile-IsWithin}
use libwrouter.Compiler.Pipeline.{
  Succeeds, roomy, wrouter_compile-route_match, wrouter_compile_returns,
}

abbrev names : SymbolTable
names = record empty_table { base = name_b ∷ name_a ∷ []; count = 2; capacity = 1024 }

abbrev builder : Builder
builder = record {
  root = tree;
  literals = names;
  params = empty_table;
  fallback = route 0;
  retain = true;
  release = true;
  param_syntax = colon;
  corrupted = false;
}

names-IsTable : IsTable names
names-IsTable = record {
  counted = refl;
  nul_free = ((omega arith, tt), ((omega arith, tt), tt));
  distinct = ((λ e. absurd (omega (arith, ap (λ ss. get_or ss 0 0) e)), tt), (tt, tt));
  few = omega arith;
}

builder-IsIntact : IsIntact builder
unfolding IsTree
builder-IsIntact = record {
  literals = names-IsTable;
  params = record { counted = refl; nul_free = tt; distinct = tt; few = omega arith };
  tree = (
    omega arith,
    ((λ e. absurd (omega (arith, ap (λ ss. get_or ss 0 0) e)), tt), (tt, tt)),
    tt,
    (
      (omega arith, tt),
      inl refl,
      (omega arith, tt, tt, tt),
      ((omega arith, tt), inr (inl refl), (omega arith, tt, tt, tt), tt),
    ),
  );
}

compiled : Succeeds (wrouter_compile (some builder) true (roomy builder [] [] []))
unfolding cells routes
compiled = wrouter_compile_returns builder [] [] refl (omega arith) (omega arith)

abbrev router : Router
router = compiled.1

wrouter_compile_returns_example :
    Succeeds (wrouter_compile (some builder) true (roomy builder [] [] []))
unfolding cells routes
wrouter_compile_returns_example =
    wrouter_compile_returns builder [] [] refl (omega arith) (omega arith)

wrouter_compile-route_match_example :
    seen (route_match router request no_room) ≡ some (returns (some (route 3), no_room))
unfolding stream lexer_next is_illegal tree_walk child_named bytes_eq
wrouter_compile-route_match_example =
    wrouter_compile-route_match builder (roomy builder [] [] []) compiled.0 compiled.1 request
      no_room builder-IsIntact compiled.2 compiled.3

wrouter_compile-IsWithin_example : IsWithin router compiled.0.world
wrouter_compile-IsWithin_example =
    wrouter_compile-IsWithin builder (roomy builder [] [] []) compiled.0 compiled.1 builder-IsIntact
      compiled.2 compiled.3

abbrev graphless : Router
graphless = record {
  graph = none;
  literals = no_symbols;
  params = no_symbols;
  terminals = no_terminals;
  fallback = route 9;
  max_params = 0;
  num_routes = 0;
  graph_size = 0;
  retain = true;
  release = true;
}

-- A block with seven bytes left, and a request of four bytes that wants an address divisible by 8.
abbrev block : ℕ → Block
block used = record { base = 100; used = used; size = 10 }

block_alloc-IsPlaced_example : IsPlaced (block 3) 4 8 104 (block 8)
unfolding block_alloc
block_alloc-IsPlaced_example =
    block_alloc-IsPlaced (block 3) (block 8) 4 3 104 (omega arith) (omega arith) refl
