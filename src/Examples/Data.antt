-- ===== src/Examples/Data.antt =====
-- Concrete trees, lists and requests.
use libwrouter.Base.{ℕ, [], ◌∷◌, true, false, none, some}
use libwrouter.Text.{Bytes, slash}
use libwrouter.Symbol.{no_symbols}
use libwrouter.Lexer.{Lexer}
use libwrouter.Params.{Params}
use libwrouter.Router.{Router}
use libwrouter.Route.{Route}
use libwrouter.Segment.{Node, node, spec_none, nil, cons}
use libwrouter.Symbol.{Symbols}
use libwrouter.Terminal.{no_terminals}
use libwrouter.Graph.Compile.{Compiling}

abbrev pub name_a : Bytes
name_a = b'a' ∷ []

abbrev pub name_b : Bytes
name_b = b'b' ∷ []

abbrev pub two : Symbols
two = record { base = name_a ∷ name_b ∷ []; region = []; freed = false }

abbrev pub route : ℕ → Route
route n = record { handler = none; ctx = n }

abbrev pub tree : Node
tree = node (some (route 1)) none spec_none (
    cons name_b (node (some (route 2)) none spec_none nil)
      (cons name_a (node (some (route 3)) none spec_none nil) nil))

abbrev pub start : Compiling
start = record { graph = λ i. 0; cur = 0; terminals = no_terminals; retained = [] }

abbrev pub bare : Router
bare = record {
  graph = none;
  literals = two;
  params = no_symbols;
  terminals = no_terminals;
  fallback = route 0;
  max_params = 0;
  num_routes = 3;
  graph_size = 7;
  retain = true;
  release = true;
}

-- The request `/a`.
abbrev pub request : Lexer
request = record { str = some (slash ∷ name_a); cursor = some (slash ∷ name_a); length = 2 }

abbrev pub no_room : Params
no_room = record { base = []; capacity = 0 }
