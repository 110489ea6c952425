-- ===== src/Lib.antt =====
-- libwrouter, the C library under src/ and include/ of the repository: a router that compiles route
-- patterns into a graph of 16-bit cells and matches request paths against it.
--
-- A builder (Builder, src/builder.c) reads each pattern with the prelexer (Prelexer,
-- src/prelexer.c) and adds it to a tree of segments (Segment, src/segment.c); the names go into
-- symbol tables (Symbol, src/symbol.c), which keep their strings in arenas (Arena, src/arena.c).
-- wrouter_compile (Compiler, src/compiler.c) counts the tree's cells (Graph.Stats), sorts the
-- names, and lets graph_compile (Graph.Compile, src/graph.c) write the graph and the dictionary
-- from graph offsets to routes (Terminal, src/terminal.c). A dispatcher (Dispatcher,
-- src/dispatcher.c) loads a request into the lexer (Lexer, src/lexer.c) and lets route_match
-- (Router, src/router.c) walk the graph; the parameters are in Params (src/params.c). Errors are
-- the codes of include/wrouter.h and src/errors.c, tokens (Token) those of src/token.h.
--
-- The state of each part is a record with the fields of the C structure, and each C function is a
-- function of the same name from the state before to the state after; a block of a longer function
-- that has a name of its own here stands under the comment or label of that block. The allocator is
-- a list of its answers (Memory), so that every failure of an allocation is a path of the model.
-- World adds the calls of the retain and release callbacks. `crashes` (World.Run) is a write behind
-- the cells of the parameters, a read or a write outside the strings of a snapshot, a parameter
-- with a NULL name in wrouter_param, a symbol above the number of strings in symbol_lookup, a NULL
-- special segment in segment_release, and a second free of the symbols or of the dictionary. Other
-- accesses are not checked where they are made. The graph is a function from offsets to cells and
-- the dictionary is two lists without a capacity, so a store to them always succeeds: their sizes
-- are the subject of Graph.Layout, Graph.Extent, Graph.Frame, Graph.Keys and Compiler.Extent.
-- graph_stats and graph_compile skip a special segment that is NULL, where the C code reads through
-- it: the builder is then corrupted, and wrouter_compile refuses it before. A pointer into a string
-- is the list of the bytes from it on; a pointer into the graph is an offset. The segment tree owns
-- its children, so it is a data type, and an update puts the changed child back.
--
-- Numbers are natural numbers; what is stored in 16 bits is reduced modulo 2 ^ 16 where the code
-- stores it, sizes of a table modulo 2 ^ 64 where they double, and the addresses and sizes of a
-- block modulo 2 ^ 64 at each sum and difference. The binary searches and the two loops over tokens
-- are recursions on fuel: a search has a round for each element, which is more than it halves; the
-- loops have a round for each byte of their string and one more, since each token but the last
-- takes a byte.
--
-- wrouter_params_copy is in Params.Copy: the region is the list of its bytes, and a pointer into it
-- is an index.
--
-- Under a component, the other files hold proofs. Prelexer.Progress is about the bytes that a token
-- takes, Prelexer.Pattern reads a pattern as a list of literals and parameters and its end.
-- Symbol.Append, Symbol.Sort, Symbol.Compile and Symbol.Resolve are about the tables and the sorted
-- lists, Terminal.Lookup and Search.Sorted about the searches, Arena.Bounds about addresses,
-- Lexer.Stream makes a request a list of tokens. Params.Region and Params.Snapshot are about the
-- copies of parameters.
--
-- Segment.Shape says when a tree is well-formed. Builder.Insert is the tree as a map from patterns
-- to routes and the insertion of a route as a relation, with Builder.Update; Builder.Match,
-- Builder.Trees, Builder.Step, Builder.Descend, Builder.Capture and Builder.Loop show that the walk
-- of builder_add_route is such an insertion, and Builder.Contract says what a call does.
-- Builder.Contexts counts the contexts of a tree, Builder.Built has the builders that a client can
-- have, Builder.Listed their routes against the list of calls, and Builder.Exclusive that a
-- parameter has no literals beside it.
--
-- Graph.Layout and Graph.Depth are about graph_stats (cells, routes, reserved parameters),
-- Graph.Extent, Graph.Frame and Graph.Keys about what the steps of graph_compile move, leave alone
-- and add, Graph.Represents says that cells are a tree, with Graph.Edges, Graph.Follow, Graph.Word,
-- Graph.Literals, Graph.Step and Graph.Correct. Router.Tree says what a request matches, on the
-- tree, with Router.Flags, Router.Names, Router.Step, Router.Round and Router.Refine;
-- Router.Instance and Router.Answers compare this with the patterns of which a request is an
-- instance, Router.Plain is about trees without wildcards. Graph.Retain and Router.Release are
-- about the callbacks. Compiler.Outcome, Compiler.Names, Compiler.Pipeline, Compiler.Settings,
-- Compiler.Lifetime, Compiler.Extent and Compiler.Failure are about wrouter_compile as a whole,
-- Dispatcher.Capacity, Dispatcher.Serving and Dispatcher.Service about everything from the builder
-- to the dispatcher. Examples holds runs and concrete inputs.
--
-- Not modelled: calls of free that nothing outside can see, and the bindings for Python, Erlang and
-- C++, which only call this library. qsort of the C library is an insertion sort by the same
-- comparison (strpcmp for symbols, edge_cmp for edges), which gives the same order for keys that
-- differ.
pub mod Base
pub mod Text
pub mod Memory
pub mod World
pub mod Token
pub mod Lexer
pub mod Prelexer
pub mod Arena
pub mod Errors
pub mod Search
pub mod Symbol
pub mod Route
pub mod Terminal
pub mod Segment
pub mod Builder
pub mod Graph
pub mod Params
pub mod Router
pub mod Dispatcher
pub mod Compiler
mod Examples
