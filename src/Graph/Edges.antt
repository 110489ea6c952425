-- ===== src/Graph/Edges.antt =====
-- The sorted edges of a node: the search of route_match finds the child of a symbol.
use libwrouter.Base.{ℕ, ◌<◌, ◌≡◌, ◌≢◌, refl, ◌⊎◌, inl, inr, List, [], ◌∷◌, arith}
use libwrouter.Graph.Cells.{insert_edge, sort_edges}

abbrev pub Pairs : Type 0
Pairs = List (ℕ × ℕ)

-- The symbol differs from all that stand in the list.
abbrev pub FreshEdge : ℕ → Pairs → Type 0
FreshEdge a [] = Unit
FreshEdge a ((b, o) ∷ ps) = (a ≢ b) × FreshEdge a ps

abbrev pub DistinctEdges : Pairs → Type 0
DistinctEdges [] = Unit
DistinctEdges ((a, o) ∷ ps) = FreshEdge a ps × DistinctEdges ps

abbrev pub InEdges : ℕ → ℕ → Pairs → Type 0
InEdges a o [] = ⊥
InEdges a o ((b, q) ∷ ps) = ((a ≡ b) × (o ≡ q)) ⊎ InEdges a o ps

abbrev pub Below : ℕ → Pairs → Type 0
Below a [] = Unit
Below a ((b, o) ∷ ps) = (a < b) × Below a ps

abbrev pub Ascends : Pairs → Type 0
Ascends [] = Unit
Ascends ((a, o) ∷ ps) = Below a ps × Ascends ps

Below-trans : (a b : ℕ) (ps : Pairs) → a < b → Below b ps → Below a ps
Below-trans a b [] h p = tt
Below-trans a b ((c, o) ∷ ps) h p = (omega arith, Below-trans a b ps h p.1)

Below-insert_edge : (x a o : ℕ) (ps : Pairs) → x < a → Below x ps → Below x (insert_edge (a, o) ps)
unfolding insert_edge
Below-insert_edge x a o [] h p = (h, tt)
Below-insert_edge x a o ((b, q) ∷ ps) h p = ground (arith, Below-insert_edge x a o ps h p.1)

Ascends-insert_edge :
    (a o : ℕ) (ps : Pairs) → FreshEdge a ps → Ascends ps → Ascends (insert_edge (a, o) ps)
unfolding insert_edge
Ascends-insert_edge a o [] f p = (tt, tt)
Ascends-insert_edge a o ((b, q) ∷ ps) f p =
    ground
      (arith, Ascends-insert_edge a o ps f.1 p.1, Below-insert_edge b a o ps, Below-trans a b ps)

FreshEdge-insert_edge :
    (x a o : ℕ) (ps : Pairs) → x ≢ a → FreshEdge x ps → FreshEdge x (insert_edge (a, o) ps)
unfolding insert_edge
FreshEdge-insert_edge x a o [] h f = (h, tt)
FreshEdge-insert_edge x a o ((b, q) ∷ ps) h f = ground (arith, FreshEdge-insert_edge x a o ps h f.1)

InEdges-insert_edge_self : (a o : ℕ) (ps : Pairs) → InEdges a o (insert_edge (a, o) ps)
unfolding insert_edge
InEdges-insert_edge_self a o [] = inl (refl, refl)
InEdges-insert_edge_self a o ((b, q) ∷ ps) = ground (arith, InEdges-insert_edge_self a o ps)

InEdges-insert_edge :
    (x y a o : ℕ) (ps : Pairs) → InEdges x y ps → InEdges x y (insert_edge (a, o) ps)
unfolding insert_edge
InEdges-insert_edge x y a o [] h = absurd h
InEdges-insert_edge x y a o ((b, q) ∷ ps) h = ground (arith, InEdges-insert_edge x y a o ps)

pub FreshEdge-sort_edges : (x : ℕ) (ps : Pairs) → FreshEdge x ps → FreshEdge x (sort_edges ps)
unfolding sort_edges
FreshEdge-sort_edges x [] f = tt
FreshEdge-sort_edges x ((a, o) ∷ ps) f =
    FreshEdge-insert_edge x a o (sort_edges ps) f.0 (FreshEdge-sort_edges x ps f.1)

pub InEdges-sort_edges : (x y : ℕ) (ps : Pairs) → InEdges x y ps → InEdges x y (sort_edges ps)
unfolding sort_edges
InEdges-sort_edges x y [] h = absurd h
InEdges-sort_edges x y ((a, o) ∷ ps) (inl (e, f)) =
    rw (e, f) (InEdges-insert_edge_self a o (sort_edges ps))
InEdges-sort_edges x y ((a, o) ∷ ps) (inr h) =
    InEdges-insert_edge x y a o (sort_edges ps) (InEdges-sort_edges x y ps h)

pub Ascends-sort_edges : (ps : Pairs) → DistinctEdges ps → Ascends (sort_edges ps)
unfolding sort_edges
Ascends-sort_edges [] d = tt
Ascends-sort_edges ((a, o) ∷ ps) d =
    Ascends-insert_edge a o (sort_edges ps) (FreshEdge-sort_edges a ps d.0)
      (Ascends-sort_edges ps d.1)
