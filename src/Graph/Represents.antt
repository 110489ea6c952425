-- ===== src/Graph/Represents.antt =====
-- What it means that the cells at an offset represent a tree, and which trees can be compiled.
use libwrouter.Base.{ℕ, ◌+◌, ◌*◌, ◌≤◌, ◌≡◌, ◌≢◌, Option, none, some}
use libwrouter.Text.{Bytes}
use libwrouter.Route.{Route}
use libwrouter.Segment.{
  Node, Special, Segments, node, spec_none, spec_param, spec_wildcard, spec_param_null,
  spec_wildcard_null, nil, cons, child_count,
}
use libwrouter.Graph.Cells.{Cells}
use libwrouter.Graph.Stats.{count_route}
use libwrouter.Graph.Compile.{edges_special}
use libwrouter.Router.{follow_symbol}

abbrev pub param_bit : Special → ℕ
param_bit (spec_param str child) = 1
param_bit _ = 0

abbrev pub wildcard_bit : Special → ℕ
wildcard_bit (spec_wildcard route) = 1
wildcard_bit _ = 0

-- The node's word: the number of literal children, and the four flags above it.
abbrev pub word : Option Route → Option Route → Special → Segments → ℕ
word t u sp cs =
    child_count cs
    + 4096 * count_route t
    + 8192 * param_bit sp
    + 16384 * wildcard_bit sp
    + 32768 * count_route u

-- The offset of the first literal edge of the node at `at`.
abbrev pub edge_base : Option Route → Special → ℕ → ℕ
edge_base u sp at = at + 1 + edges_special sp + count_route u

module _ (lit : Bytes → ℕ) where
  -- The symbol is that of none of the children.
  abbrev pub FreshChild : ℕ → Segments → Type 0
  FreshChild a nil = Unit
  FreshChild a (cons str child cs) = (a ≢ lit str) × FreshChild a cs

  abbrev pub DistinctChildren : Segments → Type 0
  DistinctChildren nil = Unit
  DistinctChildren (cons str child cs) = FreshChild (lit str) cs × DistinctChildren cs

  -- At every node there are at most 4095 children, of different symbols, and no NULL.
  unfoldable mutual
    pub IsCompilable : Node → Type 0
    IsCompilable (node t u sp cs) =
        (child_count cs ≤ 4095)
        × DistinctChildren cs
        × IsCompilableSpecial sp
        × IsCompilableChildren cs

    pub IsCompilableSpecial : Special → Type 0
    IsCompilableSpecial spec_none = Unit
    IsCompilableSpecial (spec_param str child) = IsCompilable child
    IsCompilableSpecial (spec_wildcard r) = Unit
    IsCompilableSpecial spec_param_null = ⊥
    IsCompilableSpecial spec_wildcard_null = ⊥

    pub IsCompilableChildren : Segments → Type 0
    IsCompilableChildren nil = Unit
    IsCompilableChildren (cons str child cs) = IsCompilable child × IsCompilableChildren cs

module _ (lit par : Bytes → ℕ) (T : ℕ → Route → Type 0) (g : Cells) where
  -- A terminal of the node at an offset has its route under that key.
  abbrev pub Entry : Option Route → ℕ → Type 0
  Entry none key = Unit
  Entry (some r) key = T key r

  -- The cells at `at` are the node: its word, its terminal, its special edge, its trailing edge, and
  -- the literal edges, which the search of route_match follows to the children and no further; the count fits.
  unfoldable mutual
    pub Represents : Node → ℕ → Type 0
    Represents (node t u sp cs) at =
        (g at ≡ word t u sp cs)
        × Entry t at
        × RepresentsSpecial sp (at + 1)
        × Entry u (g (at + 1 + edges_special sp))
        × RepresentsChildren cs (edge_base u sp at) (child_count cs)
        × ((a : ℕ)
            → FreshChild lit a cs
            → follow_symbol g (edge_base u sp at) (child_count cs) a ≡ none)
        × (child_count cs ≤ 4095)

    pub RepresentsSpecial : Special → ℕ → Type 0
    RepresentsSpecial spec_none edge = Unit
    RepresentsSpecial (spec_param str child) edge =
        (g edge ≡ par str) × Represents child (g (edge + 1))
    RepresentsSpecial (spec_wildcard r) edge = T (g edge) r
    RepresentsSpecial spec_param_null edge = ⊥
    RepresentsSpecial spec_wildcard_null edge = ⊥

    pub RepresentsChildren : Segments → ℕ → ℕ → Type 0
    RepresentsChildren nil base n = Unit
    RepresentsChildren (cons str child cs) base n =
        (o : ℕ) × (follow_symbol g base n (lit str) ≡ some o)
        × Represents child o
        × RepresentsChildren cs base n
