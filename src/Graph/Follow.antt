-- ===== src/Graph/Follow.antt =====
-- follow_symbol, the search of route_match over the edges of a node, on sorted edges.
use Prim.Native.Nat.{Ordering, compare}
use libwrouter.Base.{
  ℕ, zero, suc, ◌+◌, ◌*◌, ◌≤◌, ◌<◌, ◌≡◌, ◌≢◌, refl, sym, ◌∙◌, inl, inr, ap, [], ◌∷◌, none, some,
  arith, length, get_or,
}
use libwrouter.Search.Sorted.{Falls, pick_complete, pick-none}
use libwrouter.Graph.Cells.{Cells, store, read_pairs, write_pairs}
use libwrouter.Graph.Extent.{store_ne, store_eq, write_pairs-Outside, length-read_pairs}
use libwrouter.Graph.Edges.{Pairs, FreshEdge, InEdges, Below, Ascends}
use libwrouter.Router.{follow_symbol}

abbrev key : Pairs → ℕ → ℕ
key ps i = (get_or ps i (0, 0)).0

abbrev value : Pairs → ℕ → ℕ
value ps i = (get_or ps i (0, 0)).1

key-read_pairs :
    (g : Cells) (b n i : ℕ)
    → i < n
    → (key (read_pairs g b n) i ≡ g (b + i * 2)) × (value (read_pairs g b n) i ≡ g (b + i * 2 + 1))
unfolding read_pairs
key-read_pairs g b zero i h = absurd (omega arith)
key-read_pairs g b (suc n) zero h = (ap g (omega arith), ap g (omega arith))
key-read_pairs g b (suc n) (suc i) h =
    let (e, f) = key-read_pairs g (b + 2) n i (omega arith) in
    (e ∙ ap g (omega arith), f ∙ ap g (omega arith))

Below-key : (a : ℕ) (ps : Pairs) (i : ℕ) → Below a ps → i < length ps → a < key ps i
Below-key a [] i p h = absurd (omega arith)
Below-key a ((b, o) ∷ ps) zero p h = p.0
Below-key a ((b, o) ∷ ps) (suc i) p h = Below-key a ps i p.1 (omega arith)

Ascends-key : (ps : Pairs) (i j : ℕ) → Ascends ps → i < j → j < length ps → key ps i < key ps j
Ascends-key [] i j p h k = absurd (omega arith)
Ascends-key ((a, o) ∷ ps) i zero p h k = absurd (omega arith)
Ascends-key ((a, o) ∷ ps) zero (suc j) p h k = Below-key a ps j p.0 (omega arith)
Ascends-key ((a, o) ∷ ps) (suc i) (suc j) p h k = Ascends-key ps i j p.1 (omega arith) (omega arith)

FreshEdge-key : (a : ℕ) (ps : Pairs) (i : ℕ) → FreshEdge a ps → i < length ps → a ≢ key ps i
FreshEdge-key a [] i p h = absurd (omega arith)
FreshEdge-key a ((b, o) ∷ ps) zero p h = p.0
FreshEdge-key a ((b, o) ∷ ps) (suc i) p h = FreshEdge-key a ps i p.1 (omega arith)

InEdges-key :
    (a o : ℕ) (ps : Pairs)
    → InEdges a o ps
    → (i : ℕ) × (i < length ps) × (key ps i ≡ a) × (value ps i ≡ o)
InEdges-key a o [] h = absurd h
InEdges-key a o ((b, q) ∷ ps) (inl (e, f)) = (0, omega arith, sym e, sym f)
InEdges-key a o ((b, q) ∷ ps) (inr h) =
    let (i, lt, e, f) = InEdges-key a o ps h in (suc i, omega arith, e, f)

module _ (g : Cells) (base n : ℕ) (qs : Pairs) (reads : read_pairs g base n ≡ qs) where
  size : length qs ≡ n
  size = ap length (sym reads) ∙ length-read_pairs g base n

  key_lem : (i : ℕ) → i < n → key qs i ≡ g (base + i * 2)
  key_lem i h = ap (λ ps. key ps i) (sym reads) ∙ (key-read_pairs g base n i h).0

  value_lem : (i : ℕ) → i < n → value qs i ≡ g (base + i * 2 + 1)
  value_lem i h = ap (λ ps. value ps i) (sym reads) ∙ (key-read_pairs g base n i h).1

  abbrev probe : ℕ → ℕ → Ordering
  probe s i = compare s (g (base + i * 2))

  falls : (s : ℕ) → Ascends qs → Falls (probe s) n
  falls s p i j h k ne =
      let lt = Ascends-key qs i j p h (omega (arith, size)) in ground (arith, key_lem i, key_lem j)

  pub follow_symbol-found :
      (s o : ℕ) → Ascends qs → InEdges s o qs → follow_symbol g base n s ≡ some o
  unfolding follow_symbol
  follow_symbol-found s o p h =
      let (i, lt, e, f) = InEdges-key s o qs h in
      let lt' : i < n = omega (arith, size) in
      let hit : probe s i ≡ Ordering.eq = ground (arith, key_lem i) in
      let found = pick_complete (probe s) n i (falls s p) lt' hit in
      rw (found, follow_symbol) (ap some (sym (value_lem i lt') ∙ f))

  pub follow_symbol-none : (s : ℕ) → FreshEdge s qs → follow_symbol g base n s ≡ none
  unfolding follow_symbol
  follow_symbol-none s f =
      let missing = pick-none (probe s) n (λ i h e.
        absurd (FreshEdge-key s qs i f (omega (arith, size)) (ground (arith, key_lem i)))) in
      rw (missing, follow_symbol)

-- Reading back what was written.
pub read_pairs-write_pairs :
    (ps : Pairs) (g : Cells) (i n : ℕ) → length ps ≡ n → read_pairs (write_pairs g i ps) i n ≡ ps
unfolding read_pairs write_pairs
read_pairs-write_pairs [] g i zero l = refl
read_pairs-write_pairs [] g i (suc n) l = absurd (omega arith)
read_pairs-write_pairs (p ∷ ps) g i zero l = absurd (omega arith)
read_pairs-write_pairs ((a, o) ∷ ps) g i (suc n) l =
    let g' = store (store g i a) (i + 1) o in
    let e₀ =
      write_pairs-Outside ps g' (i + 2) n i (omega arith) (inl (omega arith))
      ∙ (store_ne (store g i a) (i + 1) o i (omega arith) ∙ store_eq g i a) in
    let e₁ =
      write_pairs-Outside ps g' (i + 2) n (i + 1) (omega arith) (inl (omega arith))
      ∙ store_eq (store g i a) (i + 1) o in
    let rest = read_pairs-write_pairs ps g' (i + 2) n (omega arith) in ground arith

-- The pairs depend only on their cells.
pub read_pairs_congr :
    (g h : Cells) (i n : ℕ)
    → ((j : ℕ) → i ≤ j → j < i + 2 * n → g j ≡ h j)
    → read_pairs g i n ≡ read_pairs h i n
unfolding read_pairs
read_pairs_congr g h i zero same = refl
read_pairs_congr g h i (suc n) same =
    let e₀ = same i (omega arith) (omega arith) in
    let e₁ = same (i + 1) (omega arith) (omega arith) in
    let rest = read_pairs_congr g h (i + 2) n (λ j p q. same j (omega arith) (omega arith)) in
    ground arith
