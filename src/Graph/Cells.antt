-- ===== src/Graph/Cells.antt =====
-- The graph's cells: flags, reads and writes, and the sorting of edges in graph.c. The array, from
-- calloc, is a function from offsets to cells; a pointer into it is its offset.
use libwrouter.Base.{ℕ, zero, suc, ◌+◌, ◌-◌, ◌%◌, ◌^◌, List, [], ◌∷◌, ltb, ◌==◌, if◌then◌else◌}

-- NODE_FLAG_TERMINAL ... NODE_FLAG_HAS_TRAILING and NODE_LITERALS_MASK
abbrev pub flag_terminal : ℕ
flag_terminal = 2 ^ 12

abbrev pub flag_has_param : ℕ
flag_has_param = 2 ^ 13

abbrev pub flag_has_wildcard : ℕ
flag_has_wildcard = 2 ^ 14

abbrev pub flag_has_trailing : ℕ
flag_has_trailing = 2 ^ 15

abbrev pub literals_mask : ℕ
literals_mask = 2 ^ 12 - 1

-- A value stored in a uint16_t.
abbrev pub uint16 : ℕ → ℕ
uint16 v = v % 2 ^ 16

abbrev pub Cells : Type 0
Cells = ℕ → ℕ

-- `g[i] = v`
unfoldable pub store : Cells → ℕ → ℕ → Cells
store g i v = λ j. if j == i then v else g j

-- `count` pairs of cells from offset `i` on.
unfoldable pub read_pairs : Cells → ℕ → ℕ → List (ℕ × ℕ)
read_pairs g i zero = []
read_pairs g i (suc n) = (g i, g (i + 1)) ∷ read_pairs g (i + 2) n

unfoldable pub write_pairs : Cells → ℕ → List (ℕ × ℕ) → Cells
unfolding store
write_pairs g i [] = g
write_pairs g i ((s, e) ∷ ps) = write_pairs (store (store g i s) (i + 1) e) (i + 2) ps

-- `qsort` by edge_cmp, as an insertion sort.
unfoldable pub insert_edge : ℕ × ℕ → List (ℕ × ℕ) → List (ℕ × ℕ)
insert_edge (s, e) [] = (s, e) ∷ []
insert_edge (s, e) ((s', e') ∷ ps) =
    if ltb s' s then (s', e') ∷ insert_edge (s, e) ps else (s, e) ∷ (s', e') ∷ ps

unfoldable pub sort_edges : List (ℕ × ℕ) → List (ℕ × ℕ)
unfolding insert_edge
sort_edges [] = []
sort_edges (p ∷ ps) = insert_edge p (sort_edges ps)
