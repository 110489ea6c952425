-- ===== src/Symbol/Resolve.antt =====
-- symbol_resolve and symbol_nresolve on the sorted list that symbol_compile makes.
use mathlib.Core.Path.{fun_ext}
use Prim.Native.Nat.{Ordering}
use libwrouter.Base.{
  ℕ, zero, suc, ◌≤◌, ◌<◌, ◌≡◌, refl, ◌≢◌, ◌↔◌, sym, ◌∙◌, ap, List, [], ◌∷◌, arith, length, get_or,
  get_elem?, get_elem?-eq-get_or, inl, inr, some, Option-cases, false,
}
use libwrouter.Text.{Bytes}
use libwrouter.Text.Compare.{NulFree}
use libwrouter.Search.{bisect}
use libwrouter.World.{returns}
use libwrouter.Search.Sorted.{Falls, bisect_complete, bisect_sound}
use libwrouter.Symbol.{
  Symbols, position, symbol_compare, symbol_ncompare, symbol_resolve, symbol_nresolve,
  symbol_lookup, sort_symbols,
}
use libwrouter.Symbol.Sort.{
  symbol_ncompare-eq, symbol_compare_self, symbol_compare_eq, symbol_compare_trans, Before,
  Ascending, AllNulFree, In, Distinct, Ascending-sort_symbols, AllNulFree-sort_symbols,
}

-- A symbol list as symbol_compile leaves it.
pub record IsSymbolList (syms : Symbols) : Type 0 where
  pub ascending : Ascending syms.base
  pub nul_free : AllNulFree syms.base

NulFree-get_or : (ss : List Bytes) (i : ℕ) → AllNulFree ss → NulFree (get_or ss i [])
NulFree-get_or [] i n = tt
NulFree-get_or (s ∷ ss) zero n = n.0
NulFree-get_or (s ∷ ss) (suc i) n = NulFree-get_or ss i n.1

Before-get_or :
    (a : Bytes) (ss : List Bytes) (i : ℕ)
    → Before a ss
    → i < length ss
    → symbol_compare a (get_or ss i []) ≡ Ordering.lt
Before-get_or a [] i b h = absurd (omega arith)
Before-get_or a (s ∷ ss) zero b h = b.0
Before-get_or a (s ∷ ss) (suc i) b h = Before-get_or a ss i b.1 (omega arith)

Ascending-get_or :
    (ss : List Bytes) (i j : ℕ)
    → Ascending ss
    → i < j
    → j < length ss
    → symbol_compare (get_or ss i []) (get_or ss j []) ≡ Ordering.lt
Ascending-get_or [] i j p h k = absurd (omega arith)
Ascending-get_or (s ∷ ss) i zero p h k = absurd (omega arith)
Ascending-get_or (s ∷ ss) zero (suc j) p h k = Before-get_or s ss j p.0 (omega arith)
Ascending-get_or (s ∷ ss) (suc i) (suc j) p h k =
    Ascending-get_or ss i j p.1 (omega arith) (omega arith)

module _ (ss : List Bytes) (key : Bytes) (n : AllNulFree ss) (nk : NulFree key) where
  abbrev probe : ℕ → Ordering
  probe i = symbol_compare key (get_or ss i [])

  abbrev nprobe : ℕ → Ordering
  nprobe i = symbol_ncompare key (get_or ss i [])

  nprobe-probe : (i : ℕ) → nprobe i ≡ probe i
  nprobe-probe i = symbol_ncompare-eq key (get_or ss i []) nk (NulFree-get_or ss i n)

  module _ (p : Ascending ss) where
    falls_step :
        (o : Ordering) (i j : ℕ)
        → probe i ≡ o
        → i < j
        → j < length ss
        → o ≢ Ordering.gt
        → probe j ≡ Ordering.lt
    falls_step Ordering.lt i j e h k ne =
        symbol_compare_trans key (get_or ss i []) (get_or ss j []) e (Ascending-get_or ss i j p h k)
    falls_step Ordering.eq i j e h k ne =
        rw (symbol_compare_eq key (get_or ss i []) nk (NulFree-get_or ss i n) e)
          (Ascending-get_or ss i j p h k)
    falls_step Ordering.gt i j e h k ne = absurd (ne refl)

    falls : Falls probe (length ss)
    falls i j h k ne = falls_step (probe i) i j refl h k ne

    find :
        (i : ℕ)
        → get_elem? ss i ≡ some key
        → i < length ss
        → position (bisect (length ss) probe 0 (length ss)) ≡ suc i
    find i e h =
        let hit : get_or ss i [] ≡ key = ground (arith, get_elem?-eq-get_or ss i []) in
        let eq : probe i ≡ Ordering.eq = rw hit (symbol_compare_self key) in
        ground (arith, bisect_complete probe (length ss) falls (length ss) 0 (length ss) i)

  found :
      (i : ℕ)
      → position (bisect (length ss) probe 0 (length ss)) ≡ suc i
      → get_elem? ss i ≡ some key
  found i e = elim (Option-cases (bisect (length ss) probe 0 (length ss))) [
    | inl miss ↦ absurd (omega (arith, rw miss at e))
    | inr (j, hit) ↦
        let (eq, lt) = bisect_sound probe (length ss) 0 (length ss) j hit in
        let same : j ≡ i = omega (arith, rw hit at e) in
        let k : key ≡ get_or ss j [] =
          symbol_compare_eq key (get_or ss j []) nk (NulFree-get_or ss j n) eq in
        ground (arith, get_elem?-eq-get_or ss j [])
  ]

get_elem?-lt {ℓ} :
    {A : Type ℓ} (xs : List A) (i : ℕ) {a : A} → get_elem? xs i ≡ some a → i < length xs
get_elem?-lt [] i h = cc
get_elem?-lt (x ∷ xs) zero h = omega arith
get_elem?-lt (x ∷ xs) (suc i) h = omega (arith, get_elem?-lt xs i h)

In-get_elem? : (a : Bytes) (ss : List Bytes) → In a ss → (i : ℕ) × (get_elem? ss i ≡ some a)
In-get_elem? a [] h = absurd h
In-get_elem? a (s ∷ ss) (inl e) = (0, rw e)
In-get_elem? a (s ∷ ss) (inr h) = let (i, e) = In-get_elem? a ss h in (suc i, e)

module _ (syms : Symbols) (key : Bytes) (l : IsSymbolList syms) (nk : NulFree key) where
  -- On a sorted list of null-terminated strings, symbol_resolve gives a null-terminated key the number
  -- `i + 1` exactly if the key is the string at index `i`.
  pub symbol_resolve_iff :
      (i : ℕ) → (symbol_resolve syms key ≡ suc i) ↔ (get_elem? syms.base i ≡ some key)
  unfolding symbol_resolve
  symbol_resolve_iff i = (
    found syms.base key l.nul_free nk i,
    λ e. find syms.base key l.nul_free nk l.ascending i e (get_elem?-lt syms.base i e),
  )

  -- On a sorted list of null-terminated strings, symbol_nresolve and symbol_resolve give the same
  -- symbol to the same bytes, if no byte is the terminator.
  pub symbol_nresolve-eq : symbol_nresolve syms key ≡ symbol_resolve syms key
  unfolding symbol_nresolve symbol_resolve
  symbol_nresolve-eq =
      ap (λ (f : ℕ → Ordering). position (bisect (length syms.base) f 0 (length syms.base)))
        (fun_ext (nprobe-probe syms.base key l.nul_free nk))

  -- A string of the list has a symbol.
  pub symbol_resolve-In : In key syms.base → (i : ℕ) × (symbol_resolve syms key ≡ suc i)
  symbol_resolve-In h = let (i, e) = In-get_elem? key syms.base h in (i, (symbol_resolve_iff i).1 e)

  pub symbol_lookup-symbol_resolve :
      In key syms.base → symbol_lookup syms (symbol_resolve syms key) ≡ returns (some key)
  unfolding symbol_lookup
  symbol_lookup-symbol_resolve h =
      let (i, e) = symbol_resolve-In h in
      let at = (symbol_resolve_iff i).0 e in rw (e, at, symbol_lookup) refl

  -- A symbol is at most the number of strings.
  pub symbol_resolve-le : symbol_resolve syms key ≤ length syms.base
  symbol_resolve-le = bound (symbol_resolve syms key) refl
    where
      bound : (k : ℕ) → symbol_resolve syms key ≡ k → k ≤ length syms.base
      bound zero e = omega arith
      bound (suc i) e = get_elem?-lt syms.base i ((symbol_resolve_iff i).0 e)

-- On a sorted list of null-terminated strings, a null-terminated string with the same symbol as a
-- string of the list is that string.
pub symbol_resolve_injective :
    (syms : Symbols) (a b : Bytes)
    → IsSymbolList syms
    → NulFree a
    → NulFree b
    → In a syms.base
    → symbol_resolve syms a ≡ symbol_resolve syms b
    → a ≡ b
symbol_resolve_injective syms a b l na nb h e =
    let (i, r) = symbol_resolve-In syms a l na h in
    let at_a = (symbol_resolve_iff syms a l na i).0 r in
    let at_b = (symbol_resolve_iff syms b l nb i).0 (sym e ∙ r) in cc

-- The list that symbol_compile makes of a table of distinct strings.
pub IsSymbolList-sorted :
    (ss : List Bytes) (region : Bytes)
    → AllNulFree ss
    → Distinct ss
    → IsSymbolList (record { base = sort_symbols ss; region = region; freed = false })
IsSymbolList-sorted ss region n d = record {
  ascending = Ascending-sort_symbols ss n d;
  nul_free = AllNulFree-sort_symbols ss n;
}
