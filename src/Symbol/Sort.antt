-- ===== src/Symbol/Sort.antt =====
-- The order of symbols: symbol_compare and symbol_ncompare agree and are a strict total order on
-- null-terminated strings, and the sort of symbol_compile puts distinct strings in that order.
use Prim.Native.Nat.{Ordering}
use libwrouter.Base.{
  suc, ◌≡◌, refl, ◌≢◌, ◌↔◌, sym, ◌∙◌, ap, List, [], ◌∷◌, arith, length, ◌⊎◌, inl, inr,
}
use libwrouter.Text.{Bytes}
use libwrouter.Text.Compare.{NulFree}
use libwrouter.Symbol.{
  symbol_compare, symbol_ncompare, strcmp, strpcmp, insert_symbol, sort_symbols,
}

-- Where both strings are null-terminated the two comparisons agree.
pub symbol_ncompare-eq :
    (a b : Bytes) → NulFree a → NulFree b → symbol_ncompare a b ≡ symbol_compare a b
unfolding symbol_compare symbol_ncompare
symbol_ncompare-eq [] [] p q = ground arith
symbol_ncompare-eq [] (y ∷ ys) p q = ground arith
symbol_ncompare-eq (x ∷ xs) [] p q = ground arith
symbol_ncompare-eq (x ∷ xs) (y ∷ ys) p q = ground (arith, symbol_ncompare-eq xs ys)

pub symbol_compare_self : (a : Bytes) → symbol_compare a a ≡ Ordering.eq
unfolding symbol_compare
symbol_compare_self [] = ground arith
symbol_compare_self (x ∷ xs) = ground (arith, symbol_compare_self xs)

pub symbol_compare_eq :
    (a b : Bytes) → NulFree a → NulFree b → symbol_compare a b ≡ Ordering.eq → a ≡ b
unfolding symbol_compare
symbol_compare_eq [] [] p q h = refl
symbol_compare_eq [] (y ∷ ys) p q h = ground arith
symbol_compare_eq (x ∷ xs) [] p q h = ground arith
symbol_compare_eq (x ∷ xs) (y ∷ ys) p q h = ground (arith, symbol_compare_eq xs ys)

pub symbol_compare_flip :
    (a b : Bytes) → symbol_compare a b ≡ Ordering.gt → symbol_compare b a ≡ Ordering.lt
unfolding symbol_compare
symbol_compare_flip [] [] h = ground arith
symbol_compare_flip [] (y ∷ ys) h = ground arith
symbol_compare_flip (x ∷ xs) [] h = ground arith
symbol_compare_flip (x ∷ xs) (y ∷ ys) h = ground (arith, symbol_compare_flip xs ys)

pub symbol_compare_trans :
    (a b c : Bytes)
    → symbol_compare a b ≡ Ordering.lt
    → symbol_compare b c ≡ Ordering.lt
    → symbol_compare a c ≡ Ordering.lt
unfolding symbol_compare
symbol_compare_trans [] [] [] h k = ground arith
symbol_compare_trans [] (y ∷ ys) [] h k = ground arith
symbol_compare_trans [] [] (z ∷ zs) h k = ground arith
symbol_compare_trans [] (y ∷ ys) (z ∷ zs) h k = ground arith
symbol_compare_trans (x ∷ xs) [] c h k = ground arith
symbol_compare_trans (x ∷ xs) (y ∷ ys) [] h k = ground arith
symbol_compare_trans (x ∷ xs) (y ∷ ys) (z ∷ zs) h k = ground (arith, symbol_compare_trans xs ys zs)

-- The comparison of qsort and that of bsearch agree.
strpcmp-eq : (a b : Bytes) → strpcmp a b ≡ symbol_compare a b
unfolding strpcmp strcmp symbol_compare
strpcmp-eq [] [] = ground arith
strpcmp-eq [] (y ∷ ys) = ground arith
strpcmp-eq (x ∷ xs) [] = ground arith
strpcmp-eq (x ∷ xs) (y ∷ ys) = ground (arith, strpcmp-eq xs ys)

-- `s` stands before all of the list.
abbrev pub Before : Bytes → List Bytes → Type 0
Before s [] = Unit
Before s (t ∷ ts) = (symbol_compare s t ≡ Ordering.lt) × Before s ts

abbrev pub Ascending : List Bytes → Type 0
Ascending [] = Unit
Ascending (s ∷ ss) = Before s ss × Ascending ss

-- `s` differs from all of the list.
abbrev pub Fresh : Bytes → List Bytes → Type 0
Fresh s [] = Unit
Fresh s (t ∷ ts) = (s ≢ t) × Fresh s ts

abbrev pub Distinct : List Bytes → Type 0
Distinct [] = Unit
Distinct (s ∷ ss) = Fresh s ss × Distinct ss

abbrev pub AllNulFree : List Bytes → Type 0
AllNulFree [] = Unit
AllNulFree (s ∷ ss) = NulFree s × AllNulFree ss

pub Ordering-cases : (o : Ordering) → (o ≡ Ordering.lt) ⊎ ((o ≡ Ordering.eq) ⊎ (o ≡ Ordering.gt))
Ordering-cases Ordering.lt = inl refl
Ordering-cases Ordering.eq = inr (inl refl)
Ordering-cases Ordering.gt = inr (inr refl)

Before-trans :
    (a b : Bytes) (ss : List Bytes) → symbol_compare a b ≡ Ordering.lt → Before b ss → Before a ss
Before-trans a b [] h p = tt
Before-trans a b (s ∷ ss) h p = (symbol_compare_trans a b s h p.0, Before-trans a b ss h p.1)

Before-insert_symbol :
    (a s : Bytes) (ss : List Bytes)
    → symbol_compare a s ≡ Ordering.lt
    → Before a ss
    → Before a (insert_symbol s ss)
unfolding insert_symbol
Before-insert_symbol a s [] h p = (h, tt)
Before-insert_symbol a s (t ∷ ts) h p = elim (Ordering-cases (strpcmp t s)) [
  | inl e ↦ rw (e, insert_symbol) (p.0, Before-insert_symbol a s ts h p.1)
  | inr (inl e) ↦ rw (e, insert_symbol) (h, p)
  | inr (inr e) ↦ rw (e, insert_symbol) (h, p)
]

Ascending-insert_symbol :
    (s : Bytes) (ss : List Bytes)
    → NulFree s
    → AllNulFree ss
    → Fresh s ss
    → Ascending ss
    → Ascending (insert_symbol s ss)
unfolding insert_symbol
Ascending-insert_symbol s [] n ns f p = (tt, tt)
Ascending-insert_symbol s (t ∷ ts) n ns f p = elim (Ordering-cases (strpcmp t s)) [
  | inl e ↦
      rw (e, insert_symbol)
        (
          Before-insert_symbol t s ts (sym (strpcmp-eq t s) ∙ e) p.0,
          Ascending-insert_symbol s ts n ns.1 f.1 p.1,
        )
  | inr (inl e) ↦ absurd (f.0 (sym (symbol_compare_eq t s ns.0 n (sym (strpcmp-eq t s) ∙ e))))
  | inr (inr e) ↦
      let lt = symbol_compare_flip t s (sym (strpcmp-eq t s) ∙ e) in
      rw (e, insert_symbol) ((lt, Before-trans s t ts lt p.0), p)
]

-- Membership.
abbrev pub In : Bytes → List Bytes → Type 0
In a [] = ⊥
In a (s ∷ ss) = (a ≡ s) ⊎ In a ss

In-insert_symbol : (a s : Bytes) (ss : List Bytes) → In a (insert_symbol s ss) ↔ ((a ≡ s) ⊎ In a ss)
unfolding insert_symbol
In-insert_symbol a s [] = (λ h. h, λ h. h)
In-insert_symbol a s (t ∷ ts) = ground (arith, In-insert_symbol a s ts)

AllNulFree-insert_symbol :
    (s : Bytes) (ss : List Bytes) → NulFree s → AllNulFree ss → AllNulFree (insert_symbol s ss)
unfolding insert_symbol
AllNulFree-insert_symbol s [] n ns = (n, tt)
AllNulFree-insert_symbol s (t ∷ ts) n ns = ground (arith, AllNulFree-insert_symbol s ts n ns.1)

Fresh-insert_symbol :
    (a s : Bytes) (ss : List Bytes) → a ≢ s → Fresh a ss → Fresh a (insert_symbol s ss)
unfolding insert_symbol
Fresh-insert_symbol a s [] n f = (n, tt)
Fresh-insert_symbol a s (t ∷ ts) n f = ground (arith, Fresh-insert_symbol a s ts n f.1)

length-insert_symbol : (s : Bytes) (ss : List Bytes) → length (insert_symbol s ss) ≡ suc (length ss)
unfolding insert_symbol
length-insert_symbol s [] = refl
length-insert_symbol s (t ∷ ts) = ground (arith, length-insert_symbol s ts)

pub Fresh-sort_symbols : (a : Bytes) (ss : List Bytes) → Fresh a ss → Fresh a (sort_symbols ss)
unfolding sort_symbols
Fresh-sort_symbols a [] f = tt
Fresh-sort_symbols a (s ∷ ss) f =
    Fresh-insert_symbol a s (sort_symbols ss) f.0 (Fresh-sort_symbols a ss f.1)

pub AllNulFree-sort_symbols : (ss : List Bytes) → AllNulFree ss → AllNulFree (sort_symbols ss)
unfolding sort_symbols
AllNulFree-sort_symbols [] n = tt
AllNulFree-sort_symbols (s ∷ ss) n =
    AllNulFree-insert_symbol s (sort_symbols ss) n.0 (AllNulFree-sort_symbols ss n.1)

pub length-sort_symbols : (ss : List Bytes) → length (sort_symbols ss) ≡ length ss
unfolding sort_symbols
length-sort_symbols [] = refl
length-sort_symbols (s ∷ ss) =
    length-insert_symbol s (sort_symbols ss) ∙ ap suc (length-sort_symbols ss)

-- The sort keeps the strings.
pub In-sort_symbols : (a : Bytes) (ss : List Bytes) → In a (sort_symbols ss) ↔ In a ss
unfolding sort_symbols
In-sort_symbols a [] = (λ h. h, λ h. h)
In-sort_symbols a (s ∷ ss) =
    ground (arith, In-insert_symbol a s (sort_symbols ss), In-sort_symbols a ss)

-- The sort of symbol_compile puts distinct null-terminated strings in the strictly ascending order of
-- symbol_compare.
pub Ascending-sort_symbols :
    (ss : List Bytes) → AllNulFree ss → Distinct ss → Ascending (sort_symbols ss)
unfolding sort_symbols
Ascending-sort_symbols [] n d = tt
Ascending-sort_symbols (s ∷ ss) n d =
    Ascending-insert_symbol s (sort_symbols ss) n.0 (AllNulFree-sort_symbols ss n.1)
      (Fresh-sort_symbols s ss d.0) (Ascending-sort_symbols ss n.1 d.1)
