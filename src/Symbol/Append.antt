-- ===== src/Symbol/Append.antt =====
-- symbol_append on a table of different null-terminated strings.
use mathlib.Core.Option.{some-injective}
use libwrouter.Base.{
  ℕ, ◌+◌, ◌≤◌, ◌<◌, ◌≡◌, ◌≢◌, refl, sym, ◌∙◌, ap, ◌⊎◌, inl, inr, List, [], ◌∷◌, ◌++◌, none, some,
  arith, length, length-append, ltb, leb, Bool-cases, Option-cases,
}
use libwrouter.Text.{Bytes, bytes_eq}
use libwrouter.Text.Compare.{NulFree, bytes_eq_sound, bytes_eq_refl}
use libwrouter.Memory.{Memory, malloc}
use libwrouter.Arena.{arena_alloc}
use libwrouter.Errors.{ok}
use libwrouter.Symbol.{
  SymbolTable, Appended, find_symbol, append_string, symbol_append, symbol_table_next_slot,
  empty_table, uint16_max,
}
use libwrouter.Symbol.Sort.{Fresh, Distinct, AllNulFree, In}

-- A table with all its slots written, by at most 65535 different null-terminated strings.
pub record IsTable (tbl : SymbolTable) : Type 0 where
  pub counted : tbl.count ≡ length tbl.base
  pub nul_free : AllNulFree tbl.base
  pub distinct : Distinct tbl.base
  pub few : length tbl.base ≤ 65535

pub empty_table-IsTable : IsTable empty_table
empty_table-IsTable = record { counted = refl; nul_free = tt; distinct = tt; few = omega arith }

-- What the first table has, the second has too.
abbrev pub Grows : SymbolTable → SymbolTable → Type 0
Grows tbl tbl' = (str : Bytes) → In str tbl.base → In str tbl'.base

find_symbol_found :
    (base : List Bytes) (str s : Bytes) → find_symbol base str ≡ some s → (s ≡ str) × In str base
unfolding find_symbol
find_symbol_found [] str s e = cc
find_symbol_found (t ∷ base) str s e = elim (Bool-cases (bytes_eq t str)) [
  | inl same ↦
      let t_eq = bytes_eq_sound t str same in
      let s_eq : t ≡ s = some-injective t s (rw (same, find_symbol) at e) in
      (sym s_eq ∙ t_eq, inl (sym t_eq))
  | inr differ ↦
      let (p, member) = find_symbol_found base str s (rw (differ, find_symbol) at e) in
      (p, inr member)
]

find_symbol-none : (base : List Bytes) (str : Bytes) → find_symbol base str ≡ none → Fresh str base
unfolding find_symbol
find_symbol-none [] str e = tt
find_symbol-none (t ∷ base) str e = elim (Bool-cases (bytes_eq t str)) [
  | inl same ↦ cc (rw (same, find_symbol) at e)
  | inr differ ↦ (
    λ eq. cc (ap (bytes_eq t) eq ∙ bytes_eq_refl t),
    find_symbol-none base str (rw (differ, find_symbol) at e),
  )
]

Fresh-append :
    (s str : Bytes) (base : List Bytes) → Fresh s base → s ≢ str → Fresh s (base ++ str ∷ [])
Fresh-append s str [] f n = (n, tt)
Fresh-append s str (t ∷ base) f n = (f.0, Fresh-append s str base f.1 n)

Distinct-append :
    (str : Bytes) (base : List Bytes) → Distinct base → Fresh str base → Distinct (base ++ str ∷ [])
Distinct-append str [] d f = (tt, tt)
Distinct-append str (t ∷ base) d f =
    (Fresh-append t str base d.0 (λ e. f.0 (sym e)), Distinct-append str base d.1 f.1)

AllNulFree-append :
    (str : Bytes) (base : List Bytes)
    → AllNulFree base
    → NulFree str
    → AllNulFree (base ++ str ∷ [])
AllNulFree-append str [] h n = (n, tt)
AllNulFree-append str (t ∷ base) h n = (h.0, AllNulFree-append str base h.1 n)

In-append_left : (x str : Bytes) (base : List Bytes) → In x base → In x (base ++ str ∷ [])
In-append_left x str [] h = absurd h
In-append_left x str (t ∷ base) (inl e) = inl e
In-append_left x str (t ∷ base) (inr h) = inr (In-append_left x str base h)

In-append_here : (str : Bytes) (base : List Bytes) → In str (base ++ str ∷ [])
In-append_here str [] = inl refl
In-append_here str (t ∷ base) = inr (In-append_here str base)

-- The string is in the table, which is still one; or there is an error.
pub record Stored (tbl : SymbolTable) (str : Bytes) (a : Appended) : Type 0 where
  pub result : a.result ≡ some str
  pub err : a.err ≡ ok
  pub table : IsTable a.tbl
  pub member : In str a.tbl.base
  pub grows : Grows tbl a.tbl

abbrev pub Appends : SymbolTable → Bytes → Appended → Type 0
Appends tbl str a = Stored tbl str a ⊎ ((a.result ≡ none) × (a.err ≢ ok))

-- The slot that is given out, if there is one, and what is left as it was.
slot_lem :
    (tbl : SymbolTable) (mem : Memory) (slot : ℕ)
    → (symbol_table_next_slot tbl 1 mem).0 ≡ some slot
    → ((symbol_table_next_slot tbl 1 mem).1.base ≡ tbl.base)
      × ((symbol_table_next_slot tbl 1 mem).1.count ≡ tbl.count + 1)
unfolding symbol_table_next_slot
slot_lem tbl mem slot e = elim (Bool-cases (ltb tbl.capacity (tbl.count + 1))) [
  | inr room ↦ rw (room, symbol_table_next_slot) (refl, refl)
  | inl full ↦ elim (Option-cases (malloc mem).0) [
    | inl p ↦ cc (rw (full, p, symbol_table_next_slot) at e)
    | inr (a, p) ↦ rw (full, p, symbol_table_next_slot) (refl, refl)
  ]
]

Appends-append_string :
    (tbl : SymbolTable) (str : Bytes) (mem : Memory)
    → IsTable tbl
    → NulFree str
    → Fresh str tbl.base
    → tbl.count < 65535
    → Appends tbl str (append_string str (symbol_table_next_slot tbl 1 mem))
unfolding append_string
Appends-append_string tbl str mem t nul fresh room =
    elim (Option-cases (symbol_table_next_slot tbl 1 mem).0) [
      | inl p ↦ rw (p, append_string) (inr (refl, λ e. cc))
      | inr (slot, p) ↦
          let tbl' = (symbol_table_next_slot tbl 1 mem).1 in
          let mem' = (symbol_table_next_slot tbl 1 mem).2 in
          let (base, count) = slot_lem tbl mem slot p in
          elim (Option-cases (arena_alloc tbl'.arena (length str + 1) mem').0) [
            | inl q ↦ rw (p, q, append_string) (inr (refl, λ e. cc))
            | inr (a, q) ↦
                rw (p, q, append_string)
                  (inl (record {
                    result = refl;
                    err = refl;
                    table = record {
                      counted = omega (
                        arith,
                        count,
                        t.counted,
                        ap length base,
                        length-append tbl'.base (str ∷ []),
                      );
                      nul_free = rw base (AllNulFree-append str tbl.base t.nul_free nul);
                      distinct = rw base (Distinct-append str tbl.base t.distinct fresh);
                      few =
                          omega
                            (arith, t.counted, ap length base, length-append tbl'.base (str ∷ []));
                    };
                    member = In-append_here str tbl'.base;
                    grows = λ x h. rw base (In-append_left x str tbl.base h);
                  }))
          ]
    ]

-- On a table of at most 65535 different null-terminated strings, symbol_append of a null-terminated
-- string gives this string, which the table has afterwards beside all it had, and the table is such
-- a table again; or it gives no string and an error.
pub symbol_append-Appends :
    (tbl : SymbolTable) (str : Bytes) (mem : Memory)
    → IsTable tbl
    → NulFree str
    → Appends tbl str (symbol_append tbl str mem)
unfolding symbol_append
symbol_append-Appends tbl str mem t nul = elim (Bool-cases (leb uint16_max tbl.count)) [
  | inl full ↦ rw (full, symbol_append) (inr (refl, λ e. cc))
  | inr room ↦ elim (Option-cases (find_symbol tbl.base str)) [
    | inl p ↦
        rw (room, p, symbol_append)
          (Appends-append_string tbl str mem t nul (find_symbol-none tbl.base str p) (ground arith))
    | inr (s, p) ↦
        let (same, member) = find_symbol_found tbl.base str s p in
        rw (room, p, symbol_append)
          (inl (record {
            result = ap some same;
            err = refl;
            table = t;
            member = member;
            grows = λ x h. h;
          }))
  ]
]
