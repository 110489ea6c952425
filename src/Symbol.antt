-- ===== src/Symbol.antt =====
-- symbol.c: the tables of literal and of parameter names. A builder's table (symbol_table_t) holds
-- the strings in order of arrival; the router's list (symbols_t) holds them sorted, and a symbol is
-- the position in it, counted from 1.
pub mod Sort
pub mod Append
pub mod Resolve
pub mod Compile
use Prim.Native.Nat.{Ordering, compare}
use libwrouter.Base.{
  ℕ, zero, suc, ◌+◌, ◌*◌, ◌%◌, ◌^◌, List, [], ◌∷◌, ◌++◌, Bool, true, false, Option, none, some, ltb,
  leb, ◌==◌, length, get_or, get_elem?, if◌then◌else◌,
}
use libwrouter.Text.{Bytes, peek, advance, bytes_eq}
use libwrouter.Memory.{Memory, malloc, size_mod}
use libwrouter.Arena.{Arena, arena_alloc, arena_used}
use libwrouter.Errors.{Error, ok, no_memory, out_of_range}
use libwrouter.Search.{bisect}
use libwrouter.World.{Run, returns, crashes}

-- UINT16_MAX
abbrev pub uint16_max : ℕ
uint16_max = 65535

-- symbol_table_t. `base` is the slots that have been written; `count` is the number of slots given
-- out, one more after a slot was given out and the string's allocation failed.
pub record SymbolTable : Type 0 where
  pub base : List Bytes
  pub count : ℕ
  pub capacity : ℕ
  pub arena : Arena

abbrev pub empty_table : SymbolTable
empty_table = record { base = []; count = 0; capacity = 0; arena = [] }

-- `while (new_cap < need) new_cap *= 2`; 64 rounds exhaust a size_t.
unfoldable pub grow : ℕ → ℕ → ℕ → ℕ
grow zero new_cap need = new_cap
grow (suc rounds) new_cap need = elim (ltb new_cap need) [
  | true ↦ grow rounds (new_cap * 2 % size_mod) need
  | false ↦ new_cap
]

-- The slot, if there was memory for it.
unfoldable pub symbol_table_next_slot : SymbolTable → ℕ → Memory → Option ℕ × SymbolTable × Memory
unfolding grow malloc
symbol_table_next_slot tbl len mem = elim (ltb tbl.capacity (tbl.count + len)) [
  | false ↦ (some tbl.count, record tbl { count = tbl.count + len }, mem)
  | true ↦
      let new_cap = if tbl.capacity == 0 then 1024 else tbl.capacity * 2 % size_mod in
      let new_cap' = grow 64 new_cap (tbl.count + len) in
      let (new_base, mem') = malloc mem in
      elim new_base [
        | none ↦ (none, tbl, mem')
        | some _ ↦
            (some tbl.count, record tbl { count = tbl.count + len; capacity = new_cap' }, mem')
      ]
]

-- The loop that looks for a duplicate: `strncmp` over `len` bytes and a terminator behind them.
unfoldable pub find_symbol : List Bytes → Bytes → Option Bytes
unfolding bytes_eq
find_symbol [] str = none
find_symbol (s ∷ base) str = if bytes_eq s str then some s else find_symbol base str

-- The string in the table, or the error, with the table and the memory after the call.
pub record Appended : Type 0 where
  pub result : Option Bytes
  pub err : Error
  pub tbl : SymbolTable
  pub mem : Memory

-- From the slot on: the string is copied into the arena, with its terminator.
unfoldable pub append_string : Bytes → Option ℕ × SymbolTable × Memory → Appended
append_string str (none, tbl, mem) = record { result = none; err = no_memory; tbl = tbl; mem = mem }
append_string str (some slot, tbl, mem) =
    let (a, arena', mem') = arena_alloc tbl.arena (length str + 1) mem in
    elim a [
      | none ↦ record {
        result = none;
        err = no_memory;
        tbl = record tbl { arena = arena' };
        mem = mem';
      }
      | some _ ↦ record {
        result = some str;
        err = ok;
        tbl = record tbl { base = tbl.base ++ str ∷ []; arena = arena' };
        mem = mem';
      }
    ]

unfoldable pub symbol_append : SymbolTable → Bytes → Memory → Appended
unfolding append_string find_symbol symbol_table_next_slot
symbol_append tbl str mem =
    if leb uint16_max tbl.count
    then record { result = none; err = out_of_range; tbl = tbl; mem = mem }
    else elim (find_symbol tbl.base str) [
      | some s ↦ record { result = some s; err = ok; tbl = tbl; mem = mem }
      | none ↦ append_string str (symbol_table_next_slot tbl 1 mem)
    ]

-- The sign of what symbol_compare and strcmp return.
unfoldable pub symbol_compare : Bytes → Bytes → Ordering
symbol_compare [] sym = compare 0 (peek sym)
symbol_compare (k ∷ key) [] = compare k 0
symbol_compare (k ∷ key) (s ∷ sym) = elim (compare k s) [
  | Ordering.eq ↦ symbol_compare key sym
  | Ordering.lt ↦ Ordering.lt
  | Ordering.gt ↦ Ordering.gt
]

-- The sign of what symbol_ncompare returns, for a key that is the list of its `length` bytes.
unfoldable pub symbol_ncompare : Bytes → Bytes → Ordering
symbol_ncompare [] sym = if peek sym == 0 then Ordering.eq else Ordering.lt
symbol_ncompare (k ∷ key) sym = elim (k == peek sym) [
  | false ↦ compare k (peek sym)
  | true ↦ symbol_ncompare key (advance sym)
]

-- symbols_t: the strings that `base` points to, and the region that holds them. `freed` says that
-- `base` still points to memory which symbols_free has given back.
pub record Symbols : Type 0 where
  pub base : List Bytes
  pub region : Bytes
  pub freed : Bool

abbrev pub no_symbols : Symbols
no_symbols = record { base = []; region = []; freed = false }

-- The sign of what strcmp returns, for strings that are their bytes before the terminator.
unfoldable pub strcmp : Bytes → Bytes → Ordering
strcmp [] [] = Ordering.eq
strcmp [] (t ∷ ts) = compare 0 t
strcmp (s ∷ ss) [] = compare s 0
strcmp (s ∷ ss) (t ∷ ts) = elim (compare s t) [
  | Ordering.lt ↦ Ordering.lt
  | Ordering.eq ↦ strcmp ss ts
  | Ordering.gt ↦ Ordering.gt
]

-- The comparison that is given to `qsort`: the elements are pointers to the strings.
unfoldable pub strpcmp : Bytes → Bytes → Ordering
unfolding strcmp
strpcmp a b = strcmp a b

-- `qsort` by strpcmp, as an insertion sort.
unfoldable pub insert_symbol : Bytes → List Bytes → List Bytes
unfolding strpcmp
insert_symbol s [] = s ∷ []
insert_symbol s (t ∷ ts) = elim (strpcmp t s) [
  | Ordering.lt ↦ t ∷ insert_symbol s ts
  | _ ↦ s ∷ t ∷ ts
]

unfoldable pub sort_symbols : List Bytes → List Bytes
unfolding insert_symbol
sort_symbols [] = []
sort_symbols (s ∷ ss) = insert_symbol s (sort_symbols ss)

-- The strings copied into the region, each with its terminator.
unfoldable pub copy_strings : List Bytes → Bytes
copy_strings [] = []
copy_strings (s ∷ ss) = s ++ 0 ∷ copy_strings ss

unfoldable pub symbol_compile : SymbolTable → Memory → Error × Symbols × Memory
unfolding sort_symbols copy_strings malloc
symbol_compile tbl mem =
    if tbl.count == 0
    then (ok, no_symbols, mem)
    else let (pointers, mem') = malloc mem in
      elim pointers [
        | none ↦ (no_memory, no_symbols, mem')
        | some _ ↦
            let (region, mem'') = malloc mem' in
            elim region [
              | none ↦ (no_memory, record no_symbols { freed = true }, mem'')
              | some _ ↦
                  let sorted = sort_symbols tbl.base in
                  (ok, record { base = sorted; region = copy_strings sorted; freed = false }, mem'')
            ]
      ]

-- `res ? res - base + 1 : 0`
abbrev pub position : Option ℕ → ℕ
position none = 0
position (some i) = i + 1

unfoldable pub symbol_nresolve : Symbols → Bytes → ℕ
unfolding bisect symbol_ncompare
symbol_nresolve symbols key =
    let n = length symbols.base in
    position (bisect n (λ i. symbol_ncompare key (get_or symbols.base i [])) 0 n)

unfoldable pub symbol_resolve : Symbols → Bytes → ℕ
unfolding bisect symbol_compare
symbol_resolve symbols key =
    let n = length symbols.base in
    position (bisect n (λ i. symbol_compare key (get_or symbols.base i [])) 0 n)

-- A symbol above the number of strings is a read behind the end of the list.
unfoldable pub symbol_lookup : Symbols → ℕ → Run (Option Bytes)
symbol_lookup symbols zero = returns none
symbol_lookup symbols (suc i) = elim (get_elem? symbols.base i) [
  | none ↦ crashes
  | some s ↦ returns (some s)
]
