-- ===== src/Terminal.antt =====
-- terminal.c: the dictionary from graph offsets to routes. `refs` and `base` are the cells that have
-- been written, so `count` is their number; `freed` says that `refs` still points to memory which
-- terminals_free has given back.
pub mod Lookup
use Prim.Native.Nat.{Ordering, compare}
use libwrouter.Base.{
  ℕ, List, [], ◌∷◌, ◌++◌, Bool, true, false, Option, none, some, ltb, ◌==◌, length, get_elem?,
  get_or, if◌then◌else◌,
}
use libwrouter.Memory.{Memory, malloc}
use libwrouter.Route.{Route}
use libwrouter.Search.{bisect, scan}

pub record Terminals : Type 0 where
  pub refs : List ℕ
  pub base : List Route
  pub freed : Bool

abbrev pub no_terminals : Terminals
no_terminals = record { refs = []; base = []; freed = false }

abbrev pub count : Terminals → ℕ
count t = length t.refs

-- Whether both arrays could be allocated. A failure frees the first and leaves the pointer to it.
unfoldable pub terminal_alloc : Memory → Bool × Terminals × Memory
unfolding malloc
terminal_alloc mem =
    let (refs, mem') = malloc mem in
    elim refs [
      | none ↦ (false, no_terminals, mem')
      | some _ ↦
          let (base, mem'') = malloc mem' in
          elim base [
            | none ↦ (false, record no_terminals { freed = true }, mem'')
            | some _ ↦ (true, no_terminals, mem'')
          ]
    ]

-- The arrays are as long as what has been written: Compiler.Extent counts the entries against the
-- allocation.
unfoldable pub terminal_append : Terminals → ℕ → Route → Terminals
terminal_append t ref route = record t { refs = t.refs ++ ref ∷ []; base = t.base ++ route ∷ [] }

-- `ref - terminals->refs[i]`, of which both searches read the sign.
abbrev pub cond_at : Terminals → ℕ → ℕ → Ordering
cond_at t ref i = compare ref (get_or t.refs i 0)

-- `&terminals->base[i]`
abbrev pub route_at : Terminals → Option ℕ → Option Route
route_at t none = none
route_at t (some i) = get_elem? t.base i

unfoldable pub terminal_lookup : Terminals → ℕ → Option Route
unfolding bisect scan
terminal_lookup t ref =
    if ltb 16 (count t)
    then route_at t (bisect (count t) (cond_at t ref) 0 (count t))
    else route_at t (scan (count t) (cond_at t ref) 0)
