-- ===== src/Params.antt =====
-- params.c: the parameters of a request.
pub mod Copy
pub mod Region
pub mod Snapshot
use libwrouter.Base.{
  ℕ, List, [], ◌∷◌, ◌++◌, Option, none, some, ltb, length, get_elem?, if◌then◌else◌,
}
use libwrouter.Text.{Bytes, bytes_eq}
use libwrouter.Memory.{Memory, malloc}
use libwrouter.World.{Run, returns, crashes}

-- wrouter_param_t: the name is null-terminated, the value is `length` bytes of the request's path.
pub record Param : Type 0 where
  pub name : Option Bytes
  pub value : Option Bytes
  pub length : ℕ

-- wrouter_params_t: the first `count` cells of `base`, and how many cells were allocated.
pub record Params : Type 0 where
  pub base : List Param
  pub capacity : ℕ

abbrev pub count : Params → ℕ
count ps = length ps.base

-- `params->count = 0`
abbrev pub reset : Params → Params
reset ps = record ps { base = [] }

-- Whether the cells could be allocated.
unfoldable pub params_alloc : ℕ → Memory → Option Params × Memory
unfolding malloc
params_alloc n mem =
    let (base, mem') = malloc mem in
    elim base [ none ↦ (none, mem') | some _ ↦ (some (record { base = []; capacity = n }), mem') ]

-- param_next, with the writes to the cell that it returns: behind the last cell they are out of
-- bounds.
unfoldable pub param_next : Params → Param → Run Params
param_next ps p =
    if ltb (count ps) ps.capacity then returns (record ps { base = ps.base ++ p ∷ [] }) else crashes

-- `strcmp(params->base[i].name, name) == 0`: strcmp reads through a name that is NULL.
abbrev pub has_name : Bytes → Param → Run (Option Param) → Run (Option Param)
has_name name p rest = elim p.name [
  | none ↦ crashes
  | some s ↦ if bytes_eq s name then returns (some p) else rest
]

unfoldable pub find_param : List Param → Bytes → Run (Option Param)
unfolding bytes_eq
find_param [] name = returns none
find_param (p ∷ ps) name = has_name name p (find_param ps name)

unfoldable pub wrouter_param : Params → Bytes → Run (Option Param)
unfolding find_param
wrouter_param ps name = find_param ps.base name

unfoldable pub wrouter_iparam : Params → ℕ → Option Param
wrouter_iparam ps index = if ltb index (count ps) then get_elem? ps.base index else none
