-- ===== src/Params/Copy.antt =====
-- wrouter_params_copy of params.c. The region is the list of its bytes, a pointer into it is the index
-- of the byte that it points to.
use libwrouter.Base.{
  ℕ, zero, suc, ◌+◌, ◌-◌, List, [], ◌∷◌, ◌++◌, Bool, Option, none, some, ltb, leb, length, take,
  drop, ◌==◌, if◌then◌else◌,
}
use libwrouter.Text.{Bytes}
use libwrouter.Memory.{Memory, malloc}
use libwrouter.World.{Run, returns, crashes}
use libwrouter.Symbol.{uint16_max}
use libwrouter.Params.{Param, Params, count}

-- wrouter_param_nt_t
pub record ParamNt : Type 0 where
  pub name : ℕ
  pub value : ℕ

-- wrouter_params_snapshot_t: `none` for a NULL region, and the first `count` cells of `params.base`.
pub record Snapshot : Type 0 where
  pub region : Option Bytes
  pub base : List ParamNt

-- `calloc(1, sizeof(wrouter_params_snapshot_t))`
abbrev pub zero_snapshot : Snapshot
zero_snapshot = record { region = none; base = [] }

-- `size` after both range checks for a parameter.
abbrev pub add_sizes : ℕ → ℕ → ℕ → Option ℕ
add_sizes size name_size value_size =
    if ltb (uint16_max - size) name_size
    then none
    else if ltb (uint16_max - (size + name_size)) value_size
    then none
    else some (size + name_size + value_size)

-- `Calculate size of region.` The result is `none` for `goto failure`.
unfoldable pub region_size : List Param → ℕ → Option ℕ
region_size [] size = some size
region_size (p ∷ ps) size = elim p.name [
  | none ↦ none
  | some name ↦ elim p.value [
    | none ↦ none
    | some value ↦ elim (add_sizes size (length name + 1) (p.length + 1)) [
      | none ↦ none
      | some size' ↦ region_size ps size'
    ]
  ]
]

-- `calloc(size, 1)`
abbrev pub zeros : ℕ → Bytes
zeros zero = []
zeros (suc n) = 0 ∷ zeros n

-- strcpy and memcpy: the bytes are written from an index on, if they fit.
unfoldable pub write : Bytes → ℕ → Bytes → Run Bytes
write region at bytes =
    if leb (at + length bytes) (length region)
    then returns (take at region ++ (bytes ++ drop (at + length bytes) region))
    else crashes

-- The bytes that memcpy reads at a value, if there are so many.
abbrev pub read : Bytes → ℕ → Run Bytes
read value n = if leb n (length value) then returns (take n value) else crashes

abbrev pub and_then {ℓ} : {A B : Type ℓ} → Run A → (A → Run B) → Run B
and_then crashes f = crashes
and_then (returns a) f = f a

-- Both strings of a parameter, copied to the cursor: strcpy writes the terminator of the name.
abbrev pub copy_strings : Bytes → Bytes → ℕ → Bytes → ℕ → Run Bytes
copy_strings name value n region cursor =
    and_then (write region cursor (name ++ 0 ∷ []))
      (λ region'. and_then (read value n) (λ bytes. write region' (cursor + length name + 1) bytes))

-- `Copy into region.` A NULL name or value is never met behind region_size.
unfoldable pub copy_params : List Param → Bytes → ℕ → Run (Bytes × List ParamNt)
unfolding write
copy_params [] region cursor = returns (region, [])
copy_params (p ∷ ps) region cursor = elim p.name [
  | none ↦ crashes
  | some name ↦ elim p.value [
    | none ↦ crashes
    | some value ↦
        let value_at = cursor + length name + 1 in
        and_then (copy_strings name value p.length region cursor) (λ region'.
          and_then (copy_params ps region' (value_at + p.length + 1))
            (λ (done : Bytes × List ParamNt).
              returns (done.0, record { name = cursor; value = value_at } ∷ done.1)))
  ]
]

-- From the allocation of the region on.
unfoldable pub fill_snapshot : Params → ℕ → Memory → Run (Option Snapshot × Memory)
unfolding copy_params malloc
fill_snapshot ps size mem =
    let (region, mem') = malloc mem in
    elim region [
      | none ↦ returns (none, mem')
      | some _ ↦
          let (base, mem'') = malloc mem' in
          elim base [
            | none ↦ returns (none, mem'')
            | some _ ↦
                and_then (copy_params ps.base (zeros size) 0) (λ (done : Bytes × List ParamNt).
                  returns (some (record { region = some done.0; base = done.1 }), mem''))
          ]
    ]

-- The snapshot or NULL. `has_base` says that `params->base` is not NULL.
unfoldable pub wrouter_params_copy : Option Params → Bool → Memory → Run (Option Snapshot × Memory)
unfolding region_size fill_snapshot malloc
wrouter_params_copy none has_base mem = returns (none, mem)
wrouter_params_copy (some ps) has_base mem =
    let (snapshot, mem') = malloc mem in
    elim snapshot [
      | none ↦ returns (none, mem')
      | some _ ↦
          if count ps == 0
          then returns (some zero_snapshot, mem')
          else if has_base
          then elim (region_size ps.base 0) [
            | none ↦ returns (none, mem')
            | some size ↦ fill_snapshot ps size mem'
          ]
          else returns (none, mem')
    ]
