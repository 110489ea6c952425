-- ===== src/Symbol/Compile.antt =====
-- What symbol_compile makes of a builder's table.
use mathlib.Core.List.{Perm}
use mathlib.Core.List.Perm
use libwrouter.Base.{◌≡◌, ◌⊎◌, List, [], false}
use libwrouter.Memory.{Memory}
use libwrouter.Errors.{Error, ok, no_memory}
use libwrouter.Symbol.{SymbolTable, Symbols}
use libwrouter.Symbol.Sort.{Ascending}

-- The list has the table's strings, each as often as the table, in ascending order; or it is empty
-- and there was no memory.
abbrev pub Compiles : SymbolTable → Error × Symbols × Memory → Type 0
Compiles tbl (err, syms, mem) =
    ((err ≡ ok) × Perm syms.base tbl.base × Ascending syms.base × (syms.freed ≡ false))
    ⊎ ((err ≡ no_memory) × (syms.base ≡ []))
