-- ===== src/Search.antt =====
-- The binary search that terminal.c and router.c write out (after K&R, page 137) and that `bsearch`
-- makes, and the linear scan that both prefer up to 16 entries. `probe i` is the sign of the key
-- minus the i-th entry.
pub mod Sorted
use Prim.Native.Nat.{Ordering}
use libwrouter.Base.{ℕ, zero, suc, ◌+◌, ◌-◌, ◌/◌, Option, none, some, ltb, true, false}

-- `while (low < high)`; the range halves, so fuel `high - low` is enough.
unfoldable pub bisect : ℕ → (ℕ → Ordering) → ℕ → ℕ → Option ℕ
bisect zero probe low high = none
bisect (suc fuel) probe low high = elim (ltb low high) [
  | false ↦ none
  | true ↦
      let mid = low + (high - low) / 2 in
      elim (probe mid) [
        | Ordering.lt ↦ bisect fuel probe low mid
        | Ordering.gt ↦ bisect fuel probe (mid + 1) high
        | Ordering.eq ↦ some mid
      ]
]

-- `for (i = 0; i < n; i++)`, from index `i` with `rounds` left.
unfoldable pub scan : ℕ → (ℕ → Ordering) → ℕ → Option ℕ
scan zero probe i = none
scan (suc rounds) probe i = elim (probe i) [ Ordering.eq ↦ some i | _ ↦ scan rounds probe (i + 1) ]
