-- ===== src/Search/Sorted.antt =====
-- Both searches find the entry that compares equal, where the entries stand in strictly ascending
-- order, and find nothing where there is none.
use Prim.Native.Nat.{Ordering}
use libwrouter.Base.{
  ℕ, zero, suc, ◌+◌, ◌-◌, ◌/◌, ◌≤◌, ◌<◌, ◌≡◌, ◌≢◌, inl, inr, Option, none, some, arith, ltb,
  if◌then◌else◌, Option-cases,
}
use libwrouter.Search.{bisect, scan}

-- Behind an entry that is not below the key stand only entries above it.
abbrev pub Falls : (ℕ → Ordering) → ℕ → Type 0
Falls probe n = (i j : ℕ) → i < j → j < n → probe i ≢ Ordering.gt → probe j ≡ Ordering.lt

module _ (probe : ℕ → Ordering) where
  pub bisect_sound :
      (fuel low high i : ℕ)
      → bisect fuel probe low high ≡ some i
      → (probe i ≡ Ordering.eq) × (i < high)
  unfolding bisect
  bisect_sound zero low high i h = ground arith
  bisect_sound (suc fuel) low high i h = ground (
    arith,
    bisect_sound fuel low (low + (high - low) / 2) i,
    bisect_sound fuel (low + (high - low) / 2 + 1) high i,
  )

  pub bisect_complete :
      (n : ℕ)
      → Falls probe n
      → (fuel low high i : ℕ) → high ≤ n
      → high - low ≤ fuel
      → low ≤ i
      → i < high
      → probe i ≡ Ordering.eq
      → bisect fuel probe low high ≡ some i
  unfolding bisect
  bisect_complete n falls zero low high i b f p q e = absurd (omega arith)
  bisect_complete n falls (suc fuel) low high i b f p q e =
      let mid = low + (high - low) / 2 in
      ground (
        arith,
        falls mid i,
        falls i mid,
        bisect_complete n falls fuel low mid i,
        bisect_complete n falls fuel (mid + 1) high i,
      )

  pub scan_sound :
      (rounds low i : ℕ)
      → scan rounds probe low ≡ some i
      → (probe i ≡ Ordering.eq) × (i < low + rounds)
  unfolding scan
  scan_sound zero low i h = ground arith
  scan_sound (suc rounds) low i h = ground (arith, scan_sound rounds (low + 1) i)

  pub scan_complete :
      (n : ℕ)
      → Falls probe n
      → (rounds low i : ℕ) → low + rounds ≤ n
      → low ≤ i
      → i < low + rounds
      → probe i ≡ Ordering.eq
      → scan rounds probe low ≡ some i
  unfolding scan
  scan_complete n falls zero low i b p q e = absurd (omega arith)
  scan_complete n falls (suc rounds) low i b p q e =
      ground (arith, falls low i, scan_complete n falls rounds (low + 1) i)

  -- The choice that both callers make.
  abbrev pub pick : ℕ → Option ℕ
  pick n = if ltb 16 n then bisect n probe 0 n else scan n probe 0

  pub pick_complete : (n i : ℕ) → Falls probe n → i < n → probe i ≡ Ordering.eq → pick n ≡ some i
  pick_complete n i falls h e =
      ground (arith, bisect_complete n falls n 0 n i, scan_complete n falls n 0 i)

  pub pick_sound : (n i : ℕ) → pick n ≡ some i → (probe i ≡ Ordering.eq) × (i < n)
  pick_sound n i h = ground (arith, bisect_sound n 0 n i, scan_sound n 0 i)

  pub pick-none : (n : ℕ) → ((i : ℕ) → i < n → probe i ≢ Ordering.eq) → pick n ≡ none
  pick-none n h = elim (Option-cases (pick n)) [
    | inl e ↦ e
    | inr (i, e) ↦ let (found, lt) = pick_sound n i e in absurd (h i lt found)
  ]

  pub bisect-none : (n : ℕ) → ((i : ℕ) → i < n → probe i ≢ Ordering.eq) → bisect n probe 0 n ≡ none
  bisect-none n h = elim (Option-cases (bisect n probe 0 n)) [
    | inl e ↦ e
    | inr (i, e) ↦ let (found, lt) = bisect_sound n 0 n i e in absurd (h i lt found)
  ]
