-- ===== src/Params/Snapshot.antt =====
-- The strings of a snapshot against those of the parameters it is a copy of.
use mathlib.Core.Path.{subst}
use libwrouter.Base.{
  ℕ, ◌+◌, ◌-◌, ◌≤◌, ◌<◌, ◌≡◌, refl, sym, ◌∙◌, ap, ◌⊎◌, inl, inr, List, [], ◌∷◌, ◌++◌, Bool, true,
  false, Option, none, some, arith, ltb, leb, length, length-append, append_assoc, take, Bool-cases,
  Option-cases, ◌==◌, if◌then◌else◌,
}
use libwrouter.Text.{Bytes}
use libwrouter.Text.Compare.{NulFree}
use libwrouter.Memory.{Memory, malloc}
use libwrouter.World.{returns}
use libwrouter.Symbol.{uint16_max}
use libwrouter.Params.{Param, Params, count}
use libwrouter.Params.Copy.{
  Snapshot, zero_snapshot, region_size, zeros, copy_params, fill_snapshot, wrouter_params_copy,
}
use libwrouter.Params.Region.{
  IsCopyable, AllCopyable, value_text, name_text, image, image_of, strings, places, bytes_or_none,
  string_at, AreCopies, zero_plus, length-strings, string_at-append, copy_params-zeros, length-text,
}

length-image_of :
    (p : Param) (c : IsCopyable p) → length (image_of p) ≡ (length c.name + 1) + (p.length + 1)
length-image_of p c = omega (
  arith,
  length-strings (name_text p) (value_text p),
  ap (λ o. length (bytes_or_none o)) c.has_name,
  ap (λ o. length (take p.length (bytes_or_none o))) c.has_value,
  length-text c.name c.value [] p.length 0 c.fits,
)

-- The sizes that the region may have.
abbrev pub limited : ℕ → Option ℕ
limited n = if leb n 65535 then some n else none

limited_over : (n : ℕ) → 65535 < n → none ≡ limited n
limited_over n h = let over : leb n 65535 ≡ false = ground arith in rw over refl

limited_within : (n : ℕ) → n ≤ 65535 → limited n ≡ some n
limited_within n h = let within : leb n 65535 ≡ true = ground arith in rw within refl

-- The size of the region is the number of the bytes that it holds in the end, up to 65535.
region_size-eq :
    (ps : List Param) (size : ℕ)
    → AllCopyable ps
    → size ≤ 65535
    → region_size ps size ≡ limited (size + length (image ps))
unfolding region_size
region_size-eq [] size h small =
    let same : size ≡ size + 0 = omega arith in sym (limited_within size small) ∙ ap limited same
region_size-eq (p ∷ ps) size h small =
    let c = h.0 in
    let a = length c.name + 1 in
    let v = p.length + 1 in
    let total : length (image (p ∷ ps)) ≡ a + v + length (image ps) =
      omega (arith, length-append (image_of p) (image ps), length-image_of p c) in
    let all : size + (a + v + length (image ps)) ≡ size + length (image (p ∷ ps)) = omega arith in
    let run : region_size (p ∷ ps) size ≡ limited (size + (a + v + length (image ps))) =
      rw (c.has_name, c.has_value, region_size)
        (elim (Bool-cases (ltb (uint16_max - size) a)) [
          | inl e ↦ rw e (limited_over (size + (a + v + length (image ps))) (ground arith))
          | inr e ↦ elim (Bool-cases (ltb (uint16_max - (size + a)) v)) [
            | inl f ↦ rw (e, f) (limited_over (size + (a + v + length (image ps))) (ground arith))
            | inr f ↦
                let same : (size + a + v) + length (image ps) ≡ size + (a + v + length (image ps)) =
                  omega arith in
                rw (e, f) (region_size-eq ps (size + a + v) h.1 (ground arith) ∙ ap limited same)
          ]
        ]) in
    run ∙ ap limited all

-- Where the name, the value, and the strings of the other parameters stand in the region.
module _ (pre name value more : Bytes) where
  at_name : pre ++ (strings name value ++ more) ≡ pre ++ (name ++ 0 ∷ ((value ++ 0 ∷ []) ++ more))
  at_name = cc (
    append_assoc (name ++ 0 ∷ []) (value ++ 0 ∷ []) more,
    append_assoc name (0 ∷ []) ((value ++ 0 ∷ []) ++ more),
  )

  at_value : pre ++ (strings name value ++ more) ≡ (pre ++ (name ++ 0 ∷ [])) ++ (value ++ 0 ∷ more)
  at_value = cc (
    append_assoc (name ++ 0 ∷ []) (value ++ 0 ∷ []) more,
    append_assoc value (0 ∷ []) more,
    append_assoc pre (name ++ 0 ∷ []) (value ++ 0 ∷ more),
  )

AreCopies-places :
    (ps : List Param) (pre rest : Bytes)
    → AllCopyable ps
    → AreCopies (pre ++ (image ps ++ rest)) ps (places (length pre) ps)
AreCopies-places [] pre rest h = tt
AreCopies-places (p ∷ ps) pre rest h =
    let c = h.0 in
    let name = name_text p in
    let value = value_text p in
    let more = image ps ++ rest in
    let same_name : name ≡ c.name = ap bytes_or_none c.has_name in
    let same_value : value ≡ take p.length c.value =
      ap (λ o. take p.length (bytes_or_none o)) c.has_value in
    let regroup : pre ++ (image (p ∷ ps) ++ rest) ≡ pre ++ (strings name value ++ more) =
      ap (λ r. pre ++ r) (append_assoc (strings name value) (image ps) rest) in
    let place : length pre + length name + 1 ≡ length (pre ++ (name ++ 0 ∷ [])) =
      omega (arith, length-append pre (name ++ 0 ∷ []), length-append name (0 ∷ [])) in
    let place' : length (pre ++ image_of p) ≡ length pre + length (image_of p) =
      length-append pre (image_of p) in
    (
      ap some (
            ap (λ r. string_at r (length pre)) (regroup ∙ at_name pre name value more)
            ∙ (string_at-append pre name ((value ++ 0 ∷ []) ++ more)
                  (subst NulFree (sym same_name) c.name-NulFree)
                ∙ same_name))
          ∙ sym c.has_name,
      ap (λ r. string_at r (length pre + length name + 1)) (regroup ∙ at_value pre name value more)
          ∙ (ap (string_at ((pre ++ (name ++ 0 ∷ [])) ++ (value ++ 0 ∷ more))) place
              ∙ string_at-append (pre ++ (name ++ 0 ∷ [])) value more
                  (subst NulFree (sym same_value) c.value-NulFree)),
      subst (λ n. AreCopies (pre ++ (image (p ∷ ps) ++ rest)) ps (places n ps)) place'
          (subst (λ r. AreCopies r ps (places (length (pre ++ image_of p)) ps))
            (append_assoc pre (image_of p) more ∙ sym regroup)
            (AreCopies-places ps (pre ++ image_of p) rest h.1)),
    )

-- The region of a snapshot, if there is one.
abbrev pub IsCopy : Params → Option Snapshot → Type 0
IsCopy ps none = Unit
IsCopy ps (some s) = AreCopies (bytes_or_none s.region) ps.base s.base

fill_snapshot-IsCopy :
    (ps : Params) (mem : Memory)
    → AllCopyable ps.base
    → (s : Option Snapshot) × (mem' : Memory) × (fill_snapshot ps (length (image ps.base)) mem
        ≡ returns (s, mem'))
      × IsCopy ps s
unfolding fill_snapshot
fill_snapshot-IsCopy ps mem h = elim (Option-cases (malloc mem).0) [
  | inl e ↦ (none, (malloc mem).1, rw (e, fill_snapshot) refl, tt)
  | inr (a, e) ↦ elim (Option-cases (malloc (malloc mem).1).0) [
    | inl f ↦ (none, (malloc (malloc mem).1).1, rw (e, f, fill_snapshot) refl, tt)
    | inr (a', f) ↦
        let size : length (image ps.base) ≡ length (image ps.base) + 0 = omega arith in
        let run =
          ap (λ n. copy_params ps.base (zeros n) 0) size ∙ copy_params-zeros ps.base [] 0 h in
        (
          some (record { region = some (image ps.base ++ []); base = places 0 ps.base }),
          (malloc (malloc mem).1).1,
          rw (e, f, run, fill_snapshot) refl,
          AreCopies-places ps.base [] [] h,
        )
  ]
]

no_cells : (xs : List Param) → (length xs == 0) ≡ true → xs ≡ []
no_cells [] e = refl
no_cells (x ∷ xs) e = absurd (ground arith)

-- For parameters with null-terminated names, whose values are as long as they say and have no
-- terminator in them, wrouter_params_copy comes to an end on every outcome of its allocations, and
-- reads and writes nothing out of bounds; it gives NULL, or a snapshot with a parameter for each of
-- them, in order, whose name and value point to null-terminated copies of theirs.
pub wrouter_params_copy-IsCopy :
    (ps : Params) (has_base : Bool) (mem : Memory)
    → AllCopyable ps.base
    → (s : Option Snapshot) × (mem' : Memory) × (wrouter_params_copy (some ps) has_base mem
        ≡ returns (s, mem'))
      × IsCopy ps s
unfolding wrouter_params_copy
wrouter_params_copy-IsCopy ps has_base mem h = elim (Option-cases (malloc mem).0) [
  | inl e ↦ (none, (malloc mem).1, rw (e, wrouter_params_copy) refl, tt)
  | inr (a, e) ↦ elim (Bool-cases (count ps == 0)) [
    | inl z ↦ (
      some zero_snapshot,
      (malloc mem).1,
      rw (e, z, wrouter_params_copy) refl,
      subst (λ xs. AreCopies [] xs []) (sym (no_cells ps.base z)) tt,
    )
    | inr nz ↦ elim (Bool-cases has_base) [
      | inr b ↦ (none, (malloc mem).1, rw (e, nz, b, wrouter_params_copy) refl, tt)
      | inl b ↦
          let sized =
            region_size-eq ps.base 0 h (omega arith)
            ∙ ap limited (zero_plus (length (image ps.base))) in
          elim (Bool-cases (leb (length (image ps.base)) 65535)) [
            | inl small ↦
                let (s, mem', run, copy) = fill_snapshot-IsCopy ps (malloc mem).1 h in
                let within = sized ∙ limited_within (length (image ps.base)) (ground arith) in
                (s, mem', rw (e, nz, b, within, wrouter_params_copy) run, copy)
            | inr large ↦
                let over = sized ∙ sym (limited_over (length (image ps.base)) (ground arith)) in
                (none, (malloc mem).1, rw (e, nz, b, over, wrouter_params_copy) refl, tt)
          ]
    ]
  ]
]

fill_snapshot_roomy :
    (ps : Params)
    → AllCopyable ps.base
    → (s : Snapshot) × (fill_snapshot ps (length (image ps.base)) [] ≡ returns (some s, []))
unfolding fill_snapshot malloc
fill_snapshot_roomy ps h =
    let size : length (image ps.base) ≡ length (image ps.base) + 0 = omega arith in
    let run = ap (λ n. copy_params ps.base (zeros n) 0) size ∙ copy_params-zeros ps.base [] 0 h in
    (
      record { region = some (image ps.base ++ []); base = places 0 ps.base },
      rw (run, fill_snapshot) refl,
    )

-- Where no allocation fails, for parameters with null-terminated names, whose values are as long as
-- they say and have no terminator in them: wrouter_params_copy gives a snapshot if their strings take at most 65535 bytes with their terminators, and NULL if they take more.
pub wrouter_params_copy_limit :
    (ps : Params)
    → AllCopyable ps.base
    → (((length (image ps.base) ≤ 65535)
          × ((s : Snapshot) × (wrouter_params_copy (some ps) true [] ≡ returns (some s, []))))
        ⊎ ((65535 < length (image ps.base))
            × (wrouter_params_copy (some ps) true [] ≡ returns (none, []))))
unfolding wrouter_params_copy malloc
wrouter_params_copy_limit ps h = elim (Bool-cases (count ps == 0)) [
  | inl z ↦
      let small : length (image ps.base) ≤ 65535 =
        omega (arith, ap (λ xs. length (image xs)) (no_cells ps.base z)) in
      inl (small, (zero_snapshot, rw (z, wrouter_params_copy) refl))
  | inr nz ↦
      let sized =
        region_size-eq ps.base 0 h (omega arith)
        ∙ ap limited (zero_plus (length (image ps.base))) in
      elim (Bool-cases (leb (length (image ps.base)) 65535)) [
        | inl small ↦
            let le : length (image ps.base) ≤ 65535 = ground arith in
            let within = sized ∙ limited_within (length (image ps.base)) le in
            let (s, run) = fill_snapshot_roomy ps h in
            inl (le, (s, rw (nz, within, wrouter_params_copy) run))
        | inr large ↦
            let gt : 65535 < length (image ps.base) = ground arith in
            let over = sized ∙ sym (limited_over (length (image ps.base)) gt) in
            inr (gt, rw (nz, over, wrouter_params_copy) refl)
      ]
]
