-- ===== src/Params/Region.antt =====
-- What the loop of wrouter_params_copy writes to the region.
use libwrouter.Base.{
  ℕ, zero, suc, ◌+◌, ◌≤◌, ◌≡◌, refl, sym, ◌∙◌, ap, List, [], ◌∷◌, ◌++◌, true, false, Option, none,
  some, arith, leb, length, length-append, length-take, append_assoc, take, take-append, drop, ◌==◌,
  if◌then◌else◌,
}
use libwrouter.Text.{Bytes}
use libwrouter.Text.Compare.{NulFree}
use libwrouter.World.{Run, returns}
use libwrouter.Params.{Param}
use libwrouter.Params.Copy.{ParamNt, zeros, write, read, and_then, copy_strings, copy_params}

-- A parameter whose name is a null-terminated string, and whose value has no terminator among the bytes
-- that its length counts.
pub record IsCopyable (p : Param) : Type 0 where
  pub name : Bytes
  pub value : Bytes
  pub has_name : p.name ≡ some name
  pub has_value : p.value ≡ some value
  pub fits : p.length ≤ length value
  pub name-NulFree : NulFree name
  pub value-NulFree : NulFree (take p.length value)

abbrev pub AllCopyable : List Param → Type 0
AllCopyable [] = Unit
AllCopyable (p ∷ ps) = IsCopyable p × AllCopyable ps

abbrev pub bytes_or_none : Option Bytes → Bytes
bytes_or_none none = []
bytes_or_none (some s) = s

-- The bytes of a value that its length counts.
abbrev pub value_text : Param → Bytes
value_text p = take p.length (bytes_or_none p.value)

-- The bytes of a name, and of a name and a value with their terminators.
abbrev pub name_text : Param → Bytes
name_text p = bytes_or_none p.name

abbrev pub strings : Bytes → Bytes → Bytes
strings name value = (name ++ 0 ∷ []) ++ (value ++ 0 ∷ [])

abbrev pub image_of : Param → Bytes
image_of p = strings (name_text p) (value_text p)

-- What the region holds in the end.
abbrev pub image : List Param → Bytes
image [] = []
image (p ∷ ps) = image_of p ++ image ps

abbrev pub places : ℕ → List Param → List ParamNt
places at [] = []
places at (p ∷ ps) =
    record { name = at; value = at + length (name_text p) + 1 }
    ∷ places (at + length (image_of p)) ps

-- The null-terminated string at an index.
abbrev pub c_string : Bytes → Bytes
c_string [] = []
c_string (x ∷ xs) = if x == 0 then [] else x ∷ c_string xs

abbrev pub string_at : Bytes → ℕ → Bytes
string_at region at = c_string (drop at region)

-- Each parameter of the copy points to null-terminated strings in the region, the name and the value of
-- the parameter that it is a copy of.
abbrev pub AreCopies : Bytes → List Param → List ParamNt → Type 0
AreCopies region [] [] = Unit
AreCopies region (p ∷ ps) (d ∷ ds) =
    (some (string_at region d.name) ≡ p.name)
    × (string_at region d.value ≡ value_text p)
    × AreCopies region ps ds
AreCopies region _ _ = ⊥

length-zeros : (n : ℕ) → length (zeros n) ≡ n
length-zeros zero = refl
length-zeros (suc n) = omega (arith, length-zeros n)

pub zero_plus : (n : ℕ) → 0 + n ≡ n
zero_plus n = omega arith

suc_plus : (m n : ℕ) → suc m + n ≡ suc (m + n)
suc_plus m n = omega arith

drop-append {ℓ} :
    {A : Type ℓ} (xs ys : List A) (n : ℕ) → drop (length xs + n) (xs ++ ys) ≡ drop n ys
drop-append [] ys n = ap (λ m. drop m ys) (zero_plus n)
drop-append (x ∷ xs) ys n =
    ap (λ m. drop m (x ∷ (xs ++ ys))) (suc_plus (length xs) n) ∙ drop-append xs ys n

drop-zeros : (n k : ℕ) → drop n (zeros (n + k)) ≡ zeros k
drop-zeros zero k = ap (λ m. zeros m) (zero_plus k)
drop-zeros (suc n) k = ap (λ m. drop (suc n) (zeros m)) (suc_plus n k) ∙ drop-zeros n k

c_string-eq : (s rest : Bytes) → NulFree s → c_string (s ++ 0 ∷ rest) ≡ s
c_string-eq [] rest h = refl
c_string-eq (x ∷ s) rest h =
    let nz : (x == 0) ≡ false = ground (arith, h.0) in
    rw nz (ap (λ t. x ∷ t) (c_string-eq s rest h.1))

pub string_at-append :
    (pre s rest : Bytes) → NulFree s → string_at (pre ++ (s ++ 0 ∷ rest)) (length pre) ≡ s
string_at-append pre s rest h =
    ap (λ n. string_at (pre ++ (s ++ 0 ∷ rest)) n) (sym (plus_zero (length pre)))
    ∙ ap c_string (drop-append pre (s ++ 0 ∷ rest) 0)
    ∙ c_string-eq s rest h
  where
    plus_zero : (n : ℕ) → n + 0 ≡ n
    plus_zero n = omega arith

-- A write to the zeros behind what has been written.
write-zeros :
    (pre bytes : Bytes) (k : ℕ)
    → write (pre ++ zeros (length bytes + k)) (length pre) bytes
      ≡ returns (pre ++ (bytes ++ zeros k))
unfolding write
write-zeros pre bytes k =
    let fits : leb (length pre + length bytes) (length (pre ++ zeros (length bytes + k))) ≡ true =
      ground
        (arith, length-append pre (zeros (length bytes + k)), length-zeros (length bytes + k)) in
    rw
      (
        fits,
        write,
        take-append pre (zeros (length bytes + k)),
        drop-append pre (zeros (length bytes + k)) (length bytes),
        drop-zeros (length bytes) k,
      )
      refl

pub length-strings :
    (name value : Bytes) → length (strings name value) ≡ length name + length value + 2
length-strings name value = omega (
  arith,
  length-append (name ++ 0 ∷ []) (value ++ 0 ∷ []),
  length-append name (0 ∷ []),
  length-append value (0 ∷ []),
)

read-eq : (value : Bytes) (n : ℕ) → n ≤ length value → read value n ≡ returns (take n value)
read-eq value n h = let fits : leb n (length value) ≡ true = ground arith in rw fits refl

module _ (name value pre : Bytes) (n k : ℕ) (fits : n ≤ length value) where
  abbrev terminated : Bytes
  terminated = name ++ 0 ∷ []

  abbrev text : Bytes
  text = take n value

  -- The rest of the copy, behind the name.
  abbrev value_behind : Bytes → Run Bytes
  value_behind region =
      and_then (read value n) (λ bytes. write region (length pre + length name + 1) bytes)

  pub length-text : length text ≡ n
  length-text = ground (arith, length-take n value)

  name_written :
      write (pre ++ zeros (length (strings name text) + k)) (length pre) terminated
      ≡ returns ((pre ++ terminated) ++ zeros (length text + suc k))
  name_written =
      let room : length (strings name text) + k ≡ length terminated + (length text + suc k) =
        omega (arith, length-strings name text, length-append name (0 ∷ [])) in
      ap (λ m. write (pre ++ zeros m) (length pre) terminated) room
      ∙ (write-zeros pre terminated (length text + suc k)
          ∙ ap returns (sym (append_assoc pre terminated (zeros (length text + suc k)))))

  value_written :
      value_behind ((pre ++ terminated) ++ zeros (length text + suc k))
      ≡ returns ((pre ++ strings name text) ++ zeros k)
  value_written =
      let region = (pre ++ terminated) ++ zeros (length text + suc k) in
      let place : length pre + length name + 1 ≡ length (pre ++ terminated) =
        omega (arith, length-append pre terminated, length-append name (0 ∷ [])) in
      ap (λ r. and_then r (λ bytes. write region (length pre + length name + 1) bytes))
        (read-eq value n fits)
      ∙ (ap (λ m. write region m text) place
          ∙ (write-zeros (pre ++ terminated) text (suc k) ∙ ap returns regrouped))
    where
      regrouped :
          (pre ++ terminated) ++ (text ++ zeros (suc k)) ≡ (pre ++ strings name text) ++ zeros k
      regrouped = cc (
        append_assoc text (0 ∷ []) (zeros k),
        append_assoc (pre ++ terminated) (text ++ 0 ∷ []) (zeros k),
        append_assoc pre terminated (text ++ 0 ∷ []),
      )

  -- The strings of one parameter are written behind what has been written.
  copy_strings-zeros :
      copy_strings name value n (pre ++ zeros (length (strings name text) + k)) (length pre)
      ≡ returns ((pre ++ strings name text) ++ zeros k)
  copy_strings-zeros = ap (λ r. and_then r value_behind) name_written ∙ value_written

-- The copy of the other parameters, and the cells for all.
abbrev behind : List Param → ℕ → ℕ → ℕ → Bytes → Run (Bytes × List ParamNt)
behind ps at value_at next region =
    and_then (copy_params ps region next) (λ (done : Bytes × List ParamNt).
      returns (done.0, record { name = at; value = value_at } ∷ done.1))

pub copy_params-zeros :
    (ps : List Param) (pre : Bytes) (k : ℕ)
    → AllCopyable ps
    → copy_params ps (pre ++ zeros (length (image ps) + k)) (length pre)
      ≡ returns (pre ++ (image ps ++ zeros k), places (length pre) ps)
unfolding copy_params
copy_params-zeros [] pre k h = ap (λ n. returns (pre ++ zeros n, [])) (zero_plus k)
copy_params-zeros (p ∷ ps) pre k h =
    let c = h.0 in
    let text = take p.length c.value in
    let done = strings c.name text in
    let at = length pre in
    let value_at = at + length c.name + 1 in
    let next = value_at + p.length + 1 in
    let same : image (p ∷ ps) ≡ done ++ image ps =
      ap (λ o. strings (bytes_or_none o) (value_text p) ++ image ps) c.has_name
      ∙ ap (λ o. strings c.name (take p.length (bytes_or_none o)) ++ image ps) c.has_value in
    let room : length (image (p ∷ ps)) + k ≡ length done + (length (image ps) + k) =
      omega (arith, ap (λ (bs : Bytes). length bs) same, length-append done (image ps)) in
    let place : next ≡ length (pre ++ done) = omega (
      arith,
      length-append pre done,
      length-strings c.name text,
      length-text c.name c.value pre p.length k c.fits,
    ) in
    let again : length (pre ++ done) ≡ at + length done = length-append pre done in
    rw (c.has_name, c.has_value, copy_params)
      (ap
          (λ m.
            and_then (copy_strings c.name c.value p.length (pre ++ zeros m) at)
              (behind ps at value_at next))
          room
        ∙ (ap (λ r. and_then r (behind ps at value_at next))
              (copy_strings-zeros c.name c.value pre p.length (length (image ps) + k) c.fits)
            ∙ (ap (λ m. behind ps at value_at m ((pre ++ done) ++ zeros (length (image ps) + k)))
                  place
                ∙ (ap
                      (λ r. and_then r (λ (d : Bytes × List ParamNt).
                        returns (d.0, record { name = at; value = value_at } ∷ d.1)))
                      (copy_params-zeros ps (pre ++ done) k h.1)
                    ∙ cc (
                      append_assoc pre done (image ps ++ zeros k),
                      append_assoc done (image ps) (zeros k),
                    )))))
