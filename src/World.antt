-- ===== src/World.antt =====
-- What the calls of the library leave behind outside its own objects: the allocator, and the
-- contexts handed to the retain and release callbacks of wrouter_options_t, in order.
use libwrouter.Base.{ℕ, List, ◌≡◌, refl, ap, ◌⊎◌, inl, inr}
use libwrouter.Memory.{Memory}

pub record World : Type 0 where
  pub mem : Memory
  pub retained : List ℕ
  pub released : List ℕ

-- A call that may do what is undefined in C: `crashes`.
pub data Run {ℓ} (A : Type ℓ) : Type ℓ where
  returns : A → Run A
  crashes : Run A

pub Run-cases {ℓ} : {A : Type ℓ} (r : Run A) → (r ≡ crashes) ⊎ ((a : A) × (r ≡ returns a))
Run-cases crashes = inl refl
Run-cases (returns a) = inr (a, refl)

abbrev pub value_or {ℓ} : {A : Type ℓ} → A → Run A → A
value_or a crashes = a
value_or a (returns b) = b

pub returns_injective {ℓ} : {A : Type ℓ} (a b : A) → returns a ≡ returns b → a ≡ b
returns_injective a b e = ap (value_or a) e
