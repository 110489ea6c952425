-- ===== src/Terminal/Lookup.antt =====
-- `terminal_lookup` against the dictionary that the two arrays stand for.
use mathlib.Core.Path.{subst}
use Prim.Native.Nat.{Ordering}
use libwrouter.Base.{
  ℕ, zero, suc, ◌<◌, ◌≡◌, refl, sym, ◌∙◌, inl, inr, Option-cases, ◌↔◌, List, [], ◌∷◌, ◌++◌, some,
  arith, length, get_or, get_elem?, length-append,
}
use libwrouter.Route.{Route}
use libwrouter.Search.Sorted.{Falls, pick, pick_complete, pick_sound}
use libwrouter.Terminal.{Terminals, count, cond_at, route_at, terminal_append, terminal_lookup}

-- The keys stand in strictly ascending order, each with a route.
pub record IsSorted (t : Terminals) : Type 0 where
  pub paired : length t.base ≡ length t.refs
  pub ascending : (i j : ℕ) → i < j → j < length t.refs → get_or t.refs i 0 < get_or t.refs j 0

-- The dictionary has this entry.
abbrev pub Holds : Terminals → ℕ → Route → Type 0
Holds t ref route =
    (i : ℕ) × (i < length t.refs) × (get_or t.refs i 0 ≡ ref) × (get_elem? t.base i ≡ some route)

falls : (t : Terminals) (ref : ℕ) → IsSorted t → Falls (cond_at t ref) (count t)
falls t ref s i j p q h = ground (arith, s.ascending i j)

get_elem?-some {ℓ} :
    {A : Type ℓ} (xs : List A) (i : ℕ) → i < length xs → (x : A) × (get_elem? xs i ≡ some x)
get_elem?-some [] i h = absurd (omega arith)
get_elem?-some (x ∷ xs) zero h = (x, refl)
get_elem?-some (x ∷ xs) (suc i) h = get_elem?-some xs i (omega arith)

pub terminal_lookup_found :
    (t : Terminals) (ref : ℕ) (route : Route)
    → IsSorted t
    → Holds t ref route
    → terminal_lookup t ref ≡ some route
unfolding terminal_lookup
terminal_lookup_found t ref route s (i, lt, e, r) =
    let hit : cond_at t ref i ≡ Ordering.eq = ground arith in
    ground (arith, pick_complete (cond_at t ref) (count t) i (falls t ref s) lt hit)

terminal_lookup-pick :
    (t : Terminals) (ref : ℕ) → terminal_lookup t ref ≡ route_at t (pick (cond_at t ref) (count t))
unfolding terminal_lookup
terminal_lookup-pick t ref = ground arith

terminal_lookup_sound :
    (t : Terminals) (ref : ℕ) (route : Route)
    → terminal_lookup t ref ≡ some route
    → Holds t ref route
terminal_lookup_sound t ref route h =
    let h' = sym (terminal_lookup-pick t ref) ∙ h in
    elim (Option-cases (pick (cond_at t ref) (count t))) [
      | inl e ↦ cc (rw e at h')
      | inr (i, e) ↦
          let (hit, lt) = pick_sound (cond_at t ref) (count t) i e in
          (i, lt, ground arith, rw e at h')
    ]

-- On a dictionary whose keys strictly ascend, of any size, terminal_lookup returns a route for a key
-- exactly if the dictionary stores that route under that key.
pub terminal_lookup_iff :
    (t : Terminals) (ref : ℕ) (route : Route)
    → IsSorted t
    → (terminal_lookup t ref ≡ some route) ↔ Holds t ref route
terminal_lookup_iff t ref route s =
    (terminal_lookup_sound t ref route, terminal_lookup_found t ref route s)

get_or-append_left {ℓ} :
    {A : Type ℓ} (xs ys : List A) (i : ℕ) (d : A)
    → i < length xs
    → get_or (xs ++ ys) i d ≡ get_or xs i d
get_or-append_left [] ys i d h = absurd (omega arith)
get_or-append_left (x ∷ xs) ys zero d h = refl
get_or-append_left (x ∷ xs) ys (suc i) d h = get_or-append_left xs ys i d (omega arith)

get_or-append_here {ℓ} :
    {A : Type ℓ} (xs : List A) (y d : A) → get_or (xs ++ y ∷ []) (length xs) d ≡ y
get_or-append_here [] y d = refl
get_or-append_here (x ∷ xs) y d = get_or-append_here xs y d

get_elem?-append_left {ℓ} :
    {A : Type ℓ} (xs ys : List A) (i : ℕ) {a : A}
    → get_elem? xs i ≡ some a
    → get_elem? (xs ++ ys) i ≡ some a
get_elem?-append_left [] ys i h = cc
get_elem?-append_left (x ∷ xs) ys zero h = h
get_elem?-append_left (x ∷ xs) ys (suc i) h = get_elem?-append_left xs ys i h

get_elem?-append_here {ℓ} :
    {A : Type ℓ} (xs : List A) (y : A) → get_elem? (xs ++ y ∷ []) (length xs) ≡ some y
get_elem?-append_here [] y = refl
get_elem?-append_here (x ∷ xs) y = get_elem?-append_here xs y

-- All keys lie below an offset.
abbrev pub KeysBelow : Terminals → ℕ → Type 0
KeysBelow t b = (i : ℕ) → i < length t.refs → get_or t.refs i 0 < b

module _ (t : Terminals) (ref : ℕ) (route : Route) where
  pub Holds-terminal_append :
      (k : ℕ) (r : Route) → Holds t k r → Holds (terminal_append t ref route) k r
  unfolding terminal_append
  Holds-terminal_append k r (i, lt, e, g) = (
    i,
    omega (arith, length-append t.refs (ref ∷ [])),
    ground (arith, get_or-append_left t.refs (ref ∷ []) i 0),
    get_elem?-append_left t.base (route ∷ []) i g,
  )

  pub Holds-terminal_append_self : IsSorted t → Holds (terminal_append t ref route) ref route
  unfolding terminal_append
  Holds-terminal_append_self s = (
    length t.refs,
    omega (arith, length-append t.refs (ref ∷ [])),
    get_or-append_here t.refs ref 0,
    subst (λ n. get_elem? (t.base ++ route ∷ []) n ≡ some route) s.paired
        (get_elem?-append_here t.base route),
  )

  -- terminal_append keeps a dictionary sorted if the new key is above all its keys.
  pub terminal_append-IsSorted :
      IsSorted t → KeysBelow t ref → IsSorted (terminal_append t ref route)
  unfolding terminal_append
  terminal_append-IsSorted s below = record {
    paired =
        omega (arith, s.paired, length-append t.refs (ref ∷ []), length-append t.base (route ∷ []));
    ascending = λ i j p q. ground (
      arith,
      length-append t.refs (ref ∷ []),
      below i,
      s.ascending i j,
      get_or-append_left t.refs (ref ∷ []) i 0,
      get_or-append_left t.refs (ref ∷ []) j 0,
      get_or-append_here t.refs ref 0,
    );
  }

  pub terminal_append-KeysBelow :
      (b : ℕ) → KeysBelow t ref → ref < b → KeysBelow (terminal_append t ref route) b
  unfolding terminal_append
  terminal_append-KeysBelow b below lt i h = ground (
    arith,
    length-append t.refs (ref ∷ []),
    below i,
    get_or-append_left t.refs (ref ∷ []) i 0,
    get_or-append_here t.refs ref 0,
  )
