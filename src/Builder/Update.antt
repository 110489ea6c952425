-- ===== src/Builder/Update.antt =====
-- What the insertion of a route does to the map from patterns to routes.
use libwrouter.Base.{
  ◌≡◌, refl, sym, ◌∙◌, ap, inl, inr, List, [], ◌∷◌, true, false, Option, none, some, arith,
  Bool-cases, Option-cases, if◌then◌else◌,
}
use libwrouter.Text.{Bytes, bytes_eq}
use libwrouter.Text.Compare.{bytes_eq_sound, bytes_eq_refl}
use libwrouter.Route.{Route}
use libwrouter.Prelexer.Pattern.{Piece, lit, par, Ending, finished, slashed, rest}
use libwrouter.Segment.{Node, Segments, nil, cons, empty_node, append_segment}
use libwrouter.Router.Tree.{child_named}
use libwrouter.Builder.Insert.{
  route_at, set_child, Inserts, terminal, trailing, wildcard, new_child, old_child, new_param,
  old_param,
}

child_named-append_segment :
    (cs : Segments) (name other : Bytes) (n : Node)
    → child_named (append_segment cs name n) other
      ≡ elim (child_named cs other) as (λ _. Option Node) [
        | some child ↦ some child
        | none ↦ if bytes_eq name other then some n else none
      ]
unfolding child_named
child_named-append_segment nil name other n = refl
child_named-append_segment (cons str child cs) name other n =
    ground (arith, child_named-append_segment cs name other n)

child_named-set_child :
    (cs : Segments) (name other : Bytes) (n : Node)
    → child_named (set_child cs name n) other ≡ (
        if bytes_eq name other
        then elim (child_named cs other) as (λ _. Option Node) [ none ↦ none | some _ ↦ some n ]
        else child_named cs other)
unfolding child_named
child_named-set_child nil name other n = ground arith
child_named-set_child (cons str child cs) name other n = elim (Bool-cases (bytes_eq str name)) [
  | inl same ↦
      let e : bytes_eq str other ≡ bytes_eq name other =
        ap (λ x. bytes_eq x other) (bytes_eq_sound str name same) in
      elim (Bool-cases (bytes_eq str other)) [
        | inl hit ↦ rw (same, sym e ∙ hit, hit, child_named) refl
        | inr miss ↦ rw (same, sym e ∙ miss, miss, child_named) refl
      ]
  | inr differ ↦ elim (Bool-cases (bytes_eq name other)) [
    | inl hit ↦
        let miss : bytes_eq str other ≡ false =
          ap (bytes_eq str) (sym (bytes_eq_sound name other hit)) ∙ differ in
        rw (differ, miss, hit, child_named) (child_named-set_child cs name other n ∙ rw hit refl)
    | inr miss ↦ elim (Bool-cases (bytes_eq str other)) [
      | inl found ↦ rw (differ, miss, found, child_named) refl
      | inr other_str ↦
          rw (differ, miss, other_str, child_named)
            (child_named-set_child cs name other n ∙ rw miss refl)
    ]
  ]
]

pub route_at-empty_node : (ps : List Piece) (e : Ending) → route_at ps e empty_node ≡ none
unfolding route_at
route_at-empty_node [] finished = refl
route_at-empty_node [] slashed = refl
route_at-empty_node [] rest = refl
route_at-empty_node (lit name ∷ ps) e = refl
route_at-empty_node (par name ∷ ps) e = refl

-- The pattern has no route before.
pub Inserts-fresh :
    {r : Route} {n n' : Node} {ps : List Piece} {e : Ending}
    → Inserts r n ps e n'
    → route_at ps e n ≡ none
unfolding route_at
Inserts-fresh (terminal tr sp cs) = refl
Inserts-fresh (trailing t sp cs) = refl
Inserts-fresh (wildcard t tr cs) = refl
Inserts-fresh (new_child t tr sp cs name ps e n plain no_child few nul i) =
    rw (no_child, route_at) refl
Inserts-fresh (old_child t tr sp cs name ps e child n plain there i) =
    rw (there, route_at) (Inserts-fresh i)
Inserts-fresh (new_param t tr name ps e n nul i) = refl
Inserts-fresh (old_param t tr name ps e child n i) =
    rw (bytes_eq_refl name, route_at) (Inserts-fresh i)

-- The pattern has the route afterwards.
pub Inserts-found :
    {r : Route} {n n' : Node} {ps : List Piece} {e : Ending}
    → Inserts r n ps e n'
    → route_at ps e n' ≡ some r
unfolding route_at
Inserts-found (terminal tr sp cs) = refl
Inserts-found (trailing t sp cs) = refl
Inserts-found (wildcard t tr cs) = refl
Inserts-found (new_child t tr sp cs name ps e n plain no_child few nul i) =
    rw (child_named-append_segment cs name name n, no_child, bytes_eq_refl name, route_at)
      (Inserts-found i)
Inserts-found (old_child t tr sp cs name ps e child n plain there i) =
    rw (child_named-set_child cs name name n, bytes_eq_refl name, there, route_at) (Inserts-found i)
Inserts-found (new_param t tr name ps e n nul i) =
    rw (bytes_eq_refl name, route_at) (Inserts-found i)
Inserts-found (old_param t tr name ps e child n i) =
    rw (bytes_eq_refl name, route_at) (Inserts-found i)

-- The pattern is another one.
abbrev pub Other : List Piece → Ending → List Piece → Ending → Type 0
Other ps e qs f = ¬ ((ps ≡ qs) × (e ≡ f))

module _ (name other : Bytes) (ps qs : List Piece) (e f : Ending)
    (same : bytes_eq name other ≡ true) where
  Other-lit : Other (lit name ∷ ps) e (lit other ∷ qs) f → Other ps e qs f
  Other-lit o (p, q) =
      o (ap (λ l. lit name ∷ l) p ∙ ap (λ x. lit x ∷ qs) (bytes_eq_sound name other same), q)

  Other-par : Other (par name ∷ ps) e (par other ∷ qs) f → Other ps e qs f
  Other-par o (p, q) =
      o (ap (λ l. par name ∷ l) p ∙ ap (λ x. par x ∷ qs) (bytes_eq_sound name other same), q)

-- The routes of all other patterns stay.
pub Inserts-others :
    {r : Route} {n n' : Node} {ps : List Piece} {e : Ending}
    → Inserts r n ps e n'
    → (qs : List Piece) (f : Ending) → Other ps e qs f
    → route_at qs f n' ≡ route_at qs f n
unfolding route_at
Inserts-others (terminal tr sp cs) [] finished o = absurd (o (refl, refl))
Inserts-others (terminal tr sp cs) [] slashed o = refl
Inserts-others (terminal tr sp cs) [] rest o = refl
Inserts-others (terminal tr sp cs) (lit other ∷ qs) f o = refl
Inserts-others (terminal tr sp cs) (par other ∷ qs) f o = refl
Inserts-others (trailing t sp cs) [] finished o = refl
Inserts-others (trailing t sp cs) [] slashed o = absurd (o (refl, refl))
Inserts-others (trailing t sp cs) [] rest o = refl
Inserts-others (trailing t sp cs) (lit other ∷ qs) f o = refl
Inserts-others (trailing t sp cs) (par other ∷ qs) f o = refl
Inserts-others (wildcard t tr cs) [] finished o = refl
Inserts-others (wildcard t tr cs) [] slashed o = refl
Inserts-others (wildcard t tr cs) [] rest o = absurd (o (refl, refl))
Inserts-others (wildcard t tr cs) (lit other ∷ qs) f o = refl
Inserts-others (wildcard t tr cs) (par other ∷ qs) f o = refl
Inserts-others (new_child t tr sp cs name ps e n plain no_child few nul i) [] finished o = refl
Inserts-others (new_child t tr sp cs name ps e n plain no_child few nul i) [] slashed o = refl
Inserts-others (new_child t tr sp cs name ps e n plain no_child few nul i) [] rest o = refl
Inserts-others (new_child t tr sp cs name ps e n plain no_child few nul i) (par other ∷ qs) f o =
    refl
Inserts-others (new_child t tr sp cs name ps e n plain no_child few nul i) (lit other ∷ qs) f o =
    elim (Bool-cases (bytes_eq name other)) [
      | inl same ↦
          let gone : child_named cs other ≡ none =
            ap (child_named cs) (sym (bytes_eq_sound name other same)) ∙ no_child in
          rw (child_named-append_segment cs name other n, gone, same, route_at)
            (Inserts-others i qs f (Other-lit name other ps qs e f same o)
              ∙ route_at-empty_node qs f)
      | inr differ ↦ elim (Option-cases (child_named cs other)) [
        | inl gone ↦ rw (child_named-append_segment cs name other n, gone, differ, route_at) refl
        | inr (c, there) ↦ rw (child_named-append_segment cs name other n, there, route_at) refl
      ]
    ]
Inserts-others (old_child t tr sp cs name ps e child n plain there i) [] finished o = refl
Inserts-others (old_child t tr sp cs name ps e child n plain there i) [] slashed o = refl
Inserts-others (old_child t tr sp cs name ps e child n plain there i) [] rest o = refl
Inserts-others (old_child t tr sp cs name ps e child n plain there i) (par other ∷ qs) f o = refl
Inserts-others (old_child t tr sp cs name ps e child n plain there i) (lit other ∷ qs) f o =
    elim (Bool-cases (bytes_eq name other)) [
      | inl same ↦
          let found : child_named cs other ≡ some child =
            ap (child_named cs) (sym (bytes_eq_sound name other same)) ∙ there in
          rw (child_named-set_child cs name other n, same, found, route_at)
            (Inserts-others i qs f (Other-lit name other ps qs e f same o))
      | inr differ ↦ rw (child_named-set_child cs name other n, differ, route_at) refl
    ]
Inserts-others (new_param t tr name ps e n nul i) [] finished o = refl
Inserts-others (new_param t tr name ps e n nul i) [] slashed o = refl
Inserts-others (new_param t tr name ps e n nul i) [] rest o = refl
Inserts-others (new_param t tr name ps e n nul i) (lit other ∷ qs) f o = refl
Inserts-others (new_param t tr name ps e n nul i) (par other ∷ qs) f o =
    elim (Bool-cases (bytes_eq name other)) [
      | inl same ↦
          rw (same, route_at)
            (Inserts-others i qs f (Other-par name other ps qs e f same o)
              ∙ route_at-empty_node qs f)
      | inr differ ↦ rw (differ, route_at) refl
    ]
Inserts-others (old_param t tr name ps e child n i) [] finished o = refl
Inserts-others (old_param t tr name ps e child n i) [] slashed o = refl
Inserts-others (old_param t tr name ps e child n i) [] rest o = refl
Inserts-others (old_param t tr name ps e child n i) (lit other ∷ qs) f o = refl
Inserts-others (old_param t tr name ps e child n i) (par other ∷ qs) f o =
    elim (Bool-cases (bytes_eq name other)) [
      | inl same ↦
          rw (same, route_at) (Inserts-others i qs f (Other-par name other ps qs e f same o))
      | inr differ ↦ rw (differ, route_at) refl
    ]
