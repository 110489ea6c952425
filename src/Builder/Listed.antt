-- ===== src/Builder/Listed.antt =====
-- The tree of a builder against the list of the routes that have been added to it.
use mathlib.Core.Option.{some-injective}
use libwrouter.Base.{
  ◌≡◌, ◌≢◌, refl, sym, ◌∙◌, ap, ◌⊎◌, inl, inr, ◌↔◌, List, [], ◌∷◌, some, Bool-cases,
}
use libwrouter.Text.{Bytes, bytes_eq}
use libwrouter.Text.Compare.{bytes_eq_sound, bytes_eq_refl}
use libwrouter.World.{World}
use libwrouter.Route.{Route}
use libwrouter.Prelexer.{ParamSyntax}
use libwrouter.Prelexer.Pattern.{
  Piece, lit, par, Ending, finished, slashed, rest, Pattern, pattern_of,
}
use libwrouter.Segment.{Node}
use libwrouter.Builder.{Builder}
use libwrouter.Builder.Api.{Options}
use libwrouter.Builder.Insert.{Inserts, route_at}
use libwrouter.Builder.Update.{
  Other, Inserts-fresh, Inserts-found, Inserts-others, route_at-empty_node,
}
use libwrouter.Builder.Contract.{Adds-of}
use libwrouter.Builder.Built.{Calls, Built, created, filled, Built-IsFaithful, root-created}

abbrev text : Piece → Bytes
text (lit s) = s
text (par s) = s

bytes_same : (s t : Bytes) → (s ≡ t) ⊎ (s ≢ t)
bytes_same s t = elim (Bool-cases (bytes_eq s t)) [
  | inl same ↦ inl (bytes_eq_sound s t same)
  | inr differ ↦ inr (λ e. cc (ap (bytes_eq s) e, bytes_eq_refl s))
]

piece_same : (x y : Piece) → (x ≡ y) ⊎ (x ≢ y)
piece_same (lit s) (lit t) = elim (bytes_same s t) [
  | inl same ↦ inl (ap lit same)
  | inr differ ↦ inr (λ e. differ (ap text e))
]
piece_same (par s) (par t) = elim (bytes_same s t) [
  | inl same ↦ inl (ap par same)
  | inr differ ↦ inr (λ e. differ (ap text e))
]
piece_same (lit s) (par t) = inr (λ e. cc)
piece_same (par s) (lit t) = inr (λ e. cc)

first_or : Piece → List Piece → Piece
first_or x [] = x
first_or x (y ∷ ps) = y

after_first : List Piece → List Piece
after_first [] = []
after_first (y ∷ ps) = ps

pieces_same : (ps qs : List Piece) → (ps ≡ qs) ⊎ (ps ≢ qs)
unfolding first_or after_first
pieces_same [] [] = inl refl
pieces_same [] (y ∷ qs) = inr (λ e. cc)
pieces_same (x ∷ ps) [] = inr (λ e. cc)
pieces_same (x ∷ ps) (y ∷ qs) = elim (piece_same x y) [
  | inr differ ↦ inr (λ e. differ (ap (first_or x) e))
  | inl same ↦ elim (pieces_same ps qs) [
    | inl more ↦ inl (cc (same, more))
    | inr differ ↦ inr (λ e. differ (ap after_first e))
  ]
]

ending_same : (e f : Ending) → (e ≡ f) ⊎ (e ≢ f)
ending_same finished finished = inl refl
ending_same slashed slashed = inl refl
ending_same rest rest = inl refl
ending_same finished slashed = inr (λ p. cc)
ending_same finished rest = inr (λ p. cc)
ending_same slashed finished = inr (λ p. cc)
ending_same slashed rest = inr (λ p. cc)
ending_same rest finished = inr (λ p. cc)
ending_same rest slashed = inr (λ p. cc)

same_or_Other :
    (ps : List Piece) (e : Ending) (qs : List Piece) (f : Ending)
    → ((ps ≡ qs) × (e ≡ f)) ⊎ Other ps e qs f
same_or_Other ps e qs f = elim (pieces_same ps qs) [
  | inr differ ↦ inr (λ p. differ p.0)
  | inl same ↦ elim (ending_same e f) [
    | inl also ↦ inl (same, also)
    | inr differ ↦ inr (λ p. differ p.1)
  ]
]

-- The list has the route, with a string that is read as the pattern.
abbrev pub Listed : ParamSyntax → Calls → Pattern → Route → Type 0
Listed syntax [] p route = ⊥
Listed syntax ((string, r) ∷ calls) p route =
    ((pattern_of syntax string ≡ some p) × (r ≡ route)) ⊎ Listed syntax calls p route

module _ (r : Route) (n n' : Node) (ps : List Piece) (e : Ending) (i : Inserts r n ps e n') where
  -- A route of the tree was there before, or it is the one that was put in.
  old_or_new :
      (qs : List Piece) (f : Ending) (t : Route)
      → route_at qs f n' ≡ some t
      → ((ps ≡ qs) × (e ≡ f) × (r ≡ t)) ⊎ (route_at qs f n ≡ some t)
  old_or_new qs f t h = elim (same_or_Other ps e qs f) [
    | inr o ↦ inr (sym (Inserts-others i qs f o) ∙ h)
    | inl (p, q) ↦ inl (p, q, some-injective r t (sym (Inserts-found i) ∙ cc (p, q) ∙ h))
  ]

  stays :
      (qs : List Piece) (f : Ending) (t : Route)
      → route_at qs f n ≡ some t
      → route_at qs f n' ≡ some t
  stays qs f t h = elim (same_or_Other ps e qs f) [
    | inr o ↦ Inserts-others i qs f o ∙ h
    | inl (p, q) ↦ cc (p, q, Inserts-fresh i, h)
  ]

module _ (o : Options) (v : World) where
  -- A builder that wrouter_builder_create made and that only calls of wrouter_add_route with
  -- WROUTER_OK have changed has in its tree a route for a pattern exactly if the route was added with
  -- a string that the prelexer reads as this pattern.
  pub route_at-Built :
      {calls : Calls} {b : Builder} {w : World}
      → Built o v calls b w
      → (p : Pattern) (route : Route)
      → (route_at p.0 p.1 b.root ≡ some route) ↔ Listed o.param_syntax calls p route
  route_at-Built (created b w e) p route = (
    λ h. cc (h, ap (route_at p.0 p.1) (root-created o v b w e), route_at-empty_node p.0 p.1),
    λ h. absurd h,
  )
  route_at-Built (filled calls b b' w w' string r built e) p route =
      let f = Built-IsFaithful o v built in
      let adds = Adds-of b b' w w' string r f.intact f.usable e in
      let read : pattern_of o.param_syntax string ≡ some (adds.pieces, adds.ending) =
        ap (λ s. pattern_of s string) (sym f.param_syntax) ∙ adds.read in
      let (there, back) = route_at-Built built p route in
      (
        λ h.
            elim (old_or_new r b.root b'.root adds.pieces adds.ending adds.inserts p.0 p.1 route
              h) [
                | inl (same, also, eq) ↦ inl (cc (read, same, also), eq)
                | inr old ↦ inr (there old)
              ],
        λ h. elim h [
          | inl (reads, eq) ↦
              let same : (adds.pieces, adds.ending) ≡ p = some-injective _ p (sym read ∙ reads) in
              cc (
                ap (λ (q : Pattern). route_at q.0 q.1 b'.root) same,
                Inserts-found adds.inserts,
                eq,
              )
          | inr before ↦
              stays r b.root b'.root adds.pieces adds.ending adds.inserts p.0 p.1 route
                (back before)
        ],
      )
