-- ===== src/Builder/Contract.antt =====
-- What wrouter_add_route does to a builder and to the map from patterns to routes that its tree is.
use mathlib.Core.Option
use mathlib.Core.Option.{some-injective}
use mathlib.Core.Path.{subst}
use libwrouter.Base.{
  ◌<◌, ◌≡◌, ◌≢◌, refl, sym, ◌∙◌, ap, ◌⊎◌, inl, inr, List, Bool, true, false, Option, none, some,
  arith, Bool-cases, if◌then◌else◌, ◌==◌,
}
use libwrouter.Text.{Bytes, slash, peek}
use libwrouter.World.{World}
use libwrouter.Errors.{Error, ok, builder_corrupted}
use libwrouter.Route.{Route, call_back}
use libwrouter.Prelexer.{Prelexer, zero_prelexer, prelexer_init, prelexer_load}
use libwrouter.Prelexer.Progress.{unread}
use libwrouter.Prelexer.Pattern.{Piece, Ending, Pattern, pattern_of, enough}
use libwrouter.Segment.{Node}
use libwrouter.Segment.Shape.{IsTree}
use libwrouter.Symbol.Append.{IsTable}
use libwrouter.Builder.{Builder, Added, add_loop, builder_add_route, rounds, tables_of}
use libwrouter.Builder.Api.{wrouter_add_route, mark}
use libwrouter.Builder.Insert.{Inserts, route_at}
use libwrouter.Builder.Update.{Other, Inserts-fresh, Inserts-found, Inserts-others}
use libwrouter.Builder.Loop.{add_loop_lem}

-- A builder whose tree takes its names, different ones at each node, from its tables.
pub record IsIntact (b : Builder) : Type 0 where
  pub literals : IsTable b.literals
  pub params : IsTable b.params
  pub tree : IsTree b.literals.base b.params.base b.root

rounds-enough : (p : Option Bytes) → rounds p ≡ enough p
rounds-enough none = refl
rounds-enough (some p) = refl

unread-load : (lx : Prelexer) (p : Option Bytes) → unread (prelexer_load lx p) < enough p
unfolding prelexer_load
unread-load lx none = omega arith
unread-load lx (some p) = elim (Bool-cases (peek p == 0)) [
  | inl z ↦ rw (z, prelexer_load) (omega arith)
  | inr nz ↦ elim (Bool-cases (peek p == slash)) [
    | inl d ↦ rw (nz, d, prelexer_load) (omega arith)
    | inr nd ↦ rw (nz, nd, prelexer_load) (omega arith)
  ]
]

-- The route has been added, to an intact builder.
pub record Adds (b : Builder) (w : World) (pattern : Option Bytes) (route : Route) (b' : Builder)
    (w' : World) : Type 0 where
  pub pieces : List Piece
  pub ending : Ending
  pub read : pattern_of b.param_syntax pattern ≡ some (pieces, ending)
  pub inserts : Inserts route b.root pieces ending b'.root
  pub intact : IsIntact b'
  pub usable : b'.corrupted ≡ false
  pub retain : b'.retain ≡ b.retain
  pub release : b'.release ≡ b.release
  pub fallback : b'.fallback ≡ b.fallback
  pub param_syntax : b'.param_syntax ≡ b.param_syntax
  pub retained : w'.retained ≡ call_back b.retain w.retained route.ctx
  pub released : w'.released ≡ w.released

-- The builder is unusable, and the world has seen no call.
pub record Rejects (w : World) (b' : Builder) (w' : World) : Type 0 where
  pub corrupted : b'.corrupted ≡ true
  pub retained : w'.retained ≡ w.retained
  pub released : w'.released ≡ w.released

-- How a call ends.
abbrev pub Ends : Builder → World → Option Bytes → Route → Error × Builder × World → Type 0
Ends b w pattern route (err, b', w') =
    ((err ≡ ok) × Adds b w pattern route b' w') ⊎ ((err ≢ ok) × Rejects w b' w')

mark_failed :
    (err : Error) (b : Builder) (w : World)
    → err ≢ ok
    → mark (err, b, w) ≡ (err, record b { corrupted = true }, w)
mark_failed ok b w ne = absurd (ne refl)
mark_failed err b w ne = refl

-- The error, the builder and the world that the walk leaves.
abbrev finish : Builder → Added → Error × Builder × World
finish b a = (
  a.err,
  record b { root = a.node; literals = a.tables.literals; params = a.tables.params },
  a.tables.world,
)

started :
    (b : Builder) (w : World) (pattern : Option Bytes) (route : Route)
    → b.corrupted ≡ false
    → builder_add_route b w pattern route
      ≡ Option.map (finish b) (
          add_loop b.retain route
            (rounds pattern)
            (prelexer_load (prelexer_init zero_prelexer b.param_syntax) pattern)
            b.root
            (tables_of b w))
unfolding builder_add_route
started b w pattern route usable =
    ap
      (λ (corrupted : Bool).
        if corrupted
        then some (builder_corrupted, b, w)
        else Option.map (finish b) (
            add_loop b.retain route (rounds pattern)
              (prelexer_load (prelexer_init zero_prelexer b.param_syntax) pattern) b.root
              (tables_of b w)))
      usable

-- On a builder that is not corrupted, whose tables hold different null-terminated strings and whose
-- tree takes its names, different ones at each node, from them, wrouter_add_route comes to an end
-- for every pattern. It gives WROUTER_OK, and the route is in the tree of a builder that is such a
-- builder again, and its context is retained; or it gives an error, and the builder is corrupted
-- and nothing is retained.
pub wrouter_add_route_lem :
    (b : Builder) (w : World) (pattern : Option Bytes) (route : Route)
    → IsIntact b
    → b.corrupted ≡ false
    → (r : Error × Builder × World) × (wrouter_add_route b w pattern route ≡ some r)
      × Ends b w pattern route r
unfolding wrouter_add_route pattern_of
wrouter_add_route_lem b w pattern route intact usable =
    let lx = prelexer_load (prelexer_init zero_prelexer b.param_syntax) pattern in
    let (a, done, out) =
      add_loop_lem b.retain route (enough pattern) lx b.root (tables_of b w)
        (record { literals = intact.literals; params = intact.params })
        (unread-load (prelexer_init zero_prelexer b.param_syntax) pattern) in
    let b' : Builder = record b {
      root = a.node;
      literals = a.tables.literals;
      params = a.tables.params;
    } in
    let run =
      ap (λ f. add_loop b.retain route f lx b.root (tables_of b w)) (rounds-enough pattern)
      ∙ done in
    (
      mark (a.err, b', a.tables.world),
      ap (Option.map mark) (started b w pattern route usable ∙ ap (Option.map (finish b)) run),
      elim out [
        | inl failed ↦
            subst (Ends b w pattern route) (sym (mark_failed a.err b' a.tables.world failed.err)) (
              inr (
                failed.err,
                record { corrupted = refl; retained = failed.retained; released = failed.released },
              ))
        | inr (ps, e, read, put) ↦
            subst (λ err. Ends b w pattern route (mark (err, b', a.tables.world))) (sym put.err)
              (inl (
                refl,
                record {
                  pieces = ps;
                  ending = e;
                  read = read;
                  inserts = put.inserts;
                  intact = record {
                    literals = put.ready.literals;
                    params = put.ready.params;
                    tree = put.tree intact.tree;
                  };
                  usable = usable;
                  retain = refl;
                  release = refl;
                  fallback = refl;
                  param_syntax = refl;
                  retained = put.retained;
                  released = put.released;
                },
              ))
      ],
    )

module _ (b b' : Builder) (w w' : World) (pattern : Option Bytes) (route : Route)
    (intact : IsIntact b) (usable : b.corrupted ≡ false) where
  Ends-of :
      (err : Error)
      → wrouter_add_route b w pattern route ≡ some (err, b', w')
      → Ends b w pattern route (err, b', w')
  Ends-of err e =
      let (r, done, ends) = wrouter_add_route_lem b w pattern route intact usable in
      subst (Ends b w pattern route) (some-injective r (err, b', w') (sym done ∙ e)) ends

  pub Adds-of :
      wrouter_add_route b w pattern route ≡ some (ok, b', w') → Adds b w pattern route b' w'
  Adds-of e = elim (Ends-of ok e) [ inl (_, adds) ↦ adds | inr (ne, _) ↦ absurd (ne refl) ]

  pub Rejects-of :
      (err : Error)
      → err ≢ ok
      → wrouter_add_route b w pattern route ≡ some (err, b', w')
      → Rejects w b' w'
  Rejects-of err ne e = elim (Ends-of err e) [
    | inl (fine, _) ↦ absurd (ne fine)
    | inr (_, rejects) ↦ rejects
  ]

-- The map from patterns to routes, changed at one pattern, which had no route.
pub record Updates (n n' : Node) (p : Pattern) (route : Route) : Type 0 where
  pub fresh : route_at p.0 p.1 n ≡ none
  pub found : route_at p.0 p.1 n' ≡ some route
  pub others : (q : Pattern) → Other p.0 p.1 q.0 q.1 → route_at q.0 q.1 n' ≡ route_at q.0 q.1 n

-- Where wrouter_add_route gives WROUTER_OK, on a builder that is intact (its tables and its tree
-- are well-formed) and not corrupted, the string is a pattern; the tree had no route for it, has
-- the added one now, and has for every other pattern the route that it had.
pub wrouter_add_route-Updates :
    (b b' : Builder) (w w' : World) (pattern : Option Bytes) (route : Route)
    → IsIntact b
    → b.corrupted ≡ false
    → wrouter_add_route b w pattern route ≡ some (ok, b', w')
    → (p : Pattern) × (pattern_of b.param_syntax pattern ≡ some p) × Updates b.root b'.root p route
wrouter_add_route-Updates b b' w w' pattern route intact usable e =
    let adds = Adds-of b b' w w' pattern route intact usable e in
    (
      (adds.pieces, adds.ending),
      adds.read,
      record {
        fresh = Inserts-fresh adds.inserts;
        found = Inserts-found adds.inserts;
        others = λ q o. Inserts-others adds.inserts q.0 q.1 o;
      },
    )

-- Where wrouter_add_route gives WROUTER_OK, on an intact builder that is usable, the builder is intact
-- and usable afterwards.
pub wrouter_add_route-IsIntact :
    (b b' : Builder) (w w' : World) (pattern : Option Bytes) (route : Route)
    → IsIntact b
    → b.corrupted ≡ false
    → wrouter_add_route b w pattern route ≡ some (ok, b', w')
    → IsIntact b' × (b'.corrupted ≡ false)
wrouter_add_route-IsIntact b b' w w' pattern route intact usable e =
    let adds = Adds-of b b' w w' pattern route intact usable e in (adds.intact, adds.usable)

blocked :
    (b : Builder) (w : World) (pattern : Option Bytes) (route : Route)
    → b.corrupted ≡ true
    → wrouter_add_route b w pattern route ≡ some (builder_corrupted, b, w)
unfolding wrouter_add_route builder_add_route
blocked b w pattern route shut =
    ap
      (λ (corrupted : Bool). Option.map mark (
        if corrupted
        then some (builder_corrupted, b, w)
        else Option.map (finish b) (
            add_loop b.retain route (rounds pattern)
              (prelexer_load (prelexer_init zero_prelexer b.param_syntax) pattern) b.root
              (tables_of b w))))
      shut
    ∙ ap (λ (corrupted : Bool). some (builder_corrupted, record b { corrupted = corrupted }, w))
        (sym shut)

-- After an error of wrouter_add_route, on a builder that was intact (its tables and its tree were
-- well-formed) and not corrupted, every further call gives WROUTER_ERR_BUILDER_CORRUPTED and
-- changes nothing.
pub wrouter_add_route_again :
    (b b' : Builder) (w w' v : World) (err : Error) (pattern next : Option Bytes)
    (route more : Route)
    → IsIntact b
    → b.corrupted ≡ false
    → err ≢ ok
    → wrouter_add_route b w pattern route ≡ some (err, b', w')
    → wrouter_add_route b' v next more ≡ some (builder_corrupted, b', v)
wrouter_add_route_again b b' w w' v err pattern next route more intact usable ne e =
    blocked b' v next more (Rejects-of b b' w w' pattern route intact usable err ne e).corrupted
