-- ===== src/Dispatcher/Service.antt =====
-- From the routes that are added to a builder to the answers of a dispatcher of its router.

use mathlib.Core.Option.{some-injective}
use libwrouter.Base.{
  ℕ, ◌≡◌, ◌≢◌, refl, sym, ◌∙◌, ap, ◌⊎◌, inl, inr, List, Option, none, some, true, arith,
  Option-cases,
}
use libwrouter.Text.{Bytes}
use libwrouter.World.{World, Run, returns, crashes, Run-cases, returns_injective}
use libwrouter.Token.{Token, TokenType}
use libwrouter.Lexer.{Lexer, lexer_load}
use libwrouter.Lexer.Stream.{stream}
use libwrouter.Route.{Route}
use libwrouter.Params.{Param, Params, reset}
use libwrouter.Prelexer.{ParamSyntax}
use libwrouter.Prelexer.Pattern.{rest, Pattern}
use libwrouter.Graph.Stats.{zero_stats}
use libwrouter.Graph.Depth.{graph_stats-captured}
use libwrouter.Router.{Router, Match, route_match, rounds}
use libwrouter.Router.Step.{seen}
use libwrouter.Router.Refine.{walk_stream}
use libwrouter.Router.Instance.{Reads, Spoils, values, filled_by, found, tree_walk-Reads}
use libwrouter.Router.Plain.{tree_walk-Comes}
use libwrouter.Router.Answers.{tree_walk-Answers}
use libwrouter.Builder.{Builder}
use libwrouter.Builder.Api.{Options}
use libwrouter.Builder.Built.{Calls, Built, Built-IsFaithful}
use libwrouter.Builder.Listed.{Listed, route_at-Built}
use libwrouter.Builder.Exclusive.{Built-IsExclusive}
use libwrouter.Compiler.{Compiled, wrouter_compile}
use libwrouter.Compiler.Pipeline.{wrouter_compile-route_match}
use libwrouter.Compiler.Settings.{wrouter_compile-HasSettings}
use libwrouter.Dispatcher.{
  Dispatcher, call_of, or_fallback, matched, wrouter_ndispatch, wrouter_nresolve,
}
use libwrouter.Dispatcher.Capacity.{tree_walk-IsKept}
use libwrouter.Dispatcher.Serving.{Serving, IsRoomy, Keeping, Serving-IsRoomy}

-- The tokens of a request.
abbrev pub tokens : Option Bytes → List Token × TokenType × Lexer
tokens path = stream (rounds (lexer_load path)) (lexer_load path)

-- The request is an instance of the pattern.
abbrev pub IsInstance : Pattern → Option Bytes → Type 0
IsInstance p path = Reads p.0 p.1 (tokens path).0 (tokens path).1

-- The parameters that an instance gives.
abbrev pub values_of : Pattern → Option Bytes → List Param
values_of p path = values p.0 (tokens path).0

-- A pattern under which a route with this context was added, and of which the request is an instance.
abbrev pub HasContext : ParamSyntax → Calls → Option Bytes → ℕ → Type 0
HasContext syntax calls path x =
    (p : Pattern) × (route : Route) × Listed syntax calls p route
    × IsInstance p path
    × (route.ctx ≡ x)

-- What may be answered.
abbrev pub IsJustified : Options → Calls → Option Bytes → Run (ℕ × Dispatcher) → Type 0
IsJustified o calls path crashes = Unit
IsJustified o calls path (returns (x, d)) =
    HasContext o.param_syntax calls path x ⊎ (x ≡ o.fallback_ctx)

-- The context is that of a route that was added under a pattern with a wildcard, although the request
-- has an illegal byte or an empty segment: this stands behind a legal segment at the place of the
-- wildcard.
abbrev pub IsSpoiled : ParamSyntax → Calls → Option Bytes → Run (ℕ × Dispatcher) → Type 0
IsSpoiled syntax calls path crashes = ⊥
IsSpoiled syntax calls path (returns (x, d)) =
    (p : Pattern) × (route : Route) × Listed syntax calls p route
    × (p.1 ≡ rest)
    × Spoils p.0 (tokens path).0 (tokens path).1
    × (route.ctx ≡ x)

-- The outcomes of a request, the last against the documentation.
abbrev pub IsExplained : Options → Calls → Option Bytes → Run (ℕ × Dispatcher) → Type 0
IsExplained o calls path x = IsJustified o calls path x ⊎ IsSpoiled o.param_syntax calls path x

seen_returns :
    (x : Option (Run Match)) (t : Option Route) (p : Params)
    → seen x ≡ some (returns (t, p))
    → (m : Match) × (x ≡ some (returns m)) × (m.route ≡ t) × (m.params ≡ p)
seen_returns none t p e = absurd cc
seen_returns (some crashes) t p e = absurd cc
seen_returns (some (returns m)) t p e =
    let same = returns_injective _ _ (some-injective _ _ e) in
    (m, refl, ap (λ y. y.0) same, ap (λ y. y.1) same)

module _ (o : Options) (v : World) (calls : Calls) (b : Builder) (w u : World) (c : Compiled)
    (d : Dispatcher) (r : Router) (built : Built o v calls b w)
    (compiled : wrouter_compile (some b) true u ≡ returns c) (made : c.router ≡ some r)
    (serving : Serving r d) where
  walk :
      (lx : Lexer) (p : Params)
      → seen (route_match r lx p) ≡ some (walk_stream (stream (rounds lx) lx) b.root none (reset p))
  walk lx p =
      wrouter_compile-route_match b u c r lx p (Built-IsFaithful o v built).intact compiled made

  keeping : Keeping r
  keeping lx p = (
    _,
    walk lx p,
    tree_walk-IsKept (stream (rounds lx) lx).0 (stream (rounds lx) lx).1 b.root none (reset p),
  )

  roomy : IsRoomy r d
  roomy = Serving-IsRoomy r keeping serving

  walk_here :
      (path : Option Bytes)
      → seen (route_match d.router (lexer_load path) d.params)
        ≡ some (walk_stream (tokens path) b.root none (reset d.params))
  walk_here path =
      ap (λ x. seen (route_match x (lexer_load path) d.params)) roomy.router
      ∙ walk (lexer_load path) d.params

  matches :
      (path : Option Bytes) (p : Pattern) (route : Route)
      → Listed o.param_syntax calls p route
      → p.1 ≢ rest
      → IsInstance p path
      → (m : Match) × (route_match d.router (lexer_load path) d.params ≡ some (returns m))
        × (m.route ≡ some route)
        × (m.params ≡ filled_by (reset d.params) (values_of p path))
  matches path p route listed ne instance_of =
      let there = (route_at-Built o v built p route).1 listed in
      let enough = graph_stats-captured p.0 p.1 b.root zero_stats route (omega arith) there in
      let settings =
        wrouter_compile-HasSettings b (Built-IsFaithful o v built).intact u c r compiled made in
      seen_returns (route_match d.router (lexer_load path) d.params) (some route) _ (
        walk_here path
        ∙ ap some (
            tree_walk-Reads p.0 p.1 (tokens path).0 (tokens path).1 b.root none (reset d.params)
              route (Built-IsExclusive built) ne there instance_of
              (omega (arith, enough, settings.0, roomy.capacity))))

  justified :
      (path : Option Bytes) (m : Match) (route : Option Route)
      → m.route ≡ route
      → seen (some (returns m)) ≡ some (walk_stream (tokens path) b.root none (reset d.params))
      → IsExplained o calls path (returns ((or_fallback d m.route).ctx, matched d m))
  justified path m none e h =
      let settings =
        wrouter_compile-HasSettings b (Built-IsFaithful o v built).intact u c r compiled made in
      inl (
        inr (
          ap (λ t. (or_fallback d t).ctx) e
          ∙ ap (λ (x : Router). x.fallback.ctx) roomy.router
          ∙ ap (λ (x : Route). x.ctx) (settings.1 ∙ (Built-IsFaithful o v built).fallback)))
  justified path m (some route) e h =
      let walked : found (walk_stream (tokens path) b.root none (reset d.params)) ≡ some route =
        ap found (sym (some-injective _ _ h)) ∙ e in
      elim (tree_walk-Answers (tokens path).0 (tokens path).1 b.root none (reset d.params) route
        walked) [
          | inl (p, there, takes) ↦
              let listed = (route_at-Built o v built p route).0 there in
              let ctx = sym (ap (λ t. (or_fallback d t).ctx) e) in
              elim takes [
                | inl instance_of ↦ inl (inl (p, route, listed, instance_of, ctx))
                | inr (wildcard, spoils) ↦ inr (p, route, listed, wildcard, spoils, ctx)
              ]
          | inr never ↦ absurd never
        ]

  -- Where a builder is created, routes are added to it with WROUTER_OK, the router is compiled, a
  -- dispatcher is created for it, and then requests are dispatched and resolved: for a request that is
  -- an instance of a pattern without a wildcard under which a route was added, wrouter_resolve gives the
  -- context of this route, reads through no NULL pointer and writes to no cell behind the parameters,
  -- and the dispatcher then has the parameters of the instance.
  pub wrouter_nresolve-Listed :
      (path : Option Bytes) (p : Pattern) (route : Route)
      → Listed o.param_syntax calls p route
      → p.1 ≢ rest
      → IsInstance p path
      → (d' : Dispatcher) × (wrouter_nresolve d path ≡ some (returns (route.ctx, d')))
        × (d'.params.base ≡ values_of p path)
  unfolding wrouter_nresolve
  wrouter_nresolve-Listed path p route listed ne instance_of =
      let (m, e, k, params) = matches path p route listed ne instance_of in
      (
        matched d m,
        rw (e, wrouter_nresolve) (ap (λ t. some (returns ((or_fallback d t).ctx, matched d m))) k),
        ap (λ (x : Params). x.base) params,
      )

  -- Where a builder is created, routes are added to it with WROUTER_OK, the router is compiled, a
  -- dispatcher is created for it, and then requests are dispatched and resolved: for a request that
  -- is an instance of a pattern without a wildcard under which a route was added, wrouter_dispatch
  -- calls the handler of this route, if it has one, with its context and the parameters of the
  -- instance.
  pub wrouter_ndispatch-Listed :
      (path : Option Bytes) (p : Pattern) (route : Route)
      → Listed o.param_syntax calls p route
      → p.1 ≢ rest
      → IsInstance p path
      → (d' : Dispatcher) × (wrouter_ndispatch d path
          ≡ some (returns (call_of route d'.params, d')))
        × (d'.params.base ≡ values_of p path)
  unfolding wrouter_ndispatch
  wrouter_ndispatch-Listed path p route listed ne instance_of =
      let (m, e, k, params) = matches path p route listed ne instance_of in
      (
        matched d m,
        rw (e, wrouter_ndispatch)
            (ap (λ t. some (returns (call_of (or_fallback d t) m.params, matched d m))) k),
        ap (λ (x : Params). x.base) params,
      )

  -- Where a builder is created, routes are added to it with WROUTER_OK, the router is compiled, a
  -- dispatcher is created for it, and then requests are dispatched and resolved: wrouter_resolve
  -- comes to an end for every request, and unless it writes behind the parameters, what it gives is
  -- the context of a route that was added under a pattern of which the request is an instance, or
  -- that of the fallback, or, for a request with an illegal byte or an empty segment, that of a
  -- route added under a pattern with a wildcard, at whose place the request has a legal segment
  -- before the illegal part. The README says that a path with query parameters, which has such a
  -- byte, does not match.
  pub wrouter_nresolve-IsExplained :
      (path : Option Bytes)
      → (x : Run (ℕ × Dispatcher)) × (wrouter_nresolve d path ≡ some x) × IsExplained o calls path x
  unfolding wrouter_nresolve
  wrouter_nresolve-IsExplained path =
      elim (Option-cases (route_match d.router (lexer_load path) d.params)) [
        | inl e ↦ cc (sym (ap seen e) ∙ walk_here path)
        | inr (x, e) ↦ elim (Run-cases x) [
          | inl k ↦ (crashes, rw (e, k, wrouter_nresolve) refl, inl tt)
          | inr (m, k) ↦ (
            returns ((or_fallback d m.route).ctx, matched d m),
            rw (e, k, wrouter_nresolve) refl,
            justified path m m.route refl (sym (ap seen (e ∙ ap some k)) ∙ walk_here path),
          )
        ]
      ]

  -- Where a builder is created, routes are added to it with WROUTER_OK, the router is compiled, a
  -- dispatcher is created for it, and then requests are dispatched and resolved: if no route was
  -- added under a pattern with a wildcard, wrouter_resolve comes to an end for every request, writes
  -- to no cell behind the parameters, and gives the context of a route that was added under a
  -- pattern of which the request is an instance, or that of the fallback.
  pub wrouter_nresolve_plain :
      (path : Option Bytes)
      → ((p : Pattern) (route : Route) → Listed o.param_syntax calls p route → p.1 ≢ rest)
      → (x : ℕ) × (d' : Dispatcher) × (wrouter_nresolve d path ≡ some (returns (x, d')))
        × IsJustified o calls path (returns (x, d'))
  unfolding wrouter_nresolve
  wrouter_nresolve_plain path no_wildcard =
      let settings =
        wrouter_compile-HasSettings b (Built-IsFaithful o v built).intact u c r compiled made in
      let (t, p, walked) =
        tree_walk-Comes (tokens path).0 (tokens path).1 b.root zero_stats (reset d.params)
          (λ ps route e.
            no_wildcard (ps, rest) route ((route_at-Built o v built (ps, rest) route).0 e) refl)
          (omega arith) (omega arith) (omega (arith, settings.0, roomy.capacity)) in
      let (m, e, k, params) =
        seen_returns (route_match d.router (lexer_load path) d.params) t p
          (walk_here path ∙ ap some walked) in
      (
        (or_fallback d m.route).ctx,
        matched d m,
        rw (e, wrouter_nresolve) refl,
        elim (justified path m m.route refl (sym (ap seen e) ∙ walk_here path)) [
          | inl just ↦ just
          | inr (q, route, listed, wildcard, spoils, ctx) ↦
              absurd (no_wildcard q route listed wildcard)
        ],
      )
