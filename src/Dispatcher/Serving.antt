-- ===== src/Dispatcher/Serving.antt =====
-- The dispatchers that a client can have: created for a router, after any requests.

use mathlib.Core.Path.{subst}
use mathlib.Core.Option.{some-injective}
use libwrouter.Base.{
  ℕ, ◌≡◌, refl, sym, ◌∙◌, ap, inl, inr, Option, none, some, Option-cases, Bool-cases, ◌==◌, ==_iff,
}
use libwrouter.Memory.{malloc}
use libwrouter.Text.{Bytes}
use libwrouter.World.{World, returns, Run-cases, returns_injective}
use libwrouter.Lexer.{Lexer, lexer_load}
use libwrouter.Params.{Params, params_alloc, reset}
use libwrouter.Router.{Router, Match, route_match}
use libwrouter.Router.Step.{seen, view}
use libwrouter.Router.Tree.{Outcome}
use libwrouter.Dispatcher.{
  Dispatcher, Call, wrouter_dispatcher_create, wrouter_ndispatch, wrouter_nresolve, matched,
}
use libwrouter.Dispatcher.Capacity.{IsKept}

-- `Serving r d`: a dispatcher is created for the router, and takes requests; it becomes `d`.
pub data Serving (r : Router) : Dispatcher → Type 0 where
  opened :
      (d : Dispatcher) (w w' : World) → wrouter_dispatcher_create r w ≡ (some d, w') → Serving r d
  dispatched :
      (d d' : Dispatcher) (path : Option Bytes) (call : Option Call)
      → Serving r d
      → wrouter_ndispatch d path ≡ some (returns (call, d'))
      → Serving r d'
  resolved :
      (d d' : Dispatcher) (path : Option Bytes) (ctx : ℕ)
      → Serving r d
      → wrouter_nresolve d path ≡ some (returns (ctx, d'))
      → Serving r d'

-- The router that it was made for, and the cells for the parameters.
pub record IsRoomy (r : Router) (d : Dispatcher) : Type 0 where
  pub router : d.router ≡ r
  pub capacity : d.params.capacity ≡ r.max_params

-- The match behind a request that comes to an end.
abbrev pub Matched : Dispatcher → Option Bytes → Dispatcher → Type 0
Matched d path d' =
    (m : Match) × (route_match d.router (lexer_load path) d.params ≡ some (returns m))
    × (matched d m ≡ d')

module _ (d d' : Dispatcher) (path : Option Bytes) where
  wrouter_ndispatch-Matched :
      (call : Option Call)
      → wrouter_ndispatch d path ≡ some (returns (call, d'))
      → Matched d path d'
  unfolding wrouter_ndispatch
  wrouter_ndispatch-Matched call e =
      elim (Option-cases (route_match d.router (lexer_load path) d.params)) [
        | inl p ↦ cc (rw (p, wrouter_ndispatch) at e)
        | inr (x, p) ↦ elim (Run-cases x) [
          | inl q ↦ cc (rw (p, q, wrouter_ndispatch) at e)
          | inr (m, q) ↦
              let run = rw (p, q, wrouter_ndispatch) at e in
              (m, p ∙ ap some q, ap (λ r. r.1) (returns_injective _ _ (some-injective _ _ run)))
        ]
      ]

  pub wrouter_nresolve-Matched :
      (ctx : ℕ) → wrouter_nresolve d path ≡ some (returns (ctx, d')) → Matched d path d'
  unfolding wrouter_nresolve
  wrouter_nresolve-Matched ctx e =
      elim (Option-cases (route_match d.router (lexer_load path) d.params)) [
        | inl p ↦ cc (rw (p, wrouter_nresolve) at e)
        | inr (x, p) ↦ elim (Run-cases x) [
          | inl q ↦ cc (rw (p, q, wrouter_nresolve) at e)
          | inr (m, q) ↦
              let run = rw (p, q, wrouter_nresolve) at e in
              (m, p ∙ ap some q, ap (λ r. r.1) (returns_injective _ _ (some-injective _ _ run)))
        ]
      ]

abbrev made_or : Dispatcher → Option Dispatcher → Dispatcher
made_or d none = d
made_or d (some d') = d'

abbrev alloc_or : Params → Option Params → Params
alloc_or p none = p
alloc_or p (some p') = p'

opened-IsRoomy :
    (r : Router) (d : Dispatcher) (w w' : World)
    → wrouter_dispatcher_create r w ≡ (some d, w')
    → IsRoomy r d
unfolding wrouter_dispatcher_create params_alloc
opened-IsRoomy r d w w' e = elim (Option-cases (malloc w.mem).0) [
  | inl p ↦ cc (ap (λ x. x.0) (rw (p, wrouter_dispatcher_create) at e))
  | inr (a, p) ↦ elim (Bool-cases (r.max_params == 0)) [
    | inl z ↦
        let same = ap (λ x. made_or d x.0) (rw (p, z, wrouter_dispatcher_create) at e) in
        subst (IsRoomy r) same
          (record { router = refl; capacity = sym ((==_iff r.max_params 0).0 z) })
    | inr nz ↦ elim (Option-cases (malloc (malloc w.mem).1).0) [
      | inl q ↦ cc (ap (λ x. x.0) (rw (p, nz, q, wrouter_dispatcher_create, params_alloc) at e))
      | inr (b, q) ↦
          let same =
            ap (λ x. made_or d x.0) (rw (p, nz, q, wrouter_dispatcher_create, params_alloc) at e) in
          subst (IsRoomy r) same (record { router = refl; capacity = refl })
    ]
  ]
]

-- Every request on the router has an outcome that keeps the cells.
abbrev pub Keeping : Router → Type 0
Keeping r =
    (lx : Lexer) (p : Params)
    → (o : Outcome) × (seen (route_match r lx p) ≡ some o) × IsKept (reset p) o

module _ (r : Router) (keeping : Keeping r) where
  Matched-IsRoomy :
      (d d' : Dispatcher) (path : Option Bytes) → IsRoomy r d → Matched d path d' → IsRoomy r d'
  Matched-IsRoomy d d' path roomy (m, e, same) =
      let (o, k, kept) = keeping (lexer_load path) d.params in
      let run : some (view (returns m)) ≡ some o =
        sym (ap seen e)
        ∙ ap (λ x. seen (route_match x (lexer_load path) d.params)) roomy.router
        ∙ k in
      let fits : m.params.capacity ≡ d.params.capacity =
        subst (IsKept (reset d.params)) (sym (some-injective _ _ run)) kept in
      subst (IsRoomy r) same (record { router = roomy.router; capacity = fits ∙ roomy.capacity })

  pub Serving-IsRoomy : {d : Dispatcher} → Serving r d → IsRoomy r d
  Serving-IsRoomy (opened d w w' e) = opened-IsRoomy r d w w' e
  Serving-IsRoomy (dispatched d d' path call h e) =
      Matched-IsRoomy d d' path (Serving-IsRoomy h) (wrouter_ndispatch-Matched d d' path call e)
  Serving-IsRoomy (resolved d d' path ctx h e) =
      Matched-IsRoomy d d' path (Serving-IsRoomy h) (wrouter_nresolve-Matched d d' path ctx e)
