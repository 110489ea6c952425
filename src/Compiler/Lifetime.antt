-- ===== src/Compiler/Lifetime.antt =====
-- The contexts that wrouter_compile retains for the router, and the life of a builder and its router.
use mathlib.Core.Path.{subst}
use libwrouter.Base.{
  Option, none, ℕ, ◌+◌, ◌≡◌, refl, sym, ◌∙◌, ap, inl, inr, true, List, ◌++◌, Option, some, arith,
}
use libwrouter.World.{World, Run, returns, crashes, Run-cases, returns_injective}
use libwrouter.Route.{call_back}
use libwrouter.Builder.{Builder}
use libwrouter.Builder.Api.{Options}
use libwrouter.Builder.Contract.{IsIntact}
use libwrouter.Builder.Contexts.{times, times-append}
use libwrouter.Builder.Built.{Calls, Built, Built-IsFaithful, wrouter_builder_free-Built}
use libwrouter.Router.{Router, wrouter_free}
use libwrouter.Router.Release
use libwrouter.Router.Release.{IsOwner, wrouter_free-IsPaired}
use libwrouter.Compiler.{Compiled, run_graph, wrouter_compile, wrouter_consume}
use libwrouter.Compiler.Outcome.{IsFilled, Finish, ensured, ready}
use libwrouter.Compiler.Pipeline.{IsFilled-of}

-- wrouter_free makes these calls of the release callback, and no other change.
abbrev pub Releases : Option Router → World → List ℕ → Type 0
Releases r u calls = wrouter_free r u ≡ returns (record u { released = u.released ++ calls })

-- The contexts retained for the router are those that freeing it releases.
abbrev pub IsPaired : List ℕ → List ℕ → Router → World → Type 0
IsPaired retained released r w =
    (calls : List ℕ) × (w.retained ≡ retained ++ calls)
    × (w.released ≡ released)
    × ((u : World) → Releases (some r) u calls)

module _ (b : Builder) (intact : IsIntact b) (retains : b.retain ≡ true)
    (releases : b.release ≡ true) (w : World) where
  abbrev filled_literals : IsFilled b.literals
  filled_literals = IsFilled-of b.literals intact.literals

  abbrev filled_params : IsFilled b.params
  filled_params = IsFilled-of b.params intact.params

  IsPaired-run_graph :
      Finish
        (IsPaired w.retained w.released)
        b
        filled_literals
        filled_params
        (call_back b.retain w.retained b.fallback.ctx)
        w.released
  unfolding run_graph
  IsPaired-run_graph L P mem cl cp small few =
      let r =
        ready (IsPaired w.retained w.released) b filled_literals filled_params
          (call_back b.retain w.retained b.fallback.ctx) w.released L P in
      let owner : IsOwner r = record {
        retains = retains;
        releases = releases;
        literals = cl.owned;
        params = cp.owned;
      } in
      let before = call_back b.retain w.retained b.fallback.ctx in
      let (calls, retained, freed) =
        subst (Release.IsPaired r b.root w.retained)
          (sym (ap (λ has. call_back has w.retained b.fallback.ctx) retains))
          (wrouter_free-IsPaired r b.root w.retained owner) in
      (calls, retained, refl, freed)

-- For a router that wrouter_compile returns, of an intact builder with both callbacks: in any later
-- world wrouter_free hands to the release callback the contexts that were
-- retained for the router, each as often, in the same order, and reads through no NULL pointer and
-- frees nothing twice.
pub wrouter_free-wrouter_compile :
    (b : Builder) (w : World) (c : Compiled) (r : Router)
    → IsIntact b
    → b.retain ≡ true
    → b.release ≡ true
    → wrouter_compile (some b) true w ≡ returns c
    → c.router ≡ some r
    → IsPaired w.retained w.released r c.world
wrouter_free-wrouter_compile b w c r intact retains releases e f =
    ensured (IsPaired w.retained w.released) b (filled_literals b intact retains releases w)
      (filled_params b intact retains releases w) w (IsPaired-run_graph b intact retains releases w)
      c r e f

-- The calls of both callbacks, since the world `v`, name each context equally often.
abbrev pub IsSettled : World → World → Type 0
IsSettled v u =
    (x : ℕ) → times x u.retained + times x v.released ≡ times x v.retained + times x u.released

-- The end of wrouter_consume, behind wrouter_builder_free.
abbrev pub settled : Compiled → Run World → Run Compiled
settled c freed =
    let destroyed : Run (Option Builder × World) = elim freed [
      | crashes ↦ crashes
      | returns w ↦ returns (none, w)
    ] in
    elim destroyed [ crashes ↦ crashes | returns (_, w) ↦ returns (record c { world = w }) ]

-- The whole life of a builder and its router: for a builder that wrouter_builder_create made with both
-- callbacks, and that only calls of wrouter_add_route with WROUTER_OK have changed, and a router that
-- wrouter_consume returns for it, wrouter_free comes to an end without a NULL pointer read or memory
-- freed twice, and then each context has been released as often as it has been retained.
pub wrouter_consume-IsSettled :
    (o : Options) (v : World) (added : Calls) (b : Builder) (w : World) (c : Compiled) (r : Router)
    → Built o v added b w
    → o.retain ≡ true
    → o.release ≡ true
    → wrouter_consume (some b) true w ≡ returns c
    → c.router ≡ some r
    → (u : World) × (wrouter_free (some r) c.world ≡ returns u) × IsSettled v u
unfolding wrouter_consume
wrouter_consume-IsSettled o v added b w c r h retains releases e k =
    let f = Built-IsFaithful o v h in
    elim (Run-cases (wrouter_compile (some b) true w)) [
      | inl p ↦ cc (rw (p, wrouter_consume) at e)
      | inr (d, p) ↦
          let (freed, frees, paid) =
            wrouter_builder_free-Built o v added b w d.world h retains releases in
          let same : record d { world = record d.world { released = d.world.released ++ freed } }
              ≡ c =
            returns_injective _ c (sym (ap (settled d) frees) ∙ rw (p, wrouter_consume) at e) in
          let (calls, kept, others, releases_all) =
            wrouter_free-wrouter_compile b w d r f.intact (f.retain ∙ retains)
              (f.release ∙ releases) p (ap (λ (x : Compiled). x.router) same ∙ k) in
          (
            record c.world { released = c.world.released ++ calls },
            releases_all c.world,
            λ x. omega (
              arith,
              paid x,
              times-append x w.retained calls,
              times-append x d.world.released freed,
              times-append x c.world.released calls,
              ap (times x) kept,
              ap (times x) others,
              ap (times x) f.released,
              ap (λ (y : Compiled). times x y.world.retained) same,
              ap (λ (y : Compiled). times x y.world.released) same,
            ),
          )
    ]
