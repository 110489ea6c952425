-- ===== src/Builder/Built.antt =====
-- The builders that a client can have: created by wrouter_builder_create, and filled by calls of
-- wrouter_add_route that succeed.
use mathlib.Core.Path.{subst}
use libwrouter.Base.{
  ℕ, ◌+◌, ◌≡◌, refl, sym, ◌∙◌, ap, inl, inr, List, [], ◌∷◌, ◌++◌, Bool, true, false, Option, none,
  some, arith, Option-cases, Bool-cases, if◌then◌else◌,
}
use libwrouter.Text.{Bytes}
use libwrouter.Memory.{malloc}
use libwrouter.World.{World, Run, returns, crashes}
use libwrouter.Errors.{ok}
use libwrouter.Route.{Route, call_back}
use libwrouter.Symbol.Append.{empty_table-IsTable}
use libwrouter.Segment.{empty_node, segment_release}
use libwrouter.Segment.Shape.{empty_node-IsTree}
use libwrouter.Builder.{Builder}
use libwrouter.Builder.Api.{
  Options, fresh_builder, wrouter_builder_create, wrouter_add_route, wrouter_builder_free,
  builder_release,
}
use libwrouter.Builder.Contract.{IsIntact, Adds-of}
use libwrouter.Builder.Contexts.{
  hit, times, times-append, node_times, segment_release-Calls, node_times-Inserts,
}

-- The routes that have been added, with the strings given for them, the last one first.
abbrev pub Calls : Type 0
Calls = List (Option Bytes × Route)

-- `Built o v calls b w`: from the world `v` on, a builder is created with the options `o`, and routes
-- are added; it becomes `b` and the world `w`.
pub data Built (o : Options) (v : World) : Calls → Builder → World → Type 0 where
  created :
      (b : Builder) (w : World)
      → wrouter_builder_create o v ≡ returns (some b, w)
      → Built o v [] b w
  filled :
      (calls : Calls) (b b' : Builder) (w w' : World) (pattern : Option Bytes) (route : Route)
      → Built o v calls b w
      → wrouter_add_route b w pattern route ≡ some (ok, b', w')
      → Built o v ((pattern, route) ∷ calls) b' w'

-- An intact builder with the settings of its options, and the calls of the retain callback: one for
-- the fallback's context and one for that of each route.
pub record IsFaithful (o : Options) (v : World) (b : Builder) (w : World) : Type 0 where
  pub intact : IsIntact b
  pub usable : b.corrupted ≡ false
  pub retain : b.retain ≡ o.retain
  pub release : b.release ≡ o.release
  pub param_syntax : b.param_syntax ≡ o.param_syntax
  pub fallback : b.fallback ≡ record { handler = o.fallback_handler; ctx = o.fallback_ctx }
  pub released : w.released ≡ v.released
  pub retained :
      o.retain ≡ true
      → (c : ℕ)
      → times c w.retained ≡ times c v.retained + node_times c b.root + hit c o.fallback_ctx

times-call_back :
    (has : Bool) (c x : ℕ) (calls : List ℕ)
    → has ≡ true
    → times c (call_back has calls x) ≡ times c calls + hit c x
times-call_back has c x calls e =
    subst (λ h. times c (call_back h calls x) ≡ times c calls + hit c x) (sym e)
      (omega (arith, times-append c calls (x ∷ [])))

some_of : Run (Option Builder × World) → Option Builder
some_of (returns (b, w)) = b
some_of crashes = none

world_of : World → Run (Option Builder × World) → World
world_of v (returns (b, w)) = w
world_of v crashes = v

builder_of : Builder → Option Builder → Builder
builder_of b none = b
builder_of b (some b') = b'

module _ (o : Options) (v : World) where
  empty-IsFaithful :
      (w : World)
      → w.retained ≡ call_back o.retain v.retained o.fallback_ctx
      → w.released ≡ v.released
      → IsFaithful o v (fresh_builder o) w
  unfolding node_times
  empty-IsFaithful w e same = record {
    intact = record {
      literals = empty_table-IsTable;
      params = empty_table-IsTable;
      tree = empty_node-IsTree [] [];
    };
    usable = refl;
    retain = refl;
    release = refl;
    param_syntax = refl;
    fallback = refl;
    released = same;
    retained = λ has c.
        omega (arith, ap (times c) e, times-call_back o.retain c o.fallback_ctx v.retained has);
  }

  -- A builder that is returned is empty, and the context of its fallback has been retained.
  made :
      (b : Builder) (w : World)
      → wrouter_builder_create o v ≡ returns (some b, w)
      → (fresh_builder o ≡ b)
        × (w.retained ≡ call_back o.retain v.retained o.fallback_ctx)
        × (w.released ≡ v.released)
  unfolding wrouter_builder_create some_of world_of builder_of
  made b w e = elim (Option-cases (malloc v.mem).0) [
    | inl p ↦ cc (ap some_of (rw (p, wrouter_builder_create) at e))
    | inr (a, p) ↦ elim (Option-cases (malloc (malloc v.mem).1).0) [
      | inl q ↦ elim (Bool-cases o.release) [
        | inl r ↦ cc (ap some_of (rw (p, q, r, wrouter_builder_create) at e))
        | inr r ↦ cc (ap some_of (rw (p, q, r, wrouter_builder_create) at e))
      ]
      | inr (a', q) ↦
          let run = rw (p, q, wrouter_builder_create) at e in
          (
            ap (λ x. builder_of b (some_of x)) run,
            sym (ap (λ x. (world_of v x).retained) run),
            sym (ap (λ x. (world_of v x).released) run),
          )
    ]
  ]

  pub root-created :
      (b : Builder) (w : World)
      → wrouter_builder_create o v ≡ returns (some b, w)
      → b.root ≡ empty_node
  root-created b w e = sym (ap (λ (x : Builder). x.root) (made b w e).0)

  wrouter_builder_create-IsFaithful :
      (b : Builder) (w : World)
      → wrouter_builder_create o v ≡ returns (some b, w)
      → IsFaithful o v b w
  wrouter_builder_create-IsFaithful b w e =
      let (same, retained, released) = made b w e in
      subst (λ x. IsFaithful o v x w) same (empty-IsFaithful w retained released)

  wrouter_add_route-IsFaithful :
      (b b' : Builder) (w w' : World) (pattern : Option Bytes) (route : Route)
      → IsFaithful o v b w
      → wrouter_add_route b w pattern route ≡ some (ok, b', w')
      → IsFaithful o v b' w'
  wrouter_add_route-IsFaithful b b' w w' pattern route f e =
      let adds = Adds-of b b' w w' pattern route f.intact f.usable e in
      record {
        intact = adds.intact;
        usable = adds.usable;
        retain = adds.retain ∙ f.retain;
        release = adds.release ∙ f.release;
        param_syntax = adds.param_syntax ∙ f.param_syntax;
        fallback = adds.fallback ∙ f.fallback;
        released = adds.released ∙ f.released;
        retained = λ has c. omega (
          arith,
          ap (times c) adds.retained,
          times-call_back b.retain c route.ctx w.retained (f.retain ∙ has),
          f.retained has c,
          node_times-Inserts c adds.inserts,
        );
      }

  pub Built-IsFaithful :
      {calls : Calls} {b : Builder} {w : World} → Built o v calls b w → IsFaithful o v b w
  Built-IsFaithful (created b w e) = wrouter_builder_create-IsFaithful b w e
  Built-IsFaithful (filled calls b b' w w' pattern route h e) =
      wrouter_add_route-IsFaithful b b' w w' pattern route (Built-IsFaithful h) e

-- A builder that wrouter_builder_create made and that only calls of wrouter_add_route with
-- WROUTER_OK have changed is intact and usable: its tables hold different null-terminated strings,
-- at most 65535 each, and its tree takes its names, different ones at each node, from them.
pub Built-IsIntact :
    (o : Options) (v : World) (calls : Calls) (b : Builder) (w : World)
    → Built o v calls b w
    → IsIntact b × (b.corrupted ≡ false)
Built-IsIntact o v calls b w h = let f = Built-IsFaithful o v h in (f.intact, f.usable)

-- wrouter_builder_free makes these calls of the release callback, and no other change.
abbrev pub Frees : Option Builder → World → List ℕ → Type 0
Frees b u calls = wrouter_builder_free b u ≡ returns (record u { released = u.released ++ calls })

-- The end of builder_release.
abbrev freed : World → ℕ → Option (List ℕ) → Run World
freed u x none = crashes
freed u x (some ctxs) = returns (record u { released = u.released ++ (ctxs ++ x ∷ []) })

-- For a builder that wrouter_builder_create made with both callbacks, and that only calls of
-- wrouter_add_route with WROUTER_OK have changed: wrouter_builder_free reads through no NULL pointer,
-- and hands each context to the release callback as often as it was retained for the builder.
pub wrouter_builder_free-Built :
    (o : Options) (v : World) (added : Calls) (b : Builder) (w u : World)
    → Built o v added b w
    → o.retain ≡ true
    → o.release ≡ true
    → (calls : List ℕ) × Frees (some b) u calls
      × ((c : ℕ) → times c w.retained ≡ times c v.retained + times c calls)
unfolding wrouter_builder_free builder_release
wrouter_builder_free-Built o v added b w u h retains releases =
    let f = Built-IsFaithful o v h in
    let (calls, e, often) =
      segment_release-Calls b.literals.base b.params.base b.root f.intact.tree in
    let total = calls ++ b.fallback.ctx ∷ [] in
    (
      total,
      ap (λ (r : Bool). if r then freed u b.fallback.ctx (segment_release b.root) else returns u)
            (f.release ∙ releases)
          ∙ ap (freed u b.fallback.ctx) e,
      λ c. omega (
        arith,
        f.retained retains c,
        often c,
        times-append c calls (b.fallback.ctx ∷ []),
        ap (λ r. hit c r.ctx) f.fallback,
      ),
    )
