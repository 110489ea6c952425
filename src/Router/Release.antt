-- ===== src/Router/Release.antt =====
-- wrouter_free against the calls of the retain callback in graph_compile.
use mathlib.Core.Path.{subst}
use libwrouter.Base.{
  append_assoc, append-nil, ℕ, ◌≡◌, refl, sym, ◌∙◌, ap, List, [], ◌∷◌, ◌++◌, true, false, some, map,
}
use libwrouter.World.{World, returns}
use libwrouter.Route.{Route}
use libwrouter.Segment.{Node}
use libwrouter.Graph.Compile.{graph_compile}
use libwrouter.Graph.Retain.{contexts, IsBalanced, graph_compile-IsBalanced}
use libwrouter.Router.{Router, wrouter_free}
use libwrouter.Router.Refine.{with_graph, origin}

map-contexts : (rs : List Route) → map (λ (t : Route). t.ctx) rs ≡ contexts rs
map-contexts [] = refl
map-contexts (r ∷ rs) = ap (λ l. r.ctx ∷ l) (map-contexts rs)

frees :
    (r : Router) (w : World)
    → r.literals.freed ≡ false
    → r.params.freed ≡ false
    → r.terminals.freed ≡ false
    → r.release ≡ true
    → wrouter_free (some r) w
      ≡ returns (record w { released = w.released ++ r.fallback.ctx ∷ contexts r.terminals.base })
unfolding wrouter_free
frees r w l p t e = rw (l, p, t, e, map-contexts r.terminals.base, wrouter_free) refl

-- A router as it is before its graph is compiled, with both callbacks and its own symbol lists.
pub record IsOwner (r : Router) : Type 0 where
  pub retains : r.retain ≡ true
  pub releases : r.release ≡ true
  pub literals : r.literals.freed ≡ false
  pub params : r.params.freed ≡ false

-- graph_compile, from these calls of the retain callback on, adds those that freeing the router makes.
abbrev pub IsPaired : Router → Node → List ℕ → List ℕ → Type 0
IsPaired r n earlier before =
    (calls : List ℕ) × ((graph_compile r.literals r.params r.retain n (origin before)).retained
      ≡ earlier ++ calls)
    × ((w : World)
        → wrouter_free (some (with_graph r n before)) w
          ≡ returns (record w { released = w.released ++ calls }))

pub wrouter_free-IsPaired :
    (r : Router) (n : Node) (earlier : List ℕ)
    → IsOwner r
    → IsPaired r n earlier (earlier ++ r.fallback.ctx ∷ [])
wrouter_free-IsPaired r n earlier owner =
    let before = earlier ++ r.fallback.ctx ∷ [] in
    let s = graph_compile r.literals r.params r.retain n (origin before) in
    let (retained, kept) : IsBalanced before s =
      subst (λ ret. IsBalanced before (graph_compile r.literals r.params ret n (origin before)))
        (sym owner.retains)
        (graph_compile-IsBalanced r.literals r.params before n (origin before)
          (sym (append-nil before), refl)) in
    (
      r.fallback.ctx ∷ contexts s.terminals.base,
      retained ∙ append_assoc earlier (r.fallback.ctx ∷ []) (contexts s.terminals.base),
      λ w. frees (with_graph r n before) w owner.literals owner.params kept owner.releases,
    )
