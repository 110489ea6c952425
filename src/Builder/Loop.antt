-- ===== src/Builder/Loop.antt =====
-- builder_add_route, from the pattern's string to the tree with the route.

use libwrouter.Base.{ℕ, zero, suc, ◌<◌, ◌≡◌, refl, ap, Bool, none, arith}
use libwrouter.Errors.{illegal_pattern}
use libwrouter.Token.{TokenType}
use libwrouter.Route.{Route}
use libwrouter.Prelexer.{Prelexer, prelexer_next}
use libwrouter.Prelexer.Progress.{unread, has_string, prelexer_next-IsPiece}
use libwrouter.Prelexer.Pattern.{pattern_from}
use libwrouter.Segment.{Node}
use libwrouter.Builder.{Tables, add_loop}
use libwrouter.Builder.Step.{
  IsReady, Result, fails, add_terminal_lem, add_trailing_lem, add_wildcard_lem,
}
use libwrouter.Builder.Descend.{add_literal_lem}
use libwrouter.Builder.Capture.{add_param_lem}

module _ (retain : Bool) (route : Route) where
  -- A round of the loop, where the rest of it does what the rest of the pattern says.
  round_lem :
      (fuel : ℕ) (lx : Prelexer)
      → (unread (prelexer_next lx).0 < fuel
          → (cur : Node) (tb : Tables) → IsReady tb
          → Result retain route cur tb
              (pattern_from fuel (prelexer_next lx).0)
              (add_loop retain route fuel (prelexer_next lx).0 cur tb))
      → unread lx < suc fuel
      → (cur : Node) (tb : Tables) → IsReady tb
      → (ty : TokenType) → (prelexer_next lx).1.type ≡ ty
      → Result retain route cur tb
          (pattern_from (suc fuel) lx)
          (add_loop retain route (suc fuel) lx cur tb)
  unfolding add_loop pattern_from
  round_lem fuel lx ih lt cur tb ready TokenType.end e =
      rw (e, add_loop, pattern_from) (add_terminal_lem retain route cur tb ready)
  round_lem fuel lx ih lt cur tb ready TokenType.trailing e =
      rw (e, add_loop, pattern_from) (add_trailing_lem retain route cur tb ready)
  round_lem fuel lx ih lt cur tb ready TokenType.wildcard e =
      rw (e, add_loop, pattern_from)
        (add_wildcard_lem retain route (prelexer_next (prelexer_next lx).0).1.type cur tb ready)
  round_lem fuel lx ih lt cur tb ready TokenType.illegal e =
      rw (e, add_loop, pattern_from)
        (fails retain route cur tb none illegal_pattern cur tb (λ x. cc) refl refl)
  round_lem fuel lx ih lt cur tb ready TokenType.literal e =
      let (p, ptr, len, nul, less) = prelexer_next-IsPiece lx (ap has_string e) in
      rw (e, add_loop, pattern_from)
        (add_literal_lem retain route (add_loop retain route fuel (prelexer_next lx).0)
          (pattern_from fuel (prelexer_next lx).0) (ih (omega arith)) (prelexer_next lx).1 p ptr len
          nul cur tb ready)
  round_lem fuel lx ih lt cur tb ready TokenType.param e =
      let (p, ptr, len, nul, less) = prelexer_next-IsPiece lx (ap has_string e) in
      rw (e, add_loop, pattern_from)
        (add_param_lem retain route (add_loop retain route fuel (prelexer_next lx).0)
          (pattern_from fuel (prelexer_next lx).0) (ih (omega arith)) (prelexer_next lx).1 p ptr len
          nul cur tb ready)

  -- For the pattern that is left to read, and with fuel for its bytes, the loop comes to an end.
  pub add_loop_lem :
      (fuel : ℕ) (lx : Prelexer) (cur : Node) (tb : Tables)
      → IsReady tb
      → unread lx < fuel
      → Result retain route cur tb (pattern_from fuel lx) (add_loop retain route fuel lx cur tb)
  add_loop_lem zero lx cur tb ready lt = absurd (omega arith)
  add_loop_lem (suc fuel) lx cur tb ready lt =
      round_lem fuel lx
        (λ less cur' tb' ready'. add_loop_lem fuel (prelexer_next lx).0 cur' tb' ready' less) lt cur
        tb ready (prelexer_next lx).1.type refl
