-- ===== src/Route.antt =====
-- Routes and options of wrouter.h. A handler and a context are pointers that the library only
-- passes on: a handler is `none` for NULL or the number of a function, a context is an address.
use libwrouter.Base.{ℕ, List, [], ◌∷◌, ◌++◌, Bool, Option, if◌then◌else◌}

-- wrouter_route_t
pub record Route : Type 0 where
  pub handler : Option ℕ
  pub ctx : ℕ

-- The calls of a reference callback, in order, where one is set: `has` is `callback != NULL`.
abbrev pub call_back : Bool → List ℕ → ℕ → List ℕ
call_back has calls ctx = if has then calls ++ ctx ∷ [] else calls
