-- ===== src/Examples/Copying.antt =====
-- A snapshot of one parameter.
use libwrouter.Base.{◌≤◌, ◌<◌, ◌≡◌, refl, ◌⊎◌, [], ◌∷◌, true, Option, none, some, arith, length}
use libwrouter.Text.{slash}
use libwrouter.Memory.{Memory}
use libwrouter.World.{returns}
use libwrouter.Params.{Param, Params}
use libwrouter.Params.Copy.{Snapshot, wrouter_params_copy}
use libwrouter.Params.Region.{IsCopyable, image}
use libwrouter.Params.Snapshot.{IsCopy, wrouter_params_copy-IsCopy, wrouter_params_copy_limit}
use libwrouter.Examples.Data.{name_a, name_b}

-- `:a` with the value `b` of the path that goes on with `/b`.
abbrev param : Param
param = record { name = some name_a; value = some (b'b' ∷ slash ∷ name_b); length = 1 }

abbrev params : Params
params = record { base = param ∷ []; capacity = 2 }

param-IsCopyable : IsCopyable param
param-IsCopyable = record {
  name = name_a;
  value = b'b' ∷ slash ∷ name_b;
  has_name = refl;
  has_value = refl;
  fits = omega arith;
  name-NulFree = (omega arith, tt);
  value-NulFree = (omega arith, tt);
}

wrouter_params_copy-IsCopy_example :
    (s : Option Snapshot) × (mem : Memory) × (wrouter_params_copy (some params) true []
      ≡ returns (s, mem))
    × IsCopy params s
wrouter_params_copy-IsCopy_example =
    wrouter_params_copy-IsCopy params true [] (param-IsCopyable, tt)

wrouter_params_copy_limit_example :
    ((length (image params.base) ≤ 65535)
      × ((s : Snapshot) × (wrouter_params_copy (some params) true [] ≡ returns (some s, []))))
    ⊎ ((65535 < length (image params.base))
        × (wrouter_params_copy (some params) true [] ≡ returns (none, [])))
wrouter_params_copy_limit_example = wrouter_params_copy_limit params (param-IsCopyable, tt)
