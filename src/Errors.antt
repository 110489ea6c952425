-- ===== src/Errors.antt =====
-- errors.c and the error codes of wrouter.h.
use Prim.Native.String.{String}

pub data Error : Type 0 where
  ok : Error
  no_memory : Error
  out_of_range : Error
  illegal_pattern : Error
  duplicate_route : Error
  literal_conflicts_with_param : Error
  param_conflicts_with_wildcard : Error
  param_conflicts_with_literal : Error
  param_name_mismatch : Error
  wildcard_conflicts_with_param : Error
  wildcard_not_final : Error
  null_argument : Error
  builder_corrupted : Error

unfoldable pub strerror : Error → String
strerror ok = "Success."
strerror no_memory = "Insufficient memory."
strerror out_of_range = "Value or index out of range."
strerror illegal_pattern = "Malformed route pattern."
strerror duplicate_route = "Duplicate route."
strerror literal_conflicts_with_param =
    "A literal segment conflicts with an existing parameter segment."
strerror param_conflicts_with_wildcard =
    "A parameter segment conflicts with an existing wildcard segment."
strerror param_conflicts_with_literal =
    "A parameter segment conflicts with an existing literal segment."
strerror param_name_mismatch =
    "The parameter name does not match the existing parameter at this position."
strerror wildcard_conflicts_with_param =
    "A wildcard segment conflicts with an existing parameter segment."
strerror wildcard_not_final = "A wildcard segment must be the final segment in the route pattern."
strerror null_argument = "Null argument."
strerror builder_corrupted =
    "The builder tree is corrupted due to a failed route insertion; start afresh with a new builder."
