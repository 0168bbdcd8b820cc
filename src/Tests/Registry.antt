-- ===== src/Tests/Registry.antt =====
-- Tests of the validator registry.
use gean.Base.{refl, [], ◌∷◌, lookup, insert}
use gean.Registry.{ValidatorRegistry, check_indices, check_assignments, validate}
use gean.Registry.Overlap.{Exclusive, validate_iff}

-- Two nodes with three validators.
abbrev two_nodes : ValidatorRegistry
two_nodes = record {
  assignments =
      record { node_name = 97 ∷ []; validators = 0 ∷ 2 ∷ [] }
      ∷ record { node_name = 98 ∷ []; validators = 1 ∷ [] }
      ∷ [];
}

validate_iff_example : Exclusive 3 (0 ∷ 2 ∷ 1 ∷ [])
unfolding validate check_assignments check_indices lookup insert
validate_iff_example = (validate_iff two_nodes 3).0 refl
