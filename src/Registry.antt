-- ===== src/Registry.antt =====
-- config/validators.go: which node runs which validators. Names are lists of bytes; reading the
-- YAML file is left out.
pub mod Overlap
use gean.Base.{
  ℕ, List, [], ◌∷◌, none, some, leb, if◌then◌else◌, same_bytes, lookup, insert, nat_eq, Run, ok,
  err, ◌>>=◌, out_of_range, assigned_twice,
}

pub record ValidatorAssignment : Type 0 where
  pub node_name : List ℕ
  pub validators : List ℕ

pub record ValidatorRegistry : Type 0 where
  pub assignments : List ValidatorAssignment

-- The inner loop of Validate, with the map of the indices seen.
unfoldable pub check_indices : ℕ → List ℕ → List ℕ → List (ℕ × List ℕ) → Run (List (ℕ × List ℕ))
check_indices n name [] seen = ok seen
check_indices n name (idx ∷ indices) seen =
    if leb n idx then err out_of_range else elim (lookup idx seen) [
      | some prev ↦ err assigned_twice
      | none ↦ check_indices n name indices (insert idx name seen)
    ]

unfoldable pub check_assignments : ℕ → List ValidatorAssignment → List (ℕ × List ℕ) → Run (Unit {0})
check_assignments n [] seen = ok tt
check_assignments n (a ∷ assignments) seen =
    check_indices n a.node_name a.validators seen >>= λ later. check_assignments n assignments later

unfoldable pub validate : ValidatorRegistry → ℕ → Run (Unit {0})
validate r n = check_assignments n r.assignments []

unfoldable pub find_indices : List ValidatorAssignment → List ℕ → List ℕ
find_indices [] name = []
find_indices (a ∷ assignments) name =
    if same_bytes a.node_name name then a.validators else find_indices assignments name

unfoldable pub get_validator_indices : ValidatorRegistry → List ℕ → List ℕ
get_validator_indices r name = find_indices r.assignments name
