-- ===== src/Registry/Overlap.antt =====
-- Which registries pass the check.
use gean.Base.{
  ℕ, ◌<◌, ◌≡◌, ◌≢◌, refl, sym, ◌↔◌, inl, inr, List, [], ◌∷◌, ◌++◌, arith, leb, Bool-cases,
  Option-cases, none, lookup, insert, lookup-insert, nat_eq, IsIn, Run, ok, ◌>>=◌,
}
use gean.Registry.{
  ValidatorAssignment, ValidatorRegistry, check_indices, check_assignments, validate,
}

-- All indices that the assignments give, in order.
abbrev pub all_indices : List ValidatorAssignment → List ℕ
all_indices [] = []
all_indices (a ∷ assignments) = a.validators ++ all_indices assignments

-- Every index is below `n`, and none stands twice.
abbrev pub Exclusive : ℕ → List ℕ → Type 0
Exclusive n [] = Unit
Exclusive n (i ∷ is) = (i < n) × (¬ IsIn i is) × Exclusive n is

-- The same, apart from the keys of `seen` too.
abbrev Apart : ℕ → List (ℕ × List ℕ) → List ℕ → Type 0
Apart n seen [] = Unit
Apart n seen (i ∷ is) = (i < n) × (lookup i seen ≡ none) × (¬ IsIn i is) × Apart n seen is

module _ (n x : ℕ) (name : List ℕ) (seen : List (ℕ × List ℕ)) where
  lookup_other : (i : ℕ) → lookup i (insert x name seen) ≡ none → (x ≢ i) × (lookup i seen ≡ none)
  lookup_other i e =
      (ground (arith, lookup-insert x i name seen), ground (arith, lookup-insert x i name seen))

  lookup_apart : (i : ℕ) → x ≢ i → lookup i seen ≡ none → lookup i (insert x name seen) ≡ none
  lookup_apart i other e = ground (arith, lookup-insert x i name seen)

  module _ (i : ℕ) (is : List ℕ)
      (later : Apart n (insert x name seen) is ↔ ((¬ IsIn x is) × Apart n seen is)) where
    Apart-insert_to :
        Apart n (insert x name seen) (i ∷ is) → (¬ IsIn x (i ∷ is)) × Apart n seen (i ∷ is)
    Apart-insert_to (lt, new, once, rest) =
        let (clear, apart) = later.0 rest in
        let (other, e) = lookup_other i new in
        (
          λ h. elim h [ inl same ↦ other (sym same) | inr deeper ↦ clear deeper ],
          (lt, e, once, apart),
        )

    Apart-insert_from :
        (¬ IsIn x (i ∷ is)) × Apart n seen (i ∷ is) → Apart n (insert x name seen) (i ∷ is)
    Apart-insert_from (clear, (lt, e, once, apart)) = (
      lt,
      lookup_apart i (λ same. clear (inl (sym same))) e,
      once,
      later.1 (λ h. clear (inr h), apart),
    )

  Apart-insert : (is : List ℕ) → Apart n (insert x name seen) is ↔ ((¬ IsIn x is) × Apart n seen is)
  Apart-insert [] = (λ a. (λ h. h, tt), λ a. tt)
  Apart-insert (i ∷ is) =
      let later = Apart-insert is in (Apart-insert_to i is later, Apart-insert_from i is later)

check_indices_iff :
    (n : ℕ) (name : List ℕ) (is rest : List ℕ) (k : List (ℕ × List ℕ) → Run (Unit {0}))
    → ((later : List (ℕ × List ℕ)) → (k later ≡ ok tt) ↔ Apart n later rest)
    → (seen : List (ℕ × List ℕ))
    → ((check_indices n name is seen >>= k) ≡ ok tt) ↔ Apart n seen (is ++ rest)
unfolding check_indices
check_indices_iff n name [] rest k next seen = next seen
check_indices_iff n name (x ∷ is) rest k next seen = elim (Bool-cases (leb n x)) [
  | inl out ↦ (λ e. cc (rw (out, check_indices) at e), λ a. absurd (ground (arith, a.0)))
  | inr within ↦ elim (Option-cases (lookup x seen)) [
    | inr (prev, e) ↦ (λ f. cc (rw (within, check_indices, e) at f), λ a. cc (e, a.1))
    | inl e ↦
        let (to, from) = check_indices_iff n name is rest k next (insert x name seen) in
        let (split, join) = Apart-insert n x name seen (is ++ rest) in
        rw (within, check_indices, e)
          (
            λ f. let (clear, apart) = split (to f) in (ground arith, refl, clear, apart),
            λ (lt, e', clear, apart). from (join (clear, apart)),
          )
  ]
]

check_assignments_iff :
    (n : ℕ) (assignments : List ValidatorAssignment) (seen : List (ℕ × List ℕ))
    → (check_assignments n assignments seen ≡ ok tt) ↔ Apart n seen (all_indices assignments)
unfolding check_assignments
check_assignments_iff n [] seen = (λ e. tt, λ a. refl)
check_assignments_iff n (a ∷ assignments) seen =
    check_indices_iff n a.node_name a.validators (all_indices assignments) _
      (λ later. check_assignments_iff n assignments later) seen

Apart-none : (n : ℕ) (is : List ℕ) → Apart n [] is ↔ Exclusive n is
unfolding lookup
Apart-none n [] = (λ a. tt, λ a. tt)
Apart-none n (i ∷ is) =
    let (to, from) = Apart-none n is in
    (λ (lt, e, once, rest). (lt, once, to rest), λ (lt, once, rest). (lt, refl, once, from rest))

-- Validate accepts a registry exactly when every index that it assigns is below the number of
-- validators, and no index is assigned twice, to two nodes or to one.
pub validate_iff :
    (r : ValidatorRegistry) (n : ℕ)
    → (validate r n ≡ ok tt) ↔ Exclusive n (all_indices r.assignments)
unfolding validate
validate_iff r n =
    let (to, from) = check_assignments_iff n r.assignments [] in
    let (forget, recall) = Apart-none n (all_indices r.assignments) in
    (λ e. forget (to e), λ a. from (recall a))
