-- ===== src/ForkChoice/Aggregation/Split.antt =====
-- What disaggregation gives.
use gean.Base.{
  ℕ, zero, suc, ◌+◌, ◌*◌, ◌≤◌, ◌<◌, ◌≡◌, refl, sym, ◌⊎◌, ◌↔◌, inl, inr, List, [], ◌∷◌, true, false,
  arith, ◌==◌, Bool-cases, length, length-take, length-drop, take-append-drop, drop_all, drop-drop,
  drop, ◌++◌, All, IsIn, ok, err, signature_length, ◌≢◌,
}
use gean.Types.Containers.{AggregatedAttestation, xmss_signature_size}
use gean.Transition.Bitlist.{get_bit, bitlist_len}
use gean.ForkChoice.Aggregation.{ids_from, slices, disaggregate_attestation}

module _ (k : ℕ) (bits : List ℕ) (i j : ℕ) (R : Type 0)
    (later : R ↔ ((suc i ≤ j) × (j < suc i + k) × (get_bit bits j ≡ true))) where
  step_set :
      get_bit bits i ≡ true → ((i ≡ j) ⊎ R) ↔ ((i ≤ j) × (j < i + suc k) × (get_bit bits j ≡ true))
  step_set e = (to, from)
    where
      to : (i ≡ j) ⊎ R → (i ≤ j) × (j < i + suc k) × (get_bit bits j ≡ true)
      to (inl same) = (omega arith, omega arith, rw (sym same) e)
      to (inr r) = let (a, b, c) = later.0 r in (omega arith, omega arith, c)

      from : (i ≤ j) × (j < i + suc k) × (get_bit bits j ≡ true) → (i ≡ j) ⊎ R
      from (a, b, c) = elim (Bool-cases (i == j)) [
        | inl same ↦ inl (ground arith)
        | inr other ↦ inr (later.1 (ground arith, omega arith, c))
      ]

  step_clear : get_bit bits i ≡ false → R ↔ ((i ≤ j) × (j < i + suc k) × (get_bit bits j ≡ true))
  step_clear e = (to, from)
    where
      to : R → (i ≤ j) × (j < i + suc k) × (get_bit bits j ≡ true)
      to r = let (a, b, c) = later.0 r in (omega arith, omega arith, c)

      from : (i ≤ j) × (j < i + suc k) × (get_bit bits j ≡ true) → R
      from (a, b, c) = elim (Bool-cases (i == j)) [
        | inl same ↦ let at : i ≡ j = ground arith in cc (at, e, c)
        | inr other ↦ later.1 (ground arith, omega arith, c)
      ]

IsIn-ids_from :
    (k : ℕ) (bits : List ℕ) (i j : ℕ)
    → IsIn j (ids_from k bits i) ↔ ((i ≤ j) × (j < i + k) × (get_bit bits j ≡ true))
unfolding ids_from
IsIn-ids_from zero bits i j = (λ h. absurd h, λ (a, b, c). absurd (omega arith))
IsIn-ids_from (suc k) bits i j =
    let later = IsIn-ids_from k bits (suc i) j in
    elim (Bool-cases (get_bit bits i)) [
      | inl e ↦ rw e (step_set k bits i j _ later e)
      | inr e ↦ rw e (step_clear k bits i j _ later e)
    ]

length-slices : (ids sig : List ℕ) (i : ℕ) → length (slices ids sig i) ≡ length ids
unfolding slices
length-slices [] sig i = refl
length-slices (id ∷ ids) sig i = omega (arith, length-slices ids sig (suc i))

-- From `lo` on, each greater than the one before.
abbrev pub Rising : ℕ → List ℕ → Type 0
Rising lo [] = Unit
Rising lo (i ∷ is) = (lo ≤ i) × Rising (suc i) is

Rising-le : (lo hi : ℕ) (is : List ℕ) → lo ≤ hi → Rising hi is → Rising lo is
Rising-le lo hi [] le r = tt
Rising-le lo hi (i ∷ is) le r = (omega (arith, r.0), r.1)

ids_from-Rising : (k : ℕ) (bits : List ℕ) (i : ℕ) → Rising i (ids_from k bits i)
unfolding ids_from
ids_from-Rising zero bits i = tt
ids_from-Rising (suc k) bits i =
    let rest = ids_from-Rising k bits (suc i) in
    elim (Bool-cases (get_bit bits i)) [
      | inl e ↦ rw e (omega arith, rest)
      | inr e ↦ rw e (Rising-le i (suc i) (ids_from k bits (suc i)) (omega arith) rest)
    ]

-- The signatures one after the other.
abbrev pub concatenated : List (List ℕ) → List ℕ
concatenated [] = []
concatenated (sig ∷ sigs) = sig ++ concatenated sigs

-- One signature for each of the identifiers, of the size of the scheme, and nothing else.
pub record Divides (ids joint : List ℕ) (sigs : List (List ℕ)) : Type 0 where
  pub each : length sigs ≡ length ids
  pub sized : All (λ (sig : List ℕ). length sig ≡ xmss_signature_size) sigs
  pub whole : concatenated sigs ≡ joint

slices-sized :
    (ids sig : List ℕ) (i : ℕ)
    → length sig ≡ (i + length ids) * xmss_signature_size
    → All (λ (s : List ℕ). length s ≡ xmss_signature_size) (slices ids sig i)
unfolding slices
slices-sized [] sig i e = tt
slices-sized (id ∷ ids) sig i e = (
  omega (
    arith,
    e,
    length-take xmss_signature_size (drop (i * xmss_signature_size) sig),
    length-drop (i * xmss_signature_size) sig,
  ),
  slices-sized ids sig (suc i) (omega (arith, e)),
)

concatenated-slices :
    (ids sig : List ℕ) (i : ℕ)
    → length sig ≡ (i + length ids) * xmss_signature_size
    → concatenated (slices ids sig i) ≡ drop (i * xmss_signature_size) sig
unfolding slices
concatenated-slices [] sig i e = sym (drop_all (i * xmss_signature_size) sig (omega (arith, e)))
concatenated-slices (id ∷ ids) sig i e =
    let n = i * xmss_signature_size in
    let rest = concatenated-slices ids sig (suc i) (omega (arith, e)) in
    let next = drop-drop n xmss_signature_size (suc i * xmss_signature_size) sig (omega arith) in
    rw (rest, sym next, take-append-drop xmss_signature_size (drop n sig))

slices-Divides :
    (ids sig : List ℕ)
    → length sig ≡ length ids * xmss_signature_size
    → Divides ids sig (slices ids sig 0)
slices-Divides ids sig e = record {
  each = length-slices ids sig 0;
  sized = slices-sized ids sig 0 (omega (arith, e));
  whole = concatenated-slices ids sig 0 (omega (arith, e));
}

-- DisaggregateAttestation gives the indices of the set data bits, each once and in ascending order,
-- and for each of them in turn its part of the joined signature, cut into signatures of the scheme's
-- size, where the joined signature has the length for that; for any other length it is an error.
pub disaggregate_attestation_cases :
    (agg : AggregatedAttestation)
    → (ids : List ℕ) × Rising 0 ids
      × ((j : ℕ)
          → IsIn j ids
            ↔ ((j < bitlist_len agg.aggregation_bits) × (get_bit agg.aggregation_bits j ≡ true)))
      × (((length agg.aggregated_signature ≡ length ids * xmss_signature_size)
            × (sigs : List (List ℕ)) × Divides ids agg.aggregated_signature sigs
            × (disaggregate_attestation agg ≡ ok (ids, sigs)))
          ⊎ ((length agg.aggregated_signature ≢ length ids * xmss_signature_size)
              × (disaggregate_attestation agg ≡ err signature_length)))
unfolding disaggregate_attestation
disaggregate_attestation_cases agg =
    let bits = agg.aggregation_bits in
    let joint = agg.aggregated_signature in
    let ids = ids_from (bitlist_len bits) bits 0 in
    (
      ids,
      ids_from-Rising (bitlist_len bits) bits 0,
      λ j.
          let (to, from) = IsIn-ids_from (bitlist_len bits) bits 0 j in
          (
            λ h. let (a, b, c) = to h in (omega arith, c),
            λ (b, c). from (omega arith, omega arith, c),
          ),
      elim (Bool-cases (length joint == length ids * xmss_signature_size)) [
        | inl fits ↦
            let exact : length joint ≡ length ids * xmss_signature_size = ground arith in
            inl (exact, slices ids joint 0, slices-Divides ids joint exact, rw fits)
        | inr other ↦ inr (ground arith, rw other)
      ],
    )
