-- ===== src/Tests/Aggregation.antt =====
-- Tests of aggregation.
use gean.Base.{
  replicate, length-replicate, ◌>>=◌, arith, ℕ, ◌*◌, ◌<◌, ◌≡◌, ◌≢◌, ◌⊎◌, ◌↔◌, List, [], ◌∷◌, ◌++◌,
  true, length, IsIn, ok, err, signature_length,
}
use gean.Types.Containers.{SignedAttestation, AggregatedAttestation, xmss_signature_size}
use gean.Transition.Bitlist.{get_bit, bitlist_len}
use gean.ForkChoice.Aggregation.{
  disaggregate_attestation, aggregate_attestations, sort_by_id, insert_by_id,
}
use gean.ForkChoice.Aggregation.Joined.{ids_of, signatures_of, disaggregate-aggregate_attestations}
use gean.ForkChoice.Aggregation.Split.{Rising, Divides, disaggregate_attestation_cases}
use gean.ForkChoice.Aggregation.Sorted.{OfDistinct}
use gean.Tests.Data.{vote, signed}

-- A joined signature of two signatures for the votes of validators 0 and 2 of three.
abbrev signature_of : ℕ → List ℕ
signature_of b = replicate 3112 b

abbrev joint : List ℕ
joint = signature_of 10 ++ signature_of 12

abbrev whole : AggregatedAttestation
whole = record {
  att_data = (vote 0 1 0 1).att_data;
  aggregation_bits = 13 ∷ [];
  aggregated_signature = joint;
}

disaggregate_attestation_cases_example :
    (ids : List ℕ) × Rising 0 ids
    × ((j : ℕ) → IsIn j ids ↔ ((j < bitlist_len (13 ∷ [])) × (get_bit (13 ∷ []) j ≡ true)))
    × (((length joint ≡ length ids * xmss_signature_size)
          × (sigs : List (List ℕ)) × Divides ids joint sigs
          × (disaggregate_attestation whole ≡ ok (ids, sigs)))
        ⊎ ((length joint ≢ length ids * xmss_signature_size)
            × (disaggregate_attestation whole ≡ err signature_length)))
disaggregate_attestation_cases_example = disaggregate_attestation_cases whole

-- The votes of validators 2 and 0, in this order.
abbrev two_votes : List SignedAttestation
two_votes = signed (vote 2 1 0 1) (signature_of 12) ∷ signed (vote 0 1 0 1) (signature_of 10) ∷ []

disaggregate-aggregate_attestations_example :
    (aggregate_attestations two_votes >>= disaggregate_attestation)
    ≡ ok (0 ∷ 2 ∷ [], signature_of 10 ∷ signature_of 12 ∷ [])
unfolding OfDistinct sort_by_id insert_by_id ids_of signatures_of
disaggregate-aggregate_attestations_example =
    disaggregate-aggregate_attestations two_votes
      (length-replicate {A = ℕ} 3112 12, (length-replicate {A = ℕ} 3112 10, tt))
      (omega arith, (omega arith, tt)) ((λ e. omega (arith, e), tt), (tt, tt)) (λ e. cc)
