-- ===== src/ForkChoice/Aggregation.antt =====
-- chain/forkchoice/aggregation.go: many votes for the same data as one. Validators are sorted by a
-- stable sort; the order that `sort.Slice` gives to equal identifiers is not specified.
pub mod Split
pub mod Sorted
pub mod Joined
use gean.Base.{
  ℕ, zero, suc, ◌+◌, ◌*◌, ◌/◌, ◌%◌, ◌^◌, List, [], ◌∷◌, ◌++◌, Bool, true, not, Option, none, some,
  ltb, leb, ◌==◌, if◌then◌else◌, length, take, drop, get_elem?, lookup, insert, nat_eq, Run, ok,
  err, panic, ◌>>=◌, nothing_to_aggregate, signature_length, hash_failed,
}
use gean.Types.Containers.{
  AttestationData, Attestation, SignedAttestation, AggregatedAttestation, Validator, State,
  Primitives, intervals_per_slot, xmss_signature_size,
}
use gean.Types.Slot.{u64_mod}
use gean.Storage.{get_state}
use gean.Transition.Bitlist.{make_bitlist, set_bit, get_bit, bitlist_len}
use gean.ForkChoice.Store.{Store}
use gean.ForkChoice.Attestation.{Rejection, validate_attestation_data, is_newer, advance_to_now}

unfoldable pub insert_by_id : SignedAttestation → List SignedAttestation → List SignedAttestation
insert_by_id sa [] = sa ∷ []
insert_by_id sa (x ∷ xs) =
    let rest = insert_by_id sa xs in
    if leb sa.validator_id x.validator_id then sa ∷ x ∷ xs else x ∷ rest

unfoldable pub sort_by_id : List SignedAttestation → List SignedAttestation
sort_by_id [] = []
sort_by_id (sa ∷ atts) = insert_by_id sa (sort_by_id atts)

-- `sorted[len(sorted)-1].ValidatorID`
unfoldable pub last_id : ℕ → List SignedAttestation → ℕ
last_id id [] = id
last_id id (sa ∷ atts) = last_id sa.validator_id atts

-- `bits = SetBit(bits, sa.ValidatorID, true)` for each attestation.
unfoldable pub set_ids : List ℕ → List SignedAttestation → List ℕ
set_ids bits [] = bits
set_ids bits (sa ∷ atts) = set_ids (set_bit bits sa.validator_id true) atts

unfoldable pub join_signatures : List SignedAttestation → List ℕ
join_signatures [] = []
join_signatures (sa ∷ atts) = sa.signature ++ join_signatures atts

unfoldable pub aggregate_attestations : List SignedAttestation → Run AggregatedAttestation
aggregate_attestations atts = elim (sort_by_id atts) [
  | [] ↦ err nothing_to_aggregate
  | first ∷ others ↦ ok (record {
    att_data = first.message;
    aggregation_bits =
        set_ids (make_bitlist ((last_id first.validator_id others + 1) % u64_mod)) (first ∷ others);
    aggregated_signature = join_signatures (first ∷ others);
  })
]

-- The indices of the set bits, for the rounds left, from index `i` on.
unfoldable pub ids_from : ℕ → List ℕ → ℕ → List ℕ
ids_from zero bits i = []
ids_from (suc k) bits i =
    let rest = ids_from k bits (suc i) in if get_bit bits i then i ∷ rest else rest

-- The slices of the joined signature, one for each identifier, from the `i`-th on.
unfoldable pub slices : List ℕ → List ℕ → ℕ → List (List ℕ)
slices [] sig i = []
slices (id ∷ ids) sig i =
    take xmss_signature_size (drop (i * xmss_signature_size) sig) ∷ slices ids sig (suc i)

unfoldable pub disaggregate_attestation : AggregatedAttestation → Run (List ℕ × List (List ℕ))
disaggregate_attestation agg =
    let ids = ids_from (bitlist_len agg.aggregation_bits) agg.aggregation_bits 0 in
    if not (length agg.aggregated_signature == length ids * xmss_signature_size)
    then err signature_length
    else ok (ids, slices ids agg.aggregated_signature 0)

module _ (p : Primitives) where
  -- `leansig.Verify` on the message root of the attestation of one validator.
  unfoldable pub one_verifies : AttestationData → ℕ → List ℕ → List ℕ → Option Bool
  one_verifies d id pubkey sig =
      elim (p.attestation_root (record { validator_id = id; att_data = d })) [
        | none ↦ none
        | some root ↦ some (p.verify pubkey (d.slot % 2 ^ 32) root sig)
      ]

  -- The loop over the identifiers, with the number verified so far.
  unfoldable pub count_verified :
      List Validator → AttestationData → List ℕ → List (List ℕ) → ℕ → Run ℕ
  count_verified vs d [] sigs verified = ok verified
  count_verified vs d (id ∷ ids) [] verified = panic
  count_verified vs d (id ∷ ids) (sig ∷ sigs) verified = elim (get_elem? vs id) [
    | none ↦ count_verified vs d ids sigs verified
    | some v ↦ elim (one_verifies d id v.pubkey sig) [
      | none ↦ err hash_failed
      | some good ↦ count_verified vs d ids sigs (if good then suc verified else verified)
    ]
  ]

  unfoldable pub verify_aggregated_attestation : State → AggregatedAttestation → Run ℕ
  verify_aggregated_attestation state agg = disaggregate_attestation agg >>= λ (ids, sigs).
      count_verified state.validators agg.att_data ids sigs 0

  -- The loop of ProcessAggregatedAttestation; a failed hash ends the call.
  unfoldable pub record_votes :
      List Validator → AttestationData → List ℕ → List (List ℕ) → Store → Store
  record_votes vs d [] sigs c = c
  record_votes vs d (id ∷ ids) [] c = c
  record_votes vs d (id ∷ ids) (sig ∷ sigs) c = elim (get_elem? vs id) [
    | none ↦ record_votes vs d ids sigs c
    | some v ↦ elim (one_verifies d id v.pubkey sig) [
      | none ↦ c
      | some good ↦ record_votes vs d ids sigs (
          if not good
          then c
          else if ltb (c.time / intervals_per_slot) d.slot
          then c
          else if is_newer p (lookup id c.latest_new_attestations) d.slot
          then record c {
            latest_new_attestations =
                insert id (record { validator_id = id; message = d; signature = sig })
                  c.latest_new_attestations;
          }
          else c)
    ]
  ]

  unfoldable pub process_aggregated_attestation : Store → Option ℕ → AggregatedAttestation → Store
  process_aggregated_attestation c₀ now agg =
      let c = advance_to_now p c₀ now in
      elim (validate_attestation_data c agg.att_data) [
        | some reason ↦ c
        | none ↦ elim (get_state c.storage c.head) [
          | none ↦ c
          | some head_state ↦ elim (disaggregate_attestation agg) [
            | ok (ids, sigs) ↦ record_votes head_state.validators agg.att_data ids sigs c
            | err e ↦ c
            | panic ↦ c
          ]
        ]
      ]
