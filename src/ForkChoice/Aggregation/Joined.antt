-- ===== src/ForkChoice/Aggregation/Joined.antt =====
-- What is aggregated is split into what it was aggregated from.
use gean.Base.{
  ℕ, zero, suc, ◌+◌, ◌*◌, ◌%◌, ◌-◌, ◌≤◌, ◌<◌, ◌≡◌, ◌≢◌, refl, ap, List, [], ◌∷◌, ◌++◌, map, All,
  true, false, ◌||◌, Bool-cases, inl, inr, ◌==◌, length, length-append, slice, slice_middle, ok,
  ◌>>=◌, arith,
}
use mathlib.Core.List.{append_assoc}
use gean.Types.Slot.{u64_mod}
use gean.Types.Containers.{AttestationData, SignedAttestation, xmss_signature_size}
use gean.Transition.Bitlist.{make_bitlist, set_bit, get_bit}
use gean.Transition.Bitlist.Laws.{IsBitlist, bitlist_len-IsBitlist}
use gean.Transition.Bitlist.Append.{
  get_bit-set_bit, set_bit-IsBitlist, make_bitlist-IsBitlist, get_bit-make_bitlist,
}
use gean.ForkChoice.Aggregation.{
  sort_by_id, last_id, set_ids, join_signatures, aggregate_attestations, ids_from, slices,
  disaggregate_attestation,
}
use gean.ForkChoice.Aggregation.Sorted.{
  OfDistinct, Ascending, IsIndex, sort_by_id-All, sort_by_id-Ascending, has_id, has_id-Ascending,
  last_id-le, last_id-IsIndex, sort_by_id_nonempty,
}

-- The bits of the validators are set in a bitlist that has them.
set_ids-IsBitlist :
    (n : ℕ) (bits : List ℕ) (xs : List SignedAttestation)
    → IsBitlist n bits
    → All (λ (x : SignedAttestation). x.validator_id < n) xs
    → IsBitlist n (set_ids bits xs)
unfolding set_ids
set_ids-IsBitlist n bits [] valid h = valid
set_ids-IsBitlist n bits (x ∷ xs) valid h =
    set_ids-IsBitlist n (set_bit bits x.validator_id true) xs
      (set_bit-IsBitlist n bits x.validator_id true valid h.0) h.1

get_bit-set_ids :
    (n : ℕ) (bits : List ℕ) (xs : List SignedAttestation) (j : ℕ)
    → IsBitlist n bits
    → All (λ (x : SignedAttestation). x.validator_id < n) xs
    → get_bit (set_ids bits xs) j ≡ (has_id j xs || get_bit bits j)
unfolding set_ids has_id
get_bit-set_ids n bits [] j valid h = refl
get_bit-set_ids n bits (x ∷ xs) j valid h =
    let rest =
      get_bit-set_ids n (set_bit bits x.validator_id true) xs j
        (set_bit-IsBitlist n bits x.validator_id true valid h.0) h.1 in
    let one = get_bit-set_bit n bits x.validator_id true valid h.0 j in ground (arith, rest, one)

unfoldable pub ids_of : List SignedAttestation → List ℕ
ids_of = map (λ sa. sa.validator_id)

unfoldable pub signatures_of : List SignedAttestation → List (List ℕ)
signatures_of = map (λ sa. sa.signature)

-- Up to `n`, where the bits are those of the validators.
ids_from-Ascending :
    (k : ℕ) (bits : List ℕ) (i n : ℕ) (xs : List SignedAttestation)
    → i + k ≡ n
    → Ascending i xs
    → All (λ (x : SignedAttestation). x.validator_id < n) xs
    → ((j : ℕ) → i ≤ j → j < n → get_bit bits j ≡ has_id j xs)
    → ids_from k bits i ≡ ids_of xs
unfolding ids_from ids_of Ascending has_id
ids_from-Ascending zero bits i n [] end a h same = refl
ids_from-Ascending zero bits i n (x ∷ xs) end a h same = absurd (omega (arith, a.0, h.0))
ids_from-Ascending (suc k) bits i n [] end a h same = rw (same i (omega arith) (omega arith)) (
    ids_from-Ascending k bits (suc i) n [] (omega arith) tt tt (λ j le lt. same j (omega arith) lt))
ids_from-Ascending (suc k) bits i n (x ∷ xs) end a h same =
    elim (Bool-cases (x.validator_id == i)) [
      | inl e ↦
          let at : x.validator_id ≡ i = ground arith in
          let bit : get_bit bits i ≡ true = rw e at (same i (omega arith) (omega arith)) in
          let rest =
            ids_from-Ascending k bits (suc i) n xs (omega arith) (rw at at a.1) h.1 (λ j le lt.
              let other : (x.validator_id == j) ≡ false = ground arith in
              rw other at (same j (omega arith) lt)) in
          rw (bit, at, rest)
      | inr e ↦
          let later : suc i ≤ x.validator_id = ground (arith, a.0) in
          let none_before = has_id-Ascending (suc x.validator_id) i xs (omega arith) a.1 in
          let bit : get_bit bits i ≡ false =
            rw (e, none_before) at (same i (omega arith) (omega arith)) in
          let rest =
            ids_from-Ascending k bits (suc i) n (x ∷ xs) (omega arith) (later, a.1) h
              (λ j le lt. same j (omega arith) lt) in
          rw bit rest
    ]

abbrev pub IsSigned : SignedAttestation → Type 0
IsSigned sa = length sa.signature ≡ xmss_signature_size

length-join_signatures :
    (xs : List SignedAttestation)
    → All IsSigned xs
    → length (join_signatures xs) ≡ length xs * xmss_signature_size
unfolding join_signatures
length-join_signatures [] h = refl
length-join_signatures (x ∷ xs) h =
    omega
      (arith, length-append x.signature (join_signatures xs), h.0, length-join_signatures xs h.1)

length-ids_of : (xs : List SignedAttestation) → length (ids_of xs) ≡ length xs
unfolding ids_of
length-ids_of [] = refl
length-ids_of (x ∷ xs) = ap suc (length-ids_of xs)

-- Behind the signatures of the validators before.
slices-join_signatures :
    (before : List ℕ) (i : ℕ) (xs : List SignedAttestation)
    → length before ≡ i * xmss_signature_size
    → All IsSigned xs
    → slices (ids_of xs) (before ++ join_signatures xs) i ≡ signatures_of xs
unfolding slices ids_of signatures_of join_signatures slice
slices-join_signatures before i [] e h = refl
slices-join_signatures before i (x ∷ xs) e h =
    let n = i * xmss_signature_size in
    let m = (i + 1) * xmss_signature_size in
    let size : m - n ≡ xmss_signature_size = omega arith in
    let this = slice_middle n m before x.signature (join_signatures xs) e (omega (arith, h.0)) in
    let rest =
      slices-join_signatures (before ++ x.signature) (suc i) xs
        (omega (arith, length-append before x.signature, e, h.0)) h.1 in
    rw (rw size at this, ← append_assoc before x.signature (join_signatures xs), rest)

split_joined :
    (n : ℕ) (xs : List SignedAttestation) (d : AttestationData)
    → Ascending 0 xs
    → All (λ (x : SignedAttestation). x.validator_id < n) xs
    → All IsSigned xs
    → disaggregate_attestation (record {
      att_data = d;
      aggregation_bits = set_ids (make_bitlist n) xs;
      aggregated_signature = join_signatures xs;
    })
      ≡ ok (ids_of xs, signatures_of xs)
unfolding disaggregate_attestation
split_joined n xs d a below signed =
    let blank = make_bitlist-IsBitlist n in
    let valid = set_ids-IsBitlist n (make_bitlist n) xs blank below in
    let bits = λ (j : ℕ). get_bit-set_ids n (make_bitlist n) xs j blank below in
    let ids =
      ids_from-Ascending n (set_ids (make_bitlist n) xs) 0 n xs (omega arith) a below
        (λ j le lt. ground (arith, bits j, get_bit-make_bitlist n j)) in
    let fits : (length xs * xmss_signature_size == length xs * xmss_signature_size) ≡ true =
      ground arith in
    rw (
      bitlist_len-IsBitlist n (set_ids (make_bitlist n) xs) valid,
      ids,
      length-join_signatures xs signed,
      length-ids_of xs,
      fits,
      slices-join_signatures [] 0 xs (omega arith) signed,
    )

module _ (atts : List SignedAttestation) (signed : All IsSigned atts)
    (indices : All IsIndex atts) where
  joined_split :
      (sorted : List SignedAttestation)
      → Ascending 0 sorted
      → All IsSigned sorted
      → All IsIndex sorted
      → sorted ≢ []
      → sort_by_id atts ≡ sorted
      → (aggregate_attestations atts >>= disaggregate_attestation)
        ≡ ok (ids_of sorted, signatures_of sorted)
  unfolding aggregate_attestations Ascending
  joined_split [] a s i some_votes e = absurd (some_votes refl)
  joined_split (x ∷ xs) a s i some_votes e =
      let n = last_id x.validator_id xs + 1 in
      let small = last_id-IsIndex x.validator_id xs i.0 i.1 in
      let exact : n % u64_mod ≡ n = omega (arith, small) in
      rw (aggregate_attestations, e, exact)
        (split_joined n (x ∷ xs) x.message a (last_id-le x.validator_id xs a.1) s)

  -- Votes of different validators, at least one, with signatures of the scheme's size and indices
  -- below 2^64 - 1, are aggregated, and the aggregate is split into the identifiers of the
  -- validators in ascending order, each with the signature of its vote.
  pub disaggregate-aggregate_attestations :
      OfDistinct atts
      → atts ≢ []
      → (aggregate_attestations atts >>= disaggregate_attestation)
        ≡ ok (ids_of (sort_by_id atts), signatures_of (sort_by_id atts))
  disaggregate-aggregate_attestations distinct some_votes =
      joined_split (sort_by_id atts) (sort_by_id-Ascending atts distinct)
        (sort_by_id-All IsSigned atts signed) (sort_by_id-All IsIndex atts indices)
        (sort_by_id_nonempty atts some_votes) refl
