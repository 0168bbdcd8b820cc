-- ===== src/Tests/Wire.antt =====
-- Tests of the encodings, with a lawful SSZ library and a snappy that does not compress.
use gean.Base.{
  ℕ, ◌/◌, ◌%◌, ◌≡◌, refl, ◌∙◌, arith, List, [], ◌∷◌, ◌++◌, Bool, true, Bool-cases, inl, inr, ◌&&◌,
  ltb, leb, ◌==◌, if◌then◌else◌, none, some, length, length-append, length-replicate, replicate, ok,
  err, ◌>>=◌, signature_count, Bytes, le_bytes, le_value, slice, slice_first, slice_past,
  slice_whole,
}
use gean.Types.Containers.{zero_hash, SignedBlockWithAttestation}
use gean.Ssz.{Ssz, IsLawful}
use gean.Ssz.Fits.{FitsCheckpoint, FitsAttestationData, FitsAttestation}
use gean.Ssz.Blocks.{
  zero_attestation, fill, fill_signed, proposer_or_zero, marshal_signed_block,
  unmarshal_signed_block,
}
use gean.Ssz.Blocks.Fits.{FitsSignedBlock}
use gean.Ssz.Blocks.Filled.{
  unmarshal-marshal_signed_block, marshal-unmarshal_signed_block, check_signature_count-unmarshal,
}
use gean.ForkChoice.Block.{check_signature_count}
use gean.Network.{Snappy, IsLossless}
use gean.Ssz.Fits.{attestation_bytes, attestation_data_bytes, checkpoint_bytes}
use gean.Ssz.Lists.{joined}
use gean.Ssz.States.{marshal_state, unmarshal_state, size_state}
use gean.Ssz.States.Parts.{FitsState, state_bytes}
use gean.Ssz.States.RoundTrip.{unmarshal-marshal_state}
use gean.Transition.Slots.{generate_genesis}
use gean.Transition.Valid.{one_bit}
use gean.Types.Containers.{State, Primitives}
use gean.Ssz.Blocks.{size_body, size_block, size_block_with_attestation}
use gean.Ssz.Blocks.Fits.{body_bytes, block_bytes, block_with_attestation_bytes, signed_block_bytes}
use gean.Ssz.Blocks.Envelopes.{signed_block-IsCodec}
use gean.Tests.Data.{toy}

abbrev pub le_ssz : Ssz
le_ssz = record {
  marshal_uint64 = λ buf n. buf ++ le_bytes 8 n;
  unmarshal_uint64 = le_value;
  write_offset = λ buf n. buf ++ le_bytes 4 n;
  read_offset = le_value;
  divide_int2 = λ a b max. if a % b == 0 && leb (a / b) max then some (a / b) else none;
  validate_bitlist = λ bl limit. true;
}

pub le_ssz-IsLawful : IsLawful le_ssz
le_ssz-IsLawful = record {
  marshal_uint64-exact = λ buf n. refl;
  unmarshal_uint64-exact = λ bs e. refl;
  write_offset-exact = λ buf n. refl;
  read_offset-exact = λ bs e. refl;
  divide_int2-exact = λ a b max. refl;
  validate-IsBitlist = λ n bl limit h k. refl;
}

abbrev pub plain : Snappy
plain = record {
  encode = λ bs. bs;
  decode = some;
  frame = λ bs. bs;
  read_frame = λ n bs. some (slice 0 n bs, slice n (length bs) bs);
}

pub plain-IsLossless : IsLossless plain
plain-IsLossless = record {
  decode-encode = λ bs h. refl;
  read-frame = λ bs rest.
      let front = slice_first (length bs) bs rest refl in
      let behind : slice (length bs) (length (bs ++ rest)) (bs ++ rest) ≡ rest =
        slice_past (length bs) 0 (length rest) (length bs) (length (bs ++ rest)) bs rest refl
          (omega arith) (length-append bs rest)
        ∙ slice_whole (length rest) rest refl in
      rw (front, behind);
}

-- A block without a proposer attestation, with one vote and its signature.
abbrev pub wire_signature : List ℕ
wire_signature = replicate 3112 7

abbrev pub wire_block : SignedBlockWithAttestation
wire_block = record {
  message = record {
    block = record {
      slot = 5;
      proposer_index = 1;
      parent_root = zero_hash;
      state_root = zero_hash;
      body = record { attestations = zero_attestation ∷ [] };
    };
    proposer_attestation = none;
  };
  signature = wire_signature ∷ [];
}

pub zero_data-Fits : FitsAttestationData zero_attestation.att_data
zero_data-Fits =
    let c : FitsCheckpoint (record { root = zero_hash; slot = 0 }) = record {
      root = refl;
      slot = omega arith;
    } in
    record { slot = omega arith; head = c; target = c; source = c }

pub zero_attestation-Fits : FitsAttestation zero_attestation
zero_attestation-Fits = record { validator_id = omega arith; att_data = zero_data-Fits }

pub wire_block-Fits : FitsSignedBlock (fill_signed wire_block)
unfolding fill_signed fill proposer_or_zero
wire_block-Fits = record {
  message = record {
    block = record {
      slot = omega arith;
      proposer_index = omega arith;
      parent_root = refl;
      state_root = refl;
      body = record { attestations = (zero_attestation-Fits, tt); few = omega arith };
    };
    attestation = zero_attestation-Fits;
    present = refl;
  };
  signatures = (length-replicate {A = ℕ} 3112 7, tt);
  few = omega arith;
}

unmarshal-marshal_signed_block_example :
    (marshal_signed_block le_ssz [] wire_block >>= unmarshal_signed_block le_ssz)
    ≡ ok (fill_signed wire_block)
unmarshal-marshal_signed_block_example =
    unmarshal-marshal_signed_block le_ssz le_ssz-IsLawful wire_block wire_block-Fits

check_signature_count-unmarshal_example :
    ((marshal_signed_block le_ssz [] wire_block >>= unmarshal_signed_block le_ssz)
      >>= check_signature_count toy)
    ≡ err signature_count
unfolding check_signature_count
check_signature_count-unmarshal_example =
    check_signature_count-unmarshal le_ssz le_ssz-IsLawful toy wire_block refl wire_block-Fits refl

abbrev pub all_bytes : List ℕ → Bool
all_bytes [] = true
all_bytes (b ∷ bs) = let rest = all_bytes bs in ltb b 256 && rest

pub all_bytes-Bytes : (bs : List ℕ) → all_bytes bs ≡ true → Bytes bs
all_bytes-Bytes [] e = tt
all_bytes-Bytes (b ∷ bs) e = elim (Bool-cases (ltb b 256)) [
  | inl small ↦ (ground arith, all_bytes-Bytes bs (rw small at e))
  | inr large ↦ cc (rw large at e)
]

-- The bytes of a block without votes and signatures.
abbrev bare_block : SignedBlockWithAttestation
bare_block = record {
  message = record {
    block = record {
      slot = 5;
      proposer_index = 1;
      parent_root = zero_hash;
      state_root = zero_hash;
      body = record { attestations = [] };
    };
    proposer_attestation = some zero_attestation;
  };
  signature = [];
}

bare_block-Fits : FitsSignedBlock bare_block
unfolding proposer_or_zero
bare_block-Fits = record {
  message = record {
    block = record {
      slot = omega arith;
      proposer_index = omega arith;
      parent_root = refl;
      state_root = refl;
      body = record { attestations = tt; few = omega arith };
    };
    attestation = zero_attestation-Fits;
    present = refl;
  };
  signatures = tt;
  few = omega arith;
}

abbrev bare_bytes : List ℕ
bare_bytes = signed_block_bytes bare_block

bare_bytes-Bytes : Bytes bare_bytes
unfolding signed_block_bytes block_with_attestation_bytes block_bytes body_bytes joined le_bytes
    attestation_bytes attestation_data_bytes checkpoint_bytes proposer_or_zero
    size_block_with_attestation size_block size_body
bare_bytes-Bytes = all_bytes-Bytes bare_bytes refl

marshal-unmarshal_signed_block_example : marshal_signed_block le_ssz [] bare_block ≡ ok bare_bytes
marshal-unmarshal_signed_block_example =
    marshal-unmarshal_signed_block le_ssz le_ssz-IsLawful bare_bytes bare_block bare_bytes-Bytes
      ((signed_block-IsCodec le_ssz le_ssz-IsLawful).reads bare_block bare_block-Fits)

-- A genesis state whose roots and keys have their sizes.
abbrev wide : Primitives
wide = record toy { body_root = λ b. zero_hash }

abbrev wide_genesis : State
wide_genesis = generate_genesis wide 1000 (record { pubkey = replicate 52 6; index = 0 } ∷ [])

wide_genesis-Fits : FitsState wide_genesis
unfolding generate_genesis
wide_genesis-Fits = record {
  genesis_time = omega arith;
  slot = omega arith;
  header = record {
    slot = omega arith;
    proposer_index = omega arith;
    parent_root = refl;
    state_root = refl;
    body_root = refl;
  };
  justified = record { root = refl; slot = omega arith };
  finalized = record { root = refl; slot = omega arith };
  hashes = tt;
  few_hashes = omega arith;
  slots = 0;
  slots-IsBitlist = one_bit;
  few_slots = omega arith;
  validators = (record { pubkey = refl; index = omega arith }, tt);
  few_validators = omega arith;
  roots = tt;
  few_roots = omega arith;
  votes = 0;
  votes-IsBitlist = one_bit;
  few_votes = omega arith;
}

unmarshal-marshal_state_example :
    ((marshal_state le_ssz [] wide_genesis >>= unmarshal_state le_ssz) ≡ ok wide_genesis)
    × (length (state_bytes wide_genesis) ≡ size_state wide_genesis)
    × (marshal_state le_ssz [] wide_genesis ≡ ok (state_bytes wide_genesis))
unmarshal-marshal_state_example =
    unmarshal-marshal_state le_ssz le_ssz-IsLawful wide_genesis wide_genesis-Fits
