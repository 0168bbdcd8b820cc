-- ===== src/Tests/Data.antt =====
-- A small chain for the tests: three validators, roots that are the slot with a tag in front, and
-- signatures that hold for the public key.
use gean.Base.{
  ℕ, ◌+◌, ◌*◌, List, [], ◌∷◌, true, same_bytes, leb, if◌then◌else◌, zero, suc, some, none, Run, ok,
  err, panic,
}
use gean.Types.Containers.{
  zero_hash, Checkpoint, Validator, Attestation, SignedAttestation, Block,
  SignedBlockWithAttestation, State, Primitives,
}
use gean.Transition.Slots.{generate_genesis, process_slot}
use gean.Transition.Header.{apply_header}
use gean.Transition.Attest.{process_attestations}
use gean.Transition.Block.{state_transition}
use gean.ForkChoice.Store.{Store}

-- The integer square root, by counting up.
abbrev pub root_from : ℕ → ℕ → ℕ
root_from n zero = zero
root_from n (suc k) =
    let below = root_from n k in if leb ((below + 1) * (below + 1)) n then below + 1 else below

abbrev pub toy_sqrt : ℕ → ℕ
toy_sqrt n = root_from n n

abbrev pub toy : Primitives
toy = record {
  block_root = λ b. 1 ∷ b.slot ∷ [];
  header_root = λ h. 1 ∷ h.slot ∷ [];
  body_root = λ b. 3 ∷ [];
  state_root = λ s. 2 ∷ s.slot ∷ [];
  attestation_root = λ a. some (4 ∷ a.validator_id ∷ []);
  float_sqrt = toy_sqrt;
  verify = λ key slot message sig. same_bytes key sig;
  should_verify = true;
}

abbrev pub validators : List Validator
validators =
    record { pubkey = 10 ∷ []; index = 0 }
    ∷ record { pubkey = 11 ∷ []; index = 1 }
    ∷ record { pubkey = 12 ∷ []; index = 2 }
    ∷ []

abbrev pub genesis : State
genesis = generate_genesis toy 1000 validators

abbrev pub checkpoint : ℕ → Checkpoint
checkpoint slot = record { root = 1 ∷ slot ∷ []; slot = slot }

-- A vote of `id` at `slot` for the block of slot `target`, from that of slot `source`.
abbrev pub vote : ℕ → ℕ → ℕ → ℕ → Attestation
vote id slot source target = record {
  validator_id = id;
  att_data = record {
    slot = slot;
    head = checkpoint target;
    target = checkpoint target;
    source = checkpoint source;
  };
}

abbrev pub signed : Attestation → List ℕ → SignedAttestation
signed att sig = record { validator_id = att.validator_id; message = att.att_data; signature = sig }

abbrev pub block : ℕ → ℕ → ℕ → List Attestation → Block
block slot proposer parent atts = record {
  slot = slot;
  proposer_index = proposer;
  parent_root = 1 ∷ parent ∷ [];
  state_root = 2 ∷ slot ∷ [];
  body = record { attestations = atts };
}

abbrev pub anchor : Block
anchor = record (block 0 0 0 []) { parent_root = zero_hash }

abbrev pub block_one : Block
block_one = block 1 1 0 []

-- Two of three validators justify slot 1.
abbrev pub votes_two : List Attestation
votes_two = vote 0 1 0 1 ∷ vote 2 1 0 1 ∷ []

abbrev pub block_two : Block
block_two = block 2 2 1 votes_two

abbrev pub state_of : Run State → State
state_of (ok s) = s
state_of (err e) = genesis
state_of panic = genesis

abbrev pub state_one : State
state_one = state_of (state_transition toy genesis block_one)

-- The first block's state, moved to the second block's slot.
abbrev pub state_one_later : State
state_one_later = record (process_slot toy state_one) { slot = 2 }

-- The state before the attestations of the second block.
abbrev pub before_votes : State
before_votes = apply_header toy state_one_later block_two

abbrev pub after_votes : State
after_votes = process_attestations toy before_votes votes_two

-- The store of the genesis block, and the first block in its envelope.
abbrev pub store : Store
store = record {
  time = 0;
  genesis_time = 1000;
  num_validators = 3;
  head = 1 ∷ 0 ∷ [];
  safe_target = 1 ∷ 0 ∷ [];
  latest_justified = checkpoint 0;
  latest_finalized = checkpoint 0;
  storage = record {
    blocks = (1 ∷ 0 ∷ [], anchor) ∷ [];
    signed_blocks =
        (
          1 ∷ 0 ∷ [],
          record {
            message = record { block = anchor; proposer_attestation = none };
            signature = [];
          },
        )
        ∷ [];
    states = (1 ∷ 0 ∷ [], genesis) ∷ [];
  };
  latest_known_attestations = [];
  latest_new_attestations = (1, signed (vote 1 0 0 0) (11 ∷ [])) ∷ [];
}

abbrev pub envelope_one : SignedBlockWithAttestation
envelope_one = record {
  message = record { block = block_one; proposer_attestation = none };
  signature = [];
}
