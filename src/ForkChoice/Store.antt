-- ===== src/ForkChoice/Store.antt =====
-- chain/forkchoice/store.go and helpers.go: the state of the fork choice. Every exported method
-- holds the store's lock for its whole body, so that a method is one step on the state. `NowFn` is
-- read at most once in a method: its value, or none where it is nil, is an argument.
use gean.Base.{
  ℕ, ◌+◌, ◌-◌, ◌*◌, ◌/◌, ◌%◌, List, [], ◌∷◌, Bool, true, false, ◌&&◌, Option, none, some, Run, ok,
  panic, length, ◌==◌, if◌then◌else◌, not, same_bytes, lookup, nat_eq,
}
use gean.Types.Containers.{
  Root, Checkpoint, Attestation, SignedAttestation, Block, SignedBlockWithAttestation, State,
  Primitives, seconds_per_slot,
}
use gean.Types.Slot.{u64_mod}
use gean.Storage.{Storage, get_block, put_block, put_signed_block, put_state}
use gean.ForkChoice.Ghost.{AttestationMap}

pub record Store : Type 0 where
  pub time : ℕ
  pub genesis_time : ℕ
  pub num_validators : ℕ
  pub head : Root
  pub safe_target : Root
  pub latest_justified : Checkpoint
  pub latest_finalized : Checkpoint
  pub storage : Storage
  pub latest_known_attestations : AttestationMap
  pub latest_new_attestations : AttestationMap

pub record ChainStatus : Type 0 where
  pub head : Root
  pub head_slot : ℕ
  pub justified_root : Root
  pub justified_slot : ℕ
  pub finalized_root : Root
  pub finalized_slot : ℕ

unfoldable pub get_status : Store → ChainStatus
get_status c = record {
  head = c.head;
  head_slot = elim (get_block c.storage c.head) [ some hb ↦ hb.slot | none ↦ 0 ];
  justified_root = c.latest_justified.root;
  justified_slot = c.latest_justified.slot;
  finalized_root = c.latest_finalized.root;
  finalized_slot = c.latest_finalized.slot;
}

unfoldable pub get_known_attestation : Store → ℕ → Option SignedAttestation
get_known_attestation c validator = lookup validator c.latest_known_attestations

unfoldable pub get_new_attestation : Store → ℕ → Option SignedAttestation
get_new_attestation c validator = lookup validator c.latest_new_attestations

-- `NewStore`: the store with its storage, which the code shares with its caller.
unfoldable pub new_store : Primitives → State → Block → Storage → Run Store
new_store p state anchor storage =
    if not (same_bytes anchor.state_root (p.state_root state))
    then panic
    else let anchor_root = p.block_root anchor in
      let envelope : SignedBlockWithAttestation = record {
        message = record { block = anchor; proposer_attestation = none };
        signature = [];
      } in
      ok (record {
        time = anchor.slot * seconds_per_slot % u64_mod;
        genesis_time = state.config.genesis_time;
        num_validators = length state.validators;
        head = anchor_root;
        safe_target = anchor_root;
        latest_justified = record { root = anchor_root; slot = anchor.slot };
        latest_finalized = record { root = anchor_root; slot = anchor.slot };
        storage =
            put_state (put_signed_block (put_block storage anchor_root anchor) anchor_root envelope)
              anchor_root state;
        latest_known_attestations = [];
        latest_new_attestations = [];
      })

unfoldable pub contains_attestation : List Attestation → Attestation → Bool
contains_attestation [] att = false
contains_attestation (existing ∷ rest) att =
    if existing.validator_id == att.validator_id && existing.att_data.slot == att.att_data.slot
    then true
    else contains_attestation rest att

unfoldable pub ceil_div : ℕ → ℕ → ℕ
ceil_div a b = ((a + b) % u64_mod + u64_mod - 1) % u64_mod / b
