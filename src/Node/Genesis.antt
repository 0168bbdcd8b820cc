-- ===== src/Node/Genesis.antt =====
-- node/lifecycle.go: initGenesis, up to the clock that it gives the store.
use gean.Base.{
  ℕ, ◌≡◌, refl, List, [], none, some, Run, ok, length, same_bytes_iff, lookup-insert, bytes_eq,
}
use gean.Types.Containers.{
  zero_hash, Checkpoint, Validator, Block, SignedBlockWithAttestation, State, Primitives,
}
use gean.Storage.{new_storage, get_block, get_state, put_block, put_signed_block, put_state}
use gean.Transition.Slots.{generate_genesis}
use gean.ForkChoice.Store.{Store, new_store}

module _ (p : Primitives) where
  unfoldable pub genesis_block : State → Block
  genesis_block genesis_state = record {
    slot = 0;
    proposer_index = 0;
    parent_root = zero_hash;
    state_root = p.state_root genesis_state;
    body = record { attestations = [] };
  }

  unfoldable pub init_genesis : ℕ → List Validator → Run Store
  init_genesis genesis_time validators =
      let genesis_state = generate_genesis p genesis_time validators in
      new_store p genesis_state (genesis_block genesis_state) new_storage

  -- A store whose head, safe target and checkpoints are the stored genesis block.
  pub record IsGenesis (genesis_time : ℕ) (validators : List Validator) (c : Store) : Type 0 where
    pub block :
        get_block c.storage c.head
        ≡ some (genesis_block (generate_genesis p genesis_time validators))
    pub state : get_state c.storage c.head ≡ some (generate_genesis p genesis_time validators)
    pub safe : c.safe_target ≡ c.head
    pub justified : c.latest_justified ≡ record { root = c.head; slot = 0 }
    pub finalized : c.latest_finalized ≡ record { root = c.head; slot = 0 }
    pub time : c.time ≡ 0
    pub genesis : c.genesis_time ≡ genesis_time
    pub registry : c.num_validators ≡ length validators

  -- What `initGenesis` gives.
  unfoldable pub genesis_store : ℕ → List Validator → Store
  genesis_store genesis_time validators =
      let state = generate_genesis p genesis_time validators in
      let block = genesis_block state in
      let root = p.block_root block in
      let at_root : Checkpoint = record { root = root; slot = 0 } in
      let envelope : SignedBlockWithAttestation = record {
        message = record { block = block; proposer_attestation = none };
        signature = [];
      } in
      record {
        time = 0;
        genesis_time = genesis_time;
        num_validators = length validators;
        head = root;
        safe_target = root;
        latest_justified = at_root;
        latest_finalized = at_root;
        storage =
            put_state (put_signed_block (put_block new_storage root block) root envelope) root
              state;
        latest_known_attestations = [];
        latest_new_attestations = [];
      }

  init_genesis_lem :
      (genesis_time : ℕ) (validators : List Validator)
      → init_genesis genesis_time validators ≡ ok (genesis_store genesis_time validators)
  unfolding init_genesis new_store genesis_block genesis_store generate_genesis
  init_genesis_lem genesis_time validators =
      let r = p.state_root (generate_genesis p genesis_time validators) in
      let same = (same_bytes_iff r r).1 refl in rw same

  genesis_store-IsGenesis :
      (genesis_time : ℕ) (validators : List Validator)
      → IsGenesis genesis_time validators (genesis_store genesis_time validators)
  unfolding genesis_store put_block put_signed_block put_state get_block get_state new_storage
  genesis_store-IsGenesis genesis_time validators =
      let state = generate_genesis p genesis_time validators in
      let block = genesis_block state in
      let root = p.block_root block in
      let same = (same_bytes_iff root root).1 refl in
      record {
        block = rw (lookup-insert root root block [], same);
        state = rw (lookup-insert root root state [], same);
        safe = refl;
        justified = refl;
        finalized = refl;
        time = refl;
        genesis = refl;
        registry = refl;
      }

  -- A node starts: the genesis block carries the root of the genesis state, so that the store is
  -- built without a panic, at time 0, with that block as its head, its safe target and both
  -- checkpoints, and with its state stored.
  pub init_genesis-IsGenesis :
      (genesis_time : ℕ) (validators : List Validator)
      → (c : Store) × (init_genesis genesis_time validators ≡ ok c)
        × IsGenesis genesis_time validators c
  init_genesis-IsGenesis genesis_time validators = (
    genesis_store genesis_time validators,
    init_genesis_lem genesis_time validators,
    genesis_store-IsGenesis genesis_time validators,
  )
