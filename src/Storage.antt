-- ===== src/Storage.antt =====
-- storage/interface.go and storage/memory/memory.go: the in-memory store. Each method holds the
-- lock for its whole body, so that a method is one step.
use gean.Base.{List, [], Option, lookup, insert, bytes_eq}
use gean.Types.Containers.{Root, Block, SignedBlockWithAttestation, State}

pub record Storage : Type 0 where
  pub blocks : List (Root × Block)
  pub signed_blocks : List (Root × SignedBlockWithAttestation)
  pub states : List (Root × State)

-- memory.New
unfoldable pub new_storage : Storage
new_storage = record { blocks = []; signed_blocks = []; states = [] }

unfoldable pub get_block : Storage → Root → Option Block
get_block m root = lookup root m.blocks

unfoldable pub put_block : Storage → Root → Block → Storage
put_block m root block = record m { blocks = insert root block m.blocks }

unfoldable pub get_signed_block : Storage → Root → Option SignedBlockWithAttestation
get_signed_block m root = lookup root m.signed_blocks

unfoldable pub put_signed_block : Storage → Root → SignedBlockWithAttestation → Storage
put_signed_block m root sb = record m { signed_blocks = insert root sb m.signed_blocks }

unfoldable pub get_state : Storage → Root → Option State
get_state m root = lookup root m.states

unfoldable pub put_state : Storage → Root → State → Storage
put_state m root state = record m { states = insert root state m.states }

-- A copy of the map.
unfoldable pub get_all_blocks : Storage → List (Root × Block)
get_all_blocks m = m.blocks

unfoldable pub get_all_states : Storage → List (Root × State)
get_all_states m = m.states
