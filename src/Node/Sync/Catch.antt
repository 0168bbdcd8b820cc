-- ===== src/Node/Sync/Catch.antt =====
-- A node that syncs with an honest node gets the chain that it lacks.
use gean.Base.{
  ℕ, zero, suc, ◌≤◌, ◌≡◌, refl, ap, List, [], ◌∷◌, map, Option, none, some, length, arith,
}
use gean.Types.Containers.{Root, Block, SignedBlockWithAttestation}
use gean.Storage.{get_block, get_signed_block}
use gean.ForkChoice.Store.{Store}
use gean.Ssz.{Ssz, IsLawful}
use gean.Ssz.Blocks.{fill, fill_signed}
use gean.Network.{Snappy, IsLossless}
use gean.Network.ReqResp.{Answer, handle_blocks_by_root, request_blocks_by_root}
use gean.Network.ReqResp.Fetch.{IsRoot, Sendable, Served, request-handle_blocks_by_root}
use gean.Node.Sync.{first_block, walk, max_sync_depth}

-- An answer, or none where the rounds of the client ran out.
unfoldable pub answered : Option Answer → Answer
answered none = record { blocks = []; failure = none }
answered (some a) = a

module _ (z : Ssz) (y : Snappy) where
  -- A peer that is a node with a store: the bytes of both sides, and what the client makes of them.
  unfoldable pub ask_node : Store → List Root → Answer
  ask_node peer roots = answered (request_blocks_by_root y z (handle_blocks_by_root y z peer) roots)

-- The peer's chain from `root` down to the first block that the node has.
unfoldable pub IsMissing : Store → Store → Root → List SignedBlockWithAttestation → Type 0
IsMissing c peer root [] = (b : Block) × (get_block c.storage root ≡ some b)
IsMissing c peer root (sb ∷ older) =
    (get_block c.storage root ≡ none)
    × IsRoot root
    × (get_signed_block peer.storage root ≡ some sb)
    × Sendable sb
    × IsMissing c peer sb.message.block.parent_root older

module _ (z : Ssz) (lawful : IsLawful z) (y : Snappy) (lossless : IsLossless y) where
  first_block-ask_node :
      (peer : Store) (root : Root) (sb : SignedBlockWithAttestation)
      → IsRoot root
      → get_signed_block peer.storage root ≡ some sb
      → Sendable sb
      → first_block (ask_node z y peer (root ∷ [])) ≡ some (fill_signed sb)
  unfolding first_block ask_node answered get_signed_block
  first_block-ask_node peer root sb h found sendable = rw (
      request-handle_blocks_by_root y lossless z lawful peer (root ∷ []) (sb ∷ []) (h, tt)
        (omega arith) (Served.stored root sb found Served.end) (sendable, tt))

  walk-missing :
      (k : ℕ) (c peer : Store) (root : Root) (sbs : List SignedBlockWithAttestation)
      → length sbs ≤ k
      → IsMissing c peer root sbs
      → walk k c (ask_node z y peer) root ≡ map fill_signed sbs
  unfolding walk IsMissing fill_signed fill
  walk-missing zero c peer root [] le h = refl
  walk-missing zero c peer root (sb ∷ older) le h = absurd (omega arith)
  walk-missing (suc k) c peer root [] le (b, known) = rw (walk, known)
  walk-missing (suc k) c peer root (sb ∷ older) le (missing, h, found, sendable, rest) =
      let sent = first_block-ask_node peer root sb h found sendable in
      let more = walk-missing k c peer sb.message.block.parent_root older (omega arith) rest in
      rw (walk, missing, sent) (ap (◌∷◌ (fill_signed sb)) more)

  -- A node that walks back from a root of an honest node's chain asks for and is sent that chain down
  -- to the first block that it has: where these are at most 64 blocks that fit Go's types and a
  -- frame, they are pending in this order, each with its proposer attestation filled in.
  pub walk-ask_node :
      (c peer : Store) (root : Root) (sbs : List SignedBlockWithAttestation)
      → length sbs ≤ max_sync_depth
      → IsMissing c peer root sbs
      → walk max_sync_depth c (ask_node z y peer) root ≡ map fill_signed sbs
  walk-ask_node = walk-missing max_sync_depth
