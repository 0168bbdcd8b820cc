-- ===== src/Node/Sync.antt =====
-- node/sync.go: blocks that a peer has and the node does not. A peer is what its two requests
-- give: a status or an error, and the blocks and the error of RequestBlocksByRoot. `now` is what the
-- store's clock says where a block is processed, by the number of older blocks that are pending.
pub mod Safe
pub mod Catch
use gean.Base.{
  ℕ, zero, suc, ◌+◌, List, [], ◌∷◌, Bool, true, false, Option, none, some, length, leb, ltb,
  if◌then◌else◌, Run, ok, err, panic, ◌>>=◌,
}
use gean.Types.Containers.{Root, SignedBlockWithAttestation, Primitives}
use gean.Storage.{get_block}
use gean.ForkChoice.Store.{Store, get_status}
use gean.ForkChoice.Block.{process_block}
use gean.Network.ReqResp.{Status, Answer}

pub record Peer : Type 0 where
  pub status : Status → Run Status
  pub blocks_by_root : List Root → Answer

abbrev pub max_sync_depth : ℕ
max_sync_depth = 64

unfoldable pub our_status : Store → Status
our_status c =
    let status = get_status c in
    record {
      finalized = record { root = status.finalized_root; slot = status.finalized_slot };
      head = record { root = status.head; slot = status.head_slot };
    }

-- The block that the walk goes on with: `err != nil || len(blocks) == 0` ends it.
unfoldable pub first_block : Answer → Option SignedBlockWithAttestation
first_block answer = elim answer.failure [
  | some _ ↦ none
  | none ↦ elim answer.blocks [ [] ↦ none | sb ∷ _ ↦ some sb ]
]

-- The walk back from `root`, with the rounds left counted: the pending blocks.
unfoldable pub walk : ℕ → Store → (List Root → Answer) → Root → List SignedBlockWithAttestation
walk zero c ask root = []
walk (suc k) c ask root = elim (get_block c.storage root) [
  | some _ ↦ []
  | none ↦ elim (first_block (ask (root ∷ []))) [
    | none ↦ []
    | some sb ↦ sb ∷ walk k c ask sb.message.block.parent_root
  ]
]

module _ (p : Primitives) (now : ℕ → Option ℕ) where
  -- A round of the second loop: the number of synced blocks grows where there is no error.
  unfoldable pub counted : Store × Run (Unit {0}) → ℕ → Run (Store × ℕ)
  counted (c, ok _) synced = ok (c, synced + 1)
  counted (c, err _) synced = ok (c, synced)
  counted (c, panic) synced = panic

  -- The second loop, which starts at the last pending block.
  unfoldable pub process_pending : Store → List SignedBlockWithAttestation → Run (Store × ℕ)
  process_pending c [] = ok (c, 0)
  process_pending c (sb ∷ older) = process_pending c older >>= λ (d, synced).
      counted (process_block p d (now (length older)) sb) synced

  unfoldable pub sync_with_peer : Peer → Store → Run (Store × Bool)
  sync_with_peer peer c = elim (peer.status (our_status c)) [
    | err _ ↦ ok (c, false)
    | panic ↦ panic
    | ok peer_status ↦
        if leb peer_status.head.slot (get_status c).head_slot
        then ok (c, false)
        else process_pending c (walk max_sync_depth c peer.blocks_by_root peer_status.head.root)
          >>= λ (d, synced). ok (d, ltb 0 synced)
  ]

  -- The loop over the connected peers.
  unfoldable pub initial_sync : List Peer → Store → Run Store
  initial_sync [] c = ok c
  initial_sync (peer ∷ peers) c = sync_with_peer peer c >>= λ (d, synced). initial_sync peers d
