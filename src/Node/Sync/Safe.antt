-- ===== src/Node/Sync/Safe.antt =====
-- What no peer can do to a node's chain, and what a sync stores.
use gean.Base.{
  ℕ, zero, suc, ◌+◌, ◌≤◌, ◌≡◌, refl, sym, subst, List, [], ◌∷◌, All, Bool, Bool-cases, inl, inr,
  Option, Option-cases, some, length, leb, Run, Run-cases, ok, err, panic, >>=-eq-ok, arith,
}
use gean.Types.Containers.{Root, Block, SignedBlockWithAttestation, Primitives}
use gean.Storage.{get_block}
use gean.ForkChoice.Store.{Store, get_status}
use gean.ForkChoice.Block.{process_block}
use gean.ForkChoice.Block.Correct.{
  Extends, Extends-trans, SameChain-Extends, process_block-Extends, process_block_stored,
}
use gean.ForkChoice.Time.Ticks.{SameChain-refl}
use gean.Network.ReqResp.{Answer}
use gean.Ssz.Codec.{ok_inj}
use gean.Node.Sync.{
  Peer, our_status, first_block, walk, counted, process_pending, sync_with_peer, initial_sync,
  max_sync_depth,
}

pub length-walk :
    (k : ℕ) (c : Store) (ask : List Root → Answer) (root : Root) → length (walk k c ask root) ≤ k
unfolding walk
length-walk zero c ask root = omega arith
length-walk (suc k) c ask root = elim (Option-cases (get_block c.storage root)) [
  | inr (b, known) ↦ rw (walk, known) (omega arith)
  | inl missing ↦ elim (Option-cases (first_block (ask (root ∷ [])))) [
    | inl none_sent ↦ rw (walk, missing, none_sent) (omega arith)
    | inr (sb, sent) ↦
        rw (walk, missing, sent) (omega (arith, length-walk k c ask sb.message.block.parent_root))
  ]
]

module _ (p : Primitives) (now : ℕ → Option ℕ) where
  Extends-refl : (c : Store) → Extends c c
  Extends-refl c = SameChain-Extends c c (SameChain-refl c)

  -- The blocks that are in the store.
  abbrev pub IsStored : Store → SignedBlockWithAttestation → Type 0
  IsStored c sb = (b : Block) × (get_block c.storage (p.block_root sb.message.block) ≡ some b)

  IsStored-Extends :
      (c d : Store) (sbs : List SignedBlockWithAttestation)
      → Extends c d
      → All (IsStored c) sbs
      → All (IsStored d) sbs
  IsStored-Extends c d [] h k = tt
  IsStored-Extends c d (sb ∷ sbs) h ((b, e), k) =
      ((b, h.blocks _ b e), IsStored-Extends c d sbs h k)

  -- A round: the store extends the one before, and the count grows by one exactly for a block that is
  -- then stored.
  counted_inv :
      (r : Store × Run (Unit {0})) (n : ℕ) (out : Store × ℕ)
      → counted p now r n ≡ ok out
      → (out.0 ≡ r.0) × (out.1 ≤ n + 1) × (out.1 ≡ n + 1 → r.1 ≡ ok tt)
  unfolding counted
  counted_inv (c, panic) n out e = cc
  counted_inv (c, err x) n out e =
      rw (sym (ok_inj _ out e)) (refl, omega arith, λ q. absurd (omega arith))
  counted_inv (c, ok _) n out e = rw (sym (ok_inj _ out e)) (refl, omega arith, λ q. refl)

  pub record IsProcessed (c : Store) (sbs : List SignedBlockWithAttestation) (out : Store × ℕ)
      : Type 0 where
    pub extends : Extends c out.0
    pub few : out.1 ≤ length sbs
    pub all_stored : out.1 ≡ length sbs → All (IsStored out.0) sbs

  process_pending-IsProcessed :
      (c : Store) (sbs : List SignedBlockWithAttestation) (out : Store × ℕ)
      → process_pending p now c sbs ≡ ok out
      → IsProcessed c sbs out
  unfolding process_pending
  process_pending-IsProcessed c [] out e =
      rw (sym (ok_inj _ out e))
        (record { extends = Extends-refl c; few = omega arith; all_stored = λ q. tt })
  process_pending-IsProcessed c (sb ∷ older) out e =
      let (before, e₁, e₂) = >>=-eq-ok (process_pending p now c older) _ e in
      let rest = process_pending-IsProcessed c older before e₁ in
      let after = process_block p before.0 (now (length older)) sb in
      let (store, le, good) = counted_inv after before.1 out e₂ in
      let step = process_block-Extends p before.0 (now (length older)) sb in
      record {
        extends = rw store (Extends-trans c before.0 after.0 rest.extends step);
        few = omega (arith, rest.few, le);
        all_stored = λ q.
            subst (λ s. All (IsStored s) (sb ∷ older)) (sym store)
              (
                (process_block_stored p before.0 (now (length older)) sb).0
                    (good (omega (arith, q, rest.few, le))),
                IsStored-Extends before.0 after.0 older step
                    (rest.all_stored (omega (arith, q, rest.few, le))),
              );
      }

  sync_with_peer-Extends :
      (peer : Peer) (c : Store) (out : Store × Bool)
      → sync_with_peer p now peer c ≡ ok out
      → Extends c out.0
  unfolding sync_with_peer
  sync_with_peer-Extends peer c out e = elim (Run-cases (peer.status (our_status c))) [
    | inr (inl crash) ↦ cc (rw (crash, sync_with_peer) at e)
    | inr (inr (x, failed)) ↦
        rw (sym (ok_inj _ out (rw (failed, sync_with_peer) at e))) (Extends-refl c)
    | inl (status, answered) ↦
        let e' = rw (answered, sync_with_peer) at e in
        elim (Bool-cases (leb status.head.slot (get_status c).head_slot)) [
          | inl level ↦ rw (sym (ok_inj _ out (rw level at e'))) (Extends-refl c)
          | inr behind ↦
              let pending = walk max_sync_depth c peer.blocks_by_root status.head.root in
              let (r, e₁, e₂) = >>=-eq-ok (process_pending p now c pending) _ (rw behind at e') in
              rw (sym (ok_inj _ out e₂)) ((process_pending-IsProcessed c pending r e₁).extends)
        ]
  ]

  -- Whatever peers answer, the initial sync with them, where it ends, loses and replaces no stored
  -- block, and the slots of the justified and of the finalized checkpoint do not fall.
  pub initial_sync-Extends :
      (peers : List Peer) (c d : Store) → initial_sync p now peers c ≡ ok d → Extends c d
  unfolding initial_sync
  initial_sync-Extends [] c d e = rw (sym (ok_inj _ d e)) (Extends-refl c)
  initial_sync-Extends (peer ∷ peers) c d e =
      let (r, e₁, e₂) = >>=-eq-ok (sync_with_peer p now peer c) _ e in
      Extends-trans c r.0 d (sync_with_peer-Extends peer c r e₁)
        (initial_sync-Extends peers r.0 d e₂)

  -- At most 64 blocks are pending in a sync; the oldest of them is processed first, and where as many
  -- are synced as are pending, each of them is in the store in the end.
  pub process_pending-IsStored :
      (c d : Store) (ask : List Root → Answer) (root : Root) (synced : ℕ)
      → process_pending p now c (walk max_sync_depth c ask root) ≡ ok (d, synced)
      → (length (walk max_sync_depth c ask root) ≤ max_sync_depth)
        × (synced ≤ length (walk max_sync_depth c ask root))
        × (synced ≡ length (walk max_sync_depth c ask root)
            → All (IsStored d) (walk max_sync_depth c ask root))
  process_pending-IsStored c d ask root synced e =
      let done = process_pending-IsProcessed c (walk max_sync_depth c ask root) (d, synced) e in
      (length-walk max_sync_depth c ask root, done.few, done.all_stored)
