-- ===== src/Transition/Block.antt =====
-- chain/statetransition/transition.go: ProcessBlock and StateTransition. Metrics are left out.
pub mod Correct
use gean.Base.{not, if◌then◌else◌, same_bytes, Run, ok, err, ◌>>=◌, bad_state_root}
use gean.Types.Containers.{Block, State, Primitives}
use gean.Transition.Slots.{process_slots}
use gean.Transition.Header.{process_block_header}
use gean.Transition.Attest.{process_attestations}

module _ (p : Primitives) where
  unfoldable pub process_block : State → Block → Run State
  process_block state block = do
    s ← process_block_header p state block
    ok (process_attestations p s block.body.attestations)

  -- Errors of the parts are wrapped in a text, and keep their kind here.
  unfoldable pub state_transition : State → Block → Run State
  state_transition state block = do
    s ← process_slots p state block.slot
    t ← process_block s block
    if not (same_bytes block.state_root (p.state_root t)) then err bad_state_root else ok t
