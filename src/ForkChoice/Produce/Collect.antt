-- ===== src/ForkChoice/Produce/Collect.antt =====
-- The search for the body's attestations ends in a fixed point.
use gean.Base.{ℕ, suc, ◌≡◌, List, [], ◌∷◌, ◌++◌, true, if◌then◌else◌, some, IsIn, Run, ok}
use gean.Types.Containers.{zero_hash, Attestation, SignedAttestation, Block, State, Primitives}
use gean.Storage.{Storage, get_block}
use gean.Transition.Block.{process_block}
use gean.ForkChoice.Ghost.{AttestationMap}
use gean.ForkChoice.Store.{Store, contains_attestation}
use gean.ForkChoice.Produce.{Collected, pick, candidate, collect}

abbrev attestation_of : SignedAttestation → Attestation
attestation_of sa = record { validator_id = sa.validator_id; att_data = sa.message }

-- The known votes that the body lacks.
pending : List Attestation → AttestationMap → ℕ
pending atts [] = 0
pending atts ((id, sa) ∷ known) =
    let rest = pending atts known in
    if contains_attestation atts (attestation_of sa) then rest else suc rest

-- A body on which the search stops: its candidate block is processed, and it holds every known vote
-- for a stored head that starts from the justified checkpoint of the post-state, up to the validator
-- and the slot of the vote.
pub record IsFixed (p : Primitives) (c : Store) (advanced : State) (slot index : ℕ)
    (body : Collected) : Type 0 where
  pub post : State
  pub processed :
      process_block p advanced (candidate slot index c.head zero_hash body.attestations) ≡ ok post
  pub complete :
      (id : ℕ) (sa : SignedAttestation) (b : Block)
      → IsIn (id, sa) c.latest_known_attestations
      → get_block c.storage sa.message.head.root ≡ some b
      → sa.message.source ≡ post.latest_justified
      → contains_attestation body.attestations (attestation_of sa) ≡ true

module _ (p : Primitives) (c : Store) (advanced : State) (slot index : ℕ) where
  abbrev known : AttestationMap
  known = c.latest_known_attestations

  -- A round, once the candidate's post-state is known.
  abbrev round : ℕ → Collected → State → Run Collected
  round k acc post =
      let new = pick c.storage post acc.attestations known in
      elim new.attestations [
        | [] ↦ ok acc
        | _ ∷ _ ↦ collect p k c advanced slot index (record {
          attestations = acc.attestations ++ new.attestations;
          signed = acc.signed ++ new.signed;
        })
      ]

  abbrev grown : Collected → State → Collected
  grown acc post =
      let new = pick c.storage post acc.attestations known in
      record {
        attestations = acc.attestations ++ new.attestations;
        signed = acc.signed ++ new.signed;
      }
