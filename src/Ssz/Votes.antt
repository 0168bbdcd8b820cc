-- ===== src/Ssz/Votes.antt =====
-- types/checkpoint_encoding.go, config_encoding.go and vote_encoding.go, with the headers of
-- block_encoding.go and the validators of state_encoding.go: the containers of a fixed size.
pub mod Small
pub mod RoundTrip
use gean.Base.{
  ℕ, List, ◌++◌, not, length, ◌==◌, if◌then◌else◌, slice, Run, ok, err, ◌>>=◌, ssz_size,
}
use gean.Types.Containers.{
  Checkpoint, Config, Validator, AttestationData, Attestation, SignedAttestation, BlockHeader,
}
use gean.Ssz.{Ssz}

module _ (z : Ssz) where
  unfoldable pub marshal_checkpoint : List ℕ → Checkpoint → Run (List ℕ)
  marshal_checkpoint buf c = ok (z.marshal_uint64 (buf ++ c.root) c.slot)

  unfoldable pub unmarshal_checkpoint : List ℕ → Run Checkpoint
  unmarshal_checkpoint buf =
      if not (length buf == 40)
      then err ssz_size
      else ok (record { root = slice 0 32 buf; slot = z.unmarshal_uint64 (slice 32 40 buf) })

  unfoldable pub marshal_config : List ℕ → Config → Run (List ℕ)
  marshal_config buf c = ok (z.marshal_uint64 buf c.genesis_time)

  unfoldable pub unmarshal_config : List ℕ → Run Config
  unmarshal_config buf =
      if not (length buf == 8)
      then err ssz_size
      else ok (record { genesis_time = z.unmarshal_uint64 (slice 0 8 buf) })

  unfoldable pub marshal_validator : List ℕ → Validator → Run (List ℕ)
  marshal_validator buf v = ok (z.marshal_uint64 (buf ++ v.pubkey) v.index)

  unfoldable pub unmarshal_validator : List ℕ → Run Validator
  unmarshal_validator buf =
      if not (length buf == 60)
      then err ssz_size
      else ok (record { pubkey = slice 0 52 buf; index = z.unmarshal_uint64 (slice 52 60 buf) })

  unfoldable pub marshal_header : List ℕ → BlockHeader → Run (List ℕ)
  marshal_header buf h = ok (
      z.marshal_uint64 (z.marshal_uint64 buf h.slot) h.proposer_index
      ++ h.parent_root
      ++ h.state_root
      ++ h.body_root)

  unfoldable pub unmarshal_header : List ℕ → Run BlockHeader
  unmarshal_header buf =
      if not (length buf == 112)
      then err ssz_size
      else ok (record {
        slot = z.unmarshal_uint64 (slice 0 8 buf);
        proposer_index = z.unmarshal_uint64 (slice 8 16 buf);
        parent_root = slice 16 48 buf;
        state_root = slice 48 80 buf;
        body_root = slice 80 112 buf;
      })

  unfoldable pub marshal_attestation_data : List ℕ → AttestationData → Run (List ℕ)
  marshal_attestation_data buf a =
      marshal_checkpoint (z.marshal_uint64 buf a.slot) a.head >>= λ dst₁.
      marshal_checkpoint dst₁ a.target >>= λ dst₂. marshal_checkpoint dst₂ a.source

  unfoldable pub unmarshal_attestation_data : List ℕ → Run AttestationData
  unmarshal_attestation_data buf =
      if not (length buf == 128)
      then err ssz_size
      else unmarshal_checkpoint (slice 8 48 buf) >>= λ head.
          unmarshal_checkpoint (slice 48 88 buf) >>= λ target.
          unmarshal_checkpoint (slice 88 128 buf) >>= λ source. ok (record {
            slot = z.unmarshal_uint64 (slice 0 8 buf);
            head = head;
            target = target;
            source = source;
          })

  unfoldable pub marshal_attestation : List ℕ → Attestation → Run (List ℕ)
  marshal_attestation buf a =
      marshal_attestation_data (z.marshal_uint64 buf a.validator_id) a.att_data

  unfoldable pub unmarshal_attestation : List ℕ → Run Attestation
  unmarshal_attestation buf =
      if not (length buf == 136)
      then err ssz_size
      else unmarshal_attestation_data (slice 8 136 buf) >>= λ data'.
          ok (record { validator_id = z.unmarshal_uint64 (slice 0 8 buf); att_data = data' })

  unfoldable pub marshal_signed_attestation : List ℕ → SignedAttestation → Run (List ℕ)
  marshal_signed_attestation buf s =
      marshal_attestation_data (z.marshal_uint64 buf s.validator_id) s.message >>= λ dst.
      ok (dst ++ s.signature)

  unfoldable pub unmarshal_signed_attestation : List ℕ → Run SignedAttestation
  unmarshal_signed_attestation buf =
      if not (length buf == 3248)
      then err ssz_size
      else unmarshal_attestation_data (slice 8 136 buf) >>= λ message. ok (record {
        validator_id = z.unmarshal_uint64 (slice 0 8 buf);
        message = message;
        signature = slice 136 3248 buf;
      })
