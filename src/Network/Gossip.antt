-- ===== src/Network/Gossip.antt =====
-- network/gossipsub/encoding.go and handler.go, with the gossip handlers of node/handler.go: the
-- payloads of the topics, the loops that read them, and the identifiers of messages. A payload is
-- what goes to `topic.Publish`, and what `sub.Next` gives until it fails is the list of messages.
pub mod RoundTrip
pub mod MessageId
pub mod Delivery
use gean.Base.{
  ℕ, ◌+◌, List, [], ◌∷◌, ◌++◌, Option, none, some, length, ltb, take, slice, le_bytes, le_value,
  if◌then◌else◌, Run, ok, err, panic, ◌>>=◌, bad_snappy, message_short, data_too_long, bits_missing,
  bits_too_long,
}
use gean.Types.Containers.{
  AttestationData, SignedAttestation, AggregatedAttestation, SignedBlockWithAttestation, Primitives,
}
use gean.Ssz.{Ssz}
use gean.Ssz.Votes.{
  marshal_attestation_data, unmarshal_attestation_data, marshal_signed_attestation,
  unmarshal_signed_attestation,
}
use gean.Ssz.Blocks.{marshal_signed_block, unmarshal_signed_block}
use gean.Network.{Snappy}
use gean.ForkChoice.Store.{Store}
use gean.ForkChoice.Attestation.{process_attestation}
use gean.ForkChoice.Aggregation.{process_aggregated_attestation}
use gean.ForkChoice.Block.{process_block}

-- constants of encoding.go: `DomainValidSnappy`, `DomainInvalidSnappy`
abbrev pub domain_valid_snappy : List ℕ
domain_valid_snappy = 1 ∷ 0 ∷ 0 ∷ 0 ∷ []

abbrev pub domain_invalid_snappy : List ℕ
domain_invalid_snappy = 0 ∷ 0 ∷ 0 ∷ 0 ∷ []

-- The payload, or the error, of `snappy.Decode`.
unfoldable pub decompressed : Option (List ℕ) → Run (List ℕ)
decompressed none = err bad_snappy
decompressed (some bs) = ok bs

module _ (z : Ssz) where
  -- The wire format of `PublishAggregatedAttestation`. A length is written as 32 bits.
  unfoldable pub encode_aggregated : AggregatedAttestation → Run (List ℕ)
  encode_aggregated agg = marshal_attestation_data z [] agg.att_data >>= λ data_ssz. ok (
      le_bytes 4 (length data_ssz)
      ++ data_ssz
      ++ le_bytes 4 (length agg.aggregation_bits)
      ++ agg.aggregation_bits
      ++ agg.aggregated_signature)

  -- `DecodeAggregatedAttestation` from the length of the bits on, which stands at `offset`.
  unfoldable pub decode_bits : List ℕ → ℕ → AttestationData → Run AggregatedAttestation
  decode_bits bs offset ad =
      if ltb (length bs) (offset + 4)
      then err bits_missing
      else let bits_len = le_value (slice offset (offset + 4) bs) in
        if ltb (length bs) (offset + 4 + bits_len)
        then err bits_too_long
        else ok (record {
          att_data = ad;
          aggregation_bits = slice (offset + 4) (offset + 4 + bits_len) bs;
          aggregated_signature = slice (offset + 4 + bits_len) (length bs) bs;
        })

  unfoldable pub decode_aggregated : List ℕ → Run AggregatedAttestation
  decode_aggregated bs =
      if ltb (length bs) 8
      then err message_short
      else let data_len = le_value (slice 0 4 bs) in
        if ltb (length bs) (4 + data_len)
        then err data_too_long
        else unmarshal_attestation_data z (slice 4 (4 + data_len) bs) >>= λ ad.
            decode_bits bs (4 + data_len) ad

  module _ (y : Snappy) where
    unfoldable pub publish_block : SignedBlockWithAttestation → Run (List ℕ)
    publish_block sb = marshal_signed_block z [] sb >>= λ bs. ok (y.encode bs)

    unfoldable pub publish_attestation : SignedAttestation → Run (List ℕ)
    publish_attestation sa = marshal_signed_attestation z [] sa >>= λ bs. ok (y.encode bs)

    unfoldable pub publish_aggregated : AggregatedAttestation → Run (List ℕ)
    publish_aggregated agg = encode_aggregated agg >>= λ bs. ok (y.encode bs)

    -- A round of the loops, up to the handler: `continue` for an error.
    unfoldable pub read_block : List ℕ → Run SignedBlockWithAttestation
    read_block msg = decompressed (y.decode msg) >>= λ bs. unmarshal_signed_block z bs

    unfoldable pub read_attestation : List ℕ → Run SignedAttestation
    read_attestation msg = decompressed (y.decode msg) >>= λ bs. unmarshal_signed_attestation z bs

    unfoldable pub read_aggregated : List ℕ → Run AggregatedAttestation
    read_aggregated msg = decompressed (y.decode msg) >>= λ bs. decode_aggregated bs

    module _ (p : Primitives) where
      -- `OnBlock` of the node on a block: an error is logged.
      unfoldable pub on_block : Store → Option ℕ → SignedBlockWithAttestation → Run Store
      on_block c now sb =
          let (c', answer) = process_block p c now sb in
          elim answer [ ok _ ↦ ok c' | err _ ↦ ok c' | panic ↦ panic ]

      -- The loops with the handlers of the node, over the messages and the times they come at.
      unfoldable pub read_block_messages : Store → List (Option ℕ × List ℕ) → Run Store
      read_block_messages c [] = ok c
      read_block_messages c ((now, msg) ∷ msgs) =
          let c' : Run Store = elim (read_block msg) [
            | ok sb ↦ on_block c now sb
            | err _ ↦ ok c
            | panic ↦ panic
          ] in
          c' >>= λ d. read_block_messages d msgs

      unfoldable pub read_attestation_messages : Store → List (Option ℕ × List ℕ) → Run Store
      read_attestation_messages c [] = ok c
      read_attestation_messages c ((now, msg) ∷ msgs) =
          let c' : Run Store = elim (read_attestation msg) [
            | ok sa ↦ ok (process_attestation p c now sa)
            | err _ ↦ ok c
            | panic ↦ panic
          ] in
          c' >>= λ d. read_attestation_messages d msgs

      unfoldable pub read_aggregated_messages : Store → List (Option ℕ × List ℕ) → Run Store
      read_aggregated_messages c [] = ok c
      read_aggregated_messages c ((now, msg) ∷ msgs) =
          let c' : Run Store = elim (read_aggregated msg) [
            | ok agg ↦ ok (process_aggregated_attestation p c now agg)
            | err _ ↦ ok c
            | panic ↦ panic
          ] in
          c' >>= λ d. read_aggregated_messages d msgs

-- The domain and the data that `ComputeMessageID` hashes, from what `snappy.Decode` gives.
unfoldable pub domain_and_data : Option (List ℕ) → List ℕ → List ℕ × List ℕ
domain_and_data none msg = (domain_invalid_snappy, msg)
domain_and_data (some decoded) msg = (domain_valid_snappy, decoded)

module _ (y : Snappy) where
  unfoldable pub message_preimage : List ℕ → List ℕ → List ℕ
  message_preimage topic msg =
      let (domain, msg_data) = domain_and_data (y.decode msg) msg in
      domain ++ le_bytes 8 (length topic) ++ topic ++ msg_data

  -- `sum` is that of SHA-256.
  unfoldable pub compute_message_id : (List ℕ → List ℕ) → List ℕ → List ℕ → List ℕ
  compute_message_id sum topic msg = take 20 (sum (message_preimage topic msg))
