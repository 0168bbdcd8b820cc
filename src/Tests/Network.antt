-- ===== src/Tests/Network.antt =====
-- Tests of what nodes send each other.
use gean.Base.{
  ℕ, ◌≡◌, ◌≢◌, ◌⊎◌, panic, refl, arith, List, [], ◌∷◌, none, some, replicate, ok, ◌>>=◌, ◌↔◌,
  lookup, same_bytes, Bytes, le_bytes,
}
use gean.Types.Containers.{Root, zero_hash, AggregatedAttestation}
use gean.Ssz.Blocks.{zero_attestation, fill, fill_signed}
use gean.Storage.{get_block, get_signed_block}
use gean.ForkChoice.Store.{Store}
use gean.ForkChoice.Block.{process_block}
use gean.Ssz.Fits.{attestation_data_bytes, checkpoint_bytes}
use gean.Ssz.Blocks.{size_body, size_block, size_block_with_attestation, size_signed_block}
use gean.Network.Gossip.{
  encode_aggregated, decode_aggregated, publish_block, read_block_messages, message_preimage,
}
use gean.Network.Gossip.RoundTrip.{
  FitsAggregated, aggregated_bytes, decode_aggregated_lem, decode-encode_aggregated,
  encode-decode_aggregated,
}
use gean.Network.Gossip.Delivery.{read_block_messages-publish_block}
use gean.Network.Gossip.MessageId.{content, message_preimage-inj}
use gean.Network.ReqResp.{handle_blocks_by_root, request_blocks_by_root}
use gean.Network.ReqResp.Fetch.{Sendable, Served, request-handle_blocks_by_root}
use gean.Node.Sync.{walk}
use gean.Node.Sync.Catch.{IsMissing, ask_node, walk-ask_node}
use gean.Tests.Data.{toy, store}
use gean.Tests.Wire.{
  le_ssz, le_ssz-IsLawful, plain, plain-IsLossless, wire_block, wire_block-Fits, zero_data-Fits,
  all_bytes-Bytes,
}

-- An aggregate of two votes.
abbrev wire_aggregate : AggregatedAttestation
wire_aggregate = record {
  att_data = zero_attestation.att_data;
  aggregation_bits = 7 ∷ [];
  aggregated_signature = 1 ∷ 2 ∷ 3 ∷ [];
}

wire_aggregate-Fits : FitsAggregated wire_aggregate
wire_aggregate-Fits = record { att_data = zero_data-Fits; bits = omega arith }

decode-encode_aggregated_example :
    (encode_aggregated le_ssz wire_aggregate >>= decode_aggregated le_ssz) ≡ ok wire_aggregate
decode-encode_aggregated_example =
    decode-encode_aggregated le_ssz le_ssz-IsLawful wire_aggregate wire_aggregate-Fits

abbrev aggregate_wire : List ℕ
aggregate_wire = aggregated_bytes wire_aggregate

aggregate_wire-Bytes : Bytes aggregate_wire
unfolding aggregated_bytes le_bytes attestation_data_bytes checkpoint_bytes
aggregate_wire-Bytes = all_bytes-Bytes aggregate_wire refl

encode-decode_aggregated_example : encode_aggregated le_ssz wire_aggregate ≡ ok aggregate_wire
encode-decode_aggregated_example =
    encode-decode_aggregated le_ssz le_ssz-IsLawful aggregate_wire wire_aggregate
      aggregate_wire-Bytes
      (decode_aggregated_lem le_ssz le_ssz-IsLawful wire_aggregate wire_aggregate-Fits)

read_block_messages-publish_block_example :
    let received = publish_block le_ssz plain wire_block >>= λ payload.
    read_block_messages le_ssz plain toy store ((some 1004, payload) ∷ []) in
    let (after, answer) = process_block toy store (some 1004) (fill_signed wire_block) in
    ((answer ≡ panic) × (received ≡ panic)) ⊎ ((answer ≢ panic) × (received ≡ ok after))
read_block_messages-publish_block_example =
    read_block_messages-publish_block le_ssz le_ssz-IsLawful plain plain-IsLossless toy store
      (some 1004) wire_block wire_block-Fits

abbrev topic : List ℕ
topic = 1 ∷ []

abbrev longer_topic : List ℕ
longer_topic = 1 ∷ 2 ∷ []

message_preimage-inj_example :
    (message_preimage plain topic (2 ∷ 3 ∷ []) ≡ message_preimage plain longer_topic (3 ∷ [])) ↔ (
      (topic ≡ longer_topic)
      × (content (some (2 ∷ 3 ∷ [])) (2 ∷ 3 ∷ []) ≡ content (some (3 ∷ [])) (3 ∷ [])))
message_preimage-inj_example =
    message_preimage-inj plain topic longer_topic (2 ∷ 3 ∷ []) (3 ∷ []) (omega arith) (omega arith)

-- A peer that has stored the block under a root of 32 bytes, above one that the node has.
abbrev peer_root : Root
peer_root = replicate 32 9

abbrev peer_store : Store
peer_store = record store {
  storage = record store.storage { signed_blocks = (peer_root, wire_block) ∷ [] };
}

abbrev behind_store : Store
behind_store = record store {
  storage = record store.storage { blocks = (zero_hash, wire_block.message.block) ∷ [] };
}

wire_block-Sendable : Sendable wire_block
unfolding fill_signed fill size_signed_block size_block_with_attestation size_block size_body
wire_block-Sendable = record { fits = wire_block-Fits; small = omega arith }

-- A peer with the block under two roots, which is asked for a third one between them.
abbrev other_root : Root
other_root = replicate 32 8

abbrev full_store : Store
full_store = record store {
  storage = record store.storage {
    signed_blocks = (peer_root, wire_block) ∷ (other_root, wire_block) ∷ [];
  };
}

asked-Served :
    Served full_store (other_root ∷ zero_hash ∷ peer_root ∷ []) (wire_block ∷ wire_block ∷ [])
unfolding lookup same_bytes
asked-Served =
    Served.stored other_root wire_block refl
      (Served.unknown zero_hash refl (Served.stored peer_root wire_block refl Served.end))

request-handle_blocks_by_root_example :
    request_blocks_by_root plain le_ssz
      (handle_blocks_by_root plain le_ssz full_store)
      (other_root ∷ zero_hash ∷ peer_root ∷ [])
    ≡ some
        (record { blocks = fill_signed wire_block ∷ fill_signed wire_block ∷ []; failure = none })
request-handle_blocks_by_root_example =
    request-handle_blocks_by_root plain plain-IsLossless le_ssz le_ssz-IsLawful full_store
      (other_root ∷ zero_hash ∷ peer_root ∷ []) (wire_block ∷ wire_block ∷ [])
      (refl, (refl, (refl, tt))) (omega arith) asked-Served
      (wire_block-Sendable, (wire_block-Sendable, tt))

wire_block-IsMissing : IsMissing behind_store peer_store peer_root (wire_block ∷ [])
unfolding IsMissing get_block get_signed_block lookup same_bytes
wire_block-IsMissing = (refl, refl, refl, wire_block-Sendable, (wire_block.message.block, refl))

walk-ask_node_example :
    walk 64 behind_store (ask_node le_ssz plain peer_store) peer_root ≡ fill_signed wire_block ∷ []
walk-ask_node_example =
    walk-ask_node le_ssz le_ssz-IsLawful plain plain-IsLossless behind_store peer_store peer_root
      (wire_block ∷ []) (omega arith) wire_block-IsMissing
