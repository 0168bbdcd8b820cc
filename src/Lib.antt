-- ===== src/Lib.antt =====
-- gean, a consensus client: verification of its chain logic.
--
-- The program keeps a chain of blocks. A block leads from one consensus state to the next by the
-- state transition (chain/statetransition): empty slots are passed, the header is checked and
-- appended to the history, and the votes of the block justify and finalize checkpoints. The fork
-- choice (chain/forkchoice) stores blocks and states, collects the votes of blocks and of the
-- network, and picks the head by LMD GHOST. Its clock counts the intervals of a slot and moves
-- votes from new to known.
--
-- Base holds what the modules share: tests on numbers, lists over the native numbers, byte arrays,
-- maps as association lists, and Run, the ways a Go call ends: a value, an error, or a panic.
-- Types.Containers is types/*.go, field by field; Types.Slot is types/slot.go. Storage is
-- storage/memory/memory.go. Under Transition, Bitlist is bitlist.go (its bytes in
-- Bitlist.Byte), Slots is proposer.go, genesis.go and the slot half of transition.go, Header is
-- ProcessBlockHeader, Attest is process_attestations.go (with the packed votes in Attest.Votes),
-- and Block is ProcessBlock and StateTransition; Valid holds the invariant of the state. Under
-- ForkChoice, Ghost is ghost.go, Store is store.go and helpers.go, Time is time.go, Attestation is
-- attestation.go, Block is block.go, Produce is produce.go, and Aggregation is aggregation.go.
-- Clock is node/clock.go, and Registry the checks of config/validators.go.
--
-- Ssz is types/*_encoding.go: Votes has the containers of a fixed size, Blocks and States those
-- with offsets, and Items the parts that are the same in each; Codec and Lists say what an
-- encoding keeps. Under Network, Gossip is network/gossipsub with the gossip handlers of
-- node/handler.go, and Frames and ReqResp are network/reqresp with its handlers. Under Node,
-- Duties is node/validator.go, Sync is node/sync.go, and Ticker is a tick of node/ticker.go, which
-- runs both; Genesis is initGenesis of node/lifecycle.go. A sync asks a peer, by ReqResp, for
-- blocks that it gives to the fork choice; the duties produce blocks and votes by the fork choice,
-- which Gossip publishes and reads. Names are those of the code in snake case. Tests holds
-- concrete chains and messages.
--
-- A method of the fork choice holds its lock from the first line to the last, so that it is a
-- function from the store to the store. A copy of a container is its value. One place of the
-- modelled code writes to a container that it shares: MarshalSSZTo puts a zero attestation into
-- an envelope whose proposer attestation is nil. The model has its result, the bytes, and leaves
-- the envelope of the caller as it is. A map is an association list with distinct keys, whose
-- order is the order of `range`. Slots and times are natural numbers that keep the wrap-around of
-- uint64 where the code adds or multiplies.
--
-- Loops over lists are recursion on the list. Loops on numbers are recursion on the number of
-- rounds left: target minus slot in ProcessSlots, target minus time in advanceTimeLocked, the
-- number of empty slots in ProcessBlockHeader, the distance of source and target in the search for
-- a gap. A vote's climb takes at most one round more than the slot of its block, since slots fall
-- towards the root; the walk down takes at most two rounds more than the highest slot. The walk to
-- a justifiable slot takes one round more than the slot it starts from; the search for a body's
-- attestations one more than there are known votes, since each round but the last adds one.
--
-- A sync walks back over at most 64 blocks. A varint has ten bytes at most. The client's loop over
-- the answers takes one round for each block and one for the end of the stream; one round more than
-- the stream has bytes is enough, since each reads a byte.
--
-- Parameters, in the record Primitives: the hash tree roots (an external hasher), math.Sqrt, the
-- verification of XMSS signatures (a foreign library; the signer is an argument of Produce) and
-- the build's choice whether to verify. NeverZero, where a theorem assumes it, says that no state
-- has the zero hash as its root; the code also takes the zero hash as the root of a state that it
-- fails to encode, such as one with a list above its limit or an empty bitlist, and it excludes
-- these. In the records Ssz and Snappy, with their documented laws: fastssz and snappy. SHA-256
-- and the answers of a peer are arguments too. A stream is the list of its bytes, and writes to
-- it do not fail; the messages of a topic are a list. Not modelled: metrics and logging; the
-- hashing of containers, which the library does; libp2p, discovery, the command line and the YAML
-- files, which are input and output; the goroutines, the timers and the wiring of the node
-- package.
pub mod Base
pub mod Types
pub mod Storage
pub mod Transition
pub mod ForkChoice
pub mod Clock
pub mod Network
pub mod Node
pub mod Registry
pub mod Ssz
pub mod Tests
