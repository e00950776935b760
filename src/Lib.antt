-- ===== src/Lib.antt =====
-- A model of the SUM storage node: how a file becomes a Merkle tree of chunks, which nodes hold a
-- chunk, how chunks and manifests travel between peers, and how a node decides what it accepts,
-- keeps and deletes.
--
-- The parts, and the files that model them:
-- * Merkle.antt, crates/sum-store/src/merkle.rs: the tree over the chunk hashes (`build`, `root`,
--   `depth`, `generate_proof`). Merkle/Levels and Merkle/Shape relate a level to the one above.
-- * Verify.antt, crates/sum-store/src/verify.rs: the verifiers that check such a proof. Verify/Climb
--   describes the loop by halving the index, Verify/Depth and Verify/Complete match it with the
--   tree, Verify/Collision says what a false acceptance would give.
-- * Assignment.antt, crates/sum-store/src/assignment.rs: the V1 assignment of chunks to nodes.
-- * Rendezvous.antt, crates/sum-store/src/assignment_v2.rs: the V2 assignment, over the wire crate.
-- * Codec.antt and Codec/Frame, crates/sum-net/src/codec.rs: the messages and their frames.
-- * Correlation.antt and Correlation/Tracker, crates/sum-net/src/correlation.rs: the requests that
--   await a response, and which response answers which. Correlation/Traces,
--   Correlation/Poisoning and Correlation/Awaited follow histories of events.
-- * Manifest.antt, crates/sum-store/src/serve.rs and crates/sum-types/src/storage.rs: the window of a
--   chunk request, and the admission of a pushed manifest, which builds a tree of Merkle.antt.
-- * Gc.antt, crates/sum-store/src/gc.rs: the deletion of chunks that are no longer assigned.
--   Gc/Sweep follows the loop, Gc/Round one call, Gc/Grace a history of calls.
-- * PushValidator.antt with PushValidator/Ask and PushValidator/Cached,
--   crates/sum-node/src/push_validator.rs: whether a pushed chunk is stored, from the chain's answers
--   through three caches, with the verifier of Verify.antt and the assignment of Rendezvous.antt.
--   PushValidator/Rows and PushValidator/Said say what is taken from the chain's replies,
--   PushValidator/Gates and PushValidator/Sound follow one push, PushValidator/History many.
-- * Attestor.antt, crates/sum-node/src/assignment_attestor.rs: the attestation of the chunks that an
--   archive is assigned (Rendezvous.antt) and holds, in batches, each a transaction that is waited
--   for (TxWait.antt). Attestor/Cuts is about the slices, Attestor/Batches follows the loop,
--   Attestor/Runs and Attestor/Returns a call.
-- * Index.antt, crates/sum-store/src/manifest_index.rs: the records that a store keeps of pushed chunks,
--   in the nested maps of Index/Table. Index/Records says what each call leaves.
-- * Inbound.antt, crates/sum-node/src/inbound_v2.rs: a chunk that arrives is validated
--   (PushValidator.antt), stored and recorded (Index.antt). Inbound/Backed has the invariant of the
--   stores, Inbound/Accepts one arrival, Inbound/Runs many.
-- * Trigger.antt, crates/sum-node/src/inbound_v2.rs: `run_attestation`, which starts the attestor at
--   the file's latest assignment epoch.
-- * Watcher.antt, crates/sum-node/src/epoch_watcher.rs: the ticks that start such a run when an epoch
--   changed. Watcher/Ticks says what a check changes, Watcher/Kept follows histories of ticks,
--   Watcher/Changes and Watcher/Attests one tick.
-- * Audit.antt, crates/sum-node/src/repair_audit.rs and the answers of crates/sum-node/src/por_worker.rs:
--   whether every assigned chunk could be proved to be held, with the tree of Merkle.antt, the verifier
--   of Verify.antt and the assignment of Rendezvous.antt. Audit/Files is about one file,
--   Audit/Verdict about the report, Audit/Answers about an answer.
-- * Route.antt, crates/sum-node/src/download_route.rs and crates/sum-node/src/download_v2_routing.rs:
--   the archives that a download asks. Route/Order follows the asks for a chunk.
-- * Nat.antt, crates/sum-net/src/nat.rs, over the addresses of Multiaddr.antt: the reservation with
--   a relay. Nat/Reservation and Nat/Retry follow histories of events, as
--   crates/sum-net/src/swarm.rs hands them on.
-- * Policy.antt, Policy/Parse and Policy/Net, crates/sum-net/src/policy.rs: the allow-list of
--   addresses, its entries from their text, and the policy of a node with its counters.
--   Policy/Judged relates it to the addresses that Nat.antt builds, Policy/Counts follows calls.
-- * TxWait.antt, crates/sum-node/src/tx_wait.rs: the wait for a transaction to be final.
-- * PeerState.antt, crates/sum-node/src/peer_state.rs: the addresses of the connected peers.
-- * Text.antt has strings and hexadecimal digits; Prelude.antt and its children have tests, lists,
--   maps, results and equality.
--
-- Conventions. A hash, a string and a buffer are lists of bytes, each byte a number. An L1 address is
-- the number that its 20 bytes spell, a peer id a number. A `HashMap` is an association list that is
-- read by its first entry; laws on it are stated by lookup. Integers are natural numbers, with the
-- wrap-around of the source's casts and shifts written out. Times are milliseconds, and what a clock
-- returns is an argument. BLAKE3, LRU caches, base58, the multihash CID, CBOR, the wire crate, the
-- chain's node, the signing of transactions, the parsers of addresses and the file system are
-- parameters.
--
-- Fuel. `build_loop` has the number of leaves as fuel, and each round halves the level, so it does
-- not run out. `probe` has the number of active nodes, one round of probing. `poll_loop` has a count
-- of polls; the attestor, the trigger and the watcher hand it on, and it is enough for them when it
-- is more than a wait's time limit in milliseconds and one.
--
-- Not modelled: the libp2p swarm and its transport, serialization, file and memory-map input and
-- output, encryption, the asynchronous drivers of upload and download, and the command line.
pub mod Prelude
pub mod Merkle
pub mod Verify
pub mod Attestor
pub mod Assignment
pub mod Rendezvous
pub mod Text
pub mod Multiaddr
pub mod Nat
pub mod Policy
pub mod Codec
pub mod Correlation
pub mod Manifest
pub mod Gc
pub mod Index
pub mod Inbound
pub mod TxWait
pub mod PeerState
pub mod PushValidator
pub mod Trigger
pub mod Watcher
pub mod Audit
pub mod Route
