-- ===== src/Lib.antt =====
-- ChatCommons: signed community events, the chat profile that resolves them, and what stores,
-- carries and admits them.
--
-- The program. A community is a graph of signed events: each names its parents, and its identifier
-- is the digest of its canonical bytes, key and signature. The crate `protocol` makes and checks
-- events; `profile-chat` reads their payloads and resolves a set of events into an order of
-- accepted ones, rejections and a snapshot; `storage` keeps events in SQLite and packs them in
-- portable archives; `node-core` takes in batches in causal order; `sync` exchanges events between
-- devices, which authenticate by certificates (auth.rs) and meet through bootstrap codes
-- (bootstrap.rs). `crypto` serves all of them.
--
-- The files, with the code that each is about (paths from the repository's root):
--
-- - Prelude and its children: tests and conditionals on native numbers, `Result` with `?`, lists,
--   byte sequences with `to_be_bytes`, and the standard library's BTreeSet and BTreeMap over
--   identifiers as lists that ascend in their keys.
-- - Crypto: crates/crypto/src/lib.rs. `Primitives` stands for the crates ed25519-dalek and blake3,
--   `Documented` for what they promise.
-- - Protocol: crates/protocol/src/lib.rs, with Validation (what `validate_event` accepts),
--   Encoding (the canonical bytes), Signing (`create_signed`) and Binding (the identifier).
-- - Chat: crates/profile-chat/src/lib.rs, the types and `decode`. Chat.Rules is `validate_context`
--   and `apply`, with Authority (the offices), Membership (who comes, goes and rules) and
--   Redemption (an invitation serves once). Chat.Book is the first loop of `resolve`, Chat.Resolver
--   its rounds and its result, with one module for each thing that is followed through the rounds: Step and Picks (one event, one
--   choice of ready events), Rounds, Accounting, Causality, Authority,
--   Lookups and Totality, and Order.
--   Chat.Invite is capabilities, packages and acceptances, with Admission from package to member.
-- - Archive: crates/storage/src/archive.rs, with Genesis, Validation and RoundTrip.
-- - Storage: crates/storage/src/lib.rs over `Sqlite`, the statements that the source gives SQLite,
--   with what SQLite documents in `DocumentedSqlite`; Reading is what is read back.
-- - Node: crates/node-core/src/lib.rs, `open` and `ingest`, with Pending (the ready events), Batch
--   (the checks), Steps (one insertion, one round), Progress, Loop, Ingestion (the whole) and
--   Counting (the counts of a report, by Storage.Growth).
--   Node.Reading is what the code reads of its events: some, all, an ancestry, the heads, with
--   Climbing and Ancestry (the loop of `ancestry` and what it returns).
-- - Device: crates/sync/src/auth.rs, with Certificates and Domains (byte strings for different
--   purposes).
-- - Bootstrap: crates/sync/src/bootstrap.rs, with Routes (and its parts Positions, Shapes, Direct,
--   Relayed) and Codes.
-- - Sync: crates/sync/src/lib.rs, its messages, with Limits (what is accepted), Requests
--   (`want_messages`), Batching and Packing (`pack_events`). Sync.Peer is `SyncPeer`, a node with
--   the events that wait for their parents, with Waiting (the pending events), Receiving (what
--   `receive` does with every result) and Missing (what it asks for).
-- - Network: crates/sync/src/network.rs, the node in the network. Network has its state, its
--   messages and the calls of libp2p (`Libp2p`); Frames is what goes into a frame; Authentication,
--   Grants, Requests, Responses, Relays and Connections are its operations; Calls is the step
--   relation of all its public operations and the events of its swarm. Synchronizing fills the
--   interface `Synchronizer`, by which the node uses `SyncPeer`. Safety and its children follow
--   one invariant through every operation; Normalizing, Guards, Possession and Silence (with Quiet)
--   are about single operations.
-- - Cli: crates/cli/src/main.rs, its options and arguments (`Options`, `parse_dial`). Cli.Commands
--   is the projection of a node, `refresh_network_authorization` and the arm of `command_network`
--   for an acceptance; Authorization is whom the refresh lets in. Cli.Importing is `ingest_archive`, with Ordering
--   (its loops end), Completeness (the order has all events), Batches and Success (the whole).
-- - Tests: stand-ins for the third-party crates and concrete inputs. Toy has the cryptography,
--   ToyJson a faithful codec, ToyTable the database.
--
-- How the code is written down. An array of 32 bytes that the code only compares, orders and
-- copies (an identifier, a seed) is the number that it writes in big endian, so that the order of
-- numbers is the order of arrays. A `String` is the list of its UTF-8 bytes. `as u32` on a length
-- is written as the remainder by 2 ^ 32, and an `i64` in two's complement. Errors carry their kind
-- and not their text. `&mut self` is a state that is passed on and returned also with an error. A
-- `panic` or an index out of range would be `none`, as would fuel that runs out.
--
-- Bounds and fuel. The loop of `resolve` gets one round more than there are events with a payload,
-- and that of `ingest` one more than there are different identifiers in its batch: every round
-- takes one event at least out of the pending ones, so the loops end by themselves. `chunks` gets
-- the length of its list, of which every chunk takes an element at least. `order` of
-- `ingest_archive` gets one round more than there are pending events, each of which is ready once. `ancestry` recurs on what its
-- limit still allows and on its stack. All other loops are structural.
--
-- Parameters. JSON is a `Codec`; where a theorem needs that what is written is read back, it says
-- so by `RoundTrips`. libp2p's addresses and peers and base64 are `Externals`, its swarm and its
-- peer identifiers of keys are `Libp2p`; a nonce is an argument. Each assumption is met by a concrete
-- stand-in in the tests.
--
-- Not modelled. The opening of the database, the setup of libp2p's transports in `new` of the
-- network node, and the waiting in `next_event`: `handle_event` is what its loop does with one event.
-- Of the command line, its files (crates/cli/src/state.rs too), the clock, what it prints and its
-- loops around `next_event`. libp2p itself, the relay (crates/relay), the desktop application
-- (apps/desktop) and the review prototype are left out, being input and output around the crates
-- above; so are random generation of keys, clearing of secrets, Debug output and plain accessors.
pub mod Prelude
pub mod Crypto
pub mod Protocol
pub mod Chat
pub mod Archive
pub mod Device
pub mod Storage
pub mod Node
pub mod Bootstrap
pub mod Sync
pub mod Network
pub mod Cli
mod Tests
