-- ===== src/Tests/PeerTests.antt =====
-- A peer without events that receives the genesis of its community.
use chatcommons.Prelude.{
  ◌↔◌, All, ◌≡◌, ◌⊎◌, refl, ok, some, none, true, List, [], ◌∷◌, Result, arith,
}
use chatcommons.Prelude.Bytes.{be_bytes, eq_bytes, i64_bytes}
use chatcommons.Prelude.Sets
use chatcommons.Prelude.Maps
use chatcommons.Crypto.{verify}
use chatcommons.Protocol.{
  EventId, create_genesis, create_signed, canonical_content, calculate_event_id, validate_event,
  validate_content, validate_proof, strictly_sorted, sort, dedup, place, community_id,
}
use chatcommons.Storage
use chatcommons.Node.{
  validate_all, choose_community, check_batch, collect_into, ready, admit, admit_all, rounds,
  ingest,
}
use chatcommons.Archive.{in_order}
use chatcommons.Sync.{
  SyncMessage, events, want, validate_message, validate_items, validate_events, want_messages,
  chunks,
}
use chatcommons.Sync.Peer.{
  SyncPeer, PeerError, insert_new, retain_unknown, missing_of, check_quota, check_accept,
  ingest_pending, accept, check_message, dispatch, receive,
}
use chatcommons.Sync.Peer.Receiving.{WellFormed, IsLearned, receive-WellFormed, receive-learns}
use chatcommons.Sync.Batching.{wanted}
use chatcommons.Sync.Peer.Missing.{IsMissing, receive_asks}
use chatcommons.Tests.Toy.{toy, digest, genesis, channel_event}
use chatcommons.Tests.ToyJson
use chatcommons.Tests.ToyTable.{toy_sqlite}
use chatcommons.Tests.NodeTests.{event_codec, fresh}
use chatcommons.Tests.SyncTests.{message_codec}

abbrev pub newcomer : SyncPeer toy_sqlite
newcomer = record {
  node = fresh;
  community = genesis.event_id;
  pending = [];
  max_stored_event_bytes = none;
}

abbrev pub founded : SyncPeer toy_sqlite
founded = record newcomer {
  node = record {
    store = record { connection = (genesis.event_id, (none, ToyJson.event.write genesis)) ∷ [] };
    community = some genesis.event_id;
    known = genesis.event_id ∷ [];
  };
}

abbrev pub founding : SyncMessage
founding = events genesis.event_id (genesis ∷ [])

newcomer-WellFormed : WellFormed toy_sqlite toy newcomer
unfolding Maps.lookup
newcomer-WellFormed = record {
  ascending = tt;
  bounded = omega arith;
  waiting = λ id e l. absurd (cc);
}

founding_received :
    receive toy_sqlite toy event_codec message_codec newcomer founding ≡ some (ok [], founded)
unfolding validate_event validate_content validate_proof strictly_sorted verify calculate_event_id
    canonical_content create_genesis create_signed sort dedup place digest be_bytes i64_bytes
    eq_bytes community_id Storage.insert validate_all choose_community check_batch collect_into
    ready admit admit_all rounds ingest Sets.contains Sets.insert Sets.extend Maps.lookup
    Maps.insert Maps.remove Maps.or_insert in_order validate_message validate_items validate_events
    want_messages chunks insert_new retain_unknown missing_of check_quota check_accept
    ingest_pending accept check_message dispatch receive
founding_received = refl

receive-WellFormed_example :
    (out : Result (PeerError toy_sqlite) (List SyncMessage) × SyncPeer toy_sqlite) × (receive
        toy_sqlite toy event_codec message_codec newcomer founding
      ≡ some out)
    × WellFormed toy_sqlite toy out.1
    × (out.1.community ≡ newcomer.community)
    × (out.1.max_stored_event_bytes ≡ newcomer.max_stored_event_bytes)
receive-WellFormed_example =
    receive-WellFormed toy_sqlite toy event_codec message_codec newcomer founding
      newcomer-WellFormed

receive-learns_example :
    ((Sets.contains genesis.event_id newcomer.node.known ≡ true)
      → (Sets.contains genesis.event_id founded.node.known ≡ true))
    × ((Sets.contains genesis.event_id founded.node.known ≡ true)
        → (Sets.contains genesis.event_id newcomer.node.known ≡ true)
          ⊎ IsLearned toy newcomer.community founded.node.known genesis.event_id)
receive-learns_example =
    receive-learns toy_sqlite toy event_codec message_codec newcomer founded founding (ok [])
      newcomer-WellFormed founding_received genesis.event_id

-- The channel alone: its parent, the genesis, is asked for.
abbrev early : SyncMessage
early = events genesis.event_id (channel_event ∷ [])

abbrev waiting : SyncPeer toy_sqlite
waiting = record newcomer { pending = (channel_event.event_id, channel_event) ∷ [] }

early_received :
    receive toy_sqlite toy event_codec message_codec newcomer early
    ≡ some (ok (want genesis.event_id (genesis.event_id ∷ []) ∷ []), waiting)
unfolding validate_event validate_content validate_proof strictly_sorted verify calculate_event_id
    canonical_content create_genesis create_signed sort dedup place digest be_bytes i64_bytes
    eq_bytes Sets.contains Sets.insert Sets.extend Maps.lookup Maps.insert Maps.or_insert in_order
    validate_message validate_items validate_events want_messages chunks insert_new missing_of
    check_quota check_accept ingest_pending accept check_message dispatch receive
early_received = refl

receive_asks_example :
    ((id : EventId)
      → (Sets.contains id (wanted (want genesis.event_id (genesis.event_id ∷ []) ∷ [])) ≡ true)
        ↔ IsMissing waiting.node.known waiting.pending (Maps.values waiting.pending) id)
    × All (λ m. validate_items toy m ≡ ok tt) (want genesis.event_id (genesis.event_id ∷ []) ∷ [])
receive_asks_example =
    receive_asks toy_sqlite toy event_codec message_codec newcomer waiting genesis.event_id
      (channel_event ∷ []) (want genesis.event_id (genesis.event_id ∷ []) ∷ []) early_received
