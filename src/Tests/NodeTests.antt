-- ===== src/Tests/NodeTests.antt =====
-- A node that takes in a channel, an orphan and the genesis; and the store under it.
use chatcommons.Prelude.{◌≡◌, ◌≢◌, ◌⊎◌, refl, ok, err, none, some, List, [], ◌∷◌}
use chatcommons.Prelude.Bytes.{be_bytes, eq_bytes, i64_bytes, codes, pos}
use chatcommons.Prelude.Sets
use chatcommons.Prelude.Maps
use chatcommons.Crypto.{verify}
use chatcommons.Protocol.{
  SignedEvent, Codec, create_genesis, create_signed, canonical_content, calculate_event_id,
  validate_event, validate_content, validate_proof, strictly_sorted, sort, dedup, place,
  community_id,
}
use chatcommons.Storage
use chatcommons.Storage.{EventStore, StorageError, inserted, get, sqlite}
use chatcommons.Storage.Reading.{insert-get}
use chatcommons.Node.{
  NodeError, missing_parent, CoreNode, IngestReport, storage, wrong_community, validate_all,
  choose_community, check_batch, collect_into, ready, admit, admit_all, rounds, ingest,
}
use chatcommons.Node.Reading.{event, climb, ancestry}
use chatcommons.Node.Ancestry.{IsAncestry, ancestry-IsAncestry}
use chatcommons.Node.Ingestion.{Learns, ingest-Learns, ingest_fails}
use chatcommons.Node.Counting.{Counts, ingest-Counts}
use chatcommons.Tests.Toy.{toy, digest, alice, genesis, channel_event}
use chatcommons.Tests.ToyJson
use chatcommons.Tests.ToyJson.{codec, codec-RoundTrips}
use chatcommons.Tests.ToyTable.{toy_sqlite, toy_sqlite-Documented}

abbrev pub event_codec : Codec SignedEvent
event_codec = codec ToyJson.event

abbrev pub empty_store : EventStore toy_sqlite
empty_store = record { connection = [] }

abbrev orphan : SignedEvent
orphan =
    create_signed toy
      (record {
        protocol_version = 2;
        community_id = some genesis.event_id;
        parents = 77 ∷ [];
        timestamp_ms = pos 3000;
        event_type = codes "chat.channel.create";
        payload = 2 ∷ 6 ∷ [];
      })
      alice

abbrev pub fresh : CoreNode toy_sqlite
fresh = record { store = empty_store; community = none; known = [] }

abbrev given : List SignedEvent
given = channel_event ∷ orphan ∷ genesis ∷ []

abbrev pub taken_in : CoreNode toy_sqlite
taken_in = record {
  store = record {
    connection =
        Maps.insert channel_event.event_id
          (some genesis.event_id, ToyJson.event.write channel_event)
          ((genesis.event_id, (none, ToyJson.event.write genesis)) ∷ []);
  };
  community = some genesis.event_id;
  known = Sets.insert channel_event.event_id (genesis.event_id ∷ []);
}

abbrev summary : IngestReport
summary = record { inserted = 2; already_present = 0; unresolved = orphan.event_id ∷ [] }

given_ingested : ingest toy_sqlite toy event_codec fresh given ≡ some (ok summary, taken_in)
unfolding validate_event validate_content validate_proof strictly_sorted verify calculate_event_id
    canonical_content create_genesis create_signed sort dedup place digest be_bytes i64_bytes
    eq_bytes community_id Storage.insert validate_all choose_community check_batch collect_into
    ready admit admit_all rounds ingest Sets.contains Sets.insert Maps.lookup Maps.insert
    Maps.remove
given_ingested = refl

ingest-Learns_example : Learns toy_sqlite toy event_codec given fresh taken_in
ingest-Learns_example =
    ingest-Learns toy_sqlite toy event_codec fresh taken_in given (ok summary) given_ingested

ingest-Counts_example :
    Counts toy_sqlite toy_sqlite-Documented toy event_codec given fresh taken_in summary
ingest-Counts_example =
    ingest-Counts toy_sqlite toy_sqlite-Documented toy event_codec fresh taken_in given summary
      given_ingested

-- A node of another community.
abbrev elsewhere : CoreNode toy_sqlite
elsewhere = record { store = empty_store; community = some 1; known = 1 ∷ [] }

given_refused :
    ingest toy_sqlite toy event_codec elsewhere (genesis ∷ [])
    ≡ some (err wrong_community, elsewhere)
unfolding validate_event validate_content validate_proof strictly_sorted verify calculate_event_id
    canonical_content create_genesis create_signed sort dedup digest be_bytes i64_bytes eq_bytes
    validate_all choose_community check_batch ingest
given_refused = refl

ingest_fails_example :
    (((s : StorageError toy_sqlite) × (wrong_community ≡ storage s))
      ⊎ ((elsewhere ≡ elsewhere)
          × (check_batch toy_sqlite toy elsewhere (genesis ∷ []) ≡ err wrong_community)))
    × (◌≢◌ {A = NodeError toy_sqlite} wrong_community missing_parent)
ingest_fails_example =
    ingest_fails toy_sqlite toy event_codec elsewhere elsewhere (genesis ∷ []) wrong_community
      given_refused

abbrev one_row : EventStore toy_sqlite
one_row = record { connection = (3, (none, 1 ∷ [])) ∷ [] }

genesis_inserted : (Storage.insert toy_sqlite toy event_codec empty_store genesis).0 ≡ ok inserted
unfolding validate_event validate_content validate_proof strictly_sorted verify calculate_event_id
    canonical_content create_genesis create_signed sort dedup digest be_bytes i64_bytes eq_bytes
    Storage.insert Maps.lookup
genesis_inserted = refl

insert-get_example :
    (get toy_sqlite toy event_codec
        ((Storage.insert toy_sqlite toy event_codec empty_store genesis).1)
        genesis.event_id
      ≡ ok (some genesis))
    ⊎ ((f : Unit {0}) × (get toy_sqlite toy event_codec
            ((Storage.insert toy_sqlite toy event_codec empty_store genesis).1)
            genesis.event_id
          ≡ err (sqlite f)))
insert-get_example =
    insert-get toy_sqlite toy_sqlite-Documented toy event_codec empty_store genesis
      (codec-RoundTrips ToyJson.event) genesis_inserted

abbrev lineage : List SignedEvent
lineage =
    Maps.values
      (Maps.insert genesis.event_id genesis (Maps.insert channel_event.event_id channel_event []))

channel_ancestry :
    ancestry toy_sqlite toy event_codec taken_in channel_event.event_id 8 ≡ ok lineage
unfolding validate_event validate_content validate_proof strictly_sorted verify calculate_event_id
    canonical_content create_genesis create_signed sort dedup place digest be_bytes i64_bytes
    eq_bytes Storage.get Storage.decode_stored event climb ancestry Sets.contains Sets.insert
    Maps.lookup Maps.insert
channel_ancestry = refl

ancestry-IsAncestry_example :
    IsAncestry toy_sqlite toy event_codec taken_in channel_event.event_id 8 lineage
ancestry-IsAncestry_example =
    ancestry-IsAncestry toy_sqlite toy event_codec taken_in channel_event.event_id 8 lineage
      channel_ancestry
