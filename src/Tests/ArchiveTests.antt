-- ===== src/Tests/ArchiveTests.antt =====
-- The archive of a genesis and a channel, out of order.
use mathlib.Core.List.{Perm}
use chatcommons.Prelude.{◌≡◌, ◌↔◌, refl, ok, [], ◌∷◌, ◌>>=◌}
use chatcommons.Prelude.Bytes.{be_bytes, eq_bytes, i64_bytes}
use chatcommons.Prelude.Sets
use chatcommons.Crypto.{verify}
use chatcommons.Protocol.{
  Codec, create_genesis, create_signed, canonical_content, calculate_event_id, validate_event,
  validate_content, validate_proof, strictly_sorted, sort, dedup,
}
use chatcommons.Archive.{
  ArchiveWire, ValidatedArchive, parse, validate, encode, validate_wire, validate_links,
  validate_all, in_order, genesis_events, sort_by_id, place,
}
use chatcommons.Archive.Validation.{IsArchive, contents, validate_wire_iff}
use chatcommons.Archive.RoundTrip.{encode_restores}
use chatcommons.Tests.Toy.{toy, digest, genesis, channel_event}
use chatcommons.Tests.ToyJson
use chatcommons.Tests.ToyJson.{Format, codec, codec-RoundTrips}

abbrev wire_format : Format ArchiveWire
wire_format =
    ToyJson.via
      (ToyJson.pair ToyJson.number (ToyJson.pair ToyJson.number (ToyJson.many ToyJson.event)))
      (λ (v, (c, es)). record { version = v; community_id = c; events = es })
      (λ w. (w.version, (w.community_id, w.events))) (λ w. refl)

abbrev wire_codec : Codec ArchiveWire
wire_codec = codec wire_format

abbrev wire : ArchiveWire
wire = record {
  version = 1;
  community_id = genesis.event_id;
  events = sort_by_id (channel_event ∷ genesis ∷ []);
}

events_encode :
    encode toy wire_codec genesis.event_id (channel_event ∷ genesis ∷ [])
    ≡ ok (wire_format.write wire)
unfolding validate_event validate_content validate_proof strictly_sorted verify calculate_event_id
    canonical_content create_genesis create_signed sort dedup digest be_bytes i64_bytes eq_bytes
    encode validate_wire validate_links validate_all in_order genesis_events sort_by_id place
    Sets.contains Sets.extend Sets.insert
events_encode = refl

encode_restores_example :
    (v : ValidatedArchive) × ((parse wire_codec (wire_format.write wire) >>= validate toy) ≡ ok v)
    × (v.community ≡ genesis.event_id)
    × Perm v.events (channel_event ∷ genesis ∷ [])
encode_restores_example =
    encode_restores toy wire_codec (codec-RoundTrips wire_format) genesis.event_id
      (channel_event ∷ genesis ∷ []) (wire_format.write wire) events_encode

validate_wire_iff_example :
    (validate_wire toy wire ≡ ok (contents toy wire))
    ↔ (IsArchive toy wire × (contents toy wire ≡ contents toy wire))
validate_wire_iff_example = validate_wire_iff toy wire (contents toy wire)
