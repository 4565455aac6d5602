-- ===== src/Archive.antt =====
-- crates/storage/src/archive.rs: the portable archive of a community.
pub mod Genesis
pub mod Validation
pub mod RoundTrip
use chatcommons.Prelude.{
  ℕ, ◌*◌, ◌<◌, ◌≡◌, Bool, true, false, not, ◌&&◌, ◌||◌, Option, none, some, List, [], ◌∷◌, length,
  is_empty, is_none, all, any, ◌==◌, ltb, if◌then◌else◌, Result, ok, err, ◌>>=◌, ◌>>◌, fail_if,
  ok_or, map_err,
}
use chatcommons.Prelude.Bytes.{Bytes}
use chatcommons.Prelude.Sets
use chatcommons.Prelude.Sets.{Set}
use chatcommons.Crypto.{Primitives}
use chatcommons.Protocol.{EventId, CommunityId, SignedEvent, Codec, ProtocolError, validate_event}

abbrev pub archive_version : ℕ
archive_version = 1

abbrev pub max_archive_bytes : ℕ
max_archive_bytes = 64 * 1024 * 1024

abbrev pub max_archive_events : ℕ
max_archive_events = 65536

pub record ArchiveWire : Type 0 where
  pub version : ℕ
  pub community_id : CommunityId
  pub events : List SignedEvent

pub record ParsedArchive : Type 0 where
  pub wire : ArchiveWire

pub record ValidatedArchive : Type 0 where
  pub community : CommunityId
  pub events : List SignedEvent

pub data ArchiveError : Type 0 where
  too_large json unsupported_version event_limit invalid_order : ArchiveError
  invalid_genesis wrong_community missing_parent : ArchiveError
  protocol : ProtocolError → ArchiveError

unfoldable pub parse : Codec ArchiveWire → Bytes → Result ArchiveError ParsedArchive
parse wire_codec bytes = do
  fail_if (ltb max_archive_bytes (length bytes)) too_large
  wire ← ok_or (wire_codec.from_slice bytes) json
  ok (record { wire = wire })

abbrev pub event_ids : List SignedEvent → List EventId
event_ids [] = []
event_ids (e ∷ events) = e.event_id ∷ event_ids events

-- `windows(2).all(|pair| pair[0].event_id < pair[1].event_id)`
unfoldable pub in_order : List SignedEvent → Bool
in_order [] = true
in_order (d ∷ []) = true
in_order (d ∷ e ∷ events) = ltb d.event_id e.event_id && in_order (e ∷ events)

unfoldable pub genesis_events : List SignedEvent → List SignedEvent
genesis_events [] = []
genesis_events (e ∷ events) =
    let rest = genesis_events events in if is_none e.community_id then e ∷ rest else rest

-- `matches!(genesis.as_slice(), [event] if …)`
abbrev pub is_the_genesis : CommunityId → List SignedEvent → Bool
is_the_genesis community [] = false
is_the_genesis community (e ∷ []) = e.event_id == community
is_the_genesis community (e ∷ f ∷ rest) = false

-- `is_some_and(|community| community != wire.community_id)`
abbrev pub is_foreign : CommunityId → Option CommunityId → Bool
is_foreign community none = false
is_foreign community (some other) = not (other == community)

-- `sort_by_key(|event| event.event_id)`, which is stable.
unfoldable pub place : SignedEvent → List SignedEvent → List SignedEvent
place e [] = e ∷ []
place e (d ∷ events) =
    let rest = place e events in if ltb d.event_id e.event_id then d ∷ rest else e ∷ d ∷ events

unfoldable pub sort_by_id : List SignedEvent → List SignedEvent
unfolding place
sort_by_id [] = []
sort_by_id (e ∷ events) = place e (sort_by_id events)

module _ (p : Primitives) where
  unfoldable pub validate_all : List SignedEvent → Result ArchiveError (Unit {0})
  validate_all [] = ok tt
  validate_all (e ∷ events) = do map_err protocol (validate_event p e); validate_all events

  -- The checks of `validate_wire` after those on the events one by one.
  unfoldable pub validate_links : ArchiveWire → Result ArchiveError (Unit {0})
  validate_links wire = do
    fail_if (not (is_the_genesis wire.community_id (genesis_events wire.events))) invalid_genesis
    fail_if (any (λ e. is_foreign wire.community_id e.community_id) wire.events) wrong_community
    let ids : Set = Sets.collect (event_ids wire.events)
    fail_if (any (λ e. any (λ parent. not (Sets.contains parent ids)) e.parents) wire.events)
        missing_parent

  unfoldable pub validate_wire : ArchiveWire → Result ArchiveError ValidatedArchive
  validate_wire wire = do
    fail_if (not (wire.version == archive_version)) unsupported_version
    fail_if (is_empty wire.events || ltb max_archive_events (length wire.events)) event_limit
    fail_if (not (in_order wire.events)) invalid_order
    validate_all wire.events
    validate_links wire
    ok (record { community = wire.community_id; events = wire.events })

  unfoldable pub validate : ParsedArchive → Result ArchiveError ValidatedArchive
  validate parsed = validate_wire parsed.wire

  unfoldable pub encode :
      Codec ArchiveWire → CommunityId → List SignedEvent → Result ArchiveError Bytes
  encode wire_codec community events = do
    validated ←
        validate_wire (record {
          version = archive_version;
          community_id = community;
          events = sort_by_id events;
        })
    bytes ←
        ok_or
          (wire_codec.to_vec (record {
            version = archive_version;
            community_id = validated.community;
            events = validated.events;
          }))
          json
    fail_if (ltb max_archive_bytes (length bytes)) too_large
    ok bytes
