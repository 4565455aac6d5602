-- ===== src/Storage.antt =====
-- crates/storage/src/lib.rs: the store of signed events. SQLite is a third-party library: the record
-- `Sqlite` holds the five statements that the source gives it, each as one operation on a connection.
pub mod Reading
pub mod Growth
use chatcommons.Prelude.{
  ℕ, ◌==◌, ◌≡◌, Bool, true, false, not, ◌&&◌, ◌||◌, Option, none, some, List, [], ◌∷◌, Result, ok,
  err, ◌>>=◌, ◌>>◌, ok_or, map_err, if◌then◌else◌, eq_option, is_none,
}
use chatcommons.Prelude.Bytes.{Bytes, ℤ, pos, negsuc}
use chatcommons.Prelude.Maps
use chatcommons.Prelude.Maps.{Map}
use chatcommons.Crypto.{Primitives}
use chatcommons.Protocol.{EventId, CommunityId, SignedEvent, Codec, ProtocolError, validate_event}

pub record Sqlite : Type 1 where
  pub Connection : Type 0
  -- `rusqlite::Error`
  pub Failure : Type 0
  -- INSERT OR IGNORE, with the number of changed rows
  pub insert_or_ignore :
      Connection → EventId → Option CommunityId → Bytes → Result Failure ℕ × Connection
  -- SELECT COUNT(*)
  pub count_rows : Connection → Result Failure ℤ
  -- SELECT COALESCE(SUM(length(body)), 0)
  pub sum_lengths : Connection → Result Failure ℤ
  -- SELECT body of an identifier
  pub select_body : Connection → EventId → Result Failure (Option Bytes)
  -- SELECT body of a community, in the order of identifiers; each row may fail
  pub select_bodies : Connection → CommunityId → Result Failure (List (Result Failure Bytes))

-- A row under its primary key: community and body.
abbrev pub Row : Type 0
Row = Option CommunityId × Bytes

abbrev pub body_in : Option Row → Option Bytes
body_in none = none
body_in (some row) = some row.1

-- What SQLite documents of these statements: a connection stands for a table `rows` with a primary
-- key, which a failed insertion leaves alone.
pub record DocumentedSqlite (q : Sqlite) : Type 0 where
  pub rows : q.Connection → Map Row
  pub insert_fresh :
      (c : q.Connection) (id : EventId) (community : Option CommunityId) (body : Bytes) (n : ℕ)
      (c' : q.Connection)
      → q.insert_or_ignore c id community body ≡ (ok n, c')
      → Maps.contains_key id (rows c) ≡ false
      → (n ≡ 1) × (rows c' ≡ Maps.insert id (community, body) (rows c))
  pub insert_ignored :
      (c : q.Connection) (id : EventId) (community : Option CommunityId) (body : Bytes) (n : ℕ)
      (c' : q.Connection)
      → q.insert_or_ignore c id community body ≡ (ok n, c')
      → Maps.contains_key id (rows c) ≡ true
      → (n ≡ 0) × (rows c' ≡ rows c)
  pub insert_failed :
      (c : q.Connection) (id : EventId) (community : Option CommunityId) (body : Bytes)
      (f : q.Failure) (c' : q.Connection)
      → q.insert_or_ignore c id community body ≡ (err f, c')
      → rows c' ≡ rows c
  pub selected :
      (c : q.Connection) (id : EventId) (body : Option Bytes)
      → q.select_body c id ≡ ok body
      → body ≡ body_in (Maps.lookup id (rows c))

pub data InsertOutcome : Type 0 where
  inserted already_present : InsertOutcome

module _ (q : Sqlite) where
  pub record EventStore : Type 0 where
    pub connection : q.Connection

  pub data StorageError : Type 0 where
    sqlite : q.Failure → StorageError
    corrupt : StorageError
    protocol : ProtocolError → StorageError
    invalid_stored_size : StorageError

  -- `if changed == 1 { Inserted } else { AlreadyPresent }`
  abbrev pub outcome_of :
      Result q.Failure ℕ × q.Connection → Result StorageError InsertOutcome × EventStore
  outcome_of (ok changed, c) =
      (ok (if changed == 1 then inserted else already_present), record { connection = c })
  outcome_of (err f, c) = (err (sqlite f), record { connection = c })

  unfoldable pub is_empty : EventStore → Result StorageError Bool
  is_empty store = do
    count ← map_err sqlite (q.count_rows store.connection)
    ok (elim count [ pos n ↦ n == 0 | negsuc n ↦ false ])

  -- `u64::try_from`
  unfoldable pub stored_event_bytes : EventStore → Result StorageError ℕ
  stored_event_bytes store = do
    bytes ← map_err sqlite (q.sum_lengths store.connection)
    elim bytes [ pos n ↦ ok n | negsuc n ↦ err invalid_stored_size ]

  module _ (p : Primitives) (event_codec : Codec SignedEvent) where
    -- With the result of `validate_event` and that of `to_vec`.
    abbrev pub insert_checked :
        EventStore
        → SignedEvent
        → Result ProtocolError (Unit {0})
        → Option Bytes
        → Result StorageError InsertOutcome × EventStore
    insert_checked store event (err e) body = (err (protocol e), store)
    insert_checked store event (ok valid) none = (err corrupt, store)
    insert_checked store event (ok valid) (some body) =
        outcome_of
          (q.insert_or_ignore store.connection event.event_id event.content.community_id body)

    unfoldable pub insert :
        EventStore → SignedEvent → Result StorageError InsertOutcome × EventStore
    insert store event =
        insert_checked store event (validate_event p event) (event_codec.to_vec event)

    unfoldable pub decode_stored : Bytes → Result StorageError SignedEvent
    decode_stored bytes = do
      event ← ok_or (event_codec.from_slice bytes) corrupt
      map_err protocol (validate_event p event)
      ok event

    unfoldable pub get : EventStore → EventId → Result StorageError (Option SignedEvent)
    get store id = do
      body ← map_err sqlite (q.select_body store.connection id)
      elim body [ none ↦ ok none | some bytes ↦ do event ← decode_stored bytes; ok (some event) ]

    unfoldable pub decode_rows :
        List (Result q.Failure Bytes) → Result StorageError (List SignedEvent)
    decode_rows [] = ok []
    decode_rows (row ∷ rows) = do
      bytes ← map_err sqlite row
      event ← decode_stored bytes
      events ← decode_rows rows
      ok (event ∷ events)

    unfoldable pub events : EventStore → CommunityId → Result StorageError (List SignedEvent)
    events store community = do
      rows ← map_err sqlite (q.select_bodies store.connection community)
      decode_rows rows
