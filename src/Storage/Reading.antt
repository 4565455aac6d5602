-- ===== src/Storage/Reading.antt =====
-- What is inserted into the store of crates/storage/src/lib.rs is read back, and stays.
use chatcommons.Prelude.{
  ℕ, ◌≡◌, ◌⊎◌, inl, inr, refl, ap, ◌∙◌, Option, none, some, true, ok, err, Result, Result-cases,
  Bool-cases, arith,
}
use chatcommons.Prelude.Maps
use chatcommons.Prelude.Maps.{lookup-insert}
use chatcommons.Prelude.Bytes.{Bytes}
use chatcommons.Crypto.{Primitives}
use chatcommons.Protocol.{SignedEvent, EventId, Codec, RoundTrips, ProtocolError, validate_event}
use chatcommons.Storage.{
  Sqlite, DocumentedSqlite, Row, body_in, inserted, EventStore, sqlite, outcome_of, insert_checked,
  insert, decode_stored, get,
}

module _ (q : Sqlite) (documented : DocumentedSqlite q) (p : Primitives)
    (event_codec : Codec SignedEvent) where
  -- The rows of a store.
  abbrev pub table : EventStore q → Maps.Map Row
  table store = documented.rows store.connection

  -- The statement, with its result at hand.
  executed_keeps :
      (c : q.Connection) (event : SignedEvent) (body : Bytes) (j : EventId)
      (r : Result q.Failure ℕ × q.Connection)
      → q.insert_or_ignore c event.event_id event.content.community_id body ≡ r
      → Maps.contains_key j (documented.rows c) ≡ true
      → Maps.lookup j (table ((outcome_of q r).1)) ≡ Maps.lookup j (documented.rows c)
  executed_keeps c event body j (err f, c') e k =
      ap (Maps.lookup j) (documented.insert_failed c _ _ body f c' e)
  executed_keeps c event body j (ok n, c') e k =
      elim (Bool-cases (Maps.contains_key event.event_id (documented.rows c))) [
        | inl old ↦ ap (Maps.lookup j) ((documented.insert_ignored c _ _ body n c' e old).1)
        | inr fresh ↦
            ap (Maps.lookup j) ((documented.insert_fresh c _ _ body n c' e fresh).1)
            ∙ lookup-insert j event.event_id _ (documented.rows c)
            ∙ ground arith
      ]

  executed_reads :
      (c : q.Connection) (event : SignedEvent) (body : Bytes)
      (r : Result q.Failure ℕ × q.Connection)
      → q.insert_or_ignore c event.event_id event.content.community_id body ≡ r
      → (outcome_of q r).0 ≡ ok inserted
      → body_in (Maps.lookup event.event_id (table ((outcome_of q r).1))) ≡ some body
  executed_reads c event body (err f, c') e k = absurd (ground arith)
  executed_reads c event body (ok n, c') e k =
      elim (Bool-cases (Maps.contains_key event.event_id (documented.rows c))) [
        | inl old ↦ absurd (ground (arith, (documented.insert_ignored c _ _ body n c' e old).0))
        | inr fresh ↦
            ap (λ m. body_in (Maps.lookup event.event_id m))
              ((documented.insert_fresh c _ _ body n c' e fresh).1)
            ∙ ap body_in (lookup-insert event.event_id event.event_id _ (documented.rows c))
            ∙ ground arith
      ]

  checked_keeps :
      (store : EventStore q) (event : SignedEvent) (j : EventId)
      (v : Result ProtocolError (Unit {0})) (b : Option Bytes)
      → Maps.contains_key j (table store) ≡ true
      → Maps.lookup j (table ((insert_checked q p event_codec store event v b).1))
        ≡ Maps.lookup j (table store)
  checked_keeps store event j (err e) b k = refl
  checked_keeps store event j (ok _) none k = refl
  checked_keeps store event j (ok _) (some body) k =
      executed_keeps store.connection event body j _ refl k

  -- If SQLite works as documented, an insertion with whatever outcome leaves every stored row as it is.
  pub insert-keeps :
      (store : EventStore q) (event : SignedEvent) (j : EventId)
      → Maps.contains_key j (table store) ≡ true
      → Maps.lookup j (table ((insert q p event_codec store event).1)) ≡ Maps.lookup j (table store)
  unfolding insert
  insert-keeps store event j k =
      checked_keeps store event j (validate_event p event) (event_codec.to_vec event) k

  checked_row :
      (store : EventStore q) (event : SignedEvent) (v : Result ProtocolError (Unit {0}))
      (b : Option Bytes)
      → (insert_checked q p event_codec store event v b).0 ≡ ok inserted
      → (v ≡ ok tt)
        × ((body : Bytes) × (b ≡ some body)
            × (body_in (
                  Maps.lookup event.event_id
                    (table ((insert_checked q p event_codec store event v b).1)))
                ≡ some body))
  checked_row store event (err e) b h = absurd (ground arith)
  checked_row store event (ok _) none h = absurd (ground arith)
  checked_row store event (ok _) (some body) h =
      (refl, (body, refl, executed_reads store.connection event body _ refl h))

  -- If SQLite works as documented and JSON is read back as written, then after an event is reported as
  -- inserted, `get` finds this event under its identifier, unless SQLite fails to answer.
  pub insert-get :
      (store : EventStore q) (event : SignedEvent)
      → RoundTrips event_codec
      → (insert q p event_codec store event).0 ≡ ok inserted
      → (get q p event_codec ((insert q p event_codec store event).1) event.event_id
          ≡ ok (some event))
        ⊎ ((f : q.Failure) × (get q p event_codec
                ((insert q p event_codec store event).1)
                event.event_id
              ≡ err (sqlite f)))
  unfolding get decode_stored insert
  insert-get store event faithful h =
      let (valid, (body, encoded, row)) =
        checked_row store event (validate_event p event) (event_codec.to_vec event) h in
      let after = (insert q p event_codec store event).1 in
      elim (Result-cases (q.select_body after.connection event.event_id)) [
        | inl (f, e) ↦ inr (f, rw e refl)
        | inr (found, e) ↦
            let here = documented.selected after.connection event.event_id found e ∙ row in
            inl (rw (e, here, faithful event body encoded, valid) refl)
      ]
