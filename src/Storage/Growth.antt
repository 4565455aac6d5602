-- ===== src/Storage/Growth.antt =====
-- How an insertion of crates/storage/src/lib.rs changes the number of rows.
use chatcommons.Prelude.{
  ℕ, suc, ◌+◌, ◌≡◌, ap, ◌∙◌, subst, Option, none, some, refl, [], ◌∷◌, false, ok, err, Result,
  Bool-cases, inl, inr, arith, length,
}
use chatcommons.Prelude.Sets
use chatcommons.Prelude.Maps
use chatcommons.Prelude.Maps.{Map, contains-keys, length-keys, keys-insert}
use chatcommons.Prelude.Bytes.{Bytes}
use chatcommons.Crypto.{Primitives}
use chatcommons.Protocol.{SignedEvent, Codec, ProtocolError, validate_event}
use chatcommons.Storage.{
  Sqlite, DocumentedSqlite, Row, InsertOutcome, inserted, already_present, EventStore, outcome_of,
  insert_checked, insert,
}
use chatcommons.Storage.Reading.{table}

-- The rows that an outcome stands for.
abbrev pub rows_of : InsertOutcome → ℕ
rows_of inserted = 1
rows_of already_present = 0

length-insert_new :
    (k : ℕ) (s : Sets.Set) → Sets.contains k s ≡ false → length (Sets.insert k s) ≡ suc (length s)
unfolding Sets.contains Sets.insert
length-insert_new k [] h = refl
length-insert_new k (x ∷ s) h = ground (arith, length-insert_new k s)

length-insert_fresh :
    (k : ℕ) (v : Row) (m : Map Row)
    → Maps.contains_key k m ≡ false
    → length (Maps.insert k v m) ≡ suc (length m)
length-insert_fresh k v m h = omega (
  arith,
  length-keys (Maps.insert k v m),
  length-keys m,
  ap length (keys-insert k v m),
  length-insert_new k (Maps.keys m) (contains-keys k m ∙ h),
)

module _ (q : Sqlite) (documented : DocumentedSqlite q) (p : Primitives)
    (event_codec : Codec SignedEvent) where
  executed_grows :
      (c : q.Connection) (event : SignedEvent) (body : Bytes) (o : InsertOutcome)
      (r : Result q.Failure ℕ × q.Connection)
      → q.insert_or_ignore c event.event_id event.content.community_id body ≡ r
      → (outcome_of q r).0 ≡ ok o
      → length (documented.rows r.1) ≡ length (documented.rows c) + rows_of o
  executed_grows c event body o (err f, c') e h = absurd cc
  executed_grows c event body o (ok n, c') e h =
      elim (Bool-cases (Maps.contains_key event.event_id (documented.rows c))) [
        | inl old ↦
            let (zero_rows, same) = documented.insert_ignored c _ _ body n c' e old in
            let present : already_present ≡ o = ground (arith, h, zero_rows) in
            subst (λ o. length (documented.rows c') ≡ length (documented.rows c) + rows_of o)
              present (ap length same ∙ omega arith)
        | inr fresh ↦
            let (one_row, grown) = documented.insert_fresh c _ _ body n c' e fresh in
            let new : inserted ≡ o = ground (arith, h, one_row) in
            subst (λ o. length (documented.rows c') ≡ length (documented.rows c) + rows_of o) new
              (ap length grown
                ∙ length-insert_fresh event.event_id _ (documented.rows c) fresh
                ∙ omega arith)
      ]

  checked_grows :
      (store : EventStore q) (event : SignedEvent) (o : InsertOutcome)
      (v : Result ProtocolError (Unit {0})) (b : Option Bytes)
      → (insert_checked q p event_codec store event v b).0 ≡ ok o
      → length
          (table q documented p event_codec ((insert_checked q p event_codec store event v b).1))
        ≡ length (table q documented p event_codec store) + rows_of o
  checked_grows store event o (err e) b h = absurd cc
  checked_grows store event o (ok _) none h = absurd cc
  checked_grows store event o (ok _) (some body) h =
      by_result (q.insert_or_ignore store.connection event.event_id event.content.community_id body)
        refl h
    where
      by_result :
          (r : Result q.Failure ℕ × q.Connection)
          → q.insert_or_ignore store.connection event.event_id event.content.community_id body ≡ r
          → (outcome_of q r).0 ≡ ok o
          → length (documented.rows (outcome_of q r).1.connection)
            ≡ length (documented.rows store.connection) + rows_of o
      by_result (err f, c') e h = absurd cc
      by_result (ok n, c') e h = executed_grows store.connection event body o (ok n, c') e h

  -- An event is reported as inserted if the table grows by its row, and as present if it does not.
  pub insert_grows :
      (store : EventStore q) (event : SignedEvent) (o : InsertOutcome)
      → (insert q p event_codec store event).0 ≡ ok o
      → length (table q documented p event_codec ((insert q p event_codec store event).1))
        ≡ length (table q documented p event_codec store) + rows_of o
  unfolding insert
  insert_grows store event o h =
      checked_grows store event o (validate_event p event) (event_codec.to_vec event) h
