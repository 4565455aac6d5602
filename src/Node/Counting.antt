-- ===== src/Node/Counting.antt =====
-- What the counts in a report of `ingest` in crates/node-core/src/lib.rs mean for the store.
use chatcommons.Prelude.{
  ℕ, zero, suc, ◌+◌, ◌≡◌, subst, refl, Option, none, some, List, [], ◌∷◌, ok, err, Result, length,
  arith,
}
use chatcommons.Prelude.Maps
use chatcommons.Prelude.Options.{some_inj}
use chatcommons.Crypto.{Primitives}
use chatcommons.Protocol.{SignedEvent, EventId, CommunityId, Codec}
use chatcommons.Storage
use chatcommons.Storage.{
  Sqlite, DocumentedSqlite, InsertOutcome, inserted, already_present, EventStore, StorageError,
}
use chatcommons.Storage.Reading.{table}
use chatcommons.Storage.Growth.{rows_of, insert_grows}
use chatcommons.Node.{
  ready, collect_into, IngestReport, NodeError, CoreNode, Ingest, Out, unless_error, record_insert,
  check_batch, admit_event, admit, admit_all, rounds, report, reported, ingest_checked, ingest,
}
use chatcommons.Node.Ingestion.{Reports, ingest-Reports}

module _ (q : Sqlite) (documented : DocumentedSqlite q) (p : Primitives)
    (event_codec : Codec SignedEvent) where
  abbrev pub row_count : EventStore q → ℕ
  row_count store = length (table q documented p event_codec store)

  -- The events counted as inserted are the rows that came to `before`.
  abbrev Tallies : ℕ → Ingest q → Type 0
  Tallies before g = row_count g.node.store ≡ before + g.inserted

  -- `ok` with a right count, or an error.
  abbrev StillTallies : ℕ → Out q → Type 0
  StillTallies before (err e, g) = Unit {0}
  StillTallies before (ok _, g) = Tallies before g

  recorded-Tallies :
      (before : ℕ) (community : CommunityId) (g : Ingest q) (id : EventId) (event : SignedEvent)
      (r : Result (StorageError q) InsertOutcome × EventStore q)
      → Tallies before g
      → ((o : InsertOutcome) → r.0 ≡ ok o → row_count r.1 ≡ row_count g.node.store + rows_of o)
      → StillTallies before (record_insert q community g id event r)
  recorded-Tallies before community g id event (err e, store) t grows = tt
  recorded-Tallies before community g id event (ok inserted, store) t grows =
      omega (arith, t, grows inserted refl)
  recorded-Tallies before community g id event (ok already_present, store) t grows =
      omega (arith, t, grows already_present refl)

  admit-Tallies :
      (before : ℕ) (community : CommunityId) (g : Ingest q) (id : EventId)
      → Tallies before g
      → StillTallies before (admit q p event_codec community g id)
  unfolding admit
  admit-Tallies before community g id t = by_event (Maps.lookup id g.pending)
    where
      by_event :
          (found : Option SignedEvent)
          → StillTallies before (admit_event q p event_codec community g id found)
      by_event none = tt
      by_event (some event) =
          recorded-Tallies before community (record g { pending = Maps.remove id g.pending }) id
            event (Storage.insert q p event_codec g.node.store event) t
            (λ o h. insert_grows q documented p event_codec g.node.store event o h)

  admit_all-Tallies :
      (before : ℕ) (community : CommunityId) (g : Ingest q) (ids : List EventId)
      → Tallies before g
      → StillTallies before (admit_all q p event_codec community g ids)
  unfolding admit_all
  admit_all-Tallies before community g [] t = t
  admit_all-Tallies before community g (id ∷ ids) t =
      through (λ h. admit_all-Tallies before community h ids) (admit q p event_codec community g id)
        (admit-Tallies before community g id t)
    where
      through :
          ((h : Ingest q)
            → Tallies before h
            → StillTallies before (admit_all q p event_codec community h ids))
          → (out : Out q) → StillTallies before out
          → StillTallies before
              (unless_error q (λ h. admit_all q p event_codec community h ids) (λ out. out) out)
      through later (err e, h) t = tt
      through later (ok _, h) t = later h t

  abbrev EndTallies : ℕ → Option (Out q) → Type 0
  EndTallies before none = Unit {0}
  EndTallies before (some out) = StillTallies before out

  rounds-Tallies :
      (before fuel : ℕ) (community : CommunityId) (g : Ingest q)
      → Tallies before g
      → EndTallies before (rounds q p event_codec fuel community g)
  unfolding rounds
  rounds-Tallies before zero community g t = tt
  rounds-Tallies before (suc fuel) community g t =
      through (λ h. rounds-Tallies before fuel community h) (ready g.node.known g.pending)
    where
      step :
          ((h : Ingest q)
            → Tallies before h
            → EndTallies before (rounds q p event_codec fuel community h))
          → (out : Out q) → StillTallies before out
          → EndTallies before (unless_error q (rounds q p event_codec fuel community) some out)
      step later (err e, h) t = tt
      step later (ok _, h) t = later h t

      through :
          ((h : Ingest q)
            → Tallies before h
            → EndTallies before (rounds q p event_codec fuel community h))
          → (ids : List EventId)
          → EndTallies before (elim ids [
            | [] ↦ some (ok tt, g)
            | id ∷ ids ↦
                unless_error q
                  (rounds q p event_codec fuel community)
                  some
                  (admit_all q p event_codec community g (id ∷ ids))
          ])
      through later [] = t
      through later (id ∷ ids) =
          step later (admit_all q p event_codec community g (id ∷ ids))
            (admit_all-Tallies before community g (id ∷ ids) t)

  ingest_tallies :
      (node after : CoreNode q) (events : List SignedEvent) (r : IngestReport)
      → ingest q p event_codec node events ≡ some (ok r, after)
      → row_count after.store ≡ row_count node.store + r.inserted
  unfolding ingest
  ingest_tallies node after events r h = by_check (check_batch q p node events) h
    where
      counted : Result (NodeError q) IngestReport → ℕ
      counted (err e) = 0
      counted (ok r) = r.inserted

      ended :
          (end : Option (Out q))
          → EndTallies (row_count node.store) end
          → reported q end ≡ some (ok r, after)
          → row_count after.store ≡ row_count node.store + r.inserted
      ended none t h = absurd cc
      ended (some (err e, g)) t h = absurd cc
      ended (some (ok _, g)) t h =
          subst (λ o. row_count o.1.store ≡ row_count node.store + counted o.0)
            (some_inj (report q (ok tt, g)) (ok r, after) h) t

      by_check :
          (checked : Result (NodeError q) CommunityId)
          → ingest_checked q p event_codec node events checked ≡ some (ok r, after)
          → row_count after.store ≡ row_count node.store + r.inserted
      by_check (err e) h = absurd cc
      by_check (ok community) h =
          ended
            (rounds q p event_codec (suc (length (collect_into [] events))) community (record {
              node = node;
              pending = collect_into [] events;
              inserted = 0;
              already_present = 0;
            }))
            (rounds-Tallies (row_count node.store) (suc (length (collect_into [] events))) community
              _ (omega arith))
            h

  -- What a report says, and the growth of the table.
  abbrev pub Counts : List SignedEvent → CoreNode q → CoreNode q → IngestReport → Type 0
  Counts events node after r =
      Reports q p event_codec events node after r
      × (row_count after.store ≡ row_count node.store + r.inserted)

  -- If SQLite works as documented and `ingest` returns a report, then the node knows exactly what it knew
  -- before and the identifiers of the input that are not reported as unresolved; each unresolved
  -- identifier belongs to an event of the input with a parent that is still unknown; the number of
  -- events reported as inserted is that of the rows that came to the store; and with those reported
  -- as present and the unresolved ones it adds up to the number of different identifiers of the
  -- input.
  pub ingest-Counts :
      (node after : CoreNode q) (events : List SignedEvent) (r : IngestReport)
      → ingest q p event_codec node events ≡ some (ok r, after)
      → Counts events node after r
  ingest-Counts node after events r h =
      (ingest-Reports q p event_codec node after events r h, ingest_tallies node after events r h)
