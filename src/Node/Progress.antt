-- ===== src/Node/Progress.antt =====
-- Every round of `ingest` that does something leaves less to do: crates/node-core/src/lib.rs.
use chatcommons.Prelude.{
  ◌≤◌, ◌<◌, ◌≡◌, none, some, List, [], ◌∷◌, arith, ok, err, Result, Option, length,
}
use chatcommons.Prelude.Sets.{IsAscending}
use chatcommons.Prelude.Maps
use chatcommons.Prelude.Maps.{
  Map, lookup, lookup-remove, keys, keys-remove, length-keys, contains_key, contains-lookup,
}
use chatcommons.Crypto.{Primitives}
use chatcommons.Protocol.{SignedEvent, EventId, CommunityId, Codec}
use chatcommons.Storage
use chatcommons.Storage.{Sqlite, StorageError, EventStore, InsertOutcome, inserted, already_present}
use chatcommons.Node.{Ingest, Out, unless_error, record_insert, admit_event, admit, admit_all}
use chatcommons.Node.Steps.{length-remove_pending}

module _ {q : Sqlite} where
  module _ (p : Primitives) (event_codec : Codec SignedEvent) (community : CommunityId) where
    admit-lt :
        (g : Ingest q) (id : EventId) (e : SignedEvent)
        → IsAscending (keys g.pending)
        → lookup id g.pending ≡ some e
        → length (admit q p event_codec community g id).1.pending < length g.pending
    unfolding admit
    admit-lt g id e a l = rw l (through (Storage.insert q p event_codec g.node.store e))
      where
        through :
            (r : Result (StorageError q) InsertOutcome × EventStore q)
            → length
                (record_insert q community
                  (record g { pending = Maps.remove id g.pending })
                  id
                  e
                  r).1.pending
              < length g.pending
        through (err s, store) = omega (arith, length-remove_pending g id e a l)
        through (ok outcome, store) = omega (arith, length-remove_pending g id e a l)

    admit-le :
        (g : Ingest q) (id : EventId)
        → length (admit q p event_codec community g id).1.pending ≤ length g.pending
    unfolding admit
    admit-le g id = through (lookup id g.pending)
      where
        stored :
            (e : SignedEvent) (r : Result (StorageError q) InsertOutcome × EventStore q)
            → length
                (record_insert q community
                  (record g { pending = Maps.remove id g.pending })
                  id
                  e
                  r).1.pending
              ≤ length g.pending
        stored e (err s, store) = Maps.length-remove-le id g.pending
        stored e (ok outcome, store) = Maps.length-remove-le id g.pending

        through :
            (found : Option SignedEvent)
            → length (admit_event q p event_codec community g id found).1.pending ≤ length g.pending
        through none = omega arith
        through (some e) = stored e (Storage.insert q p event_codec g.node.store e)

    admit_all-le :
        (g : Ingest q) (ids : List EventId)
        → length (admit_all q p event_codec community g ids).1.pending ≤ length g.pending
    unfolding admit_all
    admit_all-le g [] = omega arith
    admit_all-le g (id ∷ ids) =
        through (λ h. admit_all-le h ids) (admit q p event_codec community g id) (admit-le g id)
      where
        through :
            ((h : Ingest q)
              → length (admit_all q p event_codec community h ids).1.pending ≤ length h.pending)
            → (out : Out q) → length out.1.pending ≤ length g.pending
            → length
                (unless_error q
                  (λ h. admit_all q p event_codec community h ids)
                  (λ out. out)
                  out).1.pending
              ≤ length g.pending
        through later (err x, h) le = le
        through later (ok _, h) le = omega (arith, later h)

    -- A round with something to do leaves less to do.
    pub admit_all-lt :
        (g : Ingest q) (id : EventId) (ids : List EventId) (e : SignedEvent)
        → IsAscending (keys g.pending)
        → lookup id g.pending ≡ some e
        → length (admit_all q p event_codec community g (id ∷ ids)).1.pending < length g.pending
    unfolding admit_all
    admit_all-lt g id ids e a l =
        through (admit q p event_codec community g id) (admit-lt g id e a l)
      where
        through :
            (out : Out q)
            → length out.1.pending < length g.pending
            → length
                (unless_error q
                  (λ h. admit_all q p event_codec community h ids)
                  (λ out. out)
                  out).1.pending
              < length g.pending
        through (err x, h) lt = lt
        through (ok _, h) lt = omega (arith, admit_all-le h ids)
