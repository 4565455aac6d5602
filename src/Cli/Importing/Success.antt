-- ===== src/Cli/Importing/Success.antt =====
-- crates/cli/src/main.rs: what `ingest_archive` has done when it succeeds.
use chatcommons.Prelude.{
  ℕ, ◌≡◌, ◌||◌, true, Option, none, some, List, [], ◌∷◌, length, filter, All, Result, ok, err,
  arith, refl, ◌∙◌, Bool-cases, inl, inr,
}
use chatcommons.Prelude.Sets
use chatcommons.Prelude.Sets.{Set}
use chatcommons.Prelude.Maps
use chatcommons.Prelude.Maps.{contains-keys}
use chatcommons.Crypto.{Primitives}
use chatcommons.Protocol.{EventId, SignedEvent, Codec}
use chatcommons.Storage.{Sqlite}
use chatcommons.Node.{CoreNode, ids_of, max_pending_events}
use chatcommons.Network.{Synchronizer}
use chatcommons.Sync.{chunks}
use chatcommons.Cli.{CliError}
use chatcommons.Cli.Importing.{Ordered, pending_of, topological, ingest_ordered, ingest_archive}
use chatcommons.Cli.Importing.Ordering.{ingest_archive_returns}
use chatcommons.Cli.Importing.Completeness.{topological_covers}
use chatcommons.Cli.Importing.Batches.{
  pending_of-Keyed, pending_of_covers, chunks_cover, ingest_batches_covers,
}

module _ (q : Sqlite) (z : Synchronizer) (p : Primitives) (event_codec : Codec SignedEvent) where
  -- With the order that was found.
  ordered_covers :
      (core after : CoreNode q) (events : List SignedEvent) (present : ℕ) (counts : ℕ × ℕ)
      (id : EventId) (found : Option (Ordered q z (List EventId)))
      → topological q z core.known (pending_of core.known [] events) ≡ found
      → ingest_ordered q z p event_codec core (pending_of core.known [] events) present found
        ≡ some (ok counts, after)
      → (Sets.contains id core.known || Sets.contains id (ids_of events)) ≡ true
      → Sets.contains id after.known ≡ true
  unfolding Maps.lookup
  ordered_covers core after events present counts id none t h c = absurd cc
  ordered_covers core after events present counts id (some (err e)) t h c = absurd cc
  ordered_covers core after events present counts id (some (ok ids)) t h c =
      let pending = pending_of core.known [] events in
      ingest_batches_covers q z p event_codec core (chunks (length ids) max_pending_events ids)
        pending 0 present counts after id h
        (pending_of-Keyed core.known [] events (λ k e l. absurd cc))
        (elim (Bool-cases (Sets.contains id core.known)) [
          | inl known ↦ ground (arith, known)
          | inr unknown ↦
              let key : Maps.contains_key id pending ≡ true =
                ground
                  (arith, unknown, pending_of_covers core.known [] events id (ground (arith, c))) in
              ground (
                arith,
                key,
                chunks_cover (length ids) 1023 ids id (omega arith) (
                    topological_covers q z core.known pending ids t id
                      (contains-keys id pending ∙ key)),
              )
        ])

  -- With success every event of the archive is known, and so is what was known before.
  abbrev pub IsImported :
      Set → List SignedEvent → Result (CliError q z) (ℕ × ℕ) × CoreNode q → Type 0
  IsImported known events (err e, after) = Unit {0}
  IsImported known events (ok counts, after) =
      All (λ e. Sets.contains e.event_id after.known ≡ true) events
      × All (λ id. Sets.contains id after.known ≡ true) known

  still-All :
      (known after : Set)
      → ((id : EventId) → Sets.contains id known ≡ true → Sets.contains id after ≡ true)
      → All (λ id. Sets.contains id after ≡ true) known
  unfolding Sets.contains
  still-All [] after h = tt
  still-All (x ∷ known) after h =
      (h x (ground arith), still-All known after (λ id c. h id (ground (arith, c))))

  known-All :
      (known : Set) (events : List SignedEvent)
      → ((id : EventId) → Sets.contains id (ids_of events) ≡ true → Sets.contains id known ≡ true)
      → All (λ e. Sets.contains e.event_id known ≡ true) events
  unfolding Sets.contains
  known-All known [] h = tt
  known-All known (e ∷ events) h =
      (h e.event_id (ground arith), known-All known events (λ id c. h id (ground (arith, c))))

  -- `ingest_archive` returns on every node and every list of events: its loops end. With success the
  -- node knows every event of the list, and all that it knew before.
  pub ingest_archive-IsImported :
      (core : CoreNode q) (events : List SignedEvent)
      → (out : Result (CliError q z) (ℕ × ℕ) × CoreNode q) × (ingest_archive q z p event_codec core
            events
          ≡ some out)
        × IsImported core.known events out
  unfolding ingest_archive
  ingest_archive-IsImported core events =
      let (out, o) = ingest_archive_returns q z p event_codec core events in (out, o, of out o)
    where
      present : ℕ
      present = length (filter (λ e. Sets.contains e.event_id core.known) events)

      of :
          (out : Result (CliError q z) (ℕ × ℕ) × CoreNode q)
          → ingest_archive q z p event_codec core events ≡ some out
          → IsImported core.known events out
      of (err e, after) o = tt
      of (ok counts, after) o =
          let covers =
            λ (id : EventId)
                (c : (Sets.contains id core.known || Sets.contains id (ids_of events)) ≡ true).
              ordered_covers core after events present counts id
                (topological q z core.known (pending_of core.known [] events)) refl o c in
          (
            known-All after.known events (λ id c. covers id (ground (arith, c))),
            still-All core.known after.known (λ id c. covers id (ground (arith, c))),
          )
