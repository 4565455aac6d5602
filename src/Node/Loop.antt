-- ===== src/Node/Loop.antt =====
-- The loop of `ingest` in crates/node-core/src/lib.rs ends, and how.
use chatcommons.Prelude.{
  ℕ, zero, suc, ◌<◌, ◌≡◌, refl, some, List, [], ◌∷◌, All, arith, ok, err, Option, length,
}
use chatcommons.Prelude.Sets.{Set, Distinct, Distinct-of_IsAscending}
use chatcommons.Prelude.Maps.{Map, keys}
use chatcommons.Crypto.{Primitives}
use chatcommons.Protocol.{SignedEvent, EventId, CommunityId, Codec}
use chatcommons.Storage.{Sqlite, StorageError}
use chatcommons.Node.{ready, Ingest, Out, storage, unless_error, admit_all, rounds}
use chatcommons.Node.Pending.{IsReady, ready-IsReady, ready-Distinct}
use chatcommons.Node.Steps.{IsKnowledge, Holds, After, admit_all-After}
use chatcommons.Node.Progress.{admit_all-lt}

module _ {q : Sqlite} where
  -- The end of the loop: nothing is ready.
  abbrev pub Ended : Set → Map SignedEvent → Out q → Type 0
  Ended before batch (err e, g) =
      ((s : StorageError q) × (e ≡ storage s)) × IsKnowledge before batch g.node.known
  Ended before batch (ok done, g) = Holds before batch g × (ready g.node.known g.pending ≡ [])

  module _ (p : Primitives) (event_codec : Codec SignedEvent) (community : CommunityId)
      (before : Set) (batch : Map SignedEvent) where
    pub rounds_end :
        (fuel : ℕ) (g : Ingest q)
        → Holds before batch g
        → length g.pending < fuel
        → (out : Out q) × (rounds q p event_codec fuel community g ≡ some out)
          × Ended before batch out
    unfolding rounds
    rounds_end zero g h n = absurd (omega arith)
    rounds_end (suc fuel) g h n =
        let unique = Distinct-of_IsAscending (keys g.pending) h.unique in
        through (rounds_end fuel) (ready g.node.known g.pending) refl
          (ready-IsReady g.node.known g.pending unique)
          (ready-Distinct g.node.known g.pending unique)
      where
        Reaches : Option (Out q) → Type 0
        Reaches o = (out : Out q) × (o ≡ some out) × Ended before batch out

        step :
            ((g : Ingest q)
              → Holds before batch g
              → length g.pending < fuel
              → Reaches (rounds q p event_codec fuel community g))
            → (out : Out q) → After before batch out
            → length out.1.pending < length g.pending
            → Reaches (unless_error q (rounds q p event_codec fuel community) some out)
        step later (err e, h') after lt = ((err e, h'), refl, after)
        step later (ok _, h') after lt = later h' after (omega arith)

        through :
            ((g : Ingest q)
              → Holds before batch g
              → length g.pending < fuel
              → Reaches (rounds q p event_codec fuel community g))
            → (ids : List EventId) → ready g.node.known g.pending ≡ ids
            → All (IsReady g.node.known g.pending) ids
            → Distinct ids
            → Reaches (elim ids [
              | [] ↦ some (ok tt, g)
              | id ∷ ids ↦
                  unless_error q
                    (rounds q p event_codec fuel community)
                    some
                    (admit_all q p event_codec community g (id ∷ ids))
            ])
        through later [] e r d = ((ok tt, g), refl, (h, e))
        through later (id ∷ ids) e r d =
            step later (admit_all q p event_codec community g (id ∷ ids))
              (admit_all-After p event_codec community before batch g (id ∷ ids) h r d)
              (admit_all-lt p event_codec community g id ids r.0.0 h.unique r.0.1)
