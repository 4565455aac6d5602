-- ===== src/Chat/Resolver/Accounting.antt =====
-- `resolve` of crates/profile-chat/src/lib.rs leaves no event without a verdict.
use chatcommons.Prelude.{
  ℕ, ◌≡◌, refl, true, false, not, ◌||◌, ◌&&◌, some, List, [], ◌∷◌, ◌++◌, In, ok, arith, ◌==◌,
}
use chatcommons.Prelude.Sets
use chatcommons.Prelude.Sets.{contains, contains-insert, contains-remove, contains-extend}
use chatcommons.Prelude.Maps
use chatcommons.Prelude.Maps.{lookup-insert, contains_key, contains-keys}
use chatcommons.Crypto.{Primitives}
use chatcommons.Protocol.{SignedEvent, EventId, Codec}
use chatcommons.Chat.{ChatPayload, ChatResolution, RejectionReason, missing_parent}
use chatcommons.Chat.Book.{Book, blank}
use chatcommons.Chat.Book.Filing.{IsFiled, index-knows, book-IsFiled}
use chatcommons.Chat.Book.Sources.{IsCoherent, book_exclusive}
use chatcommons.Chat.Resolver.{Progress, start, rounds, finish, resolve, reject_all}
use chatcommons.Chat.Resolver.Step.{Outcome, refused, admitted}
use chatcommons.Chat.Resolver.Picks.{IsReady}
use chatcommons.Chat.Resolver.Rounds.{resolved-keeps, resolve_inversion}

-- Every known identifier is pending or has its verdict, and accepted ones are listed in order.
pub record IsAccounted (b : Book) (g : Progress) : Type 0 where
  pub judged :
      (j : EventId)
      → contains_key j b.by_id ≡ true
      → (Sets.contains j g.pending || (Sets.contains j g.accepted || contains_key j g.rejected))
        ≡ true
  pub listed : (j : EventId) → Sets.contains j g.accepted_in_order ≡ Sets.contains j g.accepted

contains-snoc : (j k : ℕ) (xs : List ℕ) → contains j (xs ++ k ∷ []) ≡ (j == k || contains j xs)
unfolding contains
contains-snoc j k [] = refl
contains-snoc j k (x ∷ xs) = ground (arith, contains-snoc j k xs)

module _ (p : Primitives) (b : Book) where
  pub step-IsAccounted :
      (g after : Progress) (id : EventId)
      → IsReady b g.pending id
      → contains id g.pending ≡ true
      → Outcome p b g id after
      → IsAccounted b g
      → IsAccounted b after
  step-IsAccounted g after id rd c (refused event reason e same) a = rw same (record {
    judged = λ j k.
        ground
          (arith, contains-remove j id g.pending, lookup-insert j id reason g.rejected, a.judged j);
    listed = a.listed;
  })
  step-IsAccounted g after id rd c (admitted event payload author e f w m r v same) a =
      rw same (record {
        judged = λ j k.
            ground
              (arith, contains-remove j id g.pending, contains-insert j id g.accepted, a.judged j);
        listed = λ j. ground (
          arith,
          contains-snoc j id g.accepted_in_order,
          contains-insert j id g.accepted,
          a.listed j,
        );
      })

  pub start-IsAccounted : IsFiled b → IsAccounted b (start b)
  unfolding contains
  start-IsAccounted f = record {
    judged = λ j k. ground (
      arith,
      f.covered j,
      contains-extend j (Maps.keys b.payloads) [],
      contains-keys j b.payloads,
    );
    listed = λ j. refl;
  }

  pub rounds-IsAccounted :
      (fuel : ℕ) (after : Progress)
      → IsFiled b
      → rounds p fuel b (start b) ≡ some after
      → IsAccounted b after
  rounds-IsAccounted fuel after f h =
      resolved-keeps p b (IsAccounted b) step-IsAccounted fuel after h (start-IsAccounted f)

contains-reject_all :
    (ids : List EventId) (m : Maps.Map RejectionReason) (j : EventId)
    → contains_key j (reject_all ids m) ≡ (contains j ids || contains_key j m)
unfolding contains
contains-reject_all [] m j = refl
contains-reject_all (id ∷ ids) m j = ground (
  arith,
  contains-reject_all ids (Maps.insert id missing_parent m) j,
  lookup-insert j id missing_parent m,
)

-- No identifier is in two places.
pub record IsExclusive (g : Progress) : Type 0 where
  pub pending_or_accepted : (j : EventId) → (contains j g.pending && contains j g.accepted) ≡ false
  pub pending_or_rejected :
      (j : EventId) → (contains j g.pending && contains_key j g.rejected) ≡ false
  pub accepted_or_rejected :
      (j : EventId) → (contains j g.accepted && contains_key j g.rejected) ≡ false

module _ (p : Primitives) (b : Book) where
  step-IsExclusive :
      (g after : Progress) (id : EventId)
      → IsReady b g.pending id
      → contains id g.pending ≡ true
      → Outcome p b g id after
      → IsExclusive g
      → IsExclusive after
  step-IsExclusive g after id rd c (refused event reason e same) x = rw same (record {
    pending_or_accepted =
        λ j. ground (arith, contains-remove j id g.pending, x.pending_or_accepted j);
    pending_or_rejected = λ j. ground (
      arith,
      contains-remove j id g.pending,
      lookup-insert j id reason g.rejected,
      x.pending_or_rejected j,
    );
    accepted_or_rejected = λ j. ground (
      arith,
      lookup-insert j id reason g.rejected,
      x.accepted_or_rejected j,
      x.pending_or_accepted j,
    );
  })
  step-IsExclusive g after id rd c (admitted event payload author e f w m r v same) x =
      rw same (record {
        pending_or_accepted = λ j. ground (
          arith,
          contains-remove j id g.pending,
          contains-insert j id g.accepted,
          x.pending_or_accepted j,
        );
        pending_or_rejected =
            λ j. ground (arith, contains-remove j id g.pending, x.pending_or_rejected j);
        accepted_or_rejected = λ j. ground (
          arith,
          contains-insert j id g.accepted,
          x.accepted_or_rejected j,
          x.pending_or_rejected j,
        );
      })

  start-IsExclusive :
      ((j : EventId) → (contains_key j b.payloads && contains_key j b.refused) ≡ false)
      → IsExclusive (start b)
  unfolding contains
  start-IsExclusive x = record {
    pending_or_accepted = λ j. ground arith;
    pending_or_rejected = λ j.
        ground
          (arith, contains-extend j (Maps.keys b.payloads) [], contains-keys j b.payloads, x j);
    accepted_or_rejected = λ j. ground arith;
  }

module _ (chat_codec : Codec ChatPayload) (p : Primitives) where
  -- Where identifiers determine events, each event of the input is either accepted or rejected and
  -- never both, and the acceptance order lists exactly the accepted identifiers.
  pub resolve_judges_all :
      (events : List SignedEvent) (r : ChatResolution)
      → IsCoherent events
      → resolve p chat_codec events ≡ some (ok r)
      → ((e : SignedEvent)
          → In e events
          → contains e.event_id r.snapshot.event_ids ≡ not (contains_key e.event_id r.rejected))
        × ((j : EventId) → contains j r.accepted_in_order ≡ contains j r.snapshot.event_ids)
  unfolding finish
  resolve_judges_all events r coherent h =
      let (b, g, i, done, same) = resolve_inversion chat_codec p events r h in
      let a = rounds-IsAccounted p b _ g (book-IsFiled chat_codec p b events i) done in
      let x =
        resolved-keeps p b IsExclusive (step-IsExclusive p b) _ g done
          (start-IsExclusive p b (book_exclusive chat_codec p events b coherent i)) in
      rw same (
        λ e n. ground (
          arith,
          contains-reject_all g.pending g.rejected e.event_id,
          a.judged e.event_id (index-knows chat_codec p blank b events e i n),
          x.pending_or_accepted e.event_id,
          x.pending_or_rejected e.event_id,
          x.accepted_or_rejected e.event_id,
        ),
        a.listed,
      )
