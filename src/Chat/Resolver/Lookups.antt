-- ===== src/Chat/Resolver/Lookups.antt =====
-- The steps of `resolve` in crates/profile-chat/src/lib.rs find what they look up.
use chatcommons.Prelude.{
  ◌≡◌, refl, true, not, some, List, [], ◌∷◌, All, any, inl, inr, Bool-cases, if◌then◌else◌,
}
use chatcommons.Prelude.Sets.{Set}
use chatcommons.Prelude.Maps.{lookup-some, contains_key}
use chatcommons.Crypto.{Primitives}
use chatcommons.Protocol.{SignedEvent, EventId}
use chatcommons.Chat.Book.{Book}
use chatcommons.Chat.Book.Filing.{IsFiled}
use chatcommons.Chat.Resolver.{
  Progress, Key, ready, keyed, settle, process, batch, no_pending_parent, priority,
}
use chatcommons.Chat.Resolver.Step.{leave}

abbrev pub IsKnown : Book → List EventId → Type 0
IsKnown b ids = All (λ id. contains_key id b.payloads ≡ true) ids

module _ (p : Primitives) (b : Book) (f : IsFiled b) where
  settle_total :
      (g : Progress) (id : EventId) (event : SignedEvent)
      → contains_key id b.payloads ≡ true
      → (after : Progress) × (settle p b g id event ≡ some after)
  unfolding settle
  settle_total g id event k =
      let (payload, e) = lookup-some id b.payloads k in
      let (author, e') = lookup-some id b.authors (f.signed id k) in
      elim (Bool-cases (any (λ parent. not (contains_key parent b.by_id)) event.parents)) [
        | inl m ↦ rw m (_, refl)
        | inr m ↦ elim (Bool-cases (any (λ parent. contains_key parent g.rejected) event.parents)) [
          | inl r ↦ rw (m, r) (_, refl)
          | inr r ↦ rw (m, r, e, e') (_, refl)
        ]
      ]

  process_total :
      (g : Progress) (id : EventId)
      → contains_key id b.payloads ≡ true
      → (after : Progress) × (process p b g id ≡ some after)
  unfolding process
  process_total g id k =
      let (event, e) = lookup-some id b.by_id (f.indexed id k) in
      rw e (settle_total (leave g id) id event k)

  pub batch_total :
      (g : Progress) (ids : List EventId)
      → IsKnown b ids
      → (after : Progress) × (batch p b g ids ≡ some after)
  unfolding batch
  batch_total g [] k = (g, refl)
  batch_total g (id ∷ ids) k =
      let (next, e) = process_total g id k.0 in rw e (batch_total next ids k.1)

  pub ready_total :
      (pending : Set) (ids : List EventId)
      → IsKnown b ids
      → (out : List EventId) × (ready b pending ids ≡ some out)
  unfolding ready
  ready_total pending [] k = ([], refl)
  ready_total pending (id ∷ ids) k =
      let (event, e) = lookup-some id b.by_id (f.indexed id k.0) in
      let (rest, r) = ready_total pending ids k.1 in
      (if no_pending_parent pending event then id ∷ rest else rest, rw (e, r))

  pub keyed_total :
      (ids : List EventId) → IsKnown b ids → (out : List Key) × (keyed b ids ≡ some out)
  unfolding keyed
  keyed_total [] k = ([], refl)
  keyed_total (id ∷ ids) k =
      let (payload, e) = lookup-some id b.payloads k.0 in
      let (rest, r) = keyed_total ids k.1 in ((priority payload, id) ∷ rest, rw (e, r))
  -- Once an identifier has gone, fewer are pending.
