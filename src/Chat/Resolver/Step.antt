-- ===== src/Chat/Resolver/Step.antt =====
-- The body of the loop of `resolve` in crates/profile-chat/src/lib.rs: what one identifier does to
-- the progress.
use chatcommons.Prelude.{
  ap, sym, subst, ◌≡◌, refl, false, not, some, any, ok, err, Bool-cases, inl, inr,
}
use chatcommons.Prelude.Options.{>>=-eq-some, some_inj}
use chatcommons.Prelude.Sets
use chatcommons.Prelude.Sets.{
  Set, contains, contains-remove, Distinct, IsAscending, IsAscending-remove, IsAscending-collect,
  Distinct-of_IsAscending, All-contains_self,
}
use chatcommons.Prelude.Maps
use chatcommons.Crypto.{Primitives, UserId}
use chatcommons.Protocol.{EventId, SignedEvent}
use chatcommons.Chat.{ChatPayload, RejectionReason}
use chatcommons.Chat.Rules.{Verdict, validate_context}
use chatcommons.Chat.Book.{Book}
use chatcommons.Chat.Resolver.{Progress, reject, judge, settle, process}

-- The progress with one identifier no longer pending.
abbrev pub leave : Progress → EventId → Progress
leave g id = record g { pending = Sets.remove id g.pending }

module _ (p : Primitives) (b : Book) where
  -- What `process` does with an identifier.
  pub data Outcome (g : Progress) (id : EventId) (after : Progress) : Type 0 where
    refused :
        (event : SignedEvent) (reason : RejectionReason)
        → Maps.lookup id b.by_id ≡ some event
        → after ≡ reject (leave g id) id reason
        → Outcome g id after
    admitted :
        (event : SignedEvent) (payload : ChatPayload) (author : UserId)
        → Maps.lookup id b.by_id ≡ some event
        → Maps.lookup id b.payloads ≡ some payload
        → Maps.lookup id b.authors ≡ some author
        → any (λ parent. not (Maps.contains_key parent b.by_id)) event.parents ≡ false
        → any (λ parent. Maps.contains_key parent g.rejected) event.parents ≡ false
        → validate_context p g.state event payload author g.accepted ≡ ok tt
        → after ≡ judge p (leave g id) event id payload author (ok tt)
        → Outcome g id after

  judge-Outcome :
      (g : Progress) (id : EventId) (event : SignedEvent) (payload : ChatPayload) (author : UserId)
      (verdict : Verdict)
      → Maps.lookup id b.by_id ≡ some event
      → Maps.lookup id b.payloads ≡ some payload
      → Maps.lookup id b.authors ≡ some author
      → any (λ parent. not (Maps.contains_key parent b.by_id)) event.parents ≡ false
      → any (λ parent. Maps.contains_key parent g.rejected) event.parents ≡ false
      → validate_context p g.state event payload author g.accepted ≡ verdict
      → Outcome g id (judge p (leave g id) event id payload author verdict)
  judge-Outcome g id event payload author (ok tt) e f a m r v =
      admitted event payload author e f a m r v refl
  judge-Outcome g id event payload author (err reason) e f a m r v = refused event reason e refl

  settle-Outcome :
      (g after : Progress) (id : EventId) (event : SignedEvent)
      → Maps.lookup id b.by_id ≡ some event
      → settle p b (leave g id) id event ≡ some after
      → Outcome g id after
  unfolding settle
  settle-Outcome g after id event e h =
      elim (Bool-cases (any (λ parent. not (Maps.contains_key parent b.by_id)) event.parents)) [
        | inl m ↦ refused event _ e (sym (some_inj _ after (rw m at h)))
        | inr m ↦
            elim (Bool-cases (any (λ parent. Maps.contains_key parent g.rejected) event.parents)) [
              | inl r ↦ refused event _ e (sym (some_inj _ after (rw (m, r) at h)))
              | inr r ↦
                  let (payload, f, h') =
                    >>=-eq-some (Maps.lookup id b.payloads) _ (rw (m, r) at h) in
                  let (author, a, h'') = >>=-eq-some (Maps.lookup id b.authors) _ h' in
                  subst (Outcome g id) (some_inj _ after h'')
                    (judge-Outcome g id event payload author _ e f a m r refl)
            ]
      ]

  pub process-Outcome :
      (g after : Progress) (id : EventId) → process p b g id ≡ some after → Outcome g id after
  unfolding process
  process-Outcome g after id h =
      let (event, e, h') = >>=-eq-some (Maps.lookup id b.by_id) _ h in
      settle-Outcome g after id event e h'

  pub pending-Outcome :
      {g after : Progress} {id : EventId}
      → Outcome g id after
      → after.pending ≡ Sets.remove id g.pending
  pending-Outcome (refused event reason e same) = ap (λ r. r.pending) same
  pending-Outcome (admitted event payload author e f a m r v same) = ap (λ r. r.pending) same
