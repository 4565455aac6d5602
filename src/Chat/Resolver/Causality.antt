-- ===== src/Chat/Resolver/Causality.antt =====
-- The acceptance order of `resolve` in crates/profile-chat/src/lib.rs puts causes first.
use chatcommons.Prelude.{
  ◌≡◌, refl, sym, subst, true, false, not, ◌||◌, some, List, [], ◌∷◌, ◌++◌, In, all, all_mono, any,
  ok, arith,
}
use chatcommons.Prelude.Sets.{contains}
use chatcommons.Prelude.Maps.{contains_key}
use chatcommons.Crypto.{Primitives}
use chatcommons.Protocol.{SignedEvent, EventId, Codec, validate_event}
use chatcommons.Chat.{ChatPayload, ChatResolution}
use chatcommons.Chat.Book.{Book}
use chatcommons.Chat.Book.Filing.{book-IsFiled}
use chatcommons.Chat.Book.Sources.{IsSourced, book-IsSourced}
use chatcommons.Chat.Resolver.{Progress, finish, resolve}
use chatcommons.Chat.Resolver.Step.{Outcome, refused, admitted}
use chatcommons.Chat.Resolver.Picks.{IsReady}
use chatcommons.Chat.Resolver.Rounds.{resolved-keeps, resolve_inversion}
use chatcommons.Chat.Resolver.Accounting.{IsAccounted, step-IsAccounted, start-IsAccounted}

-- Each identifier belongs to a valid event of the input all of whose parents stand before it.
abbrev pub IsCausal : Primitives → List SignedEvent → List EventId → List EventId → Type 0
IsCausal p events before [] = Unit
IsCausal p events before (id ∷ ids) =
    ((e : SignedEvent) × In e events
      × (e.event_id ≡ id)
      × (validate_event p e ≡ ok tt)
      × (all (λ parent. contains parent before) e.parents ≡ true))
    × IsCausal p events (id ∷ before) ids

IsCausal-snoc :
    (p : Primitives) (events : List SignedEvent) (e : SignedEvent) (id : EventId)
    (before ids : List EventId)
    → In e events
    → e.event_id ≡ id
    → validate_event p e ≡ ok tt
    → all (λ parent. contains parent ids || contains parent before) e.parents ≡ true
    → IsCausal p events before ids
    → IsCausal p events before (ids ++ id ∷ [])
unfolding contains
IsCausal-snoc p events e id before [] i n v a c = ((e, i, n, v, a), tt)
IsCausal-snoc p events e id before (x ∷ ids) i n v a c = (
  c.0,
  IsCausal-snoc p events e id (x ∷ before) ids i n v
      (all_mono (λ parent. contains parent (x ∷ ids) || contains parent before) _ e.parents
        (λ y h. ground arith) a)
      c.1,
)

parents_accepted :
    (b : Book) (g : Progress) (parents : List EventId)
    → IsAccounted b g
    → any (λ parent. not (contains_key parent b.by_id)) parents ≡ false
    → any (λ parent. contains_key parent g.rejected) parents ≡ false
    → all (λ parent. not (contains parent g.pending)) parents ≡ true
    → all (λ parent. contains parent g.accepted_in_order || false) parents ≡ true
parents_accepted b g [] a m w n = refl
parents_accepted b g (x ∷ xs) a m w n =
    ground (arith, a.judged x, a.listed x, parents_accepted b g xs a)

module _ (chat_codec : Codec ChatPayload) (p : Primitives) (events : List SignedEvent) where
  step-IsCausal :
      (b : Book)
      → IsSourced chat_codec p events b
      → (g after : Progress) (id : EventId) → IsReady b g.pending id
      → contains id g.pending ≡ true
      → Outcome p b g id after
      → IsAccounted b g × IsCausal p events [] g.accepted_in_order
      → IsAccounted b after × IsCausal p events [] after.accepted_in_order
  unfolding contains
  step-IsCausal b s g after id rd c (refused event reason e same) (a, q) = (
    step-IsAccounted p b g after id rd c (refused event reason e same) a,
    subst (λ g. IsCausal p events [] g.accepted_in_order) (sym same) q,
  )
  step-IsCausal b s g after id rd c (admitted event payload author e f w m r v same) (a, q) =
      let (d, i, n, (here, valid)) = s.events_from id event e in
      let new =
        IsCausal-snoc p events d id [] g.accepted_in_order i n valid
          (subst
            (λ d. all (λ parent. contains parent g.accepted_in_order || false) d.parents ≡ true)
            (sym here) (parents_accepted b g event.parents a m r (rd event e)))
          q in
      (
        step-IsAccounted p b g after id rd c (admitted event payload author e f w m r v same) a,
        subst (λ g. IsCausal p events [] g.accepted_in_order) (sym same) new,
      )

  -- Every accepted event is a valid event of the input, and all its parents are accepted before it.
  pub resolve-IsCausal :
      (r : ChatResolution)
      → resolve p chat_codec events ≡ some (ok r)
      → IsCausal p events [] r.accepted_in_order
  unfolding finish
  resolve-IsCausal r h =
      let (b, g, i, done, same) = resolve_inversion chat_codec p events r h in
      let s = book-IsSourced chat_codec p events b i in
      let q =
        resolved-keeps p b (λ g. IsAccounted b g × IsCausal p events [] g.accepted_in_order)
          (step-IsCausal b s) _ g done
          (start-IsAccounted p b (book-IsFiled chat_codec p b events i), tt) in
      subst (λ r. IsCausal p events [] r.accepted_in_order) (sym same) q.1
