-- ===== src/Chat/Resolver/Totality.antt =====
-- `resolve` of crates/profile-chat/src/lib.rs never panics and its loop ends.
use chatcommons.Prelude.{
  ℕ, zero, suc, ◌≤◌, ◌<◌, ◌≡◌, refl, subst, true, false, Option, none, some, List, [], ◌∷◌, All,
  All-map, length, is_empty, inl, inr, Bool-cases, Result, ok, err, arith, ◌∙◌, ap,
}
use chatcommons.Prelude.Options.{>>=-eq-some, some_inj}
use chatcommons.Prelude.Sets.{
  contains, Distinct-of_IsAscending, All-contains_self, IsAscending-remove, contains-remove,
  contains-extend, length-remove-le, length-remove-lt, IsAscending, IsAscending-collect,
}
use chatcommons.Prelude.Maps
use chatcommons.Prelude.Maps.{lookup, lookup-some, contains_key, contains-keys}
use chatcommons.Crypto.{Primitives, from_public_key}
use chatcommons.Protocol.{SignedEvent, EventId, Codec, validate_event, author_id}
use chatcommons.Protocol.Validation.{validate_event_iff}
use chatcommons.Chat.{ChatPayload, ChatError, ChatResolution, decode}
use chatcommons.Chat.Book.{Book, blank, enter, index}
use chatcommons.Chat.Book.Filing.{IsFiled, book-IsFiled}
use chatcommons.Chat.Resolver.{
  Progress, Key, finish, start, ids_of, sort_keys, process, batch, round, rounds, resolve,
  resolve_book, resolve_indexed,
}
use chatcommons.Chat.Resolver.Step.{process-Outcome, pending-Outcome}
use chatcommons.Chat.Resolver.Picks.{
  Fits, ready-Fits, sorted-Fits, ids_of-keyed, is_empty-sort_keys,
}
use chatcommons.Chat.Resolver.Lookups.{IsKnown, batch_total, ready_total, keyed_total}

module _ (p : Primitives) (b : Book) (f : IsFiled b) where
  length-batch-le :
      (g after : Progress) (ids : List EventId)
      → batch p b g ids ≡ some after
      → length after.pending ≤ length g.pending
  unfolding batch
  length-batch-le g after [] h = rw (some_inj g after h) (omega arith)
  length-batch-le g after (id ∷ ids) h =
      let (next, e, h') = >>=-eq-some (process p b g id) (λ next. batch p b next ids) h in
      let gone = ap length (pending-Outcome p b (process-Outcome p b g next id e)) in
      omega (arith, length-batch-le next after ids h', length-remove-le id g.pending, gone)

  length-batch-lt :
      (g after : Progress) (id : EventId) (ids : List EventId)
      → contains id g.pending ≡ true
      → batch p b g (id ∷ ids) ≡ some after
      → length after.pending < length g.pending
  unfolding batch
  length-batch-lt g after id ids c h =
      let (next, e, h') = >>=-eq-some (process p b g id) (λ next. batch p b next ids) h in
      let gone = ap length (pending-Outcome p b (process-Outcome p b g next id e)) in
      omega (arith, length-batch-le next after ids h', length-remove-lt id g.pending c, gone)

  -- What the loop keeps: every pending identifier can be looked up.
  abbrev IsRunnable : Progress → Type 0
  IsRunnable g =
      IsAscending g.pending
      × ((j : EventId) → contains j g.pending ≡ true → contains_key j b.payloads ≡ true)

  batch-IsRunnable :
      (g after : Progress) (ids : List EventId)
      → batch p b g ids ≡ some after
      → IsRunnable g
      → IsRunnable after
  unfolding batch
  batch-IsRunnable g after [] h q = subst IsRunnable (some_inj g after h) q
  batch-IsRunnable g after (id ∷ ids) h q =
      let (next, e, h') = >>=-eq-some (process p b g id) (λ next. batch p b next ids) h in
      let gone = pending-Outcome p b (process-Outcome p b g next id e) in
      batch-IsRunnable next after ids h' (
        rw gone (IsAscending-remove id g.pending q.0),
        λ j c. q.1 j (ground (arith, contains-remove j id g.pending, gone)),
      )

  -- A round ends the loop or leaves fewer pending.
  abbrev Continues : Progress → Option Progress → Type 0
  Continues g none = Unit
  Continues g (some next) = (length next.pending < length g.pending) × IsRunnable next

  batch-Continues :
      (g : Progress) (ks : List Key)
      → IsRunnable g
      → Fits b g.pending (ids_of ks)
      → is_empty (ids_of ks) ≡ false
      → IsKnown b (ids_of ks)
      → (next : Progress) × (batch p b g (ids_of ks) ≡ some next) × Continues g (some next)
  batch-Continues g [] q fits ne k = cc
  batch-Continues g (key ∷ ks) q fits ne k =
      let (next, e) = batch_total p b f g (ids_of (key ∷ ks)) k in
      (
        next,
        e,
        (length-batch-lt g next key.1 (ids_of ks) fits.0.0.1 e, batch-IsRunnable g next _ e q),
      )

  round_total :
      (g : Progress)
      → IsRunnable g
      → (outcome : Option Progress) × (round p b g ≡ some outcome) × Continues g outcome
  unfolding round
  round_total g q =
      let known = All-map _ _ g.pending q.1 (All-contains_self g.pending) in
      let (ids, r) = ready_total p b f g.pending g.pending known in
      let fits =
        ready-Fits b g.pending g.pending ids r (All-contains_self g.pending)
          (Distinct-of_IsAscending g.pending q.0) in
      let (ks, k) = keyed_total p b f ids (All-map _ _ ids (λ id c. q.1 id c.1) fits.0) in
      let same = ids_of-keyed b ids ks k in
      let sorted = sorted-Fits b g.pending ids ks r k q.0 in
      elim (Bool-cases (is_empty ids)) [
        | inl e ↦ (none, rw (r, k, e), tt)
        | inr e ↦
            let (next, d, c) =
              batch-Continues g (sort_keys ks) q sorted
                (is_empty-sort_keys ks ∙ ap is_empty same ∙ e)
                (All-map _ _ (ids_of (sort_keys ks)) (λ id c. q.1 id c.1) sorted.0) in
            (some next, rw (r, k, e, d), c)
      ]

  rounds_total :
      (fuel : ℕ) (g : Progress)
      → length g.pending < fuel
      → IsRunnable g
      → (after : Progress) × (rounds p fuel b g ≡ some after)
  unfolding rounds
  rounds_total zero g l q = absurd (omega arith)
  rounds_total (suc fuel) g l q =
      let (outcome, r, c) = round_total g q in rw r (go outcome c (rounds_total fuel))
    where
      go :
          (outcome : Option Progress)
          → Continues g outcome
          → ((next : Progress)
              → length next.pending < fuel
              → IsRunnable next
              → (after : Progress) × (rounds p fuel b next ≡ some after))
          → (after : Progress) × (elim outcome [ none ↦ some g | some next ↦ rounds p fuel b next ]
              ≡ some after)
      go none c again = (g, refl)
      go (some next) c again = again next (omega (arith, c.0)) c.1

  start-IsRunnable : IsRunnable (start b)
  unfolding contains
  start-IsRunnable = (
    IsAscending-collect (Maps.keys b.payloads),
    λ j c. ground (arith, contains-extend j (Maps.keys b.payloads) [], contains-keys j b.payloads),
  )

  resolve_book_total : (r : ChatResolution) × (resolve_book p b ≡ some r)
  unfolding resolve_book
  resolve_book_total =
      let (after, e) =
        rounds_total (suc (length (start b).pending)) (start b) (omega arith) start-IsRunnable in
      (finish p after, rw e refl)

module _ (chat_codec : Codec ChatPayload) (p : Primitives) where
  pub author_of_valid :
      (e : SignedEvent)
      → validate_event p e ≡ ok tt
      → author_id p e ≡ ok (from_public_key p e.public_key)
  unfolding author_id
  author_of_valid e v = ground (arith, ((validate_event_iff p e).0 v).authentic.key_fits)

  index_total :
      (b : Book) (events : List SignedEvent)
      → All (λ e. validate_event p e ≡ ok tt) events
      → (c : Book) × (index chat_codec p b events ≡ ok c)
  unfolding index
  index_total b [] v = (b, refl)
  index_total b (e ∷ rest) v =
      rw (v.0, author_of_valid e v.0)
        (index_total (enter b e (from_public_key p e.public_key) (decode chat_codec e)) rest v.1)

  -- On events that all pass `validate_event` the resolver returns a resolution: it does not panic,
  -- its loop ends, and it reports no error.
  pub resolve_total :
      (events : List SignedEvent)
      → All (λ e. validate_event p e ≡ ok tt) events
      → (r : ChatResolution) × (resolve p chat_codec events ≡ some (ok r))
  unfolding resolve
  resolve_total events v =
      let (c, i) = index_total blank events v in
      let (r, e) = resolve_book_total p c (book-IsFiled chat_codec p c events i) in (r, rw (i, e))

  -- On any events the resolver returns: it neither panics nor loops for ever.
  pub resolve_returns :
      (events : List SignedEvent)
      → (out : Result ChatError ChatResolution) × (resolve p chat_codec events ≡ some out)
  unfolding resolve
  resolve_returns events = go (index chat_codec p blank events) refl
    where
      go :
          (indexed : Result ChatError Book)
          → index chat_codec p blank events ≡ indexed
          → (out : Result ChatError ChatResolution) × (resolve_indexed p indexed ≡ some out)
      go (err e) i = (err e, refl)
      go (ok c) i =
          let (r, e) = resolve_book_total p c (book-IsFiled chat_codec p c events i) in (ok r, rw e)
