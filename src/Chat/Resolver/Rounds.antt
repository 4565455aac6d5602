-- ===== src/Chat/Resolver/Rounds.antt =====
-- The rule for what every step of the loop of `resolve` in crates/profile-chat/src/lib.rs keeps.
use chatcommons.Prelude.{
  length, ◌∙◌, subst, ℕ, zero, suc, ◌≡◌, refl, true, Option, none, some, List, [], ◌∷◌, is_empty,
  ok, err, arith, Bool-cases, inl, inr, Result,
}
use chatcommons.Prelude.Options.{>>=-eq-some, some_inj}
use chatcommons.Prelude.Sets.{contains, IsAscending, IsAscending-remove, IsAscending-collect}
use chatcommons.Crypto.{Primitives}
use chatcommons.Protocol.{EventId, SignedEvent, Codec}
use chatcommons.Chat.{ChatPayload, ChatError, ChatResolution}
use chatcommons.Chat.Book.{Book, blank, index}
use chatcommons.Chat.Resolver.{
  Progress, process, batch, round, rounds, ready, keyed, sort_keys, ids_of, start, resolve,
  resolve_book, resolve_indexed, finish,
}
use chatcommons.Chat.Resolver.Step.{Outcome, process-Outcome, pending-Outcome}
use chatcommons.Chat.Resolver.Picks.{IsReady, Fits, Fits-remove, sorted-Fits}

module _ {ℓ} (p : Primitives) (b : Book) (P : Progress → Type ℓ)
    (step : (g after : Progress) (id : EventId)
      → IsReady b g.pending id
      → contains id g.pending ≡ true
      → Outcome p b g id after
      → P g
      → P after) where
  batch-keeps :
      (ids : List EventId) (g after : Progress)
      → Fits b g.pending ids
      → batch p b g ids ≡ some after
      → P g
      → P after
  unfolding batch
  batch-keeps [] g after fits h q = subst P (some_inj g after h) q
  batch-keeps (id ∷ ids) g after fits h q =
      let (next, done, h') = >>=-eq-some (process p b g id) (λ next. batch p b next ids) h in
      let outcome = process-Outcome p b g next id done in
      batch-keeps ids next after
        (rw (pending-Outcome p b outcome)
          (Fits-remove b id g.pending ids fits.1.0 (fits.0.1, fits.1.1)))
        h' (step g next id fits.0.0.0 fits.0.0.1 outcome q)

module _ {ℓ} (p : Primitives) (b : Book) (P : Progress → Type ℓ)
    (step : (g after : Progress) (id : EventId)
      → IsReady b g.pending id
      → contains id g.pending ≡ true
      → Outcome p b g id after
      → P g
      → P after) where
  IsAscending-step :
      (g after : Progress) (id : EventId)
      → IsReady b g.pending id
      → contains id g.pending ≡ true
      → Outcome p b g id after
      → IsAscending g.pending × P g
      → IsAscending after.pending × P after
  IsAscending-step g after id rd c o (a, q) =
      (rw (pending-Outcome p b o) (IsAscending-remove id g.pending a), step g after id rd c o q)

  round-keeps :
      (g after : Progress)
      → round p b g ≡ some (some after)
      → IsAscending g.pending × P g
      → IsAscending after.pending × P after
  unfolding round
  round-keeps g after h q =
      let (ids, r, h1) = >>=-eq-some (ready b g.pending g.pending) _ h in
      let (ks, k, h2) = >>=-eq-some (keyed b ids) _ h1 in
      elim (Bool-cases (is_empty ids)) [
        | inl e ↦ cc (rw e at h2)
        | inr e ↦
            let (next, d, h3) = >>=-eq-some (batch p b g (ids_of (sort_keys ks))) _ (rw e at h2) in
            batch-keeps p b (λ g'. IsAscending g'.pending × P g') IsAscending-step _ g after
              (sorted-Fits b g.pending ids ks r k q.0) (d ∙ ground arith) q
      ]

  rounds-keeps :
      (fuel : ℕ) (g after : Progress)
      → rounds p fuel b g ≡ some after
      → IsAscending g.pending × P g
      → P after
  unfolding rounds
  rounds-keeps zero g after h q = cc
  rounds-keeps (suc fuel) g after h q =
      let (outcome, r, h') = >>=-eq-some (round p b g) _ h in
      continue outcome r h' (λ next. rounds-keeps fuel next after)
    where
      continue :
          (outcome : Option Progress)
          → round p b g ≡ some outcome
          → elim outcome [ none ↦ some g | some next ↦ rounds p fuel b next ] ≡ some after
          → ((next : Progress)
              → rounds p fuel b next ≡ some after
              → IsAscending next.pending × P next
              → P after)
          → P after
      continue none r h' again = subst P (some_inj g after h') q.1
      continue (some next) r h' again = again next h' (round-keeps g next r q)

  -- What every step keeps and the start has, the end has.
  pub resolved-keeps :
      (fuel : ℕ) (after : Progress) → rounds p fuel b (start b) ≡ some after → P (start b) → P after
  resolved-keeps fuel after h q = rounds-keeps fuel (start b) after h (IsAscending-collect _, q)

module _ (chat_codec : Codec ChatPayload) (p : Primitives) where
  -- A resolution comes from a book and from rounds that came to an end.
  pub resolve_inversion :
      (events : List SignedEvent) (r : ChatResolution)
      → resolve p chat_codec events ≡ some (ok r)
      → (b : Book) × (g : Progress) × (index chat_codec p blank events ≡ ok b)
        × (rounds p (suc (length (start b).pending)) b (start b) ≡ some g)
        × (r ≡ finish p g)
  unfolding resolve resolve_book
  resolve_inversion events r h = go (index chat_codec p blank events) refl h
    where
      go :
          (indexed : Result ChatError Book)
          → index chat_codec p blank events ≡ indexed
          → resolve_indexed p indexed ≡ some (ok r)
          → (b : Book) × (g : Progress) × (index chat_codec p blank events ≡ ok b)
            × (rounds p (suc (length (start b).pending)) b (start b) ≡ some g)
            × (r ≡ finish p g)
      go (err e) i h' = cc
      go (ok b) i h' =
          let (resolution, q, h1) = >>=-eq-some (resolve_book p b) _ h' in
          let (g, done, h2) =
            >>=-eq-some (rounds p (suc (length (start b).pending)) b (start b)) _ q in
          (b, g, i, done, ground arith)
