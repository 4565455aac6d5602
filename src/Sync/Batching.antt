-- ===== src/Sync/Batching.antt =====
-- How crates/sync/src/lib.rs cuts long answers into messages.
use chatcommons.Prelude.{
  ◌==◌, ◌≡◌, ◌⊎◌, inl, inr, refl, true, false, ◌||◌, List, [], ◌∷◌, ◌++◌, length, is_empty, All,
  arith, ap, ◌∙◌, append_assoc, Result, ok, err, ◌>>◌, Bool-cases,
}
use chatcommons.Crypto.{Primitives}
use chatcommons.Protocol.{EventId, CommunityId, SignedEvent, Codec}
use chatcommons.Sync.{
  SyncMessage, SyncError, want, events, max_events_per_message, is_too_large, flush,
  validate_message, pack, pack_events,
}

-- The identifiers and the events that messages carry, in order.
abbrev pub wanted : List SyncMessage → List EventId
wanted [] = []
wanted (want community ids ∷ messages) = ids ++ wanted messages
wanted (_ ∷ messages) = wanted messages

abbrev pub carried : List SyncMessage → List SignedEvent
carried [] = []
carried (events community batch ∷ messages) = batch ++ carried messages
carried (_ ∷ messages) = carried messages

>>-eq-ok :
    {A : Type 0} (checked : Result SyncError (Unit {0})) (rest : Result SyncError A) {result : A}
    → (checked >> rest) ≡ ok result
    → (checked ≡ ok tt) × (rest ≡ ok result)
>>-eq-ok (err x) rest h = cc
>>-eq-ok (ok _) rest h = (refl, h)

flush_ok :
    {community : CommunityId} (batch : List SignedEvent)
    (candidate alone : Result SyncError (Unit {0})) (later : Result SyncError (List SyncMessage))
    (messages : List SyncMessage)
    → flush community batch candidate alone later ≡ ok messages
    → (rest : List SyncMessage) × (alone ≡ ok tt)
      × (later ≡ ok rest)
      × (messages ≡ events community batch ∷ rest)
      × ((is_empty batch ≡ false) ⊎ (candidate ≡ ok tt))
flush_ok [] (err x) alone later messages h = cc
flush_ok [] (ok _) (err x) later messages h = cc
flush_ok [] (ok _) (ok _) (err x) messages h = cc
flush_ok [] (ok _) (ok _) (ok rest) messages h = (rest, refl, refl, cc, inr refl)
flush_ok (d ∷ batch) candidate (err x) later messages h = cc
flush_ok (d ∷ batch) candidate (ok _) (err x) messages h = cc
flush_ok (d ∷ batch) candidate (ok _) (ok rest) messages h = (rest, refl, refl, cc, inl refl)

module _ (p : Primitives) (message_codec : Codec SyncMessage) (community : CommunityId) where
  -- Nothing yet, or a message that may be sent.
  abbrev Sendable : List SignedEvent → Type 0
  Sendable batch =
      (batch ≡ []) ⊎ (validate_message p message_codec (events community batch) ≡ ok tt)

  ok-eq :
      {messages others : List SyncMessage}
      → ◌≡◌ {A = Result SyncError (List SyncMessage)} (ok others) (ok messages)
      → messages ≡ others
  ok-eq e = cc

  Sends : List SignedEvent → List SyncMessage → Type 0
  Sends given messages =
      All (λ m. validate_message p message_codec m ≡ ok tt) messages × (carried messages ≡ given)

  -- A batch that is closed is not empty.
  sendable :
      {batch : List SignedEvent} {candidate : Result SyncError (Unit {0})}
      → Sendable batch
      → (length batch == max_events_per_message || is_too_large candidate) ≡ true
      → (is_empty batch ≡ false) ⊎ (candidate ≡ ok tt)
      → validate_message p message_codec (events community batch) ≡ ok tt
  sendable (inr v) t reason = v
  sendable (inl none_yet) t (inl some_yet) = absurd (ground (arith, ap is_empty none_yet))
  sendable (inl none_yet) t (inr accepted) = absurd (ground (arith, ap length none_yet))

  pack-Sends :
      (batch given : List SignedEvent) (messages : List SyncMessage)
      → Sendable batch
      → pack p message_codec community batch given ≡ ok messages
      → Sends (batch ++ given) messages
  unfolding pack Sends
  pack-Sends [] [] messages s h = only (ok-eq h)
    where
      only :
          messages ≡ []
          → All (λ m. validate_message p message_codec m ≡ ok tt) messages × (carried messages ≡ [])
      only e = rw e (tt, refl)
  pack-Sends (d ∷ batch) [] messages (inl e) h = absurd (cc)
  pack-Sends (d ∷ batch) [] messages (inr v) h = only (ok-eq h)
    where
      only :
          messages ≡ events community (d ∷ batch) ∷ []
          → All (λ m. validate_message p message_codec m ≡ ok tt) messages
            × (carried messages ≡ d ∷ (batch ++ []))
      only e = rw e ((v, tt), refl)
  pack-Sends batch (e ∷ given) messages s h =
      let candidate = validate_message p message_codec (events community (batch ++ e ∷ [])) in
      elim (Bool-cases (length batch == max_events_per_message || is_too_large candidate)) [
        | inl t ↦ flushed s t (λ later. pack-Sends (e ∷ []) given later) (rw (pack, t) at h)
        | inr t ↦
            grown (λ v. pack-Sends (batch ++ e ∷ []) given messages (inr v)) (rw (pack, t) at h)
      ]
    where
      Alone : Type 0
      Alone = validate_message p message_codec (events community (e ∷ [])) ≡ ok tt

      flushed :
          Sendable batch
          → (length batch == max_events_per_message
              || is_too_large
                  (validate_message p message_codec (events community (batch ++ e ∷ []))))
            ≡ true
          → ((later : List SyncMessage)
              → Sendable (e ∷ [])
              → pack p message_codec community (e ∷ []) given ≡ ok later
              → Sends (e ∷ given) later)
          → flush community batch
              (validate_message p message_codec (events community (batch ++ e ∷ [])))
              (validate_message p message_codec (events community (e ∷ [])))
              (pack p message_codec community (e ∷ []) given)
            ≡ ok messages
          → Sends (batch ++ e ∷ given) messages
      flushed s t ih h =
          let (rest, alone, later, same, reason) = flush_ok batch _ _ _ messages h in
          let (valid, all) = ih rest (inr alone) later in
          rw same ((sendable s t reason, valid), ap (λ xs. batch ++ xs) all)

      grown :
          ((v : validate_message p message_codec (events community (batch ++ e ∷ [])) ≡ ok tt)
            → pack p message_codec community (batch ++ e ∷ []) given ≡ ok messages
            → Sends ((batch ++ e ∷ []) ++ given) messages)
          → (validate_message p message_codec (events community (batch ++ e ∷ []))
              >> pack p message_codec community (batch ++ e ∷ []) given)
            ≡ ok messages
          → Sends (batch ++ e ∷ given) messages
      grown ih h =
          let (v, later) =
            >>-eq-ok (validate_message p message_codec (events community (batch ++ e ∷ []))) _ h in
          let (valid, all) = ih v later in (valid, all ∙ append_assoc batch (e ∷ []) given)

  -- If `pack_events` returns messages, each of them passes `validate_message`, and together they carry
  -- the given events, all and in order.
  pub pack_events_carries :
      (given : List SignedEvent) (messages : List SyncMessage)
      → pack_events p message_codec community given ≡ ok messages
      → All (λ m. validate_message p message_codec m ≡ ok tt) messages × (carried messages ≡ given)
  unfolding pack_events Sends
  pack_events_carries given messages h = pack-Sends [] given messages (inl refl) h
