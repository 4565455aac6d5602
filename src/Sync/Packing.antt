-- ===== src/Sync/Packing.antt =====
-- `pack_events` of crates/sync/src/lib.rs succeeds where every event can be sent alone.
use chatcommons.Prelude.{
  ◌==◌, ◌≤◌, ◌<◌, ◌≡◌, inl, inr, refl, true, false, ◌||◌, some, List, [], ◌∷◌, ◌++◌, length, All,
  arith, sym, subst, append_assoc, length-append, ok, Bool-cases, ltb,
}
use chatcommons.Prelude.Bytes.{Bytes}
use chatcommons.Crypto.{Primitives}
use chatcommons.Protocol.{CommunityId, SignedEvent, Codec, validate_event}
use chatcommons.Archive.{in_order}
use chatcommons.Archive.Validation.{in_order_iff}
use chatcommons.Sync.{
  SyncMessage, events, max_events_per_message, max_sync_json_bytes, is_too_large, flush,
  validate_message, pack, pack_events,
}
use chatcommons.Sync.Limits.{validate_items_iff}

in_order_prefix : (xs ys : List SignedEvent) → in_order (xs ++ ys) ≡ true → in_order xs ≡ true
unfolding in_order
in_order_prefix [] ys h = refl
in_order_prefix (x ∷ []) ys h = refl
in_order_prefix (x ∷ y ∷ xs) ys h = ground (arith, in_order_prefix (y ∷ xs) ys)

in_order_suffix : (xs ys : List SignedEvent) → in_order (xs ++ ys) ≡ true → in_order ys ≡ true
unfolding in_order
in_order_suffix [] ys h = h
in_order_suffix (x ∷ []) [] h = refl
in_order_suffix (x ∷ []) (y ∷ ys) h = ground arith
in_order_suffix (x ∷ y ∷ xs) ys h = in_order_suffix (y ∷ xs) ys (ground arith)

All-append :
    (P : SignedEvent → Type 0) (xs ys : List SignedEvent) → All P xs → All P ys → All P (xs ++ ys)
All-append P [] ys a b = b
All-append P (x ∷ xs) ys a b = (a.0, All-append P xs ys a.1 b)

module _ (p : Primitives) (message_codec : Codec SyncMessage) (community : CommunityId)
    (writes : (m : SyncMessage) → (bytes : Bytes) × (message_codec.to_vec m ≡ some bytes)) where
  -- A batch within the limits is refused for its size alone.
  sent_or_large :
      (batch : List SignedEvent)
      → 0 < length batch
      → length batch ≤ max_events_per_message
      → in_order batch ≡ true
      → All (λ e. validate_event p e ≡ ok tt) batch
      → is_too_large (validate_message p message_codec (events community batch)) ≡ false
      → validate_message p message_codec (events community batch) ≡ ok tt
  unfolding validate_message
  sent_or_large batch n b o v t =
      let items =
        (validate_items_iff p (events community batch)).1 (n, b, (in_order_iff batch).0 o, v) in
      let (bytes, w) = writes (events community batch) in
      elim (Bool-cases (ltb max_sync_json_bytes (length bytes))) [
        | inl large ↦ absurd (ground arith)
        | inr small ↦ ground arith
      ]

  pack_succeeds :
      (batch given : List SignedEvent)
      → length batch ≤ max_events_per_message
      → in_order (batch ++ given) ≡ true
      → All (λ e. validate_event p e ≡ ok tt) batch
      → All (λ e. validate_event p e ≡ ok tt) given
      → All (λ e. validate_message p message_codec (events community (e ∷ [])) ≡ ok tt) given
      → (messages : List SyncMessage) × (pack p message_codec community batch given ≡ ok messages)
  unfolding pack
  pack_succeeds [] [] n o v w s = ([], refl)
  pack_succeeds (d ∷ batch) [] n o v w s = (events community (d ∷ batch) ∷ [], refl)
  pack_succeeds batch (e ∷ given) n o v w s =
      elim (Bool-cases (
        length batch == max_events_per_message
        || is_too_large (validate_message p message_codec (events community (batch ++ e ∷ []))))) [
          | inl t ↦
              let (later, h) =
                pack_succeeds (e ∷ []) given (omega arith) (in_order_suffix batch (e ∷ given) o)
                  (w.0, tt) w.1 s.1 in
              (events community batch ∷ later, rw (pack, t) (flushed batch t later h))
          | inr t ↦
              let longer = length-append batch (e ∷ []) in
              let short : length (batch ++ e ∷ []) ≤ max_events_per_message =
                ground (arith, longer) in
              let whole = sym (append_assoc batch (e ∷ []) given) in
              let o' = subst (λ xs. in_order xs ≡ true) whole o in
              let valid = All-append (λ e. validate_event p e ≡ ok tt) batch (e ∷ []) v (w.0, tt) in
              let sent =
                sent_or_large (batch ++ e ∷ []) (omega (arith, longer)) short
                  (in_order_prefix (batch ++ e ∷ []) given o') valid (ground arith) in
              let (messages, h) = pack_succeeds (batch ++ e ∷ []) given short o' valid w.1 s.1 in
              (messages, rw (pack, t, sent) h)
        ]
    where
      flushed :
          (b : List SignedEvent)
          → (length b == max_events_per_message
              || is_too_large (validate_message p message_codec (events community (b ++ e ∷ []))))
            ≡ true
          → (later : List SyncMessage) → pack p message_codec community (e ∷ []) given ≡ ok later
          → flush community b
              (validate_message p message_codec (events community (b ++ e ∷ [])))
              (validate_message p message_codec (events community (e ∷ [])))
              (pack p message_codec community (e ∷ []) given)
            ≡ ok (events community b ∷ later)
      flushed [] t later h = absurd (ground (arith, s.0))
      flushed (d ∷ b) t later h = rw (s.0, h) refl

  -- If JSON writes every message, then `pack_events` succeeds on valid events in strictly ascending
  -- order each of which passes alone.
  pub pack_events_succeeds :
      (given : List SignedEvent)
      → in_order given ≡ true
      → All (λ e. validate_event p e ≡ ok tt) given
      → All (λ e. validate_message p message_codec (events community (e ∷ [])) ≡ ok tt) given
      → (messages : List SyncMessage) × (pack_events p message_codec community given ≡ ok messages)
  unfolding pack_events
  pack_events_succeeds given o v s = pack_succeeds [] given (omega arith) o tt v s
