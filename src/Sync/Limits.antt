-- ===== src/Sync/Limits.antt =====
-- The messages that `validate_message` of crates/sync/src/lib.rs accepts.
use chatcommons.Prelude.{
  ℕ, ◌≤◌, ◌<◌, ◌≡◌, ◌↔◌, refl, inl, inr, true, false, some, List, [], ◌∷◌, length, All, any, ◌==◌,
  ok, arith, Option-cases, ltb, ap, ◌∙◌, ◌>>=◌,
}
use chatcommons.Prelude.Sets.{IsAscending}
use chatcommons.Prelude.Bytes.{Bytes}
use chatcommons.Crypto.{Primitives}
use chatcommons.Protocol.{SignedEvent, Codec, RoundTrips, validate_event, protocol_version}
use chatcommons.Protocol.Validation.{strictly_sorted_iff}
use chatcommons.Archive.{event_ids}
use chatcommons.Archive.Validation.{in_order_iff}
use chatcommons.Sync.{
  SyncMessage, hello, heads, want, events, sync_version, max_versions, max_ids_per_message,
  max_events_per_message, max_sync_json_bytes, validate_ids, validate_events, validate_items,
  validate_message, parse_json, to_json, validate,
}

module _ (p : Primitives) where
  -- What a message of each kind may hold.
  abbrev pub IsAllowed : SyncMessage → Type 0
  IsAllowed (hello version versions community) =
      (version ≡ sync_version)
      × (0 < length versions)
      × (length versions ≤ max_versions)
      × (any (λ v. v == protocol_version) versions ≡ true)
  IsAllowed (heads community ids) = (length ids ≤ max_ids_per_message) × IsAscending ids
  IsAllowed (want community ids) = (length ids ≤ max_ids_per_message) × IsAscending ids
  IsAllowed (events community batch) =
      (0 < length batch)
      × (length batch ≤ max_events_per_message)
      × IsAscending (event_ids batch)
      × All (λ e. validate_event p e ≡ ok tt) batch

  validate_ids_iff :
      (ids : List ℕ)
      → (validate_ids ids ≡ ok tt) ↔ ((length ids ≤ max_ids_per_message) × IsAscending ids)
  unfolding validate_ids
  validate_ids_iff ids = (
    λ h. (ground arith, (strictly_sorted_iff ids).0 (ground arith)),
    λ (n, a). ground (arith, (strictly_sorted_iff ids).1 a),
  )

  validate_events_iff :
      (batch : List SignedEvent)
      → (validate_events p batch ≡ ok tt) ↔ All (λ e. validate_event p e ≡ ok tt) batch
  unfolding validate_events
  validate_events_iff [] = (λ h. tt, λ h. refl)
  validate_events_iff (e ∷ batch) = (
    λ h. (ground arith, (validate_events_iff batch).0 (ground arith)),
    λ h. ground (arith, h.0, (validate_events_iff batch).1 h.1),
  )

  pub validate_items_iff : (m : SyncMessage) → (validate_items p m ≡ ok tt) ↔ IsAllowed m
  unfolding validate_items
  validate_items_iff (hello version versions community) =
      (λ h. allowed versions h, λ (v, n, b, c). refused versions v n b c)
    where
      allowed :
          (vs : List ℕ)
          → validate_items p (hello version vs community) ≡ ok tt
          → IsAllowed (hello version vs community)
      allowed [] h = absurd (ground arith)
      allowed (x ∷ xs) h = (ground arith, omega arith, ground arith, ground arith)

      refused :
          (vs : List ℕ)
          → version ≡ sync_version
          → 0 < length vs
          → length vs ≤ max_versions
          → any (λ v. v == protocol_version) vs ≡ true
          → validate_items p (hello version vs community) ≡ ok tt
      refused [] v n b c = absurd (omega arith)
      refused (x ∷ xs) v n b c = ground (arith, v, b, c)
  validate_items_iff (heads community ids) = validate_ids_iff ids
  validate_items_iff (want community ids) = validate_ids_iff ids
  validate_items_iff (events community []) = (λ h. absurd (ground arith), λ h. absurd (omega arith))
  validate_items_iff (events community (e ∷ batch)) = (
    λ h. (
      omega arith,
      ground arith,
      (in_order_iff (e ∷ batch)).0 (ground arith),
      (validate_events_iff (e ∷ batch)).0 (ground arith),
    ),
    λ (n, b, a, v).
        ground (arith, b, (in_order_iff (e ∷ batch)).1 a, (validate_events_iff (e ∷ batch)).1 v),
  )

  -- A message is accepted exactly if it is a greeting of this version with one to eight protocol
  -- versions, version 2 among them, or at most 64 identifiers in strictly ascending order, or one to
  -- 64 valid events whose identifiers strictly ascend; and if its JSON exists and fits in 512 KiB.
  pub validate_message_iff :
      (message_codec : Codec SyncMessage) (m : SyncMessage)
      → (validate_message p message_codec m ≡ ok tt) ↔ (
          IsAllowed m
          × ((bytes : Bytes) × (message_codec.to_vec m ≡ some bytes)
              × (length bytes ≤ max_sync_json_bytes)))
  unfolding validate_message
  validate_message_iff message_codec m = (
    λ h. (
      (validate_items_iff m).0 (ground arith),
      elim (Option-cases (message_codec.to_vec m)) [
        | inl e ↦ absurd (ground arith)
        | inr (bytes, e) ↦ (bytes, e, ground arith)
      ],
    ),
    λ (a, (bytes, e, n)). ground (arith, (validate_items_iff m).1 a, e, n),
  )

  -- If JSON is read back as written, what `to_json` writes parses and validates to the same message.
  pub to_json_restores :
      (message_codec : Codec SyncMessage) (m : SyncMessage) (bytes : Bytes)
      → RoundTrips message_codec
      → to_json p message_codec m ≡ ok bytes
      → (parse_json p message_codec bytes >>= validate p message_codec) ≡ ok m
  unfolding to_json parse_json validate
  to_json_restores message_codec m bytes faithful h =
      let valid : validate_message p message_codec m ≡ ok tt = ground arith in
      elim (Option-cases (message_codec.to_vec m)) [
        | inl e ↦ absurd (ground arith)
        | inr (b, e) ↦
            let same : b ≡ bytes = ground arith in
            let fits : ltb max_sync_json_bytes (length bytes) ≡ false = ground arith in
            rw (fits, faithful m bytes (e ∙ ap some same), valid) refl
      ]
