-- ===== src/Sync/Peer/Missing.antt =====
-- What `SyncPeer` of crates/sync/src/lib.rs asks for once it has taken in a batch of events.
use chatcommons.Prelude.{
  ℕ, Bool, ◌==◌, ◌≡◌, ◌↔◌, ◌⊎◌, inl, inr, refl, true, not, subst, ◌&&◌, ◌||◌, some, none, Option,
  List, [], ◌∷◌, All, arith, sym, ap, ◌∙◌, ok, err, Result, Bool-cases, In, filter, is_empty,
}
use chatcommons.Prelude.Sets
use chatcommons.Prelude.Sets.{Set, contains, contains-extend, IsAscending, IsAscending-extend}
use chatcommons.Prelude.Maps
use chatcommons.Prelude.Maps.{Map, contains_key}
use chatcommons.Crypto.{Primitives}
use chatcommons.Protocol.{EventId, CommunityId, SignedEvent, Codec}
use chatcommons.Protocol.Validation.{strictly_sorted_iff}
use chatcommons.Storage.{Sqlite}
use chatcommons.Node.{CoreNode, NodeError, IngestReport, ingest}
use chatcommons.Sync.{SyncMessage, events, want_messages, validate_items}
use chatcommons.Sync.Batching.{wanted}
use chatcommons.Sync.Requests.{want_messages_cover}
use chatcommons.Sync.Peer.{
  SyncPeer, PeerError, is_unknown, missing_of, ingested, ingest_pending, can_ingest, check_accept,
  accept_checked, accept, new_ids_of, insert_new, check_message, dispatch, receive_checked, receive,
}

contains-filter :
    (id : ℕ) (f : ℕ → Bool) (xs : List ℕ) → contains id (filter f xs) ≡ (f id && contains id xs)
unfolding contains
contains-filter id f [] = ground arith
contains-filter id f (x ∷ xs) = elim (Bool-cases (id == x)) [
  | inl same ↦
      let e : id ≡ x = ground arith in
      elim (Bool-cases (f x)) [
        | inl t ↦ rw (filter, t) (ground (arith, t, ap f e, contains-filter id f xs))
        | inr n ↦ rw (filter, n) (ground (arith, n, ap f e, contains-filter id f xs))
      ]
  | inr other ↦ elim (Bool-cases (f x)) [
    | inl t ↦ rw (filter, t) (ground (arith, other, contains-filter id f xs))
    | inr n ↦ rw (filter, n) (ground (arith, other, contains-filter id f xs))
  ]
]

-- A parent of one of the events that is neither known nor pending.
abbrev pub IsMissing : Set → Map SignedEvent → List SignedEvent → EventId → Type 0
IsMissing known pending waiting id =
    (e : SignedEvent) × In e waiting
    × (contains id e.parents ≡ true)
    × (is_unknown known pending id ≡ true)

contains-missing_of :
    (id : EventId) (known : Set) (pending : Map SignedEvent) (waiting : List SignedEvent)
    (missing : Set)
    → (contains id (missing_of known pending waiting missing) ≡ true)
      ↔ ((contains id missing ≡ true) ⊎ IsMissing known pending waiting id)
unfolding missing_of
contains-missing_of id known pending [] missing =
    (λ h. inl h, λ h. elim h [ inl m ↦ m | inr (e, i, _, _) ↦ absurd i ])
contains-missing_of id known pending (e ∷ waiting) missing =
    let wider = Sets.extend (filter (is_unknown known pending) e.parents) missing in
    let now =
      contains-extend id (filter (is_unknown known pending) e.parents) missing
      ∙ ap (λ b. b || contains id missing)
          (contains-filter id (is_unknown known pending) e.parents) in
    let later = contains-missing_of id known pending waiting wider in
    (
      λ h. elim (later.0 h) [
        | inr (d, i, c, u) ↦ inr (d, inr i, c, u)
        | inl w ↦ elim (Bool-cases (contains id missing)) [
          | inl m ↦ inl m
          | inr m ↦ inr (e, inl refl, ground (arith, now, w, m), ground (arith, now, w, m))
        ]
      ],
      λ h. elim h [
        | inl m ↦ later.1 (inl (ground (arith, now, m)))
        | inr (d, i, c, u) ↦ elim i [
          | inl same ↦
              later.1 (inl (ground (arith, now, ap (λ x. contains id x.parents) same, c, u)))
          | inr i ↦ later.1 (inr (d, i, c, u))
        ]
      ],
    )

IsAscending-missing_of :
    (known : Set) (pending : Map SignedEvent) (waiting : List SignedEvent) (missing : Set)
    → IsAscending missing
    → IsAscending (missing_of known pending waiting missing)
unfolding missing_of
IsAscending-missing_of known pending [] missing a = a
IsAscending-missing_of known pending (e ∷ waiting) missing a =
    IsAscending-missing_of known pending waiting _
      (IsAscending-extend (filter (is_unknown known pending) e.parents) missing a)

module _ (q : Sqlite) (p : Primitives) (event_codec : Codec SignedEvent) where
  -- A reply to a batch is what the peer asks for then.
  abbrev AsksMissing : Result (PeerError q) (List SyncMessage) × SyncPeer q → Type 0
  AsksMissing (err e, after) = Unit
  AsksMissing (ok reply, after) =
      reply
      ≡ want_messages after.community
          (missing_of after.node.known after.pending (Maps.values after.pending) [])

  abbrev AllAsk : Option (Result (PeerError q) (List SyncMessage) × SyncPeer q) → Type 0
  AllAsk none = Unit
  AllAsk (some out) = AsksMissing out

  ingest_pending-AllAsk : (peer : SyncPeer q) → AllAsk (ingest_pending q p event_codec peer)
  unfolding ingest_pending
  ingest_pending-AllAsk peer =
      elim (Bool-cases (
        can_ingest q peer (Maps.values peer.pending)
        && not (is_empty (Maps.values peer.pending)))) [
          | inl t ↦
              rw (ingest_pending, t)
                (by_result (ingest q p event_codec peer.node (Maps.values peer.pending)))
          | inr f ↦ rw (ingest_pending, f) refl
        ]
    where
      by_result :
          (out : Option (Result (NodeError q) IngestReport × CoreNode q))
          → AllAsk (ingested q peer out)
      by_result none = tt
      by_result (some (err e, n)) = tt
      by_result (some (ok r, n)) = refl

  accept-AllAsk :
      (peer : SyncPeer q) (given : List SignedEvent) → AllAsk (accept q p event_codec peer given)
  unfolding accept
  accept-AllAsk peer given = by_check (check_accept q p event_codec peer given)
    where
      by_check :
          (checked : Result (PeerError q) (Unit {0}))
          → AllAsk (accept_checked q p event_codec peer given checked)
      by_check (err e) = tt
      by_check (ok _) =
          ingest_pending-AllAsk
            (record peer { pending = insert_new (new_ids_of q peer given) peer.pending given })

  module _ (message_codec : Codec SyncMessage) where
    receive-AllAsk :
        (peer : SyncPeer q) (community : CommunityId) (given : List SignedEvent)
        → AllAsk (receive q p event_codec message_codec peer (events community given))
    unfolding receive dispatch
    receive-AllAsk peer community given =
        by_check (check_message q p event_codec message_codec peer (events community given))
      where
        by_check :
            (checked : Result (PeerError q) (Unit {0}))
            → AllAsk (
                receive_checked q p event_codec message_codec peer (events community given) checked)
        by_check (err e) = tt
        by_check (ok _) = accept-AllAsk peer given

    -- If `receive` takes in a batch of events, then its reply asks for an identifier exactly if it is a
    -- parent of an event that is pending then, and neither known nor pending itself; and each message
    -- of the reply keeps the limits on messages.
    pub receive_asks :
        (peer after : SyncPeer q) (community : CommunityId) (given : List SignedEvent)
        (reply : List SyncMessage)
        → receive q p event_codec message_codec peer (events community given)
          ≡ some (ok reply, after)
        → ((id : EventId)
            → (contains id (wanted reply) ≡ true)
              ↔ IsMissing after.node.known after.pending (Maps.values after.pending) id)
          × All (λ m. validate_items p m ≡ ok tt) reply
    unfolding contains
    receive_asks peer after community given reply h =
        let asks : AsksMissing (ok reply, after) =
          subst AllAsk h (receive-AllAsk peer community given) in
        let missing = missing_of after.node.known after.pending (Maps.values after.pending) [] in
        let (all, valid) = want_messages_cover p after.community missing (
          (strictly_sorted_iff missing).1 (
            IsAscending-missing_of after.node.known after.pending (Maps.values after.pending) []
              tt)) in
        subst
          (λ r.
            ((id : EventId)
              → (contains id (wanted r) ≡ true)
                ↔ IsMissing after.node.known after.pending (Maps.values after.pending) id)
            × All (λ m. validate_items p m ≡ ok tt) r)
          (sym asks)
          (
            λ id.
                let same = ap (contains id) all in
                let exactly =
                  contains-missing_of id after.node.known after.pending (Maps.values after.pending)
                    [] in
                (λ w. not_nothing id (exactly.0 (sym same ∙ w)), λ m. same ∙ exactly.1 (inr m)),
            valid,
          )
      where
        not_nothing :
            (id : EventId)
            → (contains id [] ≡ true)
              ⊎ IsMissing after.node.known after.pending (Maps.values after.pending) id
            → IsMissing after.node.known after.pending (Maps.values after.pending) id
        not_nothing id (inl h) = absurd (cc)
        not_nothing id (inr m) = m
