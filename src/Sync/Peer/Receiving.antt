-- ===== src/Sync/Peer/Receiving.antt =====
-- What `SyncPeer::receive` in crates/sync/src/lib.rs does to the peer, with every result.
use chatcommons.Prelude.{
  ◌+◌, ◌≤◌, ◌≡◌, ◌⊎◌, inl, inr, refl, true, false, not, ◌&&◌, some, Option, List, [], ◌∷◌, length,
  All, arith, sym, subst, Bool-cases, ◌∙◌, ok, err, Result, In, is_empty, All-map,
}
use chatcommons.Prelude.Sets.{Set, contains, IsAscending}
use chatcommons.Prelude.Maps
use chatcommons.Prelude.Maps.{Map, keys, Every, values-Every}
use chatcommons.Prelude.Options.{some_inj}
use chatcommons.Crypto.{Primitives}
use chatcommons.Protocol.{CommunityId, SignedEvent, EventId, Codec, validate_event}
use chatcommons.Storage.{Sqlite}
use chatcommons.Node.{CoreNode, NodeError, IngestReport, all_known, is_foreign}
use chatcommons.Node.Batch.{foreign_sound}
use chatcommons.Node.Ingestion.{Learns, ingest_returns, ingest-Learns}
use chatcommons.Sync.{SyncMessage, hello, heads, want, events, validate_message}
use chatcommons.Sync.Limits.{validate_message_iff}
use chatcommons.Sync.Peer.{
  SyncPeer, PeerError, max_pending_sync_events, insert_new, new_ids_of, can_ingest, ask_missing,
  after_ingest, ingest_pending, check_accept, accept_checked, accept, check_message, dispatch,
  head_messages, want_unknown, serve, receive_checked, receive, retain_unknown,
}
use chatcommons.Sync.Peer.Waiting.{
  lookup-insert_new, IsAscending-insert_new, length-insert_new, length-retain_unknown-le,
  IsAscending-retain_unknown, lookup-retain_unknown,
}

-- A valid event of the community, filed under its identifier.
abbrev pub Waits : Primitives → CommunityId → EventId → SignedEvent → Type 0
Waits p community id e =
    (e.event_id ≡ id) × (is_foreign community e ≡ false) × (validate_event p e ≡ ok tt)

-- The identifier of a valid event of the community with all its parents known.
abbrev pub IsLearned : Primitives → CommunityId → Set → EventId → Type 0
IsLearned p community known id =
    (e : SignedEvent) × Waits p community id e × (all_known known e ≡ true)

All-of_In :
    (P : SignedEvent → Type 0) (xs : List SignedEvent)
    → ((e : SignedEvent) → In e xs → P e)
    → All P xs
All-of_In P [] f = tt
All-of_In P (x ∷ xs) f = (f x (inl refl), All-of_In P xs (λ e i. f e (inr i)))

All-both :
    (P Q : SignedEvent → Type 0) (xs : List SignedEvent)
    → All P xs
    → All Q xs
    → All (λ e. P e × Q e) xs
All-both P Q [] a b = tt
All-both P Q (x ∷ xs) a b = ((a.0, b.0), All-both P Q xs a.1 b.1)

module _ (q : Sqlite) (p : Primitives) where
  -- The pending events are filed in order, at most 1,024, and each one waits.
  pub record WellFormed (peer : SyncPeer q) : Type 0 where
    pub ascending : IsAscending (keys peer.pending)
    pub bounded : length peer.pending ≤ max_pending_sync_events
    pub waiting : Every (Waits p peer.community) peer.pending

  -- Community and quota stay, nothing known is forgotten, and what is learned is of the community.
  pub record Grows (peer after : SyncPeer q) : Type 0 where
    pub same_community : after.community ≡ peer.community
    pub same_quota : after.max_stored_event_bytes ≡ peer.max_stored_event_bytes
    pub kept :
        (id : EventId) → contains id peer.node.known ≡ true → contains id after.node.known ≡ true
    pub learned :
        (id : EventId)
        → contains id after.node.known ≡ true
        → (contains id peer.node.known ≡ true) ⊎ IsLearned p peer.community after.node.known id

  abbrev pub Received : SyncPeer q → Result (PeerError q) (List SyncMessage) × SyncPeer q → Type 0
  Received peer out = WellFormed out.1 × Grows peer out.1

  unchanged :
      (peer : SyncPeer q) (result : Result (PeerError q) (List SyncMessage))
      → WellFormed peer
      → Received peer (result, peer)
  unchanged peer result w = (
    w,
    record { same_community = refl; same_quota = refl; kept = λ id h. h; learned = λ id h. inl h },
  )

  module _ (event_codec : Codec SignedEvent) where
    after_ingest-Received :
        (peer : SyncPeer q) (out : Result (NodeError q) IngestReport × CoreNode q)
        → WellFormed peer
        → Learns q p event_codec (Maps.values peer.pending) peer.node out.1
        → Received peer (after_ingest q peer out)
    after_ingest-Received peer out w l = by_result out l
      where
        grows :
            (n : CoreNode q) (m : Map SignedEvent)
            → Learns q p event_codec (Maps.values peer.pending) peer.node n
            → Grows peer (record peer { node = n; pending = m })
        grows n m l = record {
          same_community = refl;
          same_quota = refl;
          kept = l.kept;
          learned = λ id h. elim (l.learned id h) [
            | inl old ↦ inl old
            | inr (e, i, n, v, a) ↦
                let (j, x) =
                  values-Every (Waits p peer.community) peer.pending e w.ascending w.waiting i in
                inr (e, (n, x.1, v), a)
          ];
        }

        by_result :
            (out : Result (NodeError q) IngestReport × CoreNode q)
            → Learns q p event_codec (Maps.values peer.pending) peer.node out.1
            → Received peer (after_ingest q peer out)
        by_result (err e, n) l = (
          record { ascending = w.ascending; bounded = w.bounded; waiting = w.waiting },
          grows n peer.pending l,
        )
        by_result (ok r, n) l = (
          record {
            ascending = IsAscending-retain_unknown n.known peer.pending w.ascending;
            bounded = omega (arith, w.bounded, length-retain_unknown-le n.known peer.pending);
            waiting =
                λ id e h. w.waiting id e (lookup-retain_unknown n.known peer.pending id e h).0;
          },
          grows n (retain_unknown n.known peer.pending) l,
        )

    -- A computation returns, with something that is received.
    abbrev Returns :
        SyncPeer q → Option (Result (PeerError q) (List SyncMessage) × SyncPeer q) → Type 0
    Returns peer o =
        (out : Result (PeerError q) (List SyncMessage) × SyncPeer q) × (o ≡ some out)
        × Received peer out

    ingest_pending-Received :
        (peer : SyncPeer q) → WellFormed peer → Returns peer (ingest_pending q p event_codec peer)
    unfolding ingest_pending
    ingest_pending-Received peer w =
        elim (Bool-cases (
          can_ingest q peer (Maps.values peer.pending)
          && not (is_empty (Maps.values peer.pending)))) [
            | inl t ↦
                let (out, e) =
                  ingest_returns q p event_codec peer.node (Maps.values peer.pending) in
                (
                  after_ingest q peer out,
                  rw (ingest_pending, t, e) refl,
                  after_ingest-Received peer out w (
                      ingest-Learns q p event_codec peer.node out.1 (Maps.values peer.pending) out.0
                        e),
                )
            | inr f ↦ (
              ask_missing q peer,
              rw (ingest_pending, f) refl,
              unchanged peer (ask_missing q peer).0 w,
            )
          ]

    accept-Received :
        (peer : SyncPeer q) (given : List SignedEvent)
        → All (λ e. validate_event p e ≡ ok tt) given
        → WellFormed peer
        → Returns peer (accept q p event_codec peer given)
    unfolding accept check_accept
    accept-Received peer given valid w = through (check_accept q p event_codec peer given) refl
      where
        enlarged :
            check_accept q p event_codec peer given ≡ ok tt
            → WellFormed
                (record peer { pending = insert_new (new_ids_of q peer given) peer.pending given })
        enlarged c = record {
          ascending = IsAscending-insert_new _ peer.pending given w.ascending;
          bounded =
              let room : length peer.pending + length (new_ids_of q peer given)
                  ≤ max_pending_sync_events =
                ground arith in
              omega (
                arith,
                room,
                length-insert_new (new_ids_of q peer given) peer.pending given w.ascending,
              );
          waiting = lookup-insert_new (Waits p peer.community) _ peer.pending given w.waiting (
              All-map _ (λ e. Waits p peer.community e.event_id e) given (λ e x. (refl, x.0, x.1))
                (All-both (λ e. is_foreign peer.community e ≡ false) _ given
                  (All-of_In _ given
                    (λ e i. foreign_sound q p peer.community given e (ground arith) i))
                  valid));
        }

        through :
            (checked : Result (PeerError q) (Unit {0}))
            → check_accept q p event_codec peer given ≡ checked
            → Returns peer (accept_checked q p event_codec peer given checked)
        through (err e) c = ((err e, peer), refl, unchanged peer (err e) w)
        through (ok _) c =
            let (out, e, (w', g)) =
              ingest_pending-Received
                (record peer { pending = insert_new (new_ids_of q peer given) peer.pending given })
                (enlarged c) in
            (
              out,
              e,
              (
                w',
                record {
                  same_community = g.same_community;
                  same_quota = g.same_quota;
                  kept = g.kept;
                  learned = g.learned;
                },
              ),
            )

    module _ (message_codec : Codec SyncMessage) where
      receive-Received :
          (peer : SyncPeer q) (message : SyncMessage)
          → WellFormed peer
          → Returns peer (receive q p event_codec message_codec peer message)
      unfolding receive check_message dispatch
      receive-Received peer message w =
          through (check_message q p event_codec message_codec peer message) refl
        where
          by_message :
              (m : SyncMessage)
              → validate_message p message_codec m ≡ ok tt
              → Returns peer (dispatch q p event_codec message_codec peer m)
          by_message (hello version versions community) v = (
            (head_messages q p event_codec peer, peer),
            refl,
            unchanged peer (head_messages q p event_codec peer) w,
          )
          by_message (heads community ids) v = (
            (ok (want_unknown q peer ids), peer),
            refl,
            unchanged peer (ok (want_unknown q peer ids)) w,
          )
          by_message (want community ids) v = (
            (serve q p event_codec message_codec peer ids, peer),
            refl,
            unchanged peer (serve q p event_codec message_codec peer ids) w,
          )
          by_message (events community given) v =
              accept-Received peer given
                ((validate_message_iff p message_codec (events community given)).0 v).0.3 w

          through :
              (checked : Result (PeerError q) (Unit {0}))
              → check_message q p event_codec message_codec peer message ≡ checked
              → Returns peer (receive_checked q p event_codec message_codec peer message checked)
          through (err e) c = ((err e, peer), refl, unchanged peer (err e) w)
          through (ok _) c = by_message message (ground arith)

      -- `receive` returns, whatever the message; if at most 1,024 valid events of the community were
      -- pending, each under its identifier, in order, then so they are after it, with every result. The
      -- community and the quota stay as they were.
      pub receive-WellFormed :
          (peer : SyncPeer q) (message : SyncMessage)
          → WellFormed peer
          → (out : Result (PeerError q) (List SyncMessage) × SyncPeer q) × (receive q p event_codec
                message_codec peer message
              ≡ some out)
            × WellFormed out.1
            × (out.1.community ≡ peer.community)
            × (out.1.max_stored_event_bytes ≡ peer.max_stored_event_bytes)
      receive-WellFormed peer message w =
          let (out, e, (w', g)) = receive-Received peer message w in
          (out, e, w', g.same_community, g.same_quota)

      -- With every result of `receive` on a well-formed peer, its node forgets nothing that it knew, and
      -- whatever it knows anew is the identifier of a valid event of the peer's community whose
      -- parents it knows all.
      pub receive-learns :
          (peer after : SyncPeer q) (message : SyncMessage)
          (result : Result (PeerError q) (List SyncMessage))
          → WellFormed peer
          → receive q p event_codec message_codec peer message ≡ some (result, after)
          → (id : EventId)
          → ((contains id peer.node.known ≡ true) → (contains id after.node.known ≡ true))
            × ((contains id after.node.known ≡ true)
                → (contains id peer.node.known ≡ true)
                  ⊎ IsLearned p peer.community after.node.known id)
      receive-learns peer after message result w h id =
          let (out, e, (w', g)) = receive-Received peer message w in
          of_grows (result, after)
            (subst (λ o. Grows peer (o.1)) (some_inj out (result, after) (sym e ∙ h)) g)
        where
          of_grows :
              (out : Result (PeerError q) (List SyncMessage) × SyncPeer q)
              → Grows peer out.1
              → ((contains id peer.node.known ≡ true) → (contains id out.1.node.known ≡ true))
                × ((contains id out.1.node.known ≡ true)
                    → (contains id peer.node.known ≡ true)
                      ⊎ IsLearned p peer.community out.1.node.known id)
          of_grows out g = (g.kept id, g.learned id)
