-- ===== src/Network/Synchronizing.antt =====
-- `SyncPeer` of crates/sync/src/lib.rs as what the network node of crates/sync/src/network.rs uses.
use chatcommons.Prelude.{
  ◌≡◌, refl, not, ◌&&◌, some, Option, List, ok, err, Result, Bool-cases, inl, inr, is_empty,
}
use chatcommons.Prelude.Maps
use chatcommons.Crypto.{Primitives}
use chatcommons.Protocol.{SignedEvent, Codec}
use chatcommons.Storage.{Sqlite}
use chatcommons.Node.Ingestion.{ingest_returns}
use chatcommons.Sync.{SyncMessage, hello, heads, want, events}
use chatcommons.Sync.Peer.{
  SyncPeer, PeerError, new_ids_of, insert_new, can_ingest, ask_missing, after_ingest,
  ingest_pending, check_accept, accept_checked, accept, head_messages, want_unknown, serve,
  check_message, dispatch, receive_checked, receive, hello_message,
}
use chatcommons.Network.{Synchronizer}

module _ (q : Sqlite) (p : Primitives) (event_codec : Codec SignedEvent) where
  abbrev pub Returns : Option (Result (PeerError q) (List SyncMessage) × SyncPeer q) → Type 0
  Returns o = (out : Result (PeerError q) (List SyncMessage) × SyncPeer q) × (o ≡ some out)

  ingest_pending-Returns : (peer : SyncPeer q) → Returns (ingest_pending q p event_codec peer)
  unfolding ingest_pending
  ingest_pending-Returns peer =
      elim (Bool-cases (
        can_ingest q peer (Maps.values peer.pending)
        && not (is_empty (Maps.values peer.pending)))) [
          | inl t ↦
              let (out, e) = ingest_returns q p event_codec peer.node (Maps.values peer.pending) in
              (after_ingest q peer out, rw (ingest_pending, t, e) refl)
          | inr f ↦ (ask_missing q peer, rw (ingest_pending, f) refl)
        ]

  accept-Returns :
      (peer : SyncPeer q) (given : List SignedEvent) → Returns (accept q p event_codec peer given)
  unfolding accept
  accept-Returns peer given = by_check (check_accept q p event_codec peer given)
    where
      by_check :
          (checked : Result (PeerError q) (Unit {0}))
          → Returns (accept_checked q p event_codec peer given checked)
      by_check (err e) = ((err e, peer), refl)
      by_check (ok _) =
          ingest_pending-Returns
            (record peer { pending = insert_new (new_ids_of q peer given) peer.pending given })

  module _ (message_codec : Codec SyncMessage) where
    dispatch-Returns :
        (peer : SyncPeer q) (m : SyncMessage)
        → Returns (dispatch q p event_codec message_codec peer m)
    unfolding dispatch
    dispatch-Returns peer (hello version versions community) =
        ((head_messages q p event_codec peer, peer), refl)
    dispatch-Returns peer (heads community ids) = ((ok (want_unknown q peer ids), peer), refl)
    dispatch-Returns peer (want community ids) =
        ((serve q p event_codec message_codec peer ids, peer), refl)
    dispatch-Returns peer (events community given) = accept-Returns peer given

    -- `receive` returns, whatever the peer and the message.
    pub receive-Returns :
        (peer : SyncPeer q) (message : SyncMessage)
        → Returns (receive q p event_codec message_codec peer message)
    unfolding receive
    receive-Returns peer message =
        by_check (check_message q p event_codec message_codec peer message)
      where
        by_check :
            (checked : Result (PeerError q) (Unit {0}))
            → Returns (receive_checked q p event_codec message_codec peer message checked)
        by_check (err e) = ((err e, peer), refl)
        by_check (ok _) = dispatch-Returns peer message

    -- `SyncPeer` fills the interface: `receive` gives what it returns.
    abbrev pub sync_peer : Synchronizer
    sync_peer = record {
      Peer = SyncPeer q;
      SyncError = PeerError q;
      community = λ peer. peer.community;
      hello = λ peer. hello_message q peer;
      receive = λ peer message. (receive-Returns peer message).0;
    }

    pub sync_peer-receive :
        (peer : SyncPeer q) (message : SyncMessage)
        → receive q p event_codec message_codec peer message ≡ some (sync_peer.receive peer message)
    sync_peer-receive peer message = (receive-Returns peer message).1
