-- ===== src/Network/Safety.antt =====
-- crates/sync/src/network.rs: what is safe about the state of a node, and the steps that keep it so.
pub mod Admission
pub mod Requests
pub mod Responses
pub mod Relays
pub mod Grants
pub mod Connections
pub mod Reachable
use chatcommons.Prelude.{
  ℕ, ◌==◌, ◌≡◌, ◌⊎◌, inl, inr, refl, true, false, not, ◌&&◌, ◌||◌, Bool, Option, none, some, List,
  [], ◌∷◌, arith, sym, subst, ap, ◌∙◌, ok, err, Result, Result-cases, Bool-cases, Option-cases,
}
use chatcommons.Prelude.Bytes.{Bytes}
use chatcommons.Prelude.Sets
use chatcommons.Prelude.Sets.{Set, contains-insert, contains-remove}
use chatcommons.Prelude.Maps
use chatcommons.Prelude.Maps.{
  Map, Every, Every-insert, Every-remove, lookup, contains_key, lookup-insert, lookup-remove,
}
use chatcommons.Crypto.{Primitives}
use chatcommons.Device.{
  DeviceCertificate, AuthenticatedDevice, RevocationSet, AuthError, validate_device_certificate,
  contains,
}
use chatcommons.Network.{
  Libp2p, Synchronizer, NetworkNode, NetworkError, NetworkRequest, NetworkResponse, PeerId,
  PendingChallenge, ProvedBootstrap, PendingAcceptance, sync,
}
use chatcommons.Network.Frames.{Outcome, and_then, check_frame, if_framed, deliver, respond, send}
use chatcommons.Network.Authentication.{
  is_admitted, admit, drop_peer, drop_peers, not_admitted, replace_authorization, maybe_start_sync,
  peer_id_from_certificate, validate_peer_certificate,
}

module _ (n : Libp2p) (p : Primitives) where
  -- A device of a peer: by a valid certificate for the peer's key, and not revoked.
  abbrev pub Belongs : RevocationSet → PeerId → AuthenticatedDevice → Type 0
  Belongs revocations peer device =
      (certificate : DeviceCertificate) × (validate_device_certificate p certificate ≡ ok device)
      × (n.peer_of_key certificate.device_public_key ≡ some peer)
      × (contains revocations device.user_id device.device_id ≡ false)

  -- The parts of a safe state, with what each authenticated device has to be.
  pub record SafeParts (z : Synchronizer) (may : PeerId → AuthenticatedDevice → Type 0)
      (revocations : RevocationSet) (authenticated : Set) (devices : Map AuthenticatedDevice)
      (accepted started : Set) (provisional : Map AuthenticatedDevice)
      (challenges : Map PendingChallenge) (proved : Map ProvedBootstrap)
      (acceptances : Map (PendingAcceptance n z)) : Type 0 where
    -- the authenticated peers are those with a device
    pub listed : (peer : PeerId) → Sets.contains peer authenticated ≡ contains_key peer devices
    pub admitted : Every may devices
    -- every device that the node holds belongs to its peer
    pub certified : Every (Belongs revocations) devices
    pub provisionally : Every (Belongs revocations) provisional
    pub challenged : Every (λ peer c. Belongs revocations peer c.authenticated) challenges
    pub proving : Every (λ peer b. Belongs revocations peer b.authenticated) proved
    pub accepting : Every (λ peer a. Belongs revocations peer a.authenticated) acceptances
    -- synchronization has started with authenticated peers that accepted this node
    pub reciprocal :
        (peer : PeerId)
        → Sets.contains peer started ≡ true
        → (Sets.contains peer authenticated && Sets.contains peer accepted) ≡ true

module _ (n : Libp2p) (z : Synchronizer) (p : Primitives) where
  abbrev pub SafeWith : (PeerId → AuthenticatedDevice → Type 0) → NetworkNode n z → Type 0
  SafeWith may s =
      SafeParts n p z may s.revocations s.authenticated s.authenticated_devices s.accepted_by_remote
        s.sync_started s.provisional s.pending_challenges s.proved_bootstraps s.pending_acceptances

  -- Each authenticated device may synchronize, for its user or itself.
  abbrev pub Safe : NetworkNode n z → Type 0
  Safe s =
      SafeWith (λ peer d. is_admitted s.allowed_users s.trusted_infrastructure_devices d ≡ true) s

  pub weaken :
      (may may' : PeerId → AuthenticatedDevice → Type 0) (s : NetworkNode n z)
      → ((peer : PeerId) (d : AuthenticatedDevice) → may peer d → may' peer d)
      → SafeWith may s
      → SafeWith may' s
  weaken may may' s f safe = record {
    listed = safe.listed;
    admitted = λ peer d l. f peer d (safe.admitted peer d l);
    certified = safe.certified;
    provisionally = safe.provisionally;
    challenged = safe.challenged;
    proving = safe.proving;
    accepting = safe.accepting;
    reciprocal = safe.reciprocal;
  }

  pub and_then-Safe :
      {A B : Type 0} (out : Outcome n z A) (next : A → NetworkNode n z → Outcome n z B)
      → Safe out.1
      → ((a : A) (s : NetworkNode n z) → Safe s → Safe ((next a s).1))
      → Safe ((and_then n z out next).1)
  and_then-Safe (err e, s) next here later = here
  and_then-Safe (ok a, s) next here later = later a s here

  -- Sending changes the swarm alone.
  pub send-Safe :
      (s : NetworkNode n z) (peer : PeerId) (message : NetworkRequest)
      → Safe s
      → Safe ((send n z s peer message).1)
  unfolding send
  send-Safe s peer message safe = by_frame (check_frame n z (n.request_codec.to_vec message))
    where
      by_frame :
          (checked : Result (NetworkError z) (Unit {0}))
          → Safe (
              (if_framed n z s
                (ok tt, record s { swarm = n.send_request s.swarm peer message })
                checked).1)
      by_frame (err e) = safe
      by_frame (ok _) = safe

  pub deliver-Safe :
      (s : NetworkNode n z) (sent : Bool × n.Swarm) → Safe s → Safe ((deliver n z s sent).1)
  deliver-Safe s (open_yet, w) safe = safe

  pub respond-Safe :
      (s : NetworkNode n z) (channel : n.ResponseChannel) (response : NetworkResponse)
      → Safe s
      → Safe ((respond n z s channel response).1)
  unfolding respond
  respond-Safe s channel response safe =
      by_frame (check_frame n z (n.response_codec.to_vec response))
    where
      by_frame :
          (checked : Result (NetworkError z) (Unit {0}))
          → Safe (
              (if_framed n z s
                (deliver n z s (n.send_response s.swarm channel response))
                checked).1)
      by_frame (err e) = safe
      by_frame (ok _) = deliver-Safe s (n.send_response s.swarm channel response) safe

  -- A device that may synchronize is admitted.
  pub admit-Safe :
      (s : NetworkNode n z) (peer : PeerId) (device : AuthenticatedDevice)
      → is_admitted s.allowed_users s.trusted_infrastructure_devices device ≡ true
      → Belongs n p s.revocations peer device
      → Safe s
      → Safe (admit n z s peer device)
  admit-Safe s peer device may belongs safe = record {
    listed = λ j. ground (
      arith,
      safe.listed j,
      contains-insert j peer s.authenticated,
      lookup-insert j peer device s.authenticated_devices,
    );
    admitted =
        Every-insert
          (λ peer d. is_admitted s.allowed_users s.trusted_infrastructure_devices d ≡ true) peer
          device s.authenticated_devices may safe.admitted;
    certified =
        Every-insert (Belongs n p s.revocations) peer device s.authenticated_devices belongs
          safe.certified;
    provisionally = safe.provisionally;
    challenged = safe.challenged;
    proving = safe.proving;
    accepting = safe.accepting;
    reciprocal = λ j h. ground (arith, safe.reciprocal j h, contains-insert j peer s.authenticated);
  }

  pub maybe_start_sync-Safe :
      (s : NetworkNode n z) (peer : PeerId) → Safe s → Safe ((maybe_start_sync n z s peer).1)
  unfolding maybe_start_sync
  maybe_start_sync-Safe s peer safe =
      elim (Bool-cases (
        Sets.contains peer s.authenticated
        && Sets.contains peer s.accepted_by_remote
        && not (Sets.contains peer s.sync_started))) [
          | inl t ↦
              rw (maybe_start_sync, t)
                (send-Safe (record s { sync_started = Sets.insert peer s.sync_started }) peer
                  (sync (z.hello s.sync)) (started t))
          | inr f ↦ rw (maybe_start_sync, f) safe
        ]
    where
      started :
          (Sets.contains peer s.authenticated
              && Sets.contains peer s.accepted_by_remote
              && not (Sets.contains peer s.sync_started))
            ≡ true
          → Safe (record s { sync_started = Sets.insert peer s.sync_started })
      started t = record {
        listed = safe.listed;
        admitted = safe.admitted;
        certified = safe.certified;
        provisionally = safe.provisionally;
        challenged = safe.challenged;
        proving = safe.proving;
        accepting = safe.accepting;
        reciprocal = λ j h. elim (Bool-cases (j == peer)) [
          | inl same ↦ ground (arith, t)
          | inr another ↦
              safe.reciprocal j (ground (arith, h, contains-insert j peer s.sync_started))
        ];
      }
