-- ===== src/Network/Authentication.antt =====
-- crates/sync/src/network.rs: which peers are authenticated, and when synchronization starts.
use chatcommons.Prelude.{
  ◌==◌, Bool, true, false, not, ◌&&◌, ◌||◌, Option, none, some, List, [], ◌∷◌, Result, ok, err,
  ◌>>=◌, ◌>>◌, fail_if, ok_or, map_err,
}
use chatcommons.Prelude.Sets
use chatcommons.Prelude.Sets.{Set}
use chatcommons.Prelude.Maps
use chatcommons.Prelude.Maps.{Map}
use chatcommons.Crypto.{Primitives}
use chatcommons.Device.{
  DeviceCertificate, AuthenticatedDevice, AuthError, invalid_device_key,
  validate_device_certificate, contains,
}
use chatcommons.Network.{
  Libp2p, Synchronizer, NetworkNode, RejectionCode, AuthenticationState, PeerId, BootstrapTarget,
  full, provisional, invalid_certificate, peer_id_mismatch, device_revoked, user_not_allowed,
  bootstrap, sync, bootstrap_begin,
}
use chatcommons.Network.Frames.{Outcome, send}

-- `is_some_and(|target| target.peer == peer)`
abbrev pub targets : Option BootstrapTarget → PeerId → Bool
targets none peer = false
targets (some target) peer = target.peer == peer

-- `filter(|target| target.peer == peer)`
abbrev pub targeting : Option BootstrapTarget → PeerId → Option BootstrapTarget
targeting none peer = none
targeting (some target) peer = elim (target.peer == peer) [ true ↦ some target | false ↦ none ]

-- Whether a device may synchronize, for its user or itself.
abbrev pub is_admitted : Set → Set → AuthenticatedDevice → Bool
is_admitted allowed trusted device =
    Sets.contains device.user_id allowed || Sets.contains device.device_id trusted

-- The peers that `replace_authorization` collects.
unfoldable pub not_admitted : Set → Set → Map AuthenticatedDevice → List PeerId
not_admitted allowed trusted [] = []
not_admitted allowed trusted ((peer, device) ∷ m) = elim (is_admitted allowed trusted device) [
  | true ↦ not_admitted allowed trusted m
  | false ↦ peer ∷ not_admitted allowed trusted m
]

module _ (n : Libp2p) (z : Synchronizer) where
  abbrev pub is_authenticated : NetworkNode n z → PeerId → Bool
  is_authenticated s peer = Sets.contains peer s.authenticated

  -- The body of the loop of `replace_authorization`.
  abbrev pub drop_peer : NetworkNode n z → PeerId → NetworkNode n z
  drop_peer s peer = record s {
    authenticated = Sets.remove peer s.authenticated;
    authenticated_devices = Maps.remove peer s.authenticated_devices;
    authentication_sent = Sets.remove peer s.authentication_sent;
    accepted_by_remote = Sets.remove peer s.accepted_by_remote;
    sync_started = Sets.remove peer s.sync_started;
    swarm = n.disconnect_peer_id s.swarm peer;
  }

  unfoldable pub drop_peers : NetworkNode n z → List PeerId → NetworkNode n z
  drop_peers s [] = s
  drop_peers s (peer ∷ peers) = drop_peers (drop_peer s peer) peers

  unfoldable pub replace_authorization : NetworkNode n z → Set → Set → NetworkNode n z
  replace_authorization s allowed trusted =
      drop_peers (record s { allowed_users = allowed; trusted_infrastructure_devices = trusted })
        (not_admitted allowed trusted s.authenticated_devices)

  unfoldable pub maybe_start_sync : NetworkNode n z → PeerId → Outcome n z (Unit {0})
  maybe_start_sync s peer =
      elim (Sets.contains peer s.authenticated
        && Sets.contains peer s.accepted_by_remote
        && not (Sets.contains peer s.sync_started)) [
          | true ↦
              send n z (record s { sync_started = Sets.insert peer s.sync_started }) peer
                (sync (z.hello s.sync))
          | false ↦ (ok tt, s)
        ]

  abbrev pub begin_with : NetworkNode n z → PeerId → Option BootstrapTarget → Outcome n z (Unit {0})
  begin_with s peer none = (err bootstrap, s)
  begin_with s peer (some target) =
      send n z s peer (bootstrap_begin s.certificate target.invitation)

  unfoldable pub start_bootstrap : NetworkNode n z → PeerId → Outcome n z (Unit {0})
  start_bootstrap s peer = begin_with s peer (targeting s.bootstrap_target peer)

  -- A peer with a device that may synchronize.
  abbrev pub admit : NetworkNode n z → PeerId → AuthenticatedDevice → NetworkNode n z
  admit s peer device = record s {
    authenticated = Sets.insert peer s.authenticated;
    authenticated_devices = Maps.insert peer device s.authenticated_devices;
  }

  module _ (p : Primitives) where
    unfoldable pub peer_id_from_certificate : DeviceCertificate → Result AuthError PeerId
    peer_id_from_certificate certificate = do
      valid ← validate_device_certificate p certificate
      ok_or (n.peer_of_key certificate.device_public_key) invalid_device_key

    unfoldable pub validate_peer_certificate :
        NetworkNode n z → PeerId → DeviceCertificate → Result RejectionCode AuthenticatedDevice
    validate_peer_certificate s peer certificate = do
      device ← map_err (λ _. invalid_certificate) (validate_device_certificate p certificate)
      certificate_peer ← map_err (λ _. invalid_certificate) (peer_id_from_certificate certificate)
      fail_if (not (certificate_peer == peer)) peer_id_mismatch
      fail_if (contains s.revocations device.user_id device.device_id) device_revoked
      ok device

    abbrev pub decide :
        NetworkNode n z
        → PeerId
        → Result RejectionCode AuthenticatedDevice
        → Result RejectionCode AuthenticationState × NetworkNode n z
    decide s peer (err reason) = (err reason, s)
    decide s peer (ok device) =
        elim (is_admitted s.allowed_users s.trusted_infrastructure_devices device) [
          | true ↦ (ok full, admit s peer device)
          | false ↦ elim (targets s.bootstrap_target peer) [
            | true ↦
                (ok provisional, record s { provisional = Maps.insert peer device s.provisional })
            | false ↦ (err user_not_allowed, s)
          ]
        ]

    unfoldable pub authenticate :
        NetworkNode n z
        → PeerId
        → DeviceCertificate
        → Result RejectionCode AuthenticationState × NetworkNode n z
    authenticate s peer certificate = decide s peer (validate_peer_certificate s peer certificate)
