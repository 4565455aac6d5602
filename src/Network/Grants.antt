-- ===== src/Network/Grants.antt =====
-- crates/sync/src/network.rs: the invitations that a node serves, and the invitation it follows.
use chatcommons.Prelude.{
  ◌==◌, Bool, true, false, not, ◌&&◌, ◌||◌, Option, none, some, List, [], ◌∷◌, length, is_empty,
  is_none, any, ltb, eq_option, Result, ok, err, ◌>>=◌, ◌>>◌, fail_if, ok_or, map_err,
}
use chatcommons.Prelude.Bytes.{Bytes}
use chatcommons.Prelude.Maps
use chatcommons.Prelude.Maps.{Map}
use chatcommons.Crypto.{Primitives, UserId, signature_len}
use chatcommons.Protocol.{CommunityId, EventId, SignedEvent, validate_event}
use chatcommons.Device.{DeviceId, AuthenticatedDevice}
use chatcommons.Network.{
  Libp2p, Synchronizer, NetworkNode, NetworkError, BootstrapGrant, BootstrapTarget, PeerId,
  bootstrap, bootstrap_ancestry, bootstrap_prove, bootstrap_accept, max_bootstrap_ancestry_events,
  max_network_frame_bytes,
}
use chatcommons.Network.Frames.{Outcome, and_then, send}
use chatcommons.Network.Authentication.{targeting}

-- The test `belongs` on an event of an ancestry.
abbrev pub belongs : CommunityId → SignedEvent → Bool
belongs community event =
    eq_option event.community_id (some community)
    || (is_none event.community_id && event.event_id == community)

-- `filter(|target| target.peer == peer && target.invitation == invitation)`
abbrev pub target_for : Option BootstrapTarget → PeerId → EventId → Option BootstrapTarget
target_for none peer invitation = none
target_for (some target) peer invitation =
    elim (target.peer == peer && target.invitation == invitation) [
      | true ↦ some target
      | false ↦ none
    ]

-- The loop over an ancestry, with the error for an event that is invalid or foreign.
unfoldable pub check_ancestry :
    {E : Type 0} → Primitives → CommunityId → E → List SignedEvent → Result E (Unit {0})
check_ancestry p community error [] = ok tt
check_ancestry p community error (e ∷ ancestry) = do
  map_err (λ _. error) (validate_event p e)
  fail_if (not (belongs community e)) error
  check_ancestry p community error ancestry

-- The target with its endpoint approved.
abbrev pub approve : BootstrapTarget → BootstrapTarget
approve target = record target { endpoint_approved = true }

abbrev pub user_of : Option AuthenticatedDevice → Option UserId
user_of none = none
user_of (some device) = some device.user_id

abbrev pub device_of : Option AuthenticatedDevice → Option DeviceId
device_of none = none
device_of (some device) = some device.device_id

module _ (n : Libp2p) (z : Synchronizer) where
  abbrev pub provisional_user : NetworkNode n z → PeerId → Option UserId
  provisional_user s peer = user_of (Maps.lookup peer s.provisional)

  abbrev pub provisional_device : NetworkNode n z → PeerId → Option DeviceId
  provisional_device s peer = device_of (Maps.lookup peer s.provisional)

  unfoldable pub configure_bootstrap_target :
      NetworkNode n z → PeerId → EventId → Outcome n z (Unit {0})
  configure_bootstrap_target s peer invitation = elim s.bootstrap_target [
    | some target ↦ (err bootstrap, s)
    | none ↦ (
      ok tt,
      record s {
        bootstrap_target =
            some (record { peer = peer; invitation = invitation; endpoint_approved = false });
      },
    )
  ]

  abbrev pub approve_endpoint :
      NetworkNode n z → PeerId → Option BootstrapTarget → Outcome n z (Unit {0})
  approve_endpoint s peer none = (err bootstrap, s)
  approve_endpoint s peer (some target) = elim (Maps.contains_key peer s.provisional) [
    | true ↦ (ok tt, record s { bootstrap_target = some (approve target) })
    | false ↦ (err bootstrap, s)
  ]

  unfoldable pub approve_bootstrap_endpoint : NetworkNode n z → PeerId → Outcome n z (Unit {0})
  approve_bootstrap_endpoint s peer = approve_endpoint s peer (targeting s.bootstrap_target peer)

  -- The checks of `submit_bootstrap_proof`.
  unfoldable pub check_proof :
      NetworkNode n z → PeerId → EventId → Bytes → Result (NetworkError z) (Unit {0})
  check_proof s peer invitation signature = do
    target ← ok_or (target_for s.bootstrap_target peer invitation) bootstrap
    fail_if (not (length signature == signature_len)) bootstrap

  unfoldable pub submit_bootstrap_proof :
      NetworkNode n z → PeerId → EventId → Bytes → Outcome n z (Unit {0})
  submit_bootstrap_proof s peer invitation signature =
      and_then n z (check_proof s peer invitation signature, s)
        (λ _ s. send n z s peer (bootstrap_prove invitation signature))

  module _ (p : Primitives) where
    unfoldable pub validate_bootstrap_grant :
        NetworkNode n z → BootstrapGrant → Result (NetworkError z) (Unit {0})
    validate_bootstrap_grant s grant = do
      fail_if
          (is_empty grant.ancestry
            || ltb max_bootstrap_ancestry_events (length grant.ancestry)
            || not (any (λ e. e.event_id == grant.invitation) grant.ancestry))
          bootstrap
      check_ancestry p (z.community s.sync) bootstrap grant.ancestry
      encoded ←
          ok_or (n.response_codec.to_vec (bootstrap_ancestry grant.invitation grant.ancestry))
            bootstrap
      fail_if (ltb max_network_frame_bytes (length encoded)) bootstrap

    unfoldable pub register_bootstrap_grant :
        NetworkNode n z → BootstrapGrant → Outcome n z (Unit {0})
    register_bootstrap_grant s grant =
        and_then n z (validate_bootstrap_grant s grant, s)
          (λ _ s. (
            ok tt,
            record s { bootstrap_grants = Maps.insert grant.invitation grant s.bootstrap_grants },
          ))

    -- The loop of `replace_bootstrap_grants`.
    unfoldable pub collect_grants :
        NetworkNode n z
        → Map BootstrapGrant
        → List BootstrapGrant
        → Result (NetworkError z) (Map BootstrapGrant)
    collect_grants s replacement [] = ok replacement
    collect_grants s replacement (grant ∷ grants) = do
      validate_bootstrap_grant s grant
      collect_grants s (Maps.insert grant.invitation grant replacement) grants

    unfoldable pub replace_bootstrap_grants :
        NetworkNode n z → List BootstrapGrant → Outcome n z (Unit {0})
    replace_bootstrap_grants s grants =
        and_then n z (collect_grants s [] grants, s)
          (λ replacement s. (ok tt, record s { bootstrap_grants = replacement }))

    -- The checks of `submit_bootstrap_acceptance`.
    unfoldable pub check_acceptance :
        NetworkNode n z → PeerId → EventId → SignedEvent → Result (NetworkError z) (Unit {0})
    check_acceptance s peer invitation acceptance = do
      target ← ok_or (target_for s.bootstrap_target peer invitation) bootstrap
      fail_if (not target.endpoint_approved) bootstrap
      map_err (λ _. bootstrap) (validate_event p acceptance)

    unfoldable pub submit_bootstrap_acceptance :
        NetworkNode n z → PeerId → EventId → SignedEvent → Outcome n z (Unit {0})
    submit_bootstrap_acceptance s peer invitation acceptance =
        and_then n z (check_acceptance s peer invitation acceptance, s)
          (λ _ s. send n z s peer (bootstrap_accept invitation acceptance))
