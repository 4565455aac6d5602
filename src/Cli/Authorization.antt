-- ===== src/Cli/Authorization.antt =====
-- crates/cli/src/main.rs: whom the command line lets in.
use chatcommons.Prelude.{
  ◌≡◌, ◌⊎◌, Bool-cases, All, true, none, some, Option, List, [], ok, err, Result, Result-cases, inl,
  inr, arith, ap, ◌∙◌, sym, subst, refl,
}
use chatcommons.Prelude.Bytes.{Bytes, eq_bytes_iff}
use chatcommons.Prelude.Sets
use chatcommons.Prelude.Sets.{Set, contains-extend, contains-All}
use chatcommons.Prelude.Maps
use chatcommons.Crypto.{Primitives}
use chatcommons.Protocol.{SignedEvent, Codec}
use chatcommons.Chat.{ChatPayload, ChatResolution, ChatSnapshot, HomeServerBinding}
use chatcommons.Storage.{Sqlite}
use chatcommons.Device.{AuthenticatedDevice, device_id_of}
use chatcommons.Sync.{SyncMessage}
use chatcommons.Network.{Libp2p, Synchronizer, NetworkNode, BootstrapGrant, PeerId}
use chatcommons.Network.Frames.{Outcome}
use chatcommons.Network.Authentication.{is_admitted, replace_authorization}
use chatcommons.Network.Grants.{replace_bootstrap_grants}
use chatcommons.Network.Safety.{Safe}
use chatcommons.Network.Safety.Admission.{replace_authorization-Safe, replace_authorization_sets}
use chatcommons.Network.Safety.Grants.{
  replace_bootstrap_grants-Safe, replace_bootstrap_grants_keeps,
}
use chatcommons.Cli
use chatcommons.Cli.{NetworkRole, home_server}
use chatcommons.Cli.Commands.{
  Failure, peers, trusted_of, project, check_role, grants_of, of_network, authorize, refresh_with,
  refresh_network_authorization,
}

-- Any node is in order as a peer; a home server has to be the one that the profile names.
abbrev pub HoldsRole : NetworkRole → Bytes → Option HomeServerBinding → Type 0
HoldsRole Cli.peer key named = Unit {0}
HoldsRole home_server key named =
    (binding : HomeServerBinding) × (named ≡ some binding) × (binding.server_public_key ≡ key)

-- The user is in the explicit list or a member, or the device is that of the home server's key.
abbrev pub IsEntitled : Primitives → Set → ChatSnapshot → AuthenticatedDevice → Type 0
IsEntitled p explicit snapshot d =
    (Sets.contains d.user_id explicit ≡ true)
    ⊎ (Sets.contains d.user_id snapshot.members ≡ true)
    ⊎ ((binding : HomeServerBinding) × (snapshot.home_server ≡ some binding)
        × (d.device_id ≡ device_id_of p binding.server_public_key))

trusted-IsEntitled :
    (p : Primitives) (named : Option HomeServerBinding) (d : AuthenticatedDevice)
    → Sets.contains d.device_id (trusted_of p named) ≡ true
    → (binding : HomeServerBinding) × (named ≡ some binding)
      × (d.device_id ≡ device_id_of p binding.server_public_key)
unfolding Sets.contains
trusted-IsEntitled p none d h = absurd cc
trusted-IsEntitled p (some binding) d h = (binding, refl, ground (arith, h))

entitled :
    (p : Primitives) (explicit : Set) (snapshot : ChatSnapshot) (allowed_users devices : Set)
    (d : AuthenticatedDevice)
    → allowed_users ≡ Sets.extend snapshot.members explicit
    → devices ≡ trusted_of p snapshot.home_server
    → is_admitted allowed_users devices d ≡ true
    → IsEntitled p explicit snapshot d
entitled p explicit snapshot allowed_users devices d a t h =
    let may = rw (a, t) at h in
    let listed = contains-extend d.user_id snapshot.members explicit in
    elim (Bool-cases (Sets.contains d.user_id explicit)) [
      | inl e ↦ inl e
      | inr f ↦ elim (Bool-cases (Sets.contains d.user_id snapshot.members)) [
        | inl m ↦ inr (inl m)
        | inr g ↦
            inr (
              inr (trusted-IsEntitled p snapshot.home_server d (ground (arith, may, listed, f, g))))
      ]
    ]

module _ (n : Libp2p) (q : Sqlite) (p : Primitives) (event_codec : Codec SignedEvent)
    (message_codec : Codec SyncMessage) (chat_codec : Codec ChatPayload) where
  abbrev z : Synchronizer
  z = peers n q p event_codec message_codec chat_codec

  of_network_state :
      (out : Outcome n z (Unit {0}))
      → (of_network n q p event_codec message_codec chat_codec out).1 ≡ out.1
  of_network_state (err e, s) = refl
  of_network_state (ok _, s) = refl

  -- What remains of the authorization once the grants are replaced.
  replaced :
      (s : NetworkNode n z) (allowed trusted : Set) (grants : List BootstrapGrant)
      (after : NetworkNode n z)
      → Safe n z p s
      → authorize n q p event_codec message_codec chat_codec s allowed trusted (ok grants)
        ≡ (ok tt, after)
      → Safe n z p after
        × (after.allowed_users ≡ allowed)
        × (after.trusted_infrastructure_devices ≡ trusted)
  replaced s allowed trusted grants after safe h =
      let s' = replace_authorization n z s allowed trusted in
      let out = replace_bootstrap_grants n z p s' grants in
      let (a, t) = replace_authorization_sets n z p s allowed trusted in
      let (b, u) = replace_bootstrap_grants_keeps n z p s' grants in
      subst
        (λ t.
          Safe n z p t × (t.allowed_users ≡ allowed) × (t.trusted_infrastructure_devices ≡ trusted))
        (sym (of_network_state out) ∙ ap (λ o. o.1) h)
        (
          replace_bootstrap_grants-Safe n z p s' grants
              (replace_authorization-Safe n z p s allowed trusted safe),
          b ∙ a,
          u ∙ t,
        )

  -- A peer of a safe state has an admitted device.
  device_of_peer :
      (s : NetworkNode n z) (peer : PeerId)
      → Safe n z p s
      → Sets.contains peer s.authenticated ≡ true
      → (d : AuthenticatedDevice) × (Maps.lookup peer s.authenticated_devices ≡ some d)
        × (is_admitted s.allowed_users s.trusted_infrastructure_devices d ≡ true)
  device_of_peer s peer safe h =
      let (d, l) = Maps.lookup-some peer s.authenticated_devices (sym (safe.listed peer) ∙ h) in
      (d, l, safe.admitted peer d l)

  role_held :
      (role : NetworkRole) (key : Bytes) (named : Option HomeServerBinding)
      → check_role n q p event_codec message_codec chat_codec role key named ≡ ok tt
      → HoldsRole role key named
  role_held Cli.peer key named h = tt
  role_held home_server key none h = absurd cc
  role_held home_server key (some binding) h =
      (binding, refl, (eq_bytes_iff binding.server_public_key key).0 (ground (arith, h)))

  -- What a refresh promises: the events resolve, the node is what it claims to be, and every peer that
  -- it keeps has an entitled device.
  abbrev pub Admits : NetworkNode n z → Set → NetworkRole → Bytes → NetworkNode n z → Type 0
  Admits s explicit role key after =
      (resolution : ChatResolution) × (project n q p event_codec message_codec chat_codec
          s.sync.node []
        ≡ some (ok resolution))
      × HoldsRole role key resolution.snapshot.home_server
      × All
          (λ peer.
            (d : AuthenticatedDevice) × (Maps.lookup peer after.authenticated_devices ≡ some d)
            × IsEntitled p explicit resolution.snapshot d)
          after.authenticated

  -- With the resolution.
  resolved :
      (s : NetworkNode n z) (explicit : Set) (role : NetworkRole) (key : Bytes)
      (after : NetworkNode n z) (resolution : ChatResolution)
      → Safe n z p s
      → project n q p event_codec message_codec chat_codec s.sync.node [] ≡ some (ok resolution)
      → refresh_with n q p event_codec message_codec chat_codec s explicit role key
          (some (ok resolution))
        ≡ some (ok tt, after)
      → Admits s explicit role key after
  resolved s explicit role key after r safe e h =
      elim (Result-cases
        (check_role n q p event_codec message_codec chat_codec role key r.snapshot.home_server)) [
          | inl (f, bad) ↦ absurd (ground (arith, h, bad))
          | inr (u, fits) ↦
              elim (Result-cases (
                grants_of n q p event_codec message_codec chat_codec s.sync.node
                  r.snapshot.active_invitations)) [
                    | inl (f, bad) ↦ absurd (ground (arith, h, fits, bad))
                    | inr (grants, given) ↦
                        let (safe', a, t) =
                          replaced s (Sets.extend r.snapshot.members explicit)
                            (trusted_of p r.snapshot.home_server) grants after safe
                            (ground (arith, h, fits, given)) in
                        (
                          r,
                          e,
                          role_held role key r.snapshot.home_server fits,
                          contains-All
                              (λ peer.
                                (d : AuthenticatedDevice) × (Maps.lookup peer
                                    after.authenticated_devices
                                  ≡ some d)
                                × IsEntitled p explicit r.snapshot d)
                              after.authenticated
                              (λ peer c.
                                let (d, l, may) = device_of_peer after peer safe' c in
                                (
                                  d,
                                  l,
                                  entitled p explicit r.snapshot after.allowed_users
                                      after.trusted_infrastructure_devices d a t may,
                                )),
                        )
                  ]
        ]

  -- After a successful refresh in a safe state, the events of the node resolve; a node with the role of
  -- a home server has the key of the home server that the resolution names; and each authenticated
  -- peer has a device whose user is in the explicit list or a member of the resolution, or which is
  -- that of the named home server's key.
  pub refresh-Admits :
      (s : NetworkNode n z) (explicit : Set) (role : NetworkRole) (key : Bytes)
      (after : NetworkNode n z)
      → Safe n z p s
      → refresh_network_authorization n q p event_codec message_codec chat_codec s explicit role key
        ≡ some (ok tt, after)
      → Admits s explicit role key after
  unfolding refresh_network_authorization
  refresh-Admits s explicit role key after safe h =
      through (project n q p event_codec message_codec chat_codec s.sync.node []) refl h
    where
      through :
          (projection : Option
            (Result (Failure n q p event_codec message_codec chat_codec) ChatResolution))
          → project n q p event_codec message_codec chat_codec s.sync.node [] ≡ projection
          → refresh_with n q p event_codec message_codec chat_codec s explicit role key projection
            ≡ some (ok tt, after)
          → Admits s explicit role key after
      through none e h = absurd cc
      through (some (err f)) e h = absurd cc
      through (some (ok r)) e h = resolved s explicit role key after r safe e h
