-- ===== src/Cli/Commands.antt =====
-- crates/cli/src/main.rs: the projection of a node, who may synchronize, and the decision on an
-- acceptance.
use chatcommons.Prelude.{
  Bool, true, false, not, ◌&&◌, Option, none, some, List, [], ◌∷◌, ◌++◌, is_empty, Result, ok, err,
  ◌>>=◌, ◌>>◌, fail_if, map_err,
}
use chatcommons.Prelude.Bytes.{Bytes, eq_bytes}
use chatcommons.Prelude.Sets
use chatcommons.Prelude.Sets.{Set}
use chatcommons.Prelude.Maps
use chatcommons.Prelude.Maps.{Map}
use chatcommons.Crypto.{Primitives, UserId}
use chatcommons.Protocol.{EventId, CommunityId, SignedEvent, Codec}
use chatcommons.Chat.{ChatPayload, ChatError, ChatResolution, ChatSnapshot, HomeServerBinding}
use chatcommons.Chat.Resolver.{resolve}
use chatcommons.Device.{device_id_of}
use chatcommons.Storage
use chatcommons.Storage.{Sqlite, EventStore, StorageError}
use chatcommons.Node.{CoreNode, NodeError, IngestReport, open_node, ingest}
use chatcommons.Node.Reading.{all_events, ancestry}
use chatcommons.Sync.{SyncMessage}
use chatcommons.Network.{
  Libp2p, Synchronizer, NetworkNode, BootstrapGrant, PeerId, max_bootstrap_ancestry_events,
}
use chatcommons.Network.Frames.{Outcome}
use chatcommons.Network.Authentication.{replace_authorization}
use chatcommons.Network.Grants.{replace_bootstrap_grants}
use chatcommons.Network.Responses.{resolve_bootstrap_acceptance}
use chatcommons.Network.Synchronizing.{sync_peer}
use chatcommons.Cli.{
  NetworkRole, peer, home_server, CliError, storage, node, chat, network, wrong_database_community,
  profile_rejected, missing_home_server, wrong_home_server_identity,
}

-- The devices that a profile trusts: that of its home server.
abbrev pub trusted_of : Primitives → Option HomeServerBinding → Set
trusted_of p none = []
trusted_of p (some binding) = device_id_of p binding.server_public_key ∷ []

-- The conditions on an acceptance and the user who gave it.
abbrev pub approves : ChatSnapshot → SignedEvent → UserId → EventId → Bool
approves snapshot acceptance user invitation =
    Sets.contains acceptance.event_id snapshot.event_ids
    && Sets.contains user snapshot.members
    && not (Maps.contains_key invitation snapshot.active_invitations)

module _ (n : Libp2p) (q : Sqlite) (p : Primitives) (event_codec : Codec SignedEvent)
    (message_codec : Codec SyncMessage) (chat_codec : Codec ChatPayload) where
  -- The synchronizer of the command line: `SyncPeer`.
  abbrev pub peers : Synchronizer
  peers = sync_peer q p event_codec message_codec

  abbrev pub Failure : Type 0
  Failure = CliError q peers

  -- The store is opened by the caller.
  unfoldable pub open_community : EventStore q → CommunityId → Result Failure (CoreNode q)
  open_community store community = do
    events ← map_err storage (Storage.events q p event_codec store community)
    fail_if (is_empty events) wrong_database_community
    map_err node (open_node q p event_codec store (some community))

  -- `resolve(...)?`
  abbrev pub projected :
      Option (Result ChatError ChatResolution) → Option (Result Failure ChatResolution)
  projected none = none
  projected (some result) = some (map_err chat result)

  -- `resolve` of all events of a node, with some more.
  abbrev pub resolve_with :
      List SignedEvent
      → Result (NodeError q) (List SignedEvent)
      → Option (Result Failure ChatResolution)
  resolve_with more (err e) = some (err (node e))
  resolve_with more (ok events) = projected (resolve p chat_codec (events ++ more))

  unfoldable pub project : CoreNode q → List SignedEvent → Option (Result Failure ChatResolution)
  project core more = resolve_with more (all_events q p event_codec core)

  abbrev pub accepts :
      SignedEvent → Option (Result Failure ChatResolution) → Option (Result Failure (Unit {0}))
  accepts candidate none = none
  accepts candidate (some (err e)) = some (err e)
  accepts candidate (some (ok resolution)) = some (
      fail_if (not (Sets.contains candidate.event_id resolution.snapshot.event_ids))
        profile_rejected)

  unfoldable pub require_candidate_accepted :
      CoreNode q → SignedEvent → Option (Result Failure (Unit {0}))
  require_candidate_accepted core candidate = accepts candidate (project core (candidate ∷ []))

  -- `?` on a report.
  abbrev pub taken :
      Option (Result (NodeError q) IngestReport × CoreNode q)
      → Option (Result Failure (Unit {0}) × CoreNode q)
  taken none = none
  taken (some (err e, core)) = some (err (node e), core)
  taken (some (ok report, core)) = some (ok tt, core)

  abbrev pub submitted :
      SignedEvent
      → CoreNode q
      → Option (Result Failure (Unit {0}))
      → Option (Result Failure (Unit {0}) × CoreNode q)
  submitted event core none = none
  submitted event core (some (err e)) = some (err e, core)
  submitted event core (some (ok _)) = taken (ingest q p event_codec core (event ∷ []))

  -- `require_candidate_accepted` and `ingest` of the commands that create an event.
  unfoldable pub submit : CoreNode q → SignedEvent → Option (Result Failure (Unit {0}) × CoreNode q)
  submit core event = submitted event core (require_candidate_accepted core event)

  -- The loop over the active invitations.
  unfoldable pub grants_of : CoreNode q → Map Bytes → Result Failure (List BootstrapGrant)
  grants_of core [] = ok []
  grants_of core ((invitation, key) ∷ rest) = do
    events ← map_err node (ancestry q p event_codec core invitation max_bootstrap_ancestry_events)
    grants ← grants_of core rest
    ok (record { invitation = invitation; capability_public_key = key; ancestry = events } ∷ grants)

  -- A home server has to be the one that the profile names.
  abbrev pub check_role : NetworkRole → Bytes → Option HomeServerBinding → Result Failure (Unit {0})
  check_role peer key binding = ok tt
  check_role home_server key none = err missing_home_server
  check_role home_server key (some binding) =
      fail_if (not (eq_bytes binding.server_public_key key)) wrong_home_server_identity

  abbrev pub Refreshed : Type 0
  Refreshed = Result Failure (Unit {0}) × NetworkNode n peers

  -- `?` on what the network node returns.
  abbrev pub of_network : Outcome n peers (Unit {0}) → Refreshed
  of_network (err e, s) = (err (network e), s)
  of_network (ok _, s) = (ok tt, s)

  -- With the checked role and the grants.
  abbrev pub authorize :
      NetworkNode n peers → Set → Set → Result Failure (List BootstrapGrant) → Refreshed
  authorize s allowed trusted (err e) = (err e, s)
  authorize s allowed trusted (ok grants) =
      of_network (
        replace_bootstrap_grants n peers p (replace_authorization n peers s allowed trusted) grants)

  abbrev pub refresh_with :
      NetworkNode n peers
      → Set
      → NetworkRole
      → Bytes
      → Option (Result Failure ChatResolution)
      → Option Refreshed
  refresh_with s explicit role key none = none
  refresh_with s explicit role key (some (err e)) = some (err e, s)
  refresh_with s explicit role key (some (ok profile)) = some (
      authorize s (Sets.extend profile.snapshot.members explicit)
        (trusted_of p profile.snapshot.home_server)
        (check_role role key profile.snapshot.home_server
          >> grants_of s.sync.node profile.snapshot.active_invitations))

  unfoldable pub refresh_network_authorization :
      NetworkNode n peers → Set → NetworkRole → Bytes → Option Refreshed
  refresh_network_authorization s explicit role key =
      refresh_with s explicit role key (project s.sync.node [])

  -- After the acceptance of an approved invitee is taken in.
  abbrev pub decided :
      NetworkNode n peers
      → PeerId
      → Option (Result (NodeError q) IngestReport × CoreNode q)
      → Option Refreshed
  decided s id none = none
  decided s id (some (err e, core)) =
      some (err (node e), record s { sync = record s.sync { node = core } })
  decided s id (some (ok report, core)) = some (
      of_network (
        resolve_bootstrap_acceptance n peers (record s { sync = record s.sync { node = core } }) id
          true))

  abbrev pub decide_with :
      NetworkNode n peers
      → PeerId
      → UserId
      → EventId
      → SignedEvent
      → Option (Result Failure ChatResolution)
      → Option Refreshed
  decide_with s id user invitation acceptance none = none
  decide_with s id user invitation acceptance (some (err e)) = some (err e, s)
  decide_with s id user invitation acceptance (some (ok resolution)) =
      elim (approves resolution.snapshot acceptance user invitation) [
        | true ↦ decided s id (ingest q p event_codec s.sync.node (acceptance ∷ []))
        | false ↦ some (of_network (resolve_bootstrap_acceptance n peers s id false))
      ]

  -- What `command_network` does with the event `BootstrapAcceptance`.
  unfoldable pub decide_acceptance :
      NetworkNode n peers → PeerId → UserId → EventId → SignedEvent → Option Refreshed
  decide_acceptance s id user invitation acceptance =
      decide_with s id user invitation acceptance (project s.sync.node (acceptance ∷ []))
