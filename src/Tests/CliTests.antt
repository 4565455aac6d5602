-- ===== src/Tests/CliTests.antt =====
-- A phone that holds the genesis, when the tablet of the same user is connected.
use chatcommons.Prelude.{◌≡◌, refl, ok, some, true, List, [], ◌∷◌, ℕ, Result}
use chatcommons.Prelude.Bytes.{be_bytes, eq_bytes, i64_bytes}
use chatcommons.Prelude.Sets
use chatcommons.Prelude.Maps
use chatcommons.Crypto.{verify, user_id}
use chatcommons.Protocol.{
  SignedEvent, community_id, place, create_genesis, create_signed, canonical_content,
  calculate_event_id, validate_event, validate_content, validate_proof, strictly_sorted, sort,
  dedup, author_id,
}
use chatcommons.Chat.{event_type, decode}
use chatcommons.Chat.Rules.{require_admin, require_owner, validate_context, validate_payload, apply}
use chatcommons.Chat.Book.{enter, index}
use chatcommons.Chat.Resolver.{
  priority, ready, keyed, place_key, sort_keys, settle, process, batch, round, rounds, finish,
  resolve_book, resolve,
}
use chatcommons.Storage
use chatcommons.Node
use chatcommons.Node.{
  CoreNode, validate_all, choose_community, check_batch, collect_into, admit, admit_all, ingest,
}
use chatcommons.Sync.{chunks}
use chatcommons.Node.Reading
use chatcommons.Node.Reading.{all_events}
use chatcommons.Device.{
  create_device_certificate, validate_device_certificate, validate_version_and_lengths,
  certificate_bytes, contains,
}
use chatcommons.Network.{NetworkNode}
use chatcommons.Network.Authentication.{
  replace_authorization, not_admitted, drop_peers, authenticate, peer_id_from_certificate,
  validate_peer_certificate, maybe_start_sync,
}
use chatcommons.Network.Connections.{new, initial, handle_event, handle_behaviour, introduce}
use chatcommons.Network.Requests.{receive_request, handle_request}
use chatcommons.Network.Grants.{replace_bootstrap_grants, collect_grants}
use chatcommons.Network.Frames.{respond, check_frame, send}
use chatcommons.Network.Calls.{perform, start, step}
use chatcommons.Network.Safety.{Safe}
use chatcommons.Network.Safety.Reachable.{Reach-Safe}
use chatcommons.Cli.{CliError, peer}
use chatcommons.Cli.Commands.{project, grants_of, refresh_network_authorization}
use chatcommons.Cli.Importing.{
  set_count, pending_of, none_left, take_batch, count_parents, count_all, release, order,
  topological, ingest_batches, ingest_archive,
}
use chatcommons.Cli.Importing.Success.{IsImported, ingest_archive-IsImported}
use chatcommons.Cli.Authorization.{Admits, refresh-Admits}
use chatcommons.Tests.Toy.{toy, toy_codec, digest, alice, genesis, channel_event}
use chatcommons.Tests.ToyTable.{toy_sqlite}
use chatcommons.Tests.NodeTests.{event_codec, fresh, taken_in}
use chatcommons.Tests.SyncTests.{message_codec}
use chatcommons.Tests.PeerTests.{founded}
use chatcommons.Tests.NetworkTests.{
  toy_libp2p, toy_peer, peer_of, phone, tablet, phone_certificate, greeting,
}

abbrev home : NetworkNode toy_libp2p toy_peer
home =
    initial toy_libp2p toy_peer (peer_of phone.public_key) phone_certificate founded
      (user_id toy alice ∷ []) (record { entries = [] })

home_made :
    new toy_libp2p toy_peer toy
      (peer_of phone.public_key)
      phone_certificate
      founded
      (user_id toy alice ∷ [])
      (record { entries = [] })
    ≡ ok home
unfolding new peer_id_from_certificate validate_device_certificate validate_version_and_lengths
    verify create_device_certificate certificate_bytes be_bytes i64_bytes eq_bytes digest
home_made = refl

abbrev joined : NetworkNode toy_libp2p toy_peer
joined = perform toy_libp2p toy_peer toy home greeting

joined-Safe : Safe toy_libp2p toy_peer toy joined
joined-Safe = Reach-Safe toy_libp2p toy_peer toy joined (
    step
      (start (peer_of phone.public_key) phone_certificate founded (user_id toy alice ∷ [])
        (record { entries = [] }) home_made)
      greeting)

tablet_joined : Sets.contains (peer_of tablet.public_key) joined.authenticated ≡ true
unfolding perform handle_event handle_behaviour receive_request handle_request respond check_frame
    authenticate validate_peer_certificate peer_id_from_certificate validate_device_certificate
    validate_version_and_lengths verify create_device_certificate certificate_bytes be_bytes
    i64_bytes eq_bytes digest contains Sets.contains Sets.insert Maps.insert introduce send
    maybe_start_sync
tablet_joined = refl

-- Nobody is dropped: Alice is a member.
joined_refreshed :
    refresh_network_authorization toy_libp2p toy_sqlite toy event_codec message_codec toy_codec
      joined [] peer phone.public_key
    ≡ some (ok tt, joined)
unfolding perform handle_event handle_behaviour receive_request handle_request respond check_frame
    authenticate validate_peer_certificate peer_id_from_certificate validate_device_certificate
    validate_version_and_lengths verify create_device_certificate certificate_bytes be_bytes
    i64_bytes eq_bytes digest contains Sets.contains Sets.insert Maps.insert introduce send
    maybe_start_sync refresh_network_authorization project grants_of all_events Storage.events
    Storage.decode_rows Storage.decode_stored replace_authorization not_admitted drop_peers
    replace_bootstrap_grants collect_grants validate_event validate_content validate_proof
    strictly_sorted calculate_event_id author_id canonical_content create_genesis create_signed sort
    dedup event_type decode require_admin require_owner validate_context validate_payload apply
    enter index priority ready keyed place_key sort_keys settle process batch round rounds finish
    resolve_book resolve Sets.remove Sets.extend Maps.lookup Maps.or_insert Reading.events
    Storage.get
joined_refreshed = refl

refresh-Admits_example :
    Admits toy_libp2p toy_sqlite toy event_codec message_codec toy_codec joined [] peer
      phone.public_key joined
refresh-Admits_example =
    refresh-Admits toy_libp2p toy_sqlite toy event_codec message_codec toy_codec joined [] peer
      phone.public_key joined joined-Safe joined_refreshed

-- An archive with the channel before the genesis.
abbrev archived : List SignedEvent
archived = channel_event ∷ genesis ∷ []

archive_ingested :
    ingest_archive toy_sqlite toy_peer toy event_codec fresh archived ≡ some (ok (2, 0), taken_in)
unfolding validate_event validate_content validate_proof strictly_sorted verify calculate_event_id
    canonical_content create_genesis create_signed sort dedup place digest be_bytes i64_bytes
    eq_bytes community_id Storage.insert validate_all choose_community check_batch collect_into
    Node.ready admit admit_all Node.rounds ingest Sets.contains Sets.insert Maps.lookup Maps.insert
    Maps.remove chunks set_count pending_of none_left take_batch count_parents count_all release
    order topological ingest_batches ingest_archive
archive_ingested = refl

ingest_archive-IsImported_example :
    (out : Result (CliError toy_sqlite toy_peer) (ℕ × ℕ) × CoreNode toy_sqlite) × (ingest_archive
        toy_sqlite toy_peer toy event_codec fresh archived
      ≡ some out)
    × IsImported toy_sqlite toy_peer toy event_codec fresh.known archived out
ingest_archive-IsImported_example =
    ingest_archive-IsImported toy_sqlite toy_peer toy event_codec fresh archived
