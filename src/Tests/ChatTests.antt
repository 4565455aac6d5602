-- ===== src/Tests/ChatTests.antt =====
-- The resolver at a small community: a genesis, a channel, and a message of a stranger.
use mathlib.Core.List.Perm
use chatcommons.Prelude.{◌≡◌, refl, ok, none, some, [], ◌∷◌, List, In, All, not, not}
use chatcommons.Prelude.Bytes.{be_bytes, eq_bytes, i64_bytes}
use chatcommons.Prelude.Sets
use chatcommons.Prelude.Maps
use chatcommons.Crypto.{user_id, verify}
use chatcommons.Protocol.{
  EventId, SignedEvent, create_genesis, create_signed, canonical_content, calculate_event_id,
  validate_event, validate_content, validate_proof, strictly_sorted, author_id, sort, dedup,
}
use chatcommons.Chat.{ChatResolution, event_type, decode, not_member}
use chatcommons.Chat.Rules.{require_admin, require_owner, validate_context, validate_payload, apply}
use chatcommons.Chat.Book.{enter, index}
use chatcommons.Chat.Resolver.{
  priority, ready, keyed, place_key, sort_keys, settle, process, batch, round, rounds, finish,
  resolve_book, resolve,
}
use chatcommons.Chat.Book.Sources.{IsCoherent, IsCoherent-of_Distinct}
use chatcommons.Chat.Resolver.Totality.{resolve_total}
use chatcommons.Chat.Resolver.Authority.{HasOffices, resolve-HasOffices}
use chatcommons.Chat.Resolver.Causality.{IsCausal, resolve-IsCausal}
use chatcommons.Chat.Resolver.Accounting.{resolve_judges_all}
use chatcommons.Chat.Resolver.Order.{resolve-perm}
use chatcommons.Tests.Toy.{toy, toy_codec, digest, alice, genesis, channel_event, intrusion}

abbrev events : List SignedEvent
events = intrusion ∷ channel_event ∷ genesis ∷ []

abbrev outcome : ChatResolution
outcome = record {
  accepted_in_order = genesis.event_id ∷ channel_event.event_id ∷ [];
  rejected = (intrusion.event_id, not_member) ∷ [];
  snapshot = record {
    community = some genesis.event_id;
    owner = some (user_id toy alice);
    members = user_id toy alice ∷ [];
    administrators = user_id toy alice ∷ [];
    channels = 5 ∷ [];
    active_invitations = [];
    home_server = none;
    event_ids = Sets.collect (genesis.event_id ∷ channel_event.event_id ∷ []);
  };
}

events-resolve : resolve toy toy_codec events ≡ some (ok outcome)
unfolding validate_event validate_content validate_proof strictly_sorted verify calculate_event_id
    author_id canonical_content create_genesis create_signed sort dedup digest be_bytes i64_bytes
    eq_bytes event_type decode require_admin require_owner validate_context validate_payload apply
    enter index priority ready keyed place_key sort_keys settle process batch round rounds finish
    resolve_book resolve Sets.contains Sets.insert Sets.remove Sets.extend Maps.lookup Maps.insert
    Maps.or_insert
events-resolve = refl

abbrev AllValid : List SignedEvent → Type 0
AllValid = All (λ e. validate_event toy e ≡ ok tt)

events_validate : AllValid events
unfolding validate_event validate_content validate_proof strictly_sorted verify calculate_event_id
    canonical_content create_genesis create_signed sort dedup digest be_bytes i64_bytes eq_bytes
events_validate = (refl, (refl, (refl, tt)))

-- The three identifiers differ.
ids_differ : Sets.Distinct (intrusion.event_id ∷ channel_event.event_id ∷ genesis.event_id ∷ [])
unfolding Sets.contains calculate_event_id canonical_content create_genesis create_signed sort dedup
    digest be_bytes i64_bytes
ids_differ = (refl, (refl, (refl, tt)))

events-IsCoherent : IsCoherent events
events-IsCoherent = IsCoherent-of_Distinct events ids_differ

resolve_total_example : (r : ChatResolution) × (resolve toy toy_codec events ≡ some (ok r))
resolve_total_example = resolve_total toy_codec toy events events_validate

resolve-HasOffices_example : HasOffices outcome.snapshot
resolve-HasOffices_example = resolve-HasOffices toy_codec toy events outcome events-resolve

resolve-IsCausal_example : IsCausal toy events [] (genesis.event_id ∷ channel_event.event_id ∷ [])
resolve-IsCausal_example = resolve-IsCausal toy_codec toy events outcome events-resolve

resolve_judges_all_example :
    ((e : SignedEvent)
      → In e events
      → Sets.contains e.event_id outcome.snapshot.event_ids
        ≡ not (Maps.contains_key e.event_id outcome.rejected))
    × ((j : EventId)
        → Sets.contains j outcome.accepted_in_order ≡ Sets.contains j outcome.snapshot.event_ids)
resolve_judges_all_example =
    resolve_judges_all toy_codec toy events outcome events-IsCoherent events-resolve

resolve-perm_example :
    resolve toy toy_codec (channel_event ∷ intrusion ∷ genesis ∷ []) ≡ some (ok outcome)
resolve-perm_example =
    resolve-perm toy_codec toy events (channel_event ∷ intrusion ∷ genesis ∷ []) outcome
      (Perm.swap channel_event intrusion (genesis ∷ [])) events-IsCoherent events-resolve
