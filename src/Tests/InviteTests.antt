-- ===== src/Tests/InviteTests.antt =====
-- Bob redeems an invitation of Alice's.
use chatcommons.Prelude.{
  ◌≡◌, refl, ok, none, some, Option, [], ◌∷◌, arith, any, not, true, false, ap, zero, suc,
}
use chatcommons.Prelude.Bytes.{Bytes, be_bytes, eq_bytes, i64_bytes, codes, pos}
use chatcommons.Prelude.Sets
use chatcommons.Prelude.Maps
use chatcommons.Crypto.{user_id, verify}
use chatcommons.Protocol.{
  SignedEvent, Codec, RoundTrips, create_signed, canonical_content, calculate_event_id,
  validate_event, validate_content, validate_proof, strictly_sorted, sort, dedup, place, author_id,
}
use chatcommons.Chat.{
  ChatPayload, member_invite, member_accept, State, initial, event_type, decode, create_chat_event,
}
use chatcommons.Chat.Rules.{validate_context, apply}
use chatcommons.Chat.Invite.{
  InviteCapability, InvitePackage, PreparedInvite, ValidatedInvite, capability_key, sign_acceptance,
  validate, create_acceptance,
}
use chatcommons.Chat.Invite.Admission.{IsOpen, create_acceptance_admits}
use chatcommons.Tests.Toy.{toy, toy-Documented, digest, alice, bob}
use chatcommons.Tests.ToyJson
use chatcommons.Tests.ToyJson.{Format, codec, codec-RoundTrips}

abbrev package_format : Format InvitePackage
package_format =
    ToyJson.via
      (ToyJson.pair ToyJson.number
        (ToyJson.pair ToyJson.number (ToyJson.pair ToyJson.number (ToyJson.many ToyJson.number))))
      (λ (v, (c, (i, s))). record {
        version = v;
        community = c;
        invitation = i;
        capability_secret = s;
      })
      (λ x. (x.version, (x.community, (x.invitation, x.capability_secret)))) (λ x. refl)

abbrev capability : InviteCapability
capability = record { seed = 21 }

-- Invitations and acceptances alone are written.
abbrev write : ChatPayload → Option Bytes
write (member_invite key) = some (0 ∷ key)
write (member_accept invitation signature) = some (1 ∷ invitation ∷ signature)
write _ = none

abbrev read : Bytes → Option ChatPayload
read (zero ∷ key) = some (member_invite key)
read (suc _ ∷ invitation ∷ signature) = some (member_accept invitation signature)
read _ = none

abbrev club_codec : Codec ChatPayload
club_codec = record { to_vec = write; from_slice = read }

club_codec-RoundTrips : RoundTrips club_codec
club_codec-RoundTrips (member_invite key) bytes h = ap read (some_bytes (0 ∷ key) bytes h)
  where
    some_bytes : (a b : Bytes) → some a ≡ some b → b ≡ a
    some_bytes a b h = cc
club_codec-RoundTrips (member_accept invitation signature) bytes h =
    ap read (some_bytes (1 ∷ invitation ∷ signature) bytes h)
  where
    some_bytes : (a b : Bytes) → some a ≡ some b → b ≡ a
    some_bytes a b h = cc
club_codec-RoundTrips _ bytes h = absurd (ground arith)

abbrev invitation_event : SignedEvent
invitation_event =
    create_signed toy
      (record {
        protocol_version = 2;
        community_id = some 5;
        parents = 5 ∷ [];
        timestamp_ms = pos 10;
        event_type = codes "chat.member.invite";
        payload = 0 ∷ capability_key toy capability;
      })
      alice

abbrev prepared : PreparedInvite
prepared = record { community = 5; invitation = invitation_event.event_id; capability = capability }

abbrev validated : ValidatedInvite
validated = record {
  community = 5;
  invitation = invitation_event.event_id;
  capability = capability;
}

prepared_validates : validate toy club_codec prepared invitation_event ≡ ok validated
unfolding validate decode event_type validate_event validate_content validate_proof strictly_sorted
    verify calculate_event_id canonical_content create_signed sort dedup place digest be_bytes
    i64_bytes eq_bytes
prepared_validates = refl

abbrev acceptance : SignedEvent
acceptance =
    create_signed toy
      (record {
        protocol_version = 2;
        community_id = some 5;
        parents = 5 ∷ [];
        timestamp_ms = pos 20;
        event_type = codes "chat.member.accept";
        payload =
            1
            ∷ invitation_event.event_id
            ∷ sign_acceptance toy capability 5 invitation_event.event_id (user_id toy bob);
      })
      bob

acceptance_created :
    create_acceptance toy club_codec validated bob (5 ∷ []) (pos 20) ≡ ok acceptance
unfolding create_acceptance create_chat_event event_type
acceptance_created = refl

abbrev club : State
club = record initial {
  community = some 5;
  invitations = (invitation_event.event_id, capability_key toy capability) ∷ [];
}

club-IsOpen : IsOpen toy toy-Documented club_codec club invitation_event
unfolding decode event_type create_signed eq_bytes sort dedup place Maps.lookup Sets.contains
    calculate_event_id digest canonical_content be_bytes i64_bytes
club-IsOpen = record { issued = λ key h. cc; unused = refl; addressed = refl }

parents_accepted : any (λ parent. not (Sets.contains parent (5 ∷ []))) acceptance.parents ≡ false
unfolding create_signed sort dedup place Sets.contains
parents_accepted = refl

create_acceptance_admits_example :
    (chat : ChatPayload) × (decode club_codec acceptance ≡ ok chat)
    × (author_id toy acceptance ≡ ok (user_id toy bob))
    × (validate_context toy club acceptance chat (user_id toy bob) (5 ∷ []) ≡ ok tt)
    × (Sets.contains (user_id toy bob) (apply toy club acceptance chat (user_id toy bob)).members
        ≡ true)
create_acceptance_admits_example =
    create_acceptance_admits toy toy-Documented club_codec prepared invitation_event validated bob
      (5 ∷ []) (pos 20) acceptance club (5 ∷ []) club_codec-RoundTrips prepared_validates
      acceptance_created club-IsOpen parents_accepted
