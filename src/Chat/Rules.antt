-- ===== src/Chat/Rules.antt =====
-- crates/profile-chat/src/lib.rs: which event a state admits, and what an admitted event does.
pub mod Authority
pub mod Membership
pub mod Redemption
use chatcommons.Prelude.{
  ℕ, ◌<◌, ◌≡◌, Bool, true, false, not, ◌&&◌, ◌||◌, Option, none, some, List, [], ◌∷◌, ◌++◌, length,
  is_empty, is_none, all, any, ◌==◌, ltb, leb, eq_option, if◌then◌else◌, Result, ok, err, ◌>>=◌,
  ◌>>◌, fail_if, ok_or, map_err,
}
use chatcommons.Prelude.Bytes.{Bytes, codes, be_bytes, eq_bytes}
use chatcommons.Prelude.Sets
use chatcommons.Prelude.Sets.{Set}
use chatcommons.Prelude.Maps
use chatcommons.Crypto.{Primitives, UserId, public_key_len, signature_len, verify}
use chatcommons.Protocol.{EventId, CommunityId, SignedEvent}
use chatcommons.Chat.{
  ChatPayload, community_create, channel_create, member_invite, member_accept, member_remove,
  message_create, administrator_grant, administrator_revoke, ownership_transfer, home_server_set,
  RejectionReason, parent_rejected, wrong_community, not_member, not_administrator, not_owner,
  invalid_invitation, member_not_active, already_administrator, cannot_remove_owner,
  unknown_channel, invalid_home_server, State, HomeServerBinding, home_server_id,
  max_home_server_endpoints, max_home_server_endpoint_bytes,
}

abbrev pub Verdict : Type 0
Verdict = Result RejectionReason (Unit {0})

unfoldable pub require_admin : State → UserId → Verdict
require_admin s author = fail_if (not (Sets.contains author s.administrators)) not_administrator

unfoldable pub require_owner : State → UserId → Verdict
require_owner s author = fail_if (not (eq_option s.owner (some author))) not_owner

-- `is_ascii_whitespace` and `is_ascii_control`
abbrev is_blank : ℕ → Bool
is_blank byte =
    byte == 0x20
    || byte == 0x09
    || byte == 0x0a
    || byte == 0x0c
    || byte == 0x0d
    || ltb byte 0x20
    || byte == 0x7f

abbrev pub is_bad_endpoint : Bytes → Bool
is_bad_endpoint endpoint =
    is_empty endpoint
    || ltb max_home_server_endpoint_bytes (length endpoint)
    || not (all (λ byte. ltb byte 128) endpoint)
    || any is_blank endpoint

-- The loop over the endpoints, with those that it has seen in `unique`.
unfoldable pub check_endpoints : List Bytes → List Bytes → Verdict
check_endpoints unique [] = ok tt
check_endpoints unique (endpoint ∷ rest) =
    let later = check_endpoints (endpoint ∷ unique) rest in
    if is_bad_endpoint endpoint || any (eq_bytes endpoint) unique
    then err invalid_home_server
    else later

unfoldable pub validate_home_server : Bytes → List Bytes → Verdict
validate_home_server key endpoints = do
  fail_if
      (not (length key == public_key_len)
        || is_empty endpoints
        || ltb max_home_server_endpoints (length endpoints))
      invalid_home_server
  check_endpoints [] endpoints

abbrev pub acceptance_domain : Bytes
acceptance_domain = codes "chatcommons:invite-acceptance:v1" ++ 0 ∷ []

unfoldable pub acceptance_bytes : CommunityId → EventId → UserId → Bytes
acceptance_bytes community invitation invitee =
    acceptance_domain ++ (be_bytes 32 community ++ (be_bytes 32 invitation ++ be_bytes 32 invitee))

abbrev pub is_create : ChatPayload → Bool
is_create (community_create profile name) = true
is_create _ = false

module _ (p : Primitives) where
  -- The last `match` of `validate_context`.
  unfoldable pub validate_payload : State → SignedEvent → ChatPayload → UserId → Verdict
  unfolding require_admin require_owner
  validate_payload s event (community_create profile name) author = ok tt
  validate_payload s event (channel_create channel name) author = require_admin s author
  validate_payload s event (member_invite key) author = do
    require_admin s author
    fail_if (not (length key == public_key_len)) invalid_invitation
  validate_payload s event (member_accept invitation signature) author = do
    key ← ok_or (Maps.lookup invitation s.invitations) invalid_invitation
    fail_if
        (Sets.contains invitation s.accepted_invitations || not (length signature == signature_len))
        invalid_invitation
    community ← ok_or event.community_id wrong_community
    map_err (λ _. invalid_invitation)
        (verify p key (acceptance_bytes community invitation author) signature)
  validate_payload s event (member_remove member) author = do
    require_admin s author
    fail_if (eq_option s.owner (some member)) cannot_remove_owner
    fail_if (not (Sets.contains member s.members)) member_not_active
  validate_payload s event (message_create channel text) author = do
    fail_if (not (Sets.contains author s.members)) not_member
    fail_if (not (Sets.contains channel s.channels)) unknown_channel
  validate_payload s event (administrator_grant member) author = do
    require_owner s author
    fail_if (not (Sets.contains member s.members)) member_not_active
    fail_if (Sets.contains member s.administrators) already_administrator
  validate_payload s event (administrator_revoke member) author = do
    require_owner s author
    fail_if (eq_option s.owner (some member)) cannot_remove_owner
    fail_if (not (Sets.contains member s.administrators)) not_administrator
  validate_payload s event (ownership_transfer new_owner) author = do
    require_owner s author
    fail_if (not (Sets.contains new_owner s.members)) member_not_active
  validate_payload s event (home_server_set key endpoints) author = do
    require_owner s author
    validate_home_server key endpoints

  unfoldable pub validate_context : State → SignedEvent → ChatPayload → UserId → Set → Verdict
  validate_context s event payload author accepted =
      if is_create payload then fail_if (not (is_none s.community)) wrong_community else do
        fail_if (not (eq_option event.community_id s.community)) wrong_community
        fail_if (any (λ parent. not (Sets.contains parent accepted)) event.parents) parent_rejected
        validate_payload s event payload author

  unfoldable pub apply : State → SignedEvent → ChatPayload → UserId → State
  apply s event (community_create profile name) author = record s {
    community = some event.event_id;
    owner = some author;
    members = Sets.insert author s.members;
    administrators = Sets.insert author s.administrators;
  }
  apply s event (channel_create channel name) author = record s {
    channels = Sets.insert channel s.channels;
  }
  apply s event (member_invite key) author = record s {
    invitations = Maps.insert event.event_id key s.invitations;
  }
  apply s event (member_accept invitation signature) author = record s {
    accepted_invitations = Sets.insert invitation s.accepted_invitations;
    members = Sets.insert author s.members;
  }
  apply s event (member_remove member) author = record s {
    members = Sets.remove member s.members;
    administrators = Sets.remove member s.administrators;
  }
  apply s event (message_create channel text) author = s
  apply s event (administrator_grant member) author = record s {
    administrators = Sets.insert member s.administrators;
  }
  apply s event (administrator_revoke member) author = record s {
    administrators = Sets.remove member s.administrators;
  }
  apply s event (ownership_transfer new_owner) author = record s {
    owner = some new_owner;
    administrators = Sets.insert new_owner s.administrators;
  }
  apply s event (home_server_set key endpoints) author =
      if length key == public_key_len
      then record s {
        home_server = some (record {
          declaration = event.event_id;
          server_id = home_server_id p key;
          server_public_key = key;
          endpoints = endpoints;
          history_heads = event.parents;
        });
      }
      else s
