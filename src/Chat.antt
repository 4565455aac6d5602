-- ===== src/Chat.antt =====
-- crates/profile-chat/src/lib.rs: payloads, state and their codec. The rules, the resolver and the
-- invitations are in the modules below. Channel identifiers are 32-byte arrays, so numbers; text and
-- endpoints are lists of UTF-8 bytes.
pub mod Rules
pub mod Book
pub mod Resolver
pub mod Invite
use chatcommons.Prelude.{
  ℕ, Bool, true, false, not, ◌++◌, Option, none, some, List, [], ◌∷◌, Result, ok, err, ◌>>=◌, ◌>>◌,
  fail_if, ok_or, if◌then◌else◌,
}
use chatcommons.Prelude.Bytes.{Bytes, ℤ, codes, eq_bytes}
use chatcommons.Prelude.Sets.{Set}
use chatcommons.Prelude.Maps.{Map}
use chatcommons.Crypto.{Primitives, UserId, Identity}
use chatcommons.Protocol.{
  EventId, CommunityId, SignedEvent, Codec, ProtocolError, protocol_version, create_signed,
  create_genesis,
}

abbrev pub profile_id : Bytes
profile_id = codes "chatcommons.chat.v2"

abbrev pub genesis_type : Bytes
genesis_type = codes "chat.community.create"

abbrev pub max_home_server_endpoints : ℕ
max_home_server_endpoints = 8

abbrev pub max_home_server_endpoint_bytes : ℕ
max_home_server_endpoint_bytes = 512

abbrev pub ChannelId : Type 0
ChannelId = ℕ

abbrev pub HomeServerId : Type 0
HomeServerId = ℕ

pub record HomeServerBinding : Type 0 where
  pub declaration : EventId
  pub server_id : HomeServerId
  pub server_public_key : Bytes
  pub endpoints : List Bytes
  pub history_heads : List EventId

pub data ChatPayload : Type 0 where
  -- profile and name
  community_create : Bytes → Bytes → ChatPayload
  -- channel and name
  channel_create : ChannelId → Bytes → ChatPayload
  -- the capability's public key
  member_invite : Bytes → ChatPayload
  -- invitation and capability signature
  member_accept : EventId → Bytes → ChatPayload
  member_remove : UserId → ChatPayload
  -- channel and text
  message_create : ChannelId → Bytes → ChatPayload
  administrator_grant : UserId → ChatPayload
  administrator_revoke : UserId → ChatPayload
  ownership_transfer : UserId → ChatPayload
  -- server public key and endpoints
  home_server_set : Bytes → List Bytes → ChatPayload

unfoldable pub event_type : ChatPayload → Bytes
event_type (community_create profile name) = genesis_type
event_type (channel_create channel name) = codes "chat.channel.create"
event_type (member_invite key) = codes "chat.member.invite"
event_type (member_accept invitation signature) = codes "chat.member.accept"
event_type (member_remove member) = codes "chat.member.remove"
event_type (message_create channel text) = codes "chat.message.create"
event_type (administrator_grant member) = codes "chat.admin.grant"
event_type (administrator_revoke member) = codes "chat.admin.revoke"
event_type (ownership_transfer owner) = codes "chat.ownership.transfer"
event_type (home_server_set key endpoints) = codes "chat.home-server.set"

pub data ChatError : Type 0 where
  protocol : ProtocolError → ChatError
  payload : ChatError
  type_mismatch : ChatError

pub data RejectionReason : Type 0 where
  invalid_payload missing_parent parent_rejected wrong_community not_member : RejectionReason
  not_administrator not_owner invalid_invitation member_not_active : RejectionReason
  already_administrator cannot_remove_owner unknown_channel invalid_home_server : RejectionReason

pub record State : Type 0 where
  pub community : Option CommunityId
  pub owner : Option UserId
  pub members : Set
  pub administrators : Set
  pub channels : Set
  pub invitations : Map Bytes
  pub accepted_invitations : Set
  pub home_server : Option HomeServerBinding

-- `State::default()`
abbrev pub initial : State
initial = record {
  community = none;
  owner = none;
  members = [];
  administrators = [];
  channels = [];
  invitations = [];
  accepted_invitations = [];
  home_server = none;
}

pub record ChatSnapshot : Type 0 where
  pub community : Option CommunityId
  pub owner : Option UserId
  pub members : Set
  pub administrators : Set
  pub channels : Set
  pub active_invitations : Map Bytes
  pub home_server : Option HomeServerBinding
  pub event_ids : Set

pub record ChatResolution : Type 0 where
  pub accepted_in_order : List EventId
  pub rejected : Map RejectionReason
  pub snapshot : ChatSnapshot

abbrev pub home_server_domain : Bytes
home_server_domain = codes "chatcommons:home-server-id:v1" ++ 0 ∷ []

abbrev pub home_server_id : Primitives → Bytes → HomeServerId
home_server_id p key = p.blake3 (home_server_domain ++ key)

-- Whether a decoded genesis payload names another profile.
abbrev pub is_foreign_profile : ChatPayload → Bool
is_foreign_profile (community_create profile name) = not (eq_bytes profile profile_id)
is_foreign_profile _ = false

-- The JSON form of payloads is a parameter.
module _ (chat_codec : Codec ChatPayload) where
  unfoldable pub decode : SignedEvent → Result ChatError ChatPayload
  unfolding event_type
  decode event = do
    decoded ← ok_or (chat_codec.from_slice event.content.payload) payload
    fail_if (not (eq_bytes (event_type decoded) event.content.event_type)) type_mismatch
    fail_if (is_foreign_profile decoded) type_mismatch
    ok decoded

  module _ (p : Primitives) where
    unfoldable pub create_chat_genesis : Identity → Bytes → ℤ → Result ChatError SignedEvent
    create_chat_genesis identity name timestamp_ms = do
      bytes ← ok_or (chat_codec.to_vec (community_create profile_id name)) payload
      ok (create_genesis p identity genesis_type bytes timestamp_ms)

    unfoldable pub create_chat_event :
        Identity → CommunityId → List EventId → ℤ → ChatPayload → Result ChatError SignedEvent
    unfolding event_type
    create_chat_event identity community parents timestamp_ms chat = do
      bytes ← ok_or (chat_codec.to_vec chat) payload
      ok (
          create_signed p
            (record {
              protocol_version = protocol_version;
              community_id = some community;
              parents = parents;
              timestamp_ms = timestamp_ms;
              event_type = event_type chat;
              payload = bytes;
            })
            identity)
