-- ===== src/Chat/Invite.antt =====
-- crates/profile-chat/src/lib.rs: invitations. A capability is a key pair whose public key stands in a
-- signed invitation and whose seed travels in the invite package.
pub mod Admission
use chatcommons.Prelude.{
  ℕ, ◌*◌, ◌^◌, ◌==◌, Bool, true, false, not, ◌&&◌, Option, none, some, List, [], length, ltb,
  eq_option, Result, ok, err, ◌>>=◌, ◌>>◌, fail_if, ok_or, map_err,
}
use chatcommons.Prelude.Bytes.{Bytes, ℤ, eq_bytes, to_array, be_bytes, big_endian}
use chatcommons.Crypto.{Primitives, Identity, UserId, from_seed, public_key, sign, user_id}
use chatcommons.Protocol.{EventId, CommunityId, SignedEvent, Codec, validate_event}
use chatcommons.Chat.{
  ChatPayload, member_invite, member_accept, ChatError, protocol, decode, create_chat_event,
}
use chatcommons.Chat.Rules.{acceptance_bytes}

abbrev pub max_invite_package_bytes : ℕ
max_invite_package_bytes = 4 * 1024

abbrev pub invite_package_version : ℕ
invite_package_version = 1

pub data InviteError : Type 0 where
  too_large json unsupported_version invalid_secret invitation_mismatch : InviteError
  invalid_invitation_event : ChatError → InviteError

pub record InviteCapability : Type 0 where
  pub seed : ℕ

pub record InvitePackage : Type 0 where
  pub version : ℕ
  pub community : CommunityId
  pub invitation : EventId
  pub capability_secret : Bytes

-- `PreparedInvite`, and `ValidatedInvite` with the same fields.
pub record PreparedInvite : Type 0 where
  pub community : CommunityId
  pub invitation : EventId
  pub capability : InviteCapability

pub record ValidatedInvite : Type 0 where
  pub community : CommunityId
  pub invitation : EventId
  pub capability : InviteCapability

module _ (package_codec : Codec InvitePackage) where
  unfoldable pub encode_package :
      InviteCapability → CommunityId → EventId → Result InviteError Bytes
  encode_package capability community invitation =
      ok_or
        (package_codec.to_vec (record {
          version = invite_package_version;
          community = community;
          invitation = invitation;
          capability_secret = be_bytes 32 capability.seed;
        }))
        json

  unfoldable pub parse_invite_package : Bytes → Result InviteError InvitePackage
  parse_invite_package bytes = do
    fail_if (ltb max_invite_package_bytes (length bytes)) too_large
    ok_or (package_codec.from_slice bytes) json

unfoldable pub prepare : InvitePackage → Result InviteError PreparedInvite
prepare parcel = do
  fail_if (not (parcel.version == invite_package_version)) unsupported_version
  seed ← ok_or (to_array 32 parcel.capability_secret) invalid_secret
  ok (record {
    community = parcel.community;
    invitation = parcel.invitation;
    capability = record { seed = big_endian seed };
  })

module _ (p : Primitives) where
  abbrev pub capability_key : InviteCapability → Bytes
  capability_key capability = public_key p (from_seed p capability.seed)

  abbrev pub invitation_payload : InviteCapability → ChatPayload
  invitation_payload capability = member_invite (capability_key capability)

  abbrev pub sign_acceptance : InviteCapability → CommunityId → EventId → UserId → Bytes
  sign_acceptance capability community invitation invitee =
      sign p (from_seed p capability.seed) (acceptance_bytes community invitation invitee)

  abbrev pub sign_possession_proof : PreparedInvite → Bytes → Bytes
  sign_possession_proof invite proof_bytes = sign p (from_seed p invite.capability.seed) proof_bytes

  -- `matches!(payload, ChatPayload::MemberInvite { .. } if ..)`
  abbrev pub invites_capability : InviteCapability → ChatPayload → Bool
  invites_capability capability (member_invite key) = eq_bytes key (capability_key capability)
  invites_capability capability _ = false

  module _ (chat_codec : Codec ChatPayload) where
    unfoldable pub validate : PreparedInvite → SignedEvent → Result InviteError ValidatedInvite
    validate invite event = do
      map_err (λ e. invalid_invitation_event (protocol e)) (validate_event p event)
      payload ← map_err invalid_invitation_event (decode chat_codec event)
      fail_if
          (not (
            event.event_id == invite.invitation
            && eq_option event.community_id (some invite.community)
            && invites_capability invite.capability payload))
          invitation_mismatch
      ok (record {
        community = invite.community;
        invitation = invite.invitation;
        capability = invite.capability;
      })

    -- `ParsedInvitePackage::validate`
    unfoldable pub validate_package :
        InvitePackage → SignedEvent → Result InviteError ValidatedInvite
    validate_package parcel event = do prepared ← prepare parcel; validate prepared event

    unfoldable pub create_acceptance :
        ValidatedInvite → Identity → List EventId → ℤ → Result ChatError SignedEvent
    create_acceptance invite identity parents timestamp_ms =
        create_chat_event chat_codec p identity invite.community parents timestamp_ms (
          member_accept invite.invitation (
            sign_acceptance invite.capability invite.community invite.invitation
              (user_id p identity)))
