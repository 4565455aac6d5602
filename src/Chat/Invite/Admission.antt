-- ===== src/Chat/Invite/Admission.antt =====
-- From the invite package to the admitted member, in crates/profile-chat/src/lib.rs.
use chatcommons.Prelude.{
  ◌≤◌, ◌<◌, ◌≡◌, ◌^◌, refl, true, false, not, some, List, ok, Result, ◌>>=◌, >>=-eq-ok, ok_or, any,
  length, ltb, arith, ap, sym, ◌∙◌, subst, eq_option_iff, Result-cases, inl, inr,
}
use chatcommons.Prelude.Bytes.{
  Bytes, ℤ, be_bytes, length-be_bytes, big_endian-be_bytes, eq_bytes_iff,
}
use chatcommons.Prelude.Sets
use chatcommons.Prelude.Sets.{Set, contains-insert}
use chatcommons.Prelude.Maps
use chatcommons.Crypto.{Primitives, Documented, Identity, user_id, verify}
use chatcommons.Protocol.{
  EventId, CommunityId, SignedEvent, Codec, RoundTrips, validate_event, create_signed, author_id,
}
use chatcommons.Chat.{
  ChatPayload, member_invite, member_accept, ChatError, payload, State, event_type, decode,
  create_chat_event,
}
use chatcommons.Chat.Rules.{acceptance_bytes, validate_payload, validate_context, apply}
use chatcommons.Chat.Invite.{
  InviteCapability, InvitePackage, PreparedInvite, ValidatedInvite, max_invite_package_bytes,
  capability_key, sign_acceptance, encode_package, parse_invite_package, prepare, validate,
  create_acceptance,
}

-- If JSON is read back as written, a package within the size limit that a capability with a seed of 32
-- bytes wrote is parsed and prepared to the same community, invitation and capability.
pub package_restores :
    (package_codec : Codec InvitePackage) (capability : InviteCapability) (community : CommunityId)
    (invitation : EventId) (bytes : Bytes)
    → RoundTrips package_codec
    → capability.seed < 256 ^ 32
    → length bytes ≤ max_invite_package_bytes
    → encode_package package_codec capability community invitation ≡ ok bytes
    → (parse_invite_package package_codec bytes >>= prepare)
      ≡ ok (record { community = community; invitation = invitation; capability = capability })
unfolding encode_package parse_invite_package prepare
package_restores package_codec capability community invitation bytes faithful seed fits h =
    let parcel : InvitePackage = record {
      version = 1;
      community = community;
      invitation = invitation;
      capability_secret = be_bytes 32 capability.seed;
    } in
    let written : package_codec.to_vec parcel ≡ some bytes = ground arith in
    let small : ltb max_invite_package_bytes (length bytes) ≡ false = ground arith in
    ground (
      arith,
      small,
      faithful parcel bytes written,
      length-be_bytes 32 capability.seed,
      big_endian-be_bytes 32 capability.seed seed,
    )

module _ (p : Primitives) (documented : Documented p) (chat_codec : Codec ChatPayload) where
  -- What `validate` has seen of the invitation event.
  record Matches (invite : PreparedInvite) (event : SignedEvent) (v : ValidatedInvite)
      : Type 0 where
    valid : validate_event p event ≡ ok tt
    invites : decode chat_codec event ≡ ok (member_invite (capability_key p invite.capability))
    named : event.event_id ≡ invite.invitation
    attributed : event.community_id ≡ some invite.community
    carried : v ≡ record {
      community = invite.community;
      invitation = invite.invitation;
      capability = invite.capability;
    }

  validate-Matches :
      (invite : PreparedInvite) (event : SignedEvent) (v : ValidatedInvite)
      → validate p chat_codec invite event ≡ ok v
      → Matches invite event v
  unfolding validate
  validate-Matches invite event v h = elim (Result-cases (decode chat_codec event)) [
    | inl (e, d) ↦ absurd (ground arith)
    | inr (read, d) ↦ invited read d
  ]
    where
      invited : (read : ChatPayload) → decode chat_codec event ≡ ok read → Matches invite event v
      invited (member_invite key) d = record {
        valid = ground arith;
        invites =
            d
            ∙ ap (λ k. ok (member_invite k))
                ((eq_bytes_iff key (capability_key p invite.capability)).0 (ground arith));
        named = ground arith;
        attributed = (eq_option_iff event.community_id (some invite.community)).0 (ground arith);
        carried = ground arith;
      }
      invited _ d = absurd (ground arith)

  -- A state that has admitted the invitation event, where nobody has redeemed it yet.
  pub record IsOpen (s : State) (invitation_event : SignedEvent) : Type 0 where
    pub issued :
        (key : Bytes)
        → decode chat_codec invitation_event ≡ ok (member_invite key)
        → Maps.lookup invitation_event.event_id s.invitations ≡ some key
    pub unused : Sets.contains invitation_event.event_id s.accepted_invitations ≡ false
    pub addressed : invitation_event.community_id ≡ s.community

  ok-injective : (a b : SignedEvent) → ◌≡◌ {A = Result ChatError SignedEvent} (ok a) (ok b) → a ≡ b
  ok-injective a b e = cc

  -- An acceptance, with what it carries.
  created :
      (v : ValidatedInvite) (identity : Identity) (parents : List EventId) (timestamp_ms : ℤ)
      (event : SignedEvent)
      → RoundTrips chat_codec
      → create_acceptance p chat_codec v identity parents timestamp_ms ≡ ok event
      → (decode chat_codec event
          ≡ ok (
              member_accept v.invitation
                (sign_acceptance p v.capability v.community v.invitation (user_id p identity))))
        × (event.community_id ≡ some v.community)
        × (author_id p event ≡ ok (user_id p identity))
  unfolding create_acceptance create_chat_event create_signed decode author_id
  created v identity parents timestamp_ms event faithful h =
      let chat =
        member_accept v.invitation
          (sign_acceptance p v.capability v.community v.invitation (user_id p identity)) in
      let (bytes, w, rest) = >>=-eq-ok (ok_or (chat_codec.to_vec chat) payload) _ h in
      let made = ok-injective _ event rest in
      let written : chat_codec.to_vec chat ≡ some bytes = ground arith in
      let typed = (eq_bytes_iff (event_type chat) (event_type chat)).1 refl in
      subst
        (λ e.
          (decode chat_codec e ≡ ok chat)
          × (e.community_id ≡ some v.community)
          × (author_id p e ≡ ok (user_id p identity)))
        made
        (
          rw (faithful chat bytes written, typed) refl,
          refl,
          ground (arith, documented.key_length identity.seed),
        )

  -- If the cryptography works as documented and JSON is read back as written, then an invitee whose
  -- package matches the invitation event and who makes an acceptance is admitted: in every state where
  -- this invitation is open, once the acceptance's parents are accepted, the acceptance decodes, its
  -- author is the invitee, the state's rules accept it, and the invitee is a member afterwards.
  pub create_acceptance_admits :
      (invite : PreparedInvite) (invitation_event : SignedEvent) (v : ValidatedInvite)
      (identity : Identity) (parents : List EventId) (timestamp_ms : ℤ) (event : SignedEvent)
      (s : State) (accepted : Set)
      → RoundTrips chat_codec
      → validate p chat_codec invite invitation_event ≡ ok v
      → create_acceptance p chat_codec v identity parents timestamp_ms ≡ ok event
      → IsOpen s invitation_event
      → any (λ parent. not (Sets.contains parent accepted)) event.parents ≡ false
      → (chat : ChatPayload) × (decode chat_codec event ≡ ok chat)
        × (author_id p event ≡ ok (user_id p identity))
        × (validate_context p s event chat (user_id p identity) accepted ≡ ok tt)
        × (Sets.contains (user_id p identity) (apply p s event chat (user_id p identity)).members
            ≡ true)
  unfolding validate_context validate_payload apply verify
  create_acceptance_admits invite invitation_event v identity parents timestamp_ms event s accepted
        faithful matched made opened parents_accepted =
      let m = validate-Matches invite invitation_event v matched in
      let (decoded, attributed, author) =
        created v identity parents timestamp_ms event faithful made in
      let signature =
        sign_acceptance p v.capability v.community v.invitation (user_id p identity) in
      let message = acceptance_bytes v.community v.invitation (user_id p identity) in
      let invitation = ap (λ w. w.invitation) m.carried ∙ sym m.named in
      let issued =
        ap (λ i. Maps.lookup i s.invitations) invitation
        ∙ opened.issued (capability_key p invite.capability) m.invites
        ∙ ap (λ w. some (capability_key p w.capability)) (sym m.carried) in
      let unused = ap (λ i. Sets.contains i s.accepted_invitations) invitation ∙ opened.unused in
      let here =
        attributed ∙ ap (λ w. some w.community) m.carried ∙ sym m.attributed ∙ opened.addressed in
      (
        member_accept v.invitation signature,
        decoded,
        author,
        ground (
          arith,
          issued,
          unused,
          (eq_option_iff event.community_id s.community).1 here,
          parents_accepted,
          attributed,
          documented.key_length v.capability.seed,
          documented.signature_length v.capability.seed message,
          documented.key_accepted v.capability.seed,
          documented.signature_accepted v.capability.seed message,
        ),
        ground (arith, contains-insert (user_id p identity) (user_id p identity) s.members),
      )
