-- ===== src/Chat/Rules/Membership.antt =====
-- Which admitted events change members, administrators and the owner, in
-- crates/profile-chat/src/lib.rs.
use chatcommons.Prelude.{
  ◌≡◌, ◌≢◌, ◌⊎◌, inl, inr, refl, true, false, none, some, ok, arith, ap, length, ◌∷◌, ◌++◌,
}
use chatcommons.Prelude.Bytes.{Bytes, codes, be_bytes}
use chatcommons.Prelude.Sets
use chatcommons.Prelude.Sets.{Set, contains-insert, contains-remove}
use chatcommons.Prelude.Maps
use chatcommons.Crypto.{Primitives, UserId, public_key_len, signature_len}
use chatcommons.Protocol.{SignedEvent, EventId, CommunityId}
use chatcommons.Chat.{
  ChatPayload, community_create, member_accept, member_remove, administrator_grant,
  administrator_revoke, ownership_transfer, home_server_set, State,
}
use chatcommons.Chat.Rules.{validate_context, validate_payload, require_admin, require_owner, apply}

-- The author redeems an invitation that is not used yet, and shows a signature under its key over the
-- community, the invitation and the author; from then on the invitation is used.
pub record Redeems (p : Primitives) (s : State) (event : SignedEvent) (author : UserId)
    (invitation : EventId) (signature : Bytes) : Type 0 where
  pub key : Bytes
  pub community : CommunityId
  pub issued : Maps.lookup invitation s.invitations ≡ some key
  pub unused : Sets.contains invitation s.accepted_invitations ≡ false
  pub addressed : event.community_id ≡ some community
  pub key_fits : length key ≡ public_key_len
  pub signature_fits : length signature ≡ signature_len
  pub proved :
      p.accepts_signature key
        (codes "chatcommons:invite-acceptance:v1"
          ++ 0 ∷ (be_bytes 32 community ++ (be_bytes 32 invitation ++ be_bytes 32 author)))
        signature
      ≡ true
  pub spent :
      (apply p s event (member_accept invitation signature) author).accepted_invitations
      ≡ Sets.insert invitation s.accepted_invitations

-- How a user may come in.
pub data Entry (p : Primitives) (s : State) (event : SignedEvent) (author u : UserId)
    : ChatPayload → Type 0 where
  founds :
      (profile name : Bytes)
      → u ≡ author
      → s.community ≡ none
      → Entry p s event author u (community_create profile name)
  redeems :
      (invitation : EventId) (signature : Bytes)
      → u ≡ author
      → Redeems p s event author invitation signature
      → Entry p s event author u (member_accept invitation signature)

module _ (p : Primitives) (s : State) (event : SignedEvent) (author : UserId) (accepted : Set) where
  -- A member goes only by an administrator's removal, and never the owner.
  pub apply_leaves :
      (payload : ChatPayload) (u : UserId)
      → validate_context p s event payload author accepted ≡ ok tt
      → Sets.contains u s.members ≡ true
      → Sets.contains u (apply p s event payload author).members ≡ false
      → (payload ≡ member_remove u)
        × (Sets.contains author s.administrators ≡ true)
        × (s.owner ≢ some u)
  unfolding apply validate_context validate_payload require_admin
  apply_leaves (community_create profile name) u h here gone =
      absurd (ground (arith, contains-insert u author s.members))
  apply_leaves (member_accept invitation signature) u h here gone =
      absurd (ground (arith, contains-insert u author s.members))
  apply_leaves (member_remove member) u h here gone =
      let same : member ≡ u = ground (arith, contains-remove u member s.members) in
      (ap member_remove same, ground arith, λ e. ground arith)
  apply_leaves (home_server_set key endpoints) u h here gone = absurd (ground arith)
  apply_leaves _ u h here gone = absurd (ground arith)

  -- The owner changes only when there is no community yet, or when the owner hands over to a member.
  pub apply_owner :
      (payload : ChatPayload)
      → validate_context p s event payload author accepted ≡ ok tt
      → (apply p s event payload author).owner ≢ s.owner
      → ((s.community ≡ none) × ((apply p s event payload author).owner ≡ some author))
        ⊎ ((u : UserId) × (payload ≡ ownership_transfer u)
            × (s.owner ≡ some author)
            × (Sets.contains u s.members ≡ true)
            × ((apply p s event payload author).owner ≡ some u))
  unfolding apply validate_context validate_payload require_owner
  apply_owner (community_create profile name) h changed = inl (ground arith, refl)
  apply_owner (ownership_transfer u) h changed = inr (u, refl, ground arith, ground arith, refl)
  apply_owner (home_server_set key endpoints) h changed = absurd (changed (ground arith))
  apply_owner _ h changed = absurd (changed refl)

  -- A user becomes an administrator only as founder, or by the owner's grant or transfer to a member.
  pub apply_administrator :
      (payload : ChatPayload) (u : UserId)
      → validate_context p s event payload author accepted ≡ ok tt
      → Sets.contains u s.administrators ≡ false
      → Sets.contains u (apply p s event payload author).administrators ≡ true
      → ((s.community ≡ none) × (u ≡ author))
        ⊎ ((s.owner ≡ some author)
            × (Sets.contains u s.members ≡ true)
            × ((payload ≡ administrator_grant u) ⊎ (payload ≡ ownership_transfer u)))
  unfolding apply validate_context validate_payload require_owner
  apply_administrator (community_create profile name) u h out has =
      inl (ground arith, ground (arith, contains-insert u author s.administrators))
  apply_administrator (member_remove member) u h out has =
      absurd (ground (arith, contains-remove u member s.administrators))
  apply_administrator (administrator_grant member) u h out has =
      let same : member ≡ u = ground (arith, contains-insert u member s.administrators) in
      inr (ground arith, ground arith, inl (ap administrator_grant same))
  apply_administrator (administrator_revoke member) u h out has =
      absurd (ground (arith, contains-remove u member s.administrators))
  apply_administrator (ownership_transfer member) u h out has =
      let same : member ≡ u = ground (arith, contains-insert u member s.administrators) in
      inr (ground arith, ground arith, inr (ap ownership_transfer same))
  apply_administrator (home_server_set key endpoints) u h out has = absurd (ground arith)
  apply_administrator _ u h out has = absurd (ground arith)
