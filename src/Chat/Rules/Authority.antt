-- ===== src/Chat/Rules/Authority.antt =====
-- What every chain of admitted events keeps: who may act, in crates/profile-chat/src/lib.rs.
use chatcommons.Prelude.{◌≡◌, true, none, some, [], ok, arith, refl}
use chatcommons.Prelude.Sets
use chatcommons.Prelude.Sets.{Set, contains-insert, contains-remove, contains, remove}
use chatcommons.Prelude.Maps
use chatcommons.Prelude.Maps.{lookup, lookup-insert}
use chatcommons.Crypto.{Primitives, UserId}
use chatcommons.Protocol.{SignedEvent, EventId}
use chatcommons.Chat.{
  ChatPayload, community_create, member_invite, member_accept, member_remove, administrator_grant,
  administrator_revoke, ownership_transfer, home_server_set, State, initial,
}
use chatcommons.Chat.Rules.{validate_context, validate_payload, require_admin, require_owner, apply}

-- The owner is an administrator, administrators are members, and before the genesis nobody is
-- anything.
pub record IsLawful (s : State) : Type 0 where
  pub owner_is_administrator :
      (u : UserId) → s.owner ≡ some u → Sets.contains u s.administrators ≡ true
  pub administrators_are_members :
      (u : UserId) → Sets.contains u s.administrators ≡ true → Sets.contains u s.members ≡ true
  pub unowned : s.community ≡ none → s.owner ≡ none
  pub unpeopled : s.community ≡ none → s.members ≡ []
  pub unruled : s.community ≡ none → s.administrators ≡ []
  pub uninvited : s.community ≡ none → s.invitations ≡ []
  pub accepted_were_issued :
      (i : EventId)
      → Sets.contains i s.accepted_invitations ≡ true
      → Maps.contains_key i s.invitations ≡ true

pub initial-IsLawful : IsLawful initial
unfolding contains
initial-IsLawful = record {
  owner_is_administrator = λ u e. cc;
  administrators_are_members = λ u e. e;
  unowned = λ e. refl;
  unpeopled = λ e. refl;
  unruled = λ e. refl;
  uninvited = λ e. refl;
  accepted_were_issued = λ i e. cc;
}

module _ (p : Primitives) (s : State) (event : SignedEvent) (author : UserId) (accepted : Set) where
  pub apply-IsLawful :
      (payload : ChatPayload)
      → IsLawful s
      → validate_context p s event payload author accepted ≡ ok tt
      → IsLawful (apply p s event payload author)
  unfolding validate_context validate_payload require_admin require_owner apply contains remove
      lookup
  apply-IsLawful (community_create profile name) v h = record {
    owner_is_administrator = λ u e. ground (arith, contains-insert u author s.administrators);
    administrators_are_members = λ u e. ground (
      arith,
      contains-insert u author s.administrators,
      contains-insert u author s.members,
      v.administrators_are_members u,
    );
    unowned = λ e. cc;
    unpeopled = λ e. cc;
    unruled = λ e. cc;
    uninvited = λ e. cc;
    accepted_were_issued = v.accepted_were_issued;
  }
  apply-IsLawful (member_accept invitation signature) v h = record {
    owner_is_administrator = v.owner_is_administrator;
    administrators_are_members =
        λ u e. ground (arith, contains-insert u author s.members, v.administrators_are_members u);
    unowned = v.unowned;
    unpeopled = λ e. ground (arith, v.uninvited);
    unruled = v.unruled;
    uninvited = v.uninvited;
    accepted_were_issued = λ i e.
        ground
          (arith, contains-insert i invitation s.accepted_invitations, v.accepted_were_issued i);
  }
  apply-IsLawful (member_remove member) v h = record {
    owner_is_administrator = λ u e.
        ground (arith, contains-remove u member s.administrators, v.owner_is_administrator u);
    administrators_are_members = λ u e. ground (
      arith,
      contains-remove u member s.administrators,
      contains-remove u member s.members,
      v.administrators_are_members u,
    );
    unowned = v.unowned;
    unpeopled = λ e. ground (arith, v.unruled);
    unruled = λ e. ground (arith, v.unruled);
    uninvited = v.uninvited;
    accepted_were_issued = v.accepted_were_issued;
  }
  apply-IsLawful (administrator_grant member) v h = record {
    owner_is_administrator = λ u e.
        ground (arith, contains-insert u member s.administrators, v.owner_is_administrator u);
    administrators_are_members = λ u e.
        ground (arith, contains-insert u member s.administrators, v.administrators_are_members u);
    unowned = v.unowned;
    unpeopled = v.unpeopled;
    unruled = λ e. ground (arith, v.unowned);
    uninvited = v.uninvited;
    accepted_were_issued = v.accepted_were_issued;
  }
  apply-IsLawful (administrator_revoke member) v h = record {
    owner_is_administrator = λ u e.
        ground (arith, contains-remove u member s.administrators, v.owner_is_administrator u);
    administrators_are_members = λ u e.
        ground (arith, contains-remove u member s.administrators, v.administrators_are_members u);
    unowned = v.unowned;
    unpeopled = v.unpeopled;
    unruled = λ e. ground (arith, v.unowned);
    uninvited = v.uninvited;
    accepted_were_issued = v.accepted_were_issued;
  }
  apply-IsLawful (ownership_transfer new_owner) v h = record {
    owner_is_administrator = λ u e.
        ground (arith, contains-insert u new_owner s.administrators, v.owner_is_administrator u);
    administrators_are_members = λ u e.
        ground
          (arith, contains-insert u new_owner s.administrators, v.administrators_are_members u);
    unowned = λ e. ground (arith, v.unowned);
    unpeopled = v.unpeopled;
    unruled = λ e. ground (arith, v.unowned);
    uninvited = v.uninvited;
    accepted_were_issued = v.accepted_were_issued;
  }
  apply-IsLawful (home_server_set key endpoints) v h = record {
    owner_is_administrator = λ u e. ground (arith, v.owner_is_administrator u);
    administrators_are_members = λ u e. ground (arith, v.administrators_are_members u);
    unowned = λ e. ground (arith, v.unowned);
    unpeopled = λ e. ground (arith, v.unpeopled);
    unruled = λ e. ground (arith, v.unruled);
    uninvited = λ e. ground (arith, v.uninvited);
    accepted_were_issued = λ i e. ground (arith, v.accepted_were_issued i);
  }
  apply-IsLawful (member_invite key) v h = record {
    owner_is_administrator = v.owner_is_administrator;
    administrators_are_members = v.administrators_are_members;
    unowned = v.unowned;
    unpeopled = v.unpeopled;
    unruled = v.unruled;
    uninvited = λ e. ground (arith, v.unruled);
    accepted_were_issued = λ i e.
        ground (arith, lookup-insert i event.event_id key s.invitations, v.accepted_were_issued i);
  }
  apply-IsLawful _ v h = record {
    owner_is_administrator = v.owner_is_administrator;
    administrators_are_members = v.administrators_are_members;
    unowned = v.unowned;
    unpeopled = v.unpeopled;
    unruled = v.unruled;
    uninvited = v.uninvited;
    accepted_were_issued = v.accepted_were_issued;
  }
