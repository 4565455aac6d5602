-- ===== src/Tests/RulesTests.antt =====
-- The rules on changes of office at a club of two.
use chatcommons.Prelude.{ℕ, ◌≡◌, ◌≢◌, ◌⊎◌, refl, none, some, ok, [], ◌∷◌, true}
use chatcommons.Prelude.Bytes.{Bytes, pos, be_bytes, eq_bytes}
use chatcommons.Prelude.Sets
use chatcommons.Protocol.{SignedEvent}
use chatcommons.Chat.{State, member_accept, member_remove, administrator_grant, ownership_transfer}
use chatcommons.Crypto.{verify, sign, public_key}
use chatcommons.Prelude.Maps
use chatcommons.Chat.Rules.{
  acceptance_bytes, require_admin, require_owner, validate_context, validate_payload, apply,
}
use chatcommons.Chat.Rules.Membership.{apply_leaves, apply_owner, apply_administrator}
use chatcommons.Chat.Rules.Redemption.{now, redeemed_once}
use chatcommons.Tests.Toy.{toy, digest, alice}

-- User 4 owns the club; user 6 is a member.
abbrev club : State
club = record {
  community = some 1;
  owner = some 4;
  members = 4 ∷ 6 ∷ [];
  administrators = 4 ∷ [];
  channels = [];
  invitations = [];
  accepted_invitations = [];
  home_server = none;
}

-- An event in the club after its genesis.
abbrev club_event : SignedEvent
club_event = record {
  content = record {
    protocol_version = 2;
    community_id = some 1;
    parents = 1 ∷ [];
    timestamp_ms = pos 5;
    event_type = [];
    payload = [];
  };
  public_key = [];
  signature = [];
  event_id = 12;
}

-- The club with the invitation 5, whose capability has the key of Alice.
abbrev inviting : State
inviting = record club { invitations = (5, public_key toy alice) ∷ [] }

-- The capability's signature for user 9.
abbrev letter : Bytes
letter = sign toy alice (acceptance_bytes 1 5 9)

letter_admitted :
    validate_context toy inviting club_event (member_accept 5 letter) 9 (1 ∷ []) ≡ ok tt
unfolding validate_context validate_payload verify acceptance_bytes be_bytes eq_bytes digest
    Sets.contains Maps.lookup
letter_admitted = refl

redeemed_once_example :
    validate_context toy
      (apply toy inviting club_event (member_accept 5 letter) 9)
      club_event
      (member_accept 5 [])
      8
      (1 ∷ [])
    ≢ ok tt
redeemed_once_example =
    redeemed_once toy inviting (apply toy inviting club_event (member_accept 5 letter) 9) club_event
      club_event 9 8 (1 ∷ []) (1 ∷ []) 5 letter [] letter_admitted now

apply_leaves_example :
    (member_remove 6 ≡ member_remove 6)
    × (Sets.contains 4 club.administrators ≡ true)
    × (club.owner ≢ some 6)
unfolding validate_context validate_payload require_admin apply Sets.contains Sets.remove
apply_leaves_example =
    apply_leaves toy club club_event 4 (1 ∷ []) (member_remove 6) 6 refl refl refl

apply_owner_example :
    ((club.community ≡ none)
      × ((apply toy club club_event (ownership_transfer 6) 4).owner ≡ some 4))
    ⊎ ((u : ℕ) × (ownership_transfer 6 ≡ ownership_transfer u)
        × (club.owner ≡ some 4)
        × (Sets.contains u club.members ≡ true)
        × ((apply toy club club_event (ownership_transfer 6) 4).owner ≡ some u))
unfolding validate_context validate_payload require_owner apply Sets.contains
apply_owner_example =
    apply_owner toy club club_event 4 (1 ∷ []) (ownership_transfer 6) refl (λ e. cc)

apply_administrator_example :
    ((club.community ≡ none) × (◌≡◌ {A = ℕ} 6 4))
    ⊎ ((club.owner ≡ some 4)
        × (Sets.contains 6 club.members ≡ true)
        × ((administrator_grant 6 ≡ administrator_grant 6)
            ⊎ (administrator_grant 6 ≡ ownership_transfer 6)))
unfolding validate_context validate_payload require_owner apply Sets.contains Sets.insert
apply_administrator_example =
    apply_administrator toy club club_event 4 (1 ∷ []) (administrator_grant 6) 6 refl refl refl
