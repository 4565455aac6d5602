-- ===== src/Tests/ProtocolTests.antt =====
-- The theorems on events at concrete events.
use chatcommons.Prelude.{◌≡◌, ◌↔◌, ◌⊎◌, refl, ok, arith, some, [], ◌∷◌}
use chatcommons.Prelude.Bytes.{be_bytes, eq_bytes, i64_bytes, codes, negsuc}
use chatcommons.Crypto.{user_id, verify}
use chatcommons.Protocol.{
  EventContent, create_genesis, create_signed, canonical_content, calculate_event_id,
  validate_event, validate_content, validate_proof, strictly_sorted, author_id, sort, dedup,
}
use chatcommons.Protocol.Validation.{IsValid, validate_event_iff}
use chatcommons.Protocol.Encoding.{IsEncodable, canonical_content-injective}
use chatcommons.Protocol.Signing.{IsDraft, create_signed-validates}
use chatcommons.Protocol.Binding.{Collision, event_id_binds}
use chatcommons.Tests.Toy.{toy, toy-Documented, digest, alice, genesis}

genesis_validates : validate_event toy genesis ≡ ok tt
unfolding validate_event validate_content validate_proof strictly_sorted verify calculate_event_id
    canonical_content create_genesis create_signed sort dedup digest be_bytes i64_bytes eq_bytes
genesis_validates = refl

validate_event_iff_example : (validate_event toy genesis ≡ ok tt) ↔ IsValid toy genesis
validate_event_iff_example = validate_event_iff toy genesis

-- A content whose parents are out of order and repeated.
abbrev draft : EventContent
draft = record {
  protocol_version = 2;
  community_id = some 77;
  parents = 9 ∷ 3 ∷ 9 ∷ [];
  timestamp_ms = negsuc 0;
  event_type = codes "chat.message.create";
  payload = 3 ∷ 5 ∷ [];
}

draft-IsDraft : IsDraft draft
draft-IsDraft = record {
  version = refl;
  typed = omega arith;
  type_fits = omega arith;
  payload_fits = omega arith;
  parents_fit = omega arith;
  rooted = (λ e. cc, λ e. cc);
}

draft-IsEncodable : IsEncodable draft
draft-IsEncodable = record {
  version = omega arith;
  community = omega arith;
  parents = omega arith;
  parent_count = omega arith;
  timestamp = omega arith;
  type_length = omega arith;
  payload_length = omega arith;
}

create_signed-validates_example :
    (validate_event toy (create_signed toy draft alice) ≡ ok tt)
    × (author_id toy (create_signed toy draft alice) ≡ ok (user_id toy alice))
create_signed-validates_example =
    create_signed-validates toy toy-Documented draft alice draft-IsDraft

canonical_content-injective_example : draft ≡ record draft { timestamp_ms = negsuc 0 }
canonical_content-injective_example =
    canonical_content-injective draft (record draft { timestamp_ms = negsuc 0 }) draft-IsEncodable
      draft-IsEncodable refl

genesis-IsEncodable : IsEncodable genesis.content
unfolding create_genesis create_signed sort dedup
genesis-IsEncodable = record {
  version = omega arith;
  community = tt;
  parents = tt;
  parent_count = omega arith;
  timestamp = omega arith;
  type_length = omega arith;
  payload_length = omega arith;
}

event_id_binds_example : (genesis ≡ genesis) ⊎ Collision toy
event_id_binds_example =
    event_id_binds toy genesis genesis genesis_validates genesis_validates genesis-IsEncodable
      genesis-IsEncodable refl
