-- ===== src/Protocol/Validation.antt =====
-- What `validate_event` of crates/protocol/src/lib.rs accepts.
use chatcommons.Prelude.{
  ℕ, ◌≤◌, ◌<◌, ◌≡◌, ◌↔◌, refl, true, none, some, Option, List, [], ◌∷◌, ◌++◌, length, arith, ok,
}
use chatcommons.Prelude.Sets.{IsAscending}
use chatcommons.Crypto.{Primitives, verify, public_key_len, signature_len}
use chatcommons.Protocol.{
  EventContent, SignedEvent, EventId, CommunityId, max_parents, max_event_type_bytes,
  max_payload_bytes, strictly_sorted, canonical_content, event_domain, calculate_event_id,
  validate_content, validate_proof, validate_event,
}
use chatcommons.Protocol

-- The limits on the content of an event.
pub record IsAdmissible (c : EventContent) : Type 0 where
  pub version : c.protocol_version ≡ Protocol.protocol_version
  pub typed : 0 < length c.event_type
  pub type_fits : length c.event_type ≤ max_event_type_bytes
  pub payload_fits : length c.payload ≤ max_payload_bytes
  pub parents_fit : length c.parents ≤ max_parents
  pub parents_ascend : IsAscending c.parents
  -- exactly a genesis has no parents
  pub rooted : (c.community_id ≡ none) ↔ (c.parents ≡ [])

-- Key, signature and identifier belong to the content.
pub record IsAuthentic (p : Primitives) (e : SignedEvent) : Type 0 where
  pub key_fits : length e.public_key ≡ public_key_len
  pub signature_fits : length e.signature ≡ signature_len
  pub key_accepted : p.accepts_key e.public_key ≡ true
  pub signed : p.accepts_signature e.public_key (canonical_content e.content) e.signature ≡ true
  pub named :
      p.blake3 (event_domain ++ (canonical_content e.content ++ (e.public_key ++ e.signature)))
      ≡ e.event_id

pub record IsValid (p : Primitives) (e : SignedEvent) : Type 0 where
  pub admissible : IsAdmissible e.content
  pub authentic : IsAuthentic p e

pub strictly_sorted_iff : (xs : List ℕ) → (strictly_sorted xs ≡ true) ↔ IsAscending xs
unfolding strictly_sorted
strictly_sorted_iff [] = (λ h. tt, λ h. refl)
strictly_sorted_iff (x ∷ []) = (λ h. tt, λ h. refl)
strictly_sorted_iff (x ∷ y ∷ rest) = (
  λ h. ground (arith, (strictly_sorted_iff (y ∷ rest)).0),
  λ h. ground (arith, (strictly_sorted_iff (y ∷ rest)).1),
)

reference_lem :
    (community : Option ℕ) (parents : List ℕ)
    → (Protocol.check_reference community parents ≡ ok tt) ↔ ((community ≡ none) ↔ (parents ≡ []))
reference_lem none [] = (λ h. (λ e. refl, λ e. refl), λ h. refl)
reference_lem none (x ∷ xs) = (λ h. cc, λ h. cc (h.0 refl))
reference_lem (some id) [] = (λ h. cc, λ h. cc (h.1 refl))
reference_lem (some id) (x ∷ xs) = (λ h. (λ e. cc, λ e. cc), λ h. refl)

validate_content_sound : (c : EventContent) → validate_content c ≡ ok tt → IsAdmissible c
unfolding validate_content
validate_content_sound c h = record {
  version = ground arith;
  typed = ground arith;
  type_fits = ground arith;
  payload_fits = ground arith;
  parents_fit = ground arith;
  parents_ascend = (strictly_sorted_iff c.parents).0 (ground arith);
  rooted = (reference_lem c.community_id c.parents).0 (ground arith);
}

validate_content_complete : (c : EventContent) → IsAdmissible c → validate_content c ≡ ok tt
unfolding validate_content
validate_content_complete c v = ground (
  arith,
  (strictly_sorted_iff c.parents).1 v.parents_ascend,
  (reference_lem c.community_id c.parents).1 v.rooted,
)

module _ (p : Primitives) (e : SignedEvent) where
  validate_proof_sound : validate_proof p e ≡ ok tt → IsAuthentic p e
  unfolding validate_proof calculate_event_id verify
  validate_proof_sound h = ground arith

  validate_proof_complete : IsAuthentic p e → validate_proof p e ≡ ok tt
  unfolding validate_proof calculate_event_id verify
  validate_proof_complete v = ground arith

module _ (p : Primitives) where
  -- `validate_event` accepts an event exactly if it keeps every limit, its parents ascend strictly, it
  -- has parents exactly if it is no genesis, its signature verifies under its key over the canonical
  -- bytes, and its identifier is their digest.
  pub validate_event_iff : (e : SignedEvent) → (validate_event p e ≡ ok tt) ↔ IsValid p e
  unfolding validate_event
  validate_event_iff e = (
    λ h. record {
      admissible = validate_content_sound e.content (ground arith);
      authentic = validate_proof_sound p e (ground arith);
    },
    λ v. ground (
      arith,
      validate_content_complete e.content v.admissible,
      validate_proof_complete p e v.authentic,
    ),
  )
