-- ===== src/Protocol/Signing.antt =====
-- `create_signed` of crates/protocol/src/lib.rs makes events that `validate_event` accepts.
use chatcommons.Prelude.{
  ℕ, ◌≤◌, ◌<◌, ◌≡◌, ◌↔◌, refl, none, List, [], ◌∷◌, length, arith, ok, ap, ◌+◌,
}
use chatcommons.Prelude.Sets.{IsAscending, IsAbove}
use chatcommons.Crypto.{Primitives, Documented, Identity, user_id}
use chatcommons.Protocol.{
  EventContent, SignedEvent, ProtocolError, max_parents, max_event_type_bytes, max_payload_bytes,
  place, sort, dedup, create_signed, calculate_event_id, author_id, validate_event,
}
use chatcommons.Protocol
use chatcommons.Protocol.Validation.{IsAdmissible, IsAuthentic, validate_event_iff}

-- A list in order that may name an element twice.
abbrev IsFrom : ℕ → List ℕ → Type 0
IsFrom b [] = Unit
IsFrom b (x ∷ xs) = (b ≤ x) × IsFrom x xs

abbrev IsOrdered : List ℕ → Type 0
IsOrdered [] = Unit
IsOrdered (x ∷ xs) = IsFrom x xs

place-IsFrom : (b x : ℕ) (ys : List ℕ) → b ≤ x → IsFrom b ys → IsFrom b (place x ys)
unfolding place
place-IsFrom b x [] h o = (h, tt)
place-IsFrom b x (y ∷ ys) h o = ground (arith, place-IsFrom y x ys)

place-IsOrdered : (x : ℕ) (ys : List ℕ) → IsOrdered ys → IsOrdered (place x ys)
unfolding place
place-IsOrdered x [] o = tt
place-IsOrdered x (y ∷ ys) o = ground (arith, place-IsFrom y x ys)

sort-IsOrdered : (xs : List ℕ) → IsOrdered (sort xs)
unfolding sort
sort-IsOrdered [] = tt
sort-IsOrdered (x ∷ xs) = place-IsOrdered x (sort xs) (sort-IsOrdered xs)

-- `dedup` leaves strict steps.
dedup-IsAbove : (a b : ℕ) (xs : List ℕ) → a < b → IsFrom b xs → IsAbove a (dedup (b ∷ xs))
unfolding dedup
dedup-IsAbove a b [] h o = (h, tt)
dedup-IsAbove a b (x ∷ xs) h o = ground (arith, dedup-IsAbove a x xs, dedup-IsAbove b x xs)

dedup-IsAscending : (xs : List ℕ) → IsOrdered xs → IsAscending (dedup xs)
unfolding dedup
dedup-IsAscending [] o = tt
dedup-IsAscending (b ∷ []) o = tt
dedup-IsAscending (b ∷ x ∷ xs) o = ground (arith, dedup-IsAbove b x xs, dedup-IsAscending (x ∷ xs))

length-place : (x : ℕ) (ys : List ℕ) → length (place x ys) ≡ length ys + 1
unfolding place
length-place x [] = refl
length-place x (y ∷ ys) = ground (arith, length-place x ys)

length-sort : (xs : List ℕ) → length (sort xs) ≡ length xs
unfolding sort
length-sort [] = refl
length-sort (x ∷ xs) = omega (arith, length-place x (sort xs), length-sort xs)

length-dedup-le : (xs : List ℕ) → length (dedup xs) ≤ length xs
unfolding dedup
length-dedup-le [] = omega arith
length-dedup-le (x ∷ []) = omega arith
length-dedup-le (x ∷ y ∷ xs) = ground (arith, length-dedup-le (y ∷ xs))

abbrev normalize : List ℕ → List ℕ
normalize xs = dedup (sort xs)

dedup-eq_nil : (xs : List ℕ) → dedup xs ≡ [] → xs ≡ []
unfolding dedup
dedup-eq_nil [] e = refl
dedup-eq_nil (x ∷ []) e = cc
dedup-eq_nil (x ∷ y ∷ xs) e = ground (arith, dedup-eq_nil (y ∷ xs))

-- Nothing is left only of nothing.
normalize-eq_nil : (xs : List ℕ) → (xs ≡ []) ↔ (normalize xs ≡ [])
unfolding sort dedup
normalize-eq_nil [] = (λ e. refl, λ e. refl)
normalize-eq_nil (x ∷ xs) = (
  λ e. cc,
  λ e. absurd (omega (arith, ap length (dedup-eq_nil (sort (x ∷ xs)) e), length-sort (x ∷ xs))),
)

-- What `create_signed` asks of its caller: the limits, where parents may come in any order.
pub record IsDraft (c : EventContent) : Type 0 where
  pub version : c.protocol_version ≡ Protocol.protocol_version
  pub typed : 0 < length c.event_type
  pub type_fits : length c.event_type ≤ max_event_type_bytes
  pub payload_fits : length c.payload ≤ max_payload_bytes
  pub parents_fit : length c.parents ≤ max_parents
  pub rooted : (c.community_id ≡ none) ↔ (c.parents ≡ [])

abbrev normal_form : EventContent → EventContent
normal_form c = record c { parents = normalize c.parents }

normal_form-IsAdmissible : (c : EventContent) → IsDraft c → IsAdmissible (normal_form c)
normal_form-IsAdmissible c d = record {
  version = d.version;
  typed = d.typed;
  type_fits = d.type_fits;
  payload_fits = d.payload_fits;
  parents_fit =
      omega (arith, d.parents_fit, length-dedup-le (sort c.parents), length-sort c.parents);
  parents_ascend = dedup-IsAscending (sort c.parents) (sort-IsOrdered c.parents);
  rooted = (
    λ e. (normalize-eq_nil c.parents).0 (d.rooted.0 e),
    λ e. d.rooted.1 ((normalize-eq_nil c.parents).1 e),
  );
}

module _ (p : Primitives) (documented : Documented p) where
  create_signed-IsAuthentic :
      (c : EventContent) (i : Identity) → IsAuthentic p (create_signed p c i)
  unfolding create_signed
  create_signed-IsAuthentic c i = record {
    key_fits = documented.key_length i.seed;
    signature_fits = documented.signature_length i.seed _;
    key_accepted = documented.key_accepted i.seed;
    signed = documented.signature_accepted i.seed _;
    named = refl;
  }

  -- If the cryptography works as documented and the draft keeps the limits, with its parents in any
  -- order and possibly repeated, then the signed event is accepted by `validate_event`, and its
  -- author is the signer.
  pub create_signed-validates :
      (c : EventContent) (i : Identity)
      → IsDraft c
      → (validate_event p (create_signed p c i) ≡ ok tt)
        × (author_id p (create_signed p c i) ≡ ok (user_id p i))
  unfolding create_signed author_id
  create_signed-validates c i d = (
    (validate_event_iff p (create_signed p c i)).1 (record {
      admissible = normal_form-IsAdmissible c d;
      authentic = create_signed-IsAuthentic c i;
    }),
    ground (arith, documented.key_length i.seed),
  )
