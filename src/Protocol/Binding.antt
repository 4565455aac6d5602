-- ===== src/Protocol/Binding.antt =====
-- What an event identifier of crates/protocol/src/lib.rs commits to.
use chatcommons.Prelude.{
  ◌≡◌, ◌≢◌, ◌⊎◌, inl, inr, ◌++◌, append_cancel, append_cancel_end, length-append, refl, arith, ok,
  ◌∙◌, sym, Bool-cases,
}
use chatcommons.Prelude.Bytes.{Bytes, eq_bytes, eq_bytes_iff}
use chatcommons.Crypto.{Primitives}
use chatcommons.Protocol.{SignedEvent, canonical_content, event_domain, validate_event}
use chatcommons.Protocol.Validation.{IsValid, validate_event_iff}
use chatcommons.Protocol.Encoding.{IsEncodable, canonical_content-injective}

-- Two different byte sequences with one digest.
pub record Collision (p : Primitives) : Type 0 where
  pub left : Bytes
  pub right : Bytes
  pub differ : left ≢ right
  pub collide : p.blake3 left ≡ p.blake3 right

abbrev preimage : SignedEvent → Bytes
preimage e = event_domain ++ (canonical_content e.content ++ (e.public_key ++ e.signature))

module _ (p : Primitives) (d e : SignedEvent) where
  preimage-injective :
      IsValid p d
      → IsValid p e
      → IsEncodable d.content
      → IsEncodable e.content
      → d.event_id ≡ e.event_id
      → preimage d ≡ preimage e
      → d ≡ e
  preimage-injective vd ve hd he id same =
      let (_, e1) = append_cancel event_domain event_domain _ _ refl same in
      let (canonical, proof) =
        append_cancel_end (canonical_content d.content) (canonical_content e.content)
          (d.public_key ++ d.signature) (e.public_key ++ e.signature)
          (omega (
            arith,
            length-append d.public_key d.signature,
            length-append e.public_key e.signature,
            vd.authentic.key_fits,
            vd.authentic.signature_fits,
            ve.authentic.key_fits,
            ve.authentic.signature_fits,
          ))
          e1 in
      let (key, signature) =
        append_cancel d.public_key e.public_key d.signature e.signature
          (vd.authentic.key_fits ∙ sym ve.authentic.key_fits) proof in
      ground (arith, canonical_content-injective d.content e.content hd he canonical)

  -- Two accepted events with one identifier are the same event, or they exhibit two byte sequences
  -- with one BLAKE3 digest. Their contents lie in the ranges of the Rust types.
  pub event_id_binds :
      validate_event p d ≡ ok tt
      → validate_event p e ≡ ok tt
      → IsEncodable d.content
      → IsEncodable e.content
      → d.event_id ≡ e.event_id
      → (d ≡ e) ⊎ Collision p
  event_id_binds hd he rd re id =
      let vd = (validate_event_iff p d).0 hd in
      let ve = (validate_event_iff p e).0 he in
      elim (Bool-cases (eq_bytes (preimage d) (preimage e))) [
        | inl same ↦ inl (preimage-injective vd ve rd re id ((eq_bytes_iff _ _).0 same))
        | inr other ↦ inr (record {
          left = preimage d;
          right = preimage e;
          differ = λ same. cc ((eq_bytes_iff (preimage d) (preimage e)).1 same);
          collide = vd.authentic.named ∙ id ∙ sym ve.authentic.named;
        })
      ]
