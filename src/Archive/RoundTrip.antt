-- ===== src/Archive/RoundTrip.antt =====
-- `encode`, then `parse` and `validate`, of crates/storage/src/archive.rs.
use mathlib.Core.List.Perm
use mathlib.Core.List.{Perm}
use chatcommons.Prelude.{
  ◌≡◌, inl, inr, some, List, [], ◌∷◌, ltb, ok, ◌>>=◌, >>=-eq-ok, arith, ok_or, Bool-cases, length,
  sym, ap, subst, false,
}
use chatcommons.Prelude.Bytes.{Bytes}
use chatcommons.Crypto.{Primitives}
use chatcommons.Protocol.{SignedEvent, CommunityId, Codec, RoundTrips}
use chatcommons.Archive.{
  ArchiveWire, ValidatedArchive, archive_version, max_archive_bytes, parse, place, sort_by_id,
  validate_wire, validate, encode, json,
}
use chatcommons.Archive.Validation.{validate_wire_iff}

place-perm : (e : SignedEvent) (events : List SignedEvent) → Perm (place e events) (e ∷ events)
unfolding place
place-perm e [] = Perm.refl (e ∷ [])
place-perm e (d ∷ events) = elim (Bool-cases (ltb d.event_id e.event_id)) [
  | inl h ↦ rw h (Perm.trans (Perm.cons d (place-perm e events)) (Perm.swap e d events))
  | inr h ↦ rw h (Perm.refl (e ∷ d ∷ events))
]

sort-perm : (events : List SignedEvent) → Perm (sort_by_id events) events
unfolding sort_by_id
sort-perm [] = Perm.refl []
sort-perm (e ∷ events) =
    Perm.trans (place-perm e (sort_by_id events)) (Perm.cons e (sort-perm events))

module _ (p : Primitives) (wire_codec : Codec ArchiveWire) (faithful : RoundTrips wire_codec) where
  -- If `encode` succeeds and JSON is read back as written, then its bytes parse and validate, to the
  -- same community and to the same events up to order.
  pub encode_restores :
      (community : CommunityId) (events : List SignedEvent) (bytes : Bytes)
      → encode p wire_codec community events ≡ ok bytes
      → (v : ValidatedArchive) × ((parse wire_codec bytes >>= validate p) ≡ ok v)
        × (v.community ≡ community)
        × Perm v.events events
  unfolding encode parse validate
  encode_restores community events bytes h =
      let wire : ArchiveWire = record {
        version = archive_version;
        community_id = community;
        events = sort_by_id events;
      } in
      let (v, e, h1) = >>=-eq-ok (validate_wire p wire) _ h in
      let same = ((validate_wire_iff p wire v).0 e).1 in
      let (b, w, h2) = >>=-eq-ok (ok_or (wire_codec.to_vec _) json) _ h1 in
      let fits : ltb max_archive_bytes (length bytes) ≡ false = ground arith in
      let written : wire_codec.to_vec wire ≡ some bytes = ground arith in
      (
        v,
        rw (fits, faithful wire bytes written) e,
        ap (λ v. v.community) same,
        subst (λ v. Perm v.events events) (sym same) (sort-perm events),
      )
