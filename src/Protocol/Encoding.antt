-- ===== src/Protocol/Encoding.antt =====
-- `canonical_content` of crates/protocol/src/lib.rs says everything about a content.
use chatcommons.Prelude.{
  ℕ, ◌%◌, ◌^◌, ◌<◌, ◌≡◌, refl, ap, Option, none, some, List, [], ◌∷◌, ◌++◌, length, All,
  append_assoc, append_cancel, append-nil, arith, ◌∙◌, sym,
}
use chatcommons.Prelude.Bytes.{
  Bytes, IsI64, be_bytes, length-be_bytes, be_bytes-injective, i64_bytes, length-i64_bytes,
  i64_bytes-injective,
}
use chatcommons.Protocol.{
  EventContent, put_bytes, put_community, put_parents, content_domain, canonical_content,
}

-- An array of 32 bytes.
abbrev pub IsId : ℕ → Type 0
IsId n = n < 256 ^ 32

abbrev pub IsCommunity : Option ℕ → Type 0
IsCommunity none = Unit
IsCommunity (some id) = IsId id

-- The ranges of the fields' types, and sequences that a 32-bit length can count.
pub record IsEncodable (c : EventContent) : Type 0 where
  pub version : c.protocol_version < 256 ^ 2
  pub community : IsCommunity c.community_id
  pub parents : All IsId c.parents
  pub parent_count : length c.parents < 2 ^ 32
  pub timestamp : IsI64 c.timestamp_ms
  pub type_length : length c.event_type < 2 ^ 32
  pub payload_length : length c.payload < 2 ^ 32

module _ (w n m : ℕ) (us vs : Bytes) where
  -- A number of fixed width in front is read back.
  pub be_bytes_cancel :
      n < 256 ^ w → m < 256 ^ w → be_bytes w n ++ us ≡ be_bytes w m ++ vs → (n ≡ m) × (us ≡ vs)
  be_bytes_cancel hn hm e =
      let (front, rest) =
        append_cancel (be_bytes w n) (be_bytes w m) us vs
          (length-be_bytes w n ∙ sym (length-be_bytes w m)) e in
      (be_bytes-injective w n m hn hm front, rest)

put_community_cancel :
    (a b : Option ℕ) (us vs : Bytes)
    → IsCommunity a
    → IsCommunity b
    → put_community a ++ us ≡ put_community b ++ vs
    → (a ≡ b) × (us ≡ vs)
put_community_cancel none none us vs ha hb e = (refl, ground arith)
put_community_cancel none (some m) us vs ha hb e = absurd (ground arith)
put_community_cancel (some n) none us vs ha hb e = absurd (ground arith)
put_community_cancel (some n) (some m) us vs ha hb e =
    let (id, rest) = be_bytes_cancel 32 n m us vs ha hb (ground arith) in (ap some id, rest)

put_parents_cancel :
    (ps qs : List ℕ) (us vs : Bytes)
    → All IsId ps
    → All IsId qs
    → length ps ≡ length qs
    → put_parents ps ++ us ≡ put_parents qs ++ vs
    → (ps ≡ qs) × (us ≡ vs)
put_parents_cancel [] [] us vs hp hq n e = (refl, e)
put_parents_cancel [] (q ∷ qs) us vs hp hq n e = absurd (omega arith)
put_parents_cancel (p ∷ ps) [] us vs hp hq n e = absurd (omega arith)
put_parents_cancel (p ∷ ps) (q ∷ qs) us vs hp hq n e =
    let (head, tail) =
      be_bytes_cancel 32 p q (put_parents ps ++ us) (put_parents qs ++ vs) hp.0 hq.0
        (sym (append_assoc (be_bytes 32 p) _ _) ∙ e ∙ append_assoc (be_bytes 32 q) _ _) in
    let (heads, rest) = put_parents_cancel ps qs us vs hp.1 hq.1 (omega arith) tail in
    (ground arith, rest)

put_bytes_cancel :
    (xs ys us vs : Bytes)
    → length xs < 2 ^ 32
    → length ys < 2 ^ 32
    → put_bytes xs ++ us ≡ put_bytes ys ++ vs
    → (xs ≡ ys) × (us ≡ vs)
put_bytes_cancel xs ys us vs hx hy e =
    let (count, rest) =
      be_bytes_cancel 4 (length xs % 2 ^ 32) (length ys % 2 ^ 32) (xs ++ us) (ys ++ vs)
        (omega arith) (omega arith)
        (sym (append_assoc (be_bytes 4 (length xs % 2 ^ 32)) _ _)
          ∙ e
          ∙ append_assoc (be_bytes 4 (length ys % 2 ^ 32)) _ _) in
    append_cancel xs ys us vs (omega arith) rest

-- Two contents with the same canonical bytes are the same content, if their fields lie in the ranges
-- of their Rust types (the version in 16 bits, identifiers in 32 bytes, the time in 64 bits) and they
-- have fewer than 2 ^ 32 parents, bytes of the event type and bytes of the payload.
pub canonical_content-injective :
    (c d : EventContent)
    → IsEncodable c
    → IsEncodable d
    → canonical_content c ≡ canonical_content d
    → c ≡ d
unfolding canonical_content
canonical_content-injective c d hc hd e =
    let (_, e1) = append_cancel content_domain content_domain _ _ refl e in
    let (version, e2) =
      be_bytes_cancel 2 c.protocol_version d.protocol_version _ _ hc.version hd.version e1 in
    let (community, e3) =
      put_community_cancel c.community_id d.community_id _ _ hc.community hd.community e2 in
    let (count, e4) =
      be_bytes_cancel 4 (length c.parents % 2 ^ 32) (length d.parents % 2 ^ 32) _ _ (omega arith)
        (omega arith) e3 in
    let (parents, e5) =
      put_parents_cancel c.parents d.parents _ _ hc.parents hd.parents
        (omega (arith, count, hc.parent_count, hd.parent_count)) e4 in
    let (stamp, e6) =
      append_cancel (i64_bytes c.timestamp_ms) (i64_bytes d.timestamp_ms) _ _
        (length-i64_bytes _ ∙ sym (length-i64_bytes _)) e5 in
    let (kind, e7) =
      put_bytes_cancel c.event_type d.event_type _ _ hc.type_length hd.type_length e6 in
    let (body, _) =
      put_bytes_cancel c.payload d.payload [] [] hc.payload_length hd.payload_length
        (append-nil _ ∙ e7 ∙ sym (append-nil _)) in
    ground
      (arith, i64_bytes-injective c.timestamp_ms d.timestamp_ms hc.timestamp hd.timestamp stamp)
