-- ===== src/Chat/Book/Sources.antt =====
-- Where the entries come from that the first loop of `resolve` in crates/profile-chat/src/lib.rs makes.
use chatcommons.Prelude.{
  ◌≡◌, refl, inl, inr, true, false, ◌&&◌, some, List, [], ◌∷◌, In, Result, ok, err, arith, ◌==◌,
  ◌∙◌, sym, subst, Bool-cases, ==_iff,
}
use chatcommons.Prelude.Options.{some_inj}
use chatcommons.Prelude.Sets.{contains, Distinct}
use chatcommons.Prelude.Maps
use chatcommons.Prelude.Maps.{Map, lookup, lookup-insert, lookup-some, or_insert, contains_key}
use chatcommons.Crypto.{Primitives, UserId}
use chatcommons.Protocol.{SignedEvent, EventId, Codec, validate_event, author_id}
use chatcommons.Chat.{ChatPayload, ChatError, RejectionReason, invalid_payload, decode}
use chatcommons.Chat.Book.{Book, blank, enter, index}
use chatcommons.Chat.Book.Filing.{index_step, index_end}

-- Identifiers determine events.
abbrev pub IsCoherent : List SignedEvent → Type 0
IsCoherent events =
    (d e : SignedEvent) → In d events → In e events → d.event_id ≡ e.event_id → d ≡ e

-- The last entry wins.
inserted :
    {V : Type 0} (P : EventId → V → Type 0) (k : EventId) (v : V) (m : Map V)
    → P k v
    → ((j : EventId) (w : V) → lookup j m ≡ some w → P j w)
    → (j : EventId) (w : V) → lookup j (Maps.insert k v m) ≡ some w
    → P j w
inserted P k v m h old j w e = elim (Bool-cases (j == k)) [
  | inl same ↦
      rw ((==_iff j k).0 same)
        (subst (P k) (some_inj v w (ground (arith, lookup-insert j k v m))) h)
  | inr other ↦ old j w (ground (arith, lookup-insert j k v m))
]

module _ (chat_codec : Codec ChatPayload) (p : Primitives) (events : List SignedEvent) where
  -- An event of the input under the identifier, with a property.
  abbrev Source : (SignedEvent → Type 0) → EventId → Type 0
  Source P j = (e : SignedEvent) × In e events × (e.event_id ≡ j) × P e

  pub record IsSourced (b : Book) : Type 0 where
    pub events_from :
        (j : EventId) (e : SignedEvent)
        → lookup j b.by_id ≡ some e
        → Source (λ d. (d ≡ e) × (validate_event p d ≡ ok tt)) j
    pub payloads_from :
        (j : EventId) (payload : ChatPayload)
        → lookup j b.payloads ≡ some payload
        → Source (λ d. decode chat_codec d ≡ ok payload) j
    pub authors_from :
        (j : EventId) (author : UserId)
        → lookup j b.authors ≡ some author
        → Source (λ d. author_id p d ≡ ok author) j
    pub refusals_from :
        (j : EventId) (reason : RejectionReason)
        → lookup j b.refused ≡ some reason
        → Source
            (λ d.
              (reason ≡ invalid_payload) × (error : ChatError) × (decode chat_codec d ≡ err error))
            j

  or_inserted :
      (k : EventId) (v : SignedEvent) (m : Map SignedEvent) (P : EventId → SignedEvent → Type 0)
      → P k v
      → ((j : EventId) (w : SignedEvent) → lookup j m ≡ some w → P j w)
      → (j : EventId) (w : SignedEvent) → lookup j (or_insert k v m) ≡ some w
      → P j w
  unfolding or_insert
  or_inserted k v m P h old j w e = elim (Bool-cases (contains_key k m)) [
    | inl held ↦ old j w (rw (held, or_insert) at e)
    | inr fresh ↦ inserted P k v m h old j w (rw (fresh, or_insert) at e)
  ]

  enter-IsSourced :
      (b : Book) (e : SignedEvent) (author : UserId) (decoded : Result ChatError ChatPayload)
      → In e events
      → validate_event p e ≡ ok tt
      → author_id p e ≡ ok author
      → decode chat_codec e ≡ decoded
      → IsSourced b
      → IsSourced (enter b e author decoded)
  unfolding enter
  enter-IsSourced b e author (ok payload) i v a d s = record {
    events_from =
        or_inserted e.event_id e b.by_id
          (λ j w. Source (λ d. (d ≡ w) × (validate_event p d ≡ ok tt)) j) (e, i, refl, (refl, v))
          s.events_from;
    payloads_from =
        inserted (λ j w. Source (λ d. decode chat_codec d ≡ ok w) j) e.event_id payload b.payloads
          (e, i, refl, d) s.payloads_from;
    authors_from =
        inserted (λ j w. Source (λ d. author_id p d ≡ ok w) j) e.event_id author b.authors
          (e, i, refl, a) s.authors_from;
    refusals_from = s.refusals_from;
  }
  enter-IsSourced b e author (err error) i v a d s = record {
    events_from =
        or_inserted e.event_id e b.by_id
          (λ j w. Source (λ d. (d ≡ w) × (validate_event p d ≡ ok tt)) j) (e, i, refl, (refl, v))
          s.events_from;
    payloads_from = s.payloads_from;
    authors_from =
        inserted (λ j w. Source (λ d. author_id p d ≡ ok w) j) e.event_id author b.authors
          (e, i, refl, a) s.authors_from;
    refusals_from =
        inserted
          (λ j w.
            Source
              (λ d. (w ≡ invalid_payload) × (error : ChatError) × (decode chat_codec d ≡ err error))
              j)
          e.event_id invalid_payload b.refused (e, i, refl, (refl, error, d)) s.refusals_from;
  }

  index-IsSourced :
      (b c : Book) (rest : List SignedEvent)
      → ((e : SignedEvent) → In e rest → In e events)
      → index chat_codec p b rest ≡ ok c
      → IsSourced b
      → IsSourced c
  index-IsSourced b c [] sub h s = subst IsSourced (index_end chat_codec p b c h) s
  index-IsSourced b c (e ∷ rest) sub h s =
      let (author, v, a, h') = index_step chat_codec p b c e rest h in
      index-IsSourced (enter b e author (decode chat_codec e)) c rest (λ d i. sub d (inr i)) h'
        (enter-IsSourced b e author (decode chat_codec e) (sub e (inl refl)) v a refl s)

  blank-IsSourced : IsSourced blank
  unfolding lookup
  blank-IsSourced = record {
    events_from = λ j e h. absurd (ground arith);
    payloads_from = λ j e h. absurd (ground arith);
    authors_from = λ j e h. absurd (ground arith);
    refusals_from = λ j e h. absurd (ground arith);
  }

  pub book-IsSourced : (c : Book) → index chat_codec p blank events ≡ ok c → IsSourced c
  book-IsSourced c h = index-IsSourced blank c events (λ e i. i) h blank-IsSourced

  -- Among coherent events none is both to be judged and refused.
  pub book_exclusive :
      (c : Book)
      → IsCoherent events
      → index chat_codec p blank events ≡ ok c
      → (j : EventId) → (contains_key j c.payloads && contains_key j c.refused) ≡ false
  book_exclusive c coherent h j =
      elim (Bool-cases (contains_key j c.payloads && contains_key j c.refused)) [
        | inr e ↦ e
        | inl e ↦
            let s = book-IsSourced c h in
            let (payload, k) = lookup-some j c.payloads (ground arith) in
            let (reason, l) = lookup-some j c.refused (ground arith) in
            let (d, i, n, q) = s.payloads_from j payload k in
            let (d', i', n', q') = s.refusals_from j reason l in
            absurd (ground (arith, coherent d d' i i' (n ∙ sym n'), q, q'.2))
      ]

abbrev event_ids : List SignedEvent → List EventId
event_ids [] = []
event_ids (e ∷ events) = e.event_id ∷ event_ids events

contains_of_In :
    (d : SignedEvent) (events : List SignedEvent)
    → In d events
    → contains d.event_id (event_ids events) ≡ true
unfolding contains
contains_of_In d (e ∷ events) (inl same) = rw same (ground arith)
contains_of_In d (e ∷ events) (inr i) = ground (arith, contains_of_In d events i)
contains_of_In d [] i = absurd i

-- Events with different identifiers are coherent.
pub IsCoherent-of_Distinct :
    (events : List SignedEvent) → Distinct (event_ids events) → IsCoherent events
IsCoherent-of_Distinct (x ∷ events) n d e (inl i) (inl j) same = i ∙ sym j
IsCoherent-of_Distinct (x ∷ events) n d e (inl i) (inr j) same =
    absurd (ground (arith, contains_of_In e events j, n.0, i))
IsCoherent-of_Distinct (x ∷ events) n d e (inr i) (inl j) same =
    absurd (ground (arith, contains_of_In d events i, n.0, j))
IsCoherent-of_Distinct (x ∷ events) n d e (inr i) (inr j) same =
    IsCoherent-of_Distinct events n.1 d e i j same
IsCoherent-of_Distinct [] n d e i j same = absurd i
