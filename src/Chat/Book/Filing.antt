-- ===== src/Chat/Book/Filing.antt =====
-- What the first loop of `resolve` in crates/profile-chat/src/lib.rs leaves in its maps.
use chatcommons.Prelude.{
  ◌≡◌, inl, inr, true, ◌||◌, some, List, [], ◌∷◌, In, Result, ok, err, >>=-eq-ok, map_err, arith,
  ◌==◌, ◌∙◌, subst,
}
use chatcommons.Prelude.Maps.{lookup, lookup-insert, or_insert, contains_key}
use chatcommons.Crypto.{Primitives, UserId}
use chatcommons.Protocol.{SignedEvent, EventId, Codec, validate_event, author_id}
use chatcommons.Chat.{ChatPayload, ChatError, protocol, invalid_payload, decode}
use chatcommons.Chat.Book.{Book, blank, enter, index}

pub record IsFiled (b : Book) : Type 0 where
  -- every known event is to be judged or refused already
  pub covered :
      (j : EventId)
      → contains_key j b.by_id ≡ true
      → (contains_key j b.payloads || contains_key j b.refused) ≡ true
  -- what is to be judged has an event and an author
  pub indexed : (j : EventId) → contains_key j b.payloads ≡ true → contains_key j b.by_id ≡ true
  pub signed : (j : EventId) → contains_key j b.payloads ≡ true → contains_key j b.authors ≡ true
  -- events are filed under their identifier
  pub named : (j : EventId) (e : SignedEvent) → lookup j b.by_id ≡ some e → e.event_id ≡ j

blank-IsFiled : IsFiled blank
unfolding lookup
blank-IsFiled = record {
  covered = λ j h. cc;
  indexed = λ j h. cc;
  signed = λ j h. cc;
  named = λ j e h. cc;
}

enter-IsFiled :
    (b : Book) (e : SignedEvent) (author : UserId) (decoded : Result ChatError ChatPayload)
    → IsFiled b
    → IsFiled (enter b e author decoded)
unfolding enter or_insert
enter-IsFiled b e author (ok payload) f = record {
  covered = λ j h. ground (
    arith,
    lookup-insert j e.event_id e b.by_id,
    lookup-insert j e.event_id payload b.payloads,
    f.covered j,
  );
  indexed = λ j h. ground (
    arith,
    lookup-insert j e.event_id e b.by_id,
    lookup-insert j e.event_id payload b.payloads,
    f.indexed j,
  );
  signed = λ j h. ground (
    arith,
    lookup-insert j e.event_id author b.authors,
    lookup-insert j e.event_id payload b.payloads,
    f.signed j,
  );
  named = λ j d h. ground (arith, lookup-insert j e.event_id e b.by_id, f.named j d);
}
enter-IsFiled b e author (err error) f = record {
  covered = λ j h. ground (
    arith,
    lookup-insert j e.event_id e b.by_id,
    lookup-insert j e.event_id invalid_payload b.refused,
    f.covered j,
  );
  indexed = λ j h. ground (arith, lookup-insert j e.event_id e b.by_id, f.indexed j);
  signed = λ j h. ground (arith, lookup-insert j e.event_id author b.authors, f.signed j);
  named = λ j d h. ground (arith, lookup-insert j e.event_id e b.by_id, f.named j d);
}

contains-enter :
    (b : Book) (e : SignedEvent) (author : UserId) (decoded : Result ChatError ChatPayload)
    (j : EventId)
    → contains_key j (enter b e author decoded).by_id ≡ (j == e.event_id || contains_key j b.by_id)
unfolding enter or_insert
contains-enter b e author (ok payload) j = ground (arith, lookup-insert j e.event_id e b.by_id)
contains-enter b e author (err error) j = ground (arith, lookup-insert j e.event_id e b.by_id)

module _ (chat_codec : Codec ChatPayload) (p : Primitives) where
  -- Inversion of one pass that does not fail.
  pub index_step :
      (b c : Book) (e : SignedEvent) (rest : List SignedEvent)
      → index chat_codec p b (e ∷ rest) ≡ ok c
      → (author : UserId) × (validate_event p e ≡ ok tt)
        × (author_id p e ≡ ok author)
        × (index chat_codec p (enter b e author (decode chat_codec e)) rest ≡ ok c)
  unfolding index
  index_step b c e rest h =
      let (done, v, h1) = >>=-eq-ok (map_err protocol (validate_event p e)) _ h in
      let (author, a, h2) = >>=-eq-ok (map_err protocol (author_id p e)) _ h1 in
      (author, ground arith, ground arith, h2)

  pub index_end : (b c : Book) → index chat_codec p b [] ≡ ok c → b ≡ c
  unfolding index
  index_end b c h = cc

  index-IsFiled :
      (b c : Book) (events : List SignedEvent)
      → index chat_codec p b events ≡ ok c
      → IsFiled b
      → IsFiled c
  index-IsFiled b c [] h f = subst IsFiled (index_end b c h) f
  index-IsFiled b c (e ∷ rest) h f =
      let (author, v, a, h') = index_step b c e rest h in
      index-IsFiled (enter b e author (decode chat_codec e)) c rest h'
        (enter-IsFiled b e author _ f)

  contains-index :
      (b c : Book) (events : List SignedEvent) (j : EventId)
      → index chat_codec p b events ≡ ok c
      → contains_key j b.by_id ≡ true
      → contains_key j c.by_id ≡ true
  contains-index b c [] j h k = subst (λ d. contains_key j d.by_id ≡ true) (index_end b c h) k
  contains-index b c (e ∷ rest) j h k =
      let (author, v, a, h') = index_step b c e rest h in
      contains-index (enter b e author (decode chat_codec e)) c rest j h'
        (contains-enter b e author (decode chat_codec e) j ∙ ground arith)

  -- Every event of the input is known.
  pub index-knows :
      (b c : Book) (events : List SignedEvent) (e : SignedEvent)
      → index chat_codec p b events ≡ ok c
      → In e events
      → contains_key e.event_id c.by_id ≡ true
  index-knows b c [] e h i = absurd i
  index-knows b c (d ∷ rest) e h (inl same) =
      let (author, v, a, h') = index_step b c d rest h in
      contains-index (enter b d author (decode chat_codec d)) c rest e.event_id h'
        (contains-enter b d author (decode chat_codec d) e.event_id ∙ ground arith)
  index-knows b c (d ∷ rest) e h (inr later) =
      let (author, v, a, h') = index_step b c d rest h in
      index-knows (enter b d author (decode chat_codec d)) c rest e h' later

  pub book-IsFiled :
      (c : Book) (events : List SignedEvent) → index chat_codec p blank events ≡ ok c → IsFiled c
  book-IsFiled c events h = index-IsFiled blank c events h blank-IsFiled
