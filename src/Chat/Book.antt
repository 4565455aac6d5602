-- ===== src/Chat/Book.antt =====
-- The first loop of `resolve` in crates/profile-chat/src/lib.rs: every event is validated and entered
-- under its identifier.
pub mod Filing
pub mod Sources
use chatcommons.Prelude.{◌≡◌, List, [], ◌∷◌, Result, ok, err, ◌>>=◌, map_err}
use chatcommons.Prelude.Maps
use chatcommons.Prelude.Maps.{Map}
use chatcommons.Crypto.{Primitives, UserId}
use chatcommons.Protocol.{SignedEvent, Codec, validate_event, author_id}
use chatcommons.Chat.{ChatPayload, ChatError, protocol, RejectionReason, invalid_payload, decode}

-- What `resolve` keeps about the events: the maps `by_id`, `payloads`, `authors` and, as far as this
-- loop fills it, `rejected`.
pub record Book : Type 0 where
  pub by_id : Map SignedEvent
  pub payloads : Map ChatPayload
  pub authors : Map UserId
  pub refused : Map RejectionReason

abbrev pub blank : Book
blank = record { by_id = []; payloads = []; authors = []; refused = [] }

-- The entry of one event, with its author and its decoded payload.
unfoldable pub enter : Book → SignedEvent → UserId → Result ChatError ChatPayload → Book
enter b event author (ok payload) = record {
  by_id = Maps.or_insert event.event_id event b.by_id;
  payloads = Maps.insert event.event_id payload b.payloads;
  authors = Maps.insert event.event_id author b.authors;
  refused = b.refused;
}
enter b event author (err e) = record {
  by_id = Maps.or_insert event.event_id event b.by_id;
  payloads = b.payloads;
  authors = Maps.insert event.event_id author b.authors;
  refused = Maps.insert event.event_id invalid_payload b.refused;
}

module _ (chat_codec : Codec ChatPayload) (p : Primitives) where
  unfoldable pub index : Book → List SignedEvent → Result ChatError Book
  index b [] = ok b
  index b (event ∷ rest) = do
    checked ← map_err protocol (validate_event p event)
    author ← map_err protocol (author_id p event)
    index (enter b event author (decode chat_codec event)) rest
