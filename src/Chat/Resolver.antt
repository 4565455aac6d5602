-- ===== src/Chat/Resolver.antt =====
-- `resolve` of crates/profile-chat/src/lib.rs: the rounds over the pending events. `none` stands for
-- an index into a map that panics, and for a loop that has run out of fuel.
pub mod Step
pub mod Picks
pub mod Rounds
pub mod Accounting
pub mod Causality
pub mod Authority
pub mod Lookups
pub mod Totality
pub mod Order
use chatcommons.Prelude.{
  ℕ, zero, suc, ◌≡◌, Bool, true, false, not, ◌&&◌, ◌||◌, Option, none, some, List, [], ◌∷◌, ◌++◌,
  length, is_empty, all, any, ◌==◌, ltb, if◌then◌else◌, Result, ok, err,
}
use chatcommons.Prelude.Bytes.{Bytes}
use chatcommons.Prelude.Options.{◌>>=◌}
use chatcommons.Prelude.Sets
use chatcommons.Prelude.Sets.{Set}
use chatcommons.Prelude.Maps
use chatcommons.Prelude.Maps.{Map}
use chatcommons.Crypto.{Primitives, UserId, public_key_len}
use chatcommons.Protocol.{EventId, SignedEvent, Codec}
use chatcommons.Chat.{
  ChatPayload, community_create, member_remove, administrator_revoke, ChatError, RejectionReason,
  missing_parent, parent_rejected, State, initial, ChatSnapshot, ChatResolution,
}
use chatcommons.Chat.Rules.{Verdict, validate_context, apply}
use chatcommons.Chat.Book.{Book, blank, index}

unfoldable pub priority : ChatPayload → ℕ
priority (community_create profile name) = 0
priority (member_remove member) = 1
priority (administrator_revoke member) = 1
priority _ = 2

-- The variables of the loop.
pub record Progress : Type 0 where
  pub state : State
  pub accepted : Set
  pub accepted_in_order : List EventId
  pub rejected : Map RejectionReason
  pub pending : Set

abbrev pub start : Book → Progress
start b = record {
  state = initial;
  accepted = [];
  accepted_in_order = [];
  rejected = b.refused;
  pending = Sets.collect (Maps.keys b.payloads);
}

abbrev pub reject : Progress → EventId → RejectionReason → Progress
reject g id reason = record g { rejected = Maps.insert id reason g.rejected }

abbrev pub no_pending_parent : Set → SignedEvent → Bool
no_pending_parent pending event = all (λ parent. not (Sets.contains parent pending)) event.parents

-- The filter of the pending events: no parent is pending itself.
unfoldable pub ready : Book → Set → List EventId → Option (List EventId)
ready b pending [] = some []
ready b pending (id ∷ ids) = do
  event ← Maps.lookup id b.by_id
  rest ← ready b pending ids
  some (if no_pending_parent pending event then id ∷ rest else rest)

-- `sort_by_key` on the pair of priority and identifier.
abbrev pub Key : Type 0
Key = ℕ × EventId

abbrev pub precedes : Key → Key → Bool
precedes a b = ltb a.0 b.0 || (a.0 == b.0 && ltb a.1 b.1)

unfoldable pub keyed : Book → List EventId → Option (List Key)
unfolding priority
keyed b [] = some []
keyed b (id ∷ ids) = do
  payload ← Maps.lookup id b.payloads
  rest ← keyed b ids
  some ((priority payload, id) ∷ rest)

unfoldable pub place_key : Key → List Key → List Key
place_key k [] = k ∷ []
place_key k (j ∷ js) = let rest = place_key k js in if precedes j k then j ∷ rest else k ∷ j ∷ js

unfoldable pub sort_keys : List Key → List Key
unfolding place_key
sort_keys [] = []
sort_keys (k ∷ ks) = place_key k (sort_keys ks)

abbrev pub ids_of : List Key → List EventId
ids_of [] = []
ids_of ((rank, id) ∷ ks) = id ∷ ids_of ks

abbrev pub reject_all : List EventId → Map RejectionReason → Map RejectionReason
reject_all [] m = m
reject_all (id ∷ ids) m = reject_all ids (Maps.insert id missing_parent m)

-- Invitations that nobody has accepted, with a key of the right length.
abbrev pub active : Set → Map Bytes → Map Bytes
active used [] = []
active used ((id, key) ∷ m) =
    if not (Sets.contains id used) && length key == public_key_len
    then (id, key) ∷ active used m
    else active used m

module _ (p : Primitives) where
  -- The `match` on the verdict.
  abbrev pub judge : Progress → SignedEvent → EventId → ChatPayload → UserId → Verdict → Progress
  judge g event id payload author (ok done) = record g {
    state = apply p g.state event payload author;
    accepted = Sets.insert id g.accepted;
    accepted_in_order = g.accepted_in_order ++ id ∷ [];
  }
  judge g event id payload author (err reason) = reject g id reason

  -- The checks of an event that has left the pending set.
  unfoldable pub settle : Book → Progress → EventId → SignedEvent → Option Progress
  settle b g id event =
      if any (λ parent. not (Maps.contains_key parent b.by_id)) event.parents
      then some (reject g id missing_parent)
      else if any (λ parent. Maps.contains_key parent g.rejected) event.parents
      then some (reject g id parent_rejected)
      else do
        payload ← Maps.lookup id b.payloads
        author ← Maps.lookup id b.authors
        some (
            judge g event id payload author
              (validate_context p g.state event payload author g.accepted))

  -- The body of the loop over a round, for one identifier.
  unfoldable pub process : Book → Progress → EventId → Option Progress
  process b g id = do
    event ← Maps.lookup id b.by_id
    settle b (record g { pending = Sets.remove id g.pending }) id event

  unfoldable pub batch : Book → Progress → List EventId → Option Progress
  batch b g [] = some g
  batch b g (id ∷ ids) = do next ← process b g id; batch b next ids

  -- One pass of `loop`; the inner `none` is its `break`.
  unfoldable pub round : Book → Progress → Option (Option Progress)
  round b g = do
    ids ← ready b g.pending g.pending
    keys ← keyed b ids
    if is_empty ids
        then some none
        else do next ← batch b g (ids_of (sort_keys keys)); some (some next)

  unfoldable pub rounds : ℕ → Book → Progress → Option Progress
  rounds zero b g = none
  rounds (suc fuel) b g = do
    outcome ← round b g
    elim outcome [ none ↦ some g | some next ↦ rounds fuel b next ]

  unfoldable pub finish : Progress → ChatResolution
  finish g = record {
    accepted_in_order = g.accepted_in_order;
    rejected = reject_all g.pending g.rejected;
    snapshot = record {
      community = g.state.community;
      owner = g.state.owner;
      members = g.state.members;
      administrators = g.state.administrators;
      channels = g.state.channels;
      active_invitations = active g.state.accepted_invitations g.state.invitations;
      home_server = g.state.home_server;
      event_ids = g.accepted;
    };
  }

  unfoldable pub resolve_book : Book → Option ChatResolution
  unfolding finish
  resolve_book b = do g ← rounds (suc (length (start b).pending)) b (start b); some (finish g)

  abbrev pub resolve_indexed : Result ChatError Book → Option (Result ChatError ChatResolution)
  resolve_indexed (err e) = some (err e)
  resolve_indexed (ok b) = do resolution ← resolve_book b; some (ok resolution)

  unfoldable pub resolve :
      Codec ChatPayload → List SignedEvent → Option (Result ChatError ChatResolution)
  resolve chat_codec events = resolve_indexed (index chat_codec p blank events)
