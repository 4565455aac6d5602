-- ===== src/Node/Batch.antt =====
-- The checks of `ingest` in crates/node-core/src/lib.rs before its loop, and the map it collects.
use chatcommons.Prelude.{
  ◌≡◌, ◌≢◌, ◌⊎◌, refl, inl, inr, false, Option, none, some, List, [], ◌∷◌, ◌||◌, arith, Bool-cases,
  ◌==◌, sym, ap, ◌∙◌, ok, err, Result-cases, Option-cases, In, any,
}
use chatcommons.Prelude.Sets.{contains}
use chatcommons.Prelude.Maps
use chatcommons.Prelude.Maps.{Map, lookup, lookup-insert, contains_key}
use chatcommons.Crypto.{Primitives}
use chatcommons.Protocol
use chatcommons.Protocol.{SignedEvent, EventId, CommunityId, validate_event}
use chatcommons.Storage.{Sqlite}
use chatcommons.Node.{
  collect_into, ids_of, is_foreign, CoreNode, missing_parent, find_genesis, validate_all,
  choose_community, check_batch,
}

pub lookup-collect_into :
    (m : Map SignedEvent) (events : List SignedEvent) (id : EventId) (e : SignedEvent)
    → lookup id (collect_into m events) ≡ some e
    → (lookup id m ≡ some e) ⊎ (In e events × (e.event_id ≡ id))
unfolding collect_into
lookup-collect_into m [] id e h = inl h
lookup-collect_into m (d ∷ events) id e h =
    elim (lookup-collect_into (Maps.insert d.event_id d m) events id e h) [
      | inr (i, n) ↦ inr (inr i, n)
      | inl l ↦ elim (Bool-cases (id == d.event_id)) [
        | inl same ↦
            let here : d ≡ e = ground (arith, lookup-insert id d.event_id d m) in
            inr (inl (sym here), ap (λ x. x.event_id) (sym here) ∙ ground arith)
        | inr other ↦ inl (ground (arith, lookup-insert id d.event_id d m))
      ]
    ]

pub contains-collect_into :
    (m : Map SignedEvent) (events : List SignedEvent) (id : EventId)
    → contains_key id (collect_into m events) ≡ (contains id (ids_of events) || contains_key id m)
unfolding collect_into contains
contains-collect_into m [] id = refl
contains-collect_into m (d ∷ events) id = ground (
  arith,
  contains-collect_into (Maps.insert d.event_id d m) events id,
  lookup-insert id d.event_id d m,
)

module _ (q : Sqlite) (p : Primitives) where
  validate_all_sound :
      (events : List SignedEvent) (e : SignedEvent)
      → validate_all q p events ≡ ok tt
      → In e events
      → validate_event p e ≡ ok tt
  unfolding validate_all
  validate_all_sound [] e h i = absurd i
  validate_all_sound (d ∷ events) e h (inl same) = ap (validate_event p) same ∙ ground arith
  validate_all_sound (d ∷ events) e h (inr i) = validate_all_sound events e (ground arith) i

  pub foreign_sound :
      (community : CommunityId) (events : List SignedEvent) (e : SignedEvent)
      → any (is_foreign community) events ≡ false
      → In e events
      → is_foreign community e ≡ false
  foreign_sound community [] e h i = absurd i
  foreign_sound community (d ∷ events) e h (inl same) =
      ap (is_foreign community) same ∙ ground arith
  foreign_sound community (d ∷ events) e h (inr i) =
      foreign_sound community events e (ground arith) i

  -- A batch that passes holds valid events of one community.
  pub check_batch_sound :
      (node : CoreNode q) (events : List SignedEvent) (community : CommunityId) (e : SignedEvent)
      → check_batch q p node events ≡ ok community
      → In e events
      → (validate_event p e ≡ ok tt) × (is_foreign community e ≡ false)
  unfolding check_batch
  check_batch_sound node events community e h i = (
    validate_all_sound events e (ground arith) i,
    foreign_sound community events e (ground arith) i,
  )

  validate_all_never_missing :
      (events : List SignedEvent) → validate_all q p events ≢ err missing_parent
  unfolding validate_all
  validate_all_never_missing [] e = cc
  validate_all_never_missing (d ∷ events) e = elim (Result-cases (validate_event p d)) [
    | inl (x, v) ↦ ground (arith, e, v)
    | inr (u, v) ↦ validate_all_never_missing events (ground (arith, e, v))
  ]

  choose_community_never_missing :
      (known : Option CommunityId) (events : List SignedEvent)
      → choose_community q p known events ≢ err missing_parent
  unfolding choose_community
  choose_community_never_missing (some id) events e = cc
  choose_community_never_missing none events e = elim (Option-cases (find_genesis events)) [
    | inl f ↦ ground (arith, e, f)
    | inr (genesis, f) ↦ elim (Result-cases (Protocol.community_id p genesis)) [
      | inl (x, v) ↦ ground (arith, e, f, v)
      | inr (u, v) ↦ ground (arith, e, f, v)
    ]
  ]

  -- The checks on a batch do not look at parents.
  pub check_batch_never_missing :
      (node : CoreNode q) (events : List SignedEvent)
      → check_batch q p node events ≢ err missing_parent
  unfolding check_batch
  check_batch_never_missing node events e = elim (Result-cases (validate_all q p events)) [
    | inl (x, v) ↦ validate_all_never_missing events (v ∙ ground (arith, e, v))
    | inr (u, v) ↦ elim (Result-cases (choose_community q p node.community events)) [
      | inl (x, c) ↦
          choose_community_never_missing node.community events (c ∙ ground (arith, e, v, c))
      | inr (community, c) ↦ ground (arith, e, v, c)
    ]
  ]
