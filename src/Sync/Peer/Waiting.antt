-- ===== src/Sync/Peer/Waiting.antt =====
-- The pending events of `SyncPeer` in crates/sync/src/lib.rs: what they are, and how many.
use chatcommons.Prelude.{
  ℕ, ◌+◌, ◌==◌, ◌≤◌, ◌≡◌, ◌⊎◌, inl, inr, refl, true, false, ◌||◌, some, List, [], ◌∷◌, ◌++◌, length,
  All, arith, Bool-cases, ◌∙◌, length-append,
}
use chatcommons.Prelude.Sets
use chatcommons.Prelude.Sets.{
  Set, contains, contains-extend, IsAscending, Distinct-of_IsAscending, length-subset-le,
}
use chatcommons.Prelude.Maps
use chatcommons.Prelude.Maps.{
  Map, lookup, keys, contains-keys, contains_key, lookup-insert, lookup-or_insert, keys-or_insert,
  length-keys, Every,
}
use chatcommons.Protocol.{SignedEvent, EventId}
use chatcommons.Sync.Peer.{insert_new, retain_unknown}

-- An entry after `insert_new` was there, or is a given event under its own identifier.
pub lookup-insert_new :
    (P : EventId → SignedEvent → Type 0) (new_ids : Set) (m : Map SignedEvent)
    (given : List SignedEvent)
    → Every P m
    → All (λ e. P e.event_id e) given
    → Every P (insert_new new_ids m given)
unfolding insert_new
lookup-insert_new P new_ids m [] old new = old
lookup-insert_new P new_ids m (e ∷ given) old new =
    elim (Bool-cases (contains e.event_id new_ids)) [
      | inl t ↦
          rw (insert_new, t)
            (lookup-insert_new P new_ids (Maps.or_insert e.event_id e m) given
              (λ j d l. placed j d (lookup-or_insert j e.event_id e d m l)) new.1)
      | inr f ↦ rw (insert_new, f) (lookup-insert_new P new_ids m given old new.1)
    ]
  where
    placed :
        (j : EventId) (d : SignedEvent)
        → (lookup j m ≡ some d) ⊎ ((j ≡ e.event_id) × (d ≡ e))
        → P j d
    placed j d (inl l) = old j d l
    placed j d (inr (i, s)) = rw (i, s) (new.0)

IsAscending-or_insert :
    (id : EventId) (e : SignedEvent) (m : Map SignedEvent)
    → IsAscending (keys m)
    → IsAscending (keys (Maps.or_insert id e m))
unfolding Maps.or_insert
IsAscending-or_insert id e m a = elim (Bool-cases (contains_key id m)) [
  | inl t ↦ rw t a
  | inr f ↦ rw (f, Maps.keys-insert id e m) (Sets.IsAscending-insert id (keys m) a)
]

pub IsAscending-insert_new :
    (new_ids : Set) (m : Map SignedEvent) (given : List SignedEvent)
    → IsAscending (keys m)
    → IsAscending (keys (insert_new new_ids m given))
unfolding insert_new
IsAscending-insert_new new_ids m [] a = a
IsAscending-insert_new new_ids m (e ∷ given) a = elim (Bool-cases (contains e.event_id new_ids)) [
  | inl t ↦
      rw (insert_new, t)
        (IsAscending-insert_new new_ids (Maps.or_insert e.event_id e m) given
          (IsAscending-or_insert e.event_id e m a))
  | inr f ↦ rw (insert_new, f) (IsAscending-insert_new new_ids m given a)
]

-- A key after `insert_new` was there or is new.
contains-insert_new :
    (j : EventId) (new_ids : Set) (m : Map SignedEvent) (given : List SignedEvent)
    → contains j (keys (insert_new new_ids m given)) ≡ true
    → (contains j (keys m) || contains j new_ids) ≡ true
unfolding insert_new
contains-insert_new j new_ids m [] h = ground arith
contains-insert_new j new_ids m (e ∷ given) h = elim (Bool-cases (contains e.event_id new_ids)) [
  | inl t ↦
      let inner =
        contains-insert_new j new_ids (Maps.or_insert e.event_id e m) given
          (rw (insert_new, t) at h) in
      elim (Bool-cases (j == e.event_id)) [
        | inl same ↦ ground (arith, t)
        | inr other ↦ ground (arith, inner, keys-or_insert j e.event_id e m)
      ]
  | inr f ↦ contains-insert_new j new_ids m given (rw (insert_new, f) at h)
]

contains-append :
    (j : ℕ) (xs ys : List ℕ) → contains j (xs ++ ys) ≡ (contains j xs || contains j ys)
unfolding contains
contains-append j [] ys = refl
contains-append j (x ∷ xs) ys = ground (arith, contains-append j xs ys)

-- No more become pending than there are new identifiers.
pub length-insert_new :
    (new_ids : Set) (m : Map SignedEvent) (given : List SignedEvent)
    → IsAscending (keys m)
    → length (insert_new new_ids m given) ≤ length m + length new_ids
length-insert_new new_ids m given a = omega (
  arith,
  length-keys m,
  length-keys (insert_new new_ids m given),
  length-append (keys m) new_ids,
  length-subset-le (keys (insert_new new_ids m given)) (keys m ++ new_ids)
      (Distinct-of_IsAscending _ (IsAscending-insert_new new_ids m given a))
      (λ j h. contains-append j (keys m) new_ids ∙ contains-insert_new j new_ids m given h),
)

pub length-retain_unknown-le :
    (known : Set) (m : Map SignedEvent) → length (retain_unknown known m) ≤ length m
unfolding retain_unknown
length-retain_unknown-le known [] = omega arith
length-retain_unknown-le known ((id, e) ∷ m) = elim (Bool-cases (contains id known)) [
  | inl t ↦ rw (retain_unknown, t) (omega (arith, length-retain_unknown-le known m))
  | inr f ↦ rw (retain_unknown, f) (omega (arith, length-retain_unknown-le known m))
]

IsAbove-retain_unknown :
    (b : ℕ) (known : Set) (m : Map SignedEvent)
    → Sets.IsAbove b (keys m)
    → Sets.IsAbove b (keys (retain_unknown known m))
unfolding retain_unknown
IsAbove-retain_unknown b known [] a = tt
IsAbove-retain_unknown b known ((id, e) ∷ m) a = elim (Bool-cases (contains id known)) [
  | inl t ↦
      rw (retain_unknown, t)
        (IsAbove-retain_unknown b known m (Sets.IsAbove-lt b id (keys m) a.0 a.1))
  | inr f ↦ rw (retain_unknown, f) (a.0, IsAbove-retain_unknown id known m a.1)
]

pub IsAscending-retain_unknown :
    (known : Set) (m : Map SignedEvent)
    → IsAscending (keys m)
    → IsAscending (keys (retain_unknown known m))
unfolding retain_unknown
IsAscending-retain_unknown known [] a = tt
IsAscending-retain_unknown known ((id, e) ∷ m) a = elim (Bool-cases (contains id known)) [
  | inl t ↦
      rw (retain_unknown, t)
        (IsAscending-retain_unknown known m (Sets.IsAscending-above id (keys m) a))
  | inr f ↦ rw (retain_unknown, f) (IsAbove-retain_unknown id known m a)
]

-- What is retained was pending and is not known.
pub lookup-retain_unknown :
    (known : Set) (m : Map SignedEvent) (j : EventId) (d : SignedEvent)
    → lookup j (retain_unknown known m) ≡ some d
    → (lookup j m ≡ some d) × (contains j known ≡ false)
unfolding retain_unknown lookup
lookup-retain_unknown known [] j d l = cc
lookup-retain_unknown known ((id, e) ∷ m) j d l = elim (Bool-cases (contains id known)) [
  | inl t ↦
      let (old, free) = lookup-retain_unknown known m j d (rw (retain_unknown, t) at l) in
      elim (Bool-cases (j == id)) [
        | inl same ↦ absurd (ground (arith, t, free))
        | inr other ↦ (rw (lookup, other) old, free)
      ]
  | inr f ↦ elim (Bool-cases (j == id)) [
    | inl same ↦ (ground (arith, f, same), ground (arith, f))
    | inr other ↦
        let (old, free) =
          lookup-retain_unknown known m j d (rw (lookup, other) at (rw (retain_unknown, f) at l)) in
        (rw (lookup, other) old, free)
  ]
]
