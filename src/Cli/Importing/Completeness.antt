-- ===== src/Cli/Importing/Completeness.antt =====
-- crates/cli/src/main.rs: an archive that is taken in is taken in completely.
use chatcommons.Prelude.{
  ℕ, zero, suc, ◌+◌, ◌-◌, ◌≤◌, ◌≡◌, ◌==◌, ◌||◌, refl, true, false, Option, none, some, List, [],
  ◌∷◌, ◌++◌, length, length-append, ok, err, arith, sym, ◌∙◌, subst, inl, inr, Bool-cases,
  Result-cases, Option-cases,
}
use chatcommons.Prelude.Sets
use chatcommons.Prelude.Sets.{Set, contains-insert}
use chatcommons.Prelude.Maps
use chatcommons.Prelude.Maps.{Map}
use chatcommons.Protocol.{EventId, SignedEvent}
use chatcommons.Storage.{Sqlite}
use chatcommons.Network.{Synchronizer}
use chatcommons.Cli.Importing.{
  set_count, listed, none_left, Ordered, count_parents, count_all, release, order, complete,
  order_counted, topological,
}
use chatcommons.Cli.Importing.Ordering.{
  waiting, waiting-none_left, length-count_all, release_bounded,
}

-- Every identifier without a parent to wait for is ready or in the order.
abbrev Settled : Map ℕ → Set → List EventId → Type 0
Settled counts ready ids =
    (id : EventId)
    → Maps.lookup id counts ≡ some 0
    → (Sets.contains id ready || Sets.contains id ids) ≡ true

none_left-Settled : (counts : Map ℕ) → Settled counts (none_left counts) []
unfolding none_left Maps.lookup Sets.contains
none_left-Settled [] id l = absurd cc
none_left-Settled ((key, count) ∷ m) id l = ground (arith, l, none_left-Settled m id)

lookup-set_count :
    (id other count : ℕ) (m : Map ℕ)
    → (id == other) ≡ false
    → Maps.lookup id (set_count other count m) ≡ Maps.lookup id m
unfolding Maps.lookup set_count
lookup-set_count id other count [] h = refl
lookup-set_count id other count ((key, value) ∷ m) h =
    ground (arith, h, lookup-set_count id other count m h)

keys-set_count : (id count : ℕ) (m : Map ℕ) → Maps.keys (set_count id count m) ≡ Maps.keys m
unfolding set_count
keys-set_count id count [] = refl
keys-set_count id count ((key, value) ∷ m) = ground (arith, keys-set_count id count m)

pub contains-append :
    (id : ℕ) (xs ys : List ℕ)
    → Sets.contains id (xs ++ ys) ≡ (Sets.contains id xs || Sets.contains id ys)
unfolding Sets.contains
contains-append id [] ys = refl
contains-append id (x ∷ xs) ys = ground (arith, contains-append id xs ys)

lookup-set_count_same :
    (id count value : ℕ) (m : Map ℕ)
    → Maps.lookup id (set_count id count m) ≡ some value
    → value ≡ count
unfolding Maps.lookup set_count
lookup-set_count_same id count value [] h = absurd cc
lookup-set_count_same id count value ((key, v) ∷ m) h =
    ground (arith, h, lookup-set_count_same id count value m)

not_waiting :
    (m : Map ℕ)
    → waiting m ≡ 0
    → (id : ℕ) → Sets.contains id (Maps.keys m) ≡ true
    → Maps.lookup id m ≡ some 0
unfolding Maps.lookup Sets.contains
not_waiting [] h id c = absurd cc
not_waiting ((key, count) ∷ m) h id c = elim (Bool-cases (count == 0)) [
  | inl t ↦ ground (arith, t, not_waiting m (ground (arith, h, t)) id)
  | inr f ↦ absurd (ground (arith, h, f))
]

-- One parent less to wait for.
Settled-set_count :
    (child count : ℕ) (counts : Map ℕ) (ready : Set) (ids : List EventId)
    → Settled counts ready ids
    → Settled
        (set_count child (count - 1) counts)
        (elim (count - 1 == 0) [ true ↦ Sets.insert child ready | false ↦ ready ])
        ids
Settled-set_count child count counts ready ids s id l = elim (Bool-cases (id == child)) [
  | inl same ↦
      let same : id ≡ child = ground arith in
      let zero : 0 ≡ count - 1 =
        lookup-set_count_same child (count - 1) 0 counts
          (subst (λ i. Maps.lookup i (set_count child (count - 1) counts) ≡ some 0) same l) in
      ground (arith, zero, same, contains-insert id child ready)
  | inr another ↦ ground (
    arith,
    s id (sym (lookup-set_count id child (count - 1) counts another) ∙ l),
    contains-insert id child ready,
  )
]

Settled-pop :
    (id : EventId) (counts : Map ℕ) (ready : Set) (ids : List EventId)
    → Settled counts (id ∷ ready) ids
    → Settled counts ready (ids ++ id ∷ [])
unfolding Sets.contains
Settled-pop id counts ready ids s j l = ground (arith, s j l, contains-append j ids (id ∷ []))

module _ (q : Sqlite) (z : Synchronizer) where
  release-Settled :
      (children : List EventId) (counts after : Map ℕ) (ready next : Set) (ids : List EventId)
      → release q z children counts ready ≡ ok (after, next)
      → Settled counts ready ids
      → Settled after next ids × (Maps.keys after ≡ Maps.keys counts)
  unfolding release
  release-Settled [] counts after ready next ids h s =
      (λ id l. ground (arith, h, s id (ground (arith, h, l))), ground (arith, h))
  release-Settled (child ∷ children) counts after ready next ids h s =
      elim (Option-cases (Maps.lookup child counts)) [
        | inl missing ↦ absurd (ground (arith, h, missing))
        | inr (count, l) ↦ elim (Bool-cases (count == 0)) [
          | inl t ↦ absurd (ground (arith, h, l, t))
          | inr f ↦
              let (settled, keys) =
                release-Settled children (set_count child (count - 1) counts) after
                  (elim (count - 1 == 0) [ true ↦ Sets.insert child ready | false ↦ ready ]) next
                  ids (ground (arith, h, l, f))
                  (Settled-set_count child count counts ready ids s) in
              (settled, keys ∙ keys-set_count child (count - 1) counts)
        ]
      ]

  -- An order as long as the events are many has them all.
  order_covers :
      (fuel expected : ℕ) (children : Map (List EventId)) (counts : Map ℕ) (ready : Set)
      (ids out : List EventId)
      → order q z fuel children counts ready ids ≡ some (ok out)
      → Settled counts ready ids
      → waiting counts + length ready + length ids ≤ expected
      → length out ≡ expected
      → (id : EventId) → Sets.contains id (Maps.keys counts) ≡ true
      → Sets.contains id out ≡ true
  unfolding order
  order_covers zero expected children counts ready ids out h s b e id c = absurd cc
  order_covers (suc fuel) expected children counts [] ids out h s b e id c =
      let same : ids ≡ out = ground (arith, h) in
      let done : waiting counts ≡ 0 = ground (arith, b, e, same) in
      subst (λ o. Sets.contains id o ≡ true) same
        (ground (arith, s id (not_waiting counts done id c), contains-append id [] ids))
  order_covers (suc fuel) expected children counts (x ∷ ready) ids out h s b e id c =
      elim (Result-cases (release q z (listed (Maps.lookup x children)) counts ready)) [
        | inl (f, r) ↦ absurd (ground (arith, rw (order, r) at h))
        | inr ((after, next), r) ↦
            let (settled, keys) =
              release-Settled (listed (Maps.lookup x children)) counts after ready next
                (ids ++ x ∷ []) r (Settled-pop x counts ready ids s) in
            order_covers fuel expected (Maps.remove x children) after next (ids ++ x ∷ []) out
              (rw (order, r) at h) settled
              (omega (
                arith,
                b,
                release_bounded q z (listed (Maps.lookup x children)) counts after ready next r,
                length-append ids (x ∷ []),
              ))
              e id (rw keys c)
      ]

  keys-count_all :
      (known : Set) (pending rest : Map SignedEvent) (children grown : Map (List EventId))
      (counts : Map ℕ)
      → count_all q z known pending rest children ≡ ok (counts, grown)
      → Maps.keys counts ≡ Maps.keys rest
  unfolding count_all
  keys-count_all known pending [] children grown counts h = ground (arith, h)
  keys-count_all known pending ((id, e) ∷ rest) children grown counts h =
      elim (Result-cases (count_parents q z known pending id e.parents 0 children)) [
        | inl (f, c) ↦ absurd (ground (arith, h, c))
        | inr ((remaining, next), c) ↦ elim (Result-cases (count_all q z known pending rest next)) [
          | inl (f, d) ↦ absurd (ground (arith, h, c, d))
          | inr ((tail, last), d) ↦
              ground (arith, h, c, d, keys-count_all known pending rest next last tail d)
        ]
      ]

  -- The order that is found has all pending events.
  pub topological_covers :
      (known : Set) (pending : Map SignedEvent) (ids : List EventId)
      → topological q z known pending ≡ some (ok ids)
      → (id : EventId) → Sets.contains id (Maps.keys pending) ≡ true
      → Sets.contains id ids ≡ true
  unfolding topological
  topological_covers known pending ids h id c =
      counted (count_all q z known pending pending []) refl h
    where
      ordered :
          (counts : Map ℕ) (children : Map (List EventId))
          → count_all q z known pending pending [] ≡ ok (counts, children)
          → (found : Option (Ordered q z (List EventId)))
          → order q z (suc (length pending)) children counts (none_left counts) [] ≡ found
          → complete q z (length pending) found ≡ some (ok ids)
          → Sets.contains id ids ≡ true
      ordered counts children k none o h = absurd cc
      ordered counts children k (some (err e)) o h = absurd cc
      ordered counts children k (some (ok out)) o h =
          let keys = keys-count_all known pending pending [] children counts k in
          elim (Bool-cases (length out == length pending)) [
            | inl t ↦
                let same : out ≡ ids = ground (arith, rw (complete, t) at h) in
                subst (λ o. Sets.contains id o ≡ true) same
                  (order_covers (suc (length pending)) (length pending) children counts
                    (none_left counts) [] out o (none_left-Settled counts)
                    (omega (
                      arith,
                      waiting-none_left counts,
                      length-count_all q z known pending pending [] children counts k,
                    ))
                    (ground (arith, t)) id (rw keys c))
            | inr f ↦ absurd (ground (arith, rw (complete, f) at h))
          ]

      counted :
          (found : Ordered q z (Map ℕ × Map (List EventId)))
          → count_all q z known pending pending [] ≡ found
          → order_counted q z (length pending) found ≡ some (ok ids)
          → Sets.contains id ids ≡ true
      counted (err e) k h = absurd cc
      counted (ok (counts, children)) k h =
          ordered counts children k
            (order q z (suc (length pending)) children counts (none_left counts) []) refl h
