-- ===== src/Chat/Resolver/Picks.antt =====
-- Which identifiers a round of `resolve` in crates/profile-chat/src/lib.rs goes through, and in which
-- order.
use chatcommons.Prelude.{
  sym, ◌∙◌, ℕ, ◌≡◌, refl, true, false, not, ◌||◌, some, List, [], ◌∷◌, all, is_empty, All, ◌==◌,
  arith, Bool-cases, inl, inr,
}
use chatcommons.Prelude.Options.{>>=-eq-some, some_inj}
use chatcommons.Prelude.Sets
use chatcommons.Prelude.Sets.{
  Set, contains, contains-remove, Distinct, IsAscending, IsAscending-remove, IsAscending-collect,
  Distinct-of_IsAscending, All-contains_self,
}
use chatcommons.Prelude.Maps
use chatcommons.Protocol.{EventId, SignedEvent}
use chatcommons.Chat.Book.{Book}
use chatcommons.Chat.Resolver.{
  Key, ready, keyed, no_pending_parent, place_key, sort_keys, ids_of, precedes,
}

-- No parent of the event is pending.
abbrev pub IsReady : Book → Set → EventId → Type 0
IsReady b pending id =
    (event : SignedEvent)
    → Maps.lookup id b.by_id ≡ some event
    → no_pending_parent pending event ≡ true

-- What a round asks of the identifiers that it goes through.
abbrev pub Fits : Book → Set → List EventId → Type 0
Fits b pending ids =
    All (λ id. IsReady b pending id × (contains id pending ≡ true)) ids × Distinct ids

no_pending_parent-remove :
    (j : ℕ) (pending : Set) (parents : List ℕ)
    → all (λ parent. not (contains parent pending)) parents ≡ true
    → all (λ parent. not (contains parent (Sets.remove j pending))) parents ≡ true
no_pending_parent-remove j pending [] h = refl
no_pending_parent-remove j pending (x ∷ xs) h =
    ground (arith, contains-remove x j pending, no_pending_parent-remove j pending xs)

pub Fits-remove :
    (b : Book) (j : EventId) (pending : Set) (ids : List EventId)
    → contains j ids ≡ false
    → Fits b pending ids
    → Fits b (Sets.remove j pending) ids
unfolding contains
Fits-remove b j pending [] out h = (tt, tt)
Fits-remove b j pending (id ∷ ids) out h =
    let rest = Fits-remove b j pending ids (ground arith) (h.0.1, h.1.1) in
    (
      (
        (
          λ event e. no_pending_parent-remove j pending event.parents (h.0.0.0 event e),
          ground (arith, contains-remove id j pending),
        ),
        rest.0,
      ),
      h.1,
    )

contains-ready :
    (b : Book) (pending : Set) (j : ℕ) (ids out : List EventId)
    → ready b pending ids ≡ some out
    → contains j ids ≡ false
    → contains j out ≡ false
unfolding ready contains
contains-ready b pending j [] out h n = rw (← some_inj [] out h)
contains-ready b pending j (id ∷ ids) out h n =
    let (event, e, h') = >>=-eq-some (Maps.lookup id b.by_id) _ h in
    let (rest, r, h'') = >>=-eq-some (ready b pending ids) _ h' in
    ground (arith, contains-ready b pending j ids rest r)

-- The filter picks pending identifiers without pending parents, each once.
pub ready-Fits :
    (b : Book) (pending : Set) (ids out : List EventId)
    → ready b pending ids ≡ some out
    → All (λ id. contains id pending ≡ true) ids
    → Distinct ids
    → Fits b pending out
unfolding ready
ready-Fits b pending [] out h ms ds = rw (← some_inj [] out h) (tt, tt)
ready-Fits b pending (id ∷ ids) out h ms ds =
    let (event, e, h') = >>=-eq-some (Maps.lookup id b.by_id) _ h in
    let (rest, r, h'') = >>=-eq-some (ready b pending ids) _ h' in
    let fits = ready-Fits b pending ids rest r ms.1 ds.1 in
    elim (Bool-cases (no_pending_parent pending event)) [
      | inl good ↦
          rw (← some_inj _ out h'', good)
            (
              ((λ other o. rw (some_inj other event (sym o ∙ e)) good, ms.0), fits.0),
              (contains-ready b pending id ids rest r ds.0, fits.1),
            )
      | inr bad ↦ rw (← some_inj _ out h'', bad) fits
    ]

pub ids_of-keyed :
    (b : Book) (ids : List EventId) (ks : List Key) → keyed b ids ≡ some ks → ids_of ks ≡ ids
unfolding keyed
ids_of-keyed b [] ks h = rw (← some_inj [] ks h)
ids_of-keyed b (id ∷ ids) ks h =
    let (payload, e, h') = >>=-eq-some (Maps.lookup id b.payloads) _ h in
    let (rest, r, h'') = >>=-eq-some (keyed b ids) _ h' in ground (arith, ids_of-keyed b ids rest r)

module _ {ℓ} (P : EventId → Type ℓ) where
  All-place_key :
      (k : Key) (ks : List Key) → P k.1 → All P (ids_of ks) → All P (ids_of (place_key k ks))
  unfolding place_key
  All-place_key k [] q h = (q, tt)
  All-place_key k (j ∷ js) q h = elim (Bool-cases (precedes j k)) [
    | inl e ↦ rw e (h.0, All-place_key k js q h.1)
    | inr e ↦ rw e (q, h)
  ]

  All-sort_keys : (ks : List Key) → All P (ids_of ks) → All P (ids_of (sort_keys ks))
  unfolding sort_keys
  All-sort_keys [] h = tt
  All-sort_keys (k ∷ ks) h = All-place_key k (sort_keys ks) h.0 (All-sort_keys ks h.1)

contains-place_key :
    (x : ℕ) (k : Key) (ks : List Key)
    → contains x (ids_of (place_key k ks)) ≡ (x == k.1 || contains x (ids_of ks))
unfolding place_key contains
contains-place_key x k [] = refl
contains-place_key x k (j ∷ js) = ground (arith, contains-place_key x k js)

contains-sort_keys :
    (x : ℕ) (ks : List Key) → contains x (ids_of (sort_keys ks)) ≡ contains x (ids_of ks)
unfolding sort_keys contains
contains-sort_keys x [] = refl
contains-sort_keys x (k ∷ ks) =
    ground (arith, contains-place_key x k (sort_keys ks), contains-sort_keys x ks)

Distinct-place_key :
    (k : Key) (ks : List Key)
    → contains k.1 (ids_of ks) ≡ false
    → Distinct (ids_of ks)
    → Distinct (ids_of (place_key k ks))
unfolding place_key contains
Distinct-place_key k [] n d = (refl, tt)
Distinct-place_key k (j ∷ js) n d =
    ground (arith, Distinct-place_key k js, contains-place_key j.1 k js)

Distinct-sort_keys : (ks : List Key) → Distinct (ids_of ks) → Distinct (ids_of (sort_keys ks))
unfolding sort_keys
Distinct-sort_keys [] d = tt
Distinct-sort_keys (k ∷ ks) d =
    Distinct-place_key k (sort_keys ks) (contains-sort_keys k.1 ks ∙ d.0)
      (Distinct-sort_keys ks d.1)

-- What a round goes through fits it.
pub sorted-Fits :
    (b : Book) (pending : Set) (ids : List EventId) (ks : List Key)
    → ready b pending pending ≡ some ids
    → keyed b ids ≡ some ks
    → IsAscending pending
    → Fits b pending (ids_of (sort_keys ks))
sorted-Fits b pending ids ks r k a =
    let fits =
      ready-Fits b pending pending ids r (All-contains_self pending)
        (Distinct-of_IsAscending pending a) in
    let same = ids_of-keyed b ids ks k in
    (All-sort_keys _ ks (rw same fits.0), Distinct-sort_keys ks (rw same fits.1))

is_empty-place_key : (k : Key) (ks : List Key) → is_empty (ids_of (place_key k ks)) ≡ false
unfolding place_key
is_empty-place_key k [] = refl
is_empty-place_key k (j ∷ js) = ground arith

pub is_empty-sort_keys : (ks : List Key) → is_empty (ids_of (sort_keys ks)) ≡ is_empty (ids_of ks)
unfolding sort_keys
is_empty-sort_keys [] = refl
is_empty-sort_keys (k ∷ ks) = is_empty-place_key k (sort_keys ks)
