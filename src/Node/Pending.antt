-- ===== src/Node/Pending.antt =====
-- The pending events of `ingest` in crates/node-core/src/lib.rs, and those that a round takes up.
use chatcommons.Prelude.{
  ℕ, ◌≡◌, refl, inl, inr, true, false, some, List, [], ◌∷◌, All, All-map, arith, Bool-cases, ◌==◌,
  subst, sym,
}
use chatcommons.Prelude.Sets
use chatcommons.Prelude.Sets.{Set, contains, Distinct, IsAscending}
use chatcommons.Prelude.Maps
use chatcommons.Prelude.Maps.{Map, lookup, keys, keys-insert, contains-lookup, skips}
use chatcommons.Protocol.{SignedEvent, EventId}
use chatcommons.Node.{all_known, ready, collect_into}

collect_into-IsAscending :
    (m : Map SignedEvent) (events : List SignedEvent)
    → IsAscending (keys m)
    → IsAscending (keys (collect_into m events))
unfolding collect_into
collect_into-IsAscending m [] a = a
collect_into-IsAscending m (e ∷ events) a =
    collect_into-IsAscending (Maps.insert e.event_id e m) events (
      subst IsAscending (sym (keys-insert e.event_id e m))
        (Sets.IsAscending-insert e.event_id (keys m) a))

-- The batch has every identifier once, in order.
pub batch-IsAscending : (events : List SignedEvent) → IsAscending (keys (collect_into [] events))
batch-IsAscending events = collect_into-IsAscending [] events tt

-- A pending event with all its parents known.
abbrev pub IsReady : Set → Map SignedEvent → EventId → Type 0
IsReady known m id = (e : SignedEvent) × (lookup id m ≡ some e) × (all_known known e ≡ true)

pub ready-IsReady :
    (known : Set) (m : Map SignedEvent) → Distinct (keys m) → All (IsReady known m) (ready known m)
unfolding ready lookup
ready-IsReady known [] d = tt
ready-IsReady known ((x, v) ∷ m) d =
    let later =
      All-map (IsReady known m) (IsReady known ((x, v) ∷ m)) (ready known m)
        (λ id (e, l, k). (e, skips x id v e m d.0 l, k)) (ready-IsReady known m d.1) in
    elim (Bool-cases (all_known known v)) [
      | inl k ↦ rw k ((v, here, k), later)
      | inr k ↦ rw k later
    ]
  where
    here : lookup x ((x, v) ∷ m) ≡ some v
    here = ground arith

contains-ready :
    (j : ℕ) (known : Set) (m : Map SignedEvent)
    → contains j (keys m) ≡ false
    → contains j (ready known m) ≡ false
unfolding ready contains
contains-ready j known [] h = refl
contains-ready j known ((x, v) ∷ m) h = ground (arith, contains-ready j known m)

pub ready-Distinct :
    (known : Set) (m : Map SignedEvent) → Distinct (keys m) → Distinct (ready known m)
unfolding ready
ready-Distinct known [] d = tt
ready-Distinct known ((x, v) ∷ m) d = elim (Bool-cases (all_known known v)) [
  | inl k ↦ rw k (contains-ready x known m d.0, ready-Distinct known m d.1)
  | inr k ↦ rw k (ready-Distinct known m d.1)
]

-- When nothing is ready, every pending event lacks a parent.
pub ready_nil :
    (known : Set) (m : Map SignedEvent) (id : EventId) (e : SignedEvent)
    → ready known m ≡ []
    → lookup id m ≡ some e
    → all_known known e ≡ false
unfolding ready lookup
ready_nil known [] id e h l = cc
ready_nil known ((x, v) ∷ m) id e h l = elim (Bool-cases (all_known known v)) [
  | inl k ↦ absurd (cc (rw k at h))
  | inr k ↦ elim (Bool-cases (id == x)) [
    | inl same ↦ ground arith
    | inr other ↦ ready_nil known m id e (rw k at h) (rw other at l)
  ]
]
