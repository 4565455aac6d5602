-- ===== src/Node/Climbing.antt =====
-- The loop of `ancestry` in crates/node-core/src/lib.rs.
use chatcommons.Prelude.{
  ℕ, zero, suc, ◌+◌, ◌==◌, ◌≤◌, ◌≡◌, inl, inr, refl, true, ◌||◌, some, List, [], ◌∷◌, length, arith,
  sym, ap, subst, ◌∙◌, ok, Result, Result-cases, Bool-cases, Option-cases, In,
}
use chatcommons.Prelude.Sets
use chatcommons.Prelude.Sets.{Set, contains, contains-insert, IsAscending}
use chatcommons.Prelude.Maps
use chatcommons.Prelude.Maps.{
  Map, lookup, keys, values, keys-insert, lookup-insert, Every, Every-insert, contains-keys,
  lookup-some, values-Every,
}
use chatcommons.Prelude.Options.{some_inj}
use chatcommons.Crypto.{Primitives}
use chatcommons.Protocol.{EventId, SignedEvent, Codec}
use chatcommons.Storage.{Sqlite}
use chatcommons.Node.{CoreNode}
use chatcommons.Node.Reading.{push_all, event, climb}

contains-push_all :
    (j : ℕ) (ids stack : List ℕ)
    → contains j (push_all ids stack) ≡ (contains j ids || contains j stack)
unfolding contains
contains-push_all j [] stack = refl
contains-push_all j (id ∷ ids) stack = ground (arith, contains-push_all j ids (id ∷ stack))

length-insert-le :
    (k : ℕ) (e : SignedEvent) (m : Map SignedEvent) → length (Maps.insert k e m) ≤ suc (length m)
unfolding Maps.insert
length-insert-le k e [] = omega arith
length-insert-le k e ((x, v) ∷ m) = ground (arith, length-insert-le k e m)

-- What is on the stack is discovered already, or stays on it.
on_stack :
    (y x : ℕ) (stack : List ℕ) (discovered : Set)
    → contains x discovered ≡ true
    → (contains y discovered || contains y (x ∷ stack)) ≡ true
    → (contains y discovered || contains y stack) ≡ true
unfolding contains
on_stack y x stack discovered old h = elim (Bool-cases (y == x)) [
  | inl t ↦
      let same : y ≡ x = ground arith in ground (arith, old, ap (λ k. contains k discovered) same)
  | inr f ↦ ground (arith, h, f)
]

-- A visit moves the top of the stack to what is discovered.
on_visit :
    (y x : ℕ) (parents stack : List ℕ) (discovered : Set)
    → (contains y discovered || contains y (x ∷ stack)) ≡ true
    → (contains y (Sets.insert x discovered) || contains y (push_all parents stack)) ≡ true
unfolding contains
on_visit y x parents stack discovered h =
    ground (arith, h, contains-insert y x discovered, contains-push_all y parents stack)

pub length-values : (m : Map SignedEvent) → length (values m) ≡ length m
length-values [] = refl
length-values ((x, v) ∷ m) = ap suc (length-values m)

pub In-values :
    (k : ℕ) (m : Map SignedEvent) (v : SignedEvent) → lookup k m ≡ some v → In v (values m)
unfolding lookup
In-values k [] v l = absurd (cc)
In-values k ((x, w) ∷ m) v l = elim (Bool-cases (k == x)) [
  | inl t ↦ inl (ground (arith, l, t))
  | inr f ↦ inr (In-values k m v (rw (lookup, f) at l))
]

pub or_nothing : (y : ℕ) (xs : Set) → (contains y xs || contains y []) ≡ true → contains y xs ≡ true
unfolding contains
or_nothing y xs h = ground arith

ok_inj : {E A : Type 0} {a b : A} → ◌≡◌ {A = Result E A} (ok a) (ok b) → a ≡ b
ok_inj h = cc

module _ (q : Sqlite) (p : Primitives) (event_codec : Codec SignedEvent) (node : CoreNode q) where
  -- The node has this event under the identifier.
  abbrev pub Has : EventId → SignedEvent → Type 0
  Has id e = event q p event_codec node id ≡ ok (some e)

  -- What the parents of stored events lead to from an identifier.
  pub data Ancestor (id : EventId) : EventId → Type 0 where
    itself : Ancestor id id
    parent :
        (x y : EventId) (e : SignedEvent)
        → Ancestor id x
        → Has x e
        → contains y e.parents ≡ true
        → Ancestor id y

  pub same_event : (x : EventId) (d e : SignedEvent) → Has x d → Has x e → d ≡ e
  same_event x d e a b = some_inj d e (ok_inj (sym a ∙ b))

  -- The state of the loop of `ancestry`.
  pub record Climbing (id : EventId) (limit left : ℕ) (stack : List EventId) (discovered : Set)
      (collected : Map SignedEvent) : Type 0 where
    pub room : length collected + left ≤ limit
    pub stacked : (j : EventId) → contains j stack ≡ true → Ancestor id j
    pub found : Every (λ j e. Ancestor id j × Has j e) collected
    pub ascending : IsAscending (keys collected)
    pub same : (j : EventId) → contains j (keys collected) ≡ contains j discovered
    pub closed :
        Every
          (λ j e.
            (y : EventId)
            → contains y e.parents ≡ true
            → (contains y discovered || contains y stack) ≡ true)
          collected
    pub begun : (contains id discovered || contains id stack) ≡ true

  -- What the loop ends with.
  pub record Climbed (id : EventId) (limit : ℕ) (events : List SignedEvent) : Type 0 where
    pub collected : Map SignedEvent
    pub all : events ≡ values collected
    pub discovered : Set
    pub climbing : Climbing id limit 0 [] discovered collected

  skip :
      (id : EventId) (limit left : ℕ) (x : EventId) (stack : List EventId) (discovered : Set)
      (collected : Map SignedEvent)
      → contains x discovered ≡ true
      → Climbing id limit left (x ∷ stack) discovered collected
      → Climbing id limit left stack discovered collected
  unfolding contains
  skip id limit left x stack discovered collected old c = record {
    room = c.room;
    stacked = λ j h. c.stacked j (ground arith);
    found = c.found;
    ascending = c.ascending;
    same = c.same;
    closed = λ j e l y h. on_stack y x stack discovered old (c.closed j e l y h);
    begun = on_stack id x stack discovered old c.begun;
  }

  visit :
      (id : EventId) (limit left : ℕ) (x : EventId) (stack : List EventId) (discovered : Set)
      (collected : Map SignedEvent) (e : SignedEvent)
      → Has x e
      → Climbing id limit (suc left) (x ∷ stack) discovered collected
      → Climbing id limit left
          (push_all e.parents stack)
          (Sets.insert x discovered)
          (Maps.insert x e collected)
  unfolding contains
  visit id limit left x stack discovered collected e has c =
      let above : Ancestor id x = c.stacked x (ground arith) in
      record {
        room = omega (arith, c.room, length-insert-le x e collected);
        stacked = λ j h. elim (Bool-cases (contains j e.parents)) [
          | inl t ↦ parent x j e above has t
          | inr f ↦ c.stacked j (ground (arith, h, f, contains-push_all j e.parents stack))
        ];
        found = Every-insert (λ j e. Ancestor id j × Has j e) x e collected (above, has) c.found;
        ascending =
            subst IsAscending (sym (keys-insert x e collected))
              (Sets.IsAscending-insert x (keys collected) c.ascending);
        same = λ j. ground (
          arith,
          c.same j,
          ap (contains j) (keys-insert x e collected),
          contains-insert j x (keys collected),
          contains-insert j x discovered,
        );
        closed =
            Every-insert
              (λ j d.
                (y : EventId)
                → contains y d.parents ≡ true
                → (contains y (Sets.insert x discovered) || contains y (push_all e.parents stack))
                  ≡ true)
              x e collected (λ y h. ground (arith, h, contains-push_all y e.parents stack))
              (λ j d l y h. on_visit y x e.parents stack discovered (c.closed j d l y h));
        begun = on_visit id x e.parents stack discovered c.begun;
      }

  pub climb-Climbed :
      (id : EventId) (limit left : ℕ) (stack : List EventId) (discovered : Set)
      (collected : Map SignedEvent) (events : List SignedEvent)
      → climb q p event_codec node left stack discovered collected ≡ ok events
      → Climbing id limit left stack discovered collected
      → Climbed id limit events
  unfolding climb
  climb-Climbed id limit left [] discovered collected events h c = record {
    collected = collected;
    all = ground arith;
    discovered = discovered;
    climbing = record {
      room = omega (arith, c.room);
      stacked = c.stacked;
      found = c.found;
      ascending = c.ascending;
      same = c.same;
      closed = c.closed;
      begun = c.begun;
    };
  }
  climb-Climbed id limit zero (x ∷ stack) discovered collected events h c =
      elim (Bool-cases (contains x discovered)) [
        | inl t ↦
            climb-Climbed id limit zero stack discovered collected events (rw (climb, t) at h)
              (skip id limit zero x stack discovered collected t c)
        | inr f ↦ absurd (cc (rw (climb, f) at h))
      ]
  climb-Climbed id limit (suc left) (x ∷ stack) discovered collected events h c =
      elim (Bool-cases (contains x discovered)) [
        | inl t ↦
            climb-Climbed id limit (suc left) stack discovered collected events (rw (climb, t) at h)
              (skip id limit (suc left) x stack discovered collected t c)
        | inr f ↦ elim (Result-cases (event q p event_codec node x)) [
          | inl (e, v) ↦ absurd (cc (rw (climb, f, v) at h))
          | inr (o, v) ↦ elim (Option-cases o) [
            | inl n ↦ absurd (cc (rw (climb, f, v, n) at h))
            | inr (e, n) ↦
                climb-Climbed id limit left (push_all e.parents stack) (Sets.insert x discovered)
                  (Maps.insert x e collected) events (rw (climb, f, v, n) at h)
                  (visit id limit left x stack discovered collected e (v ∙ ap ok n) c)
          ]
        ]
      ]
