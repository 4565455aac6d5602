-- ===== src/Node/Ancestry.antt =====
-- What `ancestry` of crates/node-core/src/lib.rs returns: the events that the parents lead to.
use chatcommons.Prelude.{
  ℕ, ◌≤◌, ◌≡◌, refl, true, some, List, [], ◌∷◌, length, arith, sym, ap, subst, ◌∙◌, ok, In,
}
use chatcommons.Prelude.Sets.{contains}
use chatcommons.Prelude.Maps.{lookup, contains-keys, lookup-some, values-Every}
use chatcommons.Crypto.{Primitives}
use chatcommons.Protocol.{EventId, SignedEvent, Codec}
use chatcommons.Storage.{Sqlite}
use chatcommons.Node.{CoreNode}
use chatcommons.Node.Reading.{ancestry}
use chatcommons.Node.Climbing.{
  In-values, or_nothing, length-values, same_event, Has, Ancestor, itself, parent, Climbed,
  climb-Climbed,
}

module _ (q : Sqlite) (p : Primitives) (event_codec : Codec SignedEvent) (node : CoreNode q) where
  -- The events of the ancestors of an identifier, all of them and no others, within a limit.
  pub record IsAncestry (id : EventId) (limit : ℕ) (events : List SignedEvent) : Type 0 where
    pub all :
        (y : EventId)
        → Ancestor q p event_codec node id y
        → (e : SignedEvent) × In e events × Has q p event_codec node y e
    pub only :
        (e : SignedEvent)
        → In e events
        → (y : EventId) × Ancestor q p event_codec node id y × Has q p event_codec node y e
    pub few : length events ≤ limit

  Climbed-IsAncestry :
      (id : EventId) (limit : ℕ) (events : List SignedEvent)
      → Climbed q p event_codec node id limit events
      → IsAncestry id limit events
  Climbed-IsAncestry id limit events d = record {
    all = λ y a.
        let (e, l) = entry y (discovers y a) in
        (e, subst (In e) (sym d.all) (In-values y d.collected e l), (d.climbing.found y e l).1);
    only = λ e i.
        let (y, (above, has)) =
          values-Every (λ y e. Ancestor q p event_codec node id y × Has q p event_codec node y e)
            d.collected e d.climbing.ascending d.climbing.found (subst (In e) d.all i) in
        (y, above, has);
    few = omega (arith, ap length d.all, length-values d.collected, d.climbing.room);
  }
    where
      entry :
          (y : EventId)
          → contains y d.discovered ≡ true
          → (e : SignedEvent) × (lookup y d.collected ≡ some e)
      entry y h =
          lookup-some y d.collected (sym (contains-keys y d.collected) ∙ d.climbing.same y ∙ h)

      discovers :
          (y : EventId) → Ancestor q p event_codec node id y → contains y d.discovered ≡ true
      discovers y itself = or_nothing id d.discovered d.climbing.begun
      discovers y (parent x _ e above has h) =
          let (e', l) = entry x (discovers x above) in
          let same = same_event q p event_codec node x e' e ((d.climbing.found x e' l).1) has in
          or_nothing y d.discovered
            (d.climbing.closed x e' l y (ap (λ z. contains y z.parents) same ∙ h))

  -- If `ancestry` returns events, then they are exactly the stored events of the identifier and of all that
  -- the parents of stored events lead to from it, each of which is stored, and no more than the limit.
  pub ancestry-IsAncestry :
      (id : EventId) (limit : ℕ) (events : List SignedEvent)
      → ancestry q p event_codec node id limit ≡ ok events
      → IsAncestry id limit events
  unfolding ancestry contains lookup
  ancestry-IsAncestry id limit events h = Climbed-IsAncestry id limit events (
      climb-Climbed q p event_codec node id limit limit (id ∷ []) [] [] events (ground arith)
        (record {
          room = omega arith;
          stacked = λ j h. only_itself j (ground arith);
          found = λ j e l. absurd (cc);
          ascending = tt;
          same = λ j. refl;
          closed = λ j e l. absurd (cc);
          begun = ground arith;
        }))
    where
      only_itself : (j : EventId) → j ≡ id → Ancestor q p event_codec node id j
      only_itself j same = subst (Ancestor q p event_codec node id) (sym same) itself
