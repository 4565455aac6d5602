-- ===== src/Archive/Genesis.antt =====
-- The genesis events of an archive, for `validate_wire` of crates/storage/src/archive.rs.
use chatcommons.Prelude.{
  ℕ, ◌≡◌, ◌⊎◌, refl, inl, inr, true, none, List, [], ◌∷◌, In, all, arith, ap, Bool-cases, is_none,
  ◌∙◌, sym,
}
use chatcommons.Prelude.Sets.{IsAscending, IsAbove, IsAbove-lt, IsAscending-above}
use chatcommons.Protocol.{SignedEvent, CommunityId}
use chatcommons.Archive.{event_ids, genesis_events, is_the_genesis}

pub genesis-In :
    (e : SignedEvent) (events : List SignedEvent)
    → In e events
    → e.community_id ≡ none
    → In e (genesis_events events)
unfolding genesis_events
genesis-In e [] i h = i
genesis-In e (d ∷ events) (inl same) h =
    rw (ap (λ x. is_none x.community_id) (sym same) ∙ ap is_none h) (inl same)
genesis-In e (d ∷ events) (inr i) h = elim (Bool-cases (is_none d.community_id)) [
  | inl k ↦ rw k (inr (genesis-In e events i h))
  | inr k ↦ rw k (genesis-In e events i h)
]

pub In-genesis :
    (e : SignedEvent) (events : List SignedEvent)
    → In e (genesis_events events)
    → In e events × (e.community_id ≡ none)
unfolding genesis_events
In-genesis e [] i = absurd i
In-genesis e (d ∷ events) i = elim (Bool-cases (is_none d.community_id)) [
  | inl k ↦ here k (rw k at i) (In-genesis e events)
  | inr k ↦ let (j, h) = In-genesis e events (rw k at i) in (inr j, h)
]
  where
    here :
        is_none d.community_id ≡ true
        → (e ≡ d) ⊎ In e (genesis_events events)
        → (In e (genesis_events events) → In e events × (e.community_id ≡ none))
        → ((e ≡ d) ⊎ In e events) × (e.community_id ≡ none)
    here k (inl same) later = (inl same, ap (λ x. x.community_id) same ∙ ground arith)
    here k (inr j) later = let (j', h) = later j in (inr j', h)

genesis-IsAbove :
    (b : ℕ) (events : List SignedEvent)
    → IsAbove b (event_ids events)
    → IsAbove b (event_ids (genesis_events events))
unfolding genesis_events
genesis-IsAbove b [] a = tt
genesis-IsAbove b (d ∷ events) a = ground (
  arith,
  genesis-IsAbove d.event_id events,
  IsAbove-lt b d.event_id (event_ids (genesis_events events)),
)

pub genesis-IsAscending :
    (events : List SignedEvent)
    → IsAscending (event_ids events)
    → IsAscending (event_ids (genesis_events events))
unfolding genesis_events
genesis-IsAscending [] a = tt
genesis-IsAscending (d ∷ events) a = ground (
  arith,
  genesis-IsAbove d.event_id events,
  IsAscending-above d.event_id (event_ids (genesis_events events)),
)

-- The one genesis has the community's identifier.
pub the_genesis :
    (c : CommunityId) (gs : List SignedEvent)
    → is_the_genesis c gs ≡ true
    → (e : SignedEvent) × (gs ≡ e ∷ []) × (e.event_id ≡ c)
the_genesis c [] h = cc
the_genesis c (e ∷ []) h = (e, refl, ground arith)
the_genesis c (e ∷ f ∷ rest) h = cc

pub is_the_genesis_of :
    (c : CommunityId) (gs : List SignedEvent)
    → ((e : SignedEvent) → In e gs → e.event_id ≡ c)
    → IsAscending (event_ids gs)
    → (e : SignedEvent) → In e gs
    → is_the_genesis c gs ≡ true
is_the_genesis_of c [] all a e i = absurd i
is_the_genesis_of c (g ∷ []) all a e i = ground (arith, all g (inl refl))
is_the_genesis_of c (g ∷ h ∷ rest) all a e i =
    absurd (omega (arith, all g (inl refl), all h (inr (inl refl)), a.0))
