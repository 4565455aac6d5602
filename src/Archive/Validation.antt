-- ===== src/Archive/Validation.antt =====
-- What `validate_wire` of crates/storage/src/archive.rs accepts.
use chatcommons.Prelude.{
  ℕ, ◌≤◌, ◌<◌, ◌≡◌, ◌↔◌, ◌⊎◌, refl, inl, inr, Bool, true, false, not, none, some, List, [], ◌∷◌,
  length, All, In, all, any, arith, ok, ap, ◌∙◌, Option-cases, All-map, subst, sym,
}
use chatcommons.Prelude.Sets
use chatcommons.Prelude.Sets.{
  IsAscending, IsAbove, IsAbove-lt, IsAscending-above, contains, contains-extend,
}
use chatcommons.Crypto.{Primitives}
use chatcommons.Protocol.{SignedEvent, validate_event}
use chatcommons.Archive.{
  ArchiveWire, ValidatedArchive, archive_version, max_archive_events, event_ids, in_order,
  genesis_events, is_foreign, validate_all, validate_links, validate_wire,
}
use chatcommons.Archive.Genesis.{
  genesis-In, In-genesis, genesis-IsAscending, the_genesis, is_the_genesis_of,
}

-- One event of an archive: a genesis is the community itself, another event belongs to it, and its
-- parents are in the archive.
pub record BelongsTo (p : Primitives) (wire : ArchiveWire) (e : SignedEvent) : Type 0 where
  pub valid : validate_event p e ≡ ok tt
  pub attributed :
      ((e.community_id ≡ none) × (e.event_id ≡ wire.community_id))
      ⊎ (e.community_id ≡ some wire.community_id)
  pub parents_present : all (λ parent. contains parent (event_ids wire.events)) e.parents ≡ true

pub record IsArchive (p : Primitives) (wire : ArchiveWire) : Type 0 where
  pub version : wire.version ≡ archive_version
  pub nonempty : 0 < length wire.events
  pub bounded : length wire.events ≤ max_archive_events
  pub ascending : IsAscending (event_ids wire.events)
  pub belong : All (BelongsTo p wire) wire.events
  -- the genesis is there
  pub founded : (e : SignedEvent) × In e wire.events × (e.community_id ≡ none)

pub in_order_iff :
    (events : List SignedEvent) → (in_order events ≡ true) ↔ IsAscending (event_ids events)
unfolding in_order
in_order_iff [] = (λ h. tt, λ h. refl)
in_order_iff (d ∷ []) = (λ h. tt, λ h. refl)
in_order_iff (d ∷ e ∷ events) = (
  λ h. ground (arith, (in_order_iff (e ∷ events)).0),
  λ h. ground (arith, (in_order_iff (e ∷ events)).1),
)

missing_iff :
    (ids parents : List ℕ)
    → (any (λ parent. not (contains parent (Sets.collect ids))) parents ≡ false)
      ↔ (all (λ parent. contains parent ids) parents ≡ true)
unfolding contains
missing_iff ids [] = (λ h. refl, λ h. refl)
missing_iff ids (x ∷ xs) = (
  λ h. ground (arith, contains-extend x ids [], (missing_iff ids xs).0),
  λ h. ground (arith, contains-extend x ids [], (missing_iff ids xs).1),
)

validate_all_iff :
    (p : Primitives) (events : List SignedEvent)
    → (validate_all p events ≡ ok tt) ↔ All (λ e. validate_event p e ≡ ok tt) events
unfolding validate_all
validate_all_iff p [] = (λ h. tt, λ h. refl)
validate_all_iff p (e ∷ events) = (
  λ h. (ground arith, (validate_all_iff p events).0 (ground arith)),
  λ h. ground (arith, h.0, (validate_all_iff p events).1 h.1),
)

-- The checks on one event, as `validate_links` makes them.
abbrev HasLinks : ArchiveWire → SignedEvent → Type 0
HasLinks wire e =
    (is_foreign wire.community_id e.community_id ≡ false)
    × (any (λ parent. not (contains parent (Sets.collect (event_ids wire.events)))) e.parents
        ≡ false)

any_iff :
    (f : SignedEvent → Bool) (events : List SignedEvent)
    → (any f events ≡ false) ↔ All (λ e. f e ≡ false) events
any_iff f [] = (λ h. tt, λ h. refl)
any_iff f (e ∷ events) = (
  λ h. (ground arith, (any_iff f events).0 (ground arith)),
  λ h. ground (arith, h.0, (any_iff f events).1 h.1),
)

-- A property of every member.
All-of : {A : Type 0} (P : A → Type 0) (xs : List A) → ((x : A) → In x xs → P x) → All P xs
All-of P [] h = tt
All-of P (x ∷ xs) h = (h x (inl refl), All-of P xs (λ y i. h y (inr i)))

All-at : {A : Type 0} (P : A → Type 0) (xs : List A) {x : A} → All P xs → In x xs → P x
All-at P [] h i = absurd i
All-at P (x ∷ xs) h (inl same) = subst P (sym same) h.0
All-at P (x ∷ xs) h (inr i) = All-at P xs h.1 i

module _ (p : Primitives) (wire : ArchiveWire) where
  abbrev pub contents : ValidatedArchive
  contents = record { community = wire.community_id; events = wire.events }

  validate_links_sound :
      All (λ e. validate_event p e ≡ ok tt) wire.events
      → validate_links p wire ≡ ok tt
      → All (BelongsTo p wire) wire.events
        × ((e : SignedEvent) × In e wire.events × (e.community_id ≡ none))
  unfolding validate_links
  validate_links_sound valid h =
      let (g, one, named) =
        the_genesis wire.community_id (genesis_events wire.events) (ground arith) in
      let (i, none_g) = In-genesis g wire.events (subst (In g) (sym one) (inl refl)) in
      let foreign =
        (any_iff (λ e. is_foreign wire.community_id e.community_id) wire.events).0 (ground arith) in
      let missing =
        (any_iff
            (λ e.
              any (λ parent. not (contains parent (Sets.collect (event_ids wire.events))))
                e.parents)
            wire.events).0
          (ground arith) in
      (
        All-of (BelongsTo p wire) wire.events (λ e j. record {
          valid = All-at _ wire.events valid j;
          attributed = attribution e j g one named (All-at _ wire.events foreign j);
          parents_present =
              (missing_iff (event_ids wire.events) e.parents).0 (All-at _ wire.events missing j);
        }),
        (g, i, none_g),
      )
    where
      attribution :
          (e : SignedEvent)
          → In e wire.events
          → (g : SignedEvent) → genesis_events wire.events ≡ g ∷ []
          → g.event_id ≡ wire.community_id
          → is_foreign wire.community_id e.community_id ≡ false
          → ((e.community_id ≡ none) × (e.event_id ≡ wire.community_id))
            ⊎ (e.community_id ≡ some wire.community_id)
      attribution e j g one named f = elim (Option-cases e.community_id) [
        | inr (c, k) ↦ inr (ground arith)
        | inl k ↦ elim (subst (In e) one (genesis-In e wire.events j k)) [
          | inl same ↦ inl (k, ap (λ x. x.event_id) same ∙ named)
          | inr no_more ↦ absurd no_more
        ]
      ]

  validate_links_complete : IsArchive p wire → validate_links p wire ≡ ok tt
  unfolding validate_links
  validate_links_complete a =
      let (g, i, k) = a.founded in
      let genesis =
        is_the_genesis_of wire.community_id (genesis_events wire.events)
          (λ e j. named e (In-genesis e wire.events j))
          (genesis-IsAscending wire.events a.ascending) g (genesis-In g wire.events i k) in
      let foreign =
        (any_iff (λ e. is_foreign wire.community_id e.community_id) wire.events).1
          (All-map _ _ wire.events native a.belong) in
      let missing =
        (any_iff
            (λ e.
              any (λ parent. not (contains parent (Sets.collect (event_ids wire.events))))
                e.parents)
            wire.events).1
          (All-map _ _ wire.events
            (λ e b. (missing_iff (event_ids wire.events) e.parents).1 b.parents_present)
            a.belong) in
      rw (genesis, foreign, missing)
    where
      named :
          (e : SignedEvent)
          → In e wire.events × (e.community_id ≡ none)
          → e.event_id ≡ wire.community_id
      named e (j, k) =
          let b = All-at (BelongsTo p wire) wire.events a.belong j in ground (arith, b.attributed)

      native :
          (e : SignedEvent)
          → BelongsTo p wire e
          → is_foreign wire.community_id e.community_id ≡ false
      native e b = ground (arith, b.attributed)

  -- `validate_wire` accepts exactly the archives of the version, with 1 to 65,536 valid events in
  -- strictly ascending order, one genesis that is the community, no event of another community and no
  -- missing parent; and it returns the community and the events as they are.
  pub validate_wire_iff :
      (v : ValidatedArchive) → (validate_wire p wire ≡ ok v) ↔ (IsArchive p wire × (v ≡ contents))
  unfolding validate_wire
  validate_wire_iff v = (
    λ h.
        let valid = (validate_all_iff p wire.events).0 (ground arith) in
        let links = validate_links_sound valid (ground arith) in
        (
          record {
            version = ground arith;
            nonempty = ground arith;
            bounded = ground arith;
            ascending = (in_order_iff wire.events).0 (ground arith);
            belong = links.0;
            founded = links.1;
          },
          ground arith,
        ),
    λ (a, same). ground (
      arith,
      a.version,
      a.nonempty,
      a.bounded,
      (in_order_iff wire.events).1 a.ascending,
      (validate_all_iff p wire.events).1 (All-map _ _ wire.events (λ e b. b.valid) a.belong),
      validate_links_complete a,
      same,
    ),
  )
