-- ===== src/Chat/Resolver/Order.antt =====
-- `resolve` of crates/profile-chat/src/lib.rs does not depend on the order of arrival.
use mathlib.Core.List.{Perm, Permᴰ}
use mathlib.Core.Logic.{∥∥₁_elim}
use chatcommons.Prelude.{
  ℕ, ◌≡◌, ◌≢◌, refl, sym, subst, ◌∙◌, ap, some, Option, List, [], ◌∷◌, All, In, Result, ok, err,
  arith, ◌==◌, ==_iff, Bool-cases, inl, inr,
}
use chatcommons.Prelude.Maps.{Map, lookup-insert, insert_comm, or_insert}
use chatcommons.Crypto.{Primitives, UserId, from_public_key}
use chatcommons.Protocol.{SignedEvent, Codec, validate_event}
use chatcommons.Chat.{ChatPayload, ChatError, ChatResolution, decode, invalid_payload}
use chatcommons.Chat.Book.{Book, blank, enter, index}
use chatcommons.Chat.Book.Filing.{index_step}
use chatcommons.Chat.Book.Sources.{IsCoherent}
use chatcommons.Chat.Resolver.{resolve, resolve_indexed}
use chatcommons.Chat.Resolver.Rounds.{resolve_inversion}
use chatcommons.Chat.Resolver.Totality.{author_of_valid}

or_insert_comm :
    {V : Type 0} (j k : ℕ) (u v : V) (m : Map V)
    → j ≢ k
    → or_insert j u (or_insert k v m) ≡ or_insert k v (or_insert j u m)
unfolding or_insert
or_insert_comm j k u v m h =
    ground (arith, insert_comm j k u v m h, lookup-insert j k v m, lookup-insert k j u m)

enter_comm :
    (b : Book) (d e : SignedEvent) (a c : UserId) (x y : Result ChatError ChatPayload)
    → d.event_id ≢ e.event_id
    → enter (enter b d a x) e c y ≡ enter (enter b e c y) d a x
unfolding enter
enter_comm b d e a c (ok x) (ok y) h = ground (
  arith,
  or_insert_comm d.event_id e.event_id d e b.by_id h,
  insert_comm d.event_id e.event_id x y b.payloads h,
  insert_comm d.event_id e.event_id a c b.authors h,
)
enter_comm b d e a c (ok x) (err y) h = ground (
  arith,
  or_insert_comm d.event_id e.event_id d e b.by_id h,
  insert_comm d.event_id e.event_id a c b.authors h,
)
enter_comm b d e a c (err x) (ok y) h = ground (
  arith,
  or_insert_comm d.event_id e.event_id d e b.by_id h,
  insert_comm d.event_id e.event_id a c b.authors h,
)
enter_comm b d e a c (err x) (err y) h = ground (
  arith,
  or_insert_comm d.event_id e.event_id d e b.by_id h,
  insert_comm d.event_id e.event_id invalid_payload invalid_payload b.refused h,
  insert_comm d.event_id e.event_id a c b.authors h,
)

All-In : {A : Type 0} (xs ys : List A) → ((x : A) → In x xs → In x ys) → All (λ x. In x ys) xs
All-In [] ys sub = tt
All-In (x ∷ xs) ys sub = (sub x (inl refl), All-In xs ys (λ y i. sub y (inr i)))

All-perm : {A : Type 0} (P : A → Type 0) {xs ys : List A} → Permᴰ xs ys → All P xs → All P ys
All-perm P Permᴰ.nil h = h
All-perm P (Permᴰ.cons e q) h = (subst P e h.0, All-perm P q h.1)
All-perm P (Permᴰ.swap e f) h = (subst P f h.1.0, (subst P e h.0, h.1.1))
All-perm P (Permᴰ.trans q r) h = All-perm P r (All-perm P q h)

module _ (chat_codec : Codec ChatPayload) (p : Primitives) where
  -- The entry of a valid event.
  abbrev file_one : Book → SignedEvent → Book
  file_one b e = enter b e (from_public_key p e.public_key) (decode chat_codec e)

  file : Book → List SignedEvent → Book
  file b [] = b
  file b (e ∷ rest) = file (file_one b e) rest

  abbrev AllValid : List SignedEvent → Type 0
  AllValid events = All (λ e. validate_event p e ≡ ok tt) events

  valid_of_index :
      (b c : Book) (events : List SignedEvent)
      → index chat_codec p b events ≡ ok c
      → AllValid events
  valid_of_index b c [] h = tt
  valid_of_index b c (e ∷ rest) h =
      let (author, v, a, h') = index_step chat_codec p b c e rest h in
      (v, valid_of_index (enter b e author (decode chat_codec e)) c rest h')

  index-file :
      (b : Book) (events : List SignedEvent)
      → AllValid events
      → index chat_codec p b events ≡ ok (file b events)
  unfolding index file
  index-file b [] v = refl
  index-file b (e ∷ rest) v =
      rw (v.0, author_of_valid chat_codec p e v.0) (index-file (file_one b e) rest v.1)

  file_one_comm :
      (b : Book) (d e : SignedEvent)
      → (d.event_id ≡ e.event_id → d ≡ e)
      → file_one (file_one b d) e ≡ file_one (file_one b e) d
  file_one_comm b d e same = elim (Bool-cases (d.event_id == e.event_id)) [
    | inl hit ↦ rw (same ((==_iff _ _).0 hit))
    | inr miss ↦
        enter_comm b d e _ _ (decode chat_codec d) (decode chat_codec e)
          (λ hit. cc (miss, (==_iff d.event_id e.event_id).1 hit))
  ]

  module _ (events : List SignedEvent) (coherent : IsCoherent events) where
    file-perm :
        {xs ys : List SignedEvent}
        → Permᴰ xs ys
        → (b : Book) → All (λ e. In e events) xs
        → file b xs ≡ file b ys
    unfolding file
    file-perm Permᴰ.nil b i = refl
    file-perm (Permᴰ.cons {l₂ = ys} e q) b i =
        file-perm q (file_one b _) i.1 ∙ ap (λ d. file (file_one b d) ys) e
    file-perm (Permᴰ.swap {a = d} {b = e} {l = rest} f g) b i =
        ap (λ c. file c rest) (file_one_comm b d e (coherent d e i.0 i.1.0)) ∙ λ k.
        file (file_one (file_one b (g k)) (f k)) rest
    file-perm (Permᴰ.trans q r) b i =
        file-perm q b i ∙ file-perm r b (All-perm (λ e. In e events) q i)

  resolution-set : IsSet (Option (Result ChatError ChatResolution))
  resolution-set = hlevel

  permuted :
      (xs ys : List SignedEvent) (r : ChatResolution)
      → IsCoherent xs
      → resolve p chat_codec xs ≡ some (ok r)
      → Permᴰ xs ys
      → resolve p chat_codec ys ≡ some (ok r)
  unfolding resolve
  permuted xs ys r coherent h q =
      let (b, g, i, done, same) = resolve_inversion chat_codec p xs r h in
      let valid = valid_of_index blank b xs i in
      let one = index-file blank xs valid in
      let other = index-file blank ys (All-perm _ q valid) in
      let files = file-perm xs coherent q blank (All-In xs xs (λ e n. n)) in
      ap (resolve_indexed p) (other ∙ ap ok (sym files) ∙ sym one) ∙ h

  -- A resolution does not depend on the order of events: where identifiers determine events, any other
  -- order of the same events resolves to the same acceptance order, rejections and snapshot.
  pub resolve-perm :
      (xs ys : List SignedEvent) (r : ChatResolution)
      → Perm xs ys
      → IsCoherent xs
      → resolve p chat_codec xs ≡ some (ok r)
      → resolve p chat_codec ys ≡ some (ok r)
  resolve-perm xs ys r q coherent h = ∥∥₁_elim q (resolution-set _ _) (permuted xs ys r coherent h)
