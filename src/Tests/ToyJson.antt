-- ===== src/Tests/ToyJson.antt =====
-- A stand-in for serde_json: numbers and lists with their length in front, composed to a faithful codec
-- of events.
use chatcommons.Prelude.{
  ℕ, suc, zero, ◌≡◌, refl, ◌∙◌, ap, Option, none, some, List, [], ◌∷◌, ◌++◌, length, append_assoc,
  append-nil, sym,
}
use chatcommons.Prelude.Options.{◌>>=◌}
use chatcommons.Prelude.Bytes.{Bytes, ℤ, pos, negsuc}
use chatcommons.Protocol.{SignedEvent, EventContent, Codec, RoundTrips}

-- A format that can be read off the front of a sequence.
pub record Format (A : Type 0) : Type 0 where
  pub write : A → Bytes
  pub read : Bytes → Option (A × Bytes)
  pub restores : (a : A) (rest : Bytes) → read (write a ++ rest) ≡ some (a, rest)

abbrev first : Bytes → Option (ℕ × Bytes)
first [] = none
first (n ∷ rest) = some (n, rest)

abbrev pub number : Format ℕ
number = record { write = λ n. n ∷ []; read = first; restores = λ n rest. refl }

module _ {A B : Type 0} (fa : Format A) (fb : Format B) where
  abbrev pub pair : Format (A × B)
  pair = record {
    write = λ (a, b). fa.write a ++ fb.write b;
    read = λ bytes. do
      (a, rest) ← fa.read bytes
      (b, rest) ← fb.read rest
      some ((a, b), rest);
    restores = λ (a, b) rest.
        rw
          (
            append_assoc (fa.write a) (fb.write b) rest,
            fa.restores a (fb.write b ++ rest),
            fb.restores b rest,
          )
          refl;
  }

module _ {A B : Type 0} (fa : Format A) (into : A → B) (from : B → A)
    (back : (b : B) → into (from b) ≡ b) where
  -- A type that is another one in disguise.
  abbrev pub via : Format B
  via = record {
    write = λ b. fa.write (from b);
    read = λ bytes. do
      (a, rest) ← fa.read bytes
      some (into a, rest);
    restores = λ b rest. rw (fa.restores (from b) rest, back b) refl;
  }

module _ {A : Type 0} (fa : Format A) where
  abbrev pub write_many : List A → Bytes
  write_many [] = []
  write_many (a ∷ xs) = fa.write a ++ write_many xs

  abbrev pub read_many : ℕ → Bytes → Option (List A × Bytes)
  read_many zero bytes = some ([], bytes)
  read_many (suc n) bytes = do
    (a, rest) ← fa.read bytes
    (xs, rest) ← read_many n rest
    some (a ∷ xs, rest)

  pub many_restores :
      (xs : List A) (rest : Bytes) → read_many (length xs) (write_many xs ++ rest) ≡ some (xs, rest)
  many_restores [] rest = refl
  many_restores (a ∷ xs) rest =
      rw
        (
          append_assoc (fa.write a) (write_many xs) rest,
          fa.restores a (write_many xs ++ rest),
          many_restores xs rest,
        )
        refl

  abbrev read_list : Bytes → Option (List A × Bytes)
  read_list [] = none
  read_list (n ∷ rest) = read_many n rest

  abbrev pub many : Format (List A)
  many = record {
    write = λ xs. length xs ∷ write_many xs;
    read = read_list;
    restores = λ xs rest. many_restores xs rest;
  }

  -- Nothing may follow.
  abbrev pub ending : Option (A × Bytes) → Option A
  ending none = none
  ending (some (a, [])) = some a
  ending (some (a, b ∷ bs)) = none

  abbrev pub codec : Codec A
  codec = record { to_vec = λ a. some (fa.write a); from_slice = λ bytes. ending (fa.read bytes) }

  pub codec-RoundTrips : RoundTrips codec
  codec-RoundTrips a bytes h =
      ap (λ b. ending (fa.read b)) (sym (some_is h) ∙ sym (append-nil (fa.write a)))
      ∙ ap ending (fa.restores a [])
    where
      some_is : {x y : Bytes} → some x ≡ some y → x ≡ y
      some_is e = cc

module _ {A : Type 0} (fa : Format A) where
  abbrev write_option : Option A → Bytes
  write_option none = 0 ∷ []
  write_option (some a) = 1 ∷ fa.write a

  abbrev read_option : Bytes → Option (Option A × Bytes)
  read_option [] = none
  read_option (zero ∷ rest) = some (none, rest)
  read_option (suc _ ∷ rest) = do (a, rest) ← fa.read rest; some (some a, rest)

  pub option_restores :
      (a : Option A) (rest : Bytes) → read_option (write_option a ++ rest) ≡ some (a, rest)
  option_restores none rest = refl
  option_restores (some a) rest = rw (fa.restores a rest) refl

  abbrev option : Format (Option A)
  option = record { write = write_option; read = read_option; restores = option_restores }

abbrev signed_of : ℕ × ℕ → ℤ
signed_of (zero, n) = pos n
signed_of (suc _, n) = negsuc n

abbrev sign_and_size : ℤ → ℕ × ℕ
sign_and_size (pos n) = (0, n)
sign_and_size (negsuc n) = (1, n)

pub signed_back : (t : ℤ) → signed_of (sign_and_size t) ≡ t
signed_back (pos n) = refl
signed_back (negsuc n) = refl

abbrev integer : Format ℤ
integer = via (pair number number) signed_of sign_and_size signed_back

abbrev content : Format EventContent
content =
    via
      (pair number (
        pair (option number)
          (pair (many number) (pair integer (pair (many number) (many number))))))
      (λ (v, (c, (ps, (t, (k, b))))). record {
        protocol_version = v;
        community_id = c;
        parents = ps;
        timestamp_ms = t;
        event_type = k;
        payload = b;
      })
      (λ c. (
        c.protocol_version,
        (c.community_id, (c.parents, (c.timestamp_ms, (c.event_type, c.payload)))),
      ))
      (λ c. refl)

abbrev pub event : Format SignedEvent
event =
    via (pair content (pair (many number) (pair (many number) number)))
      (λ (c, (k, (s, i))). record { content = c; public_key = k; signature = s; event_id = i })
      (λ e. (e.content, (e.public_key, (e.signature, e.event_id)))) (λ e. refl)
