-- ===== src/Tests/BootstrapTests.antt =====
-- Codes and routes, where addresses are their components and base64 changes nothing.
use chatcommons.Prelude.{
  ℕ, ◌≡◌, ◌↔◌, ◌⊎◌, refl, ok, none, some, Option, List, [], ◌∷◌, ◌++◌, ◌>>=◌, ap, ◌==◌,
  if◌then◌else◌,
}
use chatcommons.Prelude.Bytes.{Bytes}
use chatcommons.Bootstrap.{
  Component, p2p, p2p_circuit, udp, tcp, quic_v1, other, Externals, BootstrapEnvelope, code_prefix,
  validate_components, direct_quic, relay_route, positions, ends_in_quic, create_code, parse_code,
  validate,
}
use chatcommons.Bootstrap.Shapes.{IsDirect, IsRelayed}
use chatcommons.Bootstrap.Routes.{validate_components_iff}
use chatcommons.Bootstrap.Codes.{ReadsBack, create_code_restores}
use chatcommons.Tests.ToyJson
use chatcommons.Tests.ToyJson.{Format, codec, codec-RoundTrips}

abbrev pub first : Bytes → Option ℕ
first [] = none
first (n ∷ rest) = some n

abbrev pub show : List Component → Bytes
show [] = []
show (p2p ∷ cs) = 0 ∷ show cs
show (p2p_circuit ∷ cs) = 1 ∷ show cs
show (udp ∷ cs) = 2 ∷ show cs
show (tcp ∷ cs) = 3 ∷ show cs
show (quic_v1 ∷ cs) = 4 ∷ show cs
show (other ∷ cs) = 5 ∷ show cs

abbrev component : ℕ → Component
component n =
    if n == 0
    then p2p
    else if n == 1
    then p2p_circuit
    else if n == 2
    then udp
    else if n == 3
    then tcp
    else if n == 4
    then quic_v1
    else other

abbrev pub read : Bytes → List Component
read [] = []
read (n ∷ bytes) = component n ∷ read bytes

read-show : (cs : List Component) → read (show cs) ≡ cs
read-show [] = refl
read-show (p2p ∷ cs) = ap (λ xs. p2p ∷ xs) (read-show cs)
read-show (p2p_circuit ∷ cs) = ap (λ xs. p2p_circuit ∷ xs) (read-show cs)
read-show (udp ∷ cs) = ap (λ xs. udp ∷ xs) (read-show cs)
read-show (tcp ∷ cs) = ap (λ xs. tcp ∷ xs) (read-show cs)
read-show (quic_v1 ∷ cs) = ap (λ xs. quic_v1 ∷ xs) (read-show cs)
read-show (other ∷ cs) = ap (λ xs. other ∷ xs) (read-show cs)

abbrev pub toy_externals : Externals
toy_externals = record {
  PeerId = ℕ;
  Multiaddr = List Component;
  components = λ cs. cs;
  show_peer = λ n. n ∷ [];
  read_peer = first;
  peer_bytes = λ n. n ∷ [];
  show_address = show;
  read_address = λ bytes. some (read bytes);
  encode64 = λ b. b;
  decode64 = λ b. some b;
}

toy_externals-ReadsBack : ReadsBack toy_externals
toy_externals-ReadsBack = record {
  peers = λ n. refl;
  addresses = λ cs. ap some (read-show cs);
  base64 = λ b. refl;
}

abbrev envelope_format : Format BootstrapEnvelope
envelope_format =
    ToyJson.via
      (ToyJson.pair ToyJson.number (
        ToyJson.pair (ToyJson.many ToyJson.number)
          (ToyJson.pair (ToyJson.many ToyJson.number) (ToyJson.many ToyJson.number))))
      (λ (v, (i, (q, a))). record { version = v; invite_package = i; peer_id = q; address = a })
      (λ e. (e.version, (e.invite_package, (e.peer_id, e.address)))) (λ e. refl)

abbrev direct : List Component
direct = other ∷ udp ∷ quic_v1 ∷ []

abbrev code : Bytes
code = code_prefix ++ 1 ∷ 3 ∷ 7 ∷ 8 ∷ 9 ∷ 1 ∷ 42 ∷ 3 ∷ 5 ∷ 2 ∷ 4 ∷ []

code_created :
    create_code toy_externals (codec envelope_format) (7 ∷ 8 ∷ 9 ∷ []) 42 direct ≡ ok code
unfolding create_code validate_components direct_quic relay_route positions ends_in_quic
code_created = refl

create_code_restores_example :
    (parse_code toy_externals (codec envelope_format) code >>= validate toy_externals)
    ≡ ok (record { invite_package = 7 ∷ 8 ∷ 9 ∷ []; peer_id = 42; address = direct })
create_code_restores_example =
    create_code_restores toy_externals toy_externals-ReadsBack (codec envelope_format)
      (7 ∷ 8 ∷ 9 ∷ []) 42 direct code (codec-RoundTrips envelope_format) code_created

abbrev relayed : List Component
relayed = other ∷ tcp ∷ p2p ∷ p2p_circuit ∷ []

validate_components_iff_example :
    (validate_components relayed ≡ ok tt) ↔ (IsDirect relayed ⊎ IsRelayed relayed)
validate_components_iff_example = validate_components_iff relayed
