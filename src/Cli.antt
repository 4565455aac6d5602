-- ===== src/Cli.antt =====
-- crates/cli/src/main.rs: the command line. Files, the clock, printing and the loop that waits for
-- events are left out; texts of libraries are read by `Readers`.
pub mod Commands
pub mod Authorization
pub mod Importing
use chatcommons.Prelude.{
  ℕ, ◌+◌, ◌*◌, ◌==◌, Bool, true, false, not, ◌&&◌, ◌||◌, Option, none, some, List, [], ◌∷◌, ◌++◌,
  length, is_empty, all, any, ltb, Result, ok, err, ◌>>=◌, ◌>>◌, fail_if, ok_or,
}
use chatcommons.Prelude.Bytes.{Bytes, codes, eq_bytes, to_array}
use chatcommons.Prelude.Sets
use chatcommons.Prelude.Sets.{Set}
use chatcommons.Crypto.{UserId}
use chatcommons.Protocol.{CommunityId}
use chatcommons.Chat.{ChatError, HomeServerBinding}
use chatcommons.Storage.{Sqlite, StorageError}
use chatcommons.Node.{NodeError}
use chatcommons.Network.{Libp2p, Synchronizer, NetworkError, Multiaddr, PeerId}

abbrev pub max_allowed_users : ℕ
max_allowed_users = 256

abbrev pub max_channel_name_bytes : ℕ
max_channel_name_bytes = 80

abbrev pub max_message_bytes : ℕ
max_message_bytes = 4000

-- What reads texts: hex, and the `from_str` of libp2p's peers and addresses.
pub record Readers : Type 0 where
  pub hex_decode : Bytes → Option Bytes
  pub read_peer : Bytes → Option PeerId
  pub read_address : Bytes → Option Multiaddr
  -- `parse::<u64>`
  pub read_number : Bytes → Option ℕ

pub data NetworkRole : Type 0 where
  peer home_server : NetworkRole

-- The errors of reading the command line.
pub data ArgumentError : Type 0 where
  arguments hex peer_id multiaddr : ArgumentError
  invalid_home_server_public_key unsupported_home_server_endpoint : ArgumentError

-- `BTreeMap<String, Vec<String>>`: each option with its values.
pub record Options : Type 0 where
  pub entries : List (Bytes × List Bytes)

-- `entry(option).or_default().push(value)`
unfoldable pub push : Bytes → Bytes → List (Bytes × List Bytes) → List (Bytes × List Bytes)
push option value [] = (option, value ∷ []) ∷ []
push option value ((name, values) ∷ rest) = elim (eq_bytes option name) [
  | true ↦ (name, values ++ value ∷ []) ∷ rest
  | false ↦ (name, values) ∷ push option value rest
]

unfoldable pub values_of : Bytes → List (Bytes × List Bytes) → Option (List Bytes)
values_of option [] = none
values_of option ((name, values) ∷ rest) = elim (eq_bytes option name) [
  | true ↦ some values
  | false ↦ values_of option rest
]

-- `starts_with("--")`
abbrev pub is_option : Bytes → Bool
is_option (a ∷ b ∷ rest) = a == 45 && b == 45
is_option _ = false

-- The loop of `Options::parse`, with what it has read.
unfoldable pub parse_from : List (Bytes × List Bytes) → List Bytes → Result ArgumentError Options
parse_from values [] = ok (record { entries = values })
parse_from values (option ∷ []) = err arguments
parse_from values (option ∷ value ∷ rest) = elim (is_option option) [
  | true ↦ parse_from (push option value values) rest
  | false ↦ err arguments
]

abbrev pub parse : List Bytes → Result ArgumentError Options
parse given = parse_from [] given

abbrev pub exactly_one : Option (List Bytes) → Result ArgumentError Bytes
exactly_one (some (value ∷ [])) = ok value
exactly_one _ = err arguments

abbrev pub at_most_one : Option (List Bytes) → Result ArgumentError (Option Bytes)
at_most_one (some (value ∷ [])) = ok (some value)
at_most_one (some _) = err arguments
at_most_one none = ok none

unfoldable pub require_one : Options → Bytes → Result ArgumentError Bytes
require_one options name = exactly_one (values_of name options.entries)

unfoldable pub optional_one : Options → Bytes → Result ArgumentError (Option Bytes)
optional_one options name = at_most_one (values_of name options.entries)

abbrev pub or_nothing : Option (List Bytes) → List Bytes
or_nothing none = []
or_nothing (some values) = values

unfoldable pub many : Options → Bytes → List Bytes
many options name = or_nothing (values_of name options.entries)

abbrev pub names : List (Bytes × List Bytes) → List Bytes
names [] = []
names ((name, values) ∷ rest) = name ∷ names rest

unfoldable pub allow_only : Options → List Bytes → Result ArgumentError (Unit {0})
allow_only options allowed =
    fail_if (not (all (λ name. any (λ a. eq_bytes a name) allowed) (names options.entries)))
      arguments

-- The number that an array writes in big endian.
unfoldable pub number_of : ℕ → Bytes → ℕ
number_of read [] = read
number_of read (b ∷ bytes) = number_of (read * 256 + b) bytes

-- A trimmed channel name or message text of `command_create_channel` and `command_send_message`.
unfoldable pub check_text : ℕ → Bytes → Result ArgumentError (Unit {0})
check_text limit text = fail_if (is_empty text || ltb limit (length text)) arguments

module _ (r : Readers) where
  unfoldable pub parse_hex_32 : Bytes → Result ArgumentError Bytes
  parse_hex_32 value = do
    fail_if (not (length value == 64)) arguments
    bytes ← ok_or (r.hex_decode value) hex
    ok_or (to_array 32 bytes) arguments

  unfoldable pub parse_user : Bytes → Result ArgumentError UserId
  parse_user value = do bytes ← parse_hex_32 value; ok (number_of 0 bytes)

  unfoldable pub parse_community : Bytes → Result ArgumentError CommunityId
  parse_community value = do bytes ← parse_hex_32 value; ok (number_of 0 bytes)

  -- `map` of the values and `collect`, with the first error.
  unfoldable pub parse_users : List Bytes → Set → Result ArgumentError Set
  parse_users [] users = ok users
  parse_users (value ∷ values) users = do
    user ← parse_user value
    parse_users values (Sets.insert user users)

  unfoldable pub parse_allowed_users : List Bytes → Result ArgumentError Set
  parse_allowed_users values = do
    fail_if (ltb max_allowed_users (length values)) arguments
    parse_users values []

  unfoldable pub parse_multiaddr : Bytes → Result ArgumentError Multiaddr
  parse_multiaddr value = ok_or (r.read_address value) multiaddr

  -- `parse_positive_usize`, `parse_positive_u64` and `parse_positive_milliseconds`, which differ in
  -- their texts.
  unfoldable pub parse_positive : Bytes → Result ArgumentError ℕ
  parse_positive value = do
    parsed ← ok_or (r.read_number value) arguments
    fail_if (parsed == 0) arguments
    ok parsed

  -- The `match` of `parse_dial`.
  abbrev pub dial_of :
      Option Bytes → Option Bytes → Result ArgumentError (Option (PeerId × Multiaddr))
  dial_of none none = ok none
  dial_of (some target) (some address) = do
    id ← ok_or (r.read_peer target) peer_id
    route ← parse_multiaddr address
    ok (some (id, route))
  dial_of (some target) none = err arguments
  dial_of none (some address) = err arguments

  unfoldable pub parse_dial : Options → Result ArgumentError (Option (PeerId × Multiaddr))
  parse_dial options = do
    target ← optional_one options (codes "--dial-peer")
    address ← optional_one options (codes "--dial-address")
    dial_of target address

  -- `find_map` of the first endpoint that reads as an address.
  unfoldable pub first_address : List Bytes → Option Multiaddr
  first_address [] = none
  first_address (endpoint ∷ endpoints) = elim (r.read_address endpoint) [
    | some address ↦ some address
    | none ↦ first_address endpoints
  ]

  unfoldable pub home_server_target :
      Libp2p → HomeServerBinding → Result ArgumentError (PeerId × Multiaddr)
  home_server_target n binding = do
    id ← ok_or (n.peer_of_key binding.server_public_key) invalid_home_server_public_key
    address ← ok_or (first_address binding.endpoints) unsupported_home_server_endpoint
    ok (id, address)

module _ (q : Sqlite) (z : Synchronizer) where
  -- The errors of the commands, as far as the definitions below raise them.
  pub data CliError : Type 0 where
    storage : StorageError q → CliError
    node : NodeError q → CliError
    chat : ChatError → CliError
    network : NetworkError z → CliError
    wrong_database_community profile_rejected : CliError
    missing_home_server wrong_home_server_identity incomplete_archive : CliError
