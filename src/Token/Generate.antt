-- ===== src/Token/Generate.antt =====
-- c/netcode.c, netcode_generate_connect_token.
use netcode_io.Base.{
  ℕ, ◌+◌, ◌-◌, ◌%◌, ◌^◌, ◌≤◌, List, [], ◌∷◌, length, All, Option, none, some, mapped-some, take_all,
  ◌≡◌, refl, arith,
}
use netcode_io.Base.Int.{ℤ, pos, negsuc, IsInt32}
use netcode_io.Wire.{IsUint64, IsBytes, ok}
use netcode_io.Address.{Address, IsAddress}
use netcode_io.Sodium.{Sodium, IsAead, key_bytes}
use netcode_io.Token.{version_info, user_data_bytes, max_servers_per_connect}
use netcode_io.Token.Private.{
  ConnectTokenPrivate, IsTokenPrivate, generate_connect_token_private, write_connect_token_private,
  encrypt_connect_token_private, decrypt_connect_token_private, read_connect_token_private,
}
use netcode_io.Token.Private.Laws.{open-seal_private}
use netcode_io.Token.Public.{ConnectToken, IsToken, write_connect_token, read_connect_token}
use netcode_io.Token.Public.Laws.{read-write_token}

-- What the function takes from outside: `netcode_parse_address` on the text of an address, the
-- clock, and three draws of random bytes.
pub record Sources : Type 0 where
  pub parse_address : List ℕ → Option Address
  pub now : ℕ
  pub user_data : List ℕ
  pub client_to_server_key : List ℕ
  pub server_to_client_key : List ℕ

-- The loop over the addresses.
unfoldable pub parse_addresses : (List ℕ → Option Address) → List (List ℕ) → Option (List Address)
parse_addresses parse [] = some []
parse_addresses parse (text ∷ texts) = elim (parse text) [
  | none ↦ none
  | some address ↦ elim (parse_addresses parse texts) [
    | none ↦ none
    | some addresses ↦ some (address ∷ addresses)
  ]
]

-- A negative number of seconds is a token that does not expire. The sum wraps at 64 bits.
unfoldable pub expire_timestamp_of : ℕ → ℤ → ℕ
expire_timestamp_of create_timestamp (pos seconds) = (create_timestamp + seconds) % 2 ^ 64
expire_timestamp_of create_timestamp (negsuc n) = 2 ^ 64 - 1

abbrev pub generated_private : Sources → List Address → ℤ → ℕ → ConnectTokenPrivate
generated_private sources addresses timeout_seconds client_id =
    generate_connect_token_private sources.client_to_server_key sources.server_to_client_key
      client_id timeout_seconds addresses (some sources.user_data)

-- The connect token around the sealed private token.
abbrev pub generated_token :
    Sources → List Address → ℤ → ℤ → ℕ → ℕ → List ℕ → ConnectTokenPrivate → ConnectToken
generated_token sources addresses expire_seconds timeout_seconds protocol_id sequence sealed
      private_token =
    record {
      version = version_info;
      protocol_id = protocol_id;
      create_timestamp = sources.now;
      expire_timestamp = expire_timestamp_of sources.now expire_seconds;
      sequence = sequence;
      private_data = sealed;
      timeout_seconds = timeout_seconds;
      server_addresses = addresses;
      client_to_server_key = private_token.client_to_server_key;
      server_to_client_key = private_token.server_to_client_key;
    }

-- From the parsed addresses on.
unfoldable pub generate_for :
    Sodium → Sources → List Address → ℤ → ℤ → ℕ → ℕ → ℕ → List ℕ → Option (List ℕ)
generate_for sodium sources addresses expire_seconds timeout_seconds client_id protocol_id sequence
      key =
    let private_token = generated_private sources addresses timeout_seconds client_id in
    elim (encrypt_connect_token_private sodium (write_connect_token_private private_token)
      version_info protocol_id (expire_timestamp_of sources.now expire_seconds) sequence key) [
        | none ↦ none
        | some sealed ↦ some (
            write_connect_token (
              generated_token sources addresses expire_seconds timeout_seconds protocol_id sequence
                sealed private_token))
      ]

-- The bytes of `output_buffer`; `none` is NETCODE_ERROR.
unfoldable pub generate_connect_token :
    Sodium → Sources → List (List ℕ) → ℤ → ℤ → ℕ → ℕ → ℕ → List ℕ → Option (List ℕ)
generate_connect_token sodium sources server_addresses expire_seconds timeout_seconds client_id
      protocol_id sequence key =
    elim (parse_addresses sources.parse_address server_addresses) [
      | none ↦ none
      | some addresses ↦
          generate_for sodium sources addresses expire_seconds timeout_seconds client_id protocol_id
            sequence key
    ]

-- The ranges of the C types and the sizes of the random draws.
pub record IsSources (sources : Sources) : Type 0 where
  pub now_in : IsUint64 sources.now
  pub user_data_in : IsBytes user_data_bytes sources.user_data
  pub client_key_in : IsBytes key_bytes sources.client_to_server_key
  pub server_key_in : IsBytes key_bytes sources.server_to_client_key

generated-IsTokenPrivate :
    (sources : Sources) (addresses : List Address) (timeout_seconds : ℤ) (client_id : ℕ)
    → IsSources sources
    → All IsAddress addresses
    → 1 ≤ length addresses
    → length addresses ≤ max_servers_per_connect
    → IsInt32 timeout_seconds
    → IsUint64 client_id
    → IsTokenPrivate (generated_private sources addresses timeout_seconds client_id)
unfolding generate_connect_token_private
generated-IsTokenPrivate sources addresses timeout_seconds client_id valid every some_server fit t
      c =
    record {
      client_id_in = c;
      timeout_in = t;
      some_server = some_server;
      servers_fit = fit;
      servers_in = every;
      client_key_in = valid.client_key_in;
      server_key_in = valid.server_key_in;
      user_data_in =
          rw (take_all 256 sources.user_data (omega (arith, valid.user_data_in.0)))
            valid.user_data_in;
    }

generated-IsToken :
    (sources : Sources) (addresses : List Address) (expire_seconds timeout_seconds : ℤ)
    (client_id protocol_id sequence : ℕ) (sealed : List ℕ)
    → IsSources sources
    → IsTokenPrivate (generated_private sources addresses timeout_seconds client_id)
    → IsUint64 protocol_id
    → IsUint64 sequence
    → sources.now ≤ expire_timestamp_of sources.now expire_seconds
    → IsUint64 (expire_timestamp_of sources.now expire_seconds)
    → length sealed ≡ 1024
    → IsToken (
        generated_token sources addresses expire_seconds timeout_seconds protocol_id sequence sealed
          (generated_private sources addresses timeout_seconds client_id))
unfolding generate_connect_token_private
generated-IsToken sources addresses expire_seconds timeout_seconds client_id protocol_id sequence
      sealed valid private p s later e l =
    record {
      version_is = refl;
      protocol_id_in = p;
      create_in = valid.now_in;
      expire_in = e;
      create_first = later;
      sequence_in = s;
      private_data_in = l;
      timeout_in = private.timeout_in;
      some_server = private.some_server;
      servers_fit = private.servers_fit;
      servers_in = private.servers_in;
      client_key_in = private.client_key_in;
      server_key_in = private.server_key_in;
    }

expire-IsUint64 : (now : ℕ) (seconds : ℤ) → IsUint64 (expire_timestamp_of now seconds)
unfolding expire_timestamp_of
expire-IsUint64 now (pos n) = omega arith
expire-IsUint64 now (negsuc n) = omega arith

-- A connect token that was generated for addresses that parse, for a time that does not wrap, is one
-- that the client reads and whose private data the server opens: the two agree on the server
-- addresses, the timeout and both keys, and the server gets the client's id and user data.
pub generate_connect_token_lem :
    (sodium : Sodium) (sources : Sources) (texts : List (List ℕ)) (addresses : List Address)
    (expire_seconds timeout_seconds : ℤ) (client_id protocol_id sequence : ℕ) (key output : List ℕ)
    → IsAead sodium
    → IsSources sources
    → parse_addresses sources.parse_address texts ≡ some addresses
    → All IsAddress addresses
    → 1 ≤ length addresses
    → length addresses ≤ max_servers_per_connect
    → IsInt32 timeout_seconds
    → IsUint64 client_id
    → IsUint64 protocol_id
    → IsUint64 sequence
    → sources.now ≤ expire_timestamp_of sources.now expire_seconds
    → generate_connect_token sodium sources texts expire_seconds timeout_seconds client_id
        protocol_id sequence key
      ≡ some output
    → (token : ConnectToken) × (private_token : ConnectTokenPrivate) × (buffer : List ℕ)
      × (read_connect_token output ≡ ok token)
      × (decrypt_connect_token_private sodium token.private_data token.version token.protocol_id
            token.expire_timestamp token.sequence key
          ≡ ok buffer)
      × (read_connect_token_private buffer ≡ ok private_token)
      × (token.server_addresses ≡ private_token.server_addresses)
      × (token.timeout_seconds ≡ private_token.timeout_seconds)
      × (token.client_to_server_key ≡ private_token.client_to_server_key)
      × (token.server_to_client_key ≡ private_token.server_to_client_key)
      × (private_token.client_id ≡ client_id)
      × (private_token.user_data ≡ sources.user_data)
unfolding generate_connect_token generate_for generate_connect_token_private
generate_connect_token_lem sodium sources texts addresses expire_seconds timeout_seconds client_id
      protocol_id sequence key output aead valid parsed every some_server fit t c p s later e =
    let private_token = generated_private sources addresses timeout_seconds client_id in
    let expire = expire_timestamp_of sources.now expire_seconds in
    let private =
      generated-IsTokenPrivate sources addresses timeout_seconds client_id valid every some_server
        fit t c in
    let made : generate_for sodium sources addresses expire_seconds timeout_seconds client_id
          protocol_id sequence key
        ≡ some output =
      rw (parsed, generate_connect_token) at e in
    let (sealed, encrypted, is) = mapped-some _ _ made in
    let (buffer, opened, read, mac, l, cl) =
      open-seal_private sodium private_token version_info key sealed protocol_id expire sequence
        aead private encrypted in
    let token =
      generated_token sources addresses expire_seconds timeout_seconds protocol_id sequence sealed
        private_token in
    let token_valid =
      generated-IsToken sources addresses expire_seconds timeout_seconds client_id protocol_id
        sequence sealed valid private p s later (expire-IsUint64 sources.now expire_seconds) cl in
    (
      token,
      private_token,
      buffer,
      rw is (read-write_token token token_valid),
      opened,
      read,
      refl,
      refl,
      refl,
      refl,
      refl,
      take_all 256 sources.user_data (omega (arith, valid.user_data_in.0)),
    )
