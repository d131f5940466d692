-- ===== src/Token/Public.antt =====
-- c/netcode.c, struct netcode_connect_token_t, netcode_write_connect_token and
-- netcode_read_connect_token.
pub mod Laws
pub mod Accepts
use netcode_io.Base.{
  ℕ, ◌+◌, ◌-◌, ◌≤◌, List, [], ◌∷◌, ◌++◌, length, replicate, All, Bool, not, ◌||◌, if◌then◌else◌,
  ltb, ◌==◌, ◌≡◌,
}
use netcode_io.Base.Int.{ℤ, pos, negsuc, IsInt32, to_uint32, to_int32}
use netcode_io.Wire.{
  IsUint64, IsBytes, Outcome, ok, error, fault, Reader, ◌>>=◌, pure, fail, write_uint32,
  write_uint64, write_bytes, read_uint32, read_uint64, read_bytes,
}
use netcode_io.Address.{Address, IsAddress, write_addresses, read_addresses}
use netcode_io.Sodium.{key_bytes}
use netcode_io.Token.{
  connect_token_bytes, connect_token_private_bytes, version_info_bytes, max_servers_per_connect,
  version_info, equal_bytes,
}

-- `num_server_addresses` is the length of the list.
pub record ConnectToken : Type 0 where
  pub version : List ℕ
  pub protocol_id : ℕ
  pub create_timestamp : ℕ
  pub expire_timestamp : ℕ
  pub sequence : ℕ
  pub private_data : List ℕ
  pub timeout_seconds : ℤ
  pub server_addresses : List Address
  pub client_to_server_key : List ℕ
  pub server_to_client_key : List ℕ

-- The ranges of the C types, what the writer asserts, and what the reader tests.
pub record IsToken (t : ConnectToken) : Type 0 where
  pub version_is : t.version ≡ version_info
  pub protocol_id_in : IsUint64 t.protocol_id
  pub create_in : IsUint64 t.create_timestamp
  pub expire_in : IsUint64 t.expire_timestamp
  pub create_first : t.create_timestamp ≤ t.expire_timestamp
  pub sequence_in : IsUint64 t.sequence
  pub private_data_in : length t.private_data ≡ connect_token_private_bytes
  pub timeout_in : IsInt32 t.timeout_seconds
  pub some_server : 1 ≤ length t.server_addresses
  pub servers_fit : length t.server_addresses ≤ max_servers_per_connect
  pub servers_in : All IsAddress t.server_addresses
  pub client_key_in : IsBytes key_bytes t.client_to_server_key
  pub server_key_in : IsBytes key_bytes t.server_to_client_key

-- What is written before the padding.
unfoldable pub token_fields : ConnectToken → List ℕ
token_fields t =
    write_bytes t.version version_info_bytes
    ++ write_uint64 t.protocol_id
    ++ write_uint64 t.create_timestamp
    ++ write_uint64 t.expire_timestamp
    ++ write_uint64 t.sequence
    ++ write_bytes t.private_data connect_token_private_bytes
    ++ write_uint32 (to_uint32 t.timeout_seconds)
    ++ write_uint32 (length t.server_addresses)
    ++ write_addresses t.server_addresses
    ++ write_bytes t.client_to_server_key key_bytes
    ++ write_bytes t.server_to_client_key key_bytes

unfoldable pub write_connect_token : ConnectToken → List ℕ
write_connect_token t =
    token_fields t ++ replicate (connect_token_bytes - length (token_fields t)) 0

-- The fields behind `num_server_addresses`, which is an `int`. The token given holds those before.
unfoldable pub read_token_servers : ConnectToken → ℤ → Reader ConnectToken
read_token_servers t (negsuc n) = fail
read_token_servers t (pos n) = if n == 0 || ltb max_servers_per_connect n then fail else (do
  addresses ← read_addresses n
  client_key ← read_bytes key_bytes
  server_key ← read_bytes key_bytes
  pure (record t {
    server_addresses = addresses;
    client_to_server_key = client_key;
    server_to_client_key = server_key;
  }))

-- From `create_timestamp > expire_timestamp` on.
unfoldable pub read_token_rest : List ℕ → ℕ → ℕ → ℕ → Reader ConnectToken
read_token_rest version protocol_id create_timestamp expire_timestamp =
    if ltb expire_timestamp create_timestamp then fail else (do
      sequence ← read_uint64
      private_data ← read_bytes connect_token_private_bytes
      timeout_seconds ← read_uint32
      num_server_addresses ← read_uint32
      read_token_servers
          (record {
            version = version;
            protocol_id = protocol_id;
            create_timestamp = create_timestamp;
            expire_timestamp = expire_timestamp;
            sequence = sequence;
            private_data = private_data;
            timeout_seconds = to_int32 timeout_seconds;
            server_addresses = [];
            client_to_server_key = [];
            server_to_client_key = [];
          })
          (to_int32 num_server_addresses))

-- From the test of the version on.
unfoldable pub read_token_version : List ℕ → Reader ConnectToken
read_token_version version = if not (equal_bytes version version_info) then fail else (do
  protocol_id ← read_uint64
  create_timestamp ← read_uint64
  expire_timestamp ← read_uint64
  read_token_rest version protocol_id create_timestamp expire_timestamp)

unfoldable pub read_token_fields : Reader ConnectToken
read_token_fields = do version ← read_bytes version_info_bytes; read_token_version version

-- The result of a read that ends with NETCODE_ERROR is the error alone: what it left in the
-- caller's struct is not kept.
unfoldable pub read_connect_token : List ℕ → Outcome ConnectToken
read_connect_token buffer =
    if not (length buffer == connect_token_bytes)
    then error
    else elim (read_token_fields buffer) [ ok (t, rest) ↦ ok t | error ↦ error | fault ↦ fault ]
