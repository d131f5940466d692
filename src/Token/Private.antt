-- ===== src/Token/Private.antt =====
-- c/netcode.c, struct netcode_connect_token_private_t and its five functions.
pub mod Laws
use netcode_io.Base.{
  ℕ, ◌+◌, ◌-◌, ◌*◌, ◌≤◌, List, [], ◌∷◌, ◌++◌, length, take, replicate, All, Bool, if◌then◌else◌,
  ltb, ◌==◌, Option, none, some,
}
use netcode_io.Base.Int.{ℤ, pos, negsuc, IsInt32, to_uint32, to_int32}
use netcode_io.Wire.{
  IsUint64, IsBytes, Outcome, ok, error, fault, Reader, ◌>>=◌, pure, fail, write_uint32,
  write_uint64, write_bytes, read_uint32, read_uint64, read_bytes,
}
use netcode_io.Address.{Address, IsAddress, write_addresses, read_addresses}
use netcode_io.Sodium.{Sodium, encrypt_aead, decrypt_aead, mac_bytes, key_bytes}
use netcode_io.Token.{
  connect_token_private_bytes, user_data_bytes, max_servers_per_connect, nonce,
  token_additional_data,
}

-- `num_server_addresses` is the length of the list.
pub record ConnectTokenPrivate : Type 0 where
  pub client_id : ℕ
  pub timeout_seconds : ℤ
  pub server_addresses : List Address
  pub client_to_server_key : List ℕ
  pub server_to_client_key : List ℕ
  pub user_data : List ℕ

-- The ranges of the C types, and what `netcode_write_connect_token_private` asserts.
pub record IsTokenPrivate (t : ConnectTokenPrivate) : Type 0 where
  pub client_id_in : IsUint64 t.client_id
  pub timeout_in : IsInt32 t.timeout_seconds
  pub some_server : 1 ≤ length t.server_addresses
  pub servers_fit : length t.server_addresses ≤ max_servers_per_connect
  pub servers_in : All IsAddress t.server_addresses
  pub client_key_in : IsBytes key_bytes t.client_to_server_key
  pub server_key_in : IsBytes key_bytes t.server_to_client_key
  pub user_data_in : IsBytes user_data_bytes t.user_data

-- The two keys are what `randombytes_buf` yields; `none` is a null `user_data`.
unfoldable pub generate_connect_token_private :
    List ℕ → List ℕ → ℕ → ℤ → List Address → Option (List ℕ) → ConnectTokenPrivate
generate_connect_token_private client_key server_key client_id timeout_seconds addresses user_data =
    record {
      client_id = client_id;
      timeout_seconds = timeout_seconds;
      server_addresses = addresses;
      client_to_server_key = client_key;
      server_to_client_key = server_key;
      user_data = elim user_data [
        | some bytes ↦ take user_data_bytes bytes
        | none ↦ replicate user_data_bytes 0
      ];
    }

-- What is written before the padding.
unfoldable pub private_fields : ConnectTokenPrivate → List ℕ
private_fields t =
    write_uint64 t.client_id
    ++ write_uint32 (to_uint32 t.timeout_seconds)
    ++ write_uint32 (length t.server_addresses)
    ++ write_addresses t.server_addresses
    ++ write_bytes t.client_to_server_key key_bytes
    ++ write_bytes t.server_to_client_key key_bytes
    ++ write_bytes t.user_data user_data_bytes

-- The whole buffer: the fields, and zeros up to 1024 bytes.
unfoldable pub write_connect_token_private : ConnectTokenPrivate → List ℕ
write_connect_token_private t =
    private_fields t ++ replicate (connect_token_private_bytes - length (private_fields t)) 0

-- Encrypts all but the last 16 bytes of the buffer, and leaves the MAC in those.
unfoldable pub encrypt_connect_token_private :
    Sodium → List ℕ → List ℕ → ℕ → ℕ → ℕ → List ℕ → Option (List ℕ)
encrypt_connect_token_private sodium buffer version protocol_id expire_timestamp sequence key =
    encrypt_aead sodium (take (connect_token_private_bytes - mac_bytes) buffer)
      (token_additional_data version protocol_id expire_timestamp) (nonce sequence) key

-- Reads 1024 bytes of the buffer, whatever its length: a shorter one is a `fault`.
unfoldable pub decrypt_connect_token_private :
    Sodium → List ℕ → List ℕ → ℕ → ℕ → ℕ → List ℕ → Outcome (List ℕ)
decrypt_connect_token_private sodium buffer version protocol_id expire_timestamp sequence key =
    elim (read_bytes connect_token_private_bytes buffer) [
      | error ↦ error
      | fault ↦ fault
      | ok (cipher, rest) ↦
          elim (decrypt_aead sodium cipher
            (token_additional_data version protocol_id expire_timestamp) (nonce sequence) key) [
              | none ↦ error
              | some decrypted ↦ ok decrypted
            ]
    ]

-- The fields behind `num_server_addresses`, which is an `int`.
unfoldable pub read_private_servers : ℕ → ℤ → ℤ → Reader ConnectTokenPrivate
read_private_servers client_id timeout_seconds (negsuc n) = fail
read_private_servers client_id timeout_seconds (pos n) =
    if n == 0 then fail else if ltb max_servers_per_connect n then fail else (do
      addresses ← read_addresses n
      client_key ← read_bytes key_bytes
      server_key ← read_bytes key_bytes
      user_data ← read_bytes user_data_bytes
      pure (record {
        client_id = client_id;
        timeout_seconds = timeout_seconds;
        server_addresses = addresses;
        client_to_server_key = client_key;
        server_to_client_key = server_key;
        user_data = user_data;
      }))

unfoldable pub read_private_fields : Reader ConnectTokenPrivate
read_private_fields = do
  client_id ← read_uint64
  timeout_seconds ← read_uint32
  num_server_addresses ← read_uint32
  read_private_servers client_id (to_int32 timeout_seconds) (to_int32 num_server_addresses)

unfoldable pub read_connect_token_private : List ℕ → Outcome ConnectTokenPrivate
read_connect_token_private buffer =
    if ltb (length buffer) connect_token_private_bytes
    then error
    else elim (read_private_fields buffer) [ ok (t, rest) ↦ ok t | error ↦ error | fault ↦ fault ]
