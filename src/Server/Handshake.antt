-- ===== src/Server/Handshake.antt =====
-- c/netcode.c: how the server answers connection requests and responses, and connects a client.
use netcode_io.Base.{
  ℕ, ◌+◌, ◌-◌, ◌%◌, ◌^◌, List, [], ◌∷◌, take, drop, Bool, true, false, not, ◌||◌, if◌then◌else◌,
  ◌==◌, Option, none, some,
}
use netcode_io.Base.Int.{ℤ, pos, negsuc}
use netcode_io.Wire.{ok}
use netcode_io.Address.{Address, address_equal}
use netcode_io.Sodium.{Sodium, mac_bytes}
use netcode_io.Token.{connect_token_private_bytes, user_data_bytes}
use netcode_io.Token.Private.{ConnectTokenPrivate, read_connect_token_private}
use netcode_io.Token.Challenge.{
  ChallengeToken, write_challenge_token, encrypt_challenge_token, decrypt_challenge_token,
  read_challenge_token,
}
use netcode_io.Packet.{denied, challenge, keep_alive}
use netcode_io.Time.{Doubles}
use netcode_io.Encryption.{add_encryption_mapping, set_expire_time, get_send_key, get_timeout}
use netcode_io.TokenEntries.{find_or_add}
use netcode_io.Server.{
  Server, client_at, put_client, find_client_index_by_id, find_client_index_by_address,
  find_free_client_index,
}
use netcode_io.Server.Connection.{send_global_packet, send_client_packet, report}

abbrev pub is_found : Option ℕ → Bool
is_found none = false
is_found (some i) = true

-- The loop over the token's server addresses.
unfoldable pub lists_address : Address → List Address → Bool
lists_address address [] = false
lists_address address (a ∷ as') = address_equal address a || lists_address address as'

-- The last 16 bytes of a request's token.
abbrev pub mac_of : List ℕ → List ℕ
mac_of token_data = take mac_bytes (drop (connect_token_private_bytes - mac_bytes) token_data)

module _ (doubles : Doubles) where
  -- From the challenge token on.
  unfoldable pub send_challenge :
      Sodium → Server doubles → Address → ConnectTokenPrivate → Server doubles
  send_challenge sodium server from token =
      elim (encrypt_challenge_token sodium
        (write_challenge_token
          (record { client_id = token.client_id; user_data = token.user_data }))
        server.challenge_sequence server.challenge_key) [
          | none ↦ server
          | some token_data ↦
              send_global_packet doubles sodium
                (record server { challenge_sequence = (server.challenge_sequence + 1) % 2 ^ 64 })
                (challenge server.challenge_sequence token_data) from token.server_to_client_key
        ]

  -- From the test for a free slot on.
  unfoldable pub answer_request :
      Sodium → Server doubles → Address → ConnectTokenPrivate → Server doubles
  answer_request sodium server from token =
      if server.num_connected_clients == server.max_clients
      then send_global_packet doubles sodium server denied from token.server_to_client_key
      else (let (manager, added) =
            add_encryption_mapping doubles server.encryption_manager from token.server_to_client_key
              token.client_to_server_key server.time
              (doubles.sum server.time (doubles.from_int token.timeout_seconds))
              token.timeout_seconds in
          let server' = record server { encryption_manager = manager } in
          if not added then server' else send_challenge sodium server' from token)

  -- The tests of a token that could be read.
  unfoldable pub consider_request :
      Sodium → Server doubles → Address → List ℕ → ConnectTokenPrivate → Server doubles
  consider_request sodium server from token_data token =
      if not (lists_address server.address token.server_addresses)
      then server
      else if is_found (find_client_index_by_address doubles server from)
      then server
      else if is_found (find_client_index_by_id doubles server token.client_id)
      then server
      else (let (entries, usable) =
            find_or_add doubles server.connect_token_entries from (mac_of token_data) server.time in
          let server' = record server { connect_token_entries = entries } in
          if not usable then server' else answer_request sodium server' from token)

  unfoldable pub process_connection_request_packet :
      Sodium → Server doubles → Address → List ℕ → Server doubles
  process_connection_request_packet sodium server from token_data =
      elim (read_connect_token_private token_data) [
        | ok token ↦ consider_request sodium server from token_data token
        | _ ↦ server
      ]

  unfoldable pub connect_client :
      Sodium → Server doubles → ℕ → Address → ℕ → ℕ → ℤ → List ℕ → Server doubles
  connect_client sodium server client_index address client_id encryption_index timeout_seconds
        user_data =
      let client = client_at doubles server client_index in
      let server' =
        record (put_client doubles server client_index (record client {
          connected = true;
          timeout = timeout_seconds;
          encryption_index = some encryption_index;
          client_id = client_id;
          sequence = 0;
          address = address;
          last_packet_send_time = server.time;
          last_packet_receive_time = server.time;
          user_data = take user_data_bytes user_data;
        })) {
          num_connected_clients = server.num_connected_clients + 1;
          encryption_manager =
              set_expire_time doubles server.encryption_manager encryption_index
                (doubles.from_int (negsuc 0));
        } in
      report doubles
        (send_client_packet doubles sodium server'
          (keep_alive (pos client_index) (pos server.max_clients)) client_index)
        client_index true

  -- From the test for a free slot on; `index` is the encryption index. The last case is what an
  -- assertion excludes.
  unfoldable pub answer_response :
      Sodium → Server doubles → Address → ChallengeToken → ℕ → List ℕ → Server doubles
  answer_response sodium server from token index packet_send_key =
      if server.num_connected_clients == server.max_clients
      then send_global_packet doubles sodium server denied from packet_send_key
      else elim (find_free_client_index doubles server) [
        | some client_index ↦
            connect_client sodium server client_index from token.client_id index
              (get_timeout doubles server.encryption_manager (some index)) token.user_data
        | none ↦ server
      ]

  -- The tests of a challenge token that could be read.
  unfoldable pub consider_response :
      Sodium → Server doubles → Address → ChallengeToken → Option ℕ → Server doubles
  consider_response sodium server from token none = server
  consider_response sodium server from token (some index) =
      elim (get_send_key doubles server.encryption_manager (some index)) [
        | none ↦ server
        | some packet_send_key ↦
            if is_found (find_client_index_by_address doubles server from)
            then server
            else if is_found (find_client_index_by_id doubles server token.client_id)
            then server
            else answer_response sodium server from token index packet_send_key
      ]

  unfoldable pub process_connection_response_packet :
      Sodium → Server doubles → Address → ℕ → List ℕ → Option ℕ → Server doubles
  process_connection_response_packet sodium server from token_sequence token_data encryption_index =
      elim (decrypt_challenge_token sodium token_data token_sequence server.challenge_key) [
        | none ↦ server
        | some decrypted ↦ elim (read_challenge_token decrypted) [
          | ok token ↦ consider_response sodium server from token encryption_index
          | _ ↦ server
        ]
      ]
