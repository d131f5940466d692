-- ===== src/Tests/Handshakes.antt =====
-- A request to the open server of Tests/Servers, and the response to its challenge.
use netcode_io.Base.{
  ◌+◌, ◌∙◌, length, length-append, length-take_of_le, ℕ, List, ◌∷◌, ◌++◌, take, replicate, true,
  some, ◌≡◌, refl, ap, arith,
}
use netcode_io.Base.Search.{search}
use netcode_io.Wire.{ok}
use netcode_io.Address.{address_equal}
use netcode_io.Token.Private.{
  private_fields, write_connect_token_private, read_connect_token_private,
}
use netcode_io.Token.Private.Laws.{read-private_front, front_of_private, length-write_private}
use mathlib.Core.List.{append_assoc}
use netcode_io.Token.Challenge.{write_challenge_token, encrypt_challenge_token}
use netcode_io.Sodium.{encrypt_aead}
use netcode_io.Packet.{challenge}
use netcode_io.Packet.Write.{write_packet}
use netcode_io.Encryption.{add_encryption_mapping, entry_expired}
use netcode_io.TokenEntries.{find_or_add, scan, scan_entry}
use netcode_io.Server.{
  find_free_client_index, find_client_index_by_address, find_client_index_by_id, server_create,
}
use netcode_io.Server.Connection.{server_start, init_queues, written}
use netcode_io.Server.Handshake.{
  lists_address, process_connection_request_packet, process_connection_response_packet,
}
use netcode_io.Server.Admission.Handshake.{IsWelcome, IsConnected, request-response}
use netcode_io.Tests.Toy.{toy, toy_doubles, toy-IsAead, zero_mac}
use netcode_io.Tests.Clients.{stranger}
use netcode_io.Tests.Tokens.{
  private_token, private_token-IsTokenPrivate, challenge_token, challenge_token-IsChallengeToken,
}
use netcode_io.Tests.Servers.{open_server, open-HasTable}

abbrev pub asked : List ℕ
asked = take 1008 (write_connect_token_private private_token) ++ replicate 16 5

asked-long : length asked ≡ 1024
asked-long =
    length-append (take 1008 (write_connect_token_private private_token)) (replicate 16 5)
    ∙ ap (λ n. n + 16)
        (length-take_of_le 1008 (write_connect_token_private private_token)
          (omega (arith, length-write_private private_token private_token-IsTokenPrivate)))

asked-read : read_connect_token_private asked ≡ ok private_token
asked-read =
    let (zeros, front) = front_of_private private_token private_token-IsTokenPrivate in
    read-private_front private_token (zeros ++ replicate 16 5) asked private_token-IsTokenPrivate
      (ap (λ xs. xs ++ replicate 16 5) front
        ∙ append_assoc (private_fields private_token) zeros (replicate 16 5))
      asked-long

abbrev pub sealed_first : List ℕ
sealed_first = take 284 (write_challenge_token challenge_token) ++ zero_mac

asked-unused :
    (find_or_add toy_doubles open_server.connect_token_entries stranger
      (netcode_io.Server.Handshake.mac_of asked)
      open_server.time).1
    ≡ true
unfolding server_create server_start init_queues find_or_add scan scan_entry
    netcode_io.TokenEntries.reset write_connect_token_private private_fields
    netcode_io.Wire.write_uint64 netcode_io.Wire.write_uint32 netcode_io.Address.write_addresses
    netcode_io.Address.write_address netcode_io.Wire.write_uint8 netcode_io.Wire.write_uint16
asked-unused = refl

asked-mapped :
    (add_encryption_mapping toy_doubles open_server.encryption_manager stranger
      private_token.server_to_client_key private_token.client_to_server_key open_server.time 1005
      private_token.timeout_seconds).1
    ≡ true
unfolding server_create server_start init_queues add_encryption_mapping search entry_expired
    netcode_io.Encryption.reset
asked-mapped = refl

first-sealed :
    encrypt_challenge_token toy
      (write_challenge_token challenge_token)
      open_server.challenge_sequence
      open_server.challenge_key
    ≡ some sealed_first
unfolding server_create server_start init_queues encrypt_challenge_token encrypt_aead
first-sealed = refl

asked-IsWelcome : IsWelcome toy_doubles toy open_server stranger asked private_token sealed_first
unfolding server_create server_start init_queues lists_address find_client_index_by_address
    find_client_index_by_id search address_equal
asked-IsWelcome = record {
  was_read = asked-read;
  listed = refl;
  new_address = refl;
  new_id = refl;
  unused = asked-unused;
  some_room = refl;
  mapped = asked-mapped;
  sealed = first-sealed;
}

request-response_example :
    ((process_connection_request_packet toy_doubles toy open_server stranger asked).sent
      ≡ (
        stranger,
        written (
            write_packet toy
              (challenge open_server.challenge_sequence sealed_first)
              open_server.global_sequence
              private_token.server_to_client_key
              open_server.protocol_id),
      )
        ∷ open_server.sent)
    × (i : ℕ) × (find_free_client_index toy_doubles open_server ≡ some i)
    × IsConnected toy_doubles
        (process_connection_response_packet toy_doubles toy
          (process_connection_request_packet toy_doubles toy open_server stranger asked)
          stranger
          open_server.challenge_sequence
          sealed_first
          (some 0))
        i
        stranger
        private_token
        open_server.num_connected_clients
request-response_example =
    request-response toy_doubles toy open_server stranger asked private_token sealed_first 0
      toy-IsAead open-HasTable challenge_token-IsChallengeToken asked-IsWelcome
