-- ===== src/Tests/Servers.antt =====
-- A server with one slot, a client in it in loopback, and one that connects over the network.
use netcode_io.Base.{
  ℕ, ◌<◌, ◌≤◌, List, [], ◌∷◌, ◌++◌, replicate, get_or-replicate, true, false, Option, none, some,
  ◌≡◌, ◌⊎◌, refl, arith, ap, ◌∙◌,
}
use netcode_io.Base.Int.{pos}
use netcode_io.Wire.{ok, error, fault, write_uint64, read_uint8, read_uint64, read_bytes}
use netcode_io.Sodium.{decrypt_aead}
use netcode_io.Packet.Sequence.{read_sequence}
use netcode_io.Packet.Read.{
  ReadResult, read_packet, read_encrypted_packet, read_replay_tested, read_encrypted_data,
  read_packet_data, read_token_packet,
}
use netcode_io.Client.Update.{Datagram}
use netcode_io.Address.{address_equal}
use netcode_io.Base.Search.{search}
use netcode_io.Packet.{response}
use netcode_io.Replay.{ReplayProtection}
use netcode_io.Token.Challenge.{
  decrypt_challenge_token, read_challenge_token, write_challenge_token, open-seal_challenge,
}
use netcode_io.Encryption.{
  add_encryption_mapping, find_encryption_mapping, get_receive_key, get_send_key, get_timeout,
  set_expire_time, touch, entry_expired,
}
use netcode_io.Server.{
  Server, server_create, client_at, free_client, find_free_client_index,
  find_client_index_by_address, find_client_index_by_id,
}
use netcode_io.Server.Connection.{server_start, init_queues, send_client_packet}
use netcode_io.Server.Handshake.{
  process_connection_request_packet, process_connection_response_packet, consider_response,
  answer_response, connect_client,
}
use netcode_io.Server.Loopback.{connect_loopback_client}
use netcode_io.Server.Process.{
  server_process_packet, server_context, read_and_process, read_and_process_packet,
}
use netcode_io.Server.Keeps.{HasTable}
use netcode_io.Server.Keeps.Request.{IsAnswer, request-IsAnswer}
use netcode_io.Server.Step.{Reach, created, later, start, connect_loopback}
use netcode_io.Server.Reachable.{IsServer, Reach-IsServer}
use netcode_io.Server.Admission.Datagram.{IsArrival, read_and_process_packet-IsArrival}
use netcode_io.Server.Room.{find_free_client_index_lem}
use netcode_io.Tests.Toy.{toy, toy_doubles, toy-IsAead, zero_mac}
use netcode_io.Tests.Tokens.{
  local_server, challenge_token, sealed_challenge, challenge-sealed,
  challenge_token-IsChallengeToken,
}
use netcode_io.Tests.Packets.{key}
use netcode_io.Tests.Clients.{stranger}

abbrev pub idle_server : Server toy_doubles
idle_server = server_create toy_doubles local_server 42 (replicate 32 7) 1000

abbrev pub open_server : Server toy_doubles
open_server = (server_start toy_doubles toy idle_server 1 (replicate 32 7)).0

idle-Reach : Reach toy_doubles toy idle_server
idle-Reach = created local_server 42 (replicate 32 7) 1000

open-Reach : Reach toy_doubles toy open_server
unfolding server_create
open-Reach = later idle-Reach (
    start 1 (replicate 32 7) (omega arith) (omega arith)
      (λ i. ap (λ c. c.loopback) (get_or-replicate 256 i (free_client toy_doubles))))

abbrev pub busy_server : Server toy_doubles
busy_server = connect_loopback_client toy_doubles open_server 0 9 none

Reach-IsServer_example : IsServer toy_doubles busy_server
unfolding server_create server_start netcode_io.Server.Connection.init_queues
Reach-IsServer_example =
    Reach-IsServer toy_doubles toy busy_server
      (later open-Reach (connect_loopback 0 9 none (omega arith) refl refl))

pub open-HasTable : HasTable toy_doubles open_server
open-HasTable = (Reach-IsServer toy_doubles toy open_server open-Reach).table

find_free_client_index_lem_example :
    (open_server.num_connected_clients ≤ open_server.max_clients)
    × (((open_server.num_connected_clients ≡ open_server.max_clients)
          × (find_free_client_index toy_doubles open_server ≡ none))
        ⊎ ((i : ℕ) × (find_free_client_index toy_doubles open_server ≡ some i)
            × (i < open_server.max_clients)
            × ((client_at toy_doubles open_server i).connected ≡ false)
            × (open_server.num_connected_clients < open_server.max_clients)))
find_free_client_index_lem_example =
    find_free_client_index_lem toy_doubles open_server open-HasTable

request-IsAnswer_example :
    IsAnswer toy_doubles stranger open_server
      (process_connection_request_packet toy_doubles toy open_server stranger (replicate 1024 0))
request-IsAnswer_example = request-IsAnswer toy_doubles stranger toy open_server (replicate 1024 0)

-- The server has a mapping for the stranger's address.
abbrev pub meeting_server : Server toy_doubles
meeting_server = record open_server {
  encryption_manager =
      (add_encryption_mapping toy_doubles open_server.encryption_manager stranger key key 1000 1050
        (pos 5)).0;
}

-- The same server once it has looked up the stranger's mapping.
abbrev pub found_server : Server toy_doubles
found_server = record meeting_server {
  encryption_manager =
      (find_encryption_mapping toy_doubles meeting_server.encryption_manager stranger
        meeting_server.time).0;
}

-- The response to a challenge under sequence number 5.
abbrev pub response_datagram : Datagram
response_datagram = record {
  from = stranger;
  bytes = 19 ∷ 5 ∷ (write_uint64 8 ++ sealed_challenge) ++ zero_mac;
  data_at = some 77;
}

response-read :
    read_packet toy
      (server_context toy_doubles meeting_server 100 (some key) (some 77))
      none
      response_datagram.bytes
    ≡ (none, ok (response 8 sealed_challenge, 5))
unfolding server_create server_start init_queues read_packet read_encrypted_packet read_sequence
    read_replay_tested read_encrypted_data read_packet_data read_token_packet read_uint64 read_bytes
    read_uint8 decrypt_aead write_uint64 write_challenge_token
response-read = refl

abbrev pub answered : Server toy_doubles
answered = (read_and_process_packet toy_doubles toy meeting_server 100 response_datagram).0

meeting-free : (client_at toy_doubles meeting_server 0).connected ≡ false
unfolding server_create server_start init_queues
meeting-free = refl

considered-connected :
    (client_at toy_doubles
      (consider_response toy_doubles toy found_server stranger challenge_token (some 0))
      0).connected
    ≡ true
unfolding server_create server_start init_queues consider_response answer_response connect_client
    send_client_packet find_client_index_by_address find_client_index_by_id find_free_client_index
    search find_encryption_mapping get_send_key get_timeout set_expire_time touch
    add_encryption_mapping address_equal entry_expired netcode_io.Encryption.reset
considered-connected = refl

answered-considered :
    (buffer : List ℕ)
    → decrypt_challenge_token toy sealed_challenge 8 meeting_server.challenge_key ≡ some buffer
    → read_challenge_token buffer ≡ ok challenge_token
    → process_connection_response_packet toy_doubles toy found_server stranger 8 sealed_challenge
        (some 0)
      ≡ consider_response toy_doubles toy found_server stranger challenge_token (some 0)
unfolding process_connection_response_packet
answered-considered buffer opened was_read =
    rw (opened, was_read, process_connection_response_packet) refl

answered-processed :
    answered
    ≡ (server_process_packet toy_doubles toy found_server stranger
        (response 8 sealed_challenge)
        77
        5
        (some 0)
        none).0
unfolding server_create server_start init_queues read_and_process_packet read_and_process
    find_client_index_by_address find_encryption_mapping get_receive_key search
    add_encryption_mapping address_equal entry_expired netcode_io.Encryption.reset write_uint64
    write_challenge_token
answered-processed =
    ap
      (λ (r : Option ReplayProtection × ReadResult).
        (elim r.1 as (λ k. Server toy_doubles × List ℕ) [
          | ok (packet, sequence) ↦
              server_process_packet toy_doubles toy found_server stranger packet 77 sequence
                (some 0) none
          | error ↦ (found_server, [])
          | fault ↦ (found_server, [])
        ]).0)
      response-read

answered-connected :
    (buffer : List ℕ)
    → decrypt_challenge_token toy sealed_challenge 8 meeting_server.challenge_key ≡ some buffer
    → read_challenge_token buffer ≡ ok challenge_token
    → (client_at toy_doubles answered 0).connected ≡ true
unfolding server_process_packet server_create server_start init_queues
answered-connected buffer opened was_read =
    ap (λ s. (client_at toy_doubles s 0).connected)
      (answered-processed ∙ answered-considered buffer opened was_read)
    ∙ considered-connected

sealed-opens :
    (buffer : List ℕ) × (decrypt_challenge_token toy sealed_challenge 8 meeting_server.challenge_key
      ≡ some buffer)
    × (read_challenge_token buffer ≡ ok challenge_token)
unfolding server_create server_start init_queues
sealed-opens =
    let (buffer, opened, was_read, _) =
      open-seal_challenge toy challenge_token key sealed_challenge 8 toy-IsAead
        challenge_token-IsChallengeToken challenge-sealed in
    (buffer, opened, was_read)

read_and_process_packet-IsArrival_example :
    IsArrival toy_doubles toy meeting_server 100 response_datagram
      (client_at toy_doubles answered 0).client_id
      (client_at toy_doubles answered 0).address
read_and_process_packet-IsArrival_example =
    read_and_process_packet-IsArrival toy_doubles toy meeting_server 100 response_datagram 0
      open-HasTable meeting-free (answered-connected sealed-opens.0 sealed-opens.1 sealed-opens.2)
