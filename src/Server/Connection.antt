-- ===== src/Server/Connection.antt =====
-- c/netcode.c: how the server starts and stops, sends packets, and disconnects clients. A function
-- that frees memory gives the list of what it frees as well.
use netcode_io.Base.{
  ℕ, zero, suc, ◌+◌, ◌-◌, ◌%◌, ◌^◌, List, [], ◌∷◌, ◌++◌, replicate, Bool, true, false, not, ◌&&◌,
  if◌then◌else◌, Option, none, some,
}
use netcode_io.Base.Int.{pos}
use netcode_io.Address.{Address, unset}
use netcode_io.Sodium.{Sodium, key_bytes}
use netcode_io.Token.{user_data_bytes}
use netcode_io.Packet.{Packet, disconnect}
use netcode_io.Packet.Write.{write_packet}
use netcode_io.Queue.{PacketQueue, init}
use netcode_io.Queue.Drain.{drain_and_clear}
use netcode_io.Time.{Doubles}
use netcode_io.Encryption.{EncryptionManager, touch, mapping, remove_encryption_mapping}
use netcode_io.Client.Connection.{num_disconnect_packets}
use netcode_io.Server.{ServerClient, Server, client_at, put_client}

-- A write that fails gives NETCODE_ERROR, which is 0, as the number of bytes.
abbrev pub written : Option (List ℕ) → List ℕ
written none = []
written (some bytes) = bytes

module _ (doubles : Doubles) where
  unfoldable pub send_global_packet :
      Sodium → Server doubles → Packet → Address → List ℕ → Server doubles
  send_global_packet sodium server packet to packet_key = record server {
    global_sequence = (server.global_sequence + 1) % 2 ^ 64;
    sent =
        (
          to,
          written (write_packet sodium packet server.global_sequence packet_key server.protocol_id),
        )
        ∷ server.sent;
  }

  -- Once the mapping of the encryption index is touched.
  abbrev pub sent_to_client :
      Sodium → Server doubles → Packet → ℕ → ℕ → EncryptionManager doubles → Server doubles
  sent_to_client sodium server packet client_index index manager =
      let client = client_at doubles server client_index in
      record (put_client doubles server client_index (record client {
        sequence = (client.sequence + 1) % 2 ^ 64;
        last_packet_send_time = server.time;
      })) {
        encryption_manager = manager;
        sent =
            (
              client.address,
              written (
                  write_packet sodium packet client.sequence
                    (mapping doubles manager index).send_key server.protocol_id),
            )
            ∷ server.sent;
      }

  -- For a connected client that is not in loopback, which has an encryption index.
  unfoldable pub send_client_packet : Sodium → Server doubles → Packet → ℕ → Server doubles
  send_client_packet sodium server packet client_index =
      let client = client_at doubles server client_index in
      elim client.encryption_index [
        | none ↦ server
        | some index ↦
            let (manager, touched) =
              touch doubles server.encryption_manager index client.address server.time in
            if not touched
            then server
            else sent_to_client sodium server packet client_index index manager
      ]

  -- The loop over the disconnect packets, with `n` to go.
  unfoldable pub server_send_disconnects : Sodium → ℕ → Server doubles → ℕ → Server doubles
  server_send_disconnects sodium zero server client_index = server
  server_send_disconnects sodium (suc n) server client_index =
      server_send_disconnects sodium n (send_client_packet sodium server disconnect client_index)
        client_index

  abbrev pub report : Server doubles → ℕ → Bool → Server doubles
  report server client_index connected = record server {
    reported = (client_index, connected) ∷ server.reported;
  }

  -- The fields that both functions for disconnecting write.
  abbrev pub emptied : ServerClient doubles → PacketQueue → ServerClient doubles
  emptied client queue = record client {
    connected = false;
    confirmed = false;
    encryption_index = none;
    client_id = 0;
    sequence = 0;
    last_packet_send_time = doubles.from_int (pos 0);
    last_packet_receive_time = doubles.from_int (pos 0);
    user_data = replicate user_data_bytes 0;
    packet_queue = queue;
    address = unset;
  }

  -- The number of connected clients is not 0 here, as the assertion behind the subtraction says.
  unfoldable pub disconnect_client_internal :
      Sodium → Server doubles → ℕ → Bool → Server doubles × List ℕ
  disconnect_client_internal sodium server client_index send_disconnect_packets =
      let reported = report server client_index false in
      let server' =
        if send_disconnect_packets
        then server_send_disconnects sodium num_disconnect_packets reported client_index
        else reported in
      let client = client_at doubles server' client_index in
      let (queue, freed) = drain_and_clear client.packet_queue in
      let (manager, removed) =
        remove_encryption_mapping doubles server'.encryption_manager client.address server'.time in
      (
        record (put_client doubles server' client_index
            (record (emptied client queue) { replay_protection = netcode_io.Replay.reset })) {
              encryption_manager = manager;
              num_connected_clients = server'.num_connected_clients - 1;
            },
        freed,
      )

  unfoldable pub disconnect_client : Sodium → Server doubles → ℕ → Server doubles × List ℕ
  disconnect_client sodium server client_index =
      if not server.running
      then (server, [])
      else if not (client_at doubles server client_index).connected
      then (server, [])
      else if (client_at doubles server client_index).loopback
      then (server, [])
      else disconnect_client_internal sodium server client_index true

  abbrev pub is_remote : Server doubles → ℕ → Bool
  is_remote server i =
      (client_at doubles server i).connected && not (client_at doubles server i).loopback

  -- The loop over the clients from index `i` on, with `n` to go.
  unfoldable pub disconnect_from : Sodium → ℕ → ℕ → Server doubles → Server doubles × List ℕ
  disconnect_from sodium zero i server = (server, [])
  disconnect_from sodium (suc n) i server =
      let (server', freed) =
        if is_remote server i
        then disconnect_client_internal sodium server i true
        else (server, []) in
      let (server'', more) = disconnect_from sodium n (i + 1) server' in (server'', freed ++ more)

  unfoldable pub disconnect_all_clients : Sodium → Server doubles → Server doubles × List ℕ
  disconnect_all_clients sodium server =
      if not server.running
      then (server, [])
      else disconnect_from sodium server.max_clients 0 server

  unfoldable pub server_stop : Sodium → Server doubles → Server doubles × List ℕ
  server_stop sodium server =
      if not server.running
      then (server, [])
      else (let (server', freed) = disconnect_all_clients sodium server in
          (
            record server' {
              running = false;
              max_clients = 0;
              num_connected_clients = 0;
              global_sequence = 0;
              challenge_sequence = 0;
              challenge_key = replicate key_bytes 0;
              connect_token_entries = netcode_io.TokenEntries.reset doubles;
              encryption_manager = netcode_io.Encryption.reset doubles;
            },
            freed,
          ))

  -- The queues of the first `n` clients from index `i` on are initialised.
  unfoldable pub init_queues : ℕ → ℕ → Server doubles → Server doubles
  init_queues zero i server = server
  init_queues (suc n) i server =
      init_queues n (i + 1)
        (put_client doubles server i (record (client_at doubles server i) { packet_queue = init }))

  -- `key` is what `netcode_generate_key` gives.
  unfoldable pub server_start : Sodium → Server doubles → ℕ → List ℕ → Server doubles × List ℕ
  server_start sodium server max_clients key =
      let (server', freed) = if server.running then server_stop sodium server else (server, []) in
      (
        init_queues max_clients 0 (record server' {
          running = true;
          max_clients = max_clients;
          num_connected_clients = 0;
          challenge_sequence = 0;
          challenge_key = key;
        }),
        freed,
      )
