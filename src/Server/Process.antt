-- ===== src/Server/Process.antt =====
-- c/netcode.c: what the server does with a packet, and netcode_server_update.
use netcode_io.Base.{
  ℕ, zero, suc, ◌+◌, bit_and, List, [], ◌∷◌, ◌++◌, length, Bool, true, false, not, ◌&&◌,
  if◌then◌else◌, leb, ◌==◌, get_or, Option, none, some,
}
use netcode_io.Base.Int.{pos, is_positive}
use netcode_io.Base.Search.{search}
use netcode_io.Wire.{ok}
use netcode_io.Address.{Address}
use netcode_io.Sodium.{Sodium}
use netcode_io.Packet.{Packet, request, response, keep_alive, payload, disconnect}
use netcode_io.Packet.Read.{ReadContext, read_packet}
use netcode_io.Replay.{ReplayProtection}
use netcode_io.Queue.{push}
use netcode_io.Time.{Doubles}
use netcode_io.Encryption.{EncryptionManager, find_encryption_mapping, get_receive_key}
use netcode_io.Client.Update.{Datagram, allocates}
use netcode_io.Server.{Server, client_at, put_client, find_client_index_by_address}
use netcode_io.Server.Connection.{send_client_packet, disconnect_client_internal, is_remote}
use netcode_io.Server.Handshake.{
  process_connection_request_packet, process_connection_response_packet,
}

-- `allowed_packets` by packet type: requests, responses, keep-alives, payloads and disconnects.
abbrev pub server_allowed_packets : List Bool
server_allowed_packets = true ∷ false ∷ false ∷ true ∷ true ∷ true ∷ true ∷ []

module _ (doubles : Doubles) where
  -- A packet from a client confirms it.
  abbrev pub heard_client : Server doubles → ℕ → Server doubles
  heard_client server i = put_client doubles server i (record (client_at doubles server i) {
    last_packet_receive_time = server.time;
    confirmed = true;
  })

  -- `data_at` is the packet's memory, and the list holds what is freed.
  unfoldable pub server_process_packet :
      Sodium
      → Server doubles
      → Address
      → Packet
      → ℕ
      → ℕ
      → Option ℕ
      → Option ℕ
      → Server doubles × List ℕ
  server_process_packet sodium server from (request v p e s token_data) data_at sequence
        encryption_index client_index =
      (
        if bit_and server.flags 1 == 0
            then process_connection_request_packet doubles sodium server from token_data
            else server,
        data_at ∷ [],
      )
  server_process_packet sodium server from (response token_sequence token_data) data_at sequence
        encryption_index client_index =
      (
        if bit_and server.flags 2 == 0
            then process_connection_response_packet doubles sodium server from token_sequence
                token_data encryption_index
            else server,
        data_at ∷ [],
      )
  server_process_packet sodium server from (keep_alive c m) data_at sequence encryption_index
        (some i) =
      (heard_client server i, data_at ∷ [])
  server_process_packet sodium server from (payload bytes) data_at sequence encryption_index
        (some i) =
      let server' = heard_client server i in
      let client = client_at doubles server' i in
      let (queue, freed, taken) = push client.packet_queue data_at sequence in
      (put_client doubles server' i (record client { packet_queue = queue }), freed)
  server_process_packet sodium server from disconnect data_at sequence encryption_index (some i) =
      let (server', freed) = disconnect_client_internal doubles sodium server i false in
      (server', freed ++ (data_at ∷ []))
  server_process_packet sodium server from _ data_at sequence encryption_index client_index =
      (server, data_at ∷ [])

  -- The client's index, with its encryption index, or else that of the sender's address.
  abbrev pub lookup_sender :
      Server doubles → Address → Option ℕ → EncryptionManager doubles × Option ℕ
  lookup_sender server from none =
      find_encryption_mapping doubles server.encryption_manager from server.time
  lookup_sender server from (some i) =
      (server.encryption_manager, (client_at doubles server i).encryption_index)

  -- The client's replay protection is given by its address, so it comes back changed.
  abbrev pub replay_of : Server doubles → Option ℕ → Option ReplayProtection
  replay_of server none = none
  replay_of server (some i) = some (client_at doubles server i).replay_protection

  abbrev pub store_replay : Server doubles → Option ℕ → Option ReplayProtection → Server doubles
  store_replay server (some i) (some replay) =
      put_client doubles server i
        (record (client_at doubles server i) { replay_protection = replay })
  store_replay server _ _ = server

  abbrev pub server_context : Server doubles → ℕ → Option (List ℕ) → Option ℕ → ReadContext
  server_context server current_timestamp read_packet_key data_at = record {
    read_packet_key = read_packet_key;
    protocol_id = server.protocol_id;
    current_timestamp = current_timestamp;
    private_key = some server.private_key;
    allowed_packets = server_allowed_packets;
    can_allocate = allocates data_at;
  }

  -- From the call of netcode_read_packet on.
  unfoldable pub read_and_process :
      Sodium
      → Server doubles
      → ℕ
      → Datagram
      → Option ℕ
      → Option ℕ
      → Option (List ℕ)
      → Server doubles × List ℕ
  read_and_process sodium server current_timestamp datagram encryption_index client_index
        read_packet_key =
      let (replay, result) =
        read_packet sodium
          (server_context server current_timestamp read_packet_key datagram.data_at)
          (replay_of server client_index) datagram.bytes in
      let server' = store_replay server client_index replay in
      elim datagram.data_at [
        | none ↦ (server', [])
        | some data_at ↦ elim result [
          | ok (packet, sequence) ↦
              server_process_packet sodium server' datagram.from packet data_at sequence
                encryption_index client_index
          | _ ↦ (server', [])
        ]
      ]

  abbrev pub no_key_for : Option (List ℕ) → List ℕ → Bool
  no_key_for none packet_data = not (get_or packet_data 0 0 == 0)
  no_key_for (some key) packet_data = false

  unfoldable pub read_and_process_packet :
      Sodium → Server doubles → ℕ → Datagram → Server doubles × List ℕ
  read_and_process_packet sodium server current_timestamp datagram =
      if not server.running
      then (server, [])
      else if leb (length datagram.bytes) 1
      then (server, [])
      else (let client_index = find_client_index_by_address doubles server datagram.from in
          let (manager, encryption_index) = lookup_sender server datagram.from client_index in
          let server' = record server { encryption_manager = manager } in
          let read_packet_key = get_receive_key doubles manager encryption_index in
          if no_key_for read_packet_key datagram.bytes
          then (server', [])
          else read_and_process sodium server' current_timestamp datagram encryption_index
              client_index read_packet_key)

  unfoldable pub server_receive_packets :
      Sodium → Server doubles → ℕ → List Datagram → Server doubles × List ℕ
  server_receive_packets sodium server current_timestamp [] = (server, [])
  server_receive_packets sodium server current_timestamp (datagram ∷ datagrams) =
      let (server', freed) = read_and_process_packet sodium server current_timestamp datagram in
      let (server'', more) = server_receive_packets sodium server' current_timestamp datagrams in
      (server'', freed ++ more)

  abbrev pub send_due : Server doubles → ℕ → Bool
  send_due server i =
      is_remote doubles server i
      && doubles.le
          (doubles.sum (client_at doubles server i).last_packet_send_time doubles.packet_interval)
          server.time

  -- The loop over the clients from index `i` on, with `n` to go.
  unfoldable pub send_keep_alives : Sodium → ℕ → ℕ → Server doubles → Server doubles
  send_keep_alives sodium zero i server = server
  send_keep_alives sodium (suc n) i server = send_keep_alives sodium n (i + 1) (
      if send_due server i
      then send_client_packet doubles sodium server (keep_alive (pos i) (pos server.max_clients)) i
      else server)

  unfoldable pub server_send_packets : Sodium → Server doubles → Server doubles
  server_send_packets sodium server =
      if not server.running then server else send_keep_alives sodium server.max_clients 0 server

  abbrev pub has_timed_out : Server doubles → ℕ → Bool
  has_timed_out server i =
      (client_at doubles server i).connected
      && is_positive (client_at doubles server i).timeout
      && not (client_at doubles server i).loopback
      && doubles.le
          (doubles.sum (client_at doubles server i).last_packet_receive_time
            (doubles.from_int (client_at doubles server i).timeout))
          server.time

  -- The loop ends with the first client that it disconnects.
  unfoldable pub check_for_timeouts : Sodium → Server doubles → Server doubles × List ℕ
  check_for_timeouts sodium server =
      if not server.running
      then (server, [])
      else elim (search (has_timed_out server) server.max_clients 0) [
        | none ↦ (server, [])
        | some i ↦ disconnect_client_internal doubles sodium server i false
      ]

  unfoldable pub server_update :
      Sodium → Server doubles → doubles.Time → ℕ → List Datagram → Server doubles × List ℕ
  server_update sodium server time current_timestamp datagrams =
      let (received, freed) =
        server_receive_packets sodium (record server { time = time }) current_timestamp datagrams in
      let (checked, more) = check_for_timeouts sodium (server_send_packets sodium received) in
      (checked, freed ++ more)
