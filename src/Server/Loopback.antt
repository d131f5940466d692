-- ===== src/Server/Loopback.antt =====
-- c/netcode.c: the application's packets, and the clients that run in the server's own process.
use netcode_io.Base.{
  ℕ, ◌+◌, ◌-◌, ◌%◌, ◌^◌, List, [], replicate, take, Bool, true, false, not, if◌then◌else◌, leb,
  Option, none, some,
}
use netcode_io.Base.Int.{ℤ, pos, negsuc}
use netcode_io.Address.{unset}
use netcode_io.Sodium.{Sodium}
use netcode_io.Token.{user_data_bytes}
use netcode_io.Packet.{keep_alive, payload}
use netcode_io.Queue.{push, pop}
use netcode_io.Queue.Drain.{drain_and_clear}
use netcode_io.Time.{Doubles}
use netcode_io.Server.{Server, client_at, put_client}
use netcode_io.Server.Connection.{send_client_packet, report, emptied, server_stop}

module _ (doubles : Doubles) where
  -- The keep-alive packet in front of the payload of a client that has not confirmed yet, and the
  -- payload packet.
  abbrev pub send_payload : Sodium → Server doubles → ℕ → List ℕ → Server doubles
  send_payload sodium server i packet_data =
      send_client_packet doubles sodium
        (if not (client_at doubles server i).confirmed
          then send_client_packet doubles sodium server
              (keep_alive (pos i) (pos server.max_clients)) i
          else server)
        (payload packet_data) i

  -- The server, and what the loopback callback is given: client index, packet and sequence number.
  unfoldable pub server_send_packet :
      Sodium → Server doubles → ℕ → List ℕ → Server doubles × Option (ℕ × List ℕ × ℕ)
  server_send_packet sodium server i packet_data =
      let client = client_at doubles server i in
      if not server.running
      then (server, none)
      else if not client.connected
      then (server, none)
      else if not client.loopback
      then (send_payload sodium server i packet_data, none)
      else (
        put_client doubles server i (record client {
          sequence = (client.sequence + 1) % 2 ^ 64;
          last_packet_send_time = server.time;
        }),
        some (i, packet_data, client.sequence),
      )

  -- The packet's memory with its sequence number; `none` is the null pointer.
  unfoldable pub server_receive_packet : Server doubles → ℕ → Server doubles × Option (ℕ × ℕ)
  server_receive_packet server i =
      let client = client_at doubles server i in
      let (queue, packet) = pop client.packet_queue in
      if not server.running
      then (server, none)
      else if not client.connected
      then (server, none)
      else (put_client doubles server i (record client { packet_queue = queue }), packet)

  -- Of an index that a caller gives as an `int`.
  abbrev pub client_index_of : Server doubles → ℤ → Option ℕ
  client_index_of server (negsuc n) = none
  client_index_of server (pos i) = if leb server.max_clients i then none else some i

  unfoldable pub client_connected : Server doubles → ℤ → Bool
  client_connected server client_index =
      if not server.running then false else elim (client_index_of server client_index) [
        | none ↦ false
        | some i ↦ (client_at doubles server i).connected
      ]

  unfoldable pub server_client_id : Server doubles → ℤ → ℕ
  server_client_id server client_index =
      if not server.running then 0 else elim (client_index_of server client_index) [
        | none ↦ 0
        | some i ↦ (client_at doubles server i).client_id
      ]

  unfoldable pub next_packet_sequence : Server doubles → ℕ → ℕ
  next_packet_sequence server i =
      if not (client_at doubles server i).connected
      then 0
      else (client_at doubles server i).sequence

  -- `none` is a null pointer in the place of the user data.
  abbrev pub loopback_user_data : Option (List ℕ) → List ℕ
  loopback_user_data none = replicate user_data_bytes 0
  loopback_user_data (some user_data) = take user_data_bytes user_data

  unfoldable pub connect_loopback_client : Server doubles → ℕ → ℕ → Option (List ℕ) → Server doubles
  connect_loopback_client server i client_id user_data =
      report doubles
        (record (put_client doubles server i (record (client_at doubles server i) {
          loopback = true;
          connected = true;
          confirmed = true;
          encryption_index = none;
          client_id = client_id;
          sequence = 0;
          address = unset;
          last_packet_send_time = server.time;
          last_packet_receive_time = server.time;
          user_data = loopback_user_data user_data;
        })) { num_connected_clients = server.num_connected_clients + 1 })
        i true

  -- The number of connected clients is not 0 here, as the assertion behind the subtraction says.
  unfoldable pub disconnect_loopback_client : Server doubles → ℕ → Server doubles × List ℕ
  disconnect_loopback_client server i =
      let server' = report doubles server i false in
      let client = client_at doubles server' i in
      let (queue, freed) = drain_and_clear client.packet_queue in
      (
        record (put_client doubles server' i
            (record (emptied doubles client queue) { loopback = false })) {
              num_connected_clients = server'.num_connected_clients - 1;
            },
        freed,
      )

  -- `none` is an allocation that fails.
  unfoldable pub server_process_loopback_packet :
      Server doubles → ℕ → Option ℕ → ℕ → Server doubles × List ℕ
  server_process_loopback_packet server i none packet_sequence = (server, [])
  server_process_loopback_packet server i (some data_at) packet_sequence =
      let client = client_at doubles server i in
      let (queue, freed, taken) = push client.packet_queue data_at packet_sequence in
      (
        put_client doubles server i
            (record client { last_packet_receive_time = server.time; packet_queue = queue }),
        freed,
      )

  -- What is freed beside the server itself.
  unfoldable pub server_destroy : Sodium → Server doubles → Server doubles × List ℕ
  server_destroy sodium server = server_stop doubles sodium server
