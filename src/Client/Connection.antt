-- ===== src/Client/Connection.antt =====
-- c/netcode.c: how a client comes to life, connects, sends, disconnects, and what it does with the
-- application's packets. A function that frees memory gives the list of what it frees as well.
use netcode_io.Base.{
  ℕ, zero, suc, ◌+◌, ◌%◌, ◌^◌, List, [], ◌∷◌, ◌++◌, replicate, Bool, true, false, not, ◌&&◌, ◌||◌,
  if◌then◌else◌, ◌==◌, get_or, Option, none, some,
}
use netcode_io.Base.Int.{ℤ, pos, negsuc}
use netcode_io.Wire.{ok}
use netcode_io.Address.{unset}
use netcode_io.Sodium.{Sodium, key_bytes}
use netcode_io.Token.{version_info_bytes, connect_token_private_bytes, challenge_token_bytes}
use netcode_io.Token.Public.{ConnectToken, read_connect_token}
use netcode_io.Packet.{Packet, payload, disconnect}
use netcode_io.Packet.Write.{write_packet}
use netcode_io.Queue.{PacketQueue, init, push, pop}
use netcode_io.Queue.Drain.{drain_and_clear}
use netcode_io.Time.{Doubles}
use netcode_io.Client.{
  ClientState, disconnected, invalid_connect_token, sending_connection_request, connected,
  state_number, is_active, is_connected, Client, set_state, reset_before_next_connect,
}

-- A connect token of zeros.
abbrev pub zero_token : ConnectToken
zero_token = record {
  version = replicate version_info_bytes 0;
  protocol_id = 0;
  create_timestamp = 0;
  expire_timestamp = 0;
  sequence = 0;
  private_data = replicate connect_token_private_bytes 0;
  timeout_seconds = pos 0;
  server_addresses = [];
  client_to_server_key = replicate key_bytes 0;
  server_to_client_key = replicate key_bytes 0;
}

abbrev pub num_disconnect_packets : ℕ
num_disconnect_packets = 10

module _ (doubles : Doubles) where
  -- The struct that `netcode_client_create_internal` fills, once it has an address, a socket or a
  -- simulator, and memory.
  unfoldable pub client_create : doubles.Time → Client doubles
  client_create time = record {
    state = disconnected;
    time = time;
    connect_start_time = doubles.from_int (pos 0);
    last_packet_send_time = doubles.from_int (negsuc 999);
    last_packet_receive_time = doubles.from_int (negsuc 999);
    should_disconnect = false;
    should_disconnect_state = disconnected;
    sequence = 0;
    client_index = pos 0;
    max_clients = pos 0;
    server_address_index = 0;
    server_address = unset;
    connect_token = zero_token;
    read_packet_key = replicate key_bytes 0;
    write_packet_key = replicate key_bytes 0;
    replay_protection = netcode_io.Replay.reset;
    packet_receive_queue = init;
    challenge_token_sequence = 0;
    challenge_token_data = replicate challenge_token_bytes 0;
    loopback = false;
    reported = [];
    sent = [];
  }

  -- A write that fails gives NETCODE_ERROR, which is 0, as the number of bytes. The sequence number
  -- wraps at 64 bits.
  unfoldable pub send_packet_to_server : Sodium → Client doubles → Packet → Client doubles
  send_packet_to_server sodium client packet = record client {
    sequence = (client.sequence + 1) % 2 ^ 64;
    last_packet_send_time = client.time;
    sent =
        (
          client.server_address,
          elim (write_packet sodium packet client.sequence client.write_packet_key
              client.connect_token.protocol_id) [ none ↦ [] | some bytes ↦ bytes ],
        )
        ∷ client.sent;
  }

  -- The loop over the disconnect packets, with `n` to go.
  unfoldable pub send_disconnect_packets : Sodium → ℕ → Client doubles → Client doubles
  send_disconnect_packets sodium zero client = client
  send_disconnect_packets sodium (suc n) client =
      send_disconnect_packets sodium n (send_packet_to_server sodium client disconnect)

  -- What is set before `netcode_client_set_state` in `netcode_client_reset_connection_data`.
  abbrev pub without_connection : Client doubles → Client doubles
  without_connection client = record client {
    sequence = 0;
    loopback = false;
    client_index = pos 0;
    max_clients = pos 0;
    connect_start_time = doubles.from_int (pos 0);
    server_address_index = 0;
    server_address = unset;
    connect_token = zero_token;
    read_packet_key = replicate key_bytes 0;
    write_packet_key = replicate key_bytes 0;
  }

  unfoldable pub reset_connection_data : Client doubles → ClientState → Client doubles × List ℕ
  reset_connection_data client client_state =
      let client' =
        reset_before_next_connect doubles
          (set_state doubles (without_connection client) client_state) in
      let (queue, freed) = drain_and_clear client'.packet_receive_queue in
      (record client' { packet_receive_queue = queue }, freed)

  unfoldable pub disconnect_internal :
      Sodium → Client doubles → ClientState → Bool → Client doubles × List ℕ
  disconnect_internal sodium client destination_state send =
      if not (is_active client.state) || state_number client.state == state_number destination_state
      then (client, [])
      else reset_connection_data
          (if not client.loopback && send && is_active client.state
            then send_disconnect_packets sodium num_disconnect_packets client
            else client)
          destination_state

  unfoldable pub client_disconnect : Sodium → Client doubles → Client doubles × List ℕ
  client_disconnect sodium client = disconnect_internal sodium client disconnected true

  -- Behind the reading of the token, on the disconnected client.
  unfoldable pub connect_with : Client doubles → ConnectToken → Client doubles
  connect_with client token =
      set_state doubles
        (reset_before_next_connect doubles (record client {
          connect_token = token;
          server_address_index = 0;
          server_address = get_or token.server_addresses 0 unset;
          read_packet_key = token.server_to_client_key;
          write_packet_key = token.client_to_server_key;
        }))
        sending_connection_request

  -- A failed read leaves `left` in the client's token: the fields it came to, over the old ones.
  unfoldable pub client_connect :
      Sodium → Client doubles → List ℕ → ConnectToken → Client doubles × List ℕ
  client_connect sodium client connect_token left =
      let (client', freed) = client_disconnect sodium client in
      (
        elim (read_connect_token connect_token) [
          | ok token ↦ connect_with client' token
          | _ ↦ set_state doubles (record client' { connect_token = left }) invalid_connect_token
        ],
        freed,
      )

  -- The client, and what the loopback callback is given: client index, packet and sequence number.
  unfoldable pub client_send_packet :
      Sodium → Client doubles → List ℕ → Client doubles × Option (ℤ × List ℕ × ℕ)
  client_send_packet sodium client packet_data =
      if not (is_connected client.state)
      then (client, none)
      else if not client.loopback
      then (send_packet_to_server sodium client (payload packet_data), none)
      else (
        record client { sequence = (client.sequence + 1) % 2 ^ 64 },
        some (client.client_index, packet_data, client.sequence),
      )

  -- The packet's memory with its sequence number; `none` is the null pointer.
  unfoldable pub client_receive_packet : Client doubles → Client doubles × Option (ℕ × ℕ)
  client_receive_packet client =
      let (queue, packet) = pop client.packet_receive_queue in
      (record client { packet_receive_queue = queue }, packet)

  unfoldable pub client_connect_loopback : Client doubles → ℤ → ℤ → Client doubles
  client_connect_loopback client client_index max_clients = record client {
    state = connected;
    client_index = client_index;
    max_clients = max_clients;
    loopback = true;
  }

  unfoldable pub client_disconnect_loopback : Client doubles → Client doubles × List ℕ
  client_disconnect_loopback client = reset_connection_data client disconnected

  -- `none` is an allocation that fails.
  unfoldable pub client_process_loopback_packet :
      Client doubles → Option ℕ → ℕ → Client doubles × List ℕ
  client_process_loopback_packet client none packet_sequence = (client, [])
  client_process_loopback_packet client (some data_at) packet_sequence =
      let (queue, freed, taken) = push client.packet_receive_queue data_at packet_sequence in
      (record client { packet_receive_queue = queue }, freed)

  -- What is freed beside the client itself.
  unfoldable pub client_destroy : Sodium → Client doubles → Client doubles × List ℕ
  client_destroy sodium client =
      let (client', freed) =
        if not client.loopback
        then client_disconnect sodium client
        else client_disconnect_loopback client in
      let (queue, more) = netcode_io.Queue.clear client'.packet_receive_queue in
      (record client' { packet_receive_queue = queue }, freed ++ more)
