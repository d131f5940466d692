-- ===== src/Client/Update.antt =====
-- c/netcode.c: netcode_client_update, with the packets that it receives and sends, the timeouts, and
-- the step to the next server.
use netcode_io.Base.{
  ℕ, ◌+◌, ◌-◌, ◌%◌, ◌^◌, List, [], ◌∷◌, ◌++◌, Bool, true, false, ◌&&◌, if◌then◌else◌, ltb, Option,
  none, some,
}
use netcode_io.Base.Int.{pos, is_positive}
use netcode_io.Wire.{ok}
use netcode_io.Address.{Address}
use netcode_io.Sodium.{Sodium}
use netcode_io.Token.{version_info}
use netcode_io.Packet.{Packet, request, response, keep_alive}
use netcode_io.Packet.Read.{ReadContext, read_packet}
use netcode_io.Replay.{ReplayProtection}
use netcode_io.Time.{Doubles}
use netcode_io.Client.{
  ClientState, connect_token_expired, connection_timed_out, connection_response_timed_out,
  connection_request_timed_out, sending_connection_request, sending_connection_response, connected,
  state_number, Client, connect_to_next_server, process_packet,
}
use netcode_io.Client.Connection.{send_packet_to_server, disconnect_internal}

-- A datagram that the socket or the simulator hands over: the sender, the bytes, and the memory that
-- a packet read from them gets; `none` is an allocation that fails.
pub record Datagram : Type 0 where
  pub from : Address
  pub bytes : List ℕ
  pub data_at : Option ℕ

abbrev pub allocates : Option ℕ → Bool
allocates none = false
allocates (some data_at) = true

-- `allowed_packets` by packet type: no requests and no responses.
abbrev pub client_allowed_packets : List Bool
client_allowed_packets = false ∷ true ∷ true ∷ false ∷ true ∷ true ∷ true ∷ []

module _ (doubles : Doubles) where
  abbrev pub client_context : Client doubles → ℕ → Option ℕ → ReadContext
  client_context client current_timestamp data_at = record {
    read_packet_key = some client.read_packet_key;
    protocol_id = client.connect_token.protocol_id;
    current_timestamp = current_timestamp;
    private_key = none;
    allowed_packets = client_allowed_packets;
    can_allocate = allocates data_at;
  }

  -- The client's replay protection is given by its address, so it comes back changed.
  abbrev pub with_replay : Client doubles → Option ReplayProtection → Client doubles
  with_replay client none = client
  with_replay client (some replay) = record client { replay_protection = replay }

  -- One round of either loop of `netcode_client_receive_packets`.
  unfoldable pub receive_datagram : Sodium → Client doubles → ℕ → Datagram → Client doubles × List ℕ
  receive_datagram sodium client current_timestamp datagram =
      let (replay, result) =
        read_packet sodium (client_context client current_timestamp datagram.data_at)
          (some client.replay_protection) datagram.bytes in
      let client' = with_replay client replay in
      elim datagram.data_at [
        | none ↦ (client', [])
        | some data_at ↦ elim result [
          | ok (packet, sequence) ↦
              process_packet doubles client' datagram.from packet data_at sequence
          | _ ↦ (client', [])
        ]
      ]

  unfoldable pub client_receive_packets :
      Sodium → Client doubles → ℕ → List Datagram → Client doubles × List ℕ
  client_receive_packets sodium client current_timestamp [] = (client, [])
  client_receive_packets sodium client current_timestamp (datagram ∷ datagrams) =
      let (client', freed) = receive_datagram sodium client current_timestamp datagram in
      let (client'', more) = client_receive_packets sodium client' current_timestamp datagrams in
      (client'', freed ++ more)

  -- Whether the last packet was sent too recently.
  abbrev pub sent_recently : Client doubles → Bool
  sent_recently client =
      doubles.le client.time (doubles.sum client.last_packet_send_time doubles.packet_interval)

  -- The packet of each state.
  abbrev pub packet_to_send : Client doubles → Option Packet
  packet_to_send client = elim client.state [
    | sending_connection_request ↦ some (
        request version_info client.connect_token.protocol_id client.connect_token.expire_timestamp
          client.connect_token.sequence client.connect_token.private_data)
    | sending_connection_response ↦
        some (response client.challenge_token_sequence client.challenge_token_data)
    | connected ↦ some (keep_alive (pos 0) (pos 0))
    | _ ↦ none
  ]

  unfoldable pub client_send_packets : Sodium → Client doubles → Client doubles
  client_send_packets sodium client = elim (packet_to_send client) [
    | none ↦ client
    | some packet ↦
        if sent_recently client then client else send_packet_to_server doubles sodium client packet
  ]

  -- The unsigned difference of the token's times, as a double.
  abbrev pub token_expired : Client doubles → Bool
  token_expired client =
      doubles.le
        (doubles.sum client.connect_start_time (
          doubles.from_int (
            pos (
              (client.connect_token.expire_timestamp
                + 2 ^ 64
                - client.connect_token.create_timestamp)
              % 2 ^ 64))))
        client.time

  abbrev pub heard_nothing : Client doubles → Bool
  heard_nothing client =
      is_positive client.connect_token.timeout_seconds
      && doubles.lt
          (doubles.sum client.last_packet_receive_time
            (doubles.from_int client.connect_token.timeout_seconds))
          client.time

  -- The next server, or the end with a state.
  abbrev pub next_or : Sodium → Client doubles → ClientState → Client doubles × List ℕ
  next_or sodium client destination_state =
      let (client', connecting) = connect_to_next_server doubles client in
      if connecting
      then (client', [])
      else disconnect_internal doubles sodium client' destination_state false

  -- The switch over the state at the end of `netcode_client_update`.
  unfoldable pub check_timeouts : Sodium → Client doubles → Client doubles × List ℕ
  check_timeouts sodium client =
      if heard_nothing client
      then elim client.state [
        | sending_connection_request ↦ next_or sodium client connection_request_timed_out
        | sending_connection_response ↦ next_or sodium client connection_response_timed_out
        | connected ↦ disconnect_internal doubles sodium client connection_timed_out false
        | _ ↦ (client, [])
      ]
      else (client, [])

  -- What `netcode_client_update` does behind the packets.
  unfoldable pub check_connection : Sodium → Client doubles → Client doubles × List ℕ
  check_connection sodium client =
      if ltb 6 (state_number client.state)
        && ltb (state_number client.state) 9
        && token_expired client
      then disconnect_internal doubles sodium client connect_token_expired false
      else if client.should_disconnect
      then next_or sodium client client.should_disconnect_state
      else check_timeouts sodium client

  unfoldable pub client_update :
      Sodium → Client doubles → doubles.Time → ℕ → List Datagram → Client doubles × List ℕ
  client_update sodium client time current_timestamp datagrams =
      let client' = record client { time = time } in
      if client'.loopback
      then (client', [])
      else (let (received, freed) =
            client_receive_packets sodium client' current_timestamp datagrams in
          let (checked, more) = check_connection sodium (client_send_packets sodium received) in
          (checked, freed ++ more))
