-- ===== src/Client/Calls.antt =====
-- c/netcode.c: every client that is reached from netcode_client_create by calls of the client's
-- functions, in any order and with any network, is well-formed.
use netcode_io.Base.{
  ℕ, List, [], ◌∷◌, ◌++◌, Bool, true, false, ◌&&◌, if◌then◌else◌, ltb, Option, none, some,
  Bool-cases, first_of_if, Option-cases, ◌≡◌, inl, inr, refl,
}
use netcode_io.Wire.{ok, error, fault}
use netcode_io.Address.{Address}
use netcode_io.Sodium.{Sodium}
use netcode_io.Packet.Read.{ReadResult}
use netcode_io.Replay.{ReplayProtection}
use netcode_io.Time.{Doubles}
use netcode_io.Client.{
  ClientState, disconnected, sending_connection_request, sending_connection_response, connected,
  connection_denied, connect_token_expired, connection_timed_out, connection_response_timed_out,
  connection_request_timed_out, invalid_connect_token, state_number, is_active, Client,
  connect_to_next_server, process_packet,
}
use netcode_io.Client.Connection.{disconnect_internal}
use netcode_io.Client.Update.{
  Datagram, with_replay, receive_datagram, client_receive_packets, packet_to_send,
  client_send_packets, token_expired, heard_nothing, next_or, check_timeouts, check_connection,
  client_update,
}
use netcode_io.Client.Invariant.{
  IsClient, same-IsClient, process_packet-IsClient, send_packet-IsClient, next_server-IsClient,
  disconnect_internal-IsClient, chosen-IsClient,
}

module _ (doubles : Doubles) where
  with_replay-IsClient :
      (client : Client doubles) (replay : Option ReplayProtection)
      → IsClient doubles client
      → IsClient doubles (with_replay doubles client replay)
  with_replay-IsClient client none valid = valid
  with_replay-IsClient client (some replay) valid =
      same-IsClient doubles client _ valid refl refl refl refl refl refl valid.ends

  read-IsClient :
      (client : Client doubles) (from : Address) (d : Option ℕ) (result : ReadResult)
      → IsClient doubles client
      → IsClient doubles
          (elim d as (λ k. Client doubles × List ℕ) [
            | none ↦ (client, [])
            | some data_at ↦ elim result as (λ k. Client doubles × List ℕ) [
              | ok (packet, sequence) ↦ process_packet doubles client from packet data_at sequence
              | error ↦ (client, [])
              | fault ↦ (client, [])
            ]
          ]).0
  read-IsClient client from none result valid = valid
  read-IsClient client from (some d) (ok (p, s)) valid =
      process_packet-IsClient doubles client from p d s valid
  read-IsClient client from (some d) error valid = valid
  read-IsClient client from (some d) fault valid = valid

  receive_datagram-IsClient :
      (sodium : Sodium) (client : Client doubles) (now : ℕ) (datagram : Datagram)
      → IsClient doubles client
      → IsClient doubles (receive_datagram doubles sodium client now datagram).0
  unfolding receive_datagram
  receive_datagram-IsClient sodium client now datagram valid =
      read-IsClient _ datagram.from datagram.data_at _ (with_replay-IsClient client _ valid)

  receive_packets-IsClient :
      (sodium : Sodium) (client : Client doubles) (now : ℕ) (datagrams : List Datagram)
      → IsClient doubles client
      → IsClient doubles (client_receive_packets doubles sodium client now datagrams).0
  unfolding client_receive_packets
  receive_packets-IsClient sodium client now [] valid = valid
  receive_packets-IsClient sodium client now (datagram ∷ datagrams) valid =
      receive_packets-IsClient sodium (receive_datagram doubles sodium client now datagram).0 now
        datagrams (receive_datagram-IsClient sodium client now datagram valid)

  send_packets-IsClient :
      (sodium : Sodium) (client : Client doubles)
      → IsClient doubles client
      → IsClient doubles (client_send_packets doubles sodium client)
  unfolding client_send_packets
  send_packets-IsClient sodium client valid = elim (Option-cases (packet_to_send doubles client)) [
    | inl e ↦ rw (e, client_send_packets) valid
    | inr (packet, e) ↦
        rw (e, client_send_packets)
          (chosen-IsClient doubles _ _ _ valid
            (send_packet-IsClient doubles sodium client packet valid))
  ]

  next_or-IsClient :
      (sodium : Sodium) (client : Client doubles) (s : ClientState)
      → IsClient doubles client
      → is_active s ≡ false
      → IsClient doubles (next_or doubles sodium client s).0
  next_or-IsClient sodium client s valid ended =
      elim (Bool-cases (connect_to_next_server doubles client).1) [
        | inl e ↦ rw e (next_server-IsClient doubles client valid)
        | inr e ↦ rw e (
            disconnect_internal-IsClient doubles sodium _ s false
              (next_server-IsClient doubles client valid) ended)
      ]

  timeout-IsClient :
      (sodium : Sodium) (client : Client doubles) (b : Bool) (s : ClientState)
      → IsClient doubles client
      → IsClient doubles
          (if b
            then elim s as (λ k. Client doubles × List ℕ) [
              | sending_connection_request ↦
                  next_or doubles sodium client connection_request_timed_out
              | sending_connection_response ↦
                  next_or doubles sodium client connection_response_timed_out
              | connected ↦ disconnect_internal doubles sodium client connection_timed_out false
              | _ ↦ (client, [])
            ]
            else (client, [])).0
  timeout-IsClient sodium client false s valid = valid
  timeout-IsClient sodium client true sending_connection_request valid =
      next_or-IsClient sodium client connection_request_timed_out valid refl
  timeout-IsClient sodium client true sending_connection_response valid =
      next_or-IsClient sodium client connection_response_timed_out valid refl
  timeout-IsClient sodium client true connected valid =
      disconnect_internal-IsClient doubles sodium client connection_timed_out false valid refl
  timeout-IsClient sodium client true connect_token_expired valid = valid
  timeout-IsClient sodium client true invalid_connect_token valid = valid
  timeout-IsClient sodium client true connection_timed_out valid = valid
  timeout-IsClient sodium client true connection_response_timed_out valid = valid
  timeout-IsClient sodium client true connection_request_timed_out valid = valid
  timeout-IsClient sodium client true connection_denied valid = valid
  timeout-IsClient sodium client true disconnected valid = valid

  check_timeouts-IsClient :
      (sodium : Sodium) (client : Client doubles)
      → IsClient doubles client
      → IsClient doubles (check_timeouts doubles sodium client).0
  unfolding check_timeouts
  check_timeouts-IsClient sodium client valid =
      timeout-IsClient sodium client (heard_nothing doubles client) client.state valid

  pub check_connection-IsClient :
      (sodium : Sodium) (client : Client doubles)
      → IsClient doubles client
      → IsClient doubles (check_connection doubles sodium client).0
  unfolding check_connection
  check_connection-IsClient sodium client valid =
      first_of_if (IsClient doubles)
        (ltb 6 (state_number client.state)
          && ltb (state_number client.state) 9
          && token_expired doubles client)
        (disconnect_internal doubles sodium client connect_token_expired false)
        (if client.should_disconnect
          then next_or doubles sodium client client.should_disconnect_state
          else check_timeouts doubles sodium client)
        (λ old.
          disconnect_internal-IsClient doubles sodium client connect_token_expired false valid refl)
        (λ fresh.
          first_of_if (IsClient doubles) client.should_disconnect
            (next_or doubles sodium client client.should_disconnect_state)
            (check_timeouts doubles sodium client)
            (λ told. next_or-IsClient sodium client client.should_disconnect_state valid valid.ends)
            (λ free. check_timeouts-IsClient sodium client valid))

  pub update-IsClient :
      (sodium : Sodium) (client : Client doubles) (time : doubles.Time) (now : ℕ)
      (datagrams : List Datagram)
      → IsClient doubles client
      → IsClient doubles (client_update doubles sodium client time now datagrams).0
  unfolding client_update
  update-IsClient sodium client time now datagrams valid =
      let timed =
        same-IsClient doubles client (record client { time = time }) valid refl refl refl refl refl
          refl valid.ends in
      let received =
        client_receive_packets doubles sodium (record client { time = time }) now datagrams in
      let checked =
        check_connection doubles sodium (client_send_packets doubles sodium received.0) in
      first_of_if (IsClient doubles) client.loopback (record client { time = time }, [])
        (checked.0, received.1 ++ checked.1) (λ loop. timed)
        (λ remote.
          check_connection-IsClient sodium _ (
            send_packets-IsClient sodium _ (receive_packets-IsClient sodium _ now datagrams timed)))
