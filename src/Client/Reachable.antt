-- ===== src/Client/Reachable.antt =====
-- c/netcode.c: every client that is reached from netcode_client_create by the application's calls is
-- well-formed.
use netcode_io.Base.{
  ℕ, ◌+◌, ◌%◌, ◌^◌, List, [], true, false, not, ◌&&◌, ◌||◌, if◌then◌else◌, ◌==◌, Option, none, some,
  Bool-cases, first_of_if, different, ◌≡◌, inl, inr, refl, sym, ◌∙◌, arith,
}
use netcode_io.Wire.{Outcome, ok, error, fault}
use netcode_io.Sodium.{Sodium}
use netcode_io.Token.Public.{ConnectToken, read_connect_token}
use netcode_io.Token.Public.Accepts.{IsAccepted, read_token-IsAccepted}
use netcode_io.Packet.{payload}
use netcode_io.Queue.Refine.{pop_lem, push_lem}
use netcode_io.Queue.Drain.{pop-nothing}
use netcode_io.Time.{Doubles}
use netcode_io.Client.{
  ClientState, disconnected, invalid_connect_token, state_number, is_active, is_connected, Client,
  set_state, reset_before_next_connect,
}
use netcode_io.Client.Connection.{
  send_packet_to_server, disconnect_internal, client_disconnect, connect_with, client_connect,
  client_send_packet, client_receive_packet, client_connect_loopback, client_disconnect_loopback,
  client_process_loopback_packet, reset_connection_data, send_disconnect_packets,
}
use netcode_io.Client.Invariant.{
  IsClient, create-IsClient, same-IsClient, stay-IsClient, send_packet-IsClient,
  reset_connection_data-IsClient, disconnect_internal-IsClient,
}
use netcode_io.Client.Calls.{update-IsClient}
use netcode_io.Client.Step.{
  Step, update, connect, leave, send, receive, connect_loopback, disconnect_loopback,
  process_loopback, Reach, created, later,
}

-- A state that is not above another that is not active.
ended_below :
    (s : ClientState) → (not (is_active s) || state_number s == 6) ≡ true → is_active s ≡ false
ended_below s h = ground arith

module _ (doubles : Doubles) where
  -- netcode_client_disconnect leaves the client in a state that is not active.
  pub disconnect_ends :
      (sodium : Sodium) (client : Client doubles)
      → IsClient doubles client
      → is_active (client_disconnect doubles sodium client).0.state ≡ false
  unfolding client_disconnect disconnect_internal reset_connection_data set_state
      reset_before_next_connect
  disconnect_ends sodium client valid =
      first_of_if (λ c. is_active c.state ≡ false)
        (not (is_active client.state) || state_number client.state == 6) (client, [])
        (reset_connection_data doubles
          (if not client.loopback && true && is_active client.state
            then send_disconnect_packets doubles sodium 10 client
            else client)
          disconnected)
        (λ idle. ended_below client.state idle) (λ busy. refl)

  pub leave-IsClient :
      (sodium : Sodium) (client : Client doubles)
      → IsClient doubles client
      → IsClient doubles (client_disconnect doubles sodium client).0
  unfolding client_disconnect
  leave-IsClient sodium client valid =
      disconnect_internal-IsClient doubles sodium client disconnected true valid refl

  connect_with-IsClient :
      (client : Client doubles) (t : ConnectToken)
      → IsClient doubles client
      → IsAccepted t
      → IsClient doubles (connect_with doubles client t)
  unfolding connect_with set_state reset_before_next_connect
  connect_with-IsClient client t valid accepted = record {
    queue_in = valid.queue_in;
    server_in = λ h l. (accepted.some_server, refl);
    queue_empty = λ h. cc;
    not_loopback = λ h. cc;
    ends = refl;
  }

  failed-IsClient :
      (client : Client doubles) (left : ConnectToken)
      → IsClient doubles client
      → is_active client.state ≡ false
      → IsClient doubles
          (set_state doubles (record client { connect_token = left }) invalid_connect_token)
  unfolding set_state
  failed-IsClient client left valid idle = record {
    queue_in = valid.queue_in;
    server_in = λ h l. cc;
    queue_empty = λ h. valid.queue_empty idle;
    not_loopback = λ h. valid.not_loopback idle;
    ends = valid.ends;
  }

  connected-IsClient :
      (client : Client doubles) (left : ConnectToken) (o : Outcome ConnectToken)
      → IsClient doubles client
      → is_active client.state ≡ false
      → ((t : ConnectToken) → o ≡ ok t → IsAccepted t)
      → IsClient doubles (elim o as (λ k. Client doubles) [
        | ok token ↦ connect_with doubles client token
        | error ↦ set_state doubles (record client { connect_token = left }) invalid_connect_token
        | fault ↦ set_state doubles (record client { connect_token = left }) invalid_connect_token
      ])
  connected-IsClient client left (ok t) valid idle accepted =
      connect_with-IsClient client t valid (accepted t refl)
  connected-IsClient client left error valid idle accepted = failed-IsClient client left valid idle
  connected-IsClient client left fault valid idle accepted = failed-IsClient client left valid idle

  connect-IsClient :
      (sodium : Sodium) (client : Client doubles) (connect_token : List ℕ) (left : ConnectToken)
      → IsClient doubles client
      → IsClient doubles (client_connect doubles sodium client connect_token left).0
  unfolding client_connect
  connect-IsClient sodium client connect_token left valid =
      connected-IsClient (client_disconnect doubles sodium client).0 left
        (read_connect_token connect_token) (leave-IsClient sodium client valid)
        (disconnect_ends sodium client valid) (read_token-IsAccepted connect_token)

  send-IsClient :
      (sodium : Sodium) (client : Client doubles) (packet_data : List ℕ)
      → IsClient doubles client
      → IsClient doubles (client_send_packet doubles sodium client packet_data).0
  unfolding client_send_packet
  send-IsClient sodium client packet_data valid =
      first_of_if (IsClient doubles) (not (is_connected client.state)) (client, none)
        (if not client.loopback
          then (send_packet_to_server doubles sodium client (payload packet_data), none)
          else (
            record client { sequence = (client.sequence + 1) % 2 ^ 64 },
            some (client.client_index, packet_data, client.sequence),
          ))
        (λ down. valid)
        (λ up.
          first_of_if (IsClient doubles) (not client.loopback)
            (send_packet_to_server doubles sodium client (payload packet_data), none)
            (
              record client { sequence = (client.sequence + 1) % 2 ^ 64 },
              some (client.client_index, packet_data, client.sequence),
            )
            (λ remote. send_packet-IsClient doubles sodium client (payload packet_data) valid)
            (λ loop. same-IsClient doubles client _ valid refl refl refl refl refl refl valid.ends))

  receive-IsClient :
      (client : Client doubles)
      → IsClient doubles client
      → IsClient doubles (client_receive_packet doubles client).0
  unfolding client_receive_packet
  receive-IsClient client valid = record {
    queue_in = (pop_lem client.packet_receive_queue valid.queue_in).0;
    server_in = valid.server_in;
    queue_empty =
        λ idle. pop-nothing client.packet_receive_queue valid.queue_in (valid.queue_empty idle);
    not_loopback = valid.not_loopback;
    ends = valid.ends;
  }

  process_loopback-IsClient :
      (client : Client doubles) (d : Option ℕ) (s : ℕ)
      → IsClient doubles client
      → client.loopback ≡ true
      → IsClient doubles (client_process_loopback_packet doubles client d s).0
  unfolding client_process_loopback_packet
  process_loopback-IsClient client none s valid loop = valid
  process_loopback-IsClient client (some d) s valid loop =
      elim (Bool-cases (is_active client.state)) [
        | inl active ↦
            stay-IsClient doubles client _ valid active active refl refl refl refl
              (push_lem client.packet_receive_queue d s valid.queue_in).0 valid.ends
        | inr idle ↦ absurd (different (sym loop ∙ valid.not_loopback idle))
      ]

  Step-IsClient :
      (sodium : Sodium) {client client' : Client doubles}
      → IsClient doubles client
      → Step doubles sodium client client'
      → IsClient doubles client'
  unfolding client_connect_loopback client_disconnect_loopback
  Step-IsClient sodium {client} valid (update time now datagrams) =
      update-IsClient doubles sodium client time now datagrams valid
  Step-IsClient sodium {client} valid (connect token left remote) =
      connect-IsClient sodium client token left valid
  Step-IsClient sodium {client} valid (leave remote) = leave-IsClient sodium client valid
  Step-IsClient sodium {client} valid (send packet_data) =
      send-IsClient sodium client packet_data valid
  Step-IsClient sodium {client} valid receive = receive-IsClient client valid
  Step-IsClient sodium {client} valid (connect_loopback i m idle) = record {
    queue_in = valid.queue_in;
    server_in = λ h l. cc;
    queue_empty = λ h. cc;
    not_loopback = λ h. cc;
    ends = valid.ends;
  }
  Step-IsClient sodium {client} valid (disconnect_loopback loop) =
      reset_connection_data-IsClient doubles client disconnected valid.queue_in refl
  Step-IsClient sodium {client} valid (process_loopback d s loop) =
      process_loopback-IsClient client d s valid loop

  -- Whatever calls an application makes on a client that netcode_client_create gave, in any order,
  -- each where its assertions hold, and whatever arrives from the network: the client is well-formed
  -- between the calls.
  pub Reach-IsClient :
      (sodium : Sodium) (client : Client doubles)
      → Reach doubles sodium client
      → IsClient doubles client
  Reach-IsClient sodium _ (created time) = create-IsClient doubles time
  Reach-IsClient sodium _ (later reached step) =
      Step-IsClient sodium (Reach-IsClient sodium _ reached) step
