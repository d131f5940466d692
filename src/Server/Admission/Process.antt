-- ===== src/Server/Admission/Process.antt =====
-- c/netcode.c, netcode_server_process_packet: which packets connect a client.
use netcode_io.Base.{
  ℕ, bit_and, true, false, ◌==◌, Option, none, some, case_of_if, ◌≡◌, inl, inr, refl, ap, sym, ◌∙◌,
}
use netcode_io.Address.{Address}
use netcode_io.Sodium.{Sodium}
use netcode_io.Packet.{
  Packet, request, denied, challenge, response, keep_alive, payload, disconnect,
}
use netcode_io.Queue.{push}
use netcode_io.Queue.Drain.{drain_and_clear}
use netcode_io.Time.{Doubles}
use netcode_io.Server.{Server, client_at, put_client}
use netcode_io.Server.Table.{at, at-set_same, at-set_either}
use netcode_io.Server.Connection.{disconnect_client_internal, emptied}
use netcode_io.Server.Handshake.{
  process_connection_request_packet, process_connection_response_packet,
}
use netcode_io.Server.Process.{heard_client, server_process_packet}
use netcode_io.Server.Keeps.{HasTable}
use netcode_io.Server.Keeps.Request.{request-IsAnswer}
use netcode_io.Server.Admission.{IsAdmission, IsAdmitted, same-IsAdmitted, response-IsAdmitted}

module _ (doubles : Doubles) where
  disconnect-free :
      (sodium : Sodium) (server : Server doubles) (j i : ℕ)
      → (client_at doubles server i).connected ≡ false
      → (client_at doubles (disconnect_client_internal doubles sodium server j false).0 i).connected
        ≡ false
  unfolding disconnect_client_internal
  disconnect-free sodium server j i free =
      let client = client_at doubles server j in
      elim (at-set_either doubles server.clients j
        (record (emptied doubles client (drain_and_clear client.packet_queue).0) {
          replay_protection = netcode_io.Replay.reset;
        })
        i) [ inl e ↦ ap (λ d. d.connected) e | inr e ↦ ap (λ d. d.connected) e ∙ free ]

  -- With a well-formed table, a client that netcode_server_process_packet connects, at whatever index,
  -- is an admission by that packet under the encryption index that the call is given.
  pub process_packet-IsAdmission :
      (sodium : Sodium) (server : Server doubles) (from : Address) (packet : Packet)
      (data_at sequence : ℕ) (k c : Option ℕ) (i : ℕ)
      → HasTable doubles server
      → (client_at doubles server i).connected ≡ false
      → (client_at doubles
          (server_process_packet doubles sodium server from packet data_at sequence k c).0
          i).connected
        ≡ true
      → IsAdmission doubles sodium server from packet k
          (client_at doubles
            (server_process_packet doubles sodium server from packet data_at sequence k c).0
            i).client_id
          (client_at doubles
            (server_process_packet doubles sodium server from packet data_at sequence k c).0
            i).address
  unfolding server_process_packet
  process_packet-IsAdmission sodium server from (request v p e s d) data_at sequence k c i t free =
      case_of_if (IsAdmitted doubles sodium server from (request v p e s d) k i)
        (bit_and server.flags 1 == 0)
        (process_connection_request_packet doubles sodium server from d) server
        (λ _.
          same-IsAdmitted doubles sodium server from (request v p e s d) k i
            (process_connection_request_packet doubles sodium server from d) free
            (ap (λ clients. (at doubles clients i).connected)
              (request-IsAnswer doubles from sodium server d).clients))
        (λ _. same-IsAdmitted doubles sodium server from (request v p e s d) k i server free refl)
  process_packet-IsAdmission sodium server from (response s d) data_at sequence k c i t free =
      case_of_if (IsAdmitted doubles sodium server from (response s d) k i)
        (bit_and server.flags 2 == 0)
        (process_connection_response_packet doubles sodium server from s d k) server
        (λ _. response-IsAdmitted doubles sodium server from s d k i t free)
        (λ _. same-IsAdmitted doubles sodium server from (response s d) k i server free refl)
  process_packet-IsAdmission sodium server from (keep_alive a m) data_at sequence k (some j) i t
        free =
      same-IsAdmitted doubles sodium server from (keep_alive a m) k i
        (heard_client doubles server j) free
        (at-set_same doubles (λ d. d.connected) server.clients j
          (record (client_at doubles server j) {
            last_packet_receive_time = server.time;
            confirmed = true;
          })
          refl i)
  process_packet-IsAdmission sodium server from (payload bytes) data_at sequence k (some j) i t
        free =
      let server' = heard_client doubles server j in
      let client = client_at doubles server' j in
      let c' = record client { packet_queue = (push client.packet_queue data_at sequence).0 } in
      same-IsAdmitted doubles sodium server from (payload bytes) k i
        (put_client doubles server' j c') free
        (at-set_same doubles (λ d. d.connected) server'.clients j c' refl i
          ∙ at-set_same doubles (λ d. d.connected) server.clients j
              (record (client_at doubles server j) {
                last_packet_receive_time = server.time;
                confirmed = true;
              })
              refl i)
  process_packet-IsAdmission sodium server from disconnect data_at sequence k (some j) i t free =
      same-IsAdmitted doubles sodium server from disconnect k i
        (disconnect_client_internal doubles sodium server j false).0 free
        (disconnect-free sodium server j i free ∙ sym free)
  process_packet-IsAdmission sodium server from (keep_alive a m) data_at sequence k none i t free =
      same-IsAdmitted doubles sodium server from (keep_alive a m) k i server free refl
  process_packet-IsAdmission sodium server from (payload bytes) data_at sequence k none i t free =
      same-IsAdmitted doubles sodium server from (payload bytes) k i server free refl
  process_packet-IsAdmission sodium server from disconnect data_at sequence k none i t free =
      same-IsAdmitted doubles sodium server from disconnect k i server free refl
  process_packet-IsAdmission sodium server from denied data_at sequence k none i t free =
      same-IsAdmitted doubles sodium server from denied k i server free refl
  process_packet-IsAdmission sodium server from denied data_at sequence k (some j) i t free =
      same-IsAdmitted doubles sodium server from denied k i server free refl
  process_packet-IsAdmission sodium server from (challenge s d) data_at sequence k none i t free =
      same-IsAdmitted doubles sodium server from (challenge s d) k i server free refl
  process_packet-IsAdmission sodium server from (challenge s d) data_at sequence k (some j) i t
        free =
      same-IsAdmitted doubles sodium server from (challenge s d) k i server free refl
