-- ===== src/Client/Invariant.antt =====
-- c/netcode.c: what holds of a client between two calls, and that each part of netcode_client_update
-- keeps it.
use netcode_io.Base.{
  ℕ, zero, suc, ◌+◌, ◌<◌, [], length, map, Bool, true, false, not, ◌&&◌, ◌||◌, if◌then◌else◌, leb,
  ◌==◌, get_or, Bool-cases, different, ◌≡◌, inl, inr, refl, ap, sym, ◌∙◌, arith,
}
use netcode_io.Address.{Address, unset, address_equal}
use netcode_io.Sodium.{Sodium}
use netcode_io.Packet.{
  Packet, request, denied, challenge, response, keep_alive, payload, disconnect,
}
use netcode_io.Queue.{init}
use netcode_io.Queue.Refine.{IsPacketQueue, init-IsPacketQueue, contents, no_contents, push_lem}
use netcode_io.Queue.Drain.{drain_and_clear_lem}
use netcode_io.Time.{Doubles}
use netcode_io.Client.{
  ClientState, state_number, is_active, is_requesting, is_responding, is_connected, Client,
  set_state, reset_before_next_connect, connect_to_next_server, process_packet,
}
use netcode_io.Client.Connection.{
  client_create, send_packet_to_server, send_disconnect_packets, reset_connection_data,
  disconnect_internal,
}

module _ (doubles : Doubles) where
  -- The queue is well-formed. An active client that is not in loopback is at one of the servers of its
  -- connect token. One that is not active holds no packet, and is not in loopback. The state that a
  -- client is told to end in is not an active one.
  pub record IsClient (client : Client doubles) : Type 0 where
    pub queue_in : IsPacketQueue client.packet_receive_queue
    pub server_in :
        is_active client.state ≡ true
        → client.loopback ≡ false
        → (client.server_address_index < length client.connect_token.server_addresses)
          × (client.server_address
              ≡ get_or client.connect_token.server_addresses client.server_address_index unset)
    pub queue_empty : is_active client.state ≡ false → contents client.packet_receive_queue ≡ []
    pub not_loopback : is_active client.state ≡ false → client.loopback ≡ false
    pub ends : is_active client.should_disconnect_state ≡ false

  pub create-IsClient : (time : doubles.Time) → IsClient (client_create doubles time)
  unfolding client_create
  create-IsClient time = record {
    queue_in = init-IsPacketQueue;
    server_in = λ h l. cc;
    queue_empty = λ h. unfold init in no_contents init refl;
    not_loopback = λ h. refl;
    ends = refl;
  }

  -- A change of an active client that leaves it where it is.
  pub stay-IsClient :
      (client client' : Client doubles)
      → IsClient client
      → is_active client.state ≡ true
      → is_active client'.state ≡ true
      → client'.loopback ≡ client.loopback
      → client'.server_address_index ≡ client.server_address_index
      → client'.server_address ≡ client.server_address
      → client'.connect_token ≡ client.connect_token
      → IsPacketQueue client'.packet_receive_queue
      → is_active client'.should_disconnect_state ≡ false
      → IsClient client'
  stay-IsClient client client' valid active active' loop index address token queue ends = record {
    ends = ends;
    queue_in = queue;
    server_in = λ h l. rw (index, address, token) (valid.server_in active (sym loop ∙ l));
    queue_empty = λ h. absurd (different (sym active' ∙ h));
    not_loopback = λ h. absurd (different (sym active' ∙ h));
  }

  -- A change that concerns neither the state nor the place nor the queue.
  pub same-IsClient :
      (client client' : Client doubles)
      → IsClient client
      → client'.state ≡ client.state
      → client'.loopback ≡ client.loopback
      → client'.server_address_index ≡ client.server_address_index
      → client'.server_address ≡ client.server_address
      → client'.connect_token ≡ client.connect_token
      → client'.packet_receive_queue ≡ client.packet_receive_queue
      → is_active client'.should_disconnect_state ≡ false
      → IsClient client'
  same-IsClient client client' valid state loop index address token queue ends = record {
    ends = ends;
    queue_in = rw queue valid.queue_in;
    server_in = λ h l.
        rw (index, address, token) (valid.server_in (ap is_active (sym state) ∙ h) (sym loop ∙ l));
    queue_empty = λ h. ap contents queue ∙ valid.queue_empty (ap is_active (sym state) ∙ h);
    not_loopback = λ h. loop ∙ valid.not_loopback (ap is_active (sym state) ∙ h);
  }

  requesting_active : (s : ClientState) → is_requesting s ≡ true → is_active s ≡ true
  requesting_active s h = ground arith

  responding_active : (s : ClientState) → is_responding s ≡ true → is_active s ≡ true
  responding_active s h = ground arith

  pub connected_active : (s : ClientState) → is_connected s ≡ true → is_active s ≡ true
  connected_active s h = ground arith

  pub process_packet-IsClient :
      (client : Client doubles) (from : Address) (p : Packet) (data_at sequence : ℕ)
      → IsClient client
      → IsClient (process_packet doubles client from p data_at sequence).0
  unfolding process_packet set_state
  process_packet-IsClient client from (request v x e s d) data_at sequence valid = valid
  process_packet-IsClient client from (response s d) data_at sequence valid = valid
  process_packet-IsClient client from denied data_at sequence valid =
      elim (Bool-cases (
        (is_requesting client.state || is_responding client.state)
        && address_equal from client.server_address)) [
          | inr ignored ↦ rw (ignored, process_packet) valid
          | inl heeded ↦
              rw (heeded, process_packet)
                (same-IsClient client _ valid refl refl refl refl refl refl refl)
        ]
  process_packet-IsClient client from (challenge s d) data_at sequence valid =
      elim (Bool-cases (is_requesting client.state && address_equal from client.server_address)) [
        | inr ignored ↦ rw (ignored, process_packet) valid
        | inl heeded ↦
            rw (heeded, process_packet)
              (stay-IsClient client _ valid
                (requesting_active client.state (ground (arith, heeded))) refl refl refl refl refl
                valid.queue_in valid.ends)
      ]
  process_packet-IsClient client from (keep_alive i m) data_at sequence valid =
      elim (Bool-cases (address_equal from client.server_address)) [
        | inr stranger ↦ rw (stranger, process_packet) valid
        | inl server ↦ elim (Bool-cases (is_connected client.state)) [
          | inl up ↦
              rw (server, up, process_packet)
                (same-IsClient client _ valid refl refl refl refl refl refl valid.ends)
          | inr down ↦ elim (Bool-cases (is_responding client.state)) [
            | inr other ↦ rw (server, down, other, process_packet) valid
            | inl answering ↦
                rw (server, down, answering, process_packet)
                  (stay-IsClient client _ valid (responding_active client.state answering) refl refl
                    refl refl refl valid.queue_in valid.ends)
          ]
        ]
      ]
  process_packet-IsClient client from (payload b) data_at sequence valid =
      elim (Bool-cases (is_connected client.state && address_equal from client.server_address)) [
        | inr ignored ↦ rw (ignored, process_packet) valid
        | inl heeded ↦
            let active = connected_active client.state (ground (arith, heeded)) in
            rw (heeded, process_packet)
              (stay-IsClient client _ valid active active refl refl refl refl
                (push_lem client.packet_receive_queue data_at sequence valid.queue_in).0 valid.ends)
      ]
  process_packet-IsClient client from disconnect data_at sequence valid =
      elim (Bool-cases (is_connected client.state && address_equal from client.server_address)) [
        | inr ignored ↦ rw (ignored, process_packet) valid
        | inl heeded ↦
            rw (heeded, process_packet)
              (same-IsClient client _ valid refl refl refl refl refl refl refl)
      ]

  pub send_packet-IsClient :
      (sodium : Sodium) (client : Client doubles) (packet : Packet)
      → IsClient client
      → IsClient (send_packet_to_server doubles sodium client packet)
  unfolding send_packet_to_server
  send_packet-IsClient sodium client packet valid =
      same-IsClient client _ valid refl refl refl refl refl refl valid.ends

  send_disconnect-IsClient :
      (sodium : Sodium) (n : ℕ) (client : Client doubles)
      → IsClient client
      → IsClient (send_disconnect_packets doubles sodium n client)
  unfolding send_disconnect_packets
  send_disconnect-IsClient sodium zero client valid = valid
  send_disconnect-IsClient sodium (suc n) client valid =
      send_disconnect-IsClient sodium n _ (send_packet-IsClient sodium client disconnect valid)

  pub next_server-IsClient :
      (client : Client doubles)
      → IsClient client
      → IsClient (connect_to_next_server doubles client).0
  unfolding connect_to_next_server set_state reset_before_next_connect
  next_server-IsClient client valid =
      elim (Bool-cases
        (leb (length client.connect_token.server_addresses) (client.server_address_index + 1))) [
          | inl last ↦ rw (last, connect_to_next_server) valid
          | inr more ↦
              rw (more, connect_to_next_server)
                (record {
                  queue_in = valid.queue_in;
                  server_in = λ h l. (ground (arith, more), refl);
                  queue_empty = λ h. cc;
                  not_loopback = λ h. cc;
                  ends = refl;
                })
        ]

  -- netcode_client_reset_connection_data leaves a client with a new queue in the given state, and
  -- frees each packet of the old queue once, the oldest first.
  pub reset_connection_data_lem :
      (client : Client doubles) (s : ClientState)
      → IsPacketQueue client.packet_receive_queue
      → ((reset_connection_data doubles client s).0.state ≡ s)
        × ((reset_connection_data doubles client s).0.loopback ≡ false)
        × ((reset_connection_data doubles client s).0.packet_receive_queue ≡ init)
        × ((reset_connection_data doubles client s).1
            ≡ map (λ e. e.0) (contents client.packet_receive_queue))
  unfolding reset_connection_data set_state reset_before_next_connect
  reset_connection_data_lem client s queue =
      let e = drain_and_clear_lem client.packet_receive_queue queue in
      (refl, refl, ap (λ r. r.0) e, ap (λ r. r.1) e)

  pub reset_connection_data-IsClient :
      (client : Client doubles) (s : ClientState)
      → IsPacketQueue client.packet_receive_queue
      → is_active s ≡ false
      → IsClient (reset_connection_data doubles client s).0
  unfolding reset_connection_data reset_before_next_connect
  reset_connection_data-IsClient client s queue ended =
      let (state, loop, emptied, freed) = reset_connection_data_lem client s queue in
      record {
        queue_in = rw emptied init-IsPacketQueue;
        server_in = λ h l. absurd (different (sym h ∙ ap is_active state ∙ ended));
        queue_empty = λ h. ap contents emptied ∙ unfold init in no_contents init refl;
        not_loopback = λ h. loop;
        ends = refl;
      }

  pub chosen-IsClient :
      (b : Bool) (c c' : Client doubles) → IsClient c → IsClient c' → IsClient (if b then c else c')
  chosen-IsClient true c c' h h' = h
  chosen-IsClient false c c' h h' = h'

  pub disconnect_internal-IsClient :
      (sodium : Sodium) (client : Client doubles) (s : ClientState) (send : Bool)
      → IsClient client
      → is_active s ≡ false
      → IsClient (disconnect_internal doubles sodium client s send).0
  unfolding disconnect_internal
  disconnect_internal-IsClient sodium client s send valid ended =
      elim (Bool-cases
        (not (is_active client.state) || state_number client.state == state_number s)) [
          | inl idle ↦ rw (idle, disconnect_internal) valid
          | inr busy ↦
              rw (busy, disconnect_internal)
                (reset_connection_data-IsClient _ s
                  (chosen-IsClient _ _ _ (send_disconnect-IsClient sodium 10 client valid)
                    valid).queue_in
                  ended)
        ]
