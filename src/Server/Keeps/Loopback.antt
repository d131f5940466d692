-- ===== src/Server/Keeps/Loopback.antt =====
-- c/netcode.c: that the application's calls keep the server's table well-formed.
use netcode_io.Base.{
  ℕ, ◌+◌, ◌<◌, List, [], true, false, not, if◌then◌else◌, different, Option, none, some,
  first_of_if, ◌≡◌, refl, ap, sym, ◌∙◌, subst, arith, ◌%◌, ◌^◌,
}
use netcode_io.Base.Int.{pos}
use netcode_io.Address.{unset}
use netcode_io.Sodium.{Sodium}
use netcode_io.Packet.{keep_alive, payload}
use netcode_io.Queue.{pop, push}
use netcode_io.Queue.Refine.{IsPacketQueue, init-IsPacketQueue, contents, pop_lem, push_lem}
use netcode_io.Queue.Drain.{drain_and_clear, drain_and_clear_lem, pop-nothing}
use netcode_io.Time.{Doubles}
use netcode_io.Server.{Server, client_at, put_client}
use netcode_io.Server.Table.{new-IsTable, gone-IsTable}
use netcode_io.Server.Connection.{
  send_client_packet, disconnect_all_clients, disconnect_from, emptied,
}
use netcode_io.Server.Loopback.{
  server_send_packet, server_receive_packet, connect_loopback_client, disconnect_loopback_client,
  server_process_loopback_packet, send_payload, loopback_user_data,
}
use netcode_io.Server.Keeps.{
  Keeps, refl-Keeps, trans-Keeps, if-Keeps, put-Keeps, send_client-Keeps, init-empty,
}
use netcode_io.Server.Keeps.Update.{disconnect_from-Keeps}

module _ (doubles : Doubles) where
  pub disconnect_all-Keeps :
      (sodium : Sodium) (server : Server doubles)
      → Keeps doubles server (disconnect_all_clients doubles sodium server).0
  unfolding disconnect_all_clients
  disconnect_all-Keeps sodium server =
      first_of_if (Keeps doubles server) (not server.running) (server, [])
        (disconnect_from doubles sodium server.max_clients 0 server)
        (λ _. refl-Keeps doubles server)
        (λ _. disconnect_from-Keeps doubles sodium server.max_clients 0 server (omega arith))

  send_payload-Keeps :
      (sodium : Sodium) (server : Server doubles) (i : ℕ) (packet_data : List ℕ)
      → i < server.max_clients
      → Keeps doubles server (send_payload doubles sodium server i packet_data)
  send_payload-Keeps sodium server i packet_data h =
      let packet = keep_alive (pos i) (pos server.max_clients) in
      let greeted = send_client_packet doubles sodium server packet i in
      let unconfirmed = not (client_at doubles server i).confirmed in
      let first =
        if-Keeps doubles unconfirmed server greeted server
          (λ _. send_client-Keeps doubles sodium server packet i h)
          (λ _. refl-Keeps doubles server) in
      trans-Keeps doubles first (
        send_client-Keeps doubles sodium (if unconfirmed then greeted else server)
          (payload packet_data) i (omega (arith, h, first.limit)))

  pub send_packet-Keeps :
      (sodium : Sodium) (server : Server doubles) (i : ℕ) (packet_data : List ℕ)
      → i < server.max_clients
      → Keeps doubles server (server_send_packet doubles sodium server i packet_data).0
  unfolding server_send_packet
  send_packet-Keeps sodium server i packet_data h =
      let client = client_at doubles server i in
      let same = refl-Keeps doubles server in
      let c = record client {
        sequence = (client.sequence + 1) % 2 ^ 64;
        last_packet_send_time = server.time;
      } in
      let looped : Server doubles × Option (ℕ × List ℕ × ℕ) =
        (put_client doubles server i c, some (i, packet_data, client.sequence)) in
      let over_network : Server doubles × Option (ℕ × List ℕ × ℕ) =
        (send_payload doubles sodium server i packet_data, none) in
      let third = if not client.loopback then over_network else looped in
      first_of_if (Keeps doubles server) (not server.running) (server, none)
        (if not client.connected then (server, none) else third) (λ _. same)
        λ _.
          first_of_if (Keeps doubles server) (not client.connected) (server, none) third (λ _. same)
            λ _.
              first_of_if (Keeps doubles server) (not client.loopback) over_network looped
                (λ _. send_payload-Keeps sodium server i packet_data h)
                (λ _. put-Keeps doubles server i c h refl refl refl refl λ v. record {
                  queue_in = v.queue_in;
                  idle = v.idle;
                  keyed = v.keyed;
                  unaddressed = v.unaddressed;
                })

  pub receive_packet-Keeps :
      (server : Server doubles) (i : ℕ)
      → i < server.max_clients
      → Keeps doubles server (server_receive_packet doubles server i).0
  unfolding server_receive_packet
  receive_packet-Keeps server i h =
      let client = client_at doubles server i in
      let same = refl-Keeps doubles server in
      let c = record client { packet_queue = (pop client.packet_queue).0 } in
      let popped : Server doubles × Option (ℕ × ℕ) =
        (put_client doubles server i c, (pop client.packet_queue).1) in
      first_of_if (Keeps doubles server) (not server.running) (server, none)
        (if not client.connected then (server, none) else popped) (λ _. same)
        λ _.
          first_of_if (Keeps doubles server) (not client.connected) (server, none) popped
            (λ _. same)
            λ _. put-Keeps doubles server i c h refl refl refl refl λ v. record {
              queue_in = (pop_lem client.packet_queue v.queue_in).0;
              idle = λ e. ((v.idle e).0, pop-nothing client.packet_queue v.queue_in (v.idle e).1);
              keyed = v.keyed;
              unaddressed = v.unaddressed;
            }

  pub connect_loopback-Keeps :
      (server : Server doubles) (i client_id : ℕ) (user_data : Option (List ℕ))
      → i < server.max_clients
      → (client_at doubles server i).connected ≡ false
      → Keeps doubles server (connect_loopback_client doubles server i client_id user_data)
  unfolding connect_loopback_client
  connect_loopback-Keeps server i client_id user_data h free = record {
    limit = refl;
    still = refl;
    table = λ t.
        new-IsTable doubles server.clients server.num_connected_clients server.max_clients i
          (record (client_at doubles server i) {
            loopback = true;
            connected = true;
            confirmed = true;
            encryption_index = none;
            client_id = client_id;
            sequence = 0;
            address = unset;
            last_packet_send_time = server.time;
            last_packet_receive_time = server.time;
            user_data = loopback_user_data doubles user_data;
          })
          t h free refl
          (record {
            queue_in = (t.each i).queue_in;
            idle = λ e. absurd (different e);
            keyed = λ remote. absurd (different (sym remote));
            unaddressed = λ _. refl;
          })
          (λ remote. absurd (different (sym remote)));
  }

  pub disconnect_loopback-Keeps :
      (server : Server doubles) (i : ℕ)
      → i < server.max_clients
      → (client_at doubles server i).connected ≡ true
      → Keeps doubles server (disconnect_loopback_client doubles server i).0
  unfolding disconnect_loopback_client
  disconnect_loopback-Keeps server i h up = record {
    limit = refl;
    still = refl;
    table = λ t.
        let emptied_queue =
          ap (λ r. r.0)
            (drain_and_clear_lem (client_at doubles server i).packet_queue (t.each i).queue_in) in
        gone-IsTable doubles server.clients server.num_connected_clients server.max_clients i
          (record (emptied doubles (client_at doubles server i)
            (drain_and_clear (client_at doubles server i).packet_queue).0) { loopback = false })
          t h up refl
          (record {
            queue_in = subst IsPacketQueue (sym emptied_queue) init-IsPacketQueue;
            idle = λ _. (refl, ap contents emptied_queue ∙ init-empty);
            keyed = λ remote. absurd (different (sym remote));
            unaddressed = λ _. refl;
          });
  }

  pub process_loopback-Keeps :
      (server : Server doubles) (i : ℕ) (d : Option ℕ) (s : ℕ)
      → i < server.max_clients
      → (client_at doubles server i).connected ≡ true
      → Keeps doubles server (server_process_loopback_packet doubles server i d s).0
  unfolding server_process_loopback_packet
  process_loopback-Keeps server i none s h up = refl-Keeps doubles server
  process_loopback-Keeps server i (some d) s h up =
      let client = client_at doubles server i in
      put-Keeps doubles server i
        (record client {
          last_packet_receive_time = server.time;
          packet_queue = (push client.packet_queue d s).0;
        })
        h refl refl refl refl
        λ v. record {
          queue_in = (push_lem client.packet_queue d s v.queue_in).0;
          idle = λ e. absurd (different (sym up ∙ e));
          keyed = v.keyed;
          unaddressed = v.unaddressed;
        }
