-- ===== src/Server/Keeps/Update.antt =====
-- c/netcode.c: that netcode_server_update, and disconnecting clients, keep the server's table
-- well-formed.
use netcode_io.Base.{
  ℕ, zero, suc, ◌+◌, ◌<◌, ◌≤◌, List, [], ◌∷◌, Bool, true, false, not, ◌&&◌, if◌then◌else◌, none,
  some, first_of_if, ◌≡◌, inl, inr, refl, arith,
}
use netcode_io.Base.Int.{pos}
use netcode_io.Base.Search.{search, search_cases}
use netcode_io.Sodium.{Sodium}
use netcode_io.Packet.{keep_alive}
use netcode_io.Time.{Doubles}
use netcode_io.Client.Update.{Datagram}
use netcode_io.Server.{Server, client_at}
use netcode_io.Server.Connection.{
  is_remote, disconnect_client_internal, disconnect_client, disconnect_from, send_client_packet,
}
use netcode_io.Server.Process.{
  read_and_process_packet, server_receive_packets, send_due, send_keep_alives, server_send_packets,
  has_timed_out, check_for_timeouts, server_update,
}
use netcode_io.Server.Keeps.{
  HasTable, Keeps, refl-Keeps, trans-Keeps, if-Keeps, send_client-Keeps, disconnect_internal-Keeps,
}
use netcode_io.Server.Keeps.Process.{read_and_process_packet-Keeps}

module _ (doubles : Doubles) where
  timed_out_remote :
      (server : Server doubles) (i : ℕ)
      → has_timed_out doubles server i ≡ true
      → is_remote doubles server i ≡ true
  timed_out_remote server i h = ground (arith, h)

  receive_packets-Keeps :
      (sodium : Sodium) (now : ℕ) (datagrams : List Datagram) (server : Server doubles)
      → HasTable doubles server
      → Keeps doubles server (server_receive_packets doubles sodium server now datagrams).0
  unfolding server_receive_packets
  receive_packets-Keeps sodium now [] server t = refl-Keeps doubles server
  receive_packets-Keeps sodium now (datagram ∷ datagrams) server t =
      let first = read_and_process_packet-Keeps doubles sodium server now datagram t in
      trans-Keeps doubles first (
        receive_packets-Keeps sodium now datagrams
          (read_and_process_packet doubles sodium server now datagram).0 (first.table t))

  keep_alives-Keeps :
      (sodium : Sodium) (n i : ℕ) (server : Server doubles)
      → i + n ≤ server.max_clients
      → Keeps doubles server (send_keep_alives doubles sodium n i server)
  unfolding send_keep_alives
  keep_alives-Keeps sodium zero i server h = refl-Keeps doubles server
  keep_alives-Keeps sodium (suc n) i server h =
      let packet = keep_alive (pos i) (pos server.max_clients) in
      let server' =
        if send_due doubles server i
        then send_client_packet doubles sodium server packet i
        else server in
      let first =
        if-Keeps doubles (send_due doubles server i) server
          (send_client_packet doubles sodium server packet i) server
          (λ _. send_client-Keeps doubles sodium server packet i (omega (arith, h)))
          (λ _. refl-Keeps doubles server) in
      trans-Keeps doubles first
        (keep_alives-Keeps sodium n (i + 1) server' (omega (arith, h, first.limit)))

  send_packets-Keeps :
      (sodium : Sodium) (server : Server doubles)
      → Keeps doubles server (server_send_packets doubles sodium server)
  unfolding server_send_packets
  send_packets-Keeps sodium server =
      if-Keeps doubles (not server.running) server server
        (send_keep_alives doubles sodium server.max_clients 0 server)
        (λ _. refl-Keeps doubles server)
        (λ _. keep_alives-Keeps sodium server.max_clients 0 server (omega arith))

  check_for_timeouts-Keeps :
      (sodium : Sodium) (server : Server doubles)
      → Keeps doubles server (check_for_timeouts doubles sodium server).0
  unfolding check_for_timeouts
  check_for_timeouts-Keeps sodium server =
      first_of_if (Keeps doubles server) (not server.running) (server, [])
        (elim (search (has_timed_out doubles server) server.max_clients 0)
          as (λ k. Server doubles × List ℕ) [
            | none ↦ (server, [])
            | some i ↦ disconnect_client_internal doubles sodium server i false
          ])
        (λ _. refl-Keeps doubles server)
        λ _. elim (search_cases (has_timed_out doubles server) server.max_clients 0) [
          | inl (e, _) ↦ rw e (refl-Keeps doubles server)
          | inr (i, e, (_, inside, late, _)) ↦ rw e (
              disconnect_internal-Keeps doubles sodium server i false (omega (arith, inside))
                (timed_out_remote server i late))
        ]

  pub update-Keeps :
      (sodium : Sodium) (server : Server doubles) (time : doubles.Time) (now : ℕ)
      (datagrams : List Datagram)
      → HasTable doubles server
      → Keeps doubles server (server_update doubles sodium server time now datagrams).0
  unfolding server_update
  update-Keeps sodium server time now datagrams t =
      let received =
        server_receive_packets doubles sodium (record server { time = time }) now datagrams in
      trans-Keeps doubles {b = record server { time = time }}
        (record { limit = refl; still = refl; table = λ t'. t' })
        (trans-Keeps doubles
          (receive_packets-Keeps sodium now datagrams (record server { time = time }) t)
          (trans-Keeps doubles (send_packets-Keeps sodium received.0)
            (check_for_timeouts-Keeps sodium (server_send_packets doubles sodium received.0))))

  pub disconnect_client-Keeps :
      (sodium : Sodium) (server : Server doubles) (i : ℕ)
      → i < server.max_clients
      → Keeps doubles server (disconnect_client doubles sodium server i).0
  unfolding disconnect_client
  disconnect_client-Keeps sodium server i h =
      let same = refl-Keeps doubles server in
      let gone = disconnect_client_internal doubles sodium server i true in
      let second = if (client_at doubles server i).loopback then (server, []) else gone in
      first_of_if (Keeps doubles server) (not server.running) (server, [])
        (if not (client_at doubles server i).connected then (server, []) else second) (λ _. same)
        λ _.
          first_of_if (Keeps doubles server) (not (client_at doubles server i).connected)
            (server, []) second (λ _. same)
            λ up.
              first_of_if (Keeps doubles server) (client_at doubles server i).loopback (server, [])
                gone (λ _. same)
                λ over_network.
                  disconnect_internal-Keeps doubles sodium server i true h
                    (remote_if _ _ up over_network)
    where
      remote_if : (a b : Bool) → not a ≡ false → b ≡ false → (a && not b) ≡ true
      remote_if a b h h' = ground (arith, h, h')

  pub disconnect_from-Keeps :
      (sodium : Sodium) (n i : ℕ) (server : Server doubles)
      → i + n ≤ server.max_clients
      → Keeps doubles server (disconnect_from doubles sodium n i server).0
  unfolding disconnect_from
  disconnect_from-Keeps sodium zero i server h = refl-Keeps doubles server
  disconnect_from-Keeps sodium (suc n) i server h =
      let gone =
        if is_remote doubles server i
        then disconnect_client_internal doubles sodium server i true
        else (server, []) in
      let first =
        first_of_if (Keeps doubles server) (is_remote doubles server i)
          (disconnect_client_internal doubles sodium server i true) (server, [])
          (λ remote.
            disconnect_internal-Keeps doubles sodium server i true (omega (arith, h)) remote)
          (λ _. refl-Keeps doubles server) in
      trans-Keeps doubles first
        (disconnect_from-Keeps sodium n (i + 1) gone.0 (omega (arith, h, first.limit)))
