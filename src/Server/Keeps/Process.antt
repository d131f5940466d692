-- ===== src/Server/Keeps/Process.antt =====
-- c/netcode.c: that netcode_server_update keeps the server's table well-formed.
use netcode_io.Base.{
  ℕ, ◌<◌, bit_and, List, [], length, Bool, true, false, not, ◌&&◌, ◌==◌, leb, if◌then◌else◌,
  Bool-cases, different, Option, none, some, first_of_if, and_first, and_last, ◌≡◌, inl, inr, refl,
  ap, sym, ◌∙◌, arith,
}
use netcode_io.Base.Search.{search_cases}
use netcode_io.Wire.{ok, error, fault}
use netcode_io.Address.{Address, unset, ipv4, ipv6, address_equal}
use netcode_io.Sodium.{Sodium}
use netcode_io.Packet.{
  Packet, request, denied, challenge, response, keep_alive, payload, disconnect,
}
use netcode_io.Packet.Read.{ReadResult, read_packet}
use netcode_io.Replay.{ReplayProtection}
use netcode_io.Queue.{push}
use netcode_io.Queue.Refine.{push_lem}
use netcode_io.Time.{Doubles}
use netcode_io.Encryption.{get_receive_key}
use netcode_io.Client.Update.{Datagram}
use netcode_io.Server.{Server, client_at, is_unset, find_client_index_by_address}
use netcode_io.Server.Table.{is_remote_client, at-set_same}
use netcode_io.Server.Connection.{is_remote}
use netcode_io.Server.Handshake.{
  process_connection_request_packet, process_connection_response_packet,
}
use netcode_io.Server.Process.{
  heard_client, server_process_packet, lookup_sender, replay_of, store_replay, server_context,
  read_and_process, no_key_for, read_and_process_packet,
}
use netcode_io.Server.Keeps.{
  HasTable, Keeps, refl-Keeps, trans-Keeps, if-Keeps, put-Keeps, disconnect_internal-Keeps,
}
use netcode_io.Server.Keeps.Request.{request-Keeps}
use netcode_io.Server.Keeps.Response.{response-Keeps}

unset_equals_none : (b : Address) → address_equal unset b ≡ false
unfolding address_equal
unset_equals_none unset = refl
unset_equals_none (ipv4 a b c d port) = refl
unset_equals_none (ipv6 a b c d e f g h port) = refl

both : (a b : Bool) → a ≡ true → b ≡ false → (a && not b) ≡ true
both a b h h' = ground (arith, h, h')

module _ (doubles : Doubles) where
  -- The index of a client that is connected over the network.
  abbrev pub IsRemoteIndex : Server doubles → Option ℕ → Type 0
  IsRemoteIndex server none = Unit {0}
  IsRemoteIndex server (some i) = (i < server.max_clients) × (is_remote doubles server i ≡ true)

  heard-Keeps :
      (server : Server doubles) (i : ℕ)
      → i < server.max_clients
      → Keeps doubles server (heard_client doubles server i)
  heard-Keeps server i h = put-Keeps doubles server i _ h refl refl refl refl λ v. record {
    queue_in = v.queue_in;
    idle = v.idle;
    keyed = v.keyed;
    unaddressed = v.unaddressed;
  }

  pub process_packet-Keeps :
      (sodium : Sodium) (server : Server doubles) (from : Address) (packet : Packet)
      (data_at sequence : ℕ) (encryption_index client_index : Option ℕ)
      → IsRemoteIndex server client_index
      → Keeps doubles server
          (server_process_packet doubles sodium server from packet data_at sequence encryption_index
            client_index).0
  unfolding server_process_packet
  process_packet-Keeps sodium server from (request v p e s token_data) data_at sequence k c h =
      if-Keeps doubles (bit_and server.flags 1 == 0) server
        (process_connection_request_packet doubles sodium server from token_data) server
        (λ _. request-Keeps doubles from sodium server token_data) (λ _. refl-Keeps doubles server)
  process_packet-Keeps sodium server from (response t token_data) data_at sequence k c h =
      if-Keeps doubles (bit_and server.flags 2 == 0) server
        (process_connection_response_packet doubles sodium server from t token_data k) server
        (λ _. response-Keeps doubles sodium server from t token_data k)
        (λ _. refl-Keeps doubles server)
  process_packet-Keeps sodium server from (keep_alive a m) data_at sequence k (some i) h =
      heard-Keeps server i h.0
  process_packet-Keeps sodium server from (payload bytes) data_at sequence k (some i) h =
      let server' = heard_client doubles server i in
      let client = client_at doubles server' i in
      let remote =
        at-set_same doubles (is_remote_client doubles) server.clients i
          (record (client_at doubles server i) {
            last_packet_receive_time = server.time;
            confirmed = true;
          })
          refl i
        ∙ h.1 in
      trans-Keeps doubles (heard-Keeps server i h.0) (
        put-Keeps doubles server' i
          (record client { packet_queue = (push client.packet_queue data_at sequence).0 }) h.0 refl
          refl refl refl
          λ v. record {
            queue_in = (push_lem client.packet_queue data_at sequence v.queue_in).0;
            idle = λ e. absurd (different (sym (and_first _ _ remote) ∙ e));
            keyed = v.keyed;
            unaddressed = v.unaddressed;
          })
  process_packet-Keeps sodium server from disconnect data_at sequence k (some i) h =
      disconnect_internal-Keeps doubles sodium server i false h.0 h.1
  process_packet-Keeps sodium server from (keep_alive a m) data_at sequence k none h =
      refl-Keeps doubles server
  process_packet-Keeps sodium server from (payload bytes) data_at sequence k none h =
      refl-Keeps doubles server
  process_packet-Keeps sodium server from disconnect data_at sequence k none h =
      refl-Keeps doubles server
  process_packet-Keeps sodium server from denied data_at sequence k none h =
      refl-Keeps doubles server
  process_packet-Keeps sodium server from denied data_at sequence k (some i) h =
      refl-Keeps doubles server
  process_packet-Keeps sodium server from (challenge t d) data_at sequence k none h =
      refl-Keeps doubles server
  process_packet-Keeps sodium server from (challenge t d) data_at sequence k (some i) h =
      refl-Keeps doubles server

  pub found_client :
      (server : Server doubles) (from : Address)
      → HasTable doubles server
      → IsRemoteIndex server (find_client_index_by_address doubles server from)
  unfolding find_client_index_by_address
  found_client server from t = elim (Bool-cases (is_unset from)) [
    | inl nowhere ↦ rw nowhere tt
    | inr somewhere ↦
        elim (search_cases
          (λ i.
            (client_at doubles server i).connected
            && address_equal (client_at doubles server i).address from)
          server.max_clients 0) [
            | inl (e, _) ↦ rw (somewhere, e) tt
            | inr (i, e, (_, inside, found, _)) ↦
                rw (somewhere, e)
                  (omega (arith, inside), remote_of i t (and_first _ _ found) (and_last _ _ found))
          ]
  ]
    where
      remote_of :
          (i : ℕ)
          → HasTable doubles server
          → (client_at doubles server i).connected ≡ true
          → address_equal (client_at doubles server i).address from ≡ true
          → is_remote doubles server i ≡ true
      remote_of i t connected same = elim (Bool-cases (client_at doubles server i).loopback) [
        | inr over_network ↦ both _ _ connected over_network
        | inl loop ↦ absurd (
            different (
              sym same
              ∙ ap (λ a. address_equal a from) ((t.each i).unaddressed loop)
              ∙ unset_equals_none from))
      ]

  pub store_replay-Keeps :
      (server : Server doubles) (c : Option ℕ) (replay : Option ReplayProtection)
      → IsRemoteIndex server c
      → Keeps doubles server (store_replay doubles server c replay)
        × IsRemoteIndex (store_replay doubles server c replay) c
  store_replay-Keeps server none replay h = (refl-Keeps doubles server, tt)
  store_replay-Keeps server (some i) none h = (refl-Keeps doubles server, h)
  store_replay-Keeps server (some i) (some replay) (l, remote) = (
    put-Keeps doubles server i (record (client_at doubles server i) { replay_protection = replay })
        l refl refl refl refl
        λ v. record {
          queue_in = v.queue_in;
          idle = v.idle;
          keyed = v.keyed;
          unaddressed = v.unaddressed;
        },
    (
      l,
      at-set_same doubles (is_remote_client doubles) server.clients i
            (record (client_at doubles server i) { replay_protection = replay }) refl i
          ∙ remote,
    ),
  )

  read-Keeps :
      (sodium : Sodium) (server : Server doubles) (from : Address) (d : Option ℕ)
      (result : ReadResult) (k c : Option ℕ)
      → IsRemoteIndex server c
      → Keeps doubles server
          (elim d as (λ k'. Server doubles × List ℕ) [
            | none ↦ (server, [])
            | some data_at ↦ elim result as (λ k'. Server doubles × List ℕ) [
              | ok (packet, sequence) ↦
                  server_process_packet doubles sodium server from packet data_at sequence k c
              | error ↦ (server, [])
              | fault ↦ (server, [])
            ]
          ]).0
  read-Keeps sodium server from none result k c h = refl-Keeps doubles server
  read-Keeps sodium server from (some d) (ok (p, s)) k c h =
      process_packet-Keeps sodium server from p d s k c h
  read-Keeps sodium server from (some d) error k c h = refl-Keeps doubles server
  read-Keeps sodium server from (some d) fault k c h = refl-Keeps doubles server

  read_and_process-Keeps :
      (sodium : Sodium) (server : Server doubles) (now : ℕ) (datagram : Datagram) (k c : Option ℕ)
      (key : Option (List ℕ))
      → IsRemoteIndex server c
      → Keeps doubles server (read_and_process doubles sodium server now datagram k c key).0
  unfolding read_and_process
  read_and_process-Keeps sodium server now datagram k c key h =
      let (stored, still_remote) =
        store_replay-Keeps server c
          (read_packet sodium (server_context doubles server now key datagram.data_at)
            (replay_of doubles server c) datagram.bytes).0
          h in
      trans-Keeps doubles stored (
        read-Keeps sodium _ datagram.from datagram.data_at
          (read_packet sodium (server_context doubles server now key datagram.data_at)
            (replay_of doubles server c) datagram.bytes).1
          k c still_remote)

  pub read_and_process_packet-Keeps :
      (sodium : Sodium) (server : Server doubles) (now : ℕ) (datagram : Datagram)
      → HasTable doubles server
      → Keeps doubles server (read_and_process_packet doubles sodium server now datagram).0
  unfolding read_and_process_packet
  read_and_process_packet-Keeps sodium server now datagram t =
      let c = find_client_index_by_address doubles server datagram.from in
      let (manager, k) = lookup_sender doubles server datagram.from c in
      let server' = record server { encryption_manager = manager } in
      let looked : Keeps doubles server server' = record {
        limit = refl;
        still = refl;
        table = λ t'. t';
      } in
      let key = get_receive_key doubles manager k in
      let processed = read_and_process doubles sodium server' now datagram k c key in
      let second = if no_key_for doubles key datagram.bytes then (server', []) else processed in
      first_of_if (Keeps doubles server) (not server.running) (server, [])
        (if leb (length datagram.bytes) 1 then (server, []) else second)
        (λ _. refl-Keeps doubles server)
        λ _.
          first_of_if (Keeps doubles server) (leb (length datagram.bytes) 1) (server, []) second
            (λ _. refl-Keeps doubles server)
            λ _.
              first_of_if (Keeps doubles server) (no_key_for doubles key datagram.bytes)
                (server', []) processed (λ _. looked)
                (λ _. trans-Keeps doubles looked (
                  read_and_process-Keeps sodium server' now datagram k c key
                    (found_client server datagram.from t)))
