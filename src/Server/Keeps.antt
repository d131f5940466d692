-- ===== src/Server/Keeps.antt =====
-- c/netcode.c: that what the server does to one client keeps its table well-formed.
pub mod Request
pub mod Response
pub mod Process
pub mod Update
pub mod Loopback
use netcode_io.Base.{
  ℕ, zero, suc, ◌+◌, ◌-◌, ◌<◌, ◌≤◌, List, [], ◌∷◌, ◌++◌, length, set, get_or, Bool, true, false,
  not, ◌&&◌, if◌then◌else◌, Bool-cases, different, Option, none, some, Option-cases, first_of_if,
  case_of_option, ◌%◌, ◌^◌, and_first, and_last, ◌≡◌, ◌≢◌, ◌⊎◌, inl, inr, refl, ap, sym, ◌∙◌, subst,
  arith,
}
use netcode_io.Address.{Address}
use netcode_io.Sodium.{Sodium}
use netcode_io.Packet.{Packet, disconnect}
use netcode_io.Packet.Write.{write_packet}
use netcode_io.Queue.{init}
use netcode_io.Queue.Refine.{IsPacketQueue, init-IsPacketQueue, contents, no_contents}
use netcode_io.Queue.Drain.{drain_and_clear, drain_and_clear_lem}
use netcode_io.Time.{Doubles}
use netcode_io.Encryption.{EncryptionManager, touch, mapping}
use netcode_io.Server.{ServerClient, Server, client_at, put_client, free_client}
use netcode_io.Server.Table.{
  IsTable, IsServerClient, is_remote_client, AreApart, same-IsTable, gone-IsTable, at-set_self,
  at-set_same,
}
use netcode_io.Server.Connection.{
  send_global_packet, send_client_packet, server_send_disconnects, disconnect_client_internal,
  disconnect_client, disconnect_from, disconnect_all_clients, is_remote, report, emptied,
  sent_to_client,
}

pub init-empty : contents init ≡ []
init-empty = unfold init in no_contents init refl

pub false_of_not : (b : Bool) → not b ≡ true → b ≡ false
false_of_not true h = sym h
false_of_not false h = refl

module _ (doubles : Doubles) where
  abbrev pub HasTable : Server doubles → Type 0
  HasTable server = IsTable doubles server.clients server.num_connected_clients server.max_clients

  -- The number of slots stays, the server runs if it ran, and the table stays well-formed.
  pub record Keeps (server server' : Server doubles) : Type 0 where
    pub limit : server'.max_clients ≡ server.max_clients
    pub still : server'.running ≡ server.running
    pub table : HasTable server → HasTable server'

  pub refl-Keeps : (server : Server doubles) → Keeps server server
  refl-Keeps server = record { limit = refl; still = refl; table = λ t. t }

  pub trans-Keeps : {a b c : Server doubles} → Keeps a b → Keeps b c → Keeps a c
  trans-Keeps ab bc = record {
    limit = bc.limit ∙ ab.limit;
    still = bc.still ∙ ab.still;
    table = λ t. bc.table (ab.table t);
  }

  pub if-Keeps :
      (b : Bool) (server x y : Server doubles)
      → (b ≡ true → Keeps server x)
      → (b ≡ false → Keeps server y)
      → Keeps server (if b then x else y)
  if-Keeps true server x y h h' = h refl
  if-Keeps false server x y h h' = h' refl

  pub send_global-Keeps :
      (sodium : Sodium) (server : Server doubles) (packet : Packet) (to : Address) (key : List ℕ)
      → Keeps server (send_global_packet doubles sodium server packet to key)
  unfolding send_global_packet
  send_global-Keeps sodium server packet to key = record {
    limit = refl;
    still = refl;
    table = λ t. t;
  }

  -- A client whose fields that the table is about stay.
  pub put-Keeps :
      (server : Server doubles) (i : ℕ) (c : ServerClient doubles)
      → i < server.max_clients
      → c.connected ≡ (client_at doubles server i).connected
      → c.loopback ≡ (client_at doubles server i).loopback
      → c.address ≡ (client_at doubles server i).address
      → c.client_id ≡ (client_at doubles server i).client_id
      → (IsServerClient doubles (client_at doubles server i) → IsServerClient doubles c)
      → Keeps server (put_client doubles server i c)
  put-Keeps server i c h connected loop address id valid_c = record {
    limit = refl;
    still = refl;
    table = λ t.
        same-IsTable doubles server.clients server.num_connected_clients server.max_clients i c t h
          connected loop address id (valid_c (t.each i));
  }

  -- What holds of a server, and of it after any packet to a client, holds after
  -- netcode_server_send_client_packet.
  pub after_sending :
      (P : Server doubles → Type 0) (sodium : Sodium) (server : Server doubles) (packet : Packet)
      (i : ℕ)
      → P server
      → ((index : ℕ) (manager : EncryptionManager doubles)
          → P (sent_to_client doubles sodium server packet i index manager))
      → P (send_client_packet doubles sodium server packet i)
  unfolding send_client_packet
  after_sending P sodium server packet i before after =
      let touching = λ (index : ℕ).
        touch doubles server.encryption_manager index (client_at doubles server i).address
          server.time in
      let sent =
        λ (index : ℕ). sent_to_client doubles sodium server packet i index (touching index).0 in
      case_of_option P (client_at doubles server i).encryption_index server
        (λ index. if not (touching index).1 then server else sent index) before
        λ index _. chosen (not (touching index).1) (sent index) (after index (touching index).0)
    where
      chosen : (b : Bool) (s : Server doubles) → P s → P (if b then server else s)
      chosen true s h = before
      chosen false s h = h

  pub send_client-Keeps :
      (sodium : Sodium) (server : Server doubles) (packet : Packet) (i : ℕ)
      → i < server.max_clients
      → Keeps server (send_client_packet doubles sodium server packet i)
  send_client-Keeps sodium server packet i h =
      let client = client_at doubles server i in
      after_sending (Keeps server) sodium server packet i (refl-Keeps server) λ index manager.
        (record {
          limit = refl;
          still = refl;
          table =
              (put-Keeps server i
                (record client {
                  sequence = (client.sequence + 1) % 2 ^ 64;
                  last_packet_send_time = server.time;
                })
                h refl refl refl refl
                λ v. record {
                  queue_in = v.queue_in;
                  idle = v.idle;
                  keyed = v.keyed;
                  unaddressed = v.unaddressed;
                }).table;
        })

  -- What sending to a client does not change, for any client.
  abbrev pub IsUnsent : {A : Type 0} → (ServerClient doubles → A) → Type 0
  IsUnsent f =
      (c : ServerClient doubles) (s : ℕ) (t : doubles.Time)
      → f (record c { sequence = s; last_packet_send_time = t }) ≡ f c

  pub send_client-same :
      {A : Type 0} (f : ServerClient doubles → A) (sodium : Sodium) (server : Server doubles)
      (packet : Packet) (i j : ℕ)
      → IsUnsent f
      → f (client_at doubles (send_client_packet doubles sodium server packet i) j)
        ≡ f (client_at doubles server j)
  send_client-same f sodium server packet i j h =
      let client = client_at doubles server i in
      after_sending (λ s. f (client_at doubles s j) ≡ f (client_at doubles server j)) sodium server
        packet i refl
        λ index manager.
          at-set_same doubles f server.clients i
            (record client {
              sequence = (client.sequence + 1) % 2 ^ 64;
              last_packet_send_time = server.time;
            })
            (h client ((client.sequence + 1) % 2 ^ 64) server.time) j

  pub send_disconnects-Keeps :
      (sodium : Sodium) (n : ℕ) (server : Server doubles) (i : ℕ)
      → i < server.max_clients
      → Keeps server (server_send_disconnects doubles sodium n server i)
  unfolding server_send_disconnects
  send_disconnects-Keeps sodium zero server i h = refl-Keeps server
  send_disconnects-Keeps sodium (suc n) server i h =
      let first = send_client-Keeps sodium server disconnect i h in
      trans-Keeps first (
        send_disconnects-Keeps sodium n (send_client_packet doubles sodium server disconnect i) i
          (subst (λ m. i < m) (sym first.limit) h))

  pub send_disconnects-same :
      {A : Type 0} (f : ServerClient doubles → A) (sodium : Sodium) (n : ℕ)
      (server : Server doubles) (i j : ℕ)
      → IsUnsent f
      → f (client_at doubles (server_send_disconnects doubles sodium n server i) j)
        ≡ f (client_at doubles server j)
  unfolding server_send_disconnects
  send_disconnects-same f sodium zero server i j h = refl
  send_disconnects-same f sodium (suc n) server i j h =
      send_disconnects-same f sodium n (send_client_packet doubles sodium server disconnect i) i j h
      ∙ send_client-same f sodium server disconnect i j h

  -- A client that is connected over the network is taken out of the table.
  emptied-Keeps :
      (server : Server doubles) (i : ℕ) (manager : EncryptionManager doubles)
      → i < server.max_clients
      → is_remote doubles server i ≡ true
      → Keeps server
          (record (put_client doubles server i
            (record (emptied doubles
              (client_at doubles server i)
              (drain_and_clear (client_at doubles server i).packet_queue).0) {
                replay_protection = netcode_io.Replay.reset;
              })) {
                encryption_manager = manager;
                num_connected_clients = server.num_connected_clients - 1;
              })
  emptied-Keeps server i manager h remote = record {
    limit = refl;
    still = refl;
    table = λ t.
        let emptied_queue =
          ap (λ r. r.0)
            (drain_and_clear_lem (client_at doubles server i).packet_queue (t.each i).queue_in) in
        gone-IsTable doubles server.clients server.num_connected_clients server.max_clients i _ t h
          (and_first _ _ remote) refl
          (record {
            queue_in = subst IsPacketQueue (sym emptied_queue) init-IsPacketQueue;
            idle =
                λ _. (false_of_not _ (and_last _ _ remote), ap contents emptied_queue ∙ init-empty);
            keyed = λ r. absurd (different (sym r));
            unaddressed = λ _. refl;
          });
  }

  pub disconnect_internal-Keeps :
      (sodium : Sodium) (server : Server doubles) (i : ℕ) (send : Bool)
      → i < server.max_clients
      → is_remote doubles server i ≡ true
      → Keeps server (disconnect_client_internal doubles sodium server i send).0
  unfolding disconnect_client_internal
  disconnect_internal-Keeps sodium server i true h remote =
      let reported = report doubles server i false in
      let quiet = send_disconnects-Keeps sodium 10 reported i h in
      trans-Keeps
        (trans-Keeps {b = reported} (record { limit = refl; still = refl; table = λ t. t }) quiet)
        (emptied-Keeps (server_send_disconnects doubles sodium 10 reported i) i _
          (subst (λ m. i < m) (sym quiet.limit) h)
          (send_disconnects-same (is_remote_client doubles) sodium 10 reported i i (λ c s t. refl)
            ∙ remote))
  disconnect_internal-Keeps sodium server i false h remote =
      let reported = report doubles server i false in
      trans-Keeps {b = reported} (record { limit = refl; still = refl; table = λ t. t })
        (emptied-Keeps reported i _ h remote)
