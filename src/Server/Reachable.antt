-- ===== src/Server/Reachable.antt =====
-- c/netcode.c: every server that is reached from netcode_server_create by the application's calls is
-- well-formed.
use netcode_io.Base.{
  ℕ, ◌≤◌, List, [], replicate, length-replicate, get_or-replicate, true, false, if◌then◌else◌,
  Bool-cases, different, first_of_if, ◌≡◌, inl, inr, refl, ap, sym, ◌∙◌, subst, arith,
}
use netcode_io.Address.{Address}
use netcode_io.Sodium.{Sodium}
use netcode_io.Queue.Refine.{init-IsPacketQueue}
use netcode_io.Time.{Doubles}
use netcode_io.Server.{Server, free_client, server_create, max_server_clients}
use netcode_io.Server.Table.{IsServerClient, at}
use netcode_io.Server.Connection.{server_stop, server_start}
use netcode_io.Server.Keeps.{HasTable, Keeps, init-empty}
use netcode_io.Server.Keeps.Update.{update-Keeps, disconnect_client-Keeps}
use netcode_io.Server.Keeps.Loopback.{
  disconnect_all-Keeps, send_packet-Keeps, receive_packet-Keeps, connect_loopback-Keeps,
  disconnect_loopback-Keeps, process_loopback-Keeps,
}
use netcode_io.Server.Empty.{IsEmpty, empty-IsTable, stop-IsEmpty, init_queues-IsEmpty}
use netcode_io.Server.Step.{
  HasNoLoopback, Step, update, start, stop, leave, leave_all, send, receive, connect_loopback,
  disconnect_loopback, process_loopback, Reach, created, later,
}

module _ (doubles : Doubles) where
  -- The table of clients is well-formed, and a server that does not run has no slots.
  pub record IsServer (server : Server doubles) : Type 0 where
    pub table : HasTable doubles server
    pub stopped : server.running ≡ false → server.max_clients ≡ 0

  kept-IsServer :
      {server server' : Server doubles}
      → IsServer server
      → Keeps doubles server server'
      → IsServer server'
  kept-IsServer valid keeps = record {
    table = keeps.table valid.table;
    stopped = λ h. keeps.limit ∙ valid.stopped (sym keeps.still ∙ h);
  }

  create-IsServer :
      (address : Address) (protocol_id : ℕ) (private_key : List ℕ) (time : doubles.Time)
      → IsServer (server_create doubles address protocol_id private_key time)
  unfolding server_create
  create-IsServer address protocol_id private_key time = record {
    table =
        empty-IsTable doubles (replicate max_server_clients (free_client doubles)) 0
          (record {
            size = length-replicate max_server_clients (free_client doubles);
            each = λ i. subst (IsServerClient doubles) (sym (free_at i)) (record {
              queue_in = init-IsPacketQueue;
              idle = λ _. (refl, init-empty);
              keyed = λ remote. absurd (different (sym remote));
              unaddressed = λ _. refl;
            });
            free = λ i. ap (λ c. c.connected) (free_at i);
          })
          (omega arith);
    stopped = λ _. refl;
  }
    where
      free_at :
          (i : ℕ)
          → at doubles (replicate max_server_clients (free_client doubles)) i ≡ free_client doubles
      free_at i = get_or-replicate max_server_clients i (free_client doubles)

  stop-IsServer :
      (sodium : Sodium) (server : Server doubles)
      → IsServer server
      → HasNoLoopback doubles sodium server
      → IsServer (server_stop doubles sodium server).0
  unfolding server_stop
  stop-IsServer sodium server valid alone = elim (Bool-cases server.running) [
    | inl running ↦
        let (empty, limit, none_left) =
          stop-IsEmpty doubles sodium server valid.table running alone in
        record {
          table = rw (limit, none_left) (empty-IsTable doubles _ 0 empty (omega arith));
          stopped = λ _. limit;
        }
    | inr idle ↦ simp (server_stop, idle) valid
  ]

  start-IsServer :
      (sodium : Sodium) (server : Server doubles) (max_clients : ℕ) (key : List ℕ)
      → IsServer server
      → max_clients ≤ max_server_clients
      → HasNoLoopback doubles sodium server
      → IsServer (server_start doubles sodium server max_clients key).0
  unfolding server_start
  start-IsServer sodium server max_clients key valid fits alone =
      let before = if server.running then server_stop doubles sodium server else (server, []) in
      let empty =
        first_of_if (λ s. IsEmpty doubles s.clients) server.running
          (server_stop doubles sodium server) (server, [])
          (λ running. (stop-IsEmpty doubles sodium server valid.table running alone).0)
          (λ idle. record {
            size = valid.table.size;
            each = valid.table.each;
            free = λ i. valid.table.free_beyond i (omega (arith, valid.stopped idle));
          }) in
      let started = record before.0 {
        running = true;
        max_clients = max_clients;
        num_connected_clients = 0;
        challenge_sequence = 0;
        challenge_key = key;
      } in
      let (empty', num, limit, still) =
        init_queues-IsEmpty doubles max_clients 0 started empty (omega (arith, fits)) in
      record {
        table = rw (num, limit) (empty-IsTable doubles _ max_clients empty' fits);
        stopped = λ idle. absurd (different (sym still ∙ idle));
      }

  Step-IsServer :
      (sodium : Sodium) {server server' : Server doubles}
      → IsServer server
      → Step doubles sodium server server'
      → IsServer server'
  Step-IsServer sodium {server} valid (update time now datagrams) =
      kept-IsServer valid (update-Keeps doubles sodium server time now datagrams valid.table)
  Step-IsServer sodium {server} valid (start max_clients key some_slot fits alone) =
      start-IsServer sodium server max_clients key valid fits alone
  Step-IsServer sodium {server} valid (stop alone) = stop-IsServer sodium server valid alone
  Step-IsServer sodium {server} valid (leave i inside over_network) =
      kept-IsServer valid (disconnect_client-Keeps doubles sodium server i inside)
  Step-IsServer sodium {server} valid leave_all =
      kept-IsServer valid (disconnect_all-Keeps doubles sodium server)
  Step-IsServer sodium {server} valid (send i packet_data inside) =
      kept-IsServer valid (send_packet-Keeps doubles sodium server i packet_data inside)
  Step-IsServer sodium {server} valid (receive i inside) =
      kept-IsServer valid (receive_packet-Keeps doubles server i inside)
  Step-IsServer sodium {server} valid (connect_loopback i client_id user_data inside running free) =
      kept-IsServer valid (connect_loopback-Keeps doubles server i client_id user_data inside free)
  Step-IsServer sodium {server} valid (disconnect_loopback i inside up loop) =
      kept-IsServer valid (disconnect_loopback-Keeps doubles server i inside up)
  Step-IsServer sodium {server} valid (process_loopback i data_at packet_sequence inside up loop) =
      kept-IsServer valid
        (process_loopback-Keeps doubles server i data_at packet_sequence inside up)

  -- Whatever calls an application makes on a server that netcode_server_create gave, in any order,
  -- each where its assertions hold, and whatever arrives from the network, as long as it neither stops
  -- nor restarts the server while a client is in loopback: between the calls the table of clients is
  -- well-formed, and a server that does not run has no slots.
  pub Reach-IsServer :
      (sodium : Sodium) (server : Server doubles) → Reach doubles sodium server → IsServer server
  Reach-IsServer sodium _ (created address protocol_id private_key time) =
      create-IsServer address protocol_id private_key time
  Reach-IsServer sodium _ (later reached step) =
      Step-IsServer sodium (Reach-IsServer sodium _ reached) step
