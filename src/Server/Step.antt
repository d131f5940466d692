-- ===== src/Server/Step.antt =====
-- c/netcode.c: the calls of a server that an application can make, each where its assertions hold.
use netcode_io.Base.{ℕ, ◌<◌, ◌≤◌, List, true, false, Option, ◌≡◌}
use netcode_io.Address.{Address}
use netcode_io.Sodium.{Sodium}
use netcode_io.Time.{Doubles}
use netcode_io.Client.Update.{Datagram}
use netcode_io.Server.{Server, client_at, server_create, max_server_clients}
use netcode_io.Server.Connection.{
  disconnect_client, disconnect_all_clients, server_stop, server_start,
}
use netcode_io.Server.Process.{server_update}
use netcode_io.Server.Loopback.{
  server_send_packet, server_receive_packet, connect_loopback_client, disconnect_loopback_client,
  server_process_loopback_packet,
}

module _ (doubles : Doubles) (sodium : Sodium) where
  -- No client is in loopback. The application has to see to that before it stops a server or starts
  -- one that is running.
  abbrev pub HasNoLoopback : Server doubles → Type 0
  HasNoLoopback server = (i : ℕ) → (client_at doubles server i).loopback ≡ false

  pub data Step (server : Server doubles) : Server doubles → Type 0 where
    update :
        (time : doubles.Time) (now : ℕ) (datagrams : List Datagram)
        → Step server (server_update doubles sodium server time now datagrams).0
    start :
        (max_clients : ℕ) (key : List ℕ)
        → 0 < max_clients
        → max_clients ≤ max_server_clients
        → HasNoLoopback server
        → Step server (server_start doubles sodium server max_clients key).0
    stop : HasNoLoopback server → Step server (server_stop doubles sodium server).0
    leave :
        (i : ℕ)
        → i < server.max_clients
        → (client_at doubles server i).loopback ≡ false
        → Step server (disconnect_client doubles sodium server i).0
    leave_all : Step server (disconnect_all_clients doubles sodium server).0
    send :
        (i : ℕ) (packet_data : List ℕ)
        → i < server.max_clients
        → Step server (server_send_packet doubles sodium server i packet_data).0
    receive :
        (i : ℕ) → i < server.max_clients → Step server (server_receive_packet doubles server i).0
    connect_loopback :
        (i client_id : ℕ) (user_data : Option (List ℕ))
        → i < server.max_clients
        → server.running ≡ true
        → (client_at doubles server i).connected ≡ false
        → Step server (connect_loopback_client doubles server i client_id user_data)
    disconnect_loopback :
        (i : ℕ)
        → i < server.max_clients
        → (client_at doubles server i).connected ≡ true
        → (client_at doubles server i).loopback ≡ true
        → Step server (disconnect_loopback_client doubles server i).0
    process_loopback :
        (i : ℕ) (data_at : Option ℕ) (packet_sequence : ℕ)
        → i < server.max_clients
        → (client_at doubles server i).connected ≡ true
        → (client_at doubles server i).loopback ≡ true
        → Step server (server_process_loopback_packet doubles server i data_at packet_sequence).0

  -- The servers between the calls.
  pub data Reach : Server doubles → Type 0 where
    created :
        (address : Address) (protocol_id : ℕ) (private_key : List ℕ) (time : doubles.Time)
        → Reach (server_create doubles address protocol_id private_key time)
    later : {server server' : Server doubles} → Reach server → Step server server' → Reach server'
