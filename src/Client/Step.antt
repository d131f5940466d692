-- ===== src/Client/Step.antt =====
-- c/netcode.c: the calls of a client that an application can make, each where its assertions hold.
use netcode_io.Base.{ℕ, List, true, false, Option, ◌≡◌}
use netcode_io.Base.Int.{ℤ}
use netcode_io.Sodium.{Sodium}
use netcode_io.Token.Public.{ConnectToken}
use netcode_io.Time.{Doubles}
use netcode_io.Client.{is_active, Client}
use netcode_io.Client.Connection.{
  client_create, client_disconnect, client_connect, client_send_packet, client_receive_packet,
  client_connect_loopback, client_disconnect_loopback, client_process_loopback_packet,
}
use netcode_io.Client.Update.{Datagram, client_update}

module _ (doubles : Doubles) (sodium : Sodium) where
  pub data Step (client : Client doubles) : Client doubles → Type 0 where
    update :
        (time : doubles.Time) (now : ℕ) (datagrams : List Datagram)
        → Step client (client_update doubles sodium client time now datagrams).0
    connect :
        (connect_token : List ℕ) (left : ConnectToken)
        → client.loopback ≡ false
        → Step client (client_connect doubles sodium client connect_token left).0
    leave : client.loopback ≡ false → Step client (client_disconnect doubles sodium client).0
    send :
        (packet_data : List ℕ)
        → Step client (client_send_packet doubles sodium client packet_data).0
    receive : Step client (client_receive_packet doubles client).0
    connect_loopback :
        (client_index max_clients : ℤ)
        → is_active client.state ≡ false
        → Step client (client_connect_loopback doubles client client_index max_clients)
    disconnect_loopback :
        client.loopback ≡ true → Step client (client_disconnect_loopback doubles client).0
    process_loopback :
        (data_at : Option ℕ) (packet_sequence : ℕ)
        → client.loopback ≡ true
        → Step client (client_process_loopback_packet doubles client data_at packet_sequence).0

  -- The clients between the calls.
  pub data Reach : Client doubles → Type 0 where
    created : (time : doubles.Time) → Reach (client_create doubles time)
    later : {client client' : Client doubles} → Reach client → Step client client' → Reach client'
