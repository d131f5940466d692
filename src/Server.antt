-- ===== src/Server.antt =====
-- c/netcode.c, struct netcode_server_t: the server's state, its table of clients, and the searches
-- in that table.
pub mod Connection
pub mod Handshake
pub mod Process
pub mod Loopback
pub mod Table
pub mod Keeps
pub mod Empty
pub mod Step
pub mod Reachable
pub mod Admission
pub mod Room
use netcode_io.Base.{
  ℕ, ◌^◌, if◌then◌else◌, List, [], replicate, set, get_or, Bool, true, false, not, ◌&&◌, ◌==◌,
  Option, none,
}
use netcode_io.Base.Int.{ℤ, pos}
use netcode_io.Base.Search.{search}
use netcode_io.Address.{Address, unset, address_equal}
use netcode_io.Sodium.{key_bytes}
use netcode_io.Token.{user_data_bytes}
use netcode_io.Replay.{ReplayProtection}
use netcode_io.Queue.{PacketQueue, init}
use netcode_io.Time.{Doubles}
use netcode_io.Encryption.{EncryptionManager}
use netcode_io.TokenEntries.{ConnectTokenEntry}

abbrev pub max_server_clients : ℕ
max_server_clients = 256

-- One index of the arrays `client_connected` to `client_address`. The encryption index -1 is `none`.
pub record ServerClient (doubles : Doubles) : Type 0 where
  pub connected : Bool
  pub timeout : ℤ
  pub loopback : Bool
  pub confirmed : Bool
  pub encryption_index : Option ℕ
  pub client_id : ℕ
  pub sequence : ℕ
  pub last_packet_send_time : doubles.Time
  pub last_packet_receive_time : doubles.Time
  pub user_data : List ℕ
  pub replay_protection : ReplayProtection
  pub packet_queue : PacketQueue
  pub address : Address

-- `reported` lists the calls of the connect and disconnect callback, and `sent` the packets handed to
-- the socket or the simulator with their destination, the latest first.
pub record Server (doubles : Doubles) : Type 0 where
  pub address : Address
  pub flags : ℕ
  pub protocol_id : ℕ
  pub time : doubles.Time
  pub running : Bool
  pub max_clients : ℕ
  pub num_connected_clients : ℕ
  pub global_sequence : ℕ
  pub private_key : List ℕ
  pub challenge_sequence : ℕ
  pub challenge_key : List ℕ
  pub clients : List (ServerClient doubles)
  pub connect_token_entries : List (ConnectTokenEntry doubles)
  pub encryption_manager : EncryptionManager doubles
  pub reported : List (ℕ × Bool)
  pub sent : List (Address × List ℕ)

abbrev pub is_unset : Address → Bool
is_unset a = elim a [ unset ↦ true | _ ↦ false ]

module _ (doubles : Doubles) where
  -- An index after `netcode_server_create_internal`, which leaves out the timeout: it is read only once
  -- `netcode_server_connect_client` has set it.
  abbrev pub free_client : ServerClient doubles
  free_client = record {
    connected = false;
    timeout = pos 0;
    loopback = false;
    confirmed = false;
    encryption_index = none;
    client_id = 0;
    sequence = 0;
    last_packet_send_time = doubles.from_int (pos 0);
    last_packet_receive_time = doubles.from_int (pos 0);
    user_data = replicate user_data_bytes 0;
    replay_protection = netcode_io.Replay.reset;
    packet_queue = init;
    address = unset;
  }

  -- Every index that the functions are given is below 256.
  abbrev pub client_at : Server doubles → ℕ → ServerClient doubles
  client_at server i = get_or server.clients i free_client

  abbrev pub put_client : Server doubles → ℕ → ServerClient doubles → Server doubles
  put_client server i client = record server { clients = set server.clients i client }

  unfoldable pub find_client_index_by_id : Server doubles → ℕ → Option ℕ
  find_client_index_by_id server client_id =
      search (λ i. (client_at server i).connected && (client_at server i).client_id == client_id)
        server.max_clients 0

  unfoldable pub find_client_index_by_address : Server doubles → Address → Option ℕ
  find_client_index_by_address server address =
      if is_unset address
      then none
      else search
          (λ i.
            (client_at server i).connected && address_equal (client_at server i).address address)
          server.max_clients 0

  unfoldable pub find_free_client_index : Server doubles → Option ℕ
  find_free_client_index server =
      search (λ i. not (client_at server i).connected) server.max_clients 0

  -- The struct that `netcode_server_create_internal` fills, once it has an address, a socket or a
  -- simulator, and memory.
  unfoldable pub server_create : Address → ℕ → List ℕ → doubles.Time → Server doubles
  server_create server_address protocol_id private_key time = record {
    address = server_address;
    flags = 0;
    protocol_id = protocol_id;
    time = time;
    running = false;
    max_clients = 0;
    num_connected_clients = 0;
    global_sequence = 2 ^ 63;
    private_key = private_key;
    challenge_sequence = 0;
    challenge_key = replicate key_bytes 0;
    clients = replicate max_server_clients free_client;
    connect_token_entries = netcode_io.TokenEntries.reset doubles;
    encryption_manager = netcode_io.Encryption.reset doubles;
    reported = [];
    sent = [];
  }
