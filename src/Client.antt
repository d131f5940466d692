-- ===== src/Client.antt =====
-- c/netcode.c, struct netcode_client_t: the part of the client's state that received packets change,
-- and the functions on it.
pub mod Process
pub mod Connection
pub mod Update
pub mod Invariant
pub mod Calls
pub mod Step
pub mod Reachable
pub mod GiveUp
use netcode_io.Base.{
  ℕ, ◌+◌, ◌<◌, ◌≤◌, List, [], ◌∷◌, ◌++◌, length, replicate, Bool, true, false, ◌&&◌, ◌||◌,
  if◌then◌else◌, ltb, leb, ◌==◌, get_or,
}
use netcode_io.Base.Int.{ℤ, negsuc}
use netcode_io.Address.{Address, unset, address_equal}
use netcode_io.Token.{challenge_token_bytes}
use netcode_io.Token.Public.{ConnectToken}
use netcode_io.Packet.{
  Packet, request, denied, challenge, response, keep_alive, payload, disconnect,
}
use netcode_io.Replay.{ReplayProtection}
use netcode_io.Queue.{PacketQueue, push}
use netcode_io.Time.{Doubles}

-- The ten states of c/netcode.h, from -6 to 3.
pub data ClientState : Type 0 where
  connect_token_expired : ClientState
  invalid_connect_token : ClientState
  connection_timed_out : ClientState
  connection_response_timed_out : ClientState
  connection_request_timed_out : ClientState
  connection_denied : ClientState
  disconnected : ClientState
  sending_connection_request : ClientState
  sending_connection_response : ClientState
  connected : ClientState

-- The state's number in c/netcode.h, and 6.
abbrev pub state_number : ClientState → ℕ
state_number connect_token_expired = 0
state_number invalid_connect_token = 1
state_number connection_timed_out = 2
state_number connection_response_timed_out = 3
state_number connection_request_timed_out = 4
state_number connection_denied = 5
state_number disconnected = 6
state_number sending_connection_request = 7
state_number sending_connection_response = 8
state_number connected = 9

-- Greater than NETCODE_CLIENT_STATE_DISCONNECTED.
abbrev pub is_active : ClientState → Bool
is_active state = ltb 6 (state_number state)

abbrev pub is_requesting : ClientState → Bool
is_requesting sending_connection_request = true
is_requesting _ = false

abbrev pub is_responding : ClientState → Bool
is_responding sending_connection_response = true
is_responding _ = false

abbrev pub is_connected : ClientState → Bool
is_connected connected = true
is_connected _ = false

-- `context` is the two keys. `reported` lists the calls of the state change callback, and `sent` the
-- packets handed to the socket or the simulator with their destination, the latest first.
pub record Client (doubles : Doubles) : Type 0 where
  pub state : ClientState
  pub time : doubles.Time
  pub connect_start_time : doubles.Time
  pub last_packet_send_time : doubles.Time
  pub last_packet_receive_time : doubles.Time
  pub should_disconnect : Bool
  pub should_disconnect_state : ClientState
  pub sequence : ℕ
  pub client_index : ℤ
  pub max_clients : ℤ
  pub server_address_index : ℕ
  pub server_address : Address
  pub connect_token : ConnectToken
  pub read_packet_key : List ℕ
  pub write_packet_key : List ℕ
  pub replay_protection : ReplayProtection
  pub packet_receive_queue : PacketQueue
  pub challenge_token_sequence : ℕ
  pub challenge_token_data : List ℕ
  pub loopback : Bool
  pub reported : List (ClientState × ClientState)
  pub sent : List (Address × List ℕ)

module _ (doubles : Doubles) where
  unfoldable pub set_state : Client doubles → ClientState → Client doubles
  set_state client client_state = record client {
    state = client_state;
    reported = (client.state, client_state) ∷ client.reported;
  }

  unfoldable pub reset_before_next_connect : Client doubles → Client doubles
  reset_before_next_connect client = record client {
    connect_start_time = client.time;
    last_packet_send_time = doubles.sum client.time (doubles.from_int (negsuc 0));
    last_packet_receive_time = client.time;
    should_disconnect = false;
    should_disconnect_state = disconnected;
    challenge_token_sequence = 0;
    challenge_token_data = replicate challenge_token_bytes 0;
    replay_protection = netcode_io.Replay.reset;
  }

  -- Whether there is a next server.
  unfoldable pub connect_to_next_server : Client doubles → Client doubles × Bool
  connect_to_next_server client =
      if leb (length client.connect_token.server_addresses) (client.server_address_index + 1)
      then (client, false)
      else (
        set_state
            (reset_before_next_connect (record client {
              server_address_index = client.server_address_index + 1;
              server_address =
                  get_or client.connect_token.server_addresses (client.server_address_index + 1)
                    unset;
            }))
            sending_connection_request,
        true,
      )

  abbrev pub heard : Client doubles → Client doubles
  heard client = record client { last_packet_receive_time = client.time }

  -- The cases of the switch. `data_at` is the packet's memory, and the list holds what is freed.
  unfoldable pub process_packet :
      Client doubles → Address → Packet → ℕ → ℕ → Client doubles × List ℕ
  process_packet client from denied data_at sequence =
      if (is_requesting client.state || is_responding client.state)
        && address_equal from client.server_address
      then (
        heard (record client {
          should_disconnect = true;
          should_disconnect_state = connection_denied;
        }),
        data_at ∷ [],
      )
      else (client, data_at ∷ [])
  process_packet client from (challenge token_sequence token_data) data_at sequence =
      if is_requesting client.state && address_equal from client.server_address
      then (
        set_state
            (heard (record client {
              challenge_token_sequence = token_sequence;
              challenge_token_data = token_data;
            }))
            sending_connection_response,
        data_at ∷ [],
      )
      else (client, data_at ∷ [])
  process_packet client from (keep_alive client_index max_clients) data_at sequence =
      if address_equal from client.server_address
      then (if is_connected client.state
          then (heard client, data_at ∷ [])
          else if is_responding client.state
          then (
            set_state
                (heard (record client { client_index = client_index; max_clients = max_clients }))
                connected,
            data_at ∷ [],
          )
          else (client, data_at ∷ []))
      else (client, data_at ∷ [])
  process_packet client from (payload bytes) data_at sequence =
      if is_connected client.state && address_equal from client.server_address
      then (let (queue, freed, taken) = push client.packet_receive_queue data_at sequence in
          (heard (record client { packet_receive_queue = queue }), freed))
      else (client, data_at ∷ [])
  process_packet client from disconnect data_at sequence =
      if is_connected client.state && address_equal from client.server_address
      then (
        heard (record client { should_disconnect = true; should_disconnect_state = disconnected }),
        data_at ∷ [],
      )
      else (client, data_at ∷ [])
  process_packet client from _ data_at sequence = (client, data_at ∷ [])
