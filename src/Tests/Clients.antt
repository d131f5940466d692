-- ===== src/Tests/Clients.antt =====
-- A client that waits for the answer to its response, and packets for it.
use netcode_io.Base.{[], ◌∷◌, replicate, false, ◌≡◌, refl}
use netcode_io.Base.Int.{pos}
use netcode_io.Address.{Address, ipv4, address_equal}
use netcode_io.Packet.{keep_alive, payload}
use netcode_io.Queue.{init}
use netcode_io.Queue.Refine.{init-IsPacketQueue}
use netcode_io.Client.{Client, disconnected, sending_connection_response, process_packet}
use netcode_io.Client.Process.{
  IsMove, IsAccounted, process_packet-stranger, process_packet-IsMove, process_packet-IsAccounted,
}
use netcode_io.Tests.Toy.{toy_doubles}
use netcode_io.Tests.Tokens.{token, local_server}

abbrev pub waiting : Client toy_doubles
waiting = record {
  state = sending_connection_response;
  time = 2000;
  connect_start_time = 1990;
  last_packet_send_time = 1999;
  last_packet_receive_time = 1995;
  should_disconnect = false;
  should_disconnect_state = disconnected;
  sequence = 4;
  client_index = pos 0;
  max_clients = pos 0;
  server_address_index = 0;
  server_address = local_server;
  connect_token = token;
  read_packet_key = replicate 32 2;
  write_packet_key = replicate 32 1;
  replay_protection = netcode_io.Replay.reset;
  packet_receive_queue = init;
  challenge_token_sequence = 8;
  challenge_token_data = replicate 300 0;
  loopback = false;
  reported = [];
  sent = [];
}

abbrev pub stranger : Address
stranger = ipv4 10 0 0 9 40000

stranger-apart : address_equal stranger local_server ≡ false
unfolding address_equal
stranger-apart = refl

process_packet-stranger_example :
    process_packet toy_doubles waiting stranger (keep_alive (pos 3) (pos 16)) 77 1
    ≡ (waiting, 77 ∷ [])
process_packet-stranger_example =
    process_packet-stranger toy_doubles waiting stranger (keep_alive (pos 3) (pos 16)) 77 1
      stranger-apart

process_packet-IsMove_example :
    IsMove
      (keep_alive (pos 3) (pos 16))
      sending_connection_response
      (process_packet toy_doubles waiting local_server (keep_alive (pos 3) (pos 16)) 77 1).0.state
process_packet-IsMove_example =
    process_packet-IsMove toy_doubles waiting local_server (keep_alive (pos 3) (pos 16)) 77 1

process_packet-IsAccounted_example :
    IsAccounted toy_doubles waiting 77 1
      (process_packet toy_doubles waiting local_server (payload (1 ∷ [])) 77 1)
process_packet-IsAccounted_example =
    process_packet-IsAccounted toy_doubles waiting local_server (payload (1 ∷ [])) 77 1
      init-IsPacketQueue
