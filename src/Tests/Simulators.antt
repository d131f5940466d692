-- ===== src/Tests/Simulators.antt =====
-- Simulators with concrete packets; the floats are natural numbers.
use netcode_io.Base.{
  ℕ, ◌+◌, ◌/◌, ◌<◌, ◌≤◌, [], ◌∷◌, length, length-replicate, some, ltb, leb, ◌≡◌, arith,
}
use netcode_io.Simulator.{
  num_packet_entries, Floats, PacketEntry, NetworkSimulator, empty_entry, simulator_create,
  simulator_reset, simulator_send_packet, Draws, simulator_receive_packets, simulator_update,
}
use netcode_io.Simulator.Memory.{count, held, received_memories}
use netcode_io.Simulator.Conserved.{conserves, allocated, leaked, send_packet_lem}
use netcode_io.Tests.Toy.{toy_doubles}
use netcode_io.Tests.Tokens.{local_server}
use netcode_io.Tests.Clients.{stranger}

abbrev pub toy_floats : Floats toy_doubles
toy_floats = record {
  Float = ℕ;
  zero_float = 0;
  add = λ x y. x + y;
  thousandth = λ x. x / 1000;
  lt_float = ltb;
  le_float = leb;
  to_double = λ x. 1000 + x;
}

abbrev pub on_the_way : PacketEntry toy_doubles
on_the_way = record {
  from = stranger;
  to = local_server;
  delivery_time = 1010;
  packet_data = some 71;
  bytes = 1 ∷ 2 ∷ [];
}

abbrev pub busy_simulator : NetworkSimulator toy_doubles toy_floats
busy_simulator = record {
  latency_milliseconds = 3000;
  jitter_milliseconds = 0;
  packet_loss_percent = 1;
  duplicate_packet_percent = 50;
  time = 1000;
  current_index = 1;
  packet_entries = on_the_way ∷ empty_entry toy_doubles toy_floats ∷ [];
  pending_receive_packets = record on_the_way { packet_data = some 72 } ∷ [];
}

conserves_example :
    (held toy_doubles toy_floats 71 (simulator_update toy_doubles toy_floats busy_simulator 1020).0
        + count 71 (simulator_update toy_doubles toy_floats busy_simulator 1020).1
      ≡ held toy_doubles toy_floats 71 busy_simulator)
    × (held toy_doubles toy_floats 71
            (simulator_receive_packets toy_doubles toy_floats busy_simulator local_server 4).0
          + count 71 (
              received_memories toy_doubles toy_floats
                (simulator_receive_packets toy_doubles toy_floats busy_simulator local_server 4).1)
        ≡ held toy_doubles toy_floats 71 busy_simulator)
    × (length (simulator_receive_packets toy_doubles toy_floats busy_simulator local_server 4).1
        ≤ 4)
    × (held toy_doubles toy_floats 71 (simulator_reset toy_doubles toy_floats busy_simulator).0 ≡ 0)
    × (count 71 (simulator_reset toy_doubles toy_floats busy_simulator).1
        ≡ held toy_doubles toy_floats 71 busy_simulator)
conserves_example = conserves toy_doubles toy_floats busy_simulator 1020 local_server 4 71

abbrev pub new_simulator : NetworkSimulator toy_doubles toy_floats
new_simulator = simulator_create toy_doubles toy_floats

abbrev pub draws : Draws toy_doubles toy_floats
draws = record {
  loss = 40;
  jitter = 0;
  packet_data = 71;
  duplicate = 90;
  duplicate_delay = 1;
  duplicate_data = 72;
}

new-size : length new_simulator.packet_entries ≡ num_packet_entries
unfolding simulator_create
new-size = length-replicate num_packet_entries (empty_entry toy_doubles toy_floats)

new-inside : new_simulator.current_index < num_packet_entries
unfolding simulator_create
new-inside = omega arith

send_packet_lem_example :
    held toy_doubles toy_floats 71
        (simulator_send_packet toy_doubles toy_floats new_simulator stranger local_server
          (1 ∷ [])
          draws).0
      + count 71
          (simulator_send_packet toy_doubles toy_floats new_simulator stranger local_server
            (1 ∷ [])
            draws).1
      + count 71 (leaked toy_doubles toy_floats new_simulator draws)
    ≡ held toy_doubles toy_floats 71 new_simulator
      + count 71 (allocated toy_doubles toy_floats new_simulator draws)
send_packet_lem_example =
    send_packet_lem toy_doubles toy_floats new_simulator stranger local_server (1 ∷ []) draws 71
      new-size new-inside
