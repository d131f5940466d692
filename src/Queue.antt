-- ===== src/Queue.antt =====
-- c/netcode.c, struct netcode_packet_queue_t: the ring of packets that a client, or a client's slot
-- of a server, holds for its application.
pub mod Refine
pub mod Drain
use netcode_io.Base.{
  ℕ, zero, suc, ◌+◌, ◌-◌, ◌%◌, List, [], ◌∷◌, Bool, true, false, if◌then◌else◌, ◌==◌, get_or, set,
  replicate, Option, none, some,
}

abbrev pub packet_queue_size : ℕ
packet_queue_size = 256

-- A packet's memory is a number, and an entry that nothing was stored in yet is 0, as `memset` leaves
-- it. netcode_packet_queue_push asserts that no null pointer is stored. The allocator's three fields
-- are left out: what they are asked to free is a result of the operations.
pub record PacketQueue : Type 0 where
  pub num_packets : ℕ
  pub start_index : ℕ
  pub packet_data : List ℕ
  pub packet_sequence : List ℕ

unfoldable pub init : PacketQueue
init = record {
  num_packets = 0;
  start_index = 0;
  packet_data = replicate packet_queue_size 0;
  packet_sequence = replicate packet_queue_size 0;
}

-- The loop of `netcode_packet_queue_clear`: what it frees, from entry `i` on, with `n` to go.
unfoldable pub freed : ℕ → ℕ → List ℕ → List ℕ
freed zero i packet_data = []
freed (suc n) i packet_data = get_or packet_data i 0 ∷ freed n (i + 1) packet_data

-- The cleared queue, and what was freed.
unfoldable pub clear : PacketQueue → PacketQueue × List ℕ
clear queue = (init, freed queue.num_packets 0 queue.packet_data)

-- Behind the test of `netcode_packet_queue_push`.
abbrev pub stored : PacketQueue → ℕ → ℕ → PacketQueue
stored queue packet_data packet_sequence =
    let index = (queue.start_index + queue.num_packets) % packet_queue_size in
    record {
      num_packets = queue.num_packets + 1;
      start_index = queue.start_index;
      packet_data = set queue.packet_data index packet_data;
      packet_sequence = set queue.packet_sequence index packet_sequence;
    }

-- The queue, what was freed, and whether the packet was taken.
unfoldable pub push : PacketQueue → ℕ → ℕ → PacketQueue × List ℕ × Bool
push queue packet_data packet_sequence =
    if queue.num_packets == packet_queue_size
    then (queue, packet_data ∷ [], false)
    else (stored queue packet_data packet_sequence, [], true)

abbrev pub shortened : PacketQueue → PacketQueue
shortened queue = record queue {
  start_index = (queue.start_index + 1) % packet_queue_size;
  num_packets = queue.num_packets - 1;
}

-- The queue, and the packet with its sequence number; `none` is the null pointer.
unfoldable pub pop : PacketQueue → PacketQueue × Option (ℕ × ℕ)
pop queue = if queue.num_packets == 0 then (queue, none) else (
  shortened queue,
  some (
    get_or queue.packet_data queue.start_index 0,
    get_or queue.packet_sequence queue.start_index 0,
  ),
)
