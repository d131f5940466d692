-- ===== src/Simulator.antt =====
-- c/netcode.c, netcode_network_simulator_*: packets on their way between clients and servers of one
-- process. A function that frees memory gives the list of what it frees as well.
pub mod Memory
pub mod Conserved
use netcode_io.Base.{
  ℕ, ◌+◌, ◌-◌, ◌%◌, List, [], ◌∷◌, ◌++◌, length, replicate, set, get_or, Bool, true, false, not,
  ◌&&◌, if◌then◌else◌, ◌==◌, Option, none, some,
}
use netcode_io.Base.Int.{pos}
use netcode_io.Address.{Address, unset, address_equal}
use netcode_io.Time.{Doubles}

abbrev pub num_packet_entries : ℕ
num_packet_entries = 65536

abbrev pub num_pending_receive_packets : ℕ
num_pending_receive_packets = 16384

-- The `float` of C: the constants 0.0f and 1000.0f, the operations that the code uses, and the
-- conversion to `double`.
pub record Floats (doubles : Doubles) : Type 1 where
  pub Float : Type 0
  pub zero_float : Float
  pub add : Float → Float → Float
  pub thousandth : Float → Float
  pub lt_float : Float → Float → Bool
  pub le_float : Float → Float → Bool
  pub to_double : Float → doubles.Time

-- `packet_data` is the memory, and `bytes` its contents.
pub record PacketEntry (doubles : Doubles) : Type 0 where
  pub from : Address
  pub to : Address
  pub delivery_time : doubles.Time
  pub packet_data : Option ℕ
  pub bytes : List ℕ

module _ (doubles : Doubles) (floats : Floats doubles) where
  -- Of the pending packets the list has those that are counted.
  pub record NetworkSimulator : Type 0 where
    pub latency_milliseconds : floats.Float
    pub jitter_milliseconds : floats.Float
    pub packet_loss_percent : floats.Float
    pub duplicate_packet_percent : floats.Float
    pub time : doubles.Time
    pub current_index : ℕ
    pub packet_entries : List (PacketEntry doubles)
    pub pending_receive_packets : List (PacketEntry doubles)

  -- An entry of zeros.
  abbrev pub empty_entry : PacketEntry doubles
  empty_entry = record {
    from = unset;
    to = unset;
    delivery_time = doubles.from_int (pos 0);
    packet_data = none;
    bytes = [];
  }

  unfoldable pub simulator_create : NetworkSimulator
  simulator_create = record {
    latency_milliseconds = floats.zero_float;
    jitter_milliseconds = floats.zero_float;
    packet_loss_percent = floats.zero_float;
    duplicate_packet_percent = floats.zero_float;
    time = doubles.from_int (pos 0);
    current_index = 0;
    packet_entries = replicate num_packet_entries empty_entry;
    pending_receive_packets = [];
  }

  -- The memory of the entries, in their order.
  unfoldable pub memories : List (PacketEntry doubles) → List ℕ
  memories [] = []
  memories (e ∷ entries) = elim e.packet_data [
    | none ↦ memories entries
    | some packet_data ↦ packet_data ∷ memories entries
  ]

  -- A null pointer may be freed, and is left out of the list.
  unfoldable pub simulator_reset : NetworkSimulator → NetworkSimulator × List ℕ
  simulator_reset simulator = (
    record simulator {
      packet_entries = replicate num_packet_entries empty_entry;
      pending_receive_packets = [];
      current_index = 0;
    },
    memories simulator.packet_entries ++ memories simulator.pending_receive_packets,
  )

  -- `packet_data` is what the allocation gives.
  unfoldable pub queue_packet :
      NetworkSimulator → Address → Address → List ℕ → floats.Float → ℕ → NetworkSimulator
  queue_packet simulator from to bytes delay packet_data = record simulator {
    packet_entries = set simulator.packet_entries simulator.current_index (record {
      from = from;
      to = to;
      delivery_time = doubles.sum simulator.time (floats.to_double delay);
      packet_data = some packet_data;
      bytes = bytes;
    });
    current_index = (simulator.current_index + 1) % num_packet_entries;
  }

  abbrev pub current : NetworkSimulator → PacketEntry doubles
  current simulator = get_or simulator.packet_entries simulator.current_index empty_entry

  abbrev pub memory_of : PacketEntry doubles → List ℕ
  memory_of e = elim e.packet_data [ none ↦ [] | some packet_data ↦ packet_data ∷ [] ]

  -- What netcode_random_float and the allocations give in one call of
  -- netcode_network_simulator_send_packet, in the order of the calls.
  pub record Draws : Type 0 where
    pub loss : floats.Float
    pub jitter : floats.Float
    pub packet_data : ℕ
    pub duplicate : floats.Float
    pub duplicate_delay : floats.Float
    pub duplicate_data : ℕ

  abbrev pub delay_of : NetworkSimulator → Draws → floats.Float
  delay_of simulator draws =
      if floats.lt_float floats.zero_float simulator.jitter_milliseconds
      then floats.add (floats.thousandth simulator.latency_milliseconds)
          (floats.thousandth draws.jitter)
      else floats.thousandth simulator.latency_milliseconds

  abbrev pub is_duplicated : NetworkSimulator → Draws → Bool
  is_duplicated simulator draws = floats.le_float draws.duplicate simulator.duplicate_packet_percent

  -- `set` writes the packet over the freed one.
  unfoldable pub simulator_send_packet :
      NetworkSimulator → Address → Address → List ℕ → Draws → NetworkSimulator × List ℕ
  simulator_send_packet simulator from to bytes draws =
      let queued =
        queue_packet simulator from to bytes (delay_of simulator draws) draws.packet_data in
      if floats.le_float draws.loss simulator.packet_loss_percent then (simulator, []) else (
        if is_duplicated simulator draws
            then queue_packet queued from to bytes
                (floats.add (delay_of simulator draws) draws.duplicate_delay) draws.duplicate_data
            else queued,
        memory_of (current simulator),
      )

  abbrev pub has_data : PacketEntry doubles → Bool
  has_data e = elim e.packet_data [ none ↦ false | some packet_data ↦ true ]

  abbrev pub without_data : PacketEntry doubles → PacketEntry doubles
  without_data e = record e { packet_data = none }

  -- A packet's sender, memory and bytes.
  abbrev pub received_of : PacketEntry doubles → List (Address × ℕ × List ℕ)
  received_of e = elim e.packet_data [
    | none ↦ []
    | some packet_data ↦ (e.from, packet_data, e.bytes) ∷ []
  ]

  -- The loop over the pending packets, with room for `room` more.
  unfoldable pub collect :
      Address
      → ℕ
      → List (PacketEntry doubles)
      → List (PacketEntry doubles) × List (Address × ℕ × List ℕ)
  collect to room [] = ([], [])
  collect to room (e ∷ entries) =
      let takes = has_data e && address_equal e.to to in
      let (entries', received) = collect to (if takes then room - 1 else room) entries in
      if room == 0 then (e ∷ entries, []) else (
        (if takes then without_data e else e) ∷ entries',
        (if takes then received_of e else []) ++ received,
      )

  unfoldable pub simulator_receive_packets :
      NetworkSimulator → Address → ℕ → NetworkSimulator × List (Address × ℕ × List ℕ)
  simulator_receive_packets simulator to max_packets =
      let (pending, received) = collect to max_packets simulator.pending_receive_packets in
      (record simulator { pending_receive_packets = pending }, received)

  -- The second loop of the update: the entries, and the pending packets so far.
  unfoldable pub deliver :
      doubles.Time
      → List (PacketEntry doubles)
      → List (PacketEntry doubles)
      → List (PacketEntry doubles) × List (PacketEntry doubles)
  deliver time [] pending = ([], pending)
  deliver time (e ∷ entries) pending =
      let moves = has_data e && doubles.le e.delivery_time time in
      let (entries', pending') =
        deliver time entries (if moves then pending ++ (e ∷ []) else pending) in
      if has_data e && length pending == num_pending_receive_packets
      then (e ∷ entries, pending)
      else ((if moves then without_data e else e) ∷ entries', pending')

  unfoldable pub simulator_update : NetworkSimulator → doubles.Time → NetworkSimulator × List ℕ
  simulator_update simulator time =
      let (entries, pending) = deliver time simulator.packet_entries [] in
      (
        record simulator {
          time = time;
          packet_entries = entries;
          pending_receive_packets = pending;
        },
        memories simulator.pending_receive_packets,
      )
