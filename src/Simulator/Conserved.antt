-- ===== src/Simulator/Conserved.antt =====
-- c/netcode.c, netcode_network_simulator_*: which functions keep account of all memory, and which one
-- does not.
use netcode_io.Base.{
  ℕ, zero, suc, ◌+◌, ◌-◌, ◌%◌, ◌<◌, ◌≤◌, List, [], ◌∷◌, ◌++◌, length, length-append, length-set,
  replicate, get_or, get_or-set_ne, Bool, true, false, ◌&&◌, if◌then◌else◌, ◌==◌, Bool-cases,
  different, some, Option-cases, ◌≡◌, ◌≢◌, inl, inr, refl, ap, sym, ◌∙◌, arith, case_of_if,
}
use netcode_io.Address.{Address, address_equal}
use netcode_io.Time.{Doubles}
use netcode_io.Simulator.{
  num_packet_entries, Floats, PacketEntry, NetworkSimulator, memories, empty_entry, current,
  memory_of, queue_packet, has_data, without_data, received_of, simulator_reset,
  simulator_send_packet, delay_of, is_duplicated, Draws, collect, simulator_receive_packets,
  simulator_update,
}
use netcode_io.Simulator.Memory.{
  count, count-append, held, memories-set, collect-count, deliver-count, received_memories,
}

module _ (doubles : Doubles) (floats : Floats doubles) where
  memories-replicate :
      (d n : ℕ) → count d (memories doubles floats (replicate n (empty_entry doubles floats))) ≡ 0
  unfolding memories
  memories-replicate d zero = refl
  memories-replicate d (suc n) = memories-replicate d n

  received-le : (e : PacketEntry doubles) → length (received_of doubles floats e) ≤ 1
  received-le e = elim (Option-cases e.packet_data) [
    | inl h ↦ rw h (omega arith)
    | inr (x, h) ↦ rw h (omega arith)
  ]

  taken-le :
      (e : PacketEntry doubles) (received : List (Address × ℕ × List ℕ)) (room : ℕ) (b : Bool)
      → (room == 0) ≡ false
      → length received ≤ (if b then room - 1 else room)
      → length ((if b then received_of doubles floats e else []) ++ received) ≤ room
  taken-le e received room true some_room h =
      let positive : 0 < room = ground (arith, some_room) in
      omega
        (arith, positive, h, received-le e, length-append (received_of doubles floats e) received)
  taken-le e received room false some_room h = h

  collect-le :
      (to : Address) (room : ℕ) (es : List (PacketEntry doubles))
      → length (collect doubles floats to room es).1 ≤ room
  unfolding collect
  collect-le to room [] = omega arith
  collect-le to room (e ∷ es) =
      let takes = has_data doubles floats e && address_equal e.to to in
      let rest = collect doubles floats to (if takes then room - 1 else room) es in
      case_of_if
        (λ (r : List (PacketEntry doubles) × List (Address × ℕ × List ℕ)). length r.1 ≤ room)
        (room == 0) (e ∷ es, [])
        (
          (if takes then without_data doubles floats e else e) ∷ rest.0,
          (if takes then received_of doubles floats e else []) ++ rest.1,
        )
        (λ _. omega arith)
        (λ some_room.
          taken-le e rest.1 room takes some_room
            (collect-le to (if takes then room - 1 else room) es))

  -- No memory is lost or doubled: after an update, the memory that the simulator holds and what the
  -- update frees is what it held before; so it is after netcode_network_simulator_receive_packets with
  -- what that hands over, which is at most as much as it may, and after a reset, which holds nothing
  -- any more.
  pub conserves :
      (simulator : NetworkSimulator doubles floats) (time : doubles.Time) (to : Address)
      (max_packets d : ℕ)
      → (held doubles floats d (simulator_update doubles floats simulator time).0
            + count d (simulator_update doubles floats simulator time).1
          ≡ held doubles floats d simulator)
        × (held doubles floats d
                (simulator_receive_packets doubles floats simulator to max_packets).0
              + count d (
                  received_memories doubles floats
                    (simulator_receive_packets doubles floats simulator to max_packets).1)
            ≡ held doubles floats d simulator)
        × (length (simulator_receive_packets doubles floats simulator to max_packets).1
            ≤ max_packets)
        × (held doubles floats d (simulator_reset doubles floats simulator).0 ≡ 0)
        × (count d (simulator_reset doubles floats simulator).1 ≡ held doubles floats d simulator)
  unfolding simulator_update simulator_receive_packets simulator_reset memories
  conserves simulator time to max_packets d = (
    omega (arith, deliver-count doubles floats d time simulator.packet_entries []),
    omega (arith, collect-count doubles floats d to max_packets simulator.pending_receive_packets),
    collect-le to max_packets simulator.pending_receive_packets,
    omega (arith, memories-replicate d num_packet_entries),
    count-append d (memories doubles floats simulator.packet_entries)
        (memories doubles floats simulator.pending_receive_packets),
  )

  -- The entry that a duplicate is written to.
  abbrev pub next_entry : NetworkSimulator doubles floats → PacketEntry doubles
  next_entry simulator =
      get_or simulator.packet_entries ((simulator.current_index + 1) % num_packet_entries)
        (empty_entry doubles floats)

  queue-count :
      (d : ℕ) (simulator : NetworkSimulator doubles floats) (from to : Address) (bytes : List ℕ)
      (delay : floats.Float) (data_at : ℕ)
      → simulator.current_index < length simulator.packet_entries
      → held doubles floats d (queue_packet doubles floats simulator from to bytes delay data_at)
          + count d (memory_of doubles floats (current doubles floats simulator))
        ≡ held doubles floats d simulator + count d (data_at ∷ [])
  unfolding queue_packet
  queue-count d simulator from to bytes delay data_at h = omega (
    arith,
    memories-set doubles floats d simulator.packet_entries simulator.current_index
        (record {
          from = from;
          to = to;
          delivery_time = doubles.sum simulator.time (floats.to_double delay);
          packet_data = some data_at;
          bytes = bytes;
        })
        h,
  )

  inside_next :
      (simulator : NetworkSimulator doubles floats)
      → length simulator.packet_entries ≡ num_packet_entries
      → (i : ℕ) → simulator.current_index ≡ (i + 1) % num_packet_entries
      → simulator.current_index < length simulator.packet_entries
  inside_next simulator size i e = omega (arith, size, e)

  -- A packet that is lost, one that is sent once, and one that is sent twice.
  send_packet_cases :
      (simulator : NetworkSimulator doubles floats) (from to : Address) (bytes : List ℕ)
      (draws : Draws doubles floats) (d : ℕ)
      → length simulator.packet_entries ≡ num_packet_entries
      → simulator.current_index < num_packet_entries
      → (floats.le_float draws.loss simulator.packet_loss_percent ≡ true
          → simulator_send_packet doubles floats simulator from to bytes draws ≡ (simulator, []))
        × (floats.le_float draws.loss simulator.packet_loss_percent ≡ false
            → is_duplicated doubles floats simulator draws ≡ false
            → held doubles floats d
                  (simulator_send_packet doubles floats simulator from to bytes draws).0
                + count d (simulator_send_packet doubles floats simulator from to bytes draws).1
              ≡ held doubles floats d simulator + count d (draws.packet_data ∷ []))
        × (floats.le_float draws.loss simulator.packet_loss_percent ≡ false
            → is_duplicated doubles floats simulator draws ≡ true
            → held doubles floats d
                  (simulator_send_packet doubles floats simulator from to bytes draws).0
                + count d (simulator_send_packet doubles floats simulator from to bytes draws).1
                + count d (memory_of doubles floats (next_entry simulator))
              ≡ held doubles floats d simulator
                + count d (draws.packet_data ∷ draws.duplicate_data ∷ []))
  unfolding simulator_send_packet queue_packet
  send_packet_cases simulator from to bytes draws d size inside =
      let queued =
        queue_packet doubles floats simulator from to bytes
          (delay_of doubles floats simulator draws) draws.packet_data in
      let twice =
        queue_packet doubles floats queued from to bytes
          (floats.add (delay_of doubles floats simulator draws) draws.duplicate_delay)
          draws.duplicate_data in
      let duplicated = is_duplicated doubles floats simulator draws in
      let freed = memory_of doubles floats (current doubles floats simulator) in
      let kept : NetworkSimulator doubles floats × List ℕ =
        (if duplicated then twice else queued, freed) in
      let lost = floats.le_float draws.loss simulator.packet_loss_percent in
      let first =
        queue-count d simulator from to bytes (delay_of doubles floats simulator draws)
          draws.packet_data (omega (arith, size, inside)) in
      let second =
        queue-count d queued from to bytes
          (floats.add (delay_of doubles floats simulator draws) draws.duplicate_delay)
          draws.duplicate_data
          (inside_next queued (length-set simulator.packet_entries simulator.current_index _ ∙ size)
            simulator.current_index refl) in
      let apart : simulator.current_index ≢ (simulator.current_index + 1) % num_packet_entries =
        λ same. omega (arith, same, inside) in
      (
        λ h. simp (h, simulator_send_packet) refl,
        λ h once.
            case_of_if
              (λ (r : NetworkSimulator doubles floats × List ℕ).
                held doubles floats d r.0 + count d r.1
                ≡ held doubles floats d simulator + count d (draws.packet_data ∷ []))
              lost (simulator, []) kept (λ l. absurd (different (sym l ∙ h)))
              (λ _.
                case_of_if
                  (λ q.
                    held doubles floats d q + count d freed
                    ≡ held doubles floats d simulator + count d (draws.packet_data ∷ []))
                  duplicated twice queued (λ t. absurd (different (sym t ∙ once))) (λ _. first)),
        λ h again.
            case_of_if
              (λ (r : NetworkSimulator doubles floats × List ℕ).
                held doubles floats d r.0
                  + count d r.1
                  + count d (memory_of doubles floats (next_entry simulator))
                ≡ held doubles floats d simulator
                  + count d (draws.packet_data ∷ draws.duplicate_data ∷ []))
              lost (simulator, []) kept (λ l. absurd (different (sym l ∙ h)))
              (λ _.
                case_of_if
                  (λ q.
                    held doubles floats d q
                      + count d freed
                      + count d (memory_of doubles floats (next_entry simulator))
                    ≡ held doubles floats d simulator
                      + count d (draws.packet_data ∷ draws.duplicate_data ∷ []))
                  duplicated twice queued
                  (λ _. omega (
                    arith,
                    first,
                    second,
                    ap (λ e. count d (memory_of doubles floats e))
                        (get_or-set_ne simulator.packet_entries _ (empty_entry doubles floats)
                          apart),
                  ))
                  (λ o. absurd (different (sym again ∙ o)))),
      )

  -- What a call allocates, and what it neither holds nor frees behind it.
  abbrev pub allocated : NetworkSimulator doubles floats → Draws doubles floats → List ℕ
  allocated simulator draws =
      if floats.le_float draws.loss simulator.packet_loss_percent
      then []
      else if is_duplicated doubles floats simulator draws
      then draws.packet_data ∷ draws.duplicate_data ∷ []
      else draws.packet_data ∷ []

  abbrev pub leaked : NetworkSimulator doubles floats → Draws doubles floats → List ℕ
  leaked simulator draws =
      if floats.le_float draws.loss simulator.packet_loss_percent
      then []
      else if is_duplicated doubles floats simulator draws
      then memory_of doubles floats (next_entry simulator)
      else []

  -- The memory that a simulator holds after netcode_network_simulator_send_packet, what the call frees
  -- and what it leaks are what the simulator held before and what the call allocates: nothing for a
  -- packet that is lost, one piece for one that is sent, and two for one that is sent twice. What leaks
  -- is the packet in the entry that the duplicate is written to; only a duplicate leaks.
  pub send_packet_lem :
      (simulator : NetworkSimulator doubles floats) (from to : Address) (bytes : List ℕ)
      (draws : Draws doubles floats) (d : ℕ)
      → length simulator.packet_entries ≡ num_packet_entries
      → simulator.current_index < num_packet_entries
      → held doubles floats d (simulator_send_packet doubles floats simulator from to bytes draws).0
          + count d (simulator_send_packet doubles floats simulator from to bytes draws).1
          + count d (leaked simulator draws)
        ≡ held doubles floats d simulator + count d (allocated simulator draws)
  send_packet_lem simulator from to bytes draws d size inside =
      let (nothing, once, twice) = send_packet_cases simulator from to bytes draws d size inside in
      elim (Bool-cases (floats.le_float draws.loss simulator.packet_loss_percent)) [
        | inl lost ↦ simp (lost, nothing lost) (omega arith)
        | inr sent ↦ elim (Bool-cases (is_duplicated doubles floats simulator draws)) [
          | inl again ↦ simp (sent, again) (twice sent again)
          | inr single ↦ simp (sent, single) (omega (arith, once sent single))
        ]
      ]
