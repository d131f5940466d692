-- ===== src/Simulator/Memory.antt =====
-- c/netcode.c, netcode_network_simulator_*: what becomes of the memory of the packets on their way.
use netcode_io.Base.{
  ℕ, zero, suc, ◌+◌, ◌-◌, ◌<◌, List, [], ◌∷◌, ◌++◌, length, set, get_or, map, Bool, true, false,
  ◌&&◌, if◌then◌else◌, ◌==◌, Option-cases, ◌≡◌, inl, inr, refl, arith, case_of_if,
}
use netcode_io.Address.{Address, address_equal}
use netcode_io.Time.{Doubles}
use netcode_io.Simulator.{
  num_pending_receive_packets, Floats, PacketEntry, NetworkSimulator, memories, empty_entry,
  memory_of, has_data, without_data, received_of, collect, deliver,
}

-- How often a piece of memory is in a list.
abbrev pub count : ℕ → List ℕ → ℕ
count d [] = 0
count d (x ∷ xs) = (if x == d then 1 else 0) + count d xs

pub count-append : (d : ℕ) (xs ys : List ℕ) → count d (xs ++ ys) ≡ count d xs + count d ys
count-append d [] ys = omega arith
count-append d (x ∷ xs) ys = omega (arith, count-append d xs ys)

module _ (doubles : Doubles) (floats : Floats doubles) where
  -- The memory that a simulator holds.
  abbrev pub held : ℕ → NetworkSimulator doubles floats → ℕ
  held d simulator =
      count d (memories doubles floats simulator.packet_entries)
      + count d (memories doubles floats simulator.pending_receive_packets)

  memories-append :
      (d : ℕ) (es es' : List (PacketEntry doubles))
      → count d (memories doubles floats (es ++ es'))
        ≡ count d (memories doubles floats es) + count d (memories doubles floats es')
  unfolding memories
  memories-append d [] es' = omega arith
  memories-append d (e ∷ es) es' = elim (Option-cases e.packet_data) [
    | inl h ↦ rw h (memories-append d es es')
    | inr (x, h) ↦ rw h (omega (arith, memories-append d es es'))
  ]

  memories-step :
      (d : ℕ) (e : PacketEntry doubles) (es : List (PacketEntry doubles))
      → count d (memories doubles floats (e ∷ es))
        ≡ count d (memory_of doubles floats e) + count d (memories doubles floats es)
  unfolding memories
  memories-step d e es = elim (Option-cases e.packet_data) [
    | inl h ↦ rw h (omega arith)
    | inr (x, h) ↦ rw h (omega arith)
  ]

  pub memories-set :
      (d : ℕ) (es : List (PacketEntry doubles)) (i : ℕ) (e : PacketEntry doubles)
      → i < length es
      → count d (memories doubles floats (set es i e))
          + count d (memory_of doubles floats (get_or es i (empty_entry doubles floats)))
        ≡ count d (memories doubles floats es) + count d (memory_of doubles floats e)
  memories-set d [] i e h = absurd (omega arith)
  memories-set d (e' ∷ es) zero e h = omega (arith, memories-step d e es, memories-step d e' es)
  memories-set d (e' ∷ es) (suc i) e h = omega (
    arith,
    memories-step d e' (set es i e),
    memories-step d e' es,
    memories-set d es i e (omega (arith, h)),
  )

  -- An entry whose packet moves, and one whose packet stays.
  moved-count :
      (d : ℕ) (e : PacketEntry doubles) (es : List (PacketEntry doubles)) (b : Bool)
      → count d (memories doubles floats ((if b then without_data doubles floats e else e) ∷ es))
          + (if b then count d (memory_of doubles floats e) else 0)
        ≡ count d (memory_of doubles floats e) + count d (memories doubles floats es)
  moved-count d e es true = omega (arith, memories-step d (without_data doubles floats e) es)
  moved-count d e es false = omega (arith, memories-step d e es)

  pushed-count :
      (d : ℕ) (e : PacketEntry doubles) (pending : List (PacketEntry doubles)) (b : Bool)
      → count d (memories doubles floats (if b then pending ++ (e ∷ []) else pending))
        ≡ count d (memories doubles floats pending)
          + (if b then count d (memory_of doubles floats e) else 0)
  unfolding memories
  pushed-count d e pending true =
      omega (arith, memories-append d pending (e ∷ []), memories-step d e [])
  pushed-count d e pending false = omega arith

  pub deliver-count :
      (d : ℕ) (time : doubles.Time) (es pending : List (PacketEntry doubles))
      → count d (memories doubles floats (deliver doubles floats time es pending).0)
          + count d (memories doubles floats (deliver doubles floats time es pending).1)
        ≡ count d (memories doubles floats es) + count d (memories doubles floats pending)
  unfolding deliver
  deliver-count d time [] pending = refl
  deliver-count d time (e ∷ es) pending =
      let moves = has_data doubles floats e && doubles.le e.delivery_time time in
      let pending' = if moves then pending ++ (e ∷ []) else pending in
      let rest = deliver doubles floats time es pending' in
      case_of_if
        (λ (r : List (PacketEntry doubles) × List (PacketEntry doubles)).
          count d (memories doubles floats r.0) + count d (memories doubles floats r.1)
          ≡ count d (memories doubles floats (e ∷ es)) + count d (memories doubles floats pending))
        (has_data doubles floats e && length pending == num_pending_receive_packets)
        (e ∷ es, pending) ((if moves then without_data doubles floats e else e) ∷ rest.0, rest.1)
        (λ _. refl)
        (λ _. omega (
          arith,
          deliver-count d time es pending',
          moved-count d e rest.0 moves,
          pushed-count d e pending moves,
          memories-step d e es,
        ))

  -- The memory of what is received.
  abbrev pub received_memories : List (Address × ℕ × List ℕ) → List ℕ
  received_memories received = map (λ r. r.1) received

  taken-count :
      (d : ℕ) (e : PacketEntry doubles) (received : List (Address × ℕ × List ℕ)) (b : Bool)
      → count d (received_memories ((if b then received_of doubles floats e else []) ++ received))
        ≡ (if b then count d (memory_of doubles floats e) else 0)
          + count d (received_memories received)
  taken-count d e received false = omega arith
  taken-count d e received true = elim (Option-cases e.packet_data) [
    | inl h ↦ rw h (omega arith)
    | inr (x, h) ↦ rw h (omega arith)
  ]

  pub collect-count :
      (d : ℕ) (to : Address) (room : ℕ) (es : List (PacketEntry doubles))
      → count d (memories doubles floats (collect doubles floats to room es).0)
          + count d (received_memories (collect doubles floats to room es).1)
        ≡ count d (memories doubles floats es)
  unfolding collect
  collect-count d to room [] = omega arith
  collect-count d to room (e ∷ es) =
      let takes = has_data doubles floats e && address_equal e.to to in
      let rest = collect doubles floats to (if takes then room - 1 else room) es in
      case_of_if
        (λ (r : List (PacketEntry doubles) × List (Address × ℕ × List ℕ)).
          count d (memories doubles floats r.0) + count d (received_memories r.1)
          ≡ count d (memories doubles floats (e ∷ es)))
        (room == 0) (e ∷ es, [])
        (
          (if takes then without_data doubles floats e else e) ∷ rest.0,
          (if takes then received_of doubles floats e else []) ++ rest.1,
        )
        (λ _. omega arith)
        (λ _. omega (
          arith,
          collect-count d to (if takes then room - 1 else room) es,
          moved-count d e rest.0 takes,
          taken-count d e rest.1 takes,
          memories-step d e es,
        ))
