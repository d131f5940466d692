-- ===== src/Queue/Refine.antt =====
-- c/netcode.c, the packet queue against its specification: a list of packets with their sequence
-- numbers, the oldest first, of 256 at most.
use netcode_io.Base.{
  ℕ, zero, suc, ◌+◌, ◌-◌, ◌%◌, ◌≤◌, ◌<◌, List, [], ◌∷◌, ◌++◌, length, true, false, ◌==◌, get_or,
  none, some, length-set, length-replicate, get_or-set_self, get_or-set_ne, Bool-cases, map, ◌≡◌,
  ◌≢◌, ◌⊎◌, refl, subst, ap, ◌∙◌, sym, arith, inl, inr,
}
use netcode_io.Queue.{
  PacketQueue, packet_queue_size, init, freed, stored, shortened, clear, push, pop,
}

abbrev pub slot : PacketQueue → ℕ → ℕ × ℕ
slot queue i = (
  get_or queue.packet_data (i % packet_queue_size) 0,
  get_or queue.packet_sequence (i % packet_queue_size) 0,
)

-- The entries from index `i` on, `n` of them.
unfoldable pub entries : PacketQueue → ℕ → ℕ → List (ℕ × ℕ)
entries queue i zero = []
entries queue i (suc n) = slot queue i ∷ entries queue (i + 1) n

-- What the queue holds, the oldest first.
unfoldable pub contents : PacketQueue → List (ℕ × ℕ)
contents queue = entries queue queue.start_index queue.num_packets

pub record IsPacketQueue (queue : PacketQueue) : Type 0 where
  pub count : queue.num_packets ≤ packet_queue_size
  pub start : queue.start_index < packet_queue_size
  pub data_size : length queue.packet_data ≡ packet_queue_size
  pub sequence_size : length queue.packet_sequence ≡ packet_queue_size

pub init-IsPacketQueue : IsPacketQueue init
unfolding init
init-IsPacketQueue = record {
  count = omega arith;
  start = omega arith;
  data_size = length-replicate {A = ℕ} 256 0;
  sequence_size = length-replicate {A = ℕ} 256 0;
}

length-entries : (queue : PacketQueue) (i n : ℕ) → length (entries queue i n) ≡ n
unfolding entries
length-entries queue i zero = refl
length-entries queue i (suc n) = ap suc (length-entries queue (i + 1) n)

-- Queues that agree on the slots from `i` on have the same entries there.
entries_agree :
    (queue queue' : PacketQueue) (i n : ℕ)
    → ((k : ℕ) → k < n → slot queue (i + k) ≡ slot queue' (i + k))
    → entries queue i n ≡ entries queue' i n
unfolding entries
entries_agree queue queue' i zero h = refl
entries_agree queue queue' i (suc n) h =
    let first : slot queue i ≡ slot queue' i =
      subst (λ k. slot queue k ≡ slot queue' k) (omega arith) (h 0 (omega arith)) in
    rw
      (
        first,
        entries_agree queue queue' (i + 1) n λ k l.
            subst (λ j. slot queue j ≡ slot queue' j) (omega arith) (h (suc k) (omega arith)),
      )
      refl

entries_snoc :
    (queue : PacketQueue) (i n : ℕ)
    → entries queue i (suc n) ≡ entries queue i n ++ (slot queue (i + n) ∷ [])
unfolding entries
entries_snoc queue i zero = ap (λ k. slot queue k ∷ []) (omega arith)
entries_snoc queue i (suc n) =
    ap (λ xs. slot queue i ∷ xs)
      (entries_snoc queue (i + 1) n
        ∙ ap (λ k. entries queue (i + 1) n ++ (slot queue k ∷ [])) (omega arith))

-- Indices are taken modulo the size.
entries_wrap :
    (queue : PacketQueue) (i j n : ℕ) → i % 256 ≡ j % 256 → entries queue i n ≡ entries queue j n
unfolding entries
entries_wrap queue i j zero h = refl
entries_wrap queue i j (suc n) h = rw (h, entries_wrap queue (i + 1) (j + 1) n (omega arith)) refl

pub length-contents : (queue : PacketQueue) → length (contents queue) ≡ queue.num_packets
unfolding contents
length-contents queue = length-entries queue queue.start_index queue.num_packets

-- The slot that a push writes, and the others.
slot-stored :
    (queue : PacketQueue) (d s : ℕ)
    → IsPacketQueue queue
    → slot (stored queue d s) (queue.start_index + queue.num_packets) ≡ (d, s)
slot-stored queue d s valid =
    let index = (queue.start_index + queue.num_packets) % 256 in
    rw
      (
        get_or-set_self queue.packet_data index d 0 (omega (arith, valid.data_size)),
        get_or-set_self queue.packet_sequence index s 0 (omega (arith, valid.sequence_size)),
      )
      refl

other_slot :
    (queue : PacketQueue) (d s k : ℕ)
    → queue.num_packets < 256
    → k < queue.num_packets
    → slot (stored queue d s) (queue.start_index + k) ≡ slot queue (queue.start_index + k)
other_slot queue d s k room h =
    let differs : (queue.start_index + queue.num_packets) % 256 ≢ (queue.start_index + k) % 256 =
      omega arith in
    rw
      (get_or-set_ne queue.packet_data d 0 differs, get_or-set_ne queue.packet_sequence s 0 differs)
      refl

stored-IsPacketQueue :
    (queue : PacketQueue) (d s : ℕ)
    → IsPacketQueue queue
    → queue.num_packets < 256
    → IsPacketQueue (stored queue d s)
stored-IsPacketQueue queue d s valid room = record {
  count = omega arith;
  start = valid.start;
  data_size =
      length-set queue.packet_data ((queue.start_index + queue.num_packets) % 256) d
      ∙ valid.data_size;
  sequence_size =
      length-set queue.packet_sequence ((queue.start_index + queue.num_packets) % 256) s
      ∙ valid.sequence_size;
}

contents-stored :
    (queue : PacketQueue) (d s : ℕ)
    → IsPacketQueue queue
    → queue.num_packets < 256
    → contents (stored queue d s) ≡ contents queue ++ ((d, s) ∷ [])
unfolding contents
contents-stored queue d s valid room =
    ap (entries (stored queue d s) queue.start_index) (omega arith)
    ∙ entries_snoc (stored queue d s) queue.start_index queue.num_packets
    ∙ rw
        (
          entries_agree (stored queue d s) queue queue.start_index queue.num_packets
              (λ k h. other_slot queue d s k room h),
          slot-stored queue d s valid,
        )
        refl

contents-shortened :
    (queue : PacketQueue) (n : ℕ)
    → IsPacketQueue queue
    → queue.num_packets ≡ suc n
    → contents queue
      ≡ (
        get_or queue.packet_data queue.start_index 0,
        get_or queue.packet_sequence queue.start_index 0,
      )
        ∷ contents (shortened queue)
unfolding contents entries
contents-shortened queue n valid e =
    let small : queue.start_index % 256 ≡ queue.start_index = omega (arith, valid.start) in
    let rest : entries queue (queue.start_index + 1) n
        ≡ entries (shortened queue) ((queue.start_index + 1) % 256) n =
      entries_wrap queue (queue.start_index + 1) ((queue.start_index + 1) % 256) n (omega arith)
      ∙ entries_agree queue (shortened queue) ((queue.start_index + 1) % 256) n (λ k h. refl) in
    let fewer : queue.num_packets - 1 ≡ n = omega arith in
    ap (entries queue queue.start_index) e ∙ rw (small, rest, fewer) refl

-- netcode_packet_queue_push on a well-formed queue leaves it well-formed. A full queue stays as it
-- is, and the packet is freed and not taken; else the packet goes behind all others, and nothing is
-- freed.
pub push_lem :
    (queue : PacketQueue) (d s : ℕ)
    → IsPacketQueue queue
    → IsPacketQueue (push queue d s).0
      × (((length (contents queue) ≡ packet_queue_size) × (push queue d s ≡ (queue, d ∷ [], false)))
          ⊎ ((length (contents queue) < packet_queue_size)
              × (contents (push queue d s).0 ≡ contents queue ++ ((d, s) ∷ []))
              × ((push queue d s).1 ≡ [])
              × ((push queue d s).2 ≡ true)))
unfolding push
push_lem queue d s valid = elim (Bool-cases (queue.num_packets == 256)) [
  | inl full ↦ rw full (valid, inl (ground (arith, length-contents queue), refl))
  | inr room ↦
      let few : queue.num_packets < 256 = ground (arith, valid.count) in
      rw room (
        stored-IsPacketQueue queue d s valid few,
        inr (omega (arith, length-contents queue), contents-stored queue d s valid few, refl, refl),
      )
]

pub no_contents : (queue : PacketQueue) → queue.num_packets ≡ 0 → contents queue ≡ []
unfolding contents entries
no_contents queue e = rw e refl

-- netcode_packet_queue_pop on a well-formed queue leaves it well-formed. It returns nothing from an
-- empty queue, which stays as it is; else it takes out the oldest packet with its sequence number.
pub pop_lem :
    (queue : PacketQueue)
    → IsPacketQueue queue
    → IsPacketQueue (pop queue).0
      × (((contents queue ≡ []) × (pop queue ≡ (queue, none)))
          ⊎ ((d : ℕ) × (s : ℕ) × (contents queue ≡ (d, s) ∷ contents (pop queue).0)
              × ((pop queue).1 ≡ some (d, s))))
unfolding pop
pop_lem queue valid = elim (Bool-cases (queue.num_packets == 0)) [
  | inl empty ↦ rw empty (valid, inl (no_contents queue (ground arith), refl))
  | inr some_packet ↦ rw some_packet (
    record {
      count = omega (arith, valid.count);
      start = omega arith;
      data_size = valid.data_size;
      sequence_size = valid.sequence_size;
    },
    inr (
      get_or queue.packet_data queue.start_index 0,
      get_or queue.packet_sequence queue.start_index 0,
      contents-shortened queue (queue.num_packets - 1) valid (ground arith),
      refl,
    ),
  )
]

freed_front :
    (queue : PacketQueue) (n i : ℕ)
    → i + n ≤ 256
    → freed n i queue.packet_data ≡ map (λ e. e.0) (entries queue i n)
unfolding freed entries
freed_front queue zero i h = refl
freed_front queue (suc n) i h =
    let small : i % 256 ≡ i = omega arith in
    rw (small, freed_front queue n (i + 1) (omega arith)) refl

-- On a well-formed queue whose start_index is 0, netcode_packet_queue_clear leaves a well-formed and
-- empty queue, and frees each packet that was in it once, the oldest first.
pub clear_lem :
    (queue : PacketQueue)
    → IsPacketQueue queue
    → queue.start_index ≡ 0
    → IsPacketQueue (clear queue).0
      × (contents (clear queue).0 ≡ [])
      × ((clear queue).1 ≡ map (λ e. e.0) (contents queue))
unfolding clear contents init
clear_lem queue valid e = (
  init-IsPacketQueue,
  no_contents init refl,
  freed_front queue queue.num_packets 0 (omega (arith, valid.count))
      ∙ ap (λ k. map (λ e. e.0) (entries queue k queue.num_packets)) (sym e),
)
