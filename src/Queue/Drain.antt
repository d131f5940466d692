-- ===== src/Queue/Drain.antt =====
-- c/netcode.c: the loop with which client and server free all packets of a queue, in
-- netcode_client_reset_connection_data, netcode_server_disconnect_client_internal and
-- netcode_server_disconnect_loopback_client.
use netcode_io.Base.{
  ℕ, zero, suc, ◌<◌, List, [], ◌∷◌, ◌++◌, length, map, Option, none, some, ◌≡◌, refl, ap, ◌∙◌, inl,
  inr, arith,
}
use netcode_io.Queue.{PacketQueue, init, pop, clear, freed}
use netcode_io.Queue.Refine.{IsPacketQueue, contents, length-contents, pop_lem}
use mathlib.Core.List.{append-nil}

-- `while ( 1 )` with a bound on the rounds; `none` is a loop that goes on. The loop stops at a null
-- pointer, which is the `none` of `pop`: netcode_packet_queue_push asserts that none is stored, so a
-- packet that `pop` returns is never null.
unfoldable pub drain : ℕ → PacketQueue → Option (PacketQueue × List ℕ)
drain zero queue = none
drain (suc rounds) queue =
    let next = drain rounds (pop queue).0 in
    elim (pop queue).1 [
      | none ↦ some ((pop queue).0, [])
      | some (packet, sequence) ↦ elim next [
        | none ↦ none
        | some (queue', freed) ↦ some (queue', packet ∷ freed)
      ]
    ]

-- The loop frees every packet of a well-formed queue once, in order, and ends, after one round more
-- than the queue has packets.
pub drain_ends :
    (rounds : ℕ) (queue : PacketQueue)
    → IsPacketQueue queue
    → length (contents queue) < rounds
    → (queue' : PacketQueue) × (drain rounds queue ≡ some (queue', map (λ e. e.0) (contents queue)))
      × IsPacketQueue queue'
      × (contents queue' ≡ [])
unfolding drain
drain_ends zero queue valid h = absurd (omega arith)
drain_ends (suc rounds) queue valid h =
    let (next, outcome) = pop_lem queue valid in
    elim outcome [
      | inl (empty, e) ↦ (
        (pop queue).0,
        rw (ap (λ r. r.1) e, empty, drain) refl,
        next,
        ap (λ r. contents r.0) e ∙ empty,
      )
      | inr (d, s, full, e) ↦
          let (queue', e', valid', empty') =
            drain_ends rounds (pop queue).0 next (omega (arith, ap (λ xs. length xs) full)) in
          (queue', rw (e, e', full, drain) refl, valid', empty')
    ]

-- The loop with 257 rounds, which are enough for the 256 packets that a queue holds at most, and
-- `netcode_packet_queue_clear` behind it.
unfoldable pub drain_and_clear : PacketQueue → PacketQueue × List ℕ
drain_and_clear queue = elim (drain 257 queue) [
  | none ↦ (queue, [])
  | some (queue', freed) ↦ let (queue'', more) = clear queue' in (queue'', freed ++ more)
]

-- After the loop and netcode_packet_queue_clear, a queue is as new, and each of its packets has been
-- freed exactly once, the oldest first.
pub drain_and_clear_lem :
    (queue : PacketQueue)
    → IsPacketQueue queue
    → drain_and_clear queue ≡ (init, map (λ e. e.0) (contents queue))
unfolding drain_and_clear clear freed
drain_and_clear_lem queue valid =
    let (queue', e, valid', empty) =
      drain_ends 257 queue valid (omega (arith, length-contents queue, valid.count)) in
    let none_left : queue'.num_packets ≡ 0 =
      omega (arith, length-contents queue', ap (λ xs. length xs) empty) in
    rw (e, drain_and_clear, none_left) (ap (λ xs. (init, xs)) (append-nil _))

pub pop-nothing :
    (queue : PacketQueue) → IsPacketQueue queue → contents queue ≡ [] → contents (pop queue).0 ≡ []
pop-nothing queue valid nothing = elim (pop_lem queue valid).1 [
  | inl (empty, same) ↦ ap (λ r. contents r.0) same ∙ nothing
  | inr (d, s, more, got) ↦ cc
]
