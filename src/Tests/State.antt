-- ===== src/Tests/State.antt =====
-- The replay protection, the packet queue, the encryption manager and the token entries on concrete
-- states.
use netcode_io.Base.{
  ℕ, zero, suc, ◌<◌, List, [], ◌∷◌, ◌++◌, length, map, true, false, none, some, set, ◌≡◌, ◌≢◌, ◌⊎◌,
  refl, arith,
}
use netcode_io.Base.Int.{pos}
use netcode_io.Base.Search.{search}
use netcode_io.Address.{Address, ipv4, IsAddress, address_equal}
use netcode_io.Replay.{already_received}
use netcode_io.Replay.History.{after, is_replay}
use netcode_io.Replay.Verdict.{already_received_lem}
use netcode_io.Queue.{PacketQueue, packet_queue_size, init, clear, push, pop}
use netcode_io.Queue.Refine.{
  IsPacketQueue, init-IsPacketQueue, contents, push_lem, pop_lem, clear_lem,
}
use netcode_io.Encryption.{
  EncryptionManager, IsManager, reset, add_encryption_mapping, remove_encryption_mapping,
  find_encryption_mapping, entry_expired,
}
use netcode_io.Encryption.Laws.{reset-IsManager, add-IsManager, remove-IsManager}
use netcode_io.Encryption.Find.{found_keys, added, find-add}
use netcode_io.Encryption.Other.{find-add_other}
use netcode_io.TokenEntries.{ConnectTokenEntry, find_or_add}
use netcode_io.TokenEntries.Laws.{at, IsNew, find_or_add-new}
use netcode_io.TokenEntries.Reuse.{find_or_add_twice}
use netcode_io.Tests.Toy.{toy_doubles, toy-IsStrict}

already_received_lem_example :
    (already_received (after (700 ∷ 300 ∷ [])) 444).1 ≡ is_replay (700 ∷ 300 ∷ []) 444
already_received_lem_example =
    already_received_lem (700 ∷ 300 ∷ []) 444 (omega arith, (omega arith, tt)) (omega arith)

-- A queue of one packet.
abbrev pub one_packet : PacketQueue
one_packet = (push init 5 100).0

one_packet-IsPacketQueue : IsPacketQueue one_packet
one_packet-IsPacketQueue = (push_lem init 5 100 init-IsPacketQueue).0

push_lem_example :
    IsPacketQueue (push one_packet 6 101).0
    × (((length (contents one_packet) ≡ packet_queue_size)
          × (push one_packet 6 101 ≡ (one_packet, 6 ∷ [], false)))
        ⊎ ((length (contents one_packet) < packet_queue_size)
            × (contents (push one_packet 6 101).0 ≡ contents one_packet ++ ((6, 101) ∷ []))
            × ((push one_packet 6 101).1 ≡ [])
            × ((push one_packet 6 101).2 ≡ true)))
push_lem_example = push_lem one_packet 6 101 one_packet-IsPacketQueue

pop_lem_example :
    IsPacketQueue (pop one_packet).0
    × (((contents one_packet ≡ []) × (pop one_packet ≡ (one_packet, none)))
        ⊎ ((d : ℕ) × (s : ℕ) × (contents one_packet ≡ (d, s) ∷ contents (pop one_packet).0)
            × ((pop one_packet).1 ≡ some (d, s))))
pop_lem_example = pop_lem one_packet one_packet-IsPacketQueue

one_packet-start : one_packet.start_index ≡ 0
unfolding push init
one_packet-start = refl

clear_lem_example :
    IsPacketQueue (clear one_packet).0
    × (contents (clear one_packet).0 ≡ [])
    × ((clear one_packet).1 ≡ map (λ e. e.0) (contents one_packet))
clear_lem_example = clear_lem one_packet one_packet-IsPacketQueue one_packet-start

abbrev pub alice : Address
alice = ipv4 10 0 0 2 50000

abbrev pub bob : Address
bob = ipv4 10 0 0 3 50000

alice-IsAddress : IsAddress alice
alice-IsAddress = (omega arith, omega arith, omega arith, omega arith, omega arith)

bob-IsAddress : IsAddress bob
bob-IsAddress = (omega arith, omega arith, omega arith, omega arith, omega arith)

-- A manager with a mapping for one address, added at time 2000 with no expiry time and no timeout.
abbrev pub with_alice : EncryptionManager toy_doubles
with_alice =
    (add_encryption_mapping toy_doubles (reset toy_doubles) alice (1 ∷ []) (2 ∷ []) 2000 999
      (pos 0)).0

add-IsManager_example : IsManager toy_doubles with_alice
add-IsManager_example =
    add-IsManager toy_doubles (reset toy_doubles) alice (1 ∷ []) (2 ∷ []) 2000 999 (pos 0)
      (reset-IsManager toy_doubles)

with_alice-IsManager : IsManager toy_doubles with_alice
with_alice-IsManager =
    add-IsManager toy_doubles (reset toy_doubles) alice (1 ∷ []) (2 ∷ []) 2000 999 (pos 0)
      (reset-IsManager toy_doubles)

remove-IsManager_example :
    IsManager toy_doubles (remove_encryption_mapping toy_doubles with_alice alice 2001).0
remove-IsManager_example = remove-IsManager toy_doubles with_alice alice 2001 with_alice-IsManager

alice-fresh : entry_expired toy_doubles (added toy_doubles 2000 999 (pos 0)) 2000 ≡ false
unfolding entry_expired
alice-fresh = refl

alice-added :
    (add_encryption_mapping toy_doubles
      (reset toy_doubles)
      alice
      (1 ∷ [])
      (2 ∷ [])
      2000
      999
      (pos 0)).1
    ≡ true
unfolding add_encryption_mapping reset search entry_expired address_equal
alice-added = refl

find-add_example : found_keys toy_doubles with_alice alice 2000 ≡ (some (1 ∷ []), some (2 ∷ []))
find-add_example =
    find-add toy_doubles (reset toy_doubles) alice (1 ∷ []) (2 ∷ []) 2000 999 (pos 0)
      (reset-IsManager toy_doubles) alice-IsAddress alice-fresh alice-added

alice-apart : bob ≢ alice
alice-apart e = ground arith

alice-found : (find_encryption_mapping toy_doubles with_alice alice 2000).1 ≡ some 0
unfolding find_encryption_mapping add_encryption_mapping reset search entry_expired address_equal
alice-found = refl

find-add_other_example :
    found_keys toy_doubles
      (add_encryption_mapping toy_doubles with_alice bob (3 ∷ []) (4 ∷ []) 2000 999 (pos 0)).0
      alice
      2000
    ≡ found_keys toy_doubles with_alice alice 2000
find-add_other_example =
    find-add_other toy_doubles with_alice bob alice (3 ∷ []) (4 ∷ []) 2000 999 (pos 0) 0
      with_alice-IsManager bob-IsAddress alice-IsAddress alice-apart alice-found

-- Two entries, the second the older.
abbrev pub seen_tokens : List (ConnectTokenEntry toy_doubles)
seen_tokens =
    (record { time = 2005; mac = 1 ∷ []; address = alice })
    ∷ (record { time = 2001; mac = 2 ∷ []; address = bob })
    ∷ []

seen_tokens-IsNew : IsNew toy_doubles seen_tokens (3 ∷ [])
seen_tokens-IsNew zero h = refl
seen_tokens-IsNew (suc zero) h = refl
seen_tokens-IsNew (suc (suc k)) h = absurd (omega arith)

find_or_add-new_example :
    (i : ℕ) × (i < 2)
    × ((k : ℕ)
        → k < 2
        → toy_doubles.lt (at toy_doubles seen_tokens k).time (at toy_doubles seen_tokens i).time
          ≡ false)
    × (find_or_add toy_doubles seen_tokens alice (3 ∷ []) 2010
        ≡ (set seen_tokens i (record { time = 2010; mac = 3 ∷ []; address = alice }), true))
find_or_add-new_example =
    find_or_add-new toy_doubles seen_tokens alice (3 ∷ []) 2010 toy-IsStrict (omega arith)
      seen_tokens-IsNew

find_or_add_twice_example :
    find_or_add toy_doubles
      (find_or_add toy_doubles seen_tokens alice (3 ∷ []) 2010).0
      bob
      (3 ∷ [])
      2011
    ≡ ((find_or_add toy_doubles seen_tokens alice (3 ∷ []) 2010).0, address_equal alice bob)
find_or_add_twice_example =
    find_or_add_twice toy_doubles seen_tokens alice bob (3 ∷ []) 2010 2011 toy-IsStrict
      (omega arith) seen_tokens-IsNew
