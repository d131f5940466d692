-- ===== src/Replay.antt =====
-- c/netcode.c, struct netcode_replay_protection_t, netcode_replay_protection_reset and
-- netcode_replay_protection_packet_already_received.
pub mod History
pub mod Holds
pub mod Verdict
use netcode_io.Base.{
  ℕ, ◌+◌, ◌-◌, ◌%◌, ◌^◌, bit_and, List, Bool, true, false, not, if◌then◌else◌, ltb, leb, ◌==◌,
  get_or, set, replicate,
}

abbrev pub replay_protection_buffer_size : ℕ
replay_protection_buffer_size = 256

-- 0xFFFFFFFFFFFFFFFF, of an entry that holds no sequence number.
abbrev pub empty_entry : ℕ
empty_entry = 2 ^ 64 - 1

pub record ReplayProtection : Type 0 where
  pub most_recent_sequence : ℕ
  pub received_packet : List ℕ

unfoldable pub reset : ReplayProtection
reset = record {
  most_recent_sequence = 0;
  received_packet = replicate replay_protection_buffer_size empty_entry;
}

-- The array has 256 entries and the index is below 256, so the default is never read.
abbrev pub entry : ReplayProtection → ℕ → ℕ
entry r index = get_or r.received_packet index empty_entry

abbrev pub store : ReplayProtection → ℕ → ReplayProtection
store r sequence = record r {
  received_packet = set r.received_packet (sequence % replay_protection_buffer_size) sequence;
}

abbrev pub advance : ReplayProtection → ℕ → ReplayProtection
advance r sequence =
    if ltb r.most_recent_sequence sequence then record r { most_recent_sequence = sequence } else r

-- The array part: what follows the update of `most_recent_sequence`.
unfoldable pub check_entry : ReplayProtection → ℕ → ReplayProtection × Bool
check_entry r sequence =
    let old = entry r (sequence % replay_protection_buffer_size) in
    if old == empty_entry
    then (store r sequence, false)
    else if leb sequence old
    then (r, true)
    else (store r sequence, false)

-- The new state, and whether the packet counts as received already. The sum wraps at 64 bits.
unfoldable pub already_received : ReplayProtection → ℕ → ReplayProtection × Bool
already_received r sequence =
    if not (bit_and sequence (2 ^ 63) == 0)
    then (r, false)
    else if leb ((sequence + replay_protection_buffer_size) % 2 ^ 64) r.most_recent_sequence
    then (r, true)
    else check_entry (advance r sequence) sequence
