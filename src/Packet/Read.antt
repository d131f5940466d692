-- ===== src/Packet/Read.antt =====
-- c/netcode.c, netcode_read_packet.
use netcode_io.Base.{
  ℕ, ◌+◌, ◌-◌, ◌/◌, ◌^◌, bit_and, List, [], ◌∷◌, length, Bool, false, not, ◌&&◌, ◌||◌,
  if◌then◌else◌, ltb, leb, ◌==◌, get_or, Option, none, some,
}
use netcode_io.Base.Int.{to_int32}
use netcode_io.Wire.{
  Outcome, ok, error, fault, Reader, ◌>>=◌, pure, fail, read_uint32, read_uint64, read_bytes,
}
use netcode_io.Sodium.{Sodium, decrypt_aead, mac_bytes}
use netcode_io.Token.{
  version_info, version_info_bytes, connect_token_private_bytes, challenge_token_bytes, nonce,
  equal_bytes,
}
use netcode_io.Token.Private.{decrypt_connect_token_private}
use netcode_io.Replay.{ReplayProtection, already_received}
use netcode_io.Packet.{
  Packet, request, denied, challenge, response, keep_alive, payload, disconnect,
  connection_num_packets, max_payload_bytes, packet_additional_data,
}
use netcode_io.Packet.Sequence.{read_sequence}

-- What a call is given beside the buffer. `none` is a null pointer; `can_allocate` is whether
-- `allocate_function` yields memory for the packet.
pub record ReadContext : Type 0 where
  pub read_packet_key : Option (List ℕ)
  pub protocol_id : ℕ
  pub current_timestamp : ℕ
  pub private_key : Option (List ℕ)
  pub allowed_packets : List Bool
  pub can_allocate : Bool

-- A packet with its sequence number; `error` is the null pointer.
abbrev pub ReadResult : Type 0
ReadResult = Outcome (Packet × ℕ)

abbrev pub is_allowed : ReadContext → ℕ → Bool
is_allowed context type = get_or context.allowed_packets type false

-- A reader on a buffer, without what it leaves.
abbrev pub run_reader : {A : Type 0} → Reader A → List ℕ → Outcome A
run_reader m bs = elim (m bs) [ ok (a, rest) ↦ ok a | error ↦ error | fault ↦ fault ]

-- From the decryption of a connection request on: the token is decrypted in place, and the packet
-- takes the whole decrypted buffer.
unfoldable pub read_request_token :
    Sodium → ReadContext → List ℕ → List ℕ → ℕ → ℕ → ℕ → Reader Packet
read_request_token sodium context private_key version protocol expire token_sequence buffer =
    elim (decrypt_connect_token_private sodium buffer version context.protocol_id expire
      token_sequence private_key) [
        | error ↦ error
        | fault ↦ fault
        | ok decrypted ↦
            if not context.can_allocate
            then error
            else (read_bytes connect_token_private_bytes >>= λ token_data.
                  pure (request version protocol expire token_sequence token_data))
                decrypted
      ]

-- The tests of a connection request behind its prefix byte.
unfoldable pub read_request_fields : Sodium → ReadContext → List ℕ → Reader Packet
read_request_fields sodium context private_key = read_bytes version_info_bytes >>= λ version.
    if not (equal_bytes version version_info)
    then fail
    else (read_uint64 >>= λ protocol.
        if not (protocol == context.protocol_id)
        then fail
        else (read_uint64 >>= λ expire.
            if leb expire context.current_timestamp
            then fail
            else (read_uint64 >>= λ token_sequence.
                read_request_token sodium context private_key version protocol expire
                  token_sequence)))

unfoldable pub read_request_packet : Sodium → ReadContext → ℕ → List ℕ → Outcome Packet
read_request_packet sodium context buffer_length buffer =
    if not (is_allowed context 0)
    then error
    else if not (buffer_length == 1 + version_info_bytes + 8 + 8 + 8 + connect_token_private_bytes)
    then error
    else elim context.private_key [
      | none ↦ error
      | some key ↦ run_reader (read_request_fields sodium context key) buffer
    ]

unfoldable pub read_token_packet : (ℕ → List ℕ → Packet) → Reader Packet
read_token_packet make = do
  token_sequence ← read_uint64
  token_data ← read_bytes challenge_token_bytes
  pure (make token_sequence token_data)

unfoldable pub read_keep_alive : Reader Packet
read_keep_alive = do
  client_index ← read_uint32
  max_clients ← read_uint32
  pure (keep_alive (to_int32 client_index) (to_int32 max_clients))

-- The copy of the payload, a read of `decrypted_bytes` bytes.
unfoldable pub read_payload : ℕ → Reader Packet
read_payload decrypted_bytes = do
  payload_data ← read_bytes decrypted_bytes
  pure (payload payload_data)

-- The switch over the packet type, on the decrypted bytes.
unfoldable pub read_packet_data : ReadContext → ℕ → ℕ → List ℕ → Outcome Packet
read_packet_data context type decrypted_bytes buffer =
    if type == 1
    then (if decrypted_bytes == 0 && context.can_allocate then ok denied else error)
    else if type == 2
    then (if decrypted_bytes == 8 + challenge_token_bytes && context.can_allocate
        then run_reader (read_token_packet challenge) buffer
        else error)
    else if type == 3
    then (if decrypted_bytes == 8 + challenge_token_bytes && context.can_allocate
        then run_reader (read_token_packet response) buffer
        else error)
    else if type == 4
    then (if decrypted_bytes == 8 && context.can_allocate
        then run_reader read_keep_alive buffer
        else error)
    else if type == 5
    then (if ltb decrypted_bytes 1
        then error
        else if ltb max_payload_bytes decrypted_bytes
        then error
        else if not context.can_allocate
        then error
        else run_reader (read_payload decrypted_bytes) buffer)
    else if type == 6
    then (if decrypted_bytes == 0 && context.can_allocate then ok disconnect else error)
    else error

-- From the associated data on. The buffer holds the cipher text and its MAC.
unfoldable pub read_encrypted_data : Sodium → ReadContext → List ℕ → ℕ → ℕ → List ℕ → ReadResult
read_encrypted_data sodium context key prefix_byte sequence buffer =
    if ltb (length buffer) mac_bytes
    then error
    else elim (decrypt_aead sodium buffer (packet_additional_data context.protocol_id prefix_byte)
        (nonce sequence) key) [
          | none ↦ error
          | some decrypted ↦
              elim (read_packet_data context (bit_and prefix_byte 0xf) (length buffer - mac_bytes)
                decrypted) [ ok packet ↦ ok (packet, sequence) | error ↦ error | fault ↦ fault ]
        ]

-- The replay protection test, which comes before the decryption and changes the caller's state.
unfoldable pub read_replay_tested :
    Sodium
    → ReadContext
    → Option ReplayProtection
    → List ℕ
    → ℕ
    → ℕ
    → List ℕ
    → Option ReplayProtection × ReadResult
read_replay_tested sodium context none key prefix_byte sequence buffer =
    (none, read_encrypted_data sodium context key prefix_byte sequence buffer)
read_replay_tested sodium context (some replay) key prefix_byte sequence buffer =
    if ltb (bit_and prefix_byte 0xf) 4
    then (some replay, read_encrypted_data sodium context key prefix_byte sequence buffer)
    else (let (replay', received) = already_received replay sequence in
        (
          some replay',
          if received
              then error
              else read_encrypted_data sodium context key prefix_byte sequence buffer,
        ))

-- The branch of the encrypted packets, behind the prefix byte.
unfoldable pub read_encrypted_packet :
    Sodium
    → ReadContext
    → Option ReplayProtection
    → ℕ
    → ℕ
    → List ℕ
    → Option ReplayProtection × ReadResult
read_encrypted_packet sodium context replay buffer_length prefix_byte buffer =
    elim context.read_packet_key [
      | none ↦ (replay, error)
      | some key ↦
          if ltb buffer_length (1 + 1 + mac_bytes)
          then (replay, error)
          else if leb connection_num_packets (bit_and prefix_byte 0xf)
          then (replay, error)
          else if not (is_allowed context (bit_and prefix_byte 0xf))
          then (replay, error)
          else if ltb (prefix_byte / 2 ^ 4) 1 || ltb 8 (prefix_byte / 2 ^ 4)
          then (replay, error)
          else if ltb buffer_length (1 + prefix_byte / 2 ^ 4 + mac_bytes)
          then (replay, error)
          else elim (read_sequence (prefix_byte / 2 ^ 4) 0 0 buffer) [
            | ok (sequence, rest) ↦
                read_replay_tested sodium context replay key prefix_byte sequence rest
            | error ↦ (replay, error)
            | fault ↦ (replay, fault)
          ]
    ]

-- A buffer of `buffer_length` bytes is the list. The sequence number of a request is 0.
unfoldable pub read_packet :
    Sodium → ReadContext → Option ReplayProtection → List ℕ → Option ReplayProtection × ReadResult
read_packet sodium context replay [] = (replay, error)
read_packet sodium context replay (prefix_byte ∷ buffer) =
    if prefix_byte == 0
    then (
      replay,
      elim (read_request_packet sodium context (1 + length buffer) buffer) [
        | ok packet ↦ ok (packet, 0)
        | error ↦ error
        | fault ↦ fault
      ],
    )
    else read_encrypted_packet sodium context replay (1 + length buffer) prefix_byte buffer
