-- ===== src/Packet/Write.antt =====
-- c/netcode.c, netcode_write_packet.
use netcode_io.Base.{ℕ, ◌*◌, ◌^◌, bit_or, List, [], ◌++◌, length, Option, none, some}
use netcode_io.Base.Int.{to_uint32}
use netcode_io.Wire.{write_uint8, write_uint32, write_uint64, write_bytes}
use netcode_io.Sodium.{Sodium, encrypt_aead}
use netcode_io.Token.{version_info_bytes, connect_token_private_bytes, challenge_token_bytes, nonce}
use netcode_io.Packet.{
  Packet, request, challenge, response, keep_alive, payload, packet_type,
  sequence_number_bytes_required, packet_additional_data,
}
use netcode_io.Packet.Sequence.{write_sequence}

-- The packet data by type, which is then encrypted.
unfoldable pub packet_data : Packet → List ℕ
packet_data (challenge token_sequence token_data) =
    write_uint64 token_sequence ++ write_bytes token_data challenge_token_bytes
packet_data (response token_sequence token_data) =
    write_uint64 token_sequence ++ write_bytes token_data challenge_token_bytes
packet_data (keep_alive client_index max_clients) =
    write_uint32 (to_uint32 client_index) ++ write_uint32 (to_uint32 max_clients)
packet_data (payload bytes) = write_bytes bytes (length bytes)
packet_data _ = []

-- The packet type, and the number of sequence bytes in the high half.
unfoldable pub prefix_byte : Packet → ℕ → ℕ
prefix_byte packet sequence =
    bit_or (packet_type packet) (sequence_number_bytes_required sequence * 2 ^ 4)

-- The branch of the encrypted packets: the prefix byte, the sequence number, and the packet data
-- with its MAC.
unfoldable pub write_encrypted_packet : Sodium → Packet → ℕ → List ℕ → ℕ → Option (List ℕ)
write_encrypted_packet sodium packet sequence write_packet_key protocol_id =
    let prefix = prefix_byte packet sequence in
    elim (encrypt_aead sodium (packet_data packet) (packet_additional_data protocol_id prefix)
      (nonce sequence) write_packet_key) [
        | none ↦ none
        | some cipher ↦ some (
            write_uint8 prefix
            ++ write_sequence (sequence_number_bytes_required sequence) sequence
            ++ cipher)
      ]

-- The bytes of the packet; `none` is NETCODE_ERROR. The number that the C function returns is
-- their length.
unfoldable pub write_packet : Sodium → Packet → ℕ → List ℕ → ℕ → Option (List ℕ)
write_packet sodium (request version protocol expire token_sequence token_data) sequence key
      protocol_id =
    some (
      write_uint8 0
      ++ write_bytes version version_info_bytes
      ++ write_uint64 protocol
      ++ write_uint64 expire
      ++ write_uint64 token_sequence
      ++ write_bytes token_data connect_token_private_bytes)
write_packet sodium packet sequence key protocol_id =
    write_encrypted_packet sodium packet sequence key protocol_id
