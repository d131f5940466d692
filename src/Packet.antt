-- ===== src/Packet.antt =====
-- c/netcode.c, the packet types, netcode_sequence_number_bytes_required and the associated data of
-- an encrypted packet.
pub mod Sequence
pub mod Write
pub mod Read
pub mod Parts
pub mod Data
pub mod RoundTrip
pub mod Size
pub mod Bounded
pub mod Safe
pub mod Request
pub mod Forged
use netcode_io.Base.{
  ℕ, zero, suc, ◌+◌, ◌-◌, ◌*◌, ◌/◌, ◌≤◌, ◌^◌, bit_and, List, ◌∷◌, ◌++◌, length, Bool, if◌then◌else◌,
  ◌==◌,
}
use netcode_io.Base.Int.{ℤ, IsInt32}
use netcode_io.Wire.{IsByte, IsUint64, IsBytes, write_uint64, write_uint8, write_bytes}
use netcode_io.Token.{
  version_info, version_info_bytes, connect_token_private_bytes, challenge_token_bytes,
}

abbrev pub max_packet_bytes : ℕ
max_packet_bytes = 1220

abbrev pub max_payload_bytes : ℕ
max_payload_bytes = 1200

abbrev pub connection_num_packets : ℕ
connection_num_packets = 7

-- The seven structs. The length of a payload is `payload_bytes`.
pub data Packet : Type 0 where
  request :
      (version : List ℕ) (protocol_id expire_timestamp sequence : ℕ) (token_data : List ℕ) → Packet
  denied : Packet
  challenge : (token_sequence : ℕ) (token_data : List ℕ) → Packet
  response : (token_sequence : ℕ) (token_data : List ℕ) → Packet
  keep_alive : (client_index max_clients : ℤ) → Packet
  payload : (bytes : List ℕ) → Packet
  disconnect : Packet

-- The first byte of each struct.
abbrev pub packet_type : Packet → ℕ
packet_type (request v p e s d) = 0
packet_type denied = 1
packet_type (challenge s d) = 2
packet_type (response s d) = 3
packet_type (keep_alive i m) = 4
packet_type (payload b) = 5
packet_type disconnect = 6

-- The ranges of the C types, and the sizes that the reader accepts.
abbrev pub IsPacket : Packet → Type 0
IsPacket (request v p e s d) =
    IsBytes version_info_bytes v
    × IsUint64 p
    × IsUint64 e
    × IsUint64 s
    × IsBytes connect_token_private_bytes d
IsPacket denied = Unit {0}
IsPacket (challenge s d) = IsUint64 s × IsBytes challenge_token_bytes d
IsPacket (response s d) = IsUint64 s × IsBytes challenge_token_bytes d
IsPacket (keep_alive i m) = IsInt32 i × IsInt32 m
IsPacket (payload b) = (1 ≤ length b) × (length b ≤ max_payload_bytes)
IsPacket disconnect = Unit {0}

-- The loop over the mask: the number of leading bytes, seven at most, that are zero.
unfoldable pub zero_bytes : ℕ → ℕ → ℕ → ℕ
zero_bytes zero sequence mask = 0
zero_bytes (suc rounds) sequence mask =
    let rest = zero_bytes rounds sequence (mask / 2 ^ 8) in
    if bit_and sequence mask == 0 then suc rest else 0

unfoldable pub sequence_number_bytes_required : ℕ → ℕ
sequence_number_bytes_required sequence = 8 - zero_bytes 7 sequence 0xff00_0000_0000_0000

-- The associated data: version, protocol and prefix byte.
unfoldable pub packet_additional_data : ℕ → ℕ → List ℕ
packet_additional_data protocol_id prefix_byte =
    write_bytes version_info version_info_bytes
    ++ write_uint64 protocol_id
    ++ write_uint8 prefix_byte
