-- ===== src/Packet/Parts.antt =====
-- c/netcode.c, netcode_write_packet: the parts of an encrypted packet, and the fields of its prefix
-- byte.
use netcode_io.Base.{
  ℕ, ◌+◌, ◌*◌, ◌/◌, ◌^◌, ◌<◌, bit_and, bit_or, List, ◌++◌, some, mapped-some, ◌≡◌, ◌≢◌, refl, arith,
}
use netcode_io.Base.Bits.{bit_or_disjoint, bit_and_15}
use netcode_io.Wire.{IsUint64, write_uint8}
use netcode_io.Sodium.{Sodium, encrypt_aead}
use netcode_io.Token.{nonce}
use netcode_io.Packet.{
  Packet, request, denied, challenge, response, keep_alive, payload, disconnect, packet_type,
  sequence_number_bytes_required, packet_additional_data,
}
use netcode_io.Packet.Sequence.{required-IsWidth, write_sequence}
use netcode_io.Packet.Write.{packet_data, prefix_byte, write_encrypted_packet, write_packet}

pub packet_type-lt : (p : Packet) → packet_type p < 7
packet_type-lt (request v pr e s d) = omega arith
packet_type-lt denied = omega arith
packet_type-lt (challenge s d) = omega arith
packet_type-lt (response s d) = omega arith
packet_type-lt (keep_alive i m) = omega arith
packet_type-lt (payload b) = omega arith
packet_type-lt disconnect = omega arith

-- The prefix byte holds the packet type and the number of sequence bytes side by side.
pub prefix_fields :
    (p : Packet) (s : ℕ)
    → IsUint64 s
    → let n = sequence_number_bytes_required s in
      (prefix_byte p s ≡ packet_type p + n * 16)
      × (bit_and (prefix_byte p s) 0xf ≡ packet_type p)
      × (prefix_byte p s / 2 ^ 4 ≡ n)
      × (prefix_byte p s < 256)
      × (0 < prefix_byte p s)
unfolding prefix_byte
prefix_fields p s h =
    let (lo, hi, fits, least) = required-IsWidth s h in
    let type : packet_type p < 16 = omega (arith, packet_type-lt p) in
    let e : bit_or (packet_type p) (sequence_number_bytes_required s * 2 ^ 4)
        ≡ packet_type p + sequence_number_bytes_required s * 16 =
      bit_or_disjoint 4 _ _ type in
    rw e (
      refl,
      omega (arith, bit_and_15 (packet_type p + sequence_number_bytes_required s * 16)),
      omega arith,
      omega arith,
      omega arith,
    )

write-encrypted :
    (sodium : Sodium) (p : Packet) (s protocol : ℕ) (key bytes : List ℕ)
    → packet_type p ≢ 0
    → write_packet sodium p s key protocol ≡ some bytes
    → write_encrypted_packet sodium p s key protocol ≡ some bytes
unfolding write_packet
write-encrypted sodium (request v pr x s' d) s protocol key bytes h e = absurd (h refl)
write-encrypted sodium denied s protocol key bytes h e = e
write-encrypted sodium (challenge s' d) s protocol key bytes h e = e
write-encrypted sodium (response s' d) s protocol key bytes h e = e
write-encrypted sodium (keep_alive i m) s protocol key bytes h e = e
write-encrypted sodium (payload b) s protocol key bytes h e = e
write-encrypted sodium disconnect s protocol key bytes h e = e

-- The three parts of an encrypted packet.
pub encrypted_parts :
    (sodium : Sodium) (p : Packet) (s protocol : ℕ) (key bytes : List ℕ)
    → packet_type p ≢ 0
    → write_packet sodium p s key protocol ≡ some bytes
    → (cipher : List ℕ) × (encrypt_aead sodium
          (packet_data p)
          (packet_additional_data protocol (prefix_byte p s))
          (nonce s)
          key
        ≡ some cipher)
      × (bytes
          ≡ write_uint8 (prefix_byte p s)
            ++ (write_sequence (sequence_number_bytes_required s) s ++ cipher))
unfolding write_encrypted_packet write_uint8 write_sequence
encrypted_parts sodium p s protocol key bytes h e =
    mapped-some _ _ (write-encrypted sodium p s protocol key bytes h e)
