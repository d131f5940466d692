-- ===== src/Packet/Size.antt =====
-- c/netcode.c: how many bytes netcode_write_packet writes, against the buffer of
-- NETCODE_MAX_PACKET_BYTES that its callers give it.
use netcode_io.Base.{
  ℕ, zero, suc, ◌+◌, ◌^◌, ◌≤◌, ◌<◌, List, length, some, length-append, length-take_of_le, subst,
  some_injective, ◌≡◌, ◌≢◌, refl, arith, inl, inr,
}
use netcode_io.Base.Int.{to_uint32}
use netcode_io.Wire.{IsUint64, write_uint8}
use netcode_io.Wire.RoundTrip.{write_uint32-IsBytes, write_uint64-IsBytes}
use netcode_io.Sodium.{Sodium, IsAead, decrypt-encrypt_aead}
use netcode_io.Packet.{
  Packet, request, denied, challenge, response, keep_alive, payload, disconnect, IsPacket,
  packet_type, sequence_number_bytes_required, max_packet_bytes, max_payload_bytes,
}
use netcode_io.Packet.Sequence.{IsWidth, required-IsWidth, write_sequence, length-write_sequence}
use netcode_io.Packet.Write.{packet_data, write_packet}
use netcode_io.Packet.Parts.{encrypted_parts}
use native.Mathlib.Nat.{pow-suc}

-- The sizes of the standard, with `n` bytes of sequence number.
abbrev pub packet_bytes : Packet → ℕ → ℕ
packet_bytes (request v p e s d) n = 1 + 13 + 8 + 8 + 8 + 1024
packet_bytes denied n = 1 + n + 16
packet_bytes (challenge s d) n = 1 + n + (8 + 300) + 16
packet_bytes (response s d) n = 1 + n + (8 + 300) + 16
packet_bytes (keep_alive i m) n = 1 + n + (4 + 4) + 16
packet_bytes (payload b) n = 1 + n + length b + 16
packet_bytes disconnect n = 1 + n + 16

length-packet_data :
    (p : Packet) (n : ℕ)
    → IsPacket p
    → packet_type p ≢ 0
    → packet_bytes p n ≡ 1 + n + length (packet_data p) + 16
unfolding packet_data
length-packet_data (request v p e s d) n valid h = absurd (h refl)
length-packet_data denied n valid h = omega arith
length-packet_data (challenge s d) n valid h =
    simp length-append (
      omega (arith, (write_uint64-IsBytes s).0, length-take_of_le 300 d (omega (arith, valid.1.0))))
length-packet_data (response s d) n valid h =
    simp length-append (
      omega (arith, (write_uint64-IsBytes s).0, length-take_of_le 300 d (omega (arith, valid.1.0))))
length-packet_data (keep_alive i m) n valid h =
    simp length-append (
      omega (arith, (write_uint32-IsBytes (to_uint32 i)).0, (write_uint32-IsBytes (to_uint32 m)).0))
length-packet_data (payload b) n valid h =
    omega (arith, length-take_of_le (length b) b (omega arith))
length-packet_data disconnect n valid h = omega arith

length-encrypted :
    (sodium : Sodium) (p : Packet) (s protocol : ℕ) (key bytes : List ℕ)
    → IsAead sodium
    → IsPacket p
    → packet_type p ≢ 0
    → write_packet sodium p s key protocol ≡ some bytes
    → length bytes ≡ packet_bytes p (sequence_number_bytes_required s)
unfolding write_uint8
length-encrypted sodium p s protocol key bytes aead valid h e =
    let (cipher, c, parts) = encrypted_parts sodium p s protocol key bytes h e in
    rw parts (
      omega (
        arith,
        length-append (write_sequence (sequence_number_bytes_required s) s) cipher,
        length-write_sequence (sequence_number_bytes_required s) s,
        length-packet_data p (sequence_number_bytes_required s) valid h,
        (decrypt-encrypt_aead sodium (packet_data p) _ _ key cipher aead c).1,
      ))

length-request :
    (sodium : Sodium) (v d : List ℕ) (p e s sequence protocol : ℕ) (key bytes : List ℕ)
    → IsPacket (request v p e s d)
    → write_packet sodium (request v p e s d) sequence key protocol ≡ some bytes
    → length bytes ≡ 1062
unfolding write_packet write_uint8
length-request sodium v d p e s sequence protocol key bytes valid eq = rw (some_injective eq) (
    simp length-append (
      omega (
        arith,
        (write_uint64-IsBytes p).0,
        (write_uint64-IsBytes e).0,
        (write_uint64-IsBytes s).0,
        length-take_of_le 13 v (omega (arith, valid.0.0)),
        length-take_of_le 1024 d (omega (arith, valid.4.0)),
      )))

small_width : (n s : ℕ) → IsWidth n s → s < 2 ^ 24 → n ≤ 3
small_width zero s h l = omega arith
small_width (suc zero) s h l = omega arith
small_width (suc (suc zero)) s h l = omega arith
small_width (suc (suc (suc zero))) s h l = omega arith
small_width (suc (suc (suc (suc m)))) s (lo, hi, fits, inl e) l = absurd (omega arith)
small_width (suc (suc (suc (suc m)))) s (lo, hi, fits, inr e) l =
    let lower : 256 ^ suc (suc (suc m)) ≤ s = subst (λ k. 256 ^ k ≤ s) (omega arith) e in
    omega (
      arith,
      pow-suc 256 m,
      pow-suc 256 (suc m),
      pow-suc 256 (suc (suc m)),
      pow-suc 256 (suc (suc (suc m))),
    )

-- The number of bytes that netcode_write_packet writes for a well-formed packet is that of the
-- standard's layout: 1062 for a request, and the prefix byte, the bytes of the sequence number, the
-- data and the MAC for the others.
pub length-write_packet :
    (sodium : Sodium) (p : Packet) (s protocol : ℕ) (key bytes : List ℕ)
    → IsAead sodium
    → IsPacket p
    → write_packet sodium p s key protocol ≡ some bytes
    → length bytes ≡ packet_bytes p (sequence_number_bytes_required s)
length-write_packet sodium (request v x e s' d) s protocol key bytes aead valid eq =
    length-request sodium v d x e s' s protocol key bytes valid eq
length-write_packet sodium denied s protocol key bytes aead valid eq =
    length-encrypted sodium denied s protocol key bytes aead valid (omega arith) eq
length-write_packet sodium (challenge s' d) s protocol key bytes aead valid eq =
    length-encrypted sodium (challenge s' d) s protocol key bytes aead valid (omega arith) eq
length-write_packet sodium (response s' d) s protocol key bytes aead valid eq =
    length-encrypted sodium (response s' d) s protocol key bytes aead valid (omega arith) eq
length-write_packet sodium (keep_alive i m) s protocol key bytes aead valid eq =
    length-encrypted sodium (keep_alive i m) s protocol key bytes aead valid (omega arith) eq
length-write_packet sodium (payload b) s protocol key bytes aead valid eq =
    length-encrypted sodium (payload b) s protocol key bytes aead valid (omega arith) eq
length-write_packet sodium disconnect s protocol key bytes aead valid eq =
    length-encrypted sodium disconnect s protocol key bytes aead valid (omega arith) eq

packet_bytes-le : (p : Packet) (n : ℕ) → IsPacket p → n ≤ 3 → packet_bytes p n ≤ 1220
packet_bytes-le (request v x e s d) n valid h = omega arith
packet_bytes-le denied n valid h = omega arith
packet_bytes-le (challenge s d) n valid h = omega arith
packet_bytes-le (response s d) n valid h = omega arith
packet_bytes-le (keep_alive i m) n valid h = omega arith
packet_bytes-le (payload b) n valid h = omega (arith, valid.1)
packet_bytes-le disconnect n valid h = omega arith

large_width : (n s : ℕ) → IsWidth n s → 2 ^ 24 ≤ s → 4 ≤ n
large_width zero s h l = absurd (omega arith)
large_width (suc zero) s h l = absurd (omega arith)
large_width (suc (suc zero)) s h l = absurd (omega arith)
large_width (suc (suc (suc zero))) s h l = absurd (omega arith)
large_width (suc (suc (suc (suc m)))) s h l = omega arith

-- A well-formed packet with a sequence number below 2^24 fits the callers' buffer of
-- NETCODE_MAX_PACKET_BYTES.
pub write_packet-fits :
    (sodium : Sodium) (p : Packet) (s protocol : ℕ) (key bytes : List ℕ)
    → IsAead sodium
    → IsPacket p
    → s < 2 ^ 24
    → write_packet sodium p s key protocol ≡ some bytes
    → length bytes ≤ max_packet_bytes
write_packet-fits sodium p s protocol key bytes aead valid small e = omega (
  arith,
  length-write_packet sodium p s protocol key bytes aead valid e,
  packet_bytes-le p _ valid (small_width _ s (required-IsWidth s (omega arith)) small),
)

-- A payload packet of NETCODE_MAX_PAYLOAD_BYTES with a 64-bit sequence number from 2^24 on is longer
-- than the callers' buffer of NETCODE_MAX_PACKET_BYTES.
pub write_packet-overflows :
    (sodium : Sodium) (b : List ℕ) (s protocol : ℕ) (key bytes : List ℕ)
    → IsAead sodium
    → length b ≡ max_payload_bytes
    → 2 ^ 24 ≤ s
    → IsUint64 s
    → write_packet sodium (payload b) s key protocol ≡ some bytes
    → max_packet_bytes < length bytes
write_packet-overflows sodium b s protocol key bytes aead full large h e = omega (
  arith,
  length-write_packet sodium (payload b) s protocol key bytes aead (omega arith) e,
  large_width _ s (required-IsWidth s h) large,
)
