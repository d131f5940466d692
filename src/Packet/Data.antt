-- ===== src/Packet/Data.antt =====
-- c/netcode.c: the data of a packet, which netcode_write_packet encrypts, is what netcode_read_packet
-- decrypts and reads.
use netcode_io.Base.{
  ℕ, ◌-◌, ◌≤◌, List, ◌++◌, length, take, drop, true, false, ltb, some, length-append,
  length-take_of_le, take_all, ◌≡◌, ◌≢◌, refl, ◌∙◌, arith,
}
use netcode_io.Base.Int.{ℤ, IsInt32, to_uint32, to_uint32-lt, to_int32-to_uint32}
use netcode_io.Wire.{
  IsUint64, ok, >>=-ok, write_uint32, write_uint64, write_bytes, read_uint32, read_uint64,
  read_bytes,
}
use netcode_io.Wire.RoundTrip.{
  read-write_uint32, read-write_uint64, read-write_bytes, write_uint32-IsBytes,
  write_uint64-IsBytes,
}
use netcode_io.Sodium.{Sodium, IsAead, encrypt_aead, decrypt-encrypt_aead, mac_bytes}
use netcode_io.Token.{nonce, challenge_token_bytes}
use netcode_io.Packet.{
  Packet, request, denied, challenge, response, keep_alive, payload, disconnect, IsPacket,
  packet_type, packet_additional_data,
}
use netcode_io.Packet.Write.{packet_data, prefix_byte}
use netcode_io.Packet.Read.{
  ReadContext, run_reader, read_token_packet, read_keep_alive, read_payload, read_packet_data,
  read_encrypted_data,
}
use mathlib.Core.List.{append_assoc}
use netcode_io.Packet.Parts.{prefix_fields}

read-token_packet :
    (make : ℕ → List ℕ → Packet) (s : ℕ) (d mac : List ℕ)
    → IsUint64 s
    → length d ≡ challenge_token_bytes
    → read_token_packet make ((write_uint64 s ++ write_bytes d challenge_token_bytes) ++ mac)
      ≡ ok (make s d, mac)
unfolding read_token_packet
read-token_packet make s d mac hs hd = simp append_assoc (
    >>=-ok read_uint64 _ (read-write_uint64 s _ hs)
    ∙ >>=-ok (read_bytes _) _ (read-write_bytes 300 d mac hd))

length-token_packet :
    (s : ℕ) (d : List ℕ)
    → length d ≡ challenge_token_bytes
    → length (write_uint64 s ++ write_bytes d challenge_token_bytes) ≡ 308
length-token_packet s d hd =
    simp length-append
      (omega (arith, (write_uint64-IsBytes s).0, length-take_of_le 300 d (omega arith)))

read-keep_alive :
    (i m : ℤ) (mac : List ℕ)
    → IsInt32 i
    → IsInt32 m
    → read_keep_alive ((write_uint32 (to_uint32 i) ++ write_uint32 (to_uint32 m)) ++ mac)
      ≡ ok (keep_alive i m, mac)
unfolding read_keep_alive
read-keep_alive i m mac hi hm = simp append_assoc (
    >>=-ok read_uint32 _ (read-write_uint32 (to_uint32 i) _ (to_uint32-lt i))
    ∙ >>=-ok read_uint32 _ (read-write_uint32 (to_uint32 m) mac (to_uint32-lt m))
    ∙ rw (to_int32-to_uint32 i hi, to_int32-to_uint32 m hm))

read-payload : (b mac : List ℕ) → run_reader (read_payload (length b)) (b ++ mac) ≡ ok (payload b)
unfolding read_payload
read-payload b mac =
    let whole : take (length b) b ≡ b = take_all (length b) b (omega arith) in
    rw (rw whole at (read-write_bytes (length b) b mac refl), run_reader) refl

length-keep_alive : (a b : ℕ) → length (write_uint32 a ++ write_uint32 b) ≡ 8
length-keep_alive a b =
    simp length-append (omega (arith, (write_uint32-IsBytes a).0, (write_uint32-IsBytes b).0))

-- The decrypted data of a packet, with the MAC behind it, is read as that packet.
pub read-packet_data :
    (context : ReadContext) (p : Packet) (mac : List ℕ)
    → IsPacket p
    → packet_type p ≢ 0
    → context.can_allocate ≡ true
    → read_packet_data context (packet_type p) (length (packet_data p)) (packet_data p ++ mac)
      ≡ ok p
unfolding read_packet_data packet_data
read-packet_data context (request v pr e s d) mac valid encrypted memory = absurd (encrypted refl)
read-packet_data context denied mac valid encrypted memory = rw memory
read-packet_data context (challenge s d) mac (hs, hd) encrypted memory =
    rw (length-token_packet s d hd.0, memory)
      (rw (read-token_packet challenge s d mac hs hd.0, run_reader))
read-packet_data context (response s d) mac (hs, hd) encrypted memory =
    rw (length-token_packet s d hd.0, memory)
      (rw (read-token_packet response s d mac hs hd.0, run_reader))
read-packet_data context (keep_alive i m) mac (hi, hm) encrypted memory =
    rw (length-keep_alive (to_uint32 i) (to_uint32 m), memory)
      (rw (read-keep_alive i m mac hi hm, run_reader))
read-packet_data context (payload b) mac (lo, hi) encrypted memory =
    let whole : take (length b) b ≡ b = take_all (length b) b (omega arith) in
    let front = read-payload b mac in rw (whole, memory) (ground (arith, front))
read-packet_data context disconnect mac valid encrypted memory = rw memory

pub read-encrypted_data :
    (sodium : Sodium) (context : ReadContext) (p : Packet) (s : ℕ) (key cipher : List ℕ)
    → IsAead sodium
    → IsPacket p
    → IsUint64 s
    → packet_type p ≢ 0
    → context.can_allocate ≡ true
    → encrypt_aead sodium
        (packet_data p)
        (packet_additional_data context.protocol_id (prefix_byte p s))
        (nonce s)
        key
      ≡ some cipher
    → (read_encrypted_data sodium context key (prefix_byte p s) s cipher ≡ ok (p, s))
      × (mac_bytes ≤ length cipher)
unfolding read_encrypted_data
read-encrypted_data sodium context p s key cipher aead valid h encrypted memory e =
    let (opened, l) = decrypt-encrypt_aead sodium (packet_data p) _ (nonce s) key cipher aead e in
    let (sum, type, width, small, positive) = prefix_fields p s h in
    let long : ltb (length cipher) mac_bytes ≡ false = ground (arith, l) in
    let rest : length cipher - mac_bytes ≡ length (packet_data p) = omega arith in
    (
      rw (long, opened, type, rest)
          (rw (
            read-packet_data context p (drop (length (packet_data p)) cipher) valid encrypted
              memory)),
      omega arith,
    )
