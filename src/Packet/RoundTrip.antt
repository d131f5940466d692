-- ===== src/Packet/RoundTrip.antt =====
-- c/netcode.c: netcode_read_packet returns the packet that netcode_write_packet wrote.
use netcode_io.Base.{
  ℕ, ◌+◌, ◌%◌, ◌≤◌, bit_and, List, ◌++◌, length, Bool, true, false, ◌||◌, if◌then◌else◌, ltb, leb,
  ◌==◌, Option, none, some, Bool-cases, length-append, ◌≡◌, ◌≢◌, refl, ap, ◌∙◌, arith, inl, inr,
}
use netcode_io.Wire.{IsUint64, ok, error, write_uint8}
use netcode_io.Sodium.{Sodium, IsAead, mac_bytes}
use netcode_io.Replay.{ReplayProtection, already_received}
use netcode_io.Packet.{Packet, IsPacket, packet_type, sequence_number_bytes_required}
use netcode_io.Packet.Sequence.{
  required-IsWidth, write_sequence, read_sequence, length-write_sequence, read-write_sequence,
}
use netcode_io.Packet.Write.{prefix_byte, write_packet}
use netcode_io.Packet.Read.{
  ReadContext, ReadResult, is_allowed, read_encrypted_data, read_replay_tested,
  read_encrypted_packet, read_packet,
}
use netcode_io.Packet.Parts.{packet_type-lt, prefix_fields, encrypted_parts}
use netcode_io.Packet.Data.{read-encrypted_data}

-- The caller's replay protection after the test, and whether the packet is dropped by it.
abbrev pub replay_test : Option ReplayProtection → ℕ → ℕ → Option ReplayProtection × Bool
replay_test none type sequence = (none, false)
replay_test (some replay) type sequence =
    if ltb type 4
    then (some replay, false)
    else (let (replay', received) = already_received replay sequence in (some replay', received))

-- What a reader returns for a packet that gets past every other test.
abbrev pub passed :
    Option ReplayProtection × Bool → Packet → ℕ → Option ReplayProtection × ReadResult
passed (replay, dropped) packet sequence =
    (replay, if dropped then error else ok (packet, sequence))

read-replay_tested :
    (sodium : Sodium) (context : ReadContext) (replay : Option ReplayProtection) (p : Packet)
    (s : ℕ) (key cipher : List ℕ)
    → bit_and (prefix_byte p s) 0xf ≡ packet_type p
    → read_encrypted_data sodium context key (prefix_byte p s) s cipher ≡ ok (p, s)
    → read_replay_tested sodium context replay key (prefix_byte p s) s cipher
      ≡ passed (replay_test replay (packet_type p) s) p s
unfolding read_replay_tested
read-replay_tested sodium context none p s key cipher t e = rw e refl
read-replay_tested sodium context (some replay) p s key cipher t e =
    elim (Bool-cases (ltb (packet_type p) 4)) [
      | inl early ↦ rw (t, early, e) refl
      | inr late ↦ rw (t, late, e) refl
    ]

-- The tests in front of the replay protection let every packet of an allowed type through, whatever
-- stands behind its sequence number, if that is as long as a MAC.
pub read-encrypted_front :
    (sodium : Sodium) (context : ReadContext) (replay : Option ReplayProtection) (p : Packet)
    (s : ℕ) (key cipher : List ℕ)
    → IsUint64 s
    → context.read_packet_key ≡ some key
    → is_allowed context (packet_type p) ≡ true
    → mac_bytes ≤ length cipher
    → read_packet sodium context replay (
        write_uint8 (prefix_byte p s)
        ++ (write_sequence (sequence_number_bytes_required s) s ++ cipher))
      ≡ read_replay_tested sodium context replay key (prefix_byte p s) s cipher
unfolding read_packet read_encrypted_packet write_uint8
read-encrypted_front sodium context replay p s key cipher h k allowed long =
    let (sum, type, width, small, positive) = prefix_fields p s h in
    let (lo, hi, fits, least) = required-IsWidth s h in
    let n = sequence_number_bytes_required s in
    let tail = write_sequence (sequence_number_bytes_required s) s ++ cipher in
    let byte : prefix_byte p s % 256 ≡ prefix_byte p s = omega arith in
    let total : length tail ≡ n + length cipher =
      omega (arith, length-append (write_sequence n s) cipher, length-write_sequence n s) in
    let nonzero : (prefix_byte p s == 0) ≡ false = ground arith in
    let short : ltb (1 + length tail) 18 ≡ false = ground arith in
    let known : leb 7 (packet_type p) ≡ false = ground (arith, packet_type-lt p) in
    let wide : (ltb n 1 || ltb 8 n) ≡ false = ground arith in
    let room : ltb (1 + length tail) (1 + n + 16) ≡ false = ground arith in
    let number : read_sequence n 0 0 tail ≡ ok (s, cipher) =
      read-write_sequence n 0 0 s cipher fits (omega arith)
      ∙ ap (λ t. ok (t, cipher)) (omega arith) in
    rw (byte, nonzero, if◌then◌else◌)
      (simp
        (
          read_encrypted_packet, k, short, type, known, allowed, width, wide, room, number,
          if◌then◌else◌,
        )
        refl)

-- A packet of an encrypted type, with its fields in the ranges of their C types, its challenge token
-- of 300 bytes or its payload of 1 to 1200 bytes, that netcode_write_packet wrote under a 64-bit
-- sequence number, is read back by a reader that has the key, expects the protocol, allows the type
-- and gets memory: it returns that packet with that number, unless the replay protection, which the
-- types from keep-alive on pass, drops it.
pub read-write_encrypted :
    (sodium : Sodium) (context : ReadContext) (replay : Option ReplayProtection) (p : Packet)
    (s : ℕ) (key bytes : List ℕ)
    → IsAead sodium
    → IsPacket p
    → IsUint64 s
    → packet_type p ≢ 0
    → context.read_packet_key ≡ some key
    → is_allowed context (packet_type p) ≡ true
    → context.can_allocate ≡ true
    → write_packet sodium p s key context.protocol_id ≡ some bytes
    → read_packet sodium context replay bytes ≡ passed (replay_test replay (packet_type p) s) p s
read-write_encrypted sodium context replay p s key bytes aead valid h encrypted k allowed memory e =
    let (cipher, c, parts) = encrypted_parts sodium p s context.protocol_id key bytes encrypted e in
    let type = (prefix_fields p s h).1 in
    let (read, long) =
      read-encrypted_data sodium context p s key cipher aead valid h encrypted memory c in
    rw parts (
      read-encrypted_front sodium context replay p s key cipher h k allowed long
      ∙ read-replay_tested sodium context replay p s key cipher type read)
