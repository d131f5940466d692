-- ===== src/Tests/Packets.antt =====
-- Packets on the way from netcode_write_packet to netcode_read_packet, on concrete bytes.
use netcode_io.Base.{
  ℕ, List, [], ◌∷◌, ◌++◌, length, replicate, length-replicate, true, if◌then◌else◌, none, some, ◌≡◌,
  ◌≢◌, ◌<◌, ◌≤◌, refl, arith,
}
use netcode_io.Wire.{ok, error, fault, write_uint8}
use netcode_io.Sodium.{encrypt_aead, decrypt_aead}
use netcode_io.Token.{nonce}
use netcode_io.Replay.History.{after, is_replay}
use netcode_io.Packet.{
  Packet, payload, zero_bytes, sequence_number_bytes_required, packet_additional_data,
  max_packet_bytes,
}
use netcode_io.Packet.Sequence.{write_sequence, IsWidth, required-IsWidth}
use netcode_io.Packet.Write.{packet_data, prefix_byte, write_encrypted_packet, write_packet}
use netcode_io.Packet.Read.{ReadContext, read_packet}
use netcode_io.Packet.RoundTrip.{replay_test, passed, read-write_encrypted}
use netcode_io.Packet.Size.{
  packet_bytes, length-write_packet, write_packet-fits, write_packet-overflows,
}
use netcode_io.Packet.Safe.{read_packet-ne-fault}
use netcode_io.Packet.Forged.{read-write_history, read_packet-forged}
use netcode_io.Tests.Toy.{toy, toy-IsAead, zero_mac}

abbrev pub key : List ℕ
key = replicate 32 7

abbrev pub context : ReadContext
context = record {
  read_packet_key = some key;
  protocol_id = 42;
  current_timestamp = 100;
  private_key = some key;
  allowed_packets = replicate 7 true;
  can_allocate = true;
}

abbrev pub three_bytes : Packet
three_bytes = payload (1 ∷ 2 ∷ 3 ∷ [])

-- A payload of three bytes under sequence number 300.
abbrev pub three_bytes_written : List ℕ
three_bytes_written = 37 ∷ 44 ∷ 1 ∷ 1 ∷ 2 ∷ 3 ∷ zero_mac

three_bytes-written : write_packet toy three_bytes 300 key 42 ≡ some three_bytes_written
unfolding write_packet write_encrypted_packet prefix_byte sequence_number_bytes_required zero_bytes
    encrypt_aead packet_data write_sequence write_uint8
three_bytes-written = refl

read-write_history_example :
    read_packet toy context (some (after (7 ∷ 299 ∷ []))) three_bytes_written ≡ (
      some (after (300 ∷ 7 ∷ 299 ∷ [])),
      if is_replay (7 ∷ 299 ∷ []) 300 then error else ok (three_bytes, 300),
    )
read-write_history_example =
    read-write_history toy context (7 ∷ 299 ∷ []) three_bytes 300 key three_bytes_written toy-IsAead
      (omega arith, omega arith) (omega arith) (omega arith, (omega arith, tt)) (omega arith) refl
      refl refl three_bytes-written

read-write_encrypted_example :
    read_packet toy context none three_bytes_written
    ≡ passed (replay_test none 5 300) three_bytes 300
read-write_encrypted_example =
    read-write_encrypted toy context none three_bytes 300 key three_bytes_written toy-IsAead
      (omega arith, omega arith) (omega arith) (omega arith) refl refl refl three_bytes-written

length-write_packet_example :
    length three_bytes_written ≡ packet_bytes three_bytes (sequence_number_bytes_required 300)
length-write_packet_example =
    length-write_packet toy three_bytes 300 42 key three_bytes_written toy-IsAead
      (omega arith, omega arith) three_bytes-written

write_packet-fits_example : length three_bytes_written ≤ max_packet_bytes
write_packet-fits_example =
    write_packet-fits toy three_bytes 300 42 key three_bytes_written toy-IsAead
      (omega arith, omega arith) (omega arith) three_bytes-written

-- The largest payload, under the first sequence number of four bytes.
abbrev pub full_payload : List ℕ
full_payload = replicate 1200 9

abbrev pub full_written : List ℕ
full_written = 69 ∷ 0 ∷ 0 ∷ 0 ∷ 1 ∷ (replicate 1200 9 ++ zero_mac)

full-written : write_packet toy (payload full_payload) 16777216 key 42 ≡ some full_written
unfolding write_packet write_encrypted_packet prefix_byte sequence_number_bytes_required zero_bytes
    encrypt_aead packet_data write_sequence write_uint8
full-written = refl

write_packet-overflows_example : max_packet_bytes < length full_written
write_packet-overflows_example =
    write_packet-overflows toy full_payload 16777216 42 key full_written toy-IsAead
      (length-replicate {A = ℕ} 1200 9) (omega arith) (omega arith) full-written

read_packet-ne-fault_example : (read_packet toy context none (37 ∷ 44 ∷ 1 ∷ [])).1 ≢ fault
read_packet-ne-fault_example = read_packet-ne-fault toy context none (37 ∷ 44 ∷ 1 ∷ []) toy-IsAead

abbrev pub junk : List ℕ
junk = replicate 17 1

junk-closed :
    decrypt_aead toy junk
      (packet_additional_data 42 (prefix_byte three_bytes 100000))
      (nonce 100000)
      key
    ≡ none
unfolding decrypt_aead
junk-closed = refl

-- Sequence number 100000 on bytes that do not decrypt.
read_packet-forged_example :
    read_packet toy context (some (after (300 ∷ []))) (
      write_uint8 (prefix_byte three_bytes 100000)
      ++ (write_sequence (sequence_number_bytes_required 100000) 100000 ++ junk))
    ≡ (some (after (100000 ∷ 300 ∷ [])), error)
read_packet-forged_example =
    read_packet-forged toy context (300 ∷ []) three_bytes 100000 key junk (omega arith)
      (omega arith) refl refl (omega arith) junk-closed

required-IsWidth_example : IsWidth (sequence_number_bytes_required 65536) 65536
required-IsWidth_example = required-IsWidth 65536 (omega arith)
