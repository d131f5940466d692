-- ===== src/Packet/Forged.antt =====
-- c/netcode.c: netcode_read_packet as a receiver with replay protection over a history of packets,
-- genuine ones and ones that no key holder sent.
use netcode_io.Base.{
  ℕ, ◌≤◌, List, ◌∷◌, ◌++◌, length, All, Bool, true, false, if◌then◌else◌, ltb, none, some, ◌≡◌, ◌≢◌,
  refl, ap, ◌∙◌, arith,
}
use netcode_io.Wire.{IsUint64, ok, error, write_uint8}
use netcode_io.Sodium.{Sodium, IsAead, decrypt_aead, mac_bytes}
use netcode_io.Token.{nonce}
use netcode_io.Replay.{already_received}
use netcode_io.Replay.History.{IsCounted, after, is_replay}
use netcode_io.Replay.Verdict.{already_received_lem}
use netcode_io.Packet.{
  Packet, IsPacket, packet_type, sequence_number_bytes_required, packet_additional_data,
}
use netcode_io.Packet.Sequence.{write_sequence}
use netcode_io.Packet.Write.{prefix_byte, write_packet}
use netcode_io.Packet.Read.{
  ReadContext, is_allowed, read_encrypted_data, read_replay_tested, read_packet,
}
use netcode_io.Packet.Parts.{prefix_fields}
use netcode_io.Packet.RoundTrip.{read-encrypted_front, read-write_encrypted}

-- Take a keep-alive, disconnect or payload packet (client index and limit in 32 bits, payload of 1 to
-- 1200 bytes) that netcode_write_packet wrote under a sequence number with bit 63 clear, and a
-- receiver that has the key, runs the protocol, allows the type and gets memory, and whose replay
-- protection has seen a history of 64-bit sequence numbers. It returns the packet with its number,
-- exactly if the number is neither 256 or more behind the newest number of the history with bit 63
-- clear, nor in the history; and in either case the number joins the history.
pub read-write_history :
    (sodium : Sodium) (context : ReadContext) (history : List ℕ) (p : Packet) (s : ℕ)
    (key bytes : List ℕ)
    → IsAead sodium
    → IsPacket p
    → IsCounted s
    → All IsUint64 history
    → 4 ≤ packet_type p
    → context.read_packet_key ≡ some key
    → is_allowed context (packet_type p) ≡ true
    → context.can_allocate ≡ true
    → write_packet sodium p s key context.protocol_id ≡ some bytes
    → read_packet sodium context (some (after history)) bytes
      ≡ (some (after (s ∷ history)), if is_replay history s then error else ok (p, s))
unfolding after
read-write_history sodium context history p s key bytes aead valid counted seen late k allowed
      memory e =
    let encrypted : packet_type p ≢ 0 = omega arith in
    let tested : ltb (packet_type p) 4 ≡ false = ground arith in
    read-write_encrypted sodium context (some (after history)) p s key bytes aead valid
      (omega arith) encrypted k allowed memory e
    ∙ rw (tested, already_received_lem history s seen counted) refl

same_branch : {A : Type 0} (b : Bool) (x : A) → (if b then x else x) ≡ x
same_branch true x = refl
same_branch false x = refl

-- Bytes with the prefix and the sequence number of a keep-alive, payload or disconnect packet and
-- anything as long as a MAC behind them, which do not decrypt, are refused; but their sequence
-- number joins the history all the same.
pub read_packet-forged :
    (sodium : Sodium) (context : ReadContext) (history : List ℕ) (p : Packet) (s : ℕ)
    (key junk : List ℕ)
    → IsUint64 s
    → 4 ≤ packet_type p
    → context.read_packet_key ≡ some key
    → is_allowed context (packet_type p) ≡ true
    → mac_bytes ≤ length junk
    → decrypt_aead sodium junk
        (packet_additional_data context.protocol_id (prefix_byte p s))
        (nonce s)
        key
      ≡ none
    → read_packet sodium context (some (after history)) (
        write_uint8 (prefix_byte p s)
        ++ (write_sequence (sequence_number_bytes_required s) s ++ junk))
      ≡ (some (after (s ∷ history)), error)
unfolding after read_replay_tested read_encrypted_data
read_packet-forged sodium context history p s key junk h late k allowed long closed =
    let type = (prefix_fields p s h).1 in
    let tested : ltb (packet_type p) 4 ≡ false = ground arith in
    let short : ltb (length junk) mac_bytes ≡ false = ground arith in
    read-encrypted_front sodium context (some (after history)) p s key junk h k allowed long
    ∙ rw (type, tested, short, closed)
        (ap (λ r. (some (already_received (after history) s).0, r))
          (same_branch (already_received (after history) s).1 error))
