-- ===== src/Packet/Bounded.antt =====
-- c/netcode.c: the branch of netcode_read_packet for encrypted packets stays inside the buffer.
use netcode_io.Base.{
  ℕ, zero, suc, ◌+◌, ◌*◌, ◌-◌, ◌/◌, ◌^◌, ◌≤◌, bit_and, List, length, drop, Bool, true, false, not,
  ◌&&◌, ◌||◌, if◌then◌else◌, ltb, leb, ◌==◌, Option, none, some, Option-cases, mapped-some,
  Bool-cases, length-append, length-drop, ◌≡◌, ◌≢◌, refl, arith, inl, inr,
}
use netcode_io.Wire.{
  Outcome, ok, error, fault, Reader, or_shifted, read_uint8, read_uint32, read_uint64, read_bytes,
}
use netcode_io.Wire.Safe.{
  IsSafe, >>=-IsSafe, IsSafe-mono, pure-IsSafe, read_uint8-IsSafe, read_uint32-IsSafe,
  read_uint64-IsSafe, read_bytes-IsSafe,
}
use netcode_io.Sodium.{Sodium, IsAead, decrypt_aead, mac_bytes}
use netcode_io.Token.{nonce}
use netcode_io.Replay.{ReplayProtection}
use netcode_io.Packet.{Packet, denied, disconnect, challenge, response, packet_additional_data}
use netcode_io.Packet.Sequence.{read_sequence}
use netcode_io.Packet.Read.{
  ReadContext, ReadResult, is_allowed, run_reader, read_token_packet, read_keep_alive, read_payload,
  read_packet_data, read_encrypted_data, read_replay_tested, read_encrypted_packet,
}

pub outcome-ne-fault :
    {A B : Type 0} (o : Outcome (A × B))
    → o ≢ fault
    → elim o as (λ k. Outcome A) [ ok (a, rest) ↦ ok a | error ↦ error | fault ↦ fault ] ≢ fault
outcome-ne-fault (ok (a, rest)) h = λ e. cc
outcome-ne-fault error h = λ e. cc
outcome-ne-fault fault h = absurd (h refl)

run_reader-ne-fault :
    {A : Type 0} (n : ℕ) (m : Reader A) (bs : List ℕ)
    → IsSafe n m
    → n ≤ length bs
    → run_reader m bs ≢ fault
run_reader-ne-fault n m bs safe long = elim (safe bs long) [
  | inl e ↦ rw (e, run_reader) (λ f. cc)
  | inr (a, rest, e, l) ↦ rw (e, run_reader) (λ f. cc)
]

read_sequence-IsSafe : (n i acc : ℕ) → IsSafe n (read_sequence n i acc)
unfolding read_sequence
read_sequence-IsSafe zero i acc = pure-IsSafe acc
read_sequence-IsSafe (suc n) i acc = IsSafe-mono (1 + n) (suc n) _ (omega arith) (
    >>=-IsSafe 1 n read_uint8 _ read_uint8-IsSafe
      λ value. read_sequence-IsSafe n (i + 1) (or_shifted acc value (8 * i)))

token_packet-IsSafe : (make : ℕ → List ℕ → Packet) → IsSafe 308 (read_token_packet make)
unfolding read_token_packet
token_packet-IsSafe make = >>=-IsSafe 8 300 read_uint64 _ read_uint64-IsSafe λ token_sequence.
    >>=-IsSafe 300 0 (read_bytes 300) _ (read_bytes-IsSafe 300) λ token_data. pure-IsSafe _

keep_alive-IsSafe : IsSafe 8 read_keep_alive
unfolding read_keep_alive
keep_alive-IsSafe =
    >>=-IsSafe 4 4 read_uint32 _ read_uint32-IsSafe
      λ client_index. >>=-IsSafe 4 0 read_uint32 _ read_uint32-IsSafe λ max_clients. pure-IsSafe _

payload-IsSafe : (n : ℕ) → IsSafe n (read_payload n)
unfolding read_payload
payload-IsSafe n =
    IsSafe-mono (n + 0) n _ (omega arith)
      (>>=-IsSafe n 0 (read_bytes n) _ (read_bytes-IsSafe n) λ payload_data. pure-IsSafe _)

-- A guard in front of a safe outcome.
guarded-ne-fault :
    {A : Type 0} (b : Bool) (o : Outcome A)
    → (b ≡ true → o ≢ fault)
    → (if b then o else error) ≢ fault
guarded-ne-fault true o h = h refl
guarded-ne-fault false o h = λ e. cc

pub branch-ne-fault :
    {A : Type 0} (b : Bool) (o o' : Outcome A)
    → (b ≡ true → o ≢ fault)
    → (b ≡ false → o' ≢ fault)
    → (if b then o else o') ≢ fault
branch-ne-fault true o o' h h' = h refl
branch-ne-fault false o o' h h' = h' refl

pub ok-ne-fault : {A : Type 0} (a : A) → ok a ≢ fault
ok-ne-fault a e = cc

pub error-ne-fault : (A : Type 0) → ◌≢◌ {A = Outcome A} error fault
error-ne-fault A e = cc

packet_data-ne-fault :
    (context : ReadContext) (type n : ℕ) (buffer : List ℕ)
    → n ≤ length buffer
    → read_packet_data context type n buffer ≢ fault
unfolding read_packet_data
packet_data-ne-fault context type n buffer l =
    branch-ne-fault (type == 1) _ _
      (λ e. guarded-ne-fault (n == 0 && context.can_allocate) (ok denied) λ g. ok-ne-fault denied)
      λ e.
        branch-ne-fault (type == 2) _ _
          (λ e.
            guarded-ne-fault _ _
              λ g. run_reader-ne-fault 308 _ buffer (token_packet-IsSafe challenge) (ground arith))
          λ e.
            branch-ne-fault (type == 3) _ _
              (λ e.
                guarded-ne-fault _ _ λ g.
                  run_reader-ne-fault 308 _ buffer (token_packet-IsSafe response) (ground arith))
              λ e.
                branch-ne-fault (type == 4) _ _
                  (λ e.
                    guarded-ne-fault _ _
                      λ g. run_reader-ne-fault 8 _ buffer keep_alive-IsSafe (ground arith))
                  λ e.
                    branch-ne-fault (type == 5) _ _
                      (λ e.
                        branch-ne-fault (ltb n 1) _ _ (λ g. error-ne-fault Packet)
                          λ g.
                            branch-ne-fault (ltb 1200 n) _ _ (λ g. error-ne-fault Packet)
                              λ g.
                                branch-ne-fault (not context.can_allocate) _ _
                                  (λ g. error-ne-fault Packet)
                                  λ g. run_reader-ne-fault n _ buffer (payload-IsSafe n) l)
                      λ e.
                        branch-ne-fault (type == 6) _ _
                          (λ e.
                            guarded-ne-fault (n == 0 && context.can_allocate) (ok disconnect)
                              λ g. ok-ne-fault disconnect)
                          λ e. error-ne-fault Packet

pub numbered-ne-fault :
    (o : Outcome Packet) (s : ℕ)
    → o ≢ fault
    → elim o as (λ k. ReadResult) [ ok p ↦ ok (p, s) | error ↦ error | fault ↦ fault ] ≢ fault
numbered-ne-fault (ok p) s h = λ e. cc
numbered-ne-fault error s h = λ e. cc
numbered-ne-fault fault s h = absurd (h refl)

-- Decryption keeps the buffer's length.
pub length-decrypt_aead :
    (sodium : Sodium) (message additional nonce key decrypted : List ℕ)
    → IsAead sodium
    → decrypt_aead sodium message additional nonce key ≡ some decrypted
    → length decrypted ≡ length message
unfolding decrypt_aead
length-decrypt_aead sodium message additional nonce key decrypted aead e =
    let (plain, opened, shape) = mapped-some _ _ e in
    rw shape (
      omega (
        arith,
        length-append plain (drop (length message - mac_bytes) message),
        length-drop (length message - mac_bytes) message,
        aead.shrinks plain additional nonce key message opened,
      ))

encrypted_data-ne-fault :
    (sodium : Sodium) (context : ReadContext) (key : List ℕ) (prefix s : ℕ) (buffer : List ℕ)
    → IsAead sodium
    → read_encrypted_data sodium context key prefix s buffer ≢ fault
unfolding read_encrypted_data
encrypted_data-ne-fault sodium context key prefix s buffer aead =
    branch-ne-fault (ltb (length buffer) 16) _ _ (λ g. error-ne-fault (Packet × ℕ))
      λ g.
        elim (Option-cases (
          decrypt_aead sodium buffer (packet_additional_data context.protocol_id prefix) (nonce s)
            key)) [
              | inl e ↦ rw e (error-ne-fault (Packet × ℕ))
              | inr (decrypted, e) ↦ rw e (
                  numbered-ne-fault _ s (
                    packet_data-ne-fault context _ _ decrypted
                      (omega (arith, length-decrypt_aead sodium buffer _ _ key decrypted aead e))))
            ]

replay_tested-ne-fault :
    (sodium : Sodium) (context : ReadContext) (replay : Option ReplayProtection) (key : List ℕ)
    (prefix s : ℕ) (buffer : List ℕ)
    → IsAead sodium
    → (read_replay_tested sodium context replay key prefix s buffer).1 ≢ fault
unfolding read_replay_tested
replay_tested-ne-fault sodium context none key prefix s buffer aead =
    encrypted_data-ne-fault sodium context key prefix s buffer aead
replay_tested-ne-fault sodium context (some replay) key prefix s buffer aead =
    elim (Bool-cases (ltb (bit_and prefix 15) 4)) [
      | inl early ↦ rw early (encrypted_data-ne-fault sodium context key prefix s buffer aead)
      | inr late ↦ rw late (
          branch-ne-fault _ _ _ (λ g. error-ne-fault (Packet × ℕ))
            λ g. encrypted_data-ne-fault sodium context key prefix s buffer aead)
    ]

-- A test in front of a result that leaves the replay protection alone.
refused-ne-fault :
    (b : Bool) (replay : Option ReplayProtection) (o : Option ReplayProtection × ReadResult)
    → (b ≡ false → o.1 ≢ fault)
    → (if b then (replay, error) else o).1 ≢ fault
refused-ne-fault true replay o h = error-ne-fault (Packet × ℕ)
refused-ne-fault false replay o h = h refl

sequenced-ne-fault :
    (sodium : Sodium) (context : ReadContext) (replay : Option ReplayProtection) (key : List ℕ)
    (prefix : ℕ) (buffer : List ℕ)
    → IsAead sodium
    → prefix / 2 ^ 4 ≤ length buffer
    → (elim (read_sequence (prefix / 2 ^ 4) 0 0 buffer)
        as (λ k. Option ReplayProtection × ReadResult) [
          | ok (sequence, rest) ↦ read_replay_tested sodium context replay key prefix sequence rest
          | error ↦ (replay, error)
          | fault ↦ (replay, fault)
        ]).1
      ≢ fault
sequenced-ne-fault sodium context replay key prefix buffer aead room =
    elim (read_sequence-IsSafe (prefix / 2 ^ 4) 0 0 buffer room) [
      | inl e ↦ rw e (error-ne-fault (Packet × ℕ))
      | inr (s, rest, e, l) ↦
          rw e (replay_tested-ne-fault sodium context replay key prefix s rest aead)
    ]

pub encrypted_packet-ne-fault :
    (sodium : Sodium) (context : ReadContext) (replay : Option ReplayProtection) (prefix : ℕ)
    (buffer : List ℕ)
    → IsAead sodium
    → (read_encrypted_packet sodium context replay (1 + length buffer) prefix buffer).1 ≢ fault
unfolding read_encrypted_packet
encrypted_packet-ne-fault sodium context replay prefix buffer aead =
    elim (Option-cases context.read_packet_key) [
      | inl e ↦ simp (e, read_encrypted_packet) (error-ne-fault (Packet × ℕ))
      | inr (key, e) ↦
          simp (e, read_encrypted_packet)
            (refused-ne-fault (ltb (1 + length buffer) 18) replay _ λ g.
              refused-ne-fault (leb 7 (bit_and prefix 15)) replay _ λ g.
                refused-ne-fault (not (is_allowed context (bit_and prefix 15))) replay _ λ g.
                  refused-ne-fault (ltb (prefix / 2 ^ 4) 1 || ltb 8 (prefix / 2 ^ 4)) replay _ λ g.
                    refused-ne-fault (ltb (1 + length buffer) (1 + prefix / 2 ^ 4 + 16)) replay _
                      λ room.
                        sequenced-ne-fault sodium context replay key prefix buffer aead
                          (ground arith))
    ]
