-- ===== src/Packet/Request.antt =====
-- c/netcode.c: a connection request on its way from netcode_write_packet to netcode_read_packet, with
-- the private connect token inside.
use netcode_io.Base.{
  ℕ, ◌<◌, List, [], ◌∷◌, ◌++◌, length, true, false, leb, ◌==◌, if◌then◌else◌, Option, some,
  some_injective, length-append, take_all, ◌≡◌, refl, ◌∙◌, arith,
}
use netcode_io.Wire.{
  IsUint64, ok, >>=-ok, write_uint8, write_uint64, write_bytes, read_uint64, read_bytes,
}
use netcode_io.Wire.RoundTrip.{
  read-write_uint64, read-write_bytes, read_bytes-whole, write_uint64-IsBytes,
}
use netcode_io.Sodium.{Sodium, IsAead}
use netcode_io.Token.{version_info, connect_token_private_bytes}
use netcode_io.Token.Private.{
  ConnectTokenPrivate, IsTokenPrivate, write_connect_token_private, encrypt_connect_token_private,
  decrypt_connect_token_private, read_connect_token_private,
}
use netcode_io.Token.Private.Laws.{open-seal_private}
use netcode_io.Replay.{ReplayProtection}
use netcode_io.Packet.{request}
use netcode_io.Packet.Write.{write_packet}
use netcode_io.Packet.Read.{
  ReadContext, is_allowed, run_reader, read_request_token, read_request_fields, read_request_packet,
  read_packet,
}
use mathlib.Core.List.{append_assoc}

read-request_token :
    (sodium : Sodium) (context : ReadContext) (key version : List ℕ) (protocol expire sequence : ℕ)
    (cipher buffer : List ℕ)
    → decrypt_connect_token_private sodium cipher version context.protocol_id expire sequence key
      ≡ ok buffer
    → length buffer ≡ connect_token_private_bytes
    → context.can_allocate ≡ true
    → read_request_token sodium context key version protocol expire sequence cipher
      ≡ ok (request version protocol expire sequence buffer, [])
unfolding read_request_token
read-request_token sodium context key version protocol expire sequence cipher buffer e l memory =
    let whole = read_bytes-whole 1024 buffer l in
    simp (read_request_token, e, memory, if◌then◌else◌) (>>=-ok (read_bytes 1024) _ whole)

read-request_fields :
    (sodium : Sodium) (context : ReadContext) (key : List ℕ) (expire sequence : ℕ)
    (cipher buffer : List ℕ)
    → IsUint64 context.protocol_id
    → IsUint64 expire
    → IsUint64 sequence
    → context.current_timestamp < expire
    → read_request_token sodium context key version_info context.protocol_id expire sequence cipher
      ≡ ok (request version_info context.protocol_id expire sequence buffer, [])
    → read_request_fields sodium context key (
        write_bytes version_info 13
        ++ (write_uint64 context.protocol_id
            ++ (write_uint64 expire ++ (write_uint64 sequence ++ cipher))))
      ≡ ok (request version_info context.protocol_id expire sequence buffer, [])
unfolding read_request_fields
read-request_fields sodium context key expire sequence cipher buffer hp he hs later e =
    let same : (context.protocol_id == context.protocol_id) ≡ true = ground arith in
    let valid : leb expire context.current_timestamp ≡ false = ground arith in
    >>=-ok (read_bytes 13) _ (read-write_bytes 13 version_info _ refl)
    ∙ >>=-ok read_uint64 _ (read-write_uint64 context.protocol_id _ hp)
    ∙ rw same (
        >>=-ok read_uint64 _ (read-write_uint64 expire _ he)
        ∙ rw valid (>>=-ok read_uint64 _ (read-write_uint64 sequence _ hs) ∙ e))

length-request :
    (a b c : ℕ) (cipher : List ℕ)
    → length cipher ≡ connect_token_private_bytes
    → length (
        write_bytes version_info 13
        ++ (write_uint64 a ++ (write_uint64 b ++ (write_uint64 c ++ cipher))))
      ≡ 1061
length-request a b c cipher l = simp length-append (
    omega
      (arith, (write_uint64-IsBytes a).0, (write_uint64-IsBytes b).0, (write_uint64-IsBytes c).0))

-- A connection request that carries a private connect token which was sealed under the server's
-- private key is accepted by a server that allows requests, has the key, runs the protocol, gets
-- memory, and whose clock is before the expiry: it gets the request, with a buffer that reads as
-- the token, sequence number 0, and an unchanged replay protection.
pub read-write_request :
    (sodium : Sodium) (context : ReadContext) (replay : Option ReplayProtection)
    (t : ConnectTokenPrivate) (expire sequence s : ℕ) (key write_key cipher bytes : List ℕ)
    → IsAead sodium
    → IsTokenPrivate t
    → IsUint64 context.protocol_id
    → IsUint64 expire
    → IsUint64 sequence
    → context.current_timestamp < expire
    → context.private_key ≡ some key
    → is_allowed context 0 ≡ true
    → context.can_allocate ≡ true
    → encrypt_connect_token_private sodium
        (write_connect_token_private t)
        version_info
        context.protocol_id
        expire
        sequence
        key
      ≡ some cipher
    → write_packet sodium
        (request version_info context.protocol_id expire sequence cipher)
        s
        write_key
        context.protocol_id
      ≡ some bytes
    → (buffer : List ℕ) × (read_packet sodium context replay bytes
        ≡ (replay, ok (request version_info context.protocol_id expire sequence buffer, 0)))
      × (read_connect_token_private buffer ≡ ok t)
unfolding read_packet read_request_packet write_packet write_uint8
read-write_request sodium context replay t expire sequence s key write_key cipher bytes aead valid
      hp he hs later k allowed memory sealed e =
    let (buffer, opened, token, mac, l, cl) =
      open-seal_private sodium t version_info key cipher context.protocol_id expire sequence aead
        valid sealed in
    let taken =
      read-request_fields sodium context key expire sequence cipher buffer hp he hs later (
        read-request_token sodium context key version_info context.protocol_id expire sequence
          cipher buffer opened l memory) in
    let shape : bytes
        ≡ 0
          ∷ (write_bytes version_info 13
              ++ (write_uint64 context.protocol_id
                  ++ (write_uint64 expire ++ (write_uint64 sequence ++ cipher)))) =
      some_injective e ∙ simp (append_assoc, take_all 1024 cipher (omega arith)) refl in
    let total = length-request context.protocol_id expire sequence cipher cl in
    (
      buffer,
      rw (shape, if◌then◌else◌)
          (simp (allowed, total, k, taken, if◌then◌else◌, read_request_packet, run_reader) refl),
      token,
    )
