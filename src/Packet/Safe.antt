-- ===== src/Packet/Safe.antt =====
-- c/netcode.c: netcode_read_packet stays inside the buffer it is given.
use netcode_io.Base.{
  ℕ, ◌+◌, ◌≤◌, List, [], ◌∷◌, length, Bool, true, false, not, if◌then◌else◌, leb, ◌==◌, ◌≡◌, ◌⊎◌,
  ◌∙◌, refl, Option, Option-cases, Bool-cases, ◌≢◌, arith, inl, inr,
}
use netcode_io.Wire.{ok, error, fault, Reader, ◌>>=◌, fail, read_uint64, read_bytes}
use netcode_io.Wire.Safe.{IsSafe, read_uint64-IsSafe, read_bytes-IsSafe, read_bytes-prefix}
use netcode_io.Sodium.{Sodium, IsAead, decrypt_aead}
use netcode_io.Token.{equal_bytes, version_info, nonce, token_additional_data}
use netcode_io.Token.Private.{decrypt_connect_token_private}
use netcode_io.Replay.{ReplayProtection}
use netcode_io.Packet.{Packet}
use netcode_io.Packet.Read.{
  ReadContext, is_allowed, run_reader, read_request_token, read_request_fields, read_request_packet,
  read_packet,
}
use netcode_io.Packet.Bounded.{
  outcome-ne-fault, branch-ne-fault, ok-ne-fault, error-ne-fault, numbered-ne-fault,
  length-decrypt_aead, encrypted_packet-ne-fault,
}

bind-ne-fault :
    {A B : Type 0} (n k : ℕ) (m : Reader A) (f : A → Reader B) (bs : List ℕ)
    → IsSafe n m
    → n + k ≤ length bs
    → ((a : A) (rest : List ℕ) → k ≤ length rest → f a rest ≢ fault)
    → (m >>= f) bs ≢ fault
bind-ne-fault n k m f bs safe l h = elim (safe bs (omega arith)) [
  | inl e ↦ rw (e, ◌>>=◌) (λ g. cc)
  | inr (a, rest, e, l') ↦ rw (e, ◌>>=◌) (h a rest (omega arith))
]

test-ne-fault :
    {A : Type 0} (b : Bool) (m : Reader A) (bs : List ℕ)
    → m bs ≢ fault
    → (if b then fail else m) bs ≢ fault
test-ne-fault true m bs h = λ e. cc
test-ne-fault false m bs h = h

-- With 1024 bytes the token is read inside its buffer, and what decrypts is as long.
decrypt_token-cases :
    (sodium : Sodium) (buffer version : List ℕ) (protocol expire s : ℕ) (key : List ℕ)
    → IsAead sodium
    → 1024 ≤ length buffer
    → (decrypt_connect_token_private sodium buffer version protocol expire s key ≡ error)
      ⊎ ((decrypted : List ℕ) × (decrypt_connect_token_private sodium buffer version protocol expire
              s key
            ≡ ok decrypted)
          × (length decrypted ≡ 1024))
unfolding decrypt_connect_token_private
decrypt_token-cases sodium buffer version protocol expire s key aead l =
    let (cipher, rest, e, whole) = read_bytes-prefix 1024 buffer l in
    elim (Option-cases
      (decrypt_aead sodium cipher (token_additional_data version protocol expire) (nonce s) key)) [
        | inl shut ↦ inl (rw (e, decrypt_connect_token_private, shut) refl)
        | inr (decrypted, opened) ↦ inr (
          decrypted,
          rw (e, decrypt_connect_token_private, opened) refl,
          length-decrypt_aead sodium cipher _ _ key decrypted aead opened ∙ whole,
        )
      ]

request_token-ne-fault :
    (sodium : Sodium) (context : ReadContext) (key version : List ℕ) (protocol expire s : ℕ)
    (buffer : List ℕ)
    → IsAead sodium
    → 1024 ≤ length buffer
    → read_request_token sodium context key version protocol expire s buffer ≢ fault
unfolding read_request_token
request_token-ne-fault sodium context key version protocol expire s buffer aead l =
    elim (decrypt_token-cases sodium buffer version context.protocol_id expire s key aead l) [
      | inl e ↦ simp (e, read_request_token) (error-ne-fault (Packet × List ℕ))
      | inr (decrypted, e, whole) ↦
          simp (e, read_request_token)
            (branch-ne-fault (not context.can_allocate) _ _ (λ g. error-ne-fault (Packet × List ℕ))
              λ g.
                bind-ne-fault 1024 0 (read_bytes 1024) _ decrypted (read_bytes-IsSafe 1024)
                  (omega arith) λ token_data rest room. ok-ne-fault _)
    ]

request_fields-ne-fault :
    (sodium : Sodium) (context : ReadContext) (key buffer : List ℕ)
    → IsAead sodium
    → 1061 ≤ length buffer
    → read_request_fields sodium context key buffer ≢ fault
unfolding read_request_fields
request_fields-ne-fault sodium context key buffer aead l =
    bind-ne-fault 13 1048 (read_bytes 13) _ buffer (read_bytes-IsSafe 13) l λ version rest l.
      test-ne-fault (not (equal_bytes version version_info)) _ rest (
        bind-ne-fault 8 1040 read_uint64 _ rest read_uint64-IsSafe l λ protocol rest l.
          test-ne-fault (not (protocol == context.protocol_id)) _ rest (
            bind-ne-fault 8 1032 read_uint64 _ rest read_uint64-IsSafe l λ expire rest l.
              test-ne-fault (leb expire context.current_timestamp) _ rest (
                bind-ne-fault 8 1024 read_uint64 _ rest read_uint64-IsSafe l
                  λ token_sequence rest l.
                    request_token-ne-fault sodium context key version protocol expire token_sequence
                      rest aead l)))

run-ne-fault : {A : Type 0} (m : Reader A) (bs : List ℕ) → m bs ≢ fault → run_reader m bs ≢ fault
run-ne-fault m bs h = outcome-ne-fault (m bs) h

request_packet-ne-fault :
    (sodium : Sodium) (context : ReadContext) (buffer : List ℕ)
    → IsAead sodium
    → read_request_packet sodium context (1 + length buffer) buffer ≢ fault
unfolding read_request_packet
request_packet-ne-fault sodium context buffer aead =
    branch-ne-fault (not (is_allowed context 0)) _ _ (λ g. error-ne-fault Packet)
      λ g.
        branch-ne-fault (not (1 + length buffer == 1062)) _ _ (λ g. error-ne-fault Packet)
          λ whole. elim (Option-cases context.private_key) [
            | inl e ↦ simp (e, read_request_packet) (error-ne-fault Packet)
            | inr (key, e) ↦
                simp (e, read_request_packet)
                  (run-ne-fault (read_request_fields sodium context key) buffer
                    (request_fields-ne-fault sodium context key buffer aead (ground arith)))
          ]

-- Whatever bytes arrive, netcode_read_packet reads none behind the end of the buffer: neither in its
-- fields, nor in the 1024 bytes of a request's token, nor in the copy of a payload. The AEAD functions
-- are assumed to behave as documented.
pub read_packet-ne-fault :
    (sodium : Sodium) (context : ReadContext) (replay : Option ReplayProtection) (buffer : List ℕ)
    → IsAead sodium
    → (read_packet sodium context replay buffer).1 ≢ fault
unfolding read_packet
read_packet-ne-fault sodium context replay [] aead = error-ne-fault (Packet × ℕ)
read_packet-ne-fault sodium context replay (prefix ∷ buffer) aead =
    elim (Bool-cases (prefix == 0)) [
      | inl e ↦ rw e (numbered-ne-fault _ 0 (request_packet-ne-fault sodium context buffer aead))
      | inr e ↦ rw e (encrypted_packet-ne-fault sodium context replay prefix buffer aead)
    ]
