-- ===== src/Token/Public/Laws.antt =====
-- The connect token fits its buffer, is read back as it was written, and is read without leaving
-- the buffer.
use netcode_io.Base.{
  ℕ, ◌+◌, ◌*◌, ◌≤◌, List, ◌++◌, length, length-append, length-replicate, length-take-le, false, not,
  ◌||◌, Bool-cases, ltb, ◌==◌, ◌≡◌, ◌≢◌, refl, sym, ap, ◌∙◌, arith, inl, inr,
}
use netcode_io.Base.Int.{ℤ, pos, negsuc, to_uint32, to_uint32-lt, to_int32-to_uint32}
use netcode_io.Wire.{
  ok, fault, >>=-ok, write_uint32, write_uint64, write_bytes, read_uint32, read_uint64, read_bytes,
}
use netcode_io.Wire.RoundTrip.{
  read-write_uint32, read-write_uint64, read-write_bytes, write_uint32-IsBytes,
  write_uint64-IsBytes,
}
use netcode_io.Wire.Safe.{
  IsSafe, >>=-IsSafe, IsSafe-mono, pure-IsSafe, fail-IsSafe, read_uint32-IsSafe, read_uint64-IsSafe,
  read_bytes-IsSafe,
}
use netcode_io.Address.{write_addresses, read_addresses}
use netcode_io.Address.Laws.{read-write_addresses}
use netcode_io.Address.Size.{length-write_addresses, read_addresses-IsSafe}
use netcode_io.Sodium.{key_bytes}
use netcode_io.Token.{connect_token_bytes, version_info, equal_bytes}
use netcode_io.Token.Private.Laws.{to_int32_small}
use netcode_io.Token.Public.{
  ConnectToken, IsToken, token_fields, write_connect_token, read_token_servers, read_token_rest,
  read_token_version, read_token_fields, read_connect_token,
}
use mathlib.Core.List.{append_assoc}

-- With 32 IPv6 servers the fields take 1749 of the 2048 bytes.
length-token_fields : (t : ConnectToken) → IsToken t → length (token_fields t) ≤ 1749
unfolding token_fields
length-token_fields t v = simp length-append (
    omega (
      arith,
      length-take-le 13 t.version,
      (write_uint64-IsBytes t.protocol_id).0,
      (write_uint64-IsBytes t.create_timestamp).0,
      (write_uint64-IsBytes t.expire_timestamp).0,
      (write_uint64-IsBytes t.sequence).0,
      length-take-le 1024 t.private_data,
      (write_uint32-IsBytes (to_uint32 t.timeout_seconds)).0,
      (write_uint32-IsBytes (length t.server_addresses)).0,
      length-write_addresses t.server_addresses,
      length-take-le 32 t.client_to_server_key,
      length-take-le 32 t.server_to_client_key,
      v.servers_fit,
    ))

-- A valid token fills its buffer of 2048 bytes exactly, and its fields take 1749 of them at most.
pub length-write_token :
    (t : ConnectToken)
    → IsToken t
    → (length (write_connect_token t) ≡ connect_token_bytes) × (length (token_fields t) ≤ 1749)
unfolding write_connect_token
length-write_token t v = (
  simp (length-append, length-replicate) (omega (arith, length-token_fields t v)),
  length-token_fields t v,
)

read-token_servers :
    (t u : ConnectToken) (rest : List ℕ)
    → IsToken t
    → t ≡ record u {
      server_addresses = t.server_addresses;
      client_to_server_key = t.client_to_server_key;
      server_to_client_key = t.server_to_client_key;
    }
    → read_token_servers u (pos (length t.server_addresses)) (
        write_addresses t.server_addresses
        ++ (write_bytes t.client_to_server_key key_bytes
            ++ (write_bytes t.server_to_client_key key_bytes ++ rest)))
      ≡ ok (t, rest)
unfolding read_token_servers
read-token_servers t u rest v e =
    let fits : (length t.server_addresses == 0 || ltb 32 (length t.server_addresses)) ≡ false =
      ground (arith, v.some_server, v.servers_fit) in
    rw fits (
      >>=-ok (read_addresses _) _ (read-write_addresses t.server_addresses _ v.servers_in)
      ∙ >>=-ok (read_bytes _) _ (read-write_bytes 32 t.client_to_server_key _ v.client_key_in.0)
      ∙ >>=-ok (read_bytes _) _ (read-write_bytes 32 t.server_to_client_key rest v.server_key_in.0)
      ∙ ap (λ s. ok (s, rest)) (sym e))

read-token_rest :
    (t : ConnectToken) (rest : List ℕ)
    → IsToken t
    → read_token_rest t.version t.protocol_id t.create_timestamp t.expire_timestamp (
        write_uint64 t.sequence
        ++ (write_bytes t.private_data 1024
            ++ (write_uint32 (to_uint32 t.timeout_seconds)
                ++ (write_uint32 (length t.server_addresses)
                    ++ (write_addresses t.server_addresses
                        ++ (write_bytes t.client_to_server_key key_bytes
                            ++ (write_bytes t.server_to_client_key key_bytes ++ rest)))))))
      ≡ ok (t, rest)
unfolding read_token_rest
read-token_rest t rest v =
    let ordered : ltb t.expire_timestamp t.create_timestamp ≡ false =
      ground (arith, v.create_first) in
    rw ordered (
      >>=-ok read_uint64 _ (read-write_uint64 t.sequence _ v.sequence_in)
      ∙ >>=-ok (read_bytes _) _ (read-write_bytes 1024 t.private_data _ v.private_data_in)
      ∙ >>=-ok read_uint32 _
          (read-write_uint32 (to_uint32 t.timeout_seconds) _ (to_uint32-lt t.timeout_seconds))
      ∙ >>=-ok read_uint32 _
          (read-write_uint32 (length t.server_addresses) _ (omega (arith, v.servers_fit)))
      ∙ rw
          (
            to_int32-to_uint32 t.timeout_seconds v.timeout_in,
            to_int32_small (length t.server_addresses) (omega (arith, v.servers_fit)),
          )
          (read-token_servers t _ rest v refl))

read-token_version :
    (t : ConnectToken) (rest : List ℕ)
    → IsToken t
    → read_token_version t.version (
        write_uint64 t.protocol_id
        ++ (write_uint64 t.create_timestamp
            ++ (write_uint64 t.expire_timestamp
                ++ (write_uint64 t.sequence
                    ++ (write_bytes t.private_data 1024
                        ++ (write_uint32 (to_uint32 t.timeout_seconds)
                            ++ (write_uint32 (length t.server_addresses)
                                ++ (write_addresses t.server_addresses
                                    ++ (write_bytes t.client_to_server_key key_bytes
                                        ++ (write_bytes t.server_to_client_key key_bytes
                                            ++ rest))))))))))
      ≡ ok (t, rest)
unfolding read_token_version
read-token_version t rest v =
    let same : not (equal_bytes t.version version_info) ≡ false = rw v.version_is in
    rw same (
      >>=-ok read_uint64 _ (read-write_uint64 t.protocol_id _ v.protocol_id_in)
      ∙ >>=-ok read_uint64 _ (read-write_uint64 t.create_timestamp _ v.create_in)
      ∙ >>=-ok read_uint64 _ (read-write_uint64 t.expire_timestamp _ v.expire_in)
      ∙ read-token_rest t rest v)

read-token_fields :
    (t : ConnectToken) (rest : List ℕ)
    → IsToken t
    → read_token_fields (token_fields t ++ rest) ≡ ok (t, rest)
unfolding read_token_fields token_fields
read-token_fields t rest v = simp append_assoc (
    >>=-ok (read_bytes 13) _ (read-write_bytes 13 t.version _ (ap length v.version_is))
    ∙ read-token_version t rest v)

-- A valid connect token is read back as it was written.
pub read-write_token :
    (t : ConnectToken) → IsToken t → read_connect_token (write_connect_token t) ≡ ok t
unfolding read_connect_token
read-write_token t v =
    let whole : not (length (write_connect_token t) == 2048) ≡ false =
      ground (arith, length-write_token t v) in
    rw whole (unfold write_connect_token in rw (read-token_fields t _ v))

servers_then-IsSafe : (t : ConnectToken) (z : ℤ) → IsSafe 672 (read_token_servers t z)
unfolding read_token_servers
servers_then-IsSafe t (negsuc n) = IsSafe-mono 0 672 _ (omega arith) (fail-IsSafe ConnectToken)
servers_then-IsSafe t (pos n) = elim (Bool-cases (n == 0 || ltb 32 n)) [
  | inl bad ↦ rw bad (IsSafe-mono 0 672 _ (omega arith) (fail-IsSafe ConnectToken))
  | inr good ↦ rw good (
      IsSafe-mono (19 * n + (32 + (32 + 0))) 672 _ (ground arith) (
        >>=-IsSafe (19 * n) _ (read_addresses n) _ (read_addresses-IsSafe n) λ addresses.
          >>=-IsSafe 32 _ (read_bytes 32) _ (read_bytes-IsSafe 32) λ client_key.
            >>=-IsSafe 32 0 (read_bytes 32) _ (read_bytes-IsSafe 32) λ server_key. pure-IsSafe _))
]

rest-IsSafe : (version : List ℕ) (p c e : ℕ) → IsSafe 1712 (read_token_rest version p c e)
unfolding read_token_rest
rest-IsSafe version p c e = elim (Bool-cases (ltb e c)) [
  | inl bad ↦ rw bad (IsSafe-mono 0 1712 _ (omega arith) (fail-IsSafe ConnectToken))
  | inr good ↦ rw good (
      >>=-IsSafe 8 1704 read_uint64 _ read_uint64-IsSafe λ sequence.
        >>=-IsSafe 1024 680 (read_bytes 1024) _ (read_bytes-IsSafe 1024) λ private_data.
          >>=-IsSafe 4 676 read_uint32 _ read_uint32-IsSafe λ timeout.
            >>=-IsSafe 4 672 read_uint32 _ read_uint32-IsSafe λ servers. servers_then-IsSafe _ _)
]

version-IsSafe : (version : List ℕ) → IsSafe 1736 (read_token_version version)
unfolding read_token_version
version-IsSafe version = elim (Bool-cases (not (equal_bytes version version_info))) [
  | inl bad ↦ rw bad (IsSafe-mono 0 1736 _ (omega arith) (fail-IsSafe ConnectToken))
  | inr good ↦ rw good (
      >>=-IsSafe 8 1728 read_uint64 _ read_uint64-IsSafe λ protocol.
        >>=-IsSafe 8 1720 read_uint64 _ read_uint64-IsSafe λ create.
          >>=-IsSafe 8 1712 read_uint64 _ read_uint64-IsSafe λ expire. rest-IsSafe _ _ _ _)
]

token_fields-IsSafe : IsSafe 1749 read_token_fields
unfolding read_token_fields
token_fields-IsSafe = >>=-IsSafe 13 1736 (read_bytes 13) _ (read_bytes-IsSafe 13) version-IsSafe

-- On no buffer, of whatever length and content, does the reader of a connect token leave it.
pub read_token-ne-fault : (buffer : List ℕ) → read_connect_token buffer ≢ fault
unfolding read_connect_token
read_token-ne-fault buffer = elim (Bool-cases (not (length buffer == 2048))) [
  | inl short ↦ rw short (λ e. cc)
  | inr long ↦ rw long (elim (token_fields-IsSafe buffer (ground arith)) [
    | inl e ↦ rw e (λ f. cc)
    | inr (t, rest, e, l) ↦ rw e (λ f. cc)
  ])
]
