-- ===== src/Token/Private/Laws.antt =====
-- The private connect token fits its buffer beside the MAC, is read back as it was written, also
-- through encryption, and is read without leaving the buffer.
use netcode_io.Base.{
  ℕ, ◌+◌, ◌*◌, ◌^◌, ◌≤◌, ◌<◌, List, ◌++◌, length, take, drop, length-append, length-replicate,
  length-take-le, length-drop, take-append_ge, drop-append_eq, length-take_of_le, false, Bool-cases,
  ltb, ◌==◌, some, ◌≡◌, refl, ap, ◌∙◌, arith, ◌≢◌, inl, inr,
}
use netcode_io.Base.Int.{ℤ, pos, negsuc, to_uint32, to_int32, to_uint32-lt, to_int32-to_uint32}
use netcode_io.Wire.{ok, fault, >>=-ok, write_bytes, read_uint32, read_uint64, read_bytes}
use netcode_io.Wire.RoundTrip.{
  read-write_uint32, read-write_uint64, read-write_bytes, read_bytes-whole, write_uint32-IsBytes,
  write_uint64-IsBytes,
}
use netcode_io.Wire.Safe.{
  IsSafe, >>=-IsSafe, IsSafe-mono, pure-IsSafe, fail-IsSafe, read_uint32-IsSafe, read_uint64-IsSafe,
  read_bytes-IsSafe,
}
use netcode_io.Address.{write_addresses, read_addresses}
use netcode_io.Address.Laws.{read-write_addresses}
use netcode_io.Address.Size.{length-write_addresses, read_addresses-IsSafe}
use netcode_io.Sodium.{Sodium, IsAead, decrypt-encrypt_aead, key_bytes}
use netcode_io.Token.{connect_token_private_bytes}
use netcode_io.Token.Private.{
  ConnectTokenPrivate, IsTokenPrivate, private_fields, write_connect_token_private,
  encrypt_connect_token_private, decrypt_connect_token_private, read_private_servers,
  read_private_fields, read_connect_token_private,
}
use mathlib.Core.List.{append_assoc}

pub to_int32_small : (n : ℕ) → n < 2 ^ 31 → to_int32 n ≡ pos n
unfolding to_int32
to_int32_small n h = ground arith

-- The fields leave room for the MAC: with 32 IPv6 servers they take 944 of the 1008 bytes.
pub length-private_fields :
    (t : ConnectTokenPrivate) → IsTokenPrivate t → length (private_fields t) ≤ 944
unfolding private_fields
length-private_fields t v = simp length-append (
    omega (
      arith,
      (write_uint64-IsBytes t.client_id).0,
      (write_uint32-IsBytes (to_uint32 t.timeout_seconds)).0,
      (write_uint32-IsBytes (length t.server_addresses)).0,
      length-write_addresses t.server_addresses,
      length-take-le 32 t.client_to_server_key,
      length-take-le 32 t.server_to_client_key,
      length-take-le 256 t.user_data,
      v.servers_fit,
    ))

read-private_servers :
    (t : ConnectTokenPrivate) (rest : List ℕ)
    → IsTokenPrivate t
    → read_private_servers t.client_id t.timeout_seconds (pos (length t.server_addresses)) (
        write_addresses t.server_addresses
        ++ (write_bytes t.client_to_server_key key_bytes
            ++ (write_bytes t.server_to_client_key key_bytes
                ++ (write_bytes t.user_data 256 ++ rest))))
      ≡ ok (t, rest)
unfolding read_private_servers
read-private_servers t rest v =
    let nonzero : (length t.server_addresses == 0) ≡ false = ground (arith, v.some_server) in
    let few : ltb 32 (length t.server_addresses) ≡ false = ground (arith, v.servers_fit) in
    rw (nonzero, few)
      (>>=-ok (read_addresses _) _ (read-write_addresses t.server_addresses _ v.servers_in)
        ∙ >>=-ok (read_bytes _) _ (read-write_bytes 32 t.client_to_server_key _ v.client_key_in.0)
        ∙ >>=-ok (read_bytes _) _ (read-write_bytes 32 t.server_to_client_key _ v.server_key_in.0)
        ∙ >>=-ok (read_bytes _) _ (read-write_bytes 256 t.user_data rest v.user_data_in.0))

-- Behind the fields of a token anything may stand.
pub read-private_fields :
    (t : ConnectTokenPrivate) (rest : List ℕ)
    → IsTokenPrivate t
    → read_private_fields (private_fields t ++ rest) ≡ ok (t, rest)
unfolding read_private_fields private_fields
read-private_fields t rest v = simp append_assoc (
    >>=-ok read_uint64 _ (read-write_uint64 t.client_id _ v.client_id_in)
    ∙ >>=-ok read_uint32 _
        (read-write_uint32 (to_uint32 t.timeout_seconds) _ (to_uint32-lt t.timeout_seconds))
    ∙ >>=-ok read_uint32 _
        (read-write_uint32 (length t.server_addresses) _ (omega (arith, v.servers_fit)))
    ∙ rw
        (
          to_int32-to_uint32 t.timeout_seconds v.timeout_in,
          to_int32_small (length t.server_addresses) (omega (arith, v.servers_fit)),
        )
        (read-private_servers t rest v))

pub length-write_private :
    (t : ConnectTokenPrivate)
    → IsTokenPrivate t
    → length (write_connect_token_private t) ≡ connect_token_private_bytes
unfolding write_connect_token_private
length-write_private t v =
    simp (length-append, length-replicate) (omega (arith, length-private_fields t v))

-- A buffer of 1024 bytes that begins with the fields of a token is read as that token.
pub read-private_front :
    (t : ConnectTokenPrivate) (rest buffer : List ℕ)
    → IsTokenPrivate t
    → buffer ≡ private_fields t ++ rest
    → length buffer ≡ connect_token_private_bytes
    → read_connect_token_private buffer ≡ ok t
unfolding read_connect_token_private
read-private_front t rest buffer v e l =
    let long : ltb (length buffer) 1024 ≡ false = ground arith in
    rw (long, e) (rw (read-private_fields t rest v))

pub read-write_private :
    (t : ConnectTokenPrivate)
    → IsTokenPrivate t
    → read_connect_token_private (write_connect_token_private t) ≡ ok t
unfolding write_connect_token_private
read-write_private t v = read-private_front t _ _ v refl (length-write_private t v)

-- The part of the buffer that is encrypted holds all fields of the token.
pub front_of_private :
    (t : ConnectTokenPrivate)
    → IsTokenPrivate t
    → (zeros : List ℕ) × (take 1008 (write_connect_token_private t) ≡ private_fields t ++ zeros)
unfolding write_connect_token_private
front_of_private t v =
    (_, take-append_ge 1008 (private_fields t) _ (omega (arith, length-private_fields t v)))

-- A token that was written and encrypted decrypts, under the same version, protocol, expiry,
-- sequence and key, to a buffer that reads as that token and ends in the MAC.
pub open-seal_private :
    (sodium : Sodium) (t : ConnectTokenPrivate) (version key cipher : List ℕ)
    (protocol_id expire sequence : ℕ)
    → IsAead sodium
    → IsTokenPrivate t
    → encrypt_connect_token_private sodium
        (write_connect_token_private t)
        version
        protocol_id
        expire
        sequence
        key
      ≡ some cipher
    → (buffer : List ℕ) × (decrypt_connect_token_private sodium cipher version protocol_id expire
          sequence key
        ≡ ok buffer)
      × (read_connect_token_private buffer ≡ ok t)
      × (drop 1008 buffer ≡ drop 1008 cipher)
      × (length buffer ≡ connect_token_private_bytes)
      × (length cipher ≡ connect_token_private_bytes)
unfolding encrypt_connect_token_private decrypt_connect_token_private
open-seal_private sodium t version key cipher protocol_id expire sequence aead v e =
    let plain = take 1008 (write_connect_token_private t) in
    let plain_length : length plain ≡ 1008 =
      length-take_of_le 1008 _ (omega (arith, length-write_private t v)) in
    let (opened, cipher_length) = decrypt-encrypt_aead sodium plain _ _ key cipher aead e in
    let cipher_long : length cipher ≡ 1024 = omega arith in
    let whole = read_bytes-whole 1024 cipher cipher_long in
    let mac = drop (length plain) cipher in
    let (zeros, front) = front_of_private t v in
    let buffer_length : length (plain ++ mac) ≡ 1024 =
      omega (arith, length-append plain mac, length-drop (length plain) cipher) in
    (
      plain ++ mac,
      rw (whole, decrypt_connect_token_private, opened) refl,
      read-private_front t (zeros ++ mac) _ v
          (ap (λ xs. xs ++ mac) front ∙ append_assoc (private_fields t) zeros mac) buffer_length,
      drop-append_eq 1008 plain mac plain_length ∙ ap (λ k. drop k cipher) plain_length,
      buffer_length,
      omega arith,
    )

servers_then-IsSafe :
    (client_id : ℕ) (timeout z : ℤ) → IsSafe 928 (read_private_servers client_id timeout z)
unfolding read_private_servers
servers_then-IsSafe client_id timeout (negsuc n) =
    IsSafe-mono 0 928 _ (omega arith) (fail-IsSafe ConnectTokenPrivate)
servers_then-IsSafe client_id timeout (pos n) = elim (Bool-cases (n == 0)) [
  | inl e ↦ rw e (IsSafe-mono 0 928 _ (omega arith) (fail-IsSafe ConnectTokenPrivate))
  | inr e ↦ rw e (elim (Bool-cases (ltb 32 n)) [
    | inl many ↦ rw many (IsSafe-mono 0 928 _ (omega arith) (fail-IsSafe ConnectTokenPrivate))
    | inr few ↦ rw few (
        IsSafe-mono (19 * n + (32 + (32 + (256 + 0)))) 928 _ (ground arith) (
          >>=-IsSafe (19 * n) _ (read_addresses n) _ (read_addresses-IsSafe n) λ addresses.
            >>=-IsSafe 32 _ (read_bytes 32) _ (read_bytes-IsSafe 32) λ client_key.
              >>=-IsSafe 32 _ (read_bytes 32) _ (read_bytes-IsSafe 32) λ server_key.
                >>=-IsSafe 256 0 (read_bytes 256) _ (read_bytes-IsSafe 256)
                  λ user_data. pure-IsSafe _))
  ])
]

private_fields-IsSafe : IsSafe 944 read_private_fields
unfolding read_private_fields
private_fields-IsSafe = >>=-IsSafe 8 936 read_uint64 _ read_uint64-IsSafe λ client_id.
    >>=-IsSafe 4 932 read_uint32 _ read_uint32-IsSafe λ timeout.
      >>=-IsSafe 4 928 read_uint32 _ read_uint32-IsSafe λ servers. servers_then-IsSafe client_id _ _

-- On no buffer, of whatever length and content, does the reader of a private token leave it.
pub read_private-ne-fault : (buffer : List ℕ) → read_connect_token_private buffer ≢ fault
unfolding read_connect_token_private
read_private-ne-fault buffer = elim (Bool-cases (ltb (length buffer) 1024)) [
  | inl short ↦ rw short (λ e. cc)
  | inr long ↦ rw long (elim (private_fields-IsSafe buffer (ground arith)) [
    | inl e ↦ rw e (λ f. cc)
    | inr (t, rest, e, l) ↦ rw e (λ f. cc)
  ])
]
