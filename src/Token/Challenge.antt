-- ===== src/Token/Challenge.antt =====
-- c/netcode.c, struct netcode_challenge_token_t and its four functions.
use netcode_io.Base.{
  ℕ, ◌-◌, List, [], ◌++◌, length, take, drop, replicate, false, Bool-cases, if◌then◌else◌, ltb,
  Option, some, ◌≡◌, ◌≢◌, ap, ◌∙◌, arith, inl, inr, length-append, length-replicate,
  length-take_of_le, take-append_ge, take_all, length-drop,
}
use netcode_io.Wire.{
  IsUint64, IsBytes, Outcome, ok, error, fault, Reader, ◌>>=◌, >>=-ok, pure, write_uint64,
  write_bytes, read_uint64, read_bytes,
}
use netcode_io.Wire.RoundTrip.{read-write_uint64, read-write_bytes, write_uint64-IsBytes}
use netcode_io.Wire.Safe.{IsSafe, >>=-IsSafe, pure-IsSafe, read_uint64-IsSafe, read_bytes-IsSafe}
use netcode_io.Sodium.{Sodium, IsAead, encrypt_aead, decrypt_aead, decrypt-encrypt_aead, mac_bytes}
use netcode_io.Token.{challenge_token_bytes, user_data_bytes, nonce}
use mathlib.Core.List.{append_assoc}

pub record ChallengeToken : Type 0 where
  pub client_id : ℕ
  pub user_data : List ℕ

pub record IsChallengeToken (t : ChallengeToken) : Type 0 where
  pub client_id_in : IsUint64 t.client_id
  pub user_data_in : IsBytes user_data_bytes t.user_data

challenge_fields : ChallengeToken → List ℕ
challenge_fields t = write_uint64 t.client_id ++ write_bytes t.user_data user_data_bytes

-- The buffer is cleared, and the fields are written over its front.
unfoldable pub write_challenge_token : ChallengeToken → List ℕ
unfolding challenge_fields
write_challenge_token t =
    challenge_fields t ++ drop (length (challenge_fields t)) (replicate challenge_token_bytes 0)

unfoldable pub encrypt_challenge_token : Sodium → List ℕ → ℕ → List ℕ → Option (List ℕ)
encrypt_challenge_token sodium buffer sequence key =
    encrypt_aead sodium (take (challenge_token_bytes - mac_bytes) buffer) [] (nonce sequence) key

unfoldable pub decrypt_challenge_token : Sodium → List ℕ → ℕ → List ℕ → Option (List ℕ)
decrypt_challenge_token sodium buffer sequence key =
    decrypt_aead sodium (take challenge_token_bytes buffer) [] (nonce sequence) key

read_challenge_fields : Reader ChallengeToken
read_challenge_fields = do
  client_id ← read_uint64
  user_data ← read_bytes user_data_bytes
  pure (record { client_id = client_id; user_data = user_data })

unfoldable pub read_challenge_token : List ℕ → Outcome ChallengeToken
unfolding read_challenge_fields
read_challenge_token buffer =
    if ltb (length buffer) challenge_token_bytes
    then error
    else elim (read_challenge_fields buffer) [ ok (t, rest) ↦ ok t | error ↦ error | fault ↦ fault ]

length-challenge_fields :
    (t : ChallengeToken) → IsChallengeToken t → length (challenge_fields t) ≡ 264
unfolding challenge_fields
length-challenge_fields t v = simp length-append (
    omega (
      arith,
      (write_uint64-IsBytes t.client_id).0,
      length-take_of_le 256 t.user_data (omega (arith, v.user_data_in.0)),
    ))

-- The token fills its buffer of 300 bytes.
pub length-write_challenge :
    (t : ChallengeToken)
    → IsChallengeToken t
    → length (write_challenge_token t) ≡ challenge_token_bytes
unfolding write_challenge_token
length-write_challenge t v =
    rw
      (
        length-append (challenge_fields t) _,
        length-drop {A = ℕ} (length (challenge_fields t)) (replicate 300 0),
        length-replicate {A = ℕ} 300 0,
      )
      (omega (arith, length-challenge_fields t v))

read-challenge_fields :
    (t : ChallengeToken) (rest : List ℕ)
    → IsChallengeToken t
    → read_challenge_fields (challenge_fields t ++ rest) ≡ ok (t, rest)
unfolding read_challenge_fields challenge_fields
read-challenge_fields t rest v = simp append_assoc (
    >>=-ok read_uint64 _ (read-write_uint64 t.client_id _ v.client_id_in)
    ∙ >>=-ok (read_bytes _) _ (read-write_bytes 256 t.user_data rest v.user_data_in.0))

read-challenge_front :
    (t : ChallengeToken) (rest buffer : List ℕ)
    → IsChallengeToken t
    → buffer ≡ challenge_fields t ++ rest
    → length buffer ≡ challenge_token_bytes
    → read_challenge_token buffer ≡ ok t
unfolding read_challenge_token
read-challenge_front t rest buffer v e l =
    let long : ltb (length buffer) 300 ≡ false = ground arith in
    rw (long, e) (rw (read-challenge_fields t rest v))

-- The part of the buffer that is encrypted holds both fields.
front_of_challenge :
    (t : ChallengeToken)
    → IsChallengeToken t
    → (zeros : List ℕ) × (take 284 (write_challenge_token t) ≡ challenge_fields t ++ zeros)
unfolding write_challenge_token
front_of_challenge t v =
    (_, take-append_ge 284 (challenge_fields t) _ (omega (arith, length-challenge_fields t v)))

-- A challenge token that was written and encrypted under the server's challenge key decrypts under
-- the same sequence and key to a buffer that reads as that token.
pub open-seal_challenge :
    (sodium : Sodium) (t : ChallengeToken) (key cipher : List ℕ) (sequence : ℕ)
    → IsAead sodium
    → IsChallengeToken t
    → encrypt_challenge_token sodium (write_challenge_token t) sequence key ≡ some cipher
    → (buffer : List ℕ) × (decrypt_challenge_token sodium cipher sequence key ≡ some buffer)
      × (read_challenge_token buffer ≡ ok t)
      × (length cipher ≡ challenge_token_bytes)
unfolding encrypt_challenge_token decrypt_challenge_token
open-seal_challenge sodium t key cipher sequence aead v e =
    let plain = take 284 (write_challenge_token t) in
    let plain_length : length plain ≡ 284 =
      length-take_of_le 284 _ (omega (arith, length-write_challenge t v)) in
    let (opened, cipher_length) = decrypt-encrypt_aead sodium plain [] _ key cipher aead e in
    let whole : take 300 cipher ≡ cipher = take_all 300 cipher (omega arith) in
    let mac = drop (length plain) cipher in
    let (zeros, front) = front_of_challenge t v in
    let buffer_length : length (plain ++ mac) ≡ 300 =
      omega (arith, length-append plain mac, length-drop (length plain) cipher) in
    (
      plain ++ mac,
      rw whole opened,
      read-challenge_front t (zeros ++ mac) _ v
          (ap (λ xs. xs ++ mac) front ∙ append_assoc (challenge_fields t) zeros mac) buffer_length,
      omega arith,
    )

challenge_fields-IsSafe : IsSafe 264 read_challenge_fields
unfolding read_challenge_fields
challenge_fields-IsSafe = >>=-IsSafe 8 256 read_uint64 _ read_uint64-IsSafe λ client_id.
    >>=-IsSafe 256 0 (read_bytes 256) _ (read_bytes-IsSafe 256) λ user_data. pure-IsSafe _

-- On no buffer does the reader of a challenge token leave it.
pub read_challenge-ne-fault : (buffer : List ℕ) → read_challenge_token buffer ≢ fault
unfolding read_challenge_token
read_challenge-ne-fault buffer = elim (Bool-cases (ltb (length buffer) 300)) [
  | inl short ↦ rw short (λ e. cc)
  | inr long ↦ rw long (elim (challenge_fields-IsSafe buffer (ground arith)) [
    | inl e ↦ rw e (λ f. cc)
    | inr (t, rest, e, l) ↦ rw e (λ f. cc)
  ])
]
