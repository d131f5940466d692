-- ===== src/Sodium.antt =====
-- libsodium, which the repository calls and does not hold, as a parameter; and the two wrappers of
-- c/netcode.c around it, netcode_encrypt_aead and netcode_decrypt_aead.
use netcode_io.Base.{ℕ, ◌+◌, ◌-◌, List, ◌++◌, length, drop, Option, none, some, ◌≡◌, ap, arith}

abbrev pub mac_bytes : ℕ
mac_bytes = 16

abbrev pub key_bytes : ℕ
key_bytes = 32

-- `crypto_aead_chacha20poly1305_ietf_encrypt` and `_decrypt`, on message, additional data, nonce
-- and key. `none` is a result that is not 0.
pub record Sodium : Type 0 where
  pub encrypt : List ℕ → List ℕ → List ℕ → List ℕ → Option (List ℕ)
  pub decrypt : List ℕ → List ℕ → List ℕ → List ℕ → Option (List ℕ)

-- What libsodium documents of an AEAD construction with a MAC of 16 bytes: what was encrypted
-- decrypts under the same additional data, nonce and key, and a cipher text is as long as its
-- message and the MAC.
pub record IsAead (sodium : Sodium) : Type 0 where
  pub opens :
      (message additional nonce key cipher : List ℕ)
      → sodium.encrypt message additional nonce key ≡ some cipher
      → sodium.decrypt cipher additional nonce key ≡ some message
  pub grows :
      (message additional nonce key cipher : List ℕ)
      → sodium.encrypt message additional nonce key ≡ some cipher
      → length cipher ≡ length message + mac_bytes
  pub shrinks :
      (message additional nonce key cipher : List ℕ)
      → sodium.decrypt cipher additional nonce key ≡ some message
      → length cipher ≡ length message + mac_bytes

-- Verification recomputes the MAC: only what encryption yields is accepted.
pub IsAuthentic : Sodium → Type 0
IsAuthentic sodium =
    (message additional nonce key cipher : List ℕ)
    → sodium.decrypt cipher additional nonce key ≡ some message
    → sodium.encrypt message additional nonce key ≡ some cipher

-- The bytes that stand at `message` after a success: the message is overwritten in place, and the
-- MAC is put behind it.
unfoldable pub encrypt_aead : Sodium → List ℕ → List ℕ → List ℕ → List ℕ → Option (List ℕ)
encrypt_aead sodium message additional nonce key = sodium.encrypt message additional nonce key

-- The bytes that stand at `message` after a success. The plain text overwrites the front, and the
-- MAC stays behind it.
unfoldable pub decrypt_aead : Sodium → List ℕ → List ℕ → List ℕ → List ℕ → Option (List ℕ)
decrypt_aead sodium message additional nonce key =
    elim (sodium.decrypt message additional nonce key) [
      | none ↦ none
      | some plain ↦ some (plain ++ drop (length message - mac_bytes) message)
    ]

-- What was encrypted decrypts to the message, with the MAC left behind it.
pub decrypt-encrypt_aead :
    (sodium : Sodium) (message additional nonce key cipher : List ℕ)
    → IsAead sodium
    → encrypt_aead sodium message additional nonce key ≡ some cipher
    → (decrypt_aead sodium cipher additional nonce key
        ≡ some (message ++ drop (length message) cipher))
      × (length cipher ≡ length message + mac_bytes)
unfolding encrypt_aead decrypt_aead
decrypt-encrypt_aead sodium message additional nonce key cipher aead e =
    let l = aead.grows message additional nonce key cipher e in
    (
      rw (aead.opens message additional nonce key cipher e, decrypt_aead)
          (ap (λ k. some (message ++ drop k cipher)) (omega arith)),
      l,
    )
