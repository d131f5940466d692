-- ===== src/Token.antt =====
-- c/netcode.c, the connect token (its private part and the public wrapper) and the challenge token.
-- What the three share: sizes, the version string, and the nonce of a sequence number.
pub mod Private
pub mod Challenge
pub mod Public
pub mod Generate
use netcode_io.Base.{ℕ, List, [], ◌∷◌, ◌++◌, Bool, true, false, ◌&&◌, ◌==◌}
use netcode_io.Wire.{write_uint32, write_uint64, write_bytes}

abbrev pub connect_token_bytes : ℕ
connect_token_bytes = 2048

abbrev pub connect_token_private_bytes : ℕ
connect_token_private_bytes = 1024

abbrev pub challenge_token_bytes : ℕ
challenge_token_bytes = 300

abbrev pub version_info_bytes : ℕ
version_info_bytes = 13

abbrev pub user_data_bytes : ℕ
user_data_bytes = 256

abbrev pub max_servers_per_connect : ℕ
max_servers_per_connect = 32

-- "NETCODE 1.01" and its terminating zero.
abbrev pub version_info : List ℕ
version_info =
    b'N' ∷ b'E' ∷ b'T' ∷ b'C' ∷ b'O' ∷ b'D' ∷ b'E' ∷ b' ' ∷ b'1' ∷ b'.' ∷ b'0' ∷ b'1' ∷ 0 ∷ []

-- The comparison of thirteen bytes, one by one.
abbrev pub equal_bytes : List ℕ → List ℕ → Bool
equal_bytes [] [] = true
equal_bytes [] (b ∷ bs) = false
equal_bytes (a ∷ as') [] = false
equal_bytes (a ∷ as') (b ∷ bs) = a == b && equal_bytes as' bs

-- The 96-bit nonce: a sequence number behind four bytes of zero.
unfoldable pub nonce : ℕ → List ℕ
nonce sequence = write_uint32 0 ++ write_uint64 sequence

-- The associated data of an encrypted private connect token.
unfoldable pub token_additional_data : List ℕ → ℕ → ℕ → List ℕ
token_additional_data version protocol_id expire_timestamp =
    write_bytes version version_info_bytes
    ++ write_uint64 protocol_id
    ++ write_uint64 expire_timestamp
