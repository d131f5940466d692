-- ===== src/Address/Size.antt =====
-- How many bytes the addresses of a token take, written and read.
use netcode_io.Base.{
  ℕ, zero, suc, ◌+◌, ◌*◌, ◌≤◌, List, [], ◌∷◌, length, length-append, arith, Bool-cases, inl, inr,
  ◌==◌,
}
use netcode_io.Wire.{Reader, ◌>>=◌, read_uint8, read_uint16, write_uint8, write_uint16}
use netcode_io.Wire.Safe.{
  IsSafe, >>=-IsSafe, IsSafe-mono, pure-IsSafe, fail-IsSafe, read_uint8-IsSafe, read_uint16-IsSafe,
}
use netcode_io.Address.{
  Address, unset, ipv4, ipv6, write_address, read_address_data, read_address, write_addresses,
  read_addresses, read_ipv4, read_ipv6,
}

-- An address takes 19 bytes at most.
length-write_address : (a : Address) → length (write_address a) ≤ 19
unfolding write_address write_uint8 write_uint16
length-write_address unset = omega arith
length-write_address (ipv4 a b c d port) = omega arith
length-write_address (ipv6 a b c d e f g h port) = omega arith

pub length-write_addresses :
    (addresses : List Address) → length (write_addresses addresses) ≤ 19 * length addresses
unfolding write_addresses
length-write_addresses [] = omega arith
length-write_addresses (a ∷ addresses) = omega (
  arith,
  length-append (write_address a) (write_addresses addresses),
  length-write_address a,
  length-write_addresses addresses,
)

word_then :
    {A : Type 0} (k : ℕ) (f : ℕ → Reader A)
    → ((b : ℕ) → IsSafe k (f b))
    → IsSafe (2 + k) (read_uint16 >>= f)
word_then k f h = >>=-IsSafe 2 k read_uint16 f read_uint16-IsSafe h

byte_then :
    {A : Type 0} (k : ℕ) (f : ℕ → Reader A)
    → ((b : ℕ) → IsSafe k (f b))
    → IsSafe (1 + k) (read_uint8 >>= f)
byte_then k f h = >>=-IsSafe 1 k read_uint8 f read_uint8-IsSafe h

read_ipv4-IsSafe : IsSafe 6 read_ipv4
unfolding read_ipv4
read_ipv4-IsSafe =
    byte_then 5 _
      λ a. byte_then 4 _ λ b. byte_then 3 _ λ c. byte_then 2 _ λ d. word_then 0 _ λ p. pure-IsSafe _

read_ipv6-IsSafe : IsSafe 18 read_ipv6
unfolding read_ipv6
read_ipv6-IsSafe = word_then 16 _ λ a. word_then 14 _ λ b. word_then 12 _ λ c. word_then 10 _ λ d.
    word_then 8 _
      λ e. word_then 6 _ λ f. word_then 4 _ λ g. word_then 2 _ λ h. word_then 0 _ λ p. pure-IsSafe _

read_address_data-IsSafe : (type : ℕ) → IsSafe 18 (read_address_data type)
unfolding read_address_data
read_address_data-IsSafe type = elim (Bool-cases (type == 1)) [
  | inl four ↦ rw four (IsSafe-mono 6 18 read_ipv4 (omega arith) read_ipv4-IsSafe)
  | inr other ↦ rw other (elim (Bool-cases (type == 2)) [
    | inl six ↦ rw six read_ipv6-IsSafe
    | inr bad ↦ rw bad (IsSafe-mono 0 18 _ (omega arith) (fail-IsSafe Address))
  ])
]

read_address-IsSafe : IsSafe 19 read_address
unfolding read_address
read_address-IsSafe = byte_then 18 _ read_address_data-IsSafe

pub read_addresses-IsSafe : (n : ℕ) → IsSafe (19 * n) (read_addresses n)
unfolding read_addresses
read_addresses-IsSafe zero = pure-IsSafe []
read_addresses-IsSafe (suc n) = IsSafe-mono (19 + (19 * n + 0)) (19 * suc n) _ (omega arith) (
    >>=-IsSafe 19 (19 * n + 0) read_address _ read_address-IsSafe λ a.
      >>=-IsSafe (19 * n) 0 (read_addresses n) _ (read_addresses-IsSafe n)
        λ addresses. pure-IsSafe _)
