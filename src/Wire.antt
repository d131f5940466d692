-- ===== src/Wire.antt =====
-- c/netcode.c, netcode_write_uint8 to netcode_read_bytes: little-endian numbers and byte runs.
-- A writer returns the bytes that the C function stores at `*p`, so the pointer advances by their
-- number. A reader takes the bytes from `*p` on and returns those that it leaves.
pub mod RoundTrip
pub mod Safe
pub mod Ensures
use netcode_io.Base.{
  ℕ, zero, suc, ◌*◌, ◌/◌, ◌%◌, ◌^◌, ◌<◌, bit_and, bit_or, List, [], ◌∷◌, ◌++◌, length, take, All,
  ◌≡◌,
}

abbrev pub IsByte : ℕ → Type 0
IsByte b = b < 256

abbrev pub IsUint16 : ℕ → Type 0
IsUint16 v = v < 2 ^ 16

abbrev pub IsUint32 : ℕ → Type 0
IsUint32 v = v < 2 ^ 32

abbrev pub IsUint64 : ℕ → Type 0
IsUint64 v = v < 2 ^ 64

-- Exactly `n` bytes.
abbrev pub IsBytes : ℕ → List ℕ → Type 0
IsBytes n bs = (length bs ≡ n) × All IsByte bs

-- `error` is a NETCODE_ERROR that the code returns. `fault` is no C value: a read outside the
-- buffer, which is undefined behaviour.
pub data Outcome {ℓ} (A : Type ℓ) : Type ℓ where
  ok : A → Outcome A
  error : Outcome A
  fault : Outcome A

abbrev pub Reader : Type 0 → Type 0
Reader A = List ℕ → Outcome (A × List ℕ)

infixl 5 ◌>>=◌
abbrev pub ◌>>=◌ : {A B : Type 0} → Reader A → (A → Reader B) → Reader B
◌>>=◌ m f bs = elim (m bs) [ ok (a, rest) ↦ f a rest | error ↦ error | fault ↦ fault ]

abbrev pub pure : {A : Type 0} → A → Reader A
pure a bs = ok (a, bs)

abbrev pub fail : {A : Type 0} → Reader A
fail bs = error

-- One step of a chain whose first reader succeeds.
pub >>=-ok :
    {A B : Type 0} (m : Reader A) (f : A → Reader B) {bs : List ℕ} {a : A} {rest : List ℕ}
    → m bs ≡ ok (a, rest)
    → (m >>= f) bs ≡ f a rest
>>=-ok m f e = rw (e, ◌>>=◌)

-- The conversion of a store through `uint8_t *`.
abbrev pub to_uint8 : ℕ → ℕ
to_uint8 v = v % 256

unfoldable pub write_uint8 : ℕ → List ℕ
write_uint8 value = to_uint8 value ∷ []

unfoldable pub write_uint16 : ℕ → List ℕ
write_uint16 value = bit_and value 0xff ∷ to_uint8 (value / 2 ^ 8) ∷ []

unfoldable pub write_uint32 : ℕ → List ℕ
write_uint32 value =
    bit_and value 0xff
    ∷ bit_and (value / 2 ^ 8) 0xff
    ∷ bit_and (value / 2 ^ 16) 0xff
    ∷ to_uint8 (value / 2 ^ 24)
    ∷ []

unfoldable pub write_uint64 : ℕ → List ℕ
write_uint64 value =
    bit_and value 0xff
    ∷ bit_and (value / 2 ^ 8) 0xff
    ∷ bit_and (value / 2 ^ 16) 0xff
    ∷ bit_and (value / 2 ^ 24) 0xff
    ∷ bit_and (value / 2 ^ 32) 0xff
    ∷ bit_and (value / 2 ^ 40) 0xff
    ∷ bit_and (value / 2 ^ 48) 0xff
    ∷ to_uint8 (value / 2 ^ 56)
    ∷ []

-- The bytes of an array, of which the loop writes the first `num_bytes`.
abbrev pub write_bytes : List ℕ → ℕ → List ℕ
write_bytes byte_array num_bytes = take num_bytes byte_array

unfoldable pub read_uint8 : Reader ℕ
read_uint8 [] = fault
read_uint8 (value ∷ rest) = ok (value, rest)

-- `value |= (uint64_t) byte << shift`
abbrev pub or_shifted : ℕ → ℕ → ℕ → ℕ
or_shifted value byte shift = bit_or value (byte * 2 ^ shift)

unfoldable pub read_uint16 : Reader ℕ
unfolding read_uint8
read_uint16 = do a ← read_uint8; b ← read_uint8; pure (or_shifted a b 8)

unfoldable pub read_uint32 : Reader ℕ
unfolding read_uint8
read_uint32 = do
  a ← read_uint8
  b ← read_uint8
  c ← read_uint8
  d ← read_uint8
  pure (or_shifted (or_shifted (or_shifted a b 8) c 16) d 24)

unfoldable pub read_uint64 : Reader ℕ
unfolding read_uint8
read_uint64 = do
  a ← read_uint8
  b ← read_uint8
  c ← read_uint8
  d ← read_uint8
  e ← read_uint8
  f ← read_uint8
  g ← read_uint8
  h ← read_uint8
  let low = or_shifted (or_shifted (or_shifted a b 8) c 16) d 24
  pure (or_shifted (or_shifted (or_shifted (or_shifted low e 32) f 40) g 48) h 56)

-- The loop of `num_bytes` rounds.
unfoldable pub read_bytes : ℕ → Reader (List ℕ)
unfolding read_uint8
read_bytes zero bs = ok ([], bs)
read_bytes (suc num_bytes) [] = fault
read_bytes (suc num_bytes) (value ∷ bs) = elim (read_bytes num_bytes bs) [
  | ok (array, rest) ↦ ok (value ∷ array, rest)
  | error ↦ error
  | fault ↦ fault
]
