-- ===== src/Packet/Sequence.antt =====
-- c/netcode.c, the variable-length sequence number of an encrypted packet: how many bytes it takes,
-- and that they are read back as the number.
use netcode_io.Base.{
  ℕ, zero, suc, ◌+◌, ◌-◌, ◌*◌, ◌/◌, ◌%◌, ◌^◌, ◌≤◌, ◌<◌, bit_and, List, [], ◌++◌, length, ◌≡◌, refl,
  ap, ◌∙◌, arith, inl, inr, ◌⊎◌,
}
use netcode_io.Base.Bits.{bit_and_shift, bit_and_255, bit_or_disjoint}
use netcode_io.Wire.{
  IsByte, IsUint64, ok, Reader, ◌>>=◌, >>=-ok, pure, or_shifted, write_uint8, read_uint8,
}
use netcode_io.Wire.RoundTrip.{read-write_uint8}
use netcode_io.Packet.{zero_bytes, sequence_number_bytes_required}
use native.Mathlib.Numerals.{towards_suc}
use native.Mathlib.Nat.{pow-suc, div-add-mod}

-- The loop of `netcode_write_packet` over `sequence_temp`, for the bytes left.
unfoldable pub write_sequence : ℕ → ℕ → List ℕ
write_sequence zero sequence_temp = []
write_sequence (suc n) sequence_temp =
    write_uint8 (bit_and sequence_temp 0xff) ++ write_sequence n (sequence_temp / 2 ^ 8)

-- The loop of `netcode_read_packet`: `n` bytes left, from byte `i` on, into `sequence`.
unfoldable pub read_sequence : ℕ → ℕ → ℕ → Reader ℕ
read_sequence zero i sequence = pure sequence
read_sequence (suc n) i sequence = do
  value ← read_uint8
  read_sequence n (i + 1) (or_shifted sequence value (8 * i))

-- A mask over one byte is zero exactly if that byte is.
mask_byte : (k s m : ℕ) → m ≡ 255 * 2 ^ k → bit_and s m ≡ s / 2 ^ k % 256 * 2 ^ k
mask_byte k s m e = rw (e, bit_and_shift k s 255, bit_and_255 (s / 2 ^ k))

-- The eight outcomes of the loop.
zero_bytes_cases :
    (s : ℕ)
    → s < 2 ^ 64
    → let z = zero_bytes 7 s 0xff00_0000_0000_0000 in
      ((z ≡ 0) × (2 ^ 56 ≤ s))
      ⊎ ((z ≡ 1) × (s < 2 ^ 56) × (2 ^ 48 ≤ s))
      ⊎ ((z ≡ 2) × (s < 2 ^ 48) × (2 ^ 40 ≤ s))
      ⊎ ((z ≡ 3) × (s < 2 ^ 40) × (2 ^ 32 ≤ s))
      ⊎ ((z ≡ 4) × (s < 2 ^ 32) × (2 ^ 24 ≤ s))
      ⊎ ((z ≡ 5) × (s < 2 ^ 24) × (2 ^ 16 ≤ s))
      ⊎ ((z ≡ 6) × (s < 2 ^ 16) × (2 ^ 8 ≤ s))
      ⊎ ((z ≡ 7) × (s < 2 ^ 8))
unfolding zero_bytes
zero_bytes_cases s h = ground (
  arith,
  mask_byte 56 s 0xff00_0000_0000_0000 refl,
  mask_byte 48 s 0xff_0000_0000_0000 refl,
  mask_byte 40 s 0xff00_0000_0000 refl,
  mask_byte 32 s 0xff_0000_0000 refl,
  mask_byte 24 s 0xff00_0000 refl,
  mask_byte 16 s 0xff_0000 refl,
  mask_byte 8 s 0xff00 refl,
)

-- `n` bytes hold the number, and no fewer do.
abbrev pub IsWidth : ℕ → ℕ → Type 0
IsWidth n s = (1 ≤ n) × (n ≤ 8) × (s < 256 ^ n) × ((n ≡ 1) ⊎ (256 ^ (n - 1) ≤ s))

IsWidth-of :
    (n z s : ℕ)
    → zero_bytes 7 s 0xff00_0000_0000_0000 ≡ z
    → 8 - z ≡ n
    → IsWidth n s
    → IsWidth (sequence_number_bytes_required s) s
unfolding sequence_number_bytes_required
IsWidth-of n z s e d w = rw (e, d) w

-- `netcode_sequence_number_bytes_required` is the least number of bytes, one at least, that holds
-- the 64-bit sequence number.
pub required-IsWidth :
    (sequence : ℕ) → IsUint64 sequence → IsWidth (sequence_number_bytes_required sequence) sequence
required-IsWidth s h = elim (zero_bytes_cases s h) [
  | inl (e, a) ↦ IsWidth-of 8 0 s e refl (omega arith)
  | inr (inl (e, a, b)) ↦ IsWidth-of 7 1 s e refl (omega arith)
  | inr (inr (inl (e, a, b))) ↦ IsWidth-of 6 2 s e refl (omega arith)
  | inr (inr (inr (inl (e, a, b)))) ↦ IsWidth-of 5 3 s e refl (omega arith)
  | inr (inr (inr (inr (inl (e, a, b))))) ↦ IsWidth-of 4 4 s e refl (omega arith)
  | inr (inr (inr (inr (inr (inl (e, a, b)))))) ↦ IsWidth-of 3 5 s e refl (omega arith)
  | inr (inr (inr (inr (inr (inr (inl (e, a, b))))))) ↦ IsWidth-of 2 6 s e refl (omega arith)
  | inr (inr (inr (inr (inr (inr (inr (e, a))))))) ↦ IsWidth-of 1 7 s e refl (omega arith)
]

pub length-write_sequence : (n s : ℕ) → length (write_sequence n s) ≡ n
unfolding write_sequence write_uint8
length-write_sequence zero s = refl
length-write_sequence (suc n) s = ap suc (length-write_sequence n (s / 2 ^ 8))

-- Eight more bits.
shift_eight : (i : ℕ) → 2 ^ (8 * (i + 1)) ≡ 256 * 2 ^ (8 * i)
shift_eight i =
    let e : 8 * (i + 1) ≡ 8 * i + 8 = omega arith in rw e (simp towards_suc (omega arith))

below_next :
    (i acc b : ℕ) → acc < 2 ^ (8 * i) → IsByte b → acc + b * 2 ^ (8 * i) < 2 ^ (8 * (i + 1))
below_next i acc b k h = rw (shift_eight i) (grind arith)

-- The lowest byte and the rest, both shifted up.
split_low :
    (i acc s : ℕ)
    → acc + s % 256 * 2 ^ (8 * i) + s / 256 * 2 ^ (8 * (i + 1)) ≡ acc + s * 2 ^ (8 * i)
split_low i acc s =
    rw (shift_eight i) (omega (arith, ap (λ (t : ℕ). t * 2 ^ (8 * i)) (div-add-mod s 256)))

-- The bytes are read back on top of what lies below bit `8 * i`.
pub read-write_sequence :
    (n i acc s : ℕ) (rest : List ℕ)
    → s < 256 ^ n
    → acc < 2 ^ (8 * i)
    → read_sequence n i acc (write_sequence n s ++ rest) ≡ ok (acc + s * 2 ^ (8 * i), rest)
unfolding read_sequence write_sequence write_uint8
read-write_sequence zero i acc s rest h k =
    let e : s ≡ 0 = omega arith in rw e (ap (λ t. ok (t, rest)) (omega arith))
read-write_sequence (suc n) i acc s rest h k =
    let low : IsByte (bit_and s 255) = omega (arith, bit_and_255 s) in
    let joined : or_shifted acc (bit_and s 255) (8 * i) ≡ acc + s % 256 * 2 ^ (8 * i) =
      rw (bit_and_255 s) (bit_or_disjoint (8 * i) acc (s % 256) k) in
    let below : acc + s % 256 * 2 ^ (8 * i) < 2 ^ (8 * (i + 1)) =
      below_next i acc (s % 256) k (omega arith) in
    let smaller : s / 256 < 256 ^ n = omega (arith, pow-suc 256 n) in
    >>=-ok read_uint8 (λ value. read_sequence n (i + 1) (or_shifted acc value (8 * i)))
      (read-write_uint8 (bit_and s 255) (write_sequence n (s / 256) ++ rest) low)
    ∙ rw joined (
        read-write_sequence n (i + 1) (acc + s % 256 * 2 ^ (8 * i)) (s / 256) rest smaller below
        ∙ ap (λ t. ok (t, rest)) (split_low i acc s))
