-- ===== src/Wire/RoundTrip.antt =====
-- Every writer of the wire format is undone by its reader, and writes bytes only.
use netcode_io.Base.{
  ℕ, zero, suc, ◌+◌, ◌*◌, ◌/◌, ◌%◌, ◌^◌, ◌<◌, bit_and, List, [], ◌∷◌, ◌++◌, length, ◌≡◌, refl, ap,
  arith,
}
use netcode_io.Base.Bits.{bit_or_disjoint, bit_and_255}
use netcode_io.Wire.{
  IsByte, IsUint16, IsUint32, IsUint64, IsBytes, ok, or_shifted, to_uint8, write_uint8,
  write_uint16, write_uint32, write_uint64, write_bytes, read_uint8, read_uint16, read_uint32,
  read_uint64, read_bytes,
}

join_two : (a b : ℕ) → IsByte a → or_shifted a b 8 ≡ a + b * 2 ^ 8
join_two a b h = bit_or_disjoint 8 a b h

join_four :
    (a b c d : ℕ)
    → IsByte a
    → IsByte b
    → IsByte c
    → or_shifted (or_shifted (or_shifted a b 8) c 16) d 24 ≡ a + b * 2 ^ 8 + c * 2 ^ 16 + d * 2 ^ 24
join_four a b c d ha hb hc = rw (join_two a b ha) (
    rw (bit_or_disjoint 16 (a + b * 2 ^ 8) c (omega arith))
      (bit_or_disjoint 24 (a + b * 2 ^ 8 + c * 2 ^ 16) d (omega arith)))

pub read-write_uint8 :
    (v : ℕ) (rest : List ℕ) → IsByte v → read_uint8 (write_uint8 v ++ rest) ≡ ok (v, rest)
unfolding read_uint8 write_uint8
read-write_uint8 v rest h = ground arith

pub read-write_uint16 :
    (v : ℕ) (rest : List ℕ) → IsUint16 v → read_uint16 (write_uint16 v ++ rest) ≡ ok (v, rest)
unfolding read_uint16 write_uint16
read-write_uint16 v rest h =
    let e : or_shifted (bit_and v 0xff) (v / 2 ^ 8 % 256) 8 ≡ v =
      rw (bit_and_255 v) (rw (join_two (v % 256) (v / 2 ^ 8 % 256) (omega arith)) (omega arith)) in
    ap (λ t. ok (t, rest)) e

masked-IsByte : (v : ℕ) → IsByte (bit_and v 0xff)
masked-IsByte v = omega (arith, bit_and_255 v)

pub read-write_uint32 :
    (v : ℕ) (rest : List ℕ) → IsUint32 v → read_uint32 (write_uint32 v ++ rest) ≡ ok (v, rest)
unfolding read_uint32 write_uint32
read-write_uint32 v rest h =
    ap (λ t. ok (t, rest))
      (rw
        (join_four (bit_and v 0xff) (bit_and (v / 2 ^ 8) 0xff) (bit_and (v / 2 ^ 16) 0xff)
          (to_uint8 (v / 2 ^ 24)) (masked-IsByte v) (masked-IsByte (v / 2 ^ 8))
          (masked-IsByte (v / 2 ^ 16)))
        (omega (arith, bit_and_255 v, bit_and_255 (v / 2 ^ 8), bit_and_255 (v / 2 ^ 16))))

-- Adds a byte above bit `k` to a sum below it.
or_next : (k acc sum b : ℕ) → acc ≡ sum → sum < 2 ^ k → or_shifted acc b k ≡ sum + b * 2 ^ k
or_next k acc sum b e h = rw e (bit_or_disjoint k sum b h)

join_eight :
    (a b c d e f g h : ℕ)
    → IsByte a
    → IsByte b
    → IsByte c
    → IsByte d
    → IsByte e
    → IsByte f
    → IsByte g
    → or_shifted
        (or_shifted
          (or_shifted (or_shifted (or_shifted (or_shifted (or_shifted a b 8) c 16) d 24) e 32) f 40)
          g
          48)
        h
        56
      ≡ a + b * 2 ^ 8 + c * 2 ^ 16 + d * 2 ^ 24 + e * 2 ^ 32 + f * 2 ^ 40 + g * 2 ^ 48 + h * 2 ^ 56
join_eight a b c d e f g h ha hb hc hd he hf hg =
    or_next 56 _ _ h
      (or_next 48 _ _ g
        (or_next 40 _ _ f (or_next 32 _ _ e (join_four a b c d ha hb hc) (omega arith))
          (omega arith))
        (omega arith))
      (omega arith)

pub read-write_uint64 :
    (v : ℕ) (rest : List ℕ) → IsUint64 v → read_uint64 (write_uint64 v ++ rest) ≡ ok (v, rest)
unfolding read_uint64 write_uint64
read-write_uint64 v rest h =
    ap (λ t. ok (t, rest))
      (rw
        (join_eight (bit_and v 0xff) (bit_and (v / 2 ^ 8) 0xff) (bit_and (v / 2 ^ 16) 0xff)
          (bit_and (v / 2 ^ 24) 0xff) (bit_and (v / 2 ^ 32) 0xff) (bit_and (v / 2 ^ 40) 0xff)
          (bit_and (v / 2 ^ 48) 0xff) (to_uint8 (v / 2 ^ 56)) (masked-IsByte v)
          (masked-IsByte (v / 2 ^ 8)) (masked-IsByte (v / 2 ^ 16)) (masked-IsByte (v / 2 ^ 24))
          (masked-IsByte (v / 2 ^ 32)) (masked-IsByte (v / 2 ^ 40)) (masked-IsByte (v / 2 ^ 48)))
        (omega (
          arith,
          bit_and_255 v,
          bit_and_255 (v / 2 ^ 8),
          bit_and_255 (v / 2 ^ 16),
          bit_and_255 (v / 2 ^ 24),
          bit_and_255 (v / 2 ^ 32),
          bit_and_255 (v / 2 ^ 40),
          bit_and_255 (v / 2 ^ 48),
        )))

pub read-write_bytes :
    (n : ℕ) (bs rest : List ℕ)
    → length bs ≡ n
    → read_bytes n (write_bytes bs n ++ rest) ≡ ok (bs, rest)
unfolding read_bytes
read-write_bytes zero [] rest e = refl
read-write_bytes zero (b ∷ bs) rest e = absurd (omega arith)
read-write_bytes (suc n) [] rest e = absurd (omega arith)
read-write_bytes (suc n) (b ∷ bs) rest e = rw (read-write_bytes n bs rest (omega arith))

-- A buffer read to its end.
pub read_bytes-whole : (n : ℕ) (bs : List ℕ) → length bs ≡ n → read_bytes n bs ≡ ok (bs, [])
unfolding read_bytes
read_bytes-whole zero [] e = refl
read_bytes-whole zero (b ∷ bs) e = absurd (omega arith)
read_bytes-whole (suc n) [] e = absurd (omega arith)
read_bytes-whole (suc n) (b ∷ bs) e = rw (read_bytes-whole n bs (omega arith))

-- What each writer stores is a fixed number of bytes.
pub write_uint16-IsBytes : (v : ℕ) → IsBytes 2 (write_uint16 v)
unfolding write_uint16
write_uint16-IsBytes v = omega (arith, masked-IsByte v)

pub write_uint32-IsBytes : (v : ℕ) → IsBytes 4 (write_uint32 v)
unfolding write_uint32
write_uint32-IsBytes v =
    omega (arith, masked-IsByte v, masked-IsByte (v / 2 ^ 8), masked-IsByte (v / 2 ^ 16))

pub write_uint64-IsBytes : (v : ℕ) → IsBytes 8 (write_uint64 v)
unfolding write_uint64
write_uint64-IsBytes v = omega (
  arith,
  masked-IsByte v,
  masked-IsByte (v / 2 ^ 8),
  masked-IsByte (v / 2 ^ 16),
  masked-IsByte (v / 2 ^ 24),
  masked-IsByte (v / 2 ^ 32),
  masked-IsByte (v / 2 ^ 40),
  masked-IsByte (v / 2 ^ 48),
)
