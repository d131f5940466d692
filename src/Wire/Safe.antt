-- ===== src/Wire/Safe.antt =====
-- Readers that stay inside a buffer of a given length.
use netcode_io.Base.{ℕ, zero, suc, ◌+◌, ◌≤◌, List, [], ◌∷◌, length, ◌≡◌, refl, arith, ◌⊎◌, inl, inr}
use netcode_io.Wire.{
  ok, error, Reader, pure, fail, ◌>>=◌, read_uint8, read_uint16, read_uint32, read_uint64,
  read_bytes,
}

-- On a buffer of `n` bytes or more the reader does not leave the buffer, and takes `n` at most.
abbrev pub IsSafe : {A : Type 0} → ℕ → Reader A → Type 0
IsSafe {A} n m =
    (bs : List ℕ)
    → n ≤ length bs
    → (m bs ≡ error)
      ⊎ ((a : A) × (rest : List ℕ) × (m bs ≡ ok (a, rest)) × (length bs ≤ length rest + n))

pub pure-IsSafe : {A : Type 0} (a : A) → IsSafe 0 (pure a)
pure-IsSafe a bs h = inr (a, bs, refl, omega arith)

pub fail-IsSafe : (A : Type 0) → IsSafe {A = A} 0 fail
fail-IsSafe A bs h = inl refl

-- A chain takes the sum of what its parts take.
pub >>=-IsSafe :
    {A B : Type 0} (n k : ℕ) (m : Reader A) (f : A → Reader B)
    → IsSafe n m
    → ((a : A) → IsSafe k (f a))
    → IsSafe (n + k) (m >>= f)
>>=-IsSafe n k m f hm hf bs h = elim (hm bs (omega arith)) [
  | inl e ↦ inl (rw (e, ◌>>=◌))
  | inr (a, rest, e, l) ↦ elim (hf a rest (omega arith)) [
    | inl e' ↦ inl (rw (e, ◌>>=◌) e')
    | inr (b, rest', e', l') ↦ inr (b, rest', rw (e, ◌>>=◌) e', omega arith)
  ]
]

-- A reader that takes less may be given more.
pub IsSafe-mono : {A : Type 0} (n k : ℕ) (m : Reader A) → n ≤ k → IsSafe n m → IsSafe k m
IsSafe-mono n k m h s bs l = elim (s bs (omega arith)) [
  | inl e ↦ inl e
  | inr (a, rest, e, l') ↦ inr (a, rest, e, omega arith)
]

pub read_uint8-IsSafe : IsSafe 1 read_uint8
unfolding read_uint8
read_uint8-IsSafe [] h = absurd (omega arith)
read_uint8-IsSafe (b ∷ bs) h = inr (b, bs, refl, omega arith)

-- One byte more in front of a reader.
byte_then :
    {A : Type 0} (k : ℕ) (f : ℕ → Reader A)
    → ((b : ℕ) → IsSafe k (f b))
    → IsSafe (1 + k) (read_uint8 >>= f)
byte_then k f h = >>=-IsSafe 1 k read_uint8 f read_uint8-IsSafe h

pub read_uint16-IsSafe : IsSafe 2 read_uint16
unfolding read_uint16
read_uint16-IsSafe = byte_then 1 _ λ a. byte_then 0 _ λ b. pure-IsSafe _

pub read_uint32-IsSafe : IsSafe 4 read_uint32
unfolding read_uint32
read_uint32-IsSafe =
    byte_then 3 _ λ a. byte_then 2 _ λ b. byte_then 1 _ λ c. byte_then 0 _ λ d. pure-IsSafe _

pub read_uint64-IsSafe : IsSafe 8 read_uint64
unfolding read_uint64
read_uint64-IsSafe = byte_then 7 _ λ a. byte_then 6 _ λ b. byte_then 5 _ λ c.
    byte_then 4 _
      λ d. byte_then 3 _ λ e. byte_then 2 _ λ f. byte_then 1 _ λ g. byte_then 0 _ λ h. pure-IsSafe _

pub read_bytes-IsSafe : (n : ℕ) → IsSafe n (read_bytes n)
unfolding read_bytes
read_bytes-IsSafe zero bs h = inr ([], bs, refl, omega arith)
read_bytes-IsSafe (suc n) [] h = absurd (omega arith)
read_bytes-IsSafe (suc n) (b ∷ bs) h = elim (read_bytes-IsSafe n bs (omega arith)) [
  | inl e ↦ inl (rw e)
  | inr (a, rest, e, l) ↦ inr (b ∷ a, rest, rw e, omega arith)
]

-- A long enough buffer yields as many bytes as are asked for.
pub read_bytes-prefix :
    (n : ℕ) (bs : List ℕ)
    → n ≤ length bs
    → (a : List ℕ) × (rest : List ℕ) × (read_bytes n bs ≡ ok (a, rest)) × (length a ≡ n)
unfolding read_bytes
read_bytes-prefix zero bs h = ([], bs, refl, refl)
read_bytes-prefix (suc n) [] h = absurd (omega arith)
read_bytes-prefix (suc n) (b ∷ bs) h =
    let (a, rest, e, l) = read_bytes-prefix n bs (omega arith) in (b ∷ a, rest, rw e, omega arith)
