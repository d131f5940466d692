-- ===== src/Address/Laws.antt =====
-- Address comparison is equality of addresses, and reading undoes writing.
use netcode_io.Base.{ℕ, List, [], ◌∷◌, ◌++◌, length, All, true, ◌≡◌, refl, ◌↔◌, arith, ◌∙◌, ◌==◌}
use netcode_io.Wire.{
  ok, >>=-ok, Reader, ◌>>=◌, read_uint8, read_uint16, write_uint8, write_uint16, IsByte, IsUint16,
}
use netcode_io.Wire.RoundTrip.{read-write_uint8, read-write_uint16}
use netcode_io.Address.{
  Address, unset, ipv4, ipv6, IsAddress, address_equal, write_address, read_address,
  write_addresses, read_addresses, read_address_data,
}
use mathlib.Core.List.{append_assoc}

-- On network addresses the comparison decides equality.
pub address_equal_iff : (a b : Address) → IsAddress a → (address_equal a b ≡ true) ↔ (a ≡ b)
unfolding address_equal
address_equal_iff unset b v = absurd v
address_equal_iff (ipv4 a b c d port) unset v = ground arith
address_equal_iff (ipv4 a b c d port) (ipv4 a' b' c' d' port') v = ground arith
address_equal_iff (ipv4 a b c d port) (ipv6 a' b' c' d' e' f' g' h' port') v = ground arith
address_equal_iff (ipv6 a b c d e f g h port) unset v = ground arith
address_equal_iff (ipv6 a b c d e f g h port) (ipv4 a' b' c' d' port') v = ground arith
address_equal_iff (ipv6 a b c d e f g h port) (ipv6 a' b' c' d' e' f' g' h' port') v = ground arith

==_comm : (n m : ℕ) → (n == m) ≡ (m == n)
==_comm n m = ground arith

pub address_equal_comm : (a b : Address) → address_equal a b ≡ address_equal b a
unfolding address_equal
address_equal_comm unset unset = refl
address_equal_comm unset (ipv4 a b c d port) = refl
address_equal_comm unset (ipv6 a b c d e f g h port) = refl
address_equal_comm (ipv4 a b c d port) unset = refl
address_equal_comm (ipv4 a b c d port) (ipv4 a' b' c' d' port') =
    rw (==_comm port port', ==_comm a a', ==_comm b b', ==_comm c c', ==_comm d d') refl
address_equal_comm (ipv4 a b c d port) (ipv6 a' b' c' d' e' f' g' h' port') = refl
address_equal_comm (ipv6 a b c d e f g h port) unset = refl
address_equal_comm (ipv6 a b c d e f g h port) (ipv4 a' b' c' d' port') = refl
address_equal_comm (ipv6 a b c d e f g h port) (ipv6 a' b' c' d' e' f' g' h' port') =
    rw
      (
        ==_comm port port',
        ==_comm a a',
        ==_comm b b',
        ==_comm c c',
        ==_comm d d',
        ==_comm e e',
        ==_comm f f',
        ==_comm g g',
        ==_comm h h',
      )
      refl

-- One byte or word of an address, in front of the readers for the rest.
byte_step :
    {A : Type 0} (f : ℕ → Reader A) (v : ℕ) (rest : List ℕ)
    → IsByte v
    → (read_uint8 >>= f) (write_uint8 v ++ rest) ≡ f v rest
byte_step f v rest h = >>=-ok read_uint8 f (read-write_uint8 v rest h)

word_step :
    {A : Type 0} (f : ℕ → Reader A) (v : ℕ) (rest : List ℕ)
    → IsUint16 v
    → (read_uint16 >>= f) (write_uint16 v ++ rest) ≡ f v rest
word_step f v rest h = >>=-ok read_uint16 f (read-write_uint16 v rest h)

pub read-write_address :
    (a : Address) (rest : List ℕ)
    → IsAddress a
    → read_address (write_address a ++ rest) ≡ ok (a, rest)
unfolding read_address write_address
read-write_address unset rest v = absurd v
read-write_address (ipv4 a b c d port) rest (ha, hb, hc, hd, hp) = simp append_assoc (
    byte_step _ 1 _ (omega arith)
    ∙ unfold read_address_data in
      (byte_step _ a _ ha
        ∙ byte_step _ b _ hb
        ∙ byte_step _ c _ hc
        ∙ byte_step _ d _ hd
        ∙ word_step _ port _ hp))
read-write_address (ipv6 a b c d e f g h port) rest (ha, hb, hc, hd, he, hf, hg, hh, hp) =
    simp append_assoc (
      byte_step _ 2 _ (omega arith)
      ∙ unfold read_address_data in
        (word_step _ a _ ha
          ∙ word_step _ b _ hb
          ∙ word_step _ c _ hc
          ∙ word_step _ d _ hd
          ∙ word_step _ e _ he
          ∙ word_step _ f _ hf
          ∙ word_step _ g _ hg
          ∙ word_step _ h _ hh
          ∙ word_step _ port _ hp))

pub read-write_addresses :
    (addresses : List Address) (rest : List ℕ)
    → All IsAddress addresses
    → read_addresses (length addresses) (write_addresses addresses ++ rest) ≡ ok (addresses, rest)
unfolding read_addresses write_addresses
read-write_addresses [] rest v = refl
read-write_addresses (a ∷ addresses) rest (va, vs) = rw append_assoc (
    >>=-ok read_address _ (read-write_address a (write_addresses addresses ++ rest) va)
    ∙ >>=-ok (read_addresses (length addresses)) _ (read-write_addresses addresses rest vs))
