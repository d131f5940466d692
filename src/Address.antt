-- ===== src/Address.antt =====
-- c/netcode.c, struct netcode_address_t, netcode_address_equal, and how an address is written into
-- and read from a connect token.
pub mod Laws
pub mod Size
use netcode_io.Base.{
  ℕ, zero, suc, List, [], ◌∷◌, ◌++◌, Bool, true, false, ◌&&◌, ◌==◌, if◌then◌else◌,
}
use netcode_io.Wire.{
  IsByte, IsUint16, Outcome, ok, error, fault, Reader, ◌>>=◌, pure, fail, write_uint8, write_uint16,
  read_uint8, read_uint16,
}

-- The tagged union. `unset` is NETCODE_ADDRESS_NONE, whose data and port are never read.
-- `ipv4` holds `data.ipv4[0..3]` and the port, `ipv6` holds `data.ipv6[0..7]` and the port.
pub data Address : Type 0 where
  unset : Address
  ipv4 : ℕ → ℕ → ℕ → ℕ → ℕ → Address
  ipv6 : ℕ → ℕ → ℕ → ℕ → ℕ → ℕ → ℕ → ℕ → ℕ → Address

-- An address of a network: of type 1 or 2, with every part in the range of its C type.
abbrev pub IsAddress : Address → Type 0
IsAddress unset = ⊥
IsAddress (ipv4 a b c d port) = IsByte a × IsByte b × IsByte c × IsByte d × IsUint16 port
IsAddress (ipv6 a b c d e f g h port) =
    IsUint16 a
    × IsUint16 b
    × IsUint16 c
    × IsUint16 d
    × IsUint16 e
    × IsUint16 f
    × IsUint16 g
    × IsUint16 h
    × IsUint16 port

abbrev pub address_type_ipv4 : ℕ
address_type_ipv4 = 1

abbrev pub address_type_ipv6 : ℕ
address_type_ipv6 = 2

-- `netcode_address_equal`: an unset address equals nothing, itself neither.
unfoldable pub address_equal : Address → Address → Bool
address_equal (ipv4 a b c d port) (ipv4 a' b' c' d' port') =
    if port == port' then a == a' && b == b' && c == c' && d == d' else false
address_equal (ipv6 a b c d e f g h port) (ipv6 a' b' c' d' e' f' g' h' port') =
    if port == port'
    then a == a' && b == b' && c == c' && d == d' && e == e' && f == f' && g == g' && h == h'
    else false
address_equal _ _ = false

-- One round of the loop over the server addresses, in a build where `netcode_assert( 0 )` is void.
unfoldable pub write_address : Address → List ℕ
write_address unset = []
write_address (ipv4 a b c d port) =
    write_uint8 address_type_ipv4
    ++ write_uint8 a
    ++ write_uint8 b
    ++ write_uint8 c
    ++ write_uint8 d
    ++ write_uint16 port
write_address (ipv6 a b c d e f g h port) =
    write_uint8 address_type_ipv6
    ++ write_uint16 a
    ++ write_uint16 b
    ++ write_uint16 c
    ++ write_uint16 d
    ++ write_uint16 e
    ++ write_uint16 f
    ++ write_uint16 g
    ++ write_uint16 h
    ++ write_uint16 port

read_ipv4 : Reader Address
read_ipv4 = do
  a ← read_uint8
  b ← read_uint8
  c ← read_uint8
  d ← read_uint8
  port ← read_uint16
  pure (ipv4 a b c d port)

read_ipv6 : Reader Address
read_ipv6 = do
  a ← read_uint16
  b ← read_uint16
  c ← read_uint16
  d ← read_uint16
  e ← read_uint16
  f ← read_uint16
  g ← read_uint16
  h ← read_uint16
  port ← read_uint16
  pure (ipv6 a b c d e f g h port)

-- The data of an address of the type that was read; any other type is an error.
unfoldable pub read_address_data : ℕ → Reader Address
unfolding read_ipv4 read_ipv6
read_address_data type =
    if type == address_type_ipv4
    then read_ipv4
    else if type == address_type_ipv6
    then read_ipv6
    else fail

unfoldable pub read_address : Reader Address
read_address = do type ← read_uint8; read_address_data type

-- The loop over the server addresses.
unfoldable pub write_addresses : List Address → List ℕ
write_addresses [] = []
write_addresses (a ∷ addresses) = write_address a ++ write_addresses addresses

unfoldable pub read_addresses : ℕ → Reader (List Address)
read_addresses zero = pure []
read_addresses (suc n) = do a ← read_address; addresses ← read_addresses n; pure (a ∷ addresses)
