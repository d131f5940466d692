-- ===== src/Token/Public/Accepts.antt =====
-- c/netcode.c, netcode_read_connect_token: what holds of every token that it accepts.
use netcode_io.Base.{
  ℕ, zero, suc, ◌≤◌, List, [], ◌∷◌, length, true, false, not, ◌||◌, ltb, ◌==◌, ==_iff, Bool-cases,
  ◌≡◌, refl, ap, subst, arith, inl, inr,
}
use netcode_io.Base.Int.{ℤ, pos, negsuc, to_int32}
use netcode_io.Wire.{Outcome, ok, error, fault, Reader, read_uint32, read_uint64, read_bytes}
use netcode_io.Wire.Ensures.{Ensures, pure-Ensures, fail-Ensures, >>=-Ensures, test-Ensures}
use netcode_io.Address.{read_address, read_addresses}
use netcode_io.Token.{version_info, max_servers_per_connect, equal_bytes}
use netcode_io.Token.Public.{
  ConnectToken, read_token_servers, read_token_rest, read_token_version, read_token_fields,
  read_connect_token,
}

-- A value about which nothing is said.
abbrev Any : {A : Type 0} → A → Type 0
Any a = Unit {0}

Any-Ensures : {A : Type 0} (m : Reader A) → Ensures Any m
Any-Ensures m bs a rest e = tt

pub read_addresses-Ensures : (n : ℕ) → Ensures (λ as'. length as' ≡ n) (read_addresses n)
unfolding read_addresses
read_addresses-Ensures zero = pure-Ensures (λ as'. length as' ≡ 0) [] refl
read_addresses-Ensures (suc n) =
    >>=-Ensures Any (λ as'. length as' ≡ suc n) read_address _ (Any-Ensures read_address)
      λ a _.
        >>=-Ensures (λ as'. length as' ≡ n) (λ as'. length as' ≡ suc n) (read_addresses n) _
          (read_addresses-Ensures n)
          λ as' l. pure-Ensures (λ as''. length as'' ≡ suc n) (a ∷ as') (ap suc l)

-- What the tests of the reader say of its token.
pub record IsAccepted (t : ConnectToken) : Type 0 where
  pub version_is : t.version ≡ version_info
  pub create_first : t.create_timestamp ≤ t.expire_timestamp
  pub some_server : 1 ≤ length t.server_addresses
  pub servers_fit : length t.server_addresses ≤ max_servers_per_connect

equal_bytes_lem : (as' bs : List ℕ) → equal_bytes as' bs ≡ true → as' ≡ bs
equal_bytes_lem [] [] e = refl
equal_bytes_lem [] (b ∷ bs) e = cc
equal_bytes_lem (a ∷ as') [] e = cc
equal_bytes_lem (a ∷ as') (b ∷ bs) e = elim (Bool-cases (a == b)) [
  | inl h ↦
      let tails : equal_bytes as' bs ≡ true = rw h at e in
      rw ((==_iff a b).0 h, equal_bytes_lem as' bs tails) refl
  | inr h ↦ let no : false ≡ true = rw h at e in cc
]

servers-Ensures :
    (t : ConnectToken) (n : ℤ)
    → t.version ≡ version_info
    → t.create_timestamp ≤ t.expire_timestamp
    → Ensures IsAccepted (read_token_servers t n)
unfolding read_token_servers
servers-Ensures t (negsuc n) version first = fail-Ensures IsAccepted
servers-Ensures t (pos n) version first = test-Ensures IsAccepted (n == 0 || ltb 32 n) _ λ fits.
    >>=-Ensures (λ as'. length as' ≡ n) IsAccepted (read_addresses n) _ (read_addresses-Ensures n)
      λ addresses l.
        >>=-Ensures Any IsAccepted (read_bytes 32) _ (Any-Ensures (read_bytes 32)) λ client_key _.
          >>=-Ensures Any IsAccepted (read_bytes 32) _ (Any-Ensures (read_bytes 32)) λ server_key _.
            pure-Ensures IsAccepted _ (record {
              version_is = version;
              create_first = first;
              some_server = ground (arith, fits, l);
              servers_fit = ground (arith, fits, l);
            })

rest-Ensures :
    (version : List ℕ) (protocol create expire : ℕ)
    → version ≡ version_info
    → Ensures IsAccepted (read_token_rest version protocol create expire)
unfolding read_token_rest
rest-Ensures version protocol create expire same =
    test-Ensures IsAccepted (ltb expire create) _ λ first.
      >>=-Ensures Any IsAccepted read_uint64 _ (Any-Ensures read_uint64) λ sequence _.
        >>=-Ensures Any IsAccepted (read_bytes 1024) _ (Any-Ensures (read_bytes 1024))
          λ private_data _.
            >>=-Ensures Any IsAccepted read_uint32 _ (Any-Ensures read_uint32) λ timeout_seconds _.
              >>=-Ensures Any IsAccepted read_uint32 _ (Any-Ensures read_uint32)
                λ num_server_addresses _.
                  servers-Ensures _ (to_int32 num_server_addresses) same (ground (arith, first))

fields-Ensures : Ensures IsAccepted read_token_fields
unfolding read_token_fields read_token_version
fields-Ensures =
    >>=-Ensures Any IsAccepted (read_bytes 13) _ (Any-Ensures (read_bytes 13)) λ version _.
      test-Ensures IsAccepted (not (equal_bytes version version_info)) _ λ same.
        >>=-Ensures Any IsAccepted read_uint64 _ (Any-Ensures read_uint64) λ protocol _.
          >>=-Ensures Any IsAccepted read_uint64 _ (Any-Ensures read_uint64) λ create _.
            >>=-Ensures Any IsAccepted read_uint64 _ (Any-Ensures read_uint64) λ expire _.
              rest-Ensures version protocol create expire
                (equal_bytes_lem version version_info (ground (arith, same)))

token-Ensures :
    (o : Outcome (ConnectToken × List ℕ)) (t : ConnectToken)
    → ((a : ConnectToken) (r : List ℕ) → o ≡ ok (a, r) → IsAccepted a)
    → elim o as (λ k. Outcome ConnectToken) [ ok x ↦ ok x.0 | error ↦ error | fault ↦ fault ] ≡ ok t
    → IsAccepted t
token-Ensures (ok (a, r)) t h e = let same : a ≡ t = cc in subst IsAccepted same (h a r refl)
token-Ensures error t h e = cc
token-Ensures fault t h e = cc

-- Every token that netcode_read_connect_token accepts has this library's version, is not created
-- after it expires, and names between 1 and 32 servers.
pub read_token-IsAccepted :
    (buffer : List ℕ) (t : ConnectToken) → read_connect_token buffer ≡ ok t → IsAccepted t
unfolding read_connect_token
read_token-IsAccepted buffer t = elim (Bool-cases (not (length buffer == 2048))) [
  | inl short ↦ rw (short, read_connect_token) (λ e. cc)
  | inr whole ↦
      rw (whole, read_connect_token)
        (λ e. token-Ensures (read_token_fields buffer) t (λ a r. fields-Ensures buffer a r) e)
]
