-- ===== src/Tests/Tokens.antt =====
-- Connect tokens and challenge tokens, sealed and opened again, on concrete values.
use netcode_io.Base.{
  ◌≤◌, ℕ, List, [], ◌∷◌, ◌++◌, take, replicate, drop, length, All-replicate, true, none, some, ◌≡◌,
  ◌↔◌, refl, arith, length-replicate,
}
use netcode_io.Base.Int.{pos}
use netcode_io.Wire.{IsByte, ok, write_uint8, write_uint64, write_bytes}
use netcode_io.Address.{Address, ipv4, ipv6, IsAddress, address_equal}
use netcode_io.Address.Laws.{address_equal_iff}
use netcode_io.Sodium.{encrypt_aead}
use netcode_io.Token.{version_info, connect_token_private_bytes, challenge_token_bytes}
use netcode_io.Token.Private.{
  ConnectTokenPrivate, IsTokenPrivate, write_connect_token_private, encrypt_connect_token_private,
  decrypt_connect_token_private, read_connect_token_private,
}
use netcode_io.Token.Private.Laws.{open-seal_private}
use netcode_io.Token.Public.{ConnectToken, IsToken, write_connect_token, read_connect_token}
use netcode_io.Token.Public.Laws.{read-write_token}
use netcode_io.Token.Challenge.{
  ChallengeToken, IsChallengeToken, write_challenge_token, encrypt_challenge_token,
  decrypt_challenge_token, read_challenge_token, open-seal_challenge,
}
use netcode_io.Token.Generate.{
  Sources, IsSources, parse_addresses, expire_timestamp_of, generated_private, generated_token,
  generate_for, generate_connect_token, generate_connect_token_lem,
}
use netcode_io.Packet.{request}
use netcode_io.Packet.Write.{write_packet}
use netcode_io.Packet.Read.{read_packet}
use netcode_io.Packet.Request.{read-write_request}
use netcode_io.Tests.Toy.{toy, toy-IsAead, zero_mac}
use netcode_io.Tests.Packets.{key, context}

abbrev pub local_server : Address
local_server = ipv4 10 0 0 1 40000

pub local_server-IsAddress : IsAddress local_server
local_server-IsAddress = (omega arith, omega arith, omega arith, omega arith, omega arith)

address_equal_iff_example :
    (address_equal local_server (ipv4 10 0 0 1 40001) ≡ true) ↔ (local_server ≡ ipv4 10 0 0 1 40001)
address_equal_iff_example =
    address_equal_iff local_server (ipv4 10 0 0 1 40001) local_server-IsAddress

abbrev pub private_token : ConnectTokenPrivate
private_token = record {
  client_id = 1000;
  timeout_seconds = pos 5;
  server_addresses = local_server ∷ [];
  client_to_server_key = replicate 32 1;
  server_to_client_key = replicate 32 2;
  user_data = replicate 256 3;
}

pub private_token-IsTokenPrivate : IsTokenPrivate private_token
private_token-IsTokenPrivate = record {
  client_id_in = omega arith;
  timeout_in = omega arith;
  some_server = omega arith;
  servers_fit = omega arith;
  servers_in = (local_server-IsAddress, tt);
  client_key_in = (refl, All-replicate IsByte 32 1 (omega arith));
  server_key_in = (refl, All-replicate IsByte 32 2 (omega arith));
  user_data_in = (refl, All-replicate IsByte 256 3 (omega arith));
}

abbrev pub sealed_token : List ℕ
sealed_token = take 1008 (write_connect_token_private private_token) ++ zero_mac

token-sealed :
    encrypt_connect_token_private toy
      (write_connect_token_private private_token)
      version_info
      42
      200
      1
      key
    ≡ some sealed_token
unfolding encrypt_connect_token_private encrypt_aead
token-sealed = refl

open-seal_private_example :
    (buffer : List ℕ) × (decrypt_connect_token_private toy sealed_token version_info 42 200 1 key
      ≡ ok buffer)
    × (read_connect_token_private buffer ≡ ok private_token)
    × (drop 1008 buffer ≡ drop 1008 sealed_token)
    × (length buffer ≡ connect_token_private_bytes)
    × (length sealed_token ≡ connect_token_private_bytes)
open-seal_private_example =
    open-seal_private toy private_token version_info key sealed_token 42 200 1 toy-IsAead
      private_token-IsTokenPrivate token-sealed

abbrev pub request_written : List ℕ
request_written =
    write_uint8 0
    ++ write_bytes version_info 13
    ++ write_uint64 42
    ++ write_uint64 200
    ++ write_uint64 1
    ++ write_bytes sealed_token 1024

request-written :
    write_packet toy (request version_info 42 200 1 sealed_token) 0 key 42 ≡ some request_written
unfolding write_packet
request-written = refl

read-write_request_example :
    (buffer : List ℕ) × (read_packet toy context none request_written
      ≡ (none, ok (request version_info 42 200 1 buffer, 0)))
    × (read_connect_token_private buffer ≡ ok private_token)
read-write_request_example =
    read-write_request toy context none private_token 200 1 0 key key sealed_token request_written
      toy-IsAead private_token-IsTokenPrivate (omega arith) (omega arith) (omega arith)
      (omega arith) refl refl refl token-sealed request-written

abbrev pub token : ConnectToken
token = record {
  version = version_info;
  protocol_id = 42;
  create_timestamp = 100;
  expire_timestamp = 200;
  sequence = 1;
  private_data = replicate 1024 9;
  timeout_seconds = pos 5;
  server_addresses = local_server ∷ ipv6 0 0 0 0 0 0 0 1 40000 ∷ [];
  client_to_server_key = replicate 32 1;
  server_to_client_key = replicate 32 2;
}

pub token-IsToken : IsToken token
token-IsToken = record {
  version_is = refl;
  protocol_id_in = omega arith;
  create_in = omega arith;
  expire_in = omega arith;
  create_first = omega arith;
  sequence_in = omega arith;
  private_data_in = length-replicate {A = ℕ} 1024 9;
  timeout_in = omega arith;
  some_server = omega arith;
  servers_fit = omega arith;
  servers_in = (local_server-IsAddress, (omega arith, tt));
  client_key_in = (refl, All-replicate IsByte 32 1 (omega arith));
  server_key_in = (refl, All-replicate IsByte 32 2 (omega arith));
}

read-write_token_example : read_connect_token (write_connect_token token) ≡ ok token
read-write_token_example = read-write_token token token-IsToken

abbrev pub challenge_token : ChallengeToken
challenge_token = record { client_id = 1000; user_data = replicate 256 3 }

pub challenge_token-IsChallengeToken : IsChallengeToken challenge_token
challenge_token-IsChallengeToken = record {
  client_id_in = omega arith;
  user_data_in = (refl, All-replicate IsByte 256 3 (omega arith));
}

abbrev pub sealed_challenge : List ℕ
sealed_challenge = take 284 (write_challenge_token challenge_token) ++ zero_mac

pub challenge-sealed :
    encrypt_challenge_token toy (write_challenge_token challenge_token) 8 key
    ≡ some sealed_challenge
unfolding encrypt_challenge_token encrypt_aead
challenge-sealed = refl

open-seal_challenge_example :
    (buffer : List ℕ) × (decrypt_challenge_token toy sealed_challenge 8 key ≡ some buffer)
    × (read_challenge_token buffer ≡ ok challenge_token)
    × (length sealed_challenge ≡ challenge_token_bytes)
open-seal_challenge_example =
    open-seal_challenge toy challenge_token key sealed_challenge 8 toy-IsAead
      challenge_token-IsChallengeToken challenge-sealed

-- Every text is the address of one server.
abbrev pub sources : Sources
sources = record {
  parse_address = λ text. some local_server;
  now = 100;
  user_data = replicate 256 3;
  client_to_server_key = replicate 32 1;
  server_to_client_key = replicate 32 2;
}

sources-IsSources : IsSources sources
sources-IsSources = record {
  now_in = omega arith;
  user_data_in = (refl, All-replicate IsByte 256 3 (omega arith));
  client_key_in = (refl, All-replicate IsByte 32 1 (omega arith));
  server_key_in = (refl, All-replicate IsByte 32 2 (omega arith));
}

parsed-once : parse_addresses sources.parse_address ([] ∷ []) ≡ some (local_server ∷ [])
unfolding parse_addresses
parsed-once = refl

abbrev pub sealed_generated : List ℕ
sealed_generated =
    take 1008
      (write_connect_token_private (generated_private sources (local_server ∷ []) (pos 5) 1000))
    ++ zero_mac

abbrev pub generated : List ℕ
generated = write_connect_token (
    generated_token sources (local_server ∷ []) (pos 45) (pos 5) 42 1 sealed_generated
      (generated_private sources (local_server ∷ []) (pos 5) 1000))

later : sources.now ≤ expire_timestamp_of sources.now (pos 45)
unfolding expire_timestamp_of
later = omega arith

token-generated :
    generate_connect_token toy sources ([] ∷ []) (pos 45) (pos 5) 1000 42 1 key ≡ some generated
unfolding generate_connect_token parse_addresses generate_for encrypt_connect_token_private
    encrypt_aead
token-generated = refl

generate_connect_token_lem_example :
    (token' : ConnectToken) × (private_token' : ConnectTokenPrivate) × (buffer : List ℕ)
    × (read_connect_token generated ≡ ok token')
    × (decrypt_connect_token_private toy token'.private_data token'.version token'.protocol_id
          token'.expire_timestamp token'.sequence key
        ≡ ok buffer)
    × (read_connect_token_private buffer ≡ ok private_token')
    × (token'.server_addresses ≡ private_token'.server_addresses)
    × (token'.timeout_seconds ≡ private_token'.timeout_seconds)
    × (token'.client_to_server_key ≡ private_token'.client_to_server_key)
    × (token'.server_to_client_key ≡ private_token'.server_to_client_key)
    × (private_token'.client_id ≡ 1000)
    × (private_token'.user_data ≡ sources.user_data)
generate_connect_token_lem_example =
    generate_connect_token_lem toy sources ([] ∷ []) (local_server ∷ []) (pos 45) (pos 5) 1000 42 1
      key generated toy-IsAead sources-IsSources parsed-once (local_server-IsAddress, tt)
      (omega arith) (omega arith) (omega arith) (omega arith) (omega arith) (omega arith) later
      token-generated
