-- ===== src/Server/Keeps/Request.antt =====
-- c/netcode.c: what a connection request can change in a server.
use netcode_io.Base.{
  ℕ, ◌+◌, List, ◌∷◌, Bool, true, false, not, ◌==◌, if◌then◌else◌, case_of_option, ◌≡◌, ◌⊎◌, inl,
  inr, refl, ap, ◌∙◌, ◌%◌, ◌^◌,
}
use netcode_io.Wire.{Outcome, ok, error, fault}
use netcode_io.Address.{Address}
use netcode_io.Sodium.{Sodium}
use netcode_io.Token.Private.{ConnectTokenPrivate, read_connect_token_private}
use netcode_io.Token.Challenge.{encrypt_challenge_token, write_challenge_token}
use netcode_io.Packet.{Packet, denied, challenge}
use netcode_io.Time.{Doubles}
use netcode_io.Encryption.{add_encryption_mapping}
use netcode_io.TokenEntries.{find_or_add}
use netcode_io.Server.{Server, find_client_index_by_id, find_client_index_by_address}
use netcode_io.Server.Connection.{send_global_packet}
use netcode_io.Server.Handshake.{
  is_found, lists_address, mac_of, send_challenge, answer_request, consider_request,
  process_connection_request_packet,
}
use netcode_io.Server.Keeps.{Keeps}

module _ (doubles : Doubles) (from : Address) where
  -- The clients stay as they are, nothing is reported, and at most one packet is sent, to `from`.
  pub record IsAnswer (server server' : Server doubles) : Type 0 where
    pub clients : server'.clients ≡ server.clients
    pub num : server'.num_connected_clients ≡ server.num_connected_clients
    pub limit : server'.max_clients ≡ server.max_clients
    pub still : server'.running ≡ server.running
    pub reported : server'.reported ≡ server.reported
    pub answered :
        (server'.sent ≡ server.sent)
        ⊎ ((bytes : List ℕ) × (server'.sent ≡ (from, bytes) ∷ server.sent))

  silent-IsAnswer : (server : Server doubles) → IsAnswer server server
  silent-IsAnswer server = record {
    clients = refl;
    num = refl;
    limit = refl;
    still = refl;
    reported = refl;
    answered = inl refl;
  }

  if-IsAnswer :
      (b : Bool) (server x y : Server doubles)
      → IsAnswer server x
      → IsAnswer server y
      → IsAnswer server (if b then x else y)
  if-IsAnswer true server x y h h' = h
  if-IsAnswer false server x y h h' = h'

  send_global-IsAnswer :
      (sodium : Sodium) (server : Server doubles) (packet : Packet) (key : List ℕ)
      → IsAnswer server (send_global_packet doubles sodium server packet from key)
  unfolding send_global_packet
  send_global-IsAnswer sodium server packet key = record {
    clients = refl;
    num = refl;
    limit = refl;
    still = refl;
    reported = refl;
    answered = inr (_, refl);
  }

  -- A change of the parts that an answer may change, in front of it.
  behind-IsAnswer :
      {server server' server'' : Server doubles}
      → server'.clients ≡ server.clients
      → server'.num_connected_clients ≡ server.num_connected_clients
      → server'.max_clients ≡ server.max_clients
      → server'.running ≡ server.running
      → server'.reported ≡ server.reported
      → server'.sent ≡ server.sent
      → IsAnswer server' server''
      → IsAnswer server server''
  behind-IsAnswer clients num limit still reported sent answer = record {
    clients = answer.clients ∙ clients;
    num = answer.num ∙ num;
    limit = answer.limit ∙ limit;
    still = answer.still ∙ still;
    reported = answer.reported ∙ reported;
    answered = elim answer.answered [
      | inl none_sent ↦ inl (none_sent ∙ sent)
      | inr (bytes, one_sent) ↦ inr (bytes, one_sent ∙ ap (λ s. (from, bytes) ∷ s) sent)
    ];
  }

  send_challenge-IsAnswer :
      (sodium : Sodium) (server : Server doubles) (token : ConnectTokenPrivate)
      → IsAnswer server (send_challenge doubles sodium server from token)
  unfolding send_challenge
  send_challenge-IsAnswer sodium server token =
      let server' = record server {
        challenge_sequence = (server.challenge_sequence + 1) % 2 ^ 64;
      } in
      let packet = λ (token_data : List ℕ). challenge server.challenge_sequence token_data in
      case_of_option (IsAnswer server)
        (encrypt_challenge_token sodium
          (write_challenge_token
            (record { client_id = token.client_id; user_data = token.user_data }))
          server.challenge_sequence server.challenge_key)
        server
        (λ token_data.
          send_global_packet doubles sodium server' (packet token_data) from
            token.server_to_client_key)
        (silent-IsAnswer server)
        (λ token_data _.
          behind-IsAnswer refl refl refl refl refl refl
            (send_global-IsAnswer sodium server' (packet token_data) token.server_to_client_key))

  answer_request-IsAnswer :
      (sodium : Sodium) (server : Server doubles) (token : ConnectTokenPrivate)
      → IsAnswer server (answer_request doubles sodium server from token)
  unfolding answer_request
  answer_request-IsAnswer sodium server token =
      let added =
        add_encryption_mapping doubles server.encryption_manager from token.server_to_client_key
          token.client_to_server_key server.time
          (doubles.sum server.time (doubles.from_int token.timeout_seconds))
          token.timeout_seconds in
      let server' = record server { encryption_manager = added.0 } in
      if-IsAnswer (server.num_connected_clients == server.max_clients) server _ _
        (send_global-IsAnswer sodium server denied token.server_to_client_key)
        (behind-IsAnswer {server' = server'} refl refl refl refl refl refl (
          if-IsAnswer (not added.1) server' server'
            (send_challenge doubles sodium server' from token) (silent-IsAnswer server')
            (send_challenge-IsAnswer sodium server' token)))

  consider_request-IsAnswer :
      (sodium : Sodium) (server : Server doubles) (token_data : List ℕ)
      (token : ConnectTokenPrivate)
      → IsAnswer server (consider_request doubles sodium server from token_data token)
  unfolding consider_request
  consider_request-IsAnswer sodium server token_data token =
      let same = silent-IsAnswer server in
      let found =
        find_or_add doubles server.connect_token_entries from (mac_of token_data) server.time in
      let server' = record server { connect_token_entries = found.0 } in
      if-IsAnswer (not (lists_address server.address token.server_addresses)) server _ _ same (
        if-IsAnswer (is_found (find_client_index_by_address doubles server from)) server _ _ same (
          if-IsAnswer (is_found (find_client_index_by_id doubles server token.client_id)) server _ _
            same
            (behind-IsAnswer {server' = server'} refl refl refl refl refl refl (
              if-IsAnswer (not found.1) server' server'
                (answer_request doubles sodium server' from token) (silent-IsAnswer server')
                (answer_request-IsAnswer sodium server' token)))))

  read_request-IsAnswer :
      (sodium : Sodium) (server : Server doubles) (token_data : List ℕ)
      (o : Outcome ConnectTokenPrivate)
      → IsAnswer server (elim o as (λ k. Server doubles) [
        | ok token ↦ consider_request doubles sodium server from token_data token
        | error ↦ server
        | fault ↦ server
      ])
  read_request-IsAnswer sodium server token_data (ok token) =
      consider_request-IsAnswer sodium server token_data token
  read_request-IsAnswer sodium server token_data error = silent-IsAnswer server
  read_request-IsAnswer sodium server token_data fault = silent-IsAnswer server

  -- Whatever a connection request holds, the server's table of clients, their number and the number
  -- of slots stay as they are, no connection is reported, and at most one packet is sent, to the
  -- request's sender.
  pub request-IsAnswer :
      (sodium : Sodium) (server : Server doubles) (token_data : List ℕ)
      → IsAnswer server (process_connection_request_packet doubles sodium server from token_data)
  unfolding process_connection_request_packet
  request-IsAnswer sodium server token_data =
      read_request-IsAnswer sodium server token_data (read_connect_token_private token_data)

  pub request-Keeps :
      (sodium : Sodium) (server : Server doubles) (token_data : List ℕ)
      → Keeps doubles server
          (process_connection_request_packet doubles sodium server from token_data)
  request-Keeps sodium server token_data =
      let answer = request-IsAnswer sodium server token_data in
      record {
        limit = answer.limit;
        still = answer.still;
        table = λ t. rw (answer.clients, answer.num, answer.limit) t;
      }
