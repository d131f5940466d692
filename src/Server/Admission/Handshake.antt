-- ===== src/Server/Admission/Handshake.antt =====
-- c/netcode.c: a connection request and the response to its challenge connect the client.
use netcode_io.Base.{
  ℕ, ◌+◌, ◌<◌, ◌%◌, ◌^◌, List, ◌∷◌, length, take, take_all, true, false, ◌==◌, ==_iff, different,
  none, some, ◌≡◌, ◌⊎◌, inl, inr, refl, ap, sym, ◌∙◌, subst, arith,
}
use netcode_io.Base.Int.{ℤ, pos, negsuc}
use netcode_io.Wire.{ok}
use netcode_io.Address.{Address}
use netcode_io.Sodium.{Sodium, IsAead}
use netcode_io.Token.{user_data_bytes}
use netcode_io.Token.Private.{ConnectTokenPrivate, read_connect_token_private}
use netcode_io.Token.Challenge.{
  ChallengeToken, IsChallengeToken, write_challenge_token, encrypt_challenge_token,
  decrypt_challenge_token, read_challenge_token, open-seal_challenge,
}
use netcode_io.Packet.{challenge, keep_alive}
use netcode_io.Packet.Write.{write_packet}
use netcode_io.Time.{Doubles}
use netcode_io.Encryption.{add_encryption_mapping, get_send_key, get_timeout, set_expire_time}
use netcode_io.TokenEntries.{find_or_add}
use netcode_io.Server.{
  ServerClient, Server, client_at, put_client, find_client_index_by_id,
  find_client_index_by_address, find_free_client_index,
}
use netcode_io.Server.Table.{at-set_self}
use netcode_io.Server.Connection.{send_global_packet, written}
use netcode_io.Server.Handshake.{
  is_found, lists_address, mac_of, send_challenge, answer_request, consider_request,
  process_connection_request_packet, connect_client, answer_response, consider_response,
  process_connection_response_packet,
}
use netcode_io.Server.Keeps.{HasTable, IsUnsent, send_client-same, after_sending}
use netcode_io.Server.Room.{find_free_client_index_lem}

module _ (doubles : Doubles) where
  -- What the server that gets a request must grant: the token can be read and lists the server, the
  -- sender's address and the id are new, the token is unused, there is room in the table and in the
  -- encryption manager, and the challenge token can be encrypted.
  pub record IsWelcome (sodium : Sodium) (server : Server doubles) (from : Address)
      (token_data : List ℕ) (t : ConnectTokenPrivate) (cipher : List ℕ) : Type 0 where
    pub was_read : read_connect_token_private token_data ≡ ok t
    pub listed : lists_address server.address t.server_addresses ≡ true
    pub new_address : is_found (find_client_index_by_address doubles server from) ≡ false
    pub new_id : is_found (find_client_index_by_id doubles server t.client_id) ≡ false
    pub unused :
        (find_or_add doubles server.connect_token_entries from (mac_of token_data) server.time).1
        ≡ true
    pub some_room : (server.num_connected_clients == server.max_clients) ≡ false
    pub mapped :
        (add_encryption_mapping doubles server.encryption_manager from t.server_to_client_key
          t.client_to_server_key server.time
          (doubles.sum server.time (doubles.from_int t.timeout_seconds))
          t.timeout_seconds).1
        ≡ true
    pub sealed :
        encrypt_challenge_token sodium
          (write_challenge_token (record { client_id = t.client_id; user_data = t.user_data }))
          server.challenge_sequence
          server.challenge_key
        ≡ some cipher

  -- The server that has sent the challenge.
  abbrev pub challenging :
      Sodium → Server doubles → Address → List ℕ → ConnectTokenPrivate → List ℕ → Server doubles
  challenging sodium server from token_data t cipher =
      send_global_packet doubles sodium
        (record server {
          connect_token_entries =
              (find_or_add doubles server.connect_token_entries from (mac_of token_data)
                server.time).0;
          encryption_manager =
              (add_encryption_mapping doubles server.encryption_manager from t.server_to_client_key
                t.client_to_server_key server.time
                (doubles.sum server.time (doubles.from_int t.timeout_seconds)) t.timeout_seconds).0;
          challenge_sequence = (server.challenge_sequence + 1) % 2 ^ 64;
        })
        (challenge server.challenge_sequence cipher) from t.server_to_client_key

  request-challenging :
      (sodium : Sodium) (server : Server doubles) (from : Address) (token_data : List ℕ)
      (t : ConnectTokenPrivate) (cipher : List ℕ)
      → IsWelcome sodium server from token_data t cipher
      → process_connection_request_packet doubles sodium server from token_data
        ≡ challenging sodium server from token_data t cipher
  unfolding process_connection_request_packet consider_request answer_request send_challenge
  request-challenging sodium server from token_data t cipher w =
      simp
        (
          process_connection_request_packet, w.was_read, consider_request, w.listed, w.new_address,
          w.new_id, w.unused, answer_request, w.some_room, w.mapped, send_challenge, w.sealed,
        )
        refl

  -- What does not change when a packet is sent to the new client is as netcode_server_connect_client
  -- sets it.
  connect_client_self :
      {A : Type 0} (f : ServerClient doubles → A) (sodium : Sodium) (server : Server doubles)
      (i : ℕ) (from : Address) (id index : ℕ) (timeout : ℤ) (user_data : List ℕ)
      → IsUnsent doubles f
      → i < length server.clients
      → f (
          client_at doubles
            (connect_client doubles sodium server i from id index timeout user_data)
            i)
        ≡ f (record (client_at doubles server i) {
          connected = true;
          timeout = timeout;
          encryption_index = some index;
          client_id = id;
          sequence = 0;
          address = from;
          last_packet_send_time = server.time;
          last_packet_receive_time = server.time;
          user_data = take user_data_bytes user_data;
        })
  unfolding connect_client
  connect_client_self f sodium server i from id index timeout user_data unsent h =
      let c = record (client_at doubles server i) {
        connected = true;
        timeout = timeout;
        encryption_index = some index;
        client_id = id;
        sequence = 0;
        address = from;
        last_packet_send_time = server.time;
        last_packet_receive_time = server.time;
        user_data = take user_data_bytes user_data;
      } in
      let server' = record (put_client doubles server i c) {
        num_connected_clients = server.num_connected_clients + 1;
        encryption_manager =
            set_expire_time doubles server.encryption_manager index (doubles.from_int (negsuc 0));
      } in
      send_client-same doubles f sodium server' (keep_alive (pos i) (pos server.max_clients)) i i
        unsent
      ∙ ap f (at-set_self doubles server.clients i c h)

  connect_client_num :
      (sodium : Sodium) (server : Server doubles) (i : ℕ) (from : Address) (id index : ℕ)
      (timeout : ℤ) (user_data : List ℕ)
      → (connect_client doubles sodium server i from id index timeout
          user_data).num_connected_clients
        ≡ server.num_connected_clients + 1
  unfolding connect_client
  connect_client_num sodium server i from id index timeout user_data =
      after_sending doubles (λ s. s.num_connected_clients ≡ server.num_connected_clients + 1) sodium
        _ (keep_alive (pos i) (pos server.max_clients)) i refl (λ k manager. refl)

  -- A welcome response connects the client at the first free index.
  response_connects :
      (sodium : Sodium) (server : Server doubles) (from : Address) (s : ℕ)
      (cipher decrypted : List ℕ) (token : ChallengeToken) (index i : ℕ)
      → decrypt_challenge_token sodium cipher s server.challenge_key ≡ some decrypted
      → read_challenge_token decrypted ≡ ok token
      → is_found (find_client_index_by_address doubles server from) ≡ false
      → is_found (find_client_index_by_id doubles server token.client_id) ≡ false
      → (server.num_connected_clients == server.max_clients) ≡ false
      → find_free_client_index doubles server ≡ some i
      → process_connection_response_packet doubles sodium server from s cipher (some index)
        ≡ connect_client doubles sodium server i from token.client_id index
            (get_timeout doubles server.encryption_manager (some index))
            token.user_data
  unfolding process_connection_response_packet consider_response answer_response get_send_key
  response_connects sodium server from s cipher decrypted token index i opened was_read new_address
        new_id room free =
      simp
        (
          process_connection_response_packet, opened, was_read, consider_response, new_address,
          new_id, answer_response, room, free,
        )
        refl

  abbrev pub IsConnected : Server doubles → ℕ → Address → ConnectTokenPrivate → ℕ → Type 0
  IsConnected server i from t num =
      ((client_at doubles server i).connected ≡ true)
      × ((client_at doubles server i).address ≡ from)
      × ((client_at doubles server i).client_id ≡ t.client_id)
      × ((client_at doubles server i).user_data ≡ t.user_data)
      × (server.num_connected_clients ≡ num + 1)

  connect_client-IsConnected :
      (sodium : Sodium) (server : Server doubles) (i : ℕ) (from : Address) (t : ConnectTokenPrivate)
      (index : ℕ) (timeout : ℤ)
      → i < length server.clients
      → length t.user_data ≡ user_data_bytes
      → IsConnected
          (connect_client doubles sodium server i from t.client_id index timeout t.user_data)
          i
          from
          t
          server.num_connected_clients
  connect_client-IsConnected sodium server i from t index timeout h l = (
    connect_client_self (λ c. c.connected) sodium server i from t.client_id index timeout
        t.user_data (λ c s u. refl) h,
    connect_client_self (λ c. c.address) sodium server i from t.client_id index timeout t.user_data
        (λ c s u. refl) h,
    connect_client_self (λ c. c.client_id) sodium server i from t.client_id index timeout
        t.user_data (λ c s u. refl) h,
    connect_client_self (λ c. c.user_data) sodium server i from t.client_id index timeout
          t.user_data (λ c s u. refl) h
        ∙ take_all user_data_bytes t.user_data (omega (arith, l)),
    connect_client_num sodium server i from t.client_id index timeout t.user_data,
  )

  -- A server with a well-formed table gets a connection request that it welcomes. It answers with one
  -- challenge packet, to the sender. When the response comes back from there with the challenge token,
  -- and before anything else changes the server, the client is connected at the first free index, with
  -- the address, and the id and the user data of its connect token, and is counted.
  pub request-response :
      (sodium : Sodium) (server : Server doubles) (from : Address) (token_data : List ℕ)
      (t : ConnectTokenPrivate) (cipher : List ℕ) (index : ℕ)
      → IsAead sodium
      → HasTable doubles server
      → IsChallengeToken (record { client_id = t.client_id; user_data = t.user_data })
      → IsWelcome sodium server from token_data t cipher
      → ((process_connection_request_packet doubles sodium server from token_data).sent
          ≡ (
            from,
            written (
                write_packet sodium
                  (challenge server.challenge_sequence cipher)
                  server.global_sequence
                  t.server_to_client_key
                  server.protocol_id),
          )
            ∷ server.sent)
        × (i : ℕ) × (find_free_client_index doubles server ≡ some i)
        × IsConnected
            (process_connection_response_packet doubles sodium
              (process_connection_request_packet doubles sodium server from token_data)
              from
              server.challenge_sequence
              cipher
              (some index))
            i
            from
            t
            server.num_connected_clients
  unfolding send_global_packet find_client_index_by_address find_client_index_by_id
      find_free_client_index
  request-response sodium server from token_data t cipher index aead table valid w =
      let requested = request-challenging sodium server from token_data t cipher w in
      let server' = challenging sodium server from token_data t cipher in
      let (decrypted, opened, was_read, _) =
        open-seal_challenge sodium (record { client_id = t.client_id; user_data = t.user_data })
          server.challenge_key cipher server.challenge_sequence aead valid w.sealed in
      let (i, free, inside) = free_index (find_free_client_index_lem doubles server table).1 in
      let connects =
        response_connects sodium server' from server.challenge_sequence cipher decrypted
          (record { client_id = t.client_id; user_data = t.user_data }) index i opened was_read
          w.new_address w.new_id w.some_room free in
      (
        ap (λ s. s.sent) requested,
        i,
        free,
        subst (λ s. IsConnected s i from t server.num_connected_clients)
            (sym (
              ap
                (λ s.
                  process_connection_response_packet doubles sodium s from server.challenge_sequence
                    cipher (some index))
                requested
              ∙ connects))
            (connect_client-IsConnected sodium server' i from t index _
              (omega (arith, inside, table.fits, table.size)) valid.user_data_in.0),
      )
    where
      free_index :
          ((server.num_connected_clients ≡ server.max_clients)
              × (find_free_client_index doubles server ≡ none))
            ⊎ ((i : ℕ) × (find_free_client_index doubles server ≡ some i)
                × (i < server.max_clients)
                × ((client_at doubles server i).connected ≡ false)
                × (server.num_connected_clients < server.max_clients))
          → (i : ℕ) × (find_free_client_index doubles server ≡ some i) × (i < server.max_clients)
      free_index (inl (full, _)) = absurd (different (sym ((==_iff _ _).1 full) ∙ w.some_room))
      free_index (inr (i, e, inside, open_slot, less)) = (i, e, inside)
