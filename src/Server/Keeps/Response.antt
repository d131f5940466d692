-- ===== src/Server/Keeps/Response.antt =====
-- c/netcode.c: that connection responses keep the server's table well-formed.
use netcode_io.Base.{
  ℕ, ◌+◌, ◌<◌, List, take, Bool, true, false, not, ◌&&◌, ◌==◌, ==_iff, if◌then◌else◌, Bool-cases,
  different, Option, none, some, case_of_option, and_first, ◌≡◌, ◌≢◌, inl, inr, refl, ap, sym, ◌∙◌,
  arith,
}
use netcode_io.Base.Int.{ℤ, pos, negsuc}
use netcode_io.Base.Search.{search, search_cases, NoneIn}
use netcode_io.Wire.{Outcome, ok, error, fault}
use netcode_io.Address.{Address, unset, ipv4, ipv6, address_equal}
use netcode_io.Address.Laws.{address_equal_comm}
use netcode_io.Sodium.{Sodium}
use netcode_io.Token.{user_data_bytes}
use netcode_io.Token.Challenge.{ChallengeToken, decrypt_challenge_token, read_challenge_token}
use netcode_io.Packet.{denied, keep_alive}
use netcode_io.Time.{Doubles}
use netcode_io.Encryption.{set_expire_time, get_send_key, get_timeout}
use netcode_io.Server.{
  Server, client_at, put_client, is_unset, find_client_index_by_id, find_client_index_by_address,
  find_free_client_index,
}
use netcode_io.Server.Table.{new-IsTable}
use netcode_io.Server.Connection.{send_global_packet}
use netcode_io.Server.Handshake.{
  is_found, connect_client, answer_response, consider_response, process_connection_response_packet,
}
use native.Mathlib.Decide.{dec_lt}
use netcode_io.Server.Keeps.{
  false_of_not, HasTable, Keeps, refl-Keeps, trans-Keeps, if-Keeps, send_global-Keeps,
  send_client-Keeps,
}

search_nothing : (test : ℕ → Bool) (n : ℕ) → is_found (search test n 0) ≡ false → NoneIn test n 0
search_nothing test n nothing = elim (search_cases test n 0) [
  | inl (e, h) ↦ h
  | inr (j, e, first) ↦ absurd (different (sym (ap is_found e) ∙ nothing))
]

true_and_false : (a b : Bool) → a ≡ true → (a && b) ≡ false → b ≡ false
true_and_false true b h e = e
true_and_false false b h e = absurd (different (sym h))

unset_apart : (a : Address) → is_unset a ≡ true → (b : Address) → address_equal a b ≡ false
unfolding address_equal
unset_apart unset h unset = refl
unset_apart unset h (ipv4 a b c d port) = refl
unset_apart unset h (ipv6 a b c d e f g h' port) = refl
unset_apart (ipv4 a b c d port) h b' = cc
unset_apart (ipv6 a b c d e f g h' port) h b' = cc

module _ (doubles : Doubles) where
  -- A sender of which no client has the address.
  abbrev pub IsNewAddress : Server doubles → Address → Type 0
  IsNewAddress server from =
      (j : ℕ)
      → j < server.max_clients
      → (client_at doubles server j).connected ≡ true
      → address_equal from (client_at doubles server j).address ≡ false

  abbrev pub IsNewId : Server doubles → ℕ → Type 0
  IsNewId server id =
      (j : ℕ)
      → j < server.max_clients
      → (client_at doubles server j).connected ≡ true
      → id ≢ (client_at doubles server j).client_id

  pub not_found_address :
      (server : Server doubles) (from : Address)
      → is_found (find_client_index_by_address doubles server from) ≡ false
      → IsNewAddress server from
  unfolding find_client_index_by_address
  not_found_address server from h j l connected = elim (Bool-cases (is_unset from)) [
    | inl nowhere ↦ unset_apart from nowhere (client_at doubles server j).address
    | inr somewhere ↦
        address_equal_comm from (client_at doubles server j).address
        ∙ true_and_false _ _ connected (
            search_nothing
              (λ i.
                (client_at doubles server i).connected
                && address_equal (client_at doubles server i).address from)
              server.max_clients (sym (rw somewhere refl) ∙ h) j (omega arith) (omega (arith, l)))
  ]

  pub not_found_id :
      (server : Server doubles) (id : ℕ)
      → is_found (find_client_index_by_id doubles server id) ≡ false
      → IsNewId server id
  unfolding find_client_index_by_id
  not_found_id server id h j l connected same = different (
      sym ((==_iff _ _).1 (sym same))
      ∙ true_and_false _ _ connected (
          search_nothing
            (λ i.
              (client_at doubles server i).connected
              && (client_at doubles server i).client_id == id)
            server.max_clients h j (omega arith) (omega (arith, l))))

  pub connect_client-Keeps :
      (sodium : Sodium) (server : Server doubles) (i : ℕ) (from : Address) (id index : ℕ)
      (timeout : ℤ) (user_data : List ℕ)
      → i < server.max_clients
      → (client_at doubles server i).connected ≡ false
      → IsNewAddress server from
      → IsNewId server id
      → Keeps doubles server
          (connect_client doubles sodium server i from id index timeout user_data)
  unfolding connect_client
  connect_client-Keeps sodium server i from id index timeout user_data h free new_address new_id =
      let c = record (client_at doubles server i) {
        connected = true;
        timeout = timeout;
        encryption_index = some index;
        client_id = id;
        sequence = 0;
        address = from;
        last_packet_send_time = server.time;
        last_packet_receive_time = server.time;
        user_data = take user_data_bytes user_data;
      } in
      let server' = record (put_client doubles server i c) {
        num_connected_clients = server.num_connected_clients + 1;
        encryption_manager =
            set_expire_time doubles server.encryption_manager index (doubles.from_int (negsuc 0));
      } in
      let added : Keeps doubles server server' = record {
        limit = refl;
        still = refl;
        table = λ t.
            new-IsTable doubles server.clients server.num_connected_clients server.max_clients i c t
              h free refl
              (record {
                queue_in = (t.each i).queue_in;
                idle = λ e. absurd (different e);
                keyed = λ r. (index, refl);
                unaddressed = λ l. absurd (different (sym l ∙ ((t.each i).idle free).0));
              })
              λ remote j differs remote_j.
                let connected_j = and_first _ _ remote_j in
                let inside = inside_of server j t connected_j in
                (new_address j inside connected_j, new_id j inside connected_j);
      } in
      let sent =
        send_client-Keeps doubles sodium server' (keep_alive (pos i) (pos server.max_clients)) i
          h in
      trans-Keeps doubles (trans-Keeps doubles added sent)
        (record { limit = refl; still = refl; table = λ t. t })
    where
      inside_of :
          (s : Server doubles) (j : ℕ)
          → HasTable doubles s
          → (client_at doubles s j).connected ≡ true
          → j < s.max_clients
      inside_of s j t connected = elim (dec_lt j s.max_clients) [
        | yes l ↦ l
        | no beyond ↦ absurd (different (sym connected ∙ t.free_beyond j (omega (arith, beyond))))
      ]

  answer_response-Keeps :
      (sodium : Sodium) (server : Server doubles) (from : Address) (token : ChallengeToken)
      (index : ℕ) (key : List ℕ)
      → IsNewAddress server from
      → IsNewId server token.client_id
      → Keeps doubles server (answer_response doubles sodium server from token index key)
  unfolding answer_response find_free_client_index
  answer_response-Keeps sodium server from token index key new_address new_id =
      let connecting = λ (i : ℕ).
        connect_client doubles sodium server i from token.client_id index
          (get_timeout doubles server.encryption_manager (some index)) token.user_data in
      if-Keeps doubles (server.num_connected_clients == server.max_clients) server
        (send_global_packet doubles sodium server denied from key)
        (elim (find_free_client_index doubles server) as (λ k. Server doubles) [
          | some i ↦ connecting i
          | none ↦ server
        ])
        (λ _. send_global-Keeps doubles sodium server denied from key)
        λ _.
          elim (search_cases (λ i. not (client_at doubles server i).connected) server.max_clients
            0) [
              | inl (e, _) ↦ rw e (refl-Keeps doubles server)
              | inr (i, e, (_, inside, free, _)) ↦ rw e (
                  connect_client-Keeps sodium server i from token.client_id index _ token.user_data
                    (omega (arith, inside)) (false_of_not _ free) new_address new_id)
            ]

  consider_response-Keeps :
      (sodium : Sodium) (server : Server doubles) (from : Address) (token : ChallengeToken)
      (index : Option ℕ)
      → Keeps doubles server (consider_response doubles sodium server from token index)
  unfolding consider_response
  consider_response-Keeps sodium server from token none = refl-Keeps doubles server
  consider_response-Keeps sodium server from token (some index) =
      let same = refl-Keeps doubles server in
      let last = λ (key : List ℕ). answer_response doubles sodium server from token index key in
      let second = λ (key : List ℕ).
        if is_found (find_client_index_by_id doubles server token.client_id)
        then server
        else last key in
      case_of_option (Keeps doubles server)
        (get_send_key doubles server.encryption_manager (some index)) server
        (λ key.
          if is_found (find_client_index_by_address doubles server from)
          then server
          else second key)
        same
        λ key _.
          if-Keeps doubles (is_found (find_client_index_by_address doubles server from)) server
            server (second key) (λ _. same)
            λ new_address.
              if-Keeps doubles (is_found (find_client_index_by_id doubles server token.client_id))
                server server (last key) (λ _. same)
                λ new_id.
                  answer_response-Keeps sodium server from token index key
                    (not_found_address server from new_address)
                    (not_found_id server token.client_id new_id)

  pub response-Keeps :
      (sodium : Sodium) (server : Server doubles) (from : Address) (token_sequence : ℕ)
      (token_data : List ℕ) (index : Option ℕ)
      → Keeps doubles server (
          process_connection_response_packet doubles sodium server from token_sequence token_data
            index)
  unfolding process_connection_response_packet
  response-Keeps sodium server from token_sequence token_data index =
      case_of_option (Keeps doubles server)
        (decrypt_challenge_token sodium token_data token_sequence server.challenge_key) server
        (λ decrypted. elim (read_challenge_token decrypted) as (λ k. Server doubles) [
          | ok token ↦ consider_response doubles sodium server from token index
          | error ↦ server
          | fault ↦ server
        ])
        (refl-Keeps doubles server) λ decrypted _. read-Keeps (read_challenge_token decrypted)
    where
      read-Keeps :
          (o : Outcome ChallengeToken)
          → Keeps doubles server (elim o as (λ k. Server doubles) [
            | ok token ↦ consider_response doubles sodium server from token index
            | error ↦ server
            | fault ↦ server
          ])
      read-Keeps (ok token) = consider_response-Keeps sodium server from token index
      read-Keeps error = refl-Keeps doubles server
      read-Keeps fault = refl-Keeps doubles server
