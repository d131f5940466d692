-- ===== src/Server/Admission.antt =====
-- c/netcode.c: how a client gets into the server's table over the network.
pub mod Process
pub mod Datagram
pub mod Handshake
use netcode_io.Base.{
  ℕ, ◌+◌, ◌<◌, bit_and, List, length, set, take, Bool, true, false, not, ◌==◌, if◌then◌else◌,
  different, Option, none, some, case_of_option, case_of_if, ◌≡◌, ◌⊎◌, inl, inr, refl, ap, sym, ◌∙◌,
  subst, arith,
}
use netcode_io.Base.Int.{ℤ, pos, negsuc}
use netcode_io.Base.Search.{search_cases}
use netcode_io.Wire.{Outcome, ok, error, fault}
use netcode_io.Address.{Address}
use netcode_io.Sodium.{Sodium}
use netcode_io.Token.{user_data_bytes}
use netcode_io.Token.Challenge.{ChallengeToken, decrypt_challenge_token, read_challenge_token}
use netcode_io.Packet.{
  Packet, request, denied, challenge, response, keep_alive, payload, disconnect,
}
use netcode_io.Queue.{push}
use netcode_io.Queue.Drain.{drain_and_clear}
use netcode_io.Time.{Doubles}
use netcode_io.Encryption.{get_send_key, get_timeout, set_expire_time}
use netcode_io.Server.{
  ServerClient, Server, client_at, put_client, find_client_index_by_id,
  find_client_index_by_address, find_free_client_index,
}
use netcode_io.Server.Table.{at, at-set_self, at-set_ne, at-set_same, at-set_either}
use netcode_io.Server.Connection.{send_global_packet, disconnect_client_internal, emptied}
use netcode_io.Server.Handshake.{
  is_found, process_connection_request_packet, connect_client, answer_response, consider_response,
  process_connection_response_packet,
}
use netcode_io.Server.Process.{heard_client, server_process_packet}
use netcode_io.Server.Keeps.{HasTable, send_client-same}
use netcode_io.Server.Keeps.Request.{request-IsAnswer}
use native.Mathlib.Decide.{ℕ_discrete}

module _ (doubles : Doubles) where
  -- Whether an index is connected, and by whom.
  abbrev pub who : ServerClient doubles → Bool × ℕ × Address
  who c = (c.connected, c.client_id, c.address)

  -- The connection of a client with an id, from an address, by a packet whose sender has an
  -- encryption index.
  pub record IsAdmission (sodium : Sodium) (server : Server doubles) (from : Address)
      (packet : Packet) (encryption_index : Option ℕ) (id : ℕ) (address : Address) : Type 0 where
    pub token_sequence : ℕ
    pub token_data : List ℕ
    pub decrypted : List ℕ
    pub token : ChallengeToken
    pub index : ℕ
    pub is_response : packet ≡ response token_sequence token_data
    pub opened :
        decrypt_challenge_token sodium token_data token_sequence server.challenge_key
        ≡ some decrypted
    pub was_read : read_challenge_token decrypted ≡ ok token
    pub keyed : encryption_index ≡ some index
    pub id_is : id ≡ token.client_id
    pub address_is : address ≡ from
    pub new_address : is_found (find_client_index_by_address doubles server from) ≡ false
    pub new_id : is_found (find_client_index_by_id doubles server token.client_id) ≡ false
    pub some_room : (server.num_connected_clients == server.max_clients) ≡ false

  connect_client-who :
      (sodium : Sodium) (server : Server doubles) (j : ℕ) (from : Address) (id index : ℕ)
      (timeout : ℤ) (user_data : List ℕ) (i : ℕ)
      → j < length server.clients
      → ((j ≡ i)
          × (who (
                client_at doubles
                  (connect_client doubles sodium server j from id index timeout user_data)
                  i)
              ≡ (true, id, from)))
        ⊎ (who (
              client_at doubles
                (connect_client doubles sodium server j from id index timeout user_data)
                i)
            ≡ who (client_at doubles server i))
  unfolding connect_client
  connect_client-who sodium server j from id index timeout user_data i h =
      let c = record (client_at doubles server j) {
        connected = true;
        timeout = timeout;
        encryption_index = some index;
        client_id = id;
        sequence = 0;
        address = from;
        last_packet_send_time = server.time;
        last_packet_receive_time = server.time;
        user_data = take user_data_bytes user_data;
      } in
      let server' = record (put_client doubles server j c) {
        num_connected_clients = server.num_connected_clients + 1;
        encryption_manager =
            set_expire_time doubles server.encryption_manager index (doubles.from_int (negsuc 0));
      } in
      let sent =
        send_client-same doubles who sodium server' (keep_alive (pos j) (pos server.max_clients)) j
          i (λ d s t. refl) in
      elim (ℕ_discrete j i) [
        | yes same ↦ inl (
          same,
          sent
              ∙ ap who (
                  subst (λ k. at doubles (set server.clients j c) k ≡ c) same
                    (at-set_self doubles server.clients j c h)),
        )
        | no differs ↦ inr (sent ∙ ap who (at-set_ne doubles server.clients j i c differs))
      ]

  -- If index `i` is connected now, that is an admission.
  abbrev pub IsAdmitted :
      Sodium → Server doubles → Address → Packet → Option ℕ → ℕ → Server doubles → Type 0
  IsAdmitted sodium server from packet encryption_index i server' =
      (client_at doubles server' i).connected ≡ true
      → IsAdmission sodium server from packet encryption_index
          (client_at doubles server' i).client_id (client_at doubles server' i).address

  pub same-IsAdmitted :
      (sodium : Sodium) (server : Server doubles) (from : Address) (packet : Packet) (k : Option ℕ)
      (i : ℕ) (server' : Server doubles)
      → (client_at doubles server i).connected ≡ false
      → (client_at doubles server' i).connected ≡ (client_at doubles server i).connected
      → IsAdmitted sodium server from packet k i server'
  same-IsAdmitted sodium server from packet k i server' free same connected =
      absurd (different (sym connected ∙ same ∙ free))

  answer_response-IsAdmitted :
      (sodium : Sodium) (server : Server doubles) (from : Address) (packet : Packet) (k : Option ℕ)
      (i : ℕ) (token : ChallengeToken) (index : ℕ) (key : List ℕ)
      → HasTable doubles server
      → (client_at doubles server i).connected ≡ false
      → ((server.num_connected_clients == server.max_clients) ≡ false
          → IsAdmission sodium server from packet k token.client_id from)
      → IsAdmitted sodium server from packet k i
          (answer_response doubles sodium server from token index key)
  unfolding answer_response find_free_client_index send_global_packet
  answer_response-IsAdmitted sodium server from packet k i token index key t free admission =
      let P = IsAdmitted sodium server from packet k i in
      let connecting = λ (j : ℕ).
        connect_client doubles sodium server j from token.client_id index
          (get_timeout doubles server.encryption_manager (some index)) token.user_data in
      case_of_if P (server.num_connected_clients == server.max_clients)
        (send_global_packet doubles sodium server denied from key)
        (elim (find_free_client_index doubles server) as (λ k'. Server doubles) [
          | some j ↦ connecting j
          | none ↦ server
        ])
        (λ _.
          same-IsAdmitted sodium server from packet k i
            (send_global_packet doubles sodium server denied from key) free refl)
        λ room.
          elim (search_cases (λ j. not (client_at doubles server j).connected) server.max_clients
            0) [
              | inl (e, _) ↦ rw e (same-IsAdmitted sodium server from packet k i server free refl)
              | inr (j, e, (_, inside, _, _)) ↦
                  rw e (
                    connected-IsAdmitted j (omega (arith, inside, t.fits, t.size)) (admission room))
            ]
    where
      connected-IsAdmitted :
          (j : ℕ)
          → j < length server.clients
          → IsAdmission sodium server from packet k token.client_id from
          → IsAdmitted sodium server from packet k i (
              connect_client doubles sodium server j from token.client_id index
                (get_timeout doubles server.encryption_manager (some index))
                token.user_data)
      connected-IsAdmitted j inside h connected =
          elim (connect_client-who sodium server j from token.client_id index
            (get_timeout doubles server.encryption_manager (some index)) token.user_data i inside) [
              | inl (_, e) ↦
                  subst
                    (λ (w : Bool × ℕ × Address). IsAdmission sodium server from packet k w.1 w.2)
                    (sym e) h
              | inr e ↦ absurd (different (sym connected ∙ ap (λ w. w.0) e ∙ free))
            ]

  consider_response-IsAdmitted :
      (sodium : Sodium) (server : Server doubles) (from : Address) (s : ℕ) (d decrypted : List ℕ)
      (token : ChallengeToken) (k : Option ℕ) (i : ℕ)
      → HasTable doubles server
      → (client_at doubles server i).connected ≡ false
      → decrypt_challenge_token sodium d s server.challenge_key ≡ some decrypted
      → read_challenge_token decrypted ≡ ok token
      → IsAdmitted sodium server from
          (response s d)
          k
          i
          (consider_response doubles sodium server from token k)
  unfolding consider_response
  consider_response-IsAdmitted sodium server from s d decrypted token none i t free opened
        was_read =
      same-IsAdmitted sodium server from (response s d) none i server free refl
  consider_response-IsAdmitted sodium server from s d decrypted token (some index) i t free opened
        was_read =
      let k : Option ℕ = some index in
      let P = IsAdmitted sodium server from (response s d) k i in
      let same = same-IsAdmitted sodium server from (response s d) k i server free refl in
      let last = λ (key : List ℕ). answer_response doubles sodium server from token index key in
      let second = λ (key : List ℕ).
        if is_found (find_client_index_by_id doubles server token.client_id)
        then server
        else last key in
      case_of_option P (get_send_key doubles server.encryption_manager (some index)) server
        (λ key.
          if is_found (find_client_index_by_address doubles server from)
          then server
          else second key)
        same
        λ key _.
          case_of_if P (is_found (find_client_index_by_address doubles server from)) server
            (second key) (λ _. same)
            λ new_address.
              case_of_if P (is_found (find_client_index_by_id doubles server token.client_id))
                server (last key) (λ _. same)
                λ new_id.
                  answer_response-IsAdmitted sodium server from (response s d) k i token index key t
                    free
                    λ room. record {
                      token_sequence = s;
                      token_data = d;
                      decrypted = decrypted;
                      token = token;
                      index = index;
                      is_response = refl;
                      opened = opened;
                      was_read = was_read;
                      keyed = refl;
                      id_is = refl;
                      address_is = refl;
                      new_address = new_address;
                      new_id = new_id;
                      some_room = room;
                    }

  read_response-IsAdmitted :
      (sodium : Sodium) (server : Server doubles) (from : Address) (s : ℕ) (d decrypted : List ℕ)
      (k : Option ℕ) (i : ℕ) (o : Outcome ChallengeToken)
      → HasTable doubles server
      → (client_at doubles server i).connected ≡ false
      → decrypt_challenge_token sodium d s server.challenge_key ≡ some decrypted
      → read_challenge_token decrypted ≡ o
      → IsAdmitted sodium server from (response s d) k i (elim o as (λ k'. Server doubles) [
        | ok token ↦ consider_response doubles sodium server from token k
        | error ↦ server
        | fault ↦ server
      ])
  read_response-IsAdmitted sodium server from s d decrypted k i (ok token) t free opened was_read =
      consider_response-IsAdmitted sodium server from s d decrypted token k i t free opened was_read
  read_response-IsAdmitted sodium server from s d decrypted k i error t free opened was_read =
      same-IsAdmitted sodium server from (response s d) k i server free refl
  read_response-IsAdmitted sodium server from s d decrypted k i fault t free opened was_read =
      same-IsAdmitted sodium server from (response s d) k i server free refl

  pub response-IsAdmitted :
      (sodium : Sodium) (server : Server doubles) (from : Address) (s : ℕ) (d : List ℕ)
      (k : Option ℕ) (i : ℕ)
      → HasTable doubles server
      → (client_at doubles server i).connected ≡ false
      → IsAdmitted sodium server from
          (response s d)
          k
          i
          (process_connection_response_packet doubles sodium server from s d k)
  unfolding process_connection_response_packet
  response-IsAdmitted sodium server from s d k i t free =
      case_of_option (IsAdmitted sodium server from (response s d) k i)
        (decrypt_challenge_token sodium d s server.challenge_key) server
        (λ decrypted. elim (read_challenge_token decrypted) as (λ k'. Server doubles) [
          | ok token ↦ consider_response doubles sodium server from token k
          | error ↦ server
          | fault ↦ server
        ])
        (same-IsAdmitted sodium server from (response s d) k i server free refl)
        λ decrypted opened.
          read_response-IsAdmitted sodium server from s d decrypted k i
            (read_challenge_token decrypted) t free opened refl
