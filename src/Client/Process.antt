-- ===== src/Client/Process.antt =====
-- c/netcode.c, netcode_client_process_packet: whom the client listens to, how packets move it between
-- its states, and what becomes of their memory.
use netcode_io.Base.{
  ℕ, List, [], ◌∷◌, ◌++◌, Bool, true, false, ◌&&◌, ◌||◌, if◌then◌else◌, Bool-cases, ◌≡◌, subst, sym,
  refl, ◌⊎◌, inl, inr,
}
use netcode_io.Base.Int.{ℤ}
use netcode_io.Address.{Address, address_equal}
use netcode_io.Packet.{
  Packet, request, denied, challenge, response, keep_alive, payload, disconnect,
}
use netcode_io.Queue.Refine.{IsPacketQueue, contents, push_lem}
use netcode_io.Time.{Doubles}
use netcode_io.Client.{
  ClientState, connect_token_expired, invalid_connect_token, connection_timed_out,
  connection_response_timed_out, connection_request_timed_out, connection_denied, disconnected,
  sending_connection_request, sending_connection_response, connected, is_requesting, is_responding,
  is_connected, Client, set_state, process_packet,
}

-- What a packet may do to the state.
pub data IsMove : Packet → ClientState → ClientState → Type 0 where
  stays : {p : Packet} {s : ClientState} → IsMove p s s
  challenged :
      {sequence : ℕ} {token : List ℕ}
      → IsMove (challenge sequence token) sending_connection_request sending_connection_response
  accepted : {i m : ℤ} → IsMove (keep_alive i m) sending_connection_response connected

and_refused : (a b : Bool) → b ≡ false → (a && b) ≡ false
and_refused true b h = h
and_refused false b h = refl

is_requesting_lem : (s : ClientState) → is_requesting s ≡ true → s ≡ sending_connection_request
is_requesting_lem sending_connection_request h = refl
is_requesting_lem connect_token_expired h = cc
is_requesting_lem invalid_connect_token h = cc
is_requesting_lem connection_timed_out h = cc
is_requesting_lem connection_response_timed_out h = cc
is_requesting_lem connection_request_timed_out h = cc
is_requesting_lem connection_denied h = cc
is_requesting_lem disconnected h = cc
is_requesting_lem sending_connection_response h = cc
is_requesting_lem connected h = cc

is_responding_lem : (s : ClientState) → is_responding s ≡ true → s ≡ sending_connection_response
is_responding_lem sending_connection_response h = refl
is_responding_lem connect_token_expired h = cc
is_responding_lem invalid_connect_token h = cc
is_responding_lem connection_timed_out h = cc
is_responding_lem connection_response_timed_out h = cc
is_responding_lem connection_request_timed_out h = cc
is_responding_lem connection_denied h = cc
is_responding_lem disconnected h = cc
is_responding_lem sending_connection_request h = cc
is_responding_lem connected h = cc

module _ (doubles : Doubles) where
  -- netcode_client_process_packet does nothing but free a packet that does not come from the address
  -- of the server that the client is connecting or connected to.
  pub process_packet-stranger :
      (client : Client doubles) (from : Address) (p : Packet) (data_at sequence : ℕ)
      → address_equal from client.server_address ≡ false
      → process_packet doubles client from p data_at sequence ≡ (client, data_at ∷ [])
  unfolding process_packet
  process_packet-stranger client from (request v x e s d) data_at sequence h = refl
  process_packet-stranger client from (response s d) data_at sequence h = refl
  process_packet-stranger client from denied data_at sequence h =
      rw
        (and_refused (is_requesting client.state || is_responding client.state) _ h, process_packet)
        refl
  process_packet-stranger client from (challenge s d) data_at sequence h =
      rw (and_refused (is_requesting client.state) _ h, process_packet) refl
  process_packet-stranger client from (keep_alive i m) data_at sequence h =
      rw (h, process_packet) refl
  process_packet-stranger client from (payload b) data_at sequence h =
      rw (and_refused (is_connected client.state) _ h, process_packet) refl
  process_packet-stranger client from disconnect data_at sequence h =
      rw (and_refused (is_connected client.state) _ h, process_packet) refl

  same_state :
      (p : Packet) (s : ClientState) (b : Bool) (r r' : Client doubles × List ℕ)
      → r.0.state ≡ s
      → r'.0.state ≡ s
      → IsMove p s (if b then r else r').0.state
  same_state p s true r r' h h' = rw h stays
  same_state p s false r r' h h' = rw h' stays

  -- netcode_client_process_packet changes the state by two moves only: a challenge while it is
  -- sending connection requests lets the client send responses, and a keep-alive while it is
  -- sending responses makes it connected.
  pub process_packet-IsMove :
      (client : Client doubles) (from : Address) (p : Packet) (data_at sequence : ℕ)
      → IsMove p client.state (process_packet doubles client from p data_at sequence).0.state
  unfolding process_packet set_state
  process_packet-IsMove client from (request v x e s d) data_at sequence = stays
  process_packet-IsMove client from (response s d) data_at sequence = stays
  process_packet-IsMove client from denied data_at sequence =
      same_state denied client.state _ _ _ refl refl
  process_packet-IsMove client from (challenge s d) data_at sequence =
      elim (Bool-cases (is_requesting client.state)) [
        | inr other ↦ rw (other, process_packet) stays
        | inl asking ↦ elim (Bool-cases (address_equal from client.server_address)) [
          | inr stranger ↦ rw (asking, stranger, process_packet) stays
          | inl server ↦
              rw (asking, server, process_packet)
                (subst (λ k. IsMove (challenge s d) k sending_connection_response)
                  (sym (is_requesting_lem client.state asking)) challenged)
        ]
      ]
  process_packet-IsMove client from (keep_alive i m) data_at sequence =
      elim (Bool-cases (address_equal from client.server_address)) [
        | inr stranger ↦ rw (stranger, process_packet) stays
        | inl server ↦ elim (Bool-cases (is_connected client.state)) [
          | inl up ↦ rw (server, up, process_packet) stays
          | inr down ↦ elim (Bool-cases (is_responding client.state)) [
            | inr other ↦ rw (server, down, other, process_packet) stays
            | inl answering ↦
                rw (server, down, answering, process_packet)
                  (subst (λ k. IsMove (keep_alive i m) k connected)
                    (sym (is_responding_lem client.state answering)) accepted)
          ]
        ]
      ]
  process_packet-IsMove client from (payload b) data_at sequence =
      same_state (payload b) client.state _ _ _ refl refl
  process_packet-IsMove client from disconnect data_at sequence =
      same_state disconnect client.state _ _ _ refl refl

  -- Every packet's memory is freed, or held by the queue behind what was there.
  abbrev pub IsAccounted : Client doubles → ℕ → ℕ → Client doubles × List ℕ → Type 0
  IsAccounted client data_at sequence (client', freed) =
      ((freed ≡ data_at ∷ []) × (client'.packet_receive_queue ≡ client.packet_receive_queue))
      ⊎ ((freed ≡ [])
          × (contents client'.packet_receive_queue
              ≡ contents client.packet_receive_queue ++ ((data_at, sequence) ∷ [])))

  freed_either :
      (client : Client doubles) (data_at sequence : ℕ) (b : Bool) (c c' : Client doubles)
      → c.packet_receive_queue ≡ client.packet_receive_queue
      → c'.packet_receive_queue ≡ client.packet_receive_queue
      → IsAccounted client data_at sequence (if b then (c, data_at ∷ []) else (c', data_at ∷ []))
  freed_either client data_at sequence true c c' h h' = inl (refl, h)
  freed_either client data_at sequence false c c' h h' = inl (refl, h')

  -- netcode_client_process_packet, with a well-formed queue, either frees the packet's memory, once,
  -- and leaves the queue alone, or frees nothing and puts the packet behind the others of the queue.
  pub process_packet-IsAccounted :
      (client : Client doubles) (from : Address) (p : Packet) (data_at sequence : ℕ)
      → IsPacketQueue client.packet_receive_queue
      → IsAccounted client data_at sequence (process_packet doubles client from p data_at sequence)
  unfolding process_packet set_state
  process_packet-IsAccounted client from (request v x e s d) data_at sequence valid =
      inl (refl, refl)
  process_packet-IsAccounted client from (response s d) data_at sequence valid = inl (refl, refl)
  process_packet-IsAccounted client from denied data_at sequence valid =
      freed_either client data_at sequence _ _ _ refl refl
  process_packet-IsAccounted client from (challenge s d) data_at sequence valid =
      freed_either client data_at sequence _ _ _ refl refl
  process_packet-IsAccounted client from (keep_alive i m) data_at sequence valid =
      elim (Bool-cases (address_equal from client.server_address)) [
        | inr stranger ↦ rw (stranger, process_packet) (inl (refl, refl))
        | inl server ↦ elim (Bool-cases (is_connected client.state)) [
          | inl up ↦ rw (server, up, process_packet) (inl (refl, refl))
          | inr down ↦
              rw (server, down, process_packet)
                (freed_either client data_at sequence _ _ _ refl refl)
        ]
      ]
  process_packet-IsAccounted client from (payload b) data_at sequence valid =
      elim (Bool-cases (is_connected client.state && address_equal from client.server_address)) [
        | inr ignored ↦ rw (ignored, process_packet) (inl (refl, refl))
        | inl heeded ↦ elim (push_lem client.packet_receive_queue data_at sequence valid).1 [
          | inl (full, e) ↦ rw (heeded, e, process_packet) (inl (refl, refl))
          | inr (room, e, freed, taken) ↦ rw (heeded, process_packet) (inr (freed, e))
        ]
      ]
  process_packet-IsAccounted client from disconnect data_at sequence valid =
      freed_either client data_at sequence _ _ _ refl refl
