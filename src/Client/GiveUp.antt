-- ===== src/Client/GiveUp.antt =====
-- c/netcode.c: a client that hears nothing tries one server after the other, and gives up.
pub mod Connect
use netcode_io.Base.{
  and_last, ℕ, suc, ◌+◌, ◌-◌, ◌%◌, ◌^◌, ◌<◌, ◌≤◌, List, [], ◌∷◌, ◌++◌, length, Bool, true, false,
  ◌&&◌, if◌then◌else◌, ltb, leb, Option-cases, Bool-cases, first_of_if, subst, different, ◌≡◌, refl,
  ap, sym, ◌∙◌, arith, inl, inr,
}
use netcode_io.Base.Int.{pos, is_positive}
use netcode_io.Sodium.{Sodium}
use netcode_io.Packet.{Packet}
use netcode_io.Token.Public.{ConnectToken, read_connect_token}
use netcode_io.Time.{Doubles}
use netcode_io.Client.{
  invalid_connect_token, sending_connection_request, connection_request_timed_out,
  sending_connection_response, connected, connection_response_timed_out, connection_timed_out,
  connect_token_expired, state_number, Client, set_state, reset_before_next_connect,
  connect_to_next_server,
}
use netcode_io.Client.Connection.{
  send_packet_to_server, disconnect_internal, reset_connection_data, client_connect, connect_with,
  client_disconnect,
}
use netcode_io.Wire.{Outcome, ok, error, fault}
use netcode_io.Token.Public.Accepts.{read_token-IsAccepted}
use netcode_io.Client.Step.{Reach}
use netcode_io.Client.Reachable.{Reach-IsClient, disconnect_ends, leave-IsClient}
use netcode_io.Client.Update.{
  client_receive_packets, sent_recently, packet_to_send, client_send_packets, token_expired,
  heard_nothing, next_or, check_timeouts, check_connection, client_update,
}

module _ (doubles : Doubles) (sodium : Sodium) where
  -- Updates at the given times, to which the network brings nothing.
  abbrev pub silent_updates : ℕ → Client doubles → List doubles.Time → Client doubles
  silent_updates now client [] = client
  silent_updates now client (time ∷ times) =
      silent_updates now (client_update doubles sodium client time now []).0 times

  -- Each time is past the token's timeout after the one before, but not past the span between the
  -- token's creation and its expiry.
  abbrev pub IsSpaced : ConnectToken → doubles.Time → List doubles.Time → Type 0
  IsSpaced token before [] = Unit {0}
  IsSpaced token before (time ∷ times) =
      (doubles.lt (doubles.sum before (doubles.from_int token.timeout_seconds)) time ≡ true)
      × (doubles.le
            (doubles.sum before (
              doubles.from_int
                (pos ((token.expire_timestamp + 2 ^ 64 - token.create_timestamp) % 2 ^ 64))))
            time
          ≡ false)
      × IsSpaced token time times

  -- A client that has just begun to send requests to a server.
  pub record IsAsking (client : Client doubles) (token : ConnectToken) (index : ℕ)
      (since : doubles.Time) : Type 0 where
    pub asking : client.state ≡ sending_connection_request
    pub token_is : client.connect_token ≡ token
    pub index_is : client.server_address_index ≡ index
    pub started : client.connect_start_time ≡ since
    pub heard_at : client.last_packet_receive_time ≡ since
    pub willing : client.should_disconnect ≡ false
    pub remote : client.loopback ≡ false

  -- What holds of a client, and of it after any packet, holds after netcode_client_send_packets.
  after_sending :
      (P : Client doubles → Type 0) (client : Client doubles)
      → P client
      → ((packet : Packet) → P (send_packet_to_server doubles sodium client packet))
      → P (client_send_packets doubles sodium client)
  unfolding client_send_packets
  after_sending P client before after = elim (Option-cases (packet_to_send doubles client)) [
    | inl e ↦ rw (e, client_send_packets) before
    | inr (packet, e) ↦
        rw (e, client_send_packets)
          (chosen (sent_recently doubles client)
            (send_packet_to_server doubles sodium client packet) (after packet))
  ]
    where
      chosen : (b : Bool) (c : Client doubles) → P c → P (if b then client else c)
      chosen true c h = before
      chosen false c h = h

  pub sent-IsAsking :
      (client : Client doubles) (token : ConnectToken) (index : ℕ) (since : doubles.Time)
      → IsAsking client token index since
      → IsAsking (client_send_packets doubles sodium client) token index since
        × ((client_send_packets doubles sodium client).time ≡ client.time)
  unfolding send_packet_to_server
  sent-IsAsking client token index since valid =
      after_sending (λ c. IsAsking c token index since × (c.time ≡ client.time)) client
        (valid, refl)
        λ packet. (
          record {
            asking = valid.asking;
            token_is = valid.token_is;
            index_is = valid.index_is;
            started = valid.started;
            heard_at = valid.heard_at;
            willing = valid.willing;
            remote = valid.remote;
          },
          refl,
        )

  -- The next server, from the last update's end, or the end.
  abbrev pub GoesOn : Client doubles → ConnectToken → ℕ → doubles.Time → Type 0
  GoesOn client token index time =
      ((suc index < length token.server_addresses) → IsAsking client token (suc index) time)
      × ((length token.server_addresses ≤ suc index) → client.state ≡ connection_request_timed_out)

  next_or-GoesOn :
      (client : Client doubles) (token : ConnectToken) (index : ℕ) (since : doubles.Time)
      → IsAsking client token index since
      → GoesOn
          (next_or doubles sodium client connection_request_timed_out).0
          token
          index
          client.time
  unfolding connect_to_next_server set_state reset_before_next_connect disconnect_internal
      reset_connection_data
  next_or-GoesOn client token index since valid =
      elim (Bool-cases
        (leb (length client.connect_token.server_addresses) (client.server_address_index + 1))) [
          | inl last ↦ (
            λ more. absurd (none_left last more),
            λ _. rw (last, connect_to_next_server, valid.asking) refl,
          )
          | inr more ↦ (
            λ _.
                rw (more, connect_to_next_server)
                  (record {
                    asking = refl;
                    token_is = valid.token_is;
                    index_is = ap (λ k. k + 1) valid.index_is ∙ omega arith;
                    started = refl;
                    heard_at = refl;
                    willing = refl;
                    remote = valid.remote;
                  }),
            λ last. absurd (some_left more last),
          )
        ]
    where
      none_left :
          leb (length client.connect_token.server_addresses) (client.server_address_index + 1)
            ≡ true
          → suc index < length token.server_addresses
          → ⊥
      none_left last more =
          ground
            (arith, last, more, ap (λ t. length t.server_addresses) valid.token_is, valid.index_is)

      some_left :
          leb (length client.connect_token.server_addresses) (client.server_address_index + 1)
            ≡ false
          → length token.server_addresses ≤ suc index
          → ⊥
      some_left more last =
          ground
            (arith, last, more, ap (λ t. length t.server_addresses) valid.token_is, valid.index_is)

  timeout-GoesOn :
      (client : Client doubles) (token : ConnectToken) (index : ℕ) (since : doubles.Time)
      → is_positive token.timeout_seconds ≡ true
      → IsAsking client token index since
      → doubles.lt (doubles.sum since (doubles.from_int token.timeout_seconds)) client.time ≡ true
      → GoesOn (check_timeouts doubles sodium client).0 token index client.time
  unfolding check_timeouts
  timeout-GoesOn client token index since positive valid late =
      first_of_if (λ c. GoesOn c token index client.time) (heard_nothing doubles client)
        (elim client.state as (λ k. Client doubles × List ℕ) [
          | sending_connection_request ↦ next_or doubles sodium client connection_request_timed_out
          | sending_connection_response ↦
              next_or doubles sodium client connection_response_timed_out
          | connected ↦ disconnect_internal doubles sodium client connection_timed_out false
          | _ ↦ (client, [])
        ])
        (client, [])
        (λ silence.
          subst
            (λ s.
              GoesOn
                (elim s as (λ k. Client doubles × List ℕ) [
                  | sending_connection_request ↦
                      next_or doubles sodium client connection_request_timed_out
                  | sending_connection_response ↦
                      next_or doubles sodium client connection_response_timed_out
                  | connected ↦ disconnect_internal doubles sodium client connection_timed_out false
                  | _ ↦ (client, [])
                ]).0
                token index client.time)
            (sym valid.asking) (next_or-GoesOn client token index since valid))
        (λ heard.
          absurd (different (sym (rw (valid.heard_at, valid.token_is, positive) late) ∙ heard)))

  pub checked-GoesOn :
      (client : Client doubles) (token : ConnectToken) (index : ℕ) (since : doubles.Time)
      → is_positive token.timeout_seconds ≡ true
      → IsAsking client token index since
      → IsSpaced token since (client.time ∷ [])
      → GoesOn (check_connection doubles sodium client).0 token index client.time
  unfolding check_connection
  checked-GoesOn client token index since positive valid spaced =
      let fresh : token_expired doubles client ≡ false =
        rw (valid.started, valid.token_is) spaced.1 in
      first_of_if (λ c. GoesOn c token index client.time)
        (ltb 6 (state_number client.state)
          && ltb (state_number client.state) 9
          && token_expired doubles client)
        (disconnect_internal doubles sodium client connect_token_expired false)
        (if client.should_disconnect
          then next_or doubles sodium client client.should_disconnect_state
          else check_timeouts doubles sodium client)
        (λ old. absurd (different (sym (and_last _ _ old) ∙ fresh)))
        (λ young.
          first_of_if (λ c. GoesOn c token index client.time) client.should_disconnect
            (next_or doubles sodium client client.should_disconnect_state)
            (check_timeouts doubles sodium client)
            (λ told. absurd (different (sym told ∙ valid.willing)))
            (λ free. timeout-GoesOn client token index since positive valid spaced.0))
