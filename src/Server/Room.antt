-- ===== src/Server/Room.antt =====
-- c/netcode.c, netcode_server_find_free_client_index: a server that is not full has a free slot, as
-- the assertion in netcode_server_process_connection_response_packet says.
use netcode_io.Base.{
  ℕ, zero, suc, ◌<◌, ◌≤◌, List, [], ◌∷◌, Bool, true, false, not, none, some, ◌≡◌, ◌⊎◌, inl, inr,
  refl, different, sym, arith,
}
use netcode_io.Base.Search.{search_cases}
use netcode_io.Time.{Doubles}
use netcode_io.Server.{ServerClient, Server, client_at, find_free_client_index}
use netcode_io.Server.Table.{at, one_if, count_connected}
use netcode_io.Server.Keeps.{HasTable}

module _ (doubles : Doubles) where
  one_if-le : (b : Bool) → one_if doubles b ≤ 1
  one_if-le true = omega arith
  one_if-le false = omega arith

  count-le :
      (clients : List (ServerClient doubles)) (n : ℕ)
      → ((i : ℕ) → n ≤ i → (at doubles clients i).connected ≡ false)
      → count_connected doubles clients ≤ n
  count-le [] n h = omega arith
  count-le (c ∷ clients) zero h =
      let first : one_if doubles c.connected ≡ 0 = rw (h 0 (omega arith)) refl in
      omega (arith, first, count-le clients zero (λ i l. h (suc i) (omega arith)))
  count-le (c ∷ clients) (suc n) h =
      let rest = count-le clients n (λ i l. h (suc i) (omega (arith, l))) in
      omega (arith, rest, one_if-le c.connected)

  count-lt :
      (clients : List (ServerClient doubles)) (n i : ℕ)
      → ((j : ℕ) → n ≤ j → (at doubles clients j).connected ≡ false)
      → i < n
      → (at doubles clients i).connected ≡ false
      → count_connected doubles clients < n
  count-lt [] n i h l e = omega (arith, l)
  count-lt (c ∷ clients) zero i h l e = absurd (omega (arith, l))
  count-lt (c ∷ clients) (suc n) zero h l e =
      let first : one_if doubles c.connected ≡ 0 = rw e refl in
      omega (arith, first, count-le clients n (λ j l'. h (suc j) (omega (arith, l'))))
  count-lt (c ∷ clients) (suc n) (suc i) h l e = omega (
    arith,
    one_if-le c.connected,
    count-lt clients n i (λ j l'. h (suc j) (omega (arith, l'))) (omega (arith, l)) e,
  )

  le-count :
      (clients : List (ServerClient doubles)) (n : ℕ)
      → ((i : ℕ) → i < n → (at doubles clients i).connected ≡ true)
      → n ≤ count_connected doubles clients
  le-count clients zero h = omega arith
  le-count [] (suc n) h = absurd (different (sym (h 0 (omega arith))))
  le-count (c ∷ clients) (suc n) h =
      let first : one_if doubles c.connected ≡ 1 = rw (h 0 (omega arith)) refl in
      omega (arith, first, le-count clients n (λ i l. h (suc i) (omega (arith, l))))

  not_free : (b : Bool) → not b ≡ false → b ≡ true
  not_free true h = refl
  not_free false h = sym h

  free : (b : Bool) → not b ≡ true → b ≡ false
  free true h = sym h
  free false h = refl

  -- With a well-formed table there are no more connected clients than slots, and
  -- netcode_server_find_free_client_index finds a slot, which is not connected, unless the server is
  -- full; when it is full it finds none.
  pub find_free_client_index_lem :
      (server : Server doubles)
      → HasTable doubles server
      → (server.num_connected_clients ≤ server.max_clients)
        × (((server.num_connected_clients ≡ server.max_clients)
              × (find_free_client_index doubles server ≡ none))
            ⊎ ((i : ℕ) × (find_free_client_index doubles server ≡ some i)
                × (i < server.max_clients)
                × ((client_at doubles server i).connected ≡ false)
                × (server.num_connected_clients < server.max_clients)))
  unfolding find_free_client_index
  find_free_client_index_lem server t =
      let fits : server.num_connected_clients ≤ server.max_clients =
        omega (arith, t.counted, count-le server.clients server.max_clients t.free_beyond) in
      (
        fits,
        elim (search_cases (λ i. not (client_at doubles server i).connected) server.max_clients 0) [
          | inl (e, all) ↦ inl (
            omega (
              arith,
              fits,
              t.counted,
              le-count server.clients server.max_clients
                  (λ i l. not_free _ (all i (omega arith) (omega (arith, l)))),
            ),
            e,
          )
          | inr (i, e, (_, inside, open_slot, _)) ↦ inr (
            i,
            e,
            omega (arith, inside),
            free _ open_slot,
            omega (
              arith,
              t.counted,
              count-lt server.clients server.max_clients i t.free_beyond (omega (arith, inside))
                  (free _ open_slot),
            ),
          )
        ],
      )
