-- ===== src/Server/Empty.antt =====
-- c/netcode.c: that a server that stops has no clients, and that one that starts has an empty table.
use netcode_io.Base.{
  ℕ, zero, suc, ◌+◌, ◌<◌, ◌≤◌, List, [], ◌∷◌, length, set, replicate, length-set, Bool, true, false,
  not, ◌&&◌, if◌then◌else◌, different, first_of_if, and_first, ◌≡◌, refl, ap, sym, ◌∙◌, subst,
  arith,
}
use netcode_io.Sodium.{Sodium, key_bytes}
use netcode_io.Queue.{init}
use netcode_io.Queue.Refine.{init-IsPacketQueue}
use netcode_io.Queue.Drain.{drain_and_clear}
use netcode_io.Time.{Doubles}
use netcode_io.Server.{ServerClient, Server, client_at, put_client, max_server_clients}
use netcode_io.Server.Table.{
  IsTable, IsServerClient, is_remote_client, one_if, count_connected, at, at-set_same, everywhere,
}
use netcode_io.Server.Connection.{
  server_send_disconnects, disconnect_client_internal, disconnect_from, disconnect_all_clients,
  is_remote, report, emptied, server_stop, init_queues,
}
use netcode_io.Server.Keeps.{HasTable, send_disconnects-same, init-empty}
use netcode_io.Server.Keeps.Update.{disconnect_from-Keeps}
use native.Mathlib.Decide.{ℕ_discrete, dec_lt}

module _ (doubles : Doubles) where
  -- What an index that is not connected contributes.
  emptied_remote :
      (clients : List (ServerClient doubles)) (i : ℕ) (c : ServerClient doubles)
      → is_remote_client doubles c ≡ false
      → (is_remote_client doubles (at doubles (set clients i c) i) ≡ false)
        × ((j : ℕ)
            → is_remote_client doubles (at doubles clients j) ≡ false
            → is_remote_client doubles (at doubles (set clients i c) j) ≡ false)
  emptied_remote [] i c h = (refl, λ j e. e)
  emptied_remote (d ∷ clients) zero c h = (h, λ j e. first j e)
    where
      first :
          (j : ℕ)
          → is_remote_client doubles (at doubles (d ∷ clients) j) ≡ false
          → is_remote_client doubles (at doubles (c ∷ clients) j) ≡ false
      first zero e = h
      first (suc j) e = e
  emptied_remote (d ∷ clients) (suc i) c h =
      ((emptied_remote clients i c h).0, λ j e. later j e (emptied_remote clients i c h).1)
    where
      later :
          (j : ℕ)
          → is_remote_client doubles (at doubles (d ∷ clients) j) ≡ false
          → ((j' : ℕ)
              → is_remote_client doubles (at doubles clients j') ≡ false
              → is_remote_client doubles (at doubles (set clients i c) j') ≡ false)
          → is_remote_client doubles (at doubles (d ∷ set clients i c) j) ≡ false
      later zero e rest = e
      later (suc j) e rest = rest j e

  disconnected :
      (sodium : Sodium) (server : Server doubles) (i : ℕ)
      → (is_remote doubles (disconnect_client_internal doubles sodium server i true).0 i ≡ false)
        × ((j : ℕ)
            → is_remote doubles server j ≡ false
            → is_remote doubles (disconnect_client_internal doubles sodium server i true).0 j
              ≡ false)
        × ((j : ℕ)
            → (client_at doubles
                (disconnect_client_internal doubles sodium server i true).0
                j).loopback
              ≡ (client_at doubles server j).loopback)
  unfolding disconnect_client_internal
  disconnected sodium server i =
      let reported = report doubles server i false in
      let server' = server_send_disconnects doubles sodium 10 reported i in
      let client = client_at doubles server' i in
      let c = record (emptied doubles client (drain_and_clear client.packet_queue).0) {
        replay_protection = netcode_io.Replay.reset;
      } in
      let (gone, others) = emptied_remote server'.clients i c refl in
      (
        gone,
        λ j e. others j (
            send_disconnects-same doubles (is_remote_client doubles) sodium 10 reported i j
              (λ c' s t. refl)
            ∙ e),
        λ j.
            at-set_same doubles (λ d. d.loopback) server'.clients i c refl j
            ∙ send_disconnects-same doubles (λ d. d.loopback) sodium 10 reported i j
                (λ c' s t. refl),
      )

  -- The loop leaves no client connected over the network among those that it comes to.
  disconnected_from :
      (sodium : Sodium) (n i : ℕ) (server : Server doubles)
      → ((j : ℕ)
          → i ≤ j
          → j < i + n
          → is_remote doubles (disconnect_from doubles sodium n i server).0 j ≡ false)
        × ((j : ℕ)
            → is_remote doubles server j ≡ false
            → is_remote doubles (disconnect_from doubles sodium n i server).0 j ≡ false)
        × ((j : ℕ)
            → (client_at doubles (disconnect_from doubles sodium n i server).0 j).loopback
              ≡ (client_at doubles server j).loopback)
  unfolding disconnect_from
  disconnected_from sodium zero i server =
      (λ j l l'. absurd (omega (arith, l, l')), λ j e. e, λ j. refl)
  disconnected_from sodium (suc n) i server =
      let gone =
        if is_remote doubles server i
        then disconnect_client_internal doubles sodium server i true
        else (server, []) in
      let (here, others, loops) =
        first_of_if
          (λ s.
            (is_remote doubles s i ≡ false)
            × ((j : ℕ) → is_remote doubles server j ≡ false → is_remote doubles s j ≡ false)
            × ((j : ℕ) → (client_at doubles s j).loopback ≡ (client_at doubles server j).loopback))
          (is_remote doubles server i) (disconnect_client_internal doubles sodium server i true)
          (server, []) (λ _. disconnected sodium server i) (λ free. (free, λ j e. e, λ j. refl)) in
      let (range, rest, loops') = disconnected_from sodium n (i + 1) gone.0 in
      (
        λ j l l'. elim (ℕ_discrete i j) [
          | yes same ↦ rest j (subst (λ k. is_remote doubles gone.0 k ≡ false) same here)
          | no differs ↦ range j (omega (arith, l, differs)) (omega (arith, l'))
        ],
        λ j e. rest j (others j e),
        λ j. loops' j ∙ loops j,
      )

  -- No client is connected.
  pub record IsEmpty (clients : List (ServerClient doubles)) : Type 0 where
    pub size : length clients ≡ max_server_clients
    pub each : (i : ℕ) → IsServerClient doubles (at doubles clients i)
    pub free : (i : ℕ) → (at doubles clients i).connected ≡ false

  count_none :
      (clients : List (ServerClient doubles))
      → ((i : ℕ) → (at doubles clients i).connected ≡ false)
      → count_connected doubles clients ≡ 0
  count_none [] h = refl
  count_none (c ∷ clients) h =
      let first : one_if doubles c.connected ≡ 0 = rw (h 0) refl in
      omega (arith, first, count_none clients (λ i. h (suc i)))

  pub empty-IsTable :
      (clients : List (ServerClient doubles)) (max : ℕ)
      → IsEmpty clients
      → max ≤ max_server_clients
      → IsTable doubles clients 0 max
  empty-IsTable clients max empty fits = record {
    size = empty.size;
    fits = fits;
    counted = sym (count_none clients empty.free);
    free_beyond = λ i l. empty.free i;
    each = empty.each;
    apart = λ i j differs remote. absurd (different (sym (and_first _ _ remote) ∙ empty.free i));
  }

  pub init_queues-IsEmpty :
      (n i : ℕ) (server : Server doubles)
      → IsEmpty server.clients
      → i + n ≤ max_server_clients
      → IsEmpty (init_queues doubles n i server).clients
        × ((init_queues doubles n i server).num_connected_clients ≡ server.num_connected_clients)
        × ((init_queues doubles n i server).max_clients ≡ server.max_clients)
        × ((init_queues doubles n i server).running ≡ server.running)
  unfolding init_queues
  init_queues-IsEmpty zero i server empty h = (empty, refl, refl, refl)
  init_queues-IsEmpty (suc n) i server empty h =
      let c = record (client_at doubles server i) { packet_queue = init } in
      let inside : i < length server.clients = omega (arith, h, empty.size) in
      init_queues-IsEmpty n (i + 1) (put_client doubles server i c)
        (record {
          size = length-set server.clients i c ∙ empty.size;
          each =
              everywhere doubles (λ j d. IsServerClient doubles d) server.clients i c inside
                (record {
                  queue_in = init-IsPacketQueue;
                  idle = λ e. (((empty.each i).idle e).0, init-empty);
                  keyed = (empty.each i).keyed;
                  unaddressed = (empty.each i).unaddressed;
                })
                (λ j _. empty.each j);
          free =
              everywhere doubles (λ j d. d.connected ≡ false) server.clients i c inside
                (empty.free i) (λ j _. empty.free j);
        })
        (omega (arith, h))

  -- The clients that netcode_server_disconnect_all_clients leaves.
  disconnect_all-IsEmpty :
      (sodium : Sodium) (server : Server doubles)
      → HasTable doubles server
      → ((i : ℕ) → (client_at doubles server i).loopback ≡ false)
      → IsEmpty (disconnect_from doubles sodium server.max_clients 0 server).0.clients
  disconnect_all-IsEmpty sodium server t no_loopback =
      let (range, rest, loops) = disconnected_from sodium server.max_clients 0 server in
      let kept =
        (disconnect_from-Keeps doubles sodium server.max_clients 0 server (omega arith)).table t in
      record {
        size = kept.size;
        each = kept.each;
        free = λ i. alone _ _ (loops i ∙ no_loopback i) (elim (dec_lt i server.max_clients) [
          | yes l ↦ range i (omega arith) (omega (arith, l))
          | no beyond ↦ rest i (not_remote _ _ (t.free_beyond i (omega (arith, beyond))))
        ]);
      }
    where
      alone : (a b : Bool) → b ≡ false → (a && not b) ≡ false → a ≡ false
      alone a b h h' = ground (arith, h, h')

      not_remote : (a b : Bool) → a ≡ false → (a && not b) ≡ false
      not_remote a b h = ground (arith, h)

  pub stop-IsEmpty :
      (sodium : Sodium) (server : Server doubles)
      → HasTable doubles server
      → server.running ≡ true
      → ((i : ℕ) → (client_at doubles server i).loopback ≡ false)
      → IsEmpty (server_stop doubles sodium server).0.clients
        × ((server_stop doubles sodium server).0.max_clients ≡ 0)
        × ((server_stop doubles sodium server).0.num_connected_clients ≡ 0)
  unfolding server_stop disconnect_all_clients
  stop-IsEmpty sodium server t running no_loopback =
      let stopped = disconnect_from doubles sodium server.max_clients 0 server in
      let all = if not server.running then (server, []) else stopped in
      first_of_if (λ s. IsEmpty s.clients × (s.max_clients ≡ 0) × (s.num_connected_clients ≡ 0))
        (not server.running) (server, [])
        (
          record all.0 {
            running = false;
            max_clients = 0;
            num_connected_clients = 0;
            global_sequence = 0;
            challenge_sequence = 0;
            challenge_key = replicate key_bytes 0;
            connect_token_entries = netcode_io.TokenEntries.reset doubles;
            encryption_manager = netcode_io.Encryption.reset doubles;
          },
          all.1,
        )
        (λ idle. absurd (different (sym idle ∙ ap not running)))
        λ _. (
          first_of_if (λ s. IsEmpty s.clients) (not server.running) (server, []) stopped
              (λ idle. absurd (different (sym idle ∙ ap not running)))
              (λ _. disconnect_all-IsEmpty sodium server t no_loopback),
          refl,
          refl,
        )
