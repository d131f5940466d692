-- ===== src/Server/Admission/Datagram.antt =====
-- c/netcode.c, netcode_server_read_and_process_packet: which datagrams connect a client.
use netcode_io.Base.{
  ℕ, zero, suc, ◌<◌, List, [], ◌∷◌, length, Bool, true, false, not, ◌&&◌, if◌then◌else◌, leb,
  get_or, set, different, Option, none, some, first_of_if, ◌≡◌, ◌≢◌, ◌⊎◌, inl, inr, refl, ap, sym,
  subst, ◌∙◌, arith,
}
use netcode_io.Base.Search.{search, search_cases}
use netcode_io.Wire.{ok, error, fault}
use netcode_io.Address.{Address, address_equal}
use netcode_io.Sodium.{Sodium}
use netcode_io.Packet.{Packet}
use netcode_io.Packet.Read.{ReadResult, read_packet}
use netcode_io.Replay.{ReplayProtection}
use netcode_io.Time.{Doubles}
use netcode_io.Encryption.{
  EncryptionManager, Mapping, free_mapping, mapping, is_live, find_encryption_mapping,
  get_receive_key,
}
use netcode_io.Client.Update.{Datagram}
use netcode_io.Server.{
  Server, client_at, is_unset, find_client_index_by_address, find_client_index_by_id,
}
use netcode_io.Server.Table.{at-set_same}
use netcode_io.Server.Handshake.{is_found}
use netcode_io.Server.Process.{
  server_process_packet, lookup_sender, replay_of, store_replay, server_context, no_key_for,
  read_and_process, read_and_process_packet,
}
use netcode_io.Server.Keeps.{HasTable}
use netcode_io.Server.Keeps.Process.{IsRemoteIndex, found_client, store_replay-Keeps}
use netcode_io.Server.Admission.{IsAdmission}
use netcode_io.Server.Admission.Process.{process_packet-IsAdmission}
use mathlib.Core.Path.{fun_ext}

none_keyed : (k : Option ℕ) (index : ℕ) → k ≡ none → k ≢ some index
none_keyed k index e e' = cc

module _ (doubles : Doubles) where
  -- The datagram is from an address with a live encryption mapping, and decrypts under the receive
  -- key of that mapping to a packet that is an admission.
  pub record IsArrival (sodium : Sodium) (server : Server doubles) (now : ℕ) (datagram : Datagram)
      (id : ℕ) (address : Address) : Type 0 where
    pub packet : Packet
    pub sequence : ℕ
    pub index : ℕ
    pub in_use : index < server.encryption_manager.num_encryption_mappings
    pub mapped : is_live doubles server.encryption_manager datagram.from server.time index ≡ true
    pub decrypted :
        (read_packet sodium
          (server_context doubles server now
            (some (mapping doubles server.encryption_manager index).receive_key)
            datagram.data_at)
          none
          datagram.bytes).1
        ≡ ok (packet, sequence)
    pub admission : IsAdmission doubles sodium server datagram.from packet (some index) id address

  -- What a read packet was, if the server has connected index `i` by it.
  read-IsAdmission :
      (sodium : Sodium) (server : Server doubles) (from : Address) (d : Option ℕ)
      (result : ReadResult) (k c : Option ℕ) (i : ℕ)
      → HasTable doubles server
      → (client_at doubles server i).connected ≡ false
      → let server' =
          (elim d as (λ k'. Server doubles × List ℕ) [
            | none ↦ (server, [])
            | some data_at ↦ elim result as (λ k'. Server doubles × List ℕ) [
              | ok (packet, sequence) ↦
                  server_process_packet doubles sodium server from packet data_at sequence k c
              | error ↦ (server, [])
              | fault ↦ (server, [])
            ]
          ]).0 in
        (client_at doubles server' i).connected ≡ true
        → (packet : Packet) × (sequence : ℕ) × (result ≡ ok (packet, sequence))
          × IsAdmission doubles sodium server from packet k
              (client_at doubles server' i).client_id
              (client_at doubles server' i).address
  read-IsAdmission sodium server from none result k c i t free e = absurd (different (sym e ∙ free))
  read-IsAdmission sodium server from (some d) (ok (p, s)) k c i t free e =
      (p, s, refl, process_packet-IsAdmission doubles sodium server from p d s k c i t free e)
  read-IsAdmission sodium server from (some d) error k c i t free e =
      absurd (different (sym e ∙ free))
  read-IsAdmission sodium server from (some d) fault k c i t free e =
      absurd (different (sym e ∙ free))

  -- Storing the replay protection does not move a client.
  find-store_replay :
      (server : Server doubles) (c : Option ℕ) (replay : Option ReplayProtection) (from : Address)
      → find_client_index_by_address doubles (store_replay doubles server c replay) from
        ≡ find_client_index_by_address doubles server from
  unfolding find_client_index_by_address
  find-store_replay server none replay from = refl
  find-store_replay server (some j) none from = refl
  find-store_replay server (some j) (some replay) from =
      let client = record (client_at doubles server j) { replay_protection = replay } in
      let seat = at-set_same doubles (λ c. (c.connected, c.address)) server.clients j client refl in
      ap (λ (test : ℕ → Bool). if is_unset from then none else search test server.max_clients 0)
        (fun_ext (λ i. ap (λ (s : Bool × Address). s.0 && address_equal s.1 from) (seat i)))

  -- The sender of a packet that connects a client was not connected before.
  arrived-IsAdmission :
      (sodium : Sodium) (server : Server doubles) (now : ℕ) (datagram : Datagram) (k : Option ℕ)
      (key : Option (List ℕ)) (i : ℕ)
      → HasTable doubles server
      → (client_at doubles server i).connected ≡ false
      → (client_at doubles
          (read_and_process doubles sodium server now datagram k none key).0
          i).connected
        ≡ true
      → (packet : Packet) × (sequence : ℕ) × ((read_packet sodium
            (server_context doubles server now key datagram.data_at)
            none
            datagram.bytes).1
          ≡ ok (packet, sequence))
        × IsAdmission doubles sodium server datagram.from packet k
            (client_at doubles
              (read_and_process doubles sodium server now datagram k none key).0
              i).client_id
            (client_at doubles
              (read_and_process doubles sodium server now datagram k none key).0
              i).address
  unfolding read_and_process
  arrived-IsAdmission sodium server now datagram k key i t free e =
      read-IsAdmission sodium server datagram.from datagram.data_at
        (read_packet sodium (server_context doubles server now key datagram.data_at) none
          datagram.bytes).1
        k none i t free e

  connected_stays :
      (sodium : Sodium) (server : Server doubles) (now : ℕ) (datagram : Datagram) (k : Option ℕ)
      (j : ℕ) (key : Option (List ℕ)) (i : ℕ)
      → HasTable doubles server
      → find_client_index_by_address doubles server datagram.from ≡ some j
      → (client_at doubles server i).connected ≡ false
      → (client_at doubles
          (read_and_process doubles sodium server now datagram k (some j) key).0
          i).connected
        ≢ true
  unfolding read_and_process
  connected_stays sodium server now datagram k j key i t found free e =
      let (replay, result) =
        read_packet sodium (server_context doubles server now key datagram.data_at)
          (replay_of doubles server (some j)) datagram.bytes in
      let stored = store_replay doubles server (some j) replay in
      let (kept, _) = store_replay-Keeps doubles server (some j) replay (
        subst (IsRemoteIndex doubles server) found (found_client doubles server datagram.from t)) in
      let (p, s, _, admission) =
        read-IsAdmission sodium stored datagram.from datagram.data_at result k (some j) i
          (kept.table t) (stored-free replay) e in
      different (
        ap is_found (sym (find-store_replay server (some j) replay datagram.from ∙ found))
        ∙ admission.new_address)
    where
      stored-free :
          (replay : Option ReplayProtection)
          → (client_at doubles (store_replay doubles server (some j) replay) i).connected ≡ false
      stored-free none = free
      stored-free (some replay) =
          at-set_same doubles (λ c. c.connected) server.clients j
            (record (client_at doubles server j) { replay_protection = replay }) refl i
          ∙ free

  same_key :
      (mappings : List (Mapping doubles)) (j : ℕ) (time : doubles.Time)
      → (get_or
          (set mappings j
            (record (get_or mappings j (free_mapping doubles)) { last_access_time = time }))
          j
          (free_mapping doubles)).receive_key
        ≡ (get_or mappings j (free_mapping doubles)).receive_key
  same_key [] j time = refl
  same_key (m ∷ mappings) zero time = refl
  same_key (m ∷ mappings) (suc j) time = same_key mappings j time

  -- A mapping that is found is live, and its receive key is as before the access.
  find-cases :
      (manager : EncryptionManager doubles) (from : Address) (time : doubles.Time)
      → let (manager', k) = find_encryption_mapping doubles manager from time in
        (k ≡ none)
        ⊎ ((index : ℕ) × (k ≡ some index)
            × (index < manager.num_encryption_mappings)
            × (is_live doubles manager from time index ≡ true)
            × (get_receive_key doubles manager' k
                ≡ some (mapping doubles manager index).receive_key))
  unfolding find_encryption_mapping get_receive_key
  find-cases manager from time =
      elim (search_cases (is_live doubles manager from time) manager.num_encryption_mappings 0) [
        | inl (e, _) ↦ rw (e, find_encryption_mapping) (inl refl)
        | inr (index, e, (_, inside, live, _)) ↦
            rw (e, find_encryption_mapping)
              (inr (
                index,
                refl,
                omega (arith, inside),
                live,
                ap some (same_key manager.mappings index time),
              ))
      ]

  forget_manager :
      (sodium : Sodium) (server : Server doubles) (manager : EncryptionManager doubles)
      (from : Address) (packet : Packet) (k k' : Option ℕ) (id : ℕ) (address : Address)
      → k ≡ k'
      → IsAdmission doubles sodium
          (record server { encryption_manager = manager })
          from
          packet
          k
          id
          address
      → IsAdmission doubles sodium server from packet k' id address
  unfolding find_client_index_by_address find_client_index_by_id
  forget_manager sodium server manager from packet k k' id address is a = record {
    token_sequence = a.token_sequence;
    token_data = a.token_data;
    decrypted = a.decrypted;
    token = a.token;
    index = a.index;
    is_response = a.is_response;
    opened = a.opened;
    was_read = a.was_read;
    keyed = sym is ∙ a.keyed;
    id_is = a.id_is;
    address_is = a.address_is;
    new_address = a.new_address;
    new_id = a.new_id;
    some_room = a.some_room;
  }

  -- From the lookup of the sender on.
  looked_up-IsArrival :
      (sodium : Sodium) (server : Server doubles) (now : ℕ) (datagram : Datagram) (i : ℕ)
      (c : Option ℕ)
      → HasTable doubles server
      → (client_at doubles server i).connected ≡ false
      → find_client_index_by_address doubles server datagram.from ≡ c
      → let (manager, k) = lookup_sender doubles server datagram.from c in
        let server' =
          (read_and_process doubles sodium
            (record server { encryption_manager = manager })
            now
            datagram
            k
            c
            (get_receive_key doubles manager k)).0 in
        (client_at doubles server' i).connected ≡ true
        → IsArrival sodium server now datagram
            (client_at doubles server' i).client_id
            (client_at doubles server' i).address
  looked_up-IsArrival sodium server now datagram i (some j) t free found e =
      absurd (connected_stays sodium server now datagram _ j _ i t found free e)
  looked_up-IsArrival sodium server now datagram i none t free found e =
      let (manager, k) =
        find_encryption_mapping doubles server.encryption_manager datagram.from server.time in
      let server' = record server { encryption_manager = manager } in
      let (p, s, read, admission) =
        arrived-IsAdmission sodium server' now datagram k (get_receive_key doubles manager k) i t
          free e in
      elim (find-cases server.encryption_manager datagram.from server.time) [
        | inl nothing ↦ absurd (none_keyed _ admission.index nothing admission.keyed)
        | inr (index, is, in_use, live, key) ↦ record {
          packet = p;
          sequence = s;
          index = index;
          in_use = in_use;
          mapped = live;
          decrypted =
              subst
                (λ key.
                  (read_packet sodium (server_context doubles server now key datagram.data_at) none
                    datagram.bytes).1
                  ≡ ok (p, s))
                key read;
          admission =
              forget_manager sodium server manager datagram.from p k (some index) _ _ is admission;
        }
      ]

  -- With a well-formed table, netcode_server_read_and_process_packet connects a client, at whatever
  -- index, only by a connection response from an address that has a live encryption mapping, which
  -- decrypts under the receive key of that mapping: its challenge token opens under the server's
  -- challenge key and the token's own sequence number. The client gets the id in the token and the
  -- sender's address, neither of which a connected client had, and the server was not full.
  pub read_and_process_packet-IsArrival :
      (sodium : Sodium) (server : Server doubles) (now : ℕ) (datagram : Datagram) (i : ℕ)
      → HasTable doubles server
      → (client_at doubles server i).connected ≡ false
      → (client_at doubles
          (read_and_process_packet doubles sodium server now datagram).0
          i).connected
        ≡ true
      → IsArrival sodium server now datagram
          (client_at doubles
            (read_and_process_packet doubles sodium server now datagram).0
            i).client_id
          (client_at doubles
            (read_and_process_packet doubles sodium server now datagram).0
            i).address
  unfolding read_and_process_packet
  read_and_process_packet-IsArrival sodium server now datagram i t free =
      let c = find_client_index_by_address doubles server datagram.from in
      let (manager, k) = lookup_sender doubles server datagram.from c in
      let server' = record server { encryption_manager = manager } in
      let key = get_receive_key doubles manager k in
      let P = λ (s : Server doubles).
        (client_at doubles s i).connected ≡ true
        → IsArrival sodium server now datagram (client_at doubles s i).client_id
            (client_at doubles s i).address in
      let processed = read_and_process doubles sodium server' now datagram k c key in
      let second = if no_key_for doubles key datagram.bytes then (server', []) else processed in
      let same : P server = λ e. absurd (different (sym e ∙ free)) in
      let looked : P server' = λ e. absurd (different (sym e ∙ free)) in
      first_of_if P (not server.running) (server, [])
        (if leb (length datagram.bytes) 1 then (server, []) else second) (λ _. same)
        λ _.
          first_of_if P (leb (length datagram.bytes) 1) (server, []) second (λ _. same)
            λ _.
              first_of_if P (no_key_for doubles key datagram.bytes) (server', []) processed
                (λ _. looked) (λ _. looked_up-IsArrival sodium server now datagram i c t free refl)
