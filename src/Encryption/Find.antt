-- ===== src/Encryption/Find.antt =====
-- c/netcode.c, the encryption manager: a mapping that was added is found again, and the others stay
-- as they were.
use netcode_io.Base.{
  different, ℕ, ◌<◌, List, length, Bool, true, false, ◌&&◌, ◌||◌, ltb, Option, some, Bool-cases,
  length-set, ◌≡◌, ◌≢◌, inl, inr, refl, ap, sym, ◌∙◌, arith,
}
use netcode_io.Base.Int.{ℤ}
use netcode_io.Base.Search.{search_cases, search_first, IsFirst}
use netcode_io.Address.{Address, unset, ipv4, ipv6, IsAddress, address_equal}
use netcode_io.Address.Laws.{address_equal_iff}
use netcode_io.Time.{Doubles}
use netcode_io.Encryption.{
  Mapping, EncryptionManager, IsManager, free_mapping, mapping, put, entry_expired, is_live,
  is_unset, is_free, add_encryption_mapping, find_encryption_mapping, get_send_key, get_receive_key,
}
use netcode_io.Encryption.Laws.{put_self, put_other}

pub equal_right : (a b : Address) → IsAddress b → address_equal a b ≡ true → a ≡ b
unfolding address_equal
equal_right unset unset v e = refl
equal_right unset (ipv4 a b c d p) v e = cc
equal_right unset (ipv6 a b c d e f g h p) v q = cc
equal_right (ipv4 a b c d p) unset v e = cc
equal_right (ipv4 a b c d p) (ipv4 a' b' c' d' p') v e = ground arith
equal_right (ipv4 a b c d p) (ipv6 a' b' c' d' e' f' g' h' p') v e = cc
equal_right (ipv6 a b c d e f g h p) unset v q = cc
equal_right (ipv6 a b c d e f g h p) (ipv4 a' b' c' d' p') v q = cc
equal_right (ipv6 a b c d e f g h p) (ipv6 a' b' c' d' e' f' g' h' p') v q = ground arith

pub unequal : (a b : Address) → IsAddress b → a ≢ b → address_equal a b ≡ false
unequal a b v h = elim (Bool-cases (address_equal a b)) [
  | inl e ↦ absurd (h (equal_right a b v e))
  | inr e ↦ e
]

pub and_parts : (a b : Bool) → (a && b) ≡ true → (a ≡ true) × (b ≡ true)
and_parts true b e = (refl, e)
and_parts false b e = cc

module _ (doubles : Doubles) where
  -- The keys that a search for an address at a time gives.
  abbrev pub found_keys :
      EncryptionManager doubles → Address → doubles.Time → Option (List ℕ) × Option (List ℕ)
  found_keys manager address time =
      let (manager', index) = find_encryption_mapping doubles manager address time in
      (get_send_key doubles manager' index, get_receive_key doubles manager' index)

  pub found_first :
      (manager : EncryptionManager doubles) (address : Address) (time : doubles.Time) (i : ℕ)
      → length manager.mappings ≡ 1024
      → i < 1024
      → IsFirst (is_live doubles manager address time) manager.num_encryption_mappings 0 i
      → found_keys manager address time
        ≡ (some (mapping doubles manager i).send_key, some (mapping doubles manager i).receive_key)
  unfolding find_encryption_mapping get_send_key get_receive_key
  found_first manager address time i size small first =
      rw
        (
          search_first (is_live doubles manager address time) manager.num_encryption_mappings 0 i
              first,
          find_encryption_mapping,
        )
        (ap (λ m. (some m.send_key, some m.receive_key))
          (put_self doubles manager i _ (omega (arith, size))))

  -- The first live entry of an address, after a change of another manager.
  pub found_again :
      (manager manager' : EncryptionManager doubles) (address : Address) (time : doubles.Time)
      (i : ℕ)
      → i < manager'.num_encryption_mappings
      → is_live doubles manager' address time i ≡ true
      → ((k : ℕ) → k < i → mapping doubles manager' k ≡ mapping doubles manager k)
      → ((k : ℕ) → k < i → is_live doubles manager address time k ≡ false)
      → IsFirst (is_live doubles manager' address time) manager'.num_encryption_mappings 0 i
  found_again manager manager' address time i l live same before =
      (omega arith, omega arith, live, λ k h h'. rw (same k h') (before k h'))

  -- What is not free is in use.
  used_before :
      (manager : EncryptionManager doubles) (time : doubles.Time) (k : ℕ)
      → IsManager doubles manager
      → is_free doubles manager time k ≡ false
      → k < manager.num_encryption_mappings
  used_before manager time k valid taken =
      elim (Bool-cases (ltb k manager.num_encryption_mappings)) [
        | inl h ↦ ground arith
        | inr h ↦
            let free : (mapping doubles manager k).address ≡ unset =
              valid.free_behind k (ground arith) in
            absurd (
              different (
                ap
                  (λ a.
                    is_unset doubles a || entry_expired doubles (mapping doubles manager k) time)
                  (sym free)
                ∙ taken))
      ]

  -- The entry that adding writes, as far as its expiry goes.
  abbrev pub added : doubles.Time → doubles.Time → ℤ → Mapping doubles
  added time expire_time timeout = record (free_mapping doubles) {
    timeout = timeout;
    expire_time = expire_time;
    last_access_time = time;
  }

  -- What a search finds after a change of entry `i` that makes it the first live one of the address.
  found_written :
      (manager : EncryptionManager doubles) (address : Address) (time : doubles.Time) (i num : ℕ)
      (m : Mapping doubles)
      → IsManager doubles manager
      → i < 1024
      → i < num
      → address_equal m.address address ≡ true
      → entry_expired doubles m time ≡ false
      → ((k : ℕ) → k < i → is_live doubles manager address time k ≡ false)
      → found_keys (record (put doubles manager i m) { num_encryption_mappings = num }) address time
        ≡ (some m.send_key, some m.receive_key)
  found_written manager address time i num m valid small l same fresh before =
      let manager' : EncryptionManager doubles = record (put doubles manager i m) {
        num_encryption_mappings = num;
      } in
      let here = put_self doubles manager i m (omega (arith, valid.size)) in
      found_first manager' address time i (length-set manager.mappings i m ∙ valid.size) small (
        found_again manager manager' address time i l (rw (here, same, fresh) refl)
          (λ k h. put_other doubles manager i k m (omega arith)) before)
      ∙ ap (λ m. (some m.send_key, some m.receive_key)) here

  -- After a successful netcode_encryption_manager_add_encryption_mapping, a search for the address
  -- at the same time gives the keys that were added, if the entry is not expired from the start.
  pub find-add :
      (manager : EncryptionManager doubles) (address : Address) (send_key receive_key : List ℕ)
      (time expire_time : doubles.Time) (timeout : ℤ)
      → IsManager doubles manager
      → IsAddress address
      → entry_expired doubles (added time expire_time timeout) time ≡ false
      → (add_encryption_mapping doubles manager address send_key receive_key time expire_time
          timeout).1
        ≡ true
      → found_keys
          (add_encryption_mapping doubles manager address send_key receive_key time expire_time
            timeout).0
          address
          time
        ≡ (some send_key, some receive_key)
  unfolding add_encryption_mapping entry_expired
  find-add manager address send_key receive_key time expire_time timeout valid v fresh =
      elim (search_cases (is_live doubles manager address time) manager.num_encryption_mappings 0) [
        | inr (i, e, (lo, hi, live, before)) ↦
            rw (e, add_encryption_mapping)
              (λ done.
                found_written manager address time i manager.num_encryption_mappings
                  (record (mapping doubles manager i) {
                    timeout = timeout;
                    expire_time = expire_time;
                    last_access_time = time;
                    send_key = send_key;
                    receive_key = receive_key;
                  })
                  valid (omega (arith, valid.used)) (omega arith) (and_parts _ _ live).0 fresh
                  (λ k h. before k (omega arith) h))
        | inl (e, none_live) ↦
            rw (e, add_encryption_mapping)
              (elim (search_cases (is_free doubles manager time) 1024 0) [
                | inl (e', h) ↦ rw e' (λ done. cc)
                | inr (i, e', (lo, hi, free, before)) ↦ rw e' (λ done.
                    found_written manager address time i _
                      (record {
                        timeout = timeout;
                        expire_time = expire_time;
                        last_access_time = time;
                        address = address;
                        send_key = send_key;
                        receive_key = receive_key;
                      })
                      valid (omega arith) (ground arith)
                      ((address_equal_iff address address v).1 refl) fresh
                      (λ k h. none_live k (omega arith) (
                        omega
                          (arith, used_before manager time k valid (before k (omega arith) h)))))
              ])
      ]
