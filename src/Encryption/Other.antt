-- ===== src/Encryption/Other.antt =====
-- c/netcode.c, the encryption manager: adding a mapping leaves those of other addresses alone.
use netcode_io.Base.{
  ℕ, ◌<◌, ◌≤◌, List, Bool, true, false, not, ◌||◌, some, length-set, ◌≡◌, ◌≢◌, inl, inr, refl, ap,
  sym, ◌∙◌, subst, arith,
}
use netcode_io.Base.Int.{ℤ}
use netcode_io.Base.Search.{search_cases, IsFirst}
use netcode_io.Address.{Address, unset, ipv4, ipv6, IsAddress, address_equal}
use netcode_io.Time.{Doubles}
use netcode_io.Encryption.{
  Mapping, EncryptionManager, IsManager, mapping, put, is_live, is_unset, is_free,
  add_encryption_mapping, find_encryption_mapping,
}
use netcode_io.Encryption.Laws.{put_self, put_other}
use native.Mathlib.Decide.{ℕ_discrete}
use netcode_io.Encryption.Find.{equal_right, unequal, and_parts, found_keys, found_first}

neither : (a b : Bool) → a ≡ false → not b ≡ true → (a || b) ≡ true → ⊥
neither true b h k e = cc
neither false true h k e = cc
neither false false h k e = cc

taken_address : (doubles : Doubles) (a : Address) → IsAddress a → is_unset doubles a ≡ false
taken_address doubles unset v = absurd v
taken_address doubles (ipv4 a b c d p) v = refl
taken_address doubles (ipv6 a b c d e f g h p) v = refl

module _ (doubles : Doubles) where
  -- The first live entry of an address, after a change of another entry to another address.
  kept_first :
      (manager : EncryptionManager doubles) (other : Address) (time : doubles.Time) (i j num : ℕ)
      (m : Mapping doubles)
      → IsManager doubles manager
      → i < 1024
      → i ≢ j
      → manager.num_encryption_mappings ≤ num
      → address_equal m.address other ≡ false
      → IsFirst (is_live doubles manager other time) manager.num_encryption_mappings 0 j
      → found_keys doubles
          (record (put doubles manager i m) { num_encryption_mappings = num })
          other
          time
        ≡ (some (mapping doubles manager j).send_key, some (mapping doubles manager j).receive_key)
  kept_first manager other time i j num m valid small apart more differs (lo, hi, live, before) =
      let manager' : EncryptionManager doubles = record (put doubles manager i m) {
        num_encryption_mappings = num;
      } in
      let here = put_self doubles manager i m (omega (arith, valid.size)) in
      let there = put_other doubles manager i j m apart in
      found_first doubles manager' other time j (length-set manager.mappings i m ∙ valid.size)
        (omega (arith, valid.used))
        (
          omega arith,
          omega arith,
          rw there live,
          λ k h h'. elim (ℕ_discrete i k) [
            | yes same ↦ rw (← same, here, differs) refl
            | no distinct ↦ rw (put_other doubles manager i k m distinct) (before k h h')
          ],
        )
      ∙ ap (λ m. (some m.send_key, some m.receive_key)) there

  -- A live entry is not free.
  live_taken :
      (manager : EncryptionManager doubles) (other : Address) (time : doubles.Time) (j : ℕ)
      → IsAddress other
      → is_live doubles manager other time j ≡ true
      → is_free doubles manager time j ≡ true
      → ⊥
  live_taken manager other time j v live free =
      let (equal, fresh) = and_parts _ _ live in
      let same : (mapping doubles manager j).address ≡ other = equal_right _ other v equal in
      neither _ _ (ap (is_unset doubles) same ∙ taken_address doubles other v) fresh free

  add_other :
      (manager : EncryptionManager doubles) (address other : Address)
      (send_key receive_key : List ℕ) (time expire_time : doubles.Time) (timeout : ℤ) (j : ℕ)
      → IsManager doubles manager
      → IsAddress address
      → IsAddress other
      → address ≢ other
      → IsFirst (is_live doubles manager other time) manager.num_encryption_mappings 0 j
      → found_keys doubles
          (add_encryption_mapping doubles manager address send_key receive_key time expire_time
            timeout).0
          other
          time
        ≡ (some (mapping doubles manager j).send_key, some (mapping doubles manager j).receive_key)
  unfolding add_encryption_mapping
  add_other manager address other send_key receive_key time expire_time timeout j valid v w apart
        first =
      elim (search_cases (is_live doubles manager address time) manager.num_encryption_mappings 0) [
        | inr (i, e, (lo, hi, live, before)) ↦
            let mine : (mapping doubles manager i).address ≡ address =
              equal_right _ address v (and_parts _ _ live).0 in
            let theirs : (mapping doubles manager j).address ≡ other =
              equal_right _ other w (and_parts _ _ first.2).0 in
            rw (e, add_encryption_mapping)
              (kept_first manager other time i j manager.num_encryption_mappings _ valid
                (omega (arith, valid.used))
                (λ same.
                  apart (sym mine ∙ ap (λ k. (mapping doubles manager k).address) same ∙ theirs))
                (omega arith) (ap (λ a. address_equal a other) mine ∙ unequal address other w apart)
                first)
        | inl (e, none_live) ↦
            rw (e, add_encryption_mapping)
              (elim (search_cases (is_free doubles manager time) 1024 0) [
                | inl (e', h) ↦ rw e' (
                    found_first doubles manager other time j valid.size
                      (omega (arith, valid.used, first.1)) first)
                | inr (i, e', (lo, hi, free, before)) ↦ rw e' (
                    kept_first manager other time i j _ _ valid (omega arith)
                      (λ same.
                        live_taken manager other time j w first.2
                          (subst (λ k. is_free doubles manager time k ≡ true) same free))
                      (ground arith) (unequal address other w apart) first)
              ])
      ]

  -- netcode_encryption_manager_add_encryption_mapping, on whatever it finds, does not change which
  -- keys a search at the same time gives for another address that has an entry.
  pub find-add_other :
      (manager : EncryptionManager doubles) (address other : Address)
      (send_key receive_key : List ℕ) (time expire_time : doubles.Time) (timeout : ℤ) (j : ℕ)
      → IsManager doubles manager
      → IsAddress address
      → IsAddress other
      → address ≢ other
      → (find_encryption_mapping doubles manager other time).1 ≡ some j
      → found_keys doubles
          (add_encryption_mapping doubles manager address send_key receive_key time expire_time
            timeout).0
          other
          time
        ≡ found_keys doubles manager other time
  unfolding add_encryption_mapping find_encryption_mapping
  find-add_other manager address other send_key receive_key time expire_time timeout j valid v w
        apart =
      elim (search_cases (is_live doubles manager other time) manager.num_encryption_mappings 0) [
        | inl (e, h) ↦ rw (e, find_encryption_mapping) (λ found. cc)
        | inr (j', e, first) ↦ λ found.
            add_other manager address other send_key receive_key time expire_time timeout j' valid v
              w apart first
            ∙ sym (
                found_first doubles manager other time j' valid.size
                  (omega (arith, valid.used, first.1)) first)
      ]
