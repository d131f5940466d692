-- ===== src/Encryption/Laws.antt =====
-- c/netcode.c, the encryption manager: its well-formedness, and that an added mapping is found again
-- and leaves the others alone.
use netcode_io.Base.{
  ℕ, zero, suc, ◌+◌, ◌<◌, ◌≤◌, List, length, ◌==◌, Bool-cases, length-set, length-replicate,
  get_or-set_self, get_or-set_ne, get_or-replicate, ◌≡◌, ◌≢◌, ◌⊎◌, inl, inr, refl, ap, ◌∙◌, arith,
}
use netcode_io.Base.Int.{ℤ}
use netcode_io.Base.Search.{search_cases}
use netcode_io.Address.{Address, unset, address_equal}
use netcode_io.Time.{Doubles}
use netcode_io.Encryption.{
  Mapping, EncryptionManager, IsManager, free_mapping, mapping, put, counting, reset, entry_expired,
  is_live, is_free, add_encryption_mapping, trim, cleared, remove_encryption_mapping,
}
use native.Mathlib.Decide.{ℕ_discrete}

module _ (doubles : Doubles) where
  pub put_self :
      (manager : EncryptionManager doubles) (i : ℕ) (m : Mapping doubles)
      → i < length manager.mappings
      → mapping doubles (put doubles manager i m) i ≡ m
  put_self manager i m h = get_or-set_self manager.mappings i m _ h

  pub put_other :
      (manager : EncryptionManager doubles) (i j : ℕ) (m : Mapping doubles)
      → i ≢ j
      → mapping doubles (put doubles manager i m) j ≡ mapping doubles manager j
  put_other manager i j m h = get_or-set_ne manager.mappings m _ h

  -- A change of an entry in use, or one that unsets it, keeps the manager well-formed.
  put-IsManager :
      (manager : EncryptionManager doubles) (i : ℕ) (m : Mapping doubles)
      → IsManager doubles manager
      → i < 1024
      → (i < manager.num_encryption_mappings) ⊎ (m.address ≡ unset)
      → IsManager doubles (put doubles manager i m)
  put-IsManager manager i m valid small h = record {
    size = length-set manager.mappings i m ∙ valid.size;
    used = valid.used;
    free_behind = λ j l. elim (ℕ_discrete i j) [
      | yes here ↦ elim h [
        | inl inside ↦ absurd (omega arith)
        | inr free ↦
            rw (← here)
              (ap (λ x. x.address) (put_self manager i m (omega (arith, valid.size))) ∙ free)
      ]
      | no other ↦ ap (λ x. x.address) (put_other manager i j m other) ∙ valid.free_behind j l
    ];
  }

  pub reset-IsManager : IsManager doubles (reset doubles)
  unfolding reset
  reset-IsManager = record {
    size = length-replicate 1024 (free_mapping doubles);
    used = omega arith;
    free_behind = λ i h. ap (λ m. m.address) (get_or-replicate 1024 i (free_mapping doubles));
  }

  -- The entry behind the last one in use may be taken too.
  counting-IsManager :
      (manager : EncryptionManager doubles) (i : ℕ) (m : Mapping doubles)
      → IsManager doubles manager
      → i < 1024
      → IsManager doubles (counting doubles (put doubles manager i m) i)
  counting-IsManager manager i m valid small = record {
    size = length-set manager.mappings i m ∙ valid.size;
    used = ground (arith, valid.used);
    free_behind = λ j l.
        let beyond : (manager.num_encryption_mappings ≤ j) × (i ≢ j) = ground arith in
        ap (λ x. x.address) (put_other manager i j m beyond.1) ∙ valid.free_behind j beyond.0;
  }

  -- netcode_encryption_manager_add_encryption_mapping keeps the manager well-formed.
  pub add-IsManager :
      (manager : EncryptionManager doubles) (address : Address) (send_key receive_key : List ℕ)
      (time expire_time : doubles.Time) (timeout : ℤ)
      → IsManager doubles manager
      → IsManager doubles
          (add_encryption_mapping doubles manager address send_key receive_key time expire_time
            timeout).0
  unfolding add_encryption_mapping
  add-IsManager manager address send_key receive_key time expire_time timeout valid =
      elim (search_cases (is_live doubles manager address time) manager.num_encryption_mappings 0) [
        | inr (i, e, first) ↦
            rw (e, add_encryption_mapping)
              (put-IsManager manager i _ valid (omega (arith, valid.used, first.1))
                (inl (omega (arith, first.1))))
        | inl (e, none_live) ↦
            rw (e, add_encryption_mapping)
              (elim (search_cases (is_free doubles manager time) 1024 0) [
                | inl (e', h) ↦ rw e' valid
                | inr (i, e', first) ↦
                    rw e' (counting-IsManager manager i _ valid (omega (arith, first.1)))
              ])
      ]

  trim-IsManager :
      (n : ℕ) (manager : EncryptionManager doubles) (time : doubles.Time)
      → length manager.mappings ≡ 1024
      → n ≤ 1024
      → ((i : ℕ) → n ≤ i → (mapping doubles manager i).address ≡ unset)
      → IsManager doubles (trim doubles n manager time)
  unfolding trim
  trim-IsManager zero manager time size used free = record {
    size = size;
    used = omega arith;
    free_behind = free;
  }
  trim-IsManager (suc n) manager time size used free =
      elim (Bool-cases (entry_expired doubles (mapping doubles manager n) time)) [
        | inr live ↦ rw live (record { size = size; used = used; free_behind = free })
        | inl expired ↦ rw expired (
            trim-IsManager n
              (put doubles manager n (record (mapping doubles manager n) { address = unset })) time
              (length-set manager.mappings n _ ∙ size) (omega arith)
              λ i h. elim (ℕ_discrete n i) [
                | yes here ↦
                    rw (← here) (ap (λ x. x.address) (put_self manager n _ (omega (arith, size))))
                | no other ↦
                    ap (λ x. x.address) (put_other manager n i _ other) ∙ free i (omega arith)
              ])
      ]

  -- netcode_encryption_manager_remove_encryption_mapping keeps the manager well-formed.
  pub remove-IsManager :
      (manager : EncryptionManager doubles) (address : Address) (time : doubles.Time)
      → IsManager doubles manager
      → IsManager doubles (remove_encryption_mapping doubles manager address time).0
  unfolding remove_encryption_mapping
  remove-IsManager manager address time valid =
      elim (search_cases (λ i. address_equal (mapping doubles manager i).address address)
        manager.num_encryption_mappings 0) [
          | inl (e, h) ↦ rw (e, remove_encryption_mapping) valid
          | inr (i, e, first) ↦
              let small : i < 1024 = omega (arith, valid.used, first.1) in
              let kept =
                put-IsManager manager i (cleared doubles (mapping doubles manager i)) valid small
                  (inr refl) in
              rw (e, remove_encryption_mapping)
                (elim (Bool-cases (i + 1 == manager.num_encryption_mappings)) [
                  | inr inner ↦ rw inner kept
                  | inl outer ↦ rw outer (
                      trim-IsManager i _ time kept.size (omega arith) λ j l. elim (ℕ_discrete i j) [
                        | yes here ↦
                            rw (← here) (
                              ap (λ x. x.address)
                                (put_self manager i _ (omega (arith, valid.size))))
                        | no other ↦ kept.free_behind j (ground arith)
                      ])
                ])
        ]
