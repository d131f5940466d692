-- ===== src/Encryption.antt =====
-- c/netcode.c, struct netcode_encryption_manager_t: the keys of each address that a server talks to.
pub mod Laws
pub mod Find
pub mod Other
use netcode_io.Base.{
  ℕ, zero, suc, ◌+◌, ◌*◌, ◌<◌, ◌≤◌, List, [], ◌∷◌, length, Bool, true, false, not, ◌&&◌, ◌||◌,
  if◌then◌else◌, ltb, ◌==◌, get_or, set, replicate, Option, none, some, ◌≡◌,
}
use netcode_io.Base.Int.{ℤ, pos, negsuc, is_positive}
use netcode_io.Base.Search.{search}
use netcode_io.Address.{Address, unset, address_equal}
use netcode_io.Time.{Doubles}

abbrev pub max_encryption_mappings : ℕ
max_encryption_mappings = 256 * 4

-- One index of the manager's six arrays.
pub record Mapping (doubles : Doubles) : Type 0 where
  pub timeout : ℤ
  pub expire_time : doubles.Time
  pub last_access_time : doubles.Time
  pub address : Address
  pub send_key : List ℕ
  pub receive_key : List ℕ

pub record EncryptionManager (doubles : Doubles) : Type 0 where
  pub num_encryption_mappings : ℕ
  pub mappings : List (Mapping doubles)

abbrev pub no_key : List ℕ
no_key = replicate 32 0

module _ (doubles : Doubles) where
  -- An index after a reset.
  abbrev pub free_mapping : Mapping doubles
  free_mapping = record {
    timeout = pos 0;
    expire_time = doubles.from_int (negsuc 0);
    last_access_time = doubles.from_int (negsuc 999);
    address = unset;
    send_key = no_key;
    receive_key = no_key;
  }

  -- The arrays have 1024 entries, and every index that the functions compute is below that.
  abbrev pub mapping : EncryptionManager doubles → ℕ → Mapping doubles
  mapping manager i = get_or manager.mappings i free_mapping

  abbrev pub put : EncryptionManager doubles → ℕ → Mapping doubles → EncryptionManager doubles
  put manager i m = record manager { mappings = set manager.mappings i m }

  -- The number of entries takes in index `i`.
  abbrev pub counting : EncryptionManager doubles → ℕ → EncryptionManager doubles
  counting manager i = record manager {
    num_encryption_mappings =
        if ltb manager.num_encryption_mappings (i + 1)
        then i + 1
        else manager.num_encryption_mappings;
  }

  unfoldable pub reset : EncryptionManager doubles
  reset = record {
    num_encryption_mappings = 0;
    mappings = replicate max_encryption_mappings free_mapping;
  }

  -- On the entry at an index that is not negative.
  unfoldable pub entry_expired : Mapping doubles → doubles.Time → Bool
  entry_expired m time =
      is_positive m.timeout
        && doubles.lt (doubles.sum m.last_access_time (doubles.from_int m.timeout)) time
      || doubles.le (doubles.from_int (pos 0)) m.expire_time && doubles.lt m.expire_time time

  -- The test that the loops of adding and finding share.
  abbrev pub is_live : EncryptionManager doubles → Address → doubles.Time → ℕ → Bool
  is_live manager address time i =
      address_equal (mapping manager i).address address
      && not (entry_expired (mapping manager i) time)

  abbrev pub is_unset : Address → Bool
  is_unset a = elim a [ unset ↦ true | _ ↦ false ]

  abbrev pub is_free : EncryptionManager doubles → doubles.Time → ℕ → Bool
  is_free manager time i =
      is_unset (mapping manager i).address || entry_expired (mapping manager i) time

  -- Both loops: the matching index is refreshed, or else the first free one is taken.
  unfoldable pub add_encryption_mapping :
      EncryptionManager doubles
      → Address
      → List ℕ
      → List ℕ
      → doubles.Time
      → doubles.Time
      → ℤ
      → EncryptionManager doubles × Bool
  add_encryption_mapping manager address send_key receive_key time expire_time timeout =
      elim (search (is_live manager address time) manager.num_encryption_mappings 0) [
        | some i ↦ (
          put manager i (record (mapping manager i) {
            timeout = timeout;
            expire_time = expire_time;
            last_access_time = time;
            send_key = send_key;
            receive_key = receive_key;
          }),
          true,
        )
        | none ↦ elim (search (is_free manager time) max_encryption_mappings 0) [
          | some i ↦ (
            counting
                (put manager i (record {
                  timeout = timeout;
                  expire_time = expire_time;
                  last_access_time = time;
                  address = address;
                  send_key = send_key;
                  receive_key = receive_key;
                }))
                i,
            true,
          )
          | none ↦ (manager, false)
        ]
      ]

  -- The `while` loop of the removal, from index `i - 1` down, and the assignment behind it.
  unfoldable pub trim : ℕ → EncryptionManager doubles → doubles.Time → EncryptionManager doubles
  trim zero manager time = record manager { num_encryption_mappings = 0 }
  trim (suc index) manager time =
      let rest =
        trim index (put manager index (record (mapping manager index) { address = unset })) time in
      if not (entry_expired (mapping manager index) time)
      then record manager { num_encryption_mappings = suc index }
      else rest

  -- The timeout of the removed entry stays.
  abbrev pub cleared : Mapping doubles → Mapping doubles
  cleared m = record free_mapping { timeout = m.timeout }

  unfoldable pub remove_encryption_mapping :
      EncryptionManager doubles → Address → doubles.Time → EncryptionManager doubles × Bool
  remove_encryption_mapping manager address time =
      elim (search (λ i. address_equal (mapping manager i).address address)
        manager.num_encryption_mappings 0) [
          | none ↦ (manager, false)
          | some i ↦
              let manager' = put manager i (cleared (mapping manager i)) in
              if i + 1 == manager.num_encryption_mappings
              then (trim i manager' time, true)
              else (manager', true)
        ]

  -- The index, or `none` for -1.
  unfoldable pub find_encryption_mapping :
      EncryptionManager doubles → Address → doubles.Time → EncryptionManager doubles × Option ℕ
  find_encryption_mapping manager address time =
      elim (search (is_live manager address time) manager.num_encryption_mappings 0) [
        | none ↦ (manager, none)
        | some i ↦ (put manager i (record (mapping manager i) { last_access_time = time }), some i)
      ]

  -- For an index in use, as the assertions say.
  unfoldable pub touch :
      EncryptionManager doubles → ℕ → Address → doubles.Time → EncryptionManager doubles × Bool
  touch manager index address time =
      if not (address_equal (mapping manager index).address address)
      then (manager, false)
      else (put manager index (record (mapping manager index) { last_access_time = time }), true)

  unfoldable pub set_expire_time :
      EncryptionManager doubles → ℕ → doubles.Time → EncryptionManager doubles
  set_expire_time manager index expire_time =
      put manager index (record (mapping manager index) { expire_time = expire_time })

  unfoldable pub get_send_key : EncryptionManager doubles → Option ℕ → Option (List ℕ)
  get_send_key manager none = none
  get_send_key manager (some index) = some (mapping manager index).send_key

  unfoldable pub get_receive_key : EncryptionManager doubles → Option ℕ → Option (List ℕ)
  get_receive_key manager none = none
  get_receive_key manager (some index) = some (mapping manager index).receive_key

  unfoldable pub get_timeout : EncryptionManager doubles → Option ℕ → ℤ
  get_timeout manager none = pos 0
  get_timeout manager (some index) = (mapping manager index).timeout

-- No entry behind those in use has an address.
pub record IsManager (doubles : Doubles) (manager : EncryptionManager doubles) : Type 0 where
  pub size : length manager.mappings ≡ max_encryption_mappings
  pub used : manager.num_encryption_mappings ≤ max_encryption_mappings
  pub free_behind :
      (i : ℕ) → manager.num_encryption_mappings ≤ i → (mapping doubles manager i).address ≡ unset
