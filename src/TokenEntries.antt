-- ===== src/TokenEntries.antt =====
-- c/netcode.c, struct netcode_connect_token_entry_t: the connect tokens that a server has seen, by the
-- MAC of their private part, with the address that each came from first.
pub mod Laws
pub mod Reuse
use netcode_io.Base.{
  ℕ, zero, suc, ◌+◌, ◌*◌, List, [], ◌∷◌, length, Bool, true, false, ◌&&◌, if◌then◌else◌, ◌==◌,
  get_or, set, replicate, Option, none, some,
}
use netcode_io.Base.Int.{ℤ, pos, negsuc}
use netcode_io.Sodium.{mac_bytes}
use netcode_io.Token.{equal_bytes}
use netcode_io.Address.{Address, unset, address_equal}
use netcode_io.Time.{Doubles}

abbrev pub max_connect_token_entries : ℕ
max_connect_token_entries = 256 * 8

pub record ConnectTokenEntry (doubles : Doubles) : Type 0 where
  pub time : doubles.Time
  pub mac : List ℕ
  pub address : Address

-- The three variables of the loop; `none` is the index -1.
pub record Scan (doubles : Doubles) : Type 0 where
  pub matching_token_index : Option ℕ
  pub oldest_token_index : Option ℕ
  pub oldest_token_time : doubles.Time

module _ (doubles : Doubles) where
  abbrev pub empty_token_entry : ConnectTokenEntry doubles
  empty_token_entry = record {
    time = doubles.from_int (negsuc 999);
    mac = replicate mac_bytes 0;
    address = unset;
  }

  unfoldable pub reset : List (ConnectTokenEntry doubles)
  reset = replicate max_connect_token_entries empty_token_entry

  abbrev pub start : Scan doubles
  start = record {
    matching_token_index = none;
    oldest_token_index = none;
    oldest_token_time = doubles.from_int (pos 0);
  }

  -- One round, for the entry at index `i`.
  unfoldable pub scan_entry : List ℕ → ConnectTokenEntry doubles → ℕ → Scan doubles → Scan doubles
  scan_entry mac e i s =
      let older = elim s.oldest_token_index as (λ k. Bool) [
        | none ↦ true
        | some k ↦ doubles.lt e.time s.oldest_token_time
      ] in
      record {
        matching_token_index = if equal_bytes mac e.mac then some i else s.matching_token_index;
        oldest_token_index = if older then some i else s.oldest_token_index;
        oldest_token_time = if older then e.time else s.oldest_token_time;
      }

  -- The loop, for the entries from index `i` on.
  unfoldable pub scan : List ℕ → List (ConnectTokenEntry doubles) → ℕ → Scan doubles → Scan doubles
  scan mac [] i s = s
  scan mac (e ∷ entries) i s = scan mac entries (i + 1) (scan_entry mac e i s)

  -- The entries, and whether the token may be used from the address. The assertion that there is an
  -- oldest entry holds of the 2048 entries.
  unfoldable pub find_or_add :
      List (ConnectTokenEntry doubles)
      → Address
      → List ℕ
      → doubles.Time
      → List (ConnectTokenEntry doubles) × Bool
  find_or_add entries address mac time =
      let s = scan mac entries 0 start in
      elim s.matching_token_index [
        | none ↦ (
          elim s.oldest_token_index [
            | none ↦ entries
            | some i ↦ set entries i (record { time = time; mac = mac; address = address })
          ],
          true,
        )
        | some i ↦ (
          entries,
          if address_equal (get_or entries i empty_token_entry).address address
              then true
              else false,
        )
      ]
