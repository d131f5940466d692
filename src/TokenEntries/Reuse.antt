-- ===== src/TokenEntries/Reuse.antt =====
-- c/netcode.c, netcode_connect_token_entries_find_or_add: the second use of a connect token.
use netcode_io.Base.{
  different, ℕ, ◌<◌, ◌≤◌, List, [], ◌∷◌, length, Bool, true, false, if◌then◌else◌, ==_iff, set,
  get_or-set_self, get_or-set_ne, length-set, ◌≡◌, ◌≢◌, inl, inr, refl, ap, sym, ◌∙◌, arith,
}
use netcode_io.Token.{equal_bytes}
use netcode_io.Address.{Address, address_equal}
use netcode_io.Time.{Doubles, IsStrict}
use netcode_io.TokenEntries.{ConnectTokenEntry, find_or_add}
use netcode_io.TokenEntries.Laws.{at, scanned, IsNew, find_or_add-new}
use native.Mathlib.Decide.{ℕ_discrete}

equal_bytes_self : (bs : List ℕ) → equal_bytes bs bs ≡ true
equal_bytes_self [] = refl
equal_bytes_self (b ∷ bs) = rw ((==_iff b b).1 refl, equal_bytes_self bs) refl

either_way : (b : Bool) → (if b then true else false) ≡ b
either_way true = refl
either_way false = refl

module _ (doubles : Doubles) where
  -- A token that exactly one entry holds.
  abbrev pub IsSeen : List (ConnectTokenEntry doubles) → List ℕ → ℕ → Type 0
  IsSeen entries mac i =
      (i < length entries)
      × (equal_bytes mac (at doubles entries i).mac ≡ true)
      × ((k : ℕ) → k < length entries → k ≢ i → equal_bytes mac (at doubles entries k).mac ≡ false)

  -- netcode_connect_token_entries_find_or_add, on a token that one entry holds, changes no entry and
  -- accepts exactly the address of that entry.
  pub find_or_add-seen :
      (entries : List (ConnectTokenEntry doubles)) (address : Address) (mac : List ℕ)
      (time : doubles.Time) (i : ℕ)
      → IsStrict doubles
      → IsSeen entries mac i
      → find_or_add doubles entries address mac time
        ≡ (entries, address_equal (at doubles entries i).address address)
  unfolding find_or_add
  find_or_add-seen entries address mac time i strict (l, same, others) =
      elim (scanned doubles mac entries strict).matching [
        | inl (no_match, h) ↦ absurd (different (sym same ∙ h i l))
        | inr (j, e, m, found, h) ↦ elim (ℕ_discrete j i) [
          | no differs ↦ absurd (different (sym found ∙ others j m differs))
          | yes is ↦ rw (e, is, find_or_add) (ap (λ b. (entries, b)) (either_way _))
        ]
      ]

  -- A new token that is used from one address, and then again: the second use changes no entry, and
  -- is accepted exactly if its address equals the first.
  pub find_or_add_twice :
      (entries : List (ConnectTokenEntry doubles)) (first second : Address) (mac : List ℕ)
      (time later : doubles.Time)
      → IsStrict doubles
      → 1 ≤ length entries
      → IsNew doubles entries mac
      → let entries' = (find_or_add doubles entries first mac time).0 in
        find_or_add doubles entries' second mac later ≡ (entries', address_equal first second)
  find_or_add_twice entries first second mac time later strict some_entry new =
      let (i, l, least, e) = find_or_add-new doubles entries first mac time strict some_entry new in
      let m : ConnectTokenEntry doubles = record { time = time; mac = mac; address = first } in
      let here : at doubles (set entries i m) i ≡ m = get_or-set_self entries i m _ l in
      let size : length (set entries i m) ≡ length entries = length-set entries i m in
      rw e (
        find_or_add-seen (set entries i m) second mac later i strict (
          omega arith,
          rw here (equal_bytes_self mac),
          λ k h apart.
              ap (λ x. equal_bytes mac x.mac) (get_or-set_ne entries m _ (λ s. apart (sym s)))
              ∙ new k (omega arith),
        )
        ∙ ap (λ x. (set entries i m, address_equal x.address second)) here)
