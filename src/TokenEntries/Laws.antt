-- ===== src/TokenEntries/Laws.antt =====
-- c/netcode.c, netcode_connect_token_entries_find_or_add: a connect token serves one address, and a
-- new one takes the place of an oldest.
use netcode_io.Base.{
  different, ℕ, suc, ◌+◌, ◌<◌, ◌≤◌, List, [], ◌∷◌, length, true, false, get_or, set, none, some,
  Bool-cases, ◌≡◌, ◌⊎◌, inl, inr, refl, ap, sym, ◌∙◌, subst, arith,
}
use netcode_io.Token.{equal_bytes}
use netcode_io.Address.{Address}
use netcode_io.Time.{Doubles, IsStrict}
use netcode_io.TokenEntries.{
  ConnectTokenEntry, Scan, empty_token_entry, start, scan_entry, scan, find_or_add,
}
use native.Mathlib.Decide.{ℕ_discrete}

module _ (doubles : Doubles) where
  abbrev pub at : List (ConnectTokenEntry doubles) → ℕ → ConnectTokenEntry doubles
  at entries i = get_or entries i (empty_token_entry doubles)

  -- What the loop knows after the first `n` entries of a list.
  pub record Knows (mac : List ℕ) (entries : List (ConnectTokenEntry doubles)) (n : ℕ)
      (s : Scan doubles) : Type 0 where
    pub matching :
        ((s.matching_token_index ≡ none)
          × ((k : ℕ) → k < n → equal_bytes mac (at entries k).mac ≡ false))
        ⊎ ((i : ℕ) × (s.matching_token_index ≡ some i)
            × (i < n)
            × (equal_bytes mac (at entries i).mac ≡ true)
            × ((k : ℕ) → i < k → k < n → equal_bytes mac (at entries k).mac ≡ false))
    pub oldest :
        ((s.oldest_token_index ≡ none) × (n ≡ 0))
        ⊎ ((i : ℕ) × (s.oldest_token_index ≡ some i)
            × (i < n)
            × (s.oldest_token_time ≡ (at entries i).time)
            × ((k : ℕ) → k < n → doubles.lt (at entries k).time (at entries i).time ≡ false))

  start-Knows :
      (mac : List ℕ) (entries : List (ConnectTokenEntry doubles))
      → Knows mac entries 0 (start doubles)
  start-Knows mac entries = record {
    matching = inl (refl, λ k h. absurd (omega arith));
    oldest = inl (refl, refl);
  }

  up_to :
      (mac : List ℕ) (entries : List (ConnectTokenEntry doubles)) (n k : ℕ)
      → equal_bytes mac (at entries n).mac ≡ false
      → k < n + 1
      → (k < n → equal_bytes mac (at entries k).mac ≡ false)
      → equal_bytes mac (at entries k).mac ≡ false
  up_to mac entries n k e l h = elim (ℕ_discrete n k) [
    | yes same ↦ subst (λ m. equal_bytes mac (at entries m).mac ≡ false) same e
    | no differs ↦ h (omega arith)
  ]

  scan_entry-matching :
      (mac : List ℕ) (entries : List (ConnectTokenEntry doubles)) (n : ℕ) (s : Scan doubles)
      → Knows mac entries n s
      → let s' = scan_entry doubles mac (at entries n) n s in
        ((s'.matching_token_index ≡ none)
          × ((k : ℕ) → k < n + 1 → equal_bytes mac (at entries k).mac ≡ false))
        ⊎ ((i : ℕ) × (s'.matching_token_index ≡ some i)
            × (i < n + 1)
            × (equal_bytes mac (at entries i).mac ≡ true)
            × ((k : ℕ) → i < k → k < n + 1 → equal_bytes mac (at entries k).mac ≡ false))
  unfolding scan_entry
  scan_entry-matching mac entries n s known =
      elim (Bool-cases (equal_bytes mac (at entries n).mac)) [
        | inl e ↦ inr (n, rw e refl, omega arith, e, λ k h h'. absurd (omega arith))
        | inr e ↦ elim known.matching [
          | inl (none_yet, h) ↦ inl (rw e none_yet, λ k l. up_to mac entries n k e l (h k))
          | inr (i, found, l, same, h) ↦
              inr (i, rw e found, omega arith, same, λ k m m'. up_to mac entries n k e m' (h k m))
        ]
      ]

  -- The new entry against the oldest one so far.
  scan_entry-oldest :
      (mac : List ℕ) (entries : List (ConnectTokenEntry doubles)) (n : ℕ) (s : Scan doubles)
      → IsStrict doubles
      → Knows mac entries n s
      → let s' = scan_entry doubles mac (at entries n) n s in
        (i : ℕ) × (s'.oldest_token_index ≡ some i)
        × (i < n + 1)
        × (s'.oldest_token_time ≡ (at entries i).time)
        × ((k : ℕ) → k < n + 1 → doubles.lt (at entries k).time (at entries i).time ≡ false)
  unfolding scan_entry
  scan_entry-oldest mac entries n s strict known = elim known.oldest [
    | inl (none_yet, e) ↦ (
      n,
      rw none_yet refl,
      omega arith,
      rw none_yet refl,
      λ k h. let last : k ≡ n = omega arith in rw last (strict.irreflexive _),
    )
    | inr (i, found, l, time, h) ↦
        elim (Bool-cases (doubles.lt (at entries n).time (at entries i).time)) [
          | inl older ↦ (
            n,
            rw (found, time, older) refl,
            omega arith,
            rw (found, time, older) refl,
            λ k m. elim (ℕ_discrete k n) [
              | yes same ↦ rw same (strict.irreflexive _)
              | no differs ↦
                  elim (Bool-cases (doubles.lt (at entries k).time (at entries n).time)) [
                    | inr e ↦ e
                    | inl e ↦
                        absurd
                          (different (sym (strict.transitive _ _ _ e older) ∙ h k (omega arith)))
                  ]
            ],
          )
          | inr newer ↦ (
            i,
            rw (found, time, newer) refl,
            omega arith,
            rw (found, time, newer) refl,
            λ k m. elim (ℕ_discrete k n) [
              | yes same ↦ rw same newer
              | no differs ↦ h k (omega arith)
            ],
          )
        ]
  ]

  scan_entry-Knows :
      (mac : List ℕ) (entries : List (ConnectTokenEntry doubles)) (n : ℕ) (s : Scan doubles)
      → IsStrict doubles
      → Knows mac entries n s
      → Knows mac entries (n + 1) (scan_entry doubles mac (at entries n) n s)
  scan_entry-Knows mac entries n s strict known = record {
    matching = scan_entry-matching mac entries n s known;
    oldest = inr (scan_entry-oldest mac entries n s strict known);
  }

  -- The loop from entry `n` on, whose rest of the list is `rest`.
  scan-Knows :
      (mac : List ℕ) (entries rest : List (ConnectTokenEntry doubles)) (n : ℕ) (s : Scan doubles)
      → IsStrict doubles
      → ((k : ℕ) → at rest k ≡ at entries (n + k))
      → Knows mac entries n s
      → Knows mac entries (n + length rest) (scan doubles mac rest n s)
  unfolding scan
  scan-Knows mac entries [] n s strict same known =
      subst (λ m. Knows mac entries m s) (omega arith) known
  scan-Knows mac entries (e ∷ rest) n s strict same known =
      let here : e ≡ at entries n = same 0 ∙ ap (at entries) (omega arith) in
      let next : Knows mac entries (n + 1) (scan_entry doubles mac e n s) =
        rw here (scan_entry-Knows mac entries n s strict known) in
      subst
        (λ m. Knows mac entries m (scan doubles mac rest (n + 1) (scan_entry doubles mac e n s)))
        (omega arith)
        (scan-Knows mac entries rest (n + 1) _ strict
          (λ k. same (suc k) ∙ ap (at entries) (omega arith)) next)

  pub scanned :
      (mac : List ℕ) (entries : List (ConnectTokenEntry doubles))
      → IsStrict doubles
      → Knows mac entries (length entries) (scan doubles mac entries 0 (start doubles))
  scanned mac entries strict =
      subst (λ m. Knows mac entries m (scan doubles mac entries 0 (start doubles))) (omega arith)
        (scan-Knows mac entries entries 0 (start doubles) strict
          (λ k. ap (at entries) (omega arith)) (start-Knows mac entries))

  -- A MAC that is in no entry.
  abbrev pub IsNew : List (ConnectTokenEntry doubles) → List ℕ → Type 0
  IsNew entries mac = (k : ℕ) → k < length entries → equal_bytes mac (at entries k).mac ≡ false

  -- netcode_connect_token_entries_find_or_add accepts a new token, and puts it over an entry that no
  -- other is older than.
  pub find_or_add-new :
      (entries : List (ConnectTokenEntry doubles)) (address : Address) (mac : List ℕ)
      (time : doubles.Time)
      → IsStrict doubles
      → 1 ≤ length entries
      → IsNew entries mac
      → (i : ℕ) × (i < length entries)
        × ((k : ℕ)
            → k < length entries
            → doubles.lt (at entries k).time (at entries i).time ≡ false)
        × (find_or_add doubles entries address mac time
            ≡ (set entries i (record { time = time; mac = mac; address = address }), true))
  unfolding find_or_add
  find_or_add-new entries address mac time strict some_entry new =
      let known = scanned mac entries strict in
      elim known.matching [
        | inr (i, e, l, same, h) ↦ absurd (different (sym same ∙ new i l))
        | inl (no_match, h) ↦ elim known.oldest [
          | inl (e, empty) ↦ absurd (omega arith)
          | inr (i, oldest, l, time_is, least) ↦
              (i, l, least, rw (no_match, oldest, find_or_add) refl)
        ]
      ]
