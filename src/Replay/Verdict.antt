-- ===== src/Replay/Verdict.antt =====
-- c/netcode.c, netcode_replay_protection_packet_already_received against its specification.
use netcode_io.Base.{
  ℕ, ◌+◌, ◌%◌, ◌^◌, ◌≤◌, ◌<◌, bit_and, List, [], ◌∷◌, All, Bool, true, false, not, ltb, leb, ◌==◌,
  ==_iff, ltb→lt, Bool-cases, get_or, set, ◌≡◌, ◌≢◌, refl, ap, ◌∙◌, sym, arith, ◌⊎◌, inl, inr,
}
use netcode_io.Base.Bits.{bit_and_top}
use netcode_io.Replay.{
  ReplayProtection, empty_entry, entry, store, advance, check_entry, already_received,
}
use netcode_io.Replay.History.{
  IsCounted, after, newest, contains, newest_counted, newest_high, is_replay,
}
use netcode_io.Replay.Holds.{Holds, reset-Holds, keep-Holds, store-Holds}

top_clear : (s : ℕ) → IsCounted s → not (bit_and s (2 ^ 63) == 0) ≡ false
top_clear s h = ground (arith, bit_and_top s (omega arith))

top_set : (s : ℕ) → s < 2 ^ 64 → ltb s (2 ^ 63) ≡ false → not (bit_and s (2 ^ 63) == 0) ≡ true
top_set s h k = ground (arith, bit_and_top s h)

-- What a call does: the invariant goes on, and a counted number gets the verdict.
abbrev pub Behaves : ℕ → List ℕ → ReplayProtection × Bool → Type 0
Behaves t history (r', verdict) =
    Holds (t ∷ history) r' × (IsCounted t → verdict ≡ is_replay history t)

-- A number inside the window: the update of the most recent sequence does not touch the array.
advance_recent :
    (t : ℕ) (history : List ℕ) (r : ReplayProtection)
    → IsCounted t
    → r.most_recent_sequence ≡ newest history
    → ((advance r t).most_recent_sequence ≡ newest (t ∷ history))
      × ((advance r t).received_packet ≡ r.received_packet)
advance_recent t history r counted recent = ground (arith, newest_counted t history counted)

-- An entry that is free or holds a smaller number shows that the number was not seen.
not_seen :
    (t : ℕ) (history : List ℕ) (r : ReplayProtection)
    → Holds history r
    → IsCounted t
    → newest history < t + 256
    → (entry r (t % 256) ≡ empty_entry) ⊎ (entry r (t % 256) < t)
    → contains history t ≡ false
not_seen t history r old counted inside below = elim (Bool-cases (contains history t)) [
  | inr e ↦ e
  | inl e ↦ elim (old.covered t counted e) [
    | inl far ↦ absurd (omega arith)
    | inr near ↦ absurd (omega (arith, below, near))
  ]
]

-- Inside the window, an entry that is not smaller holds the number itself.
seen :
    (t : ℕ) (history : List ℕ) (r : ReplayProtection)
    → Holds history r
    → newest history < t + 256
    → entry r (t % 256) ≢ empty_entry
    → t ≤ entry r (t % 256)
    → contains history t ≡ true
seen t history r old inside taken again = elim (old.entries (t % 256) (omega arith)) [
  | inl free ↦ absurd (taken free)
  | inr (a, b, c, d) ↦ let e : entry r (t % 256) ≡ t = omega arith in rw e at d
]

check_entry-Behaves :
    (t : ℕ) (history : List ℕ) (r : ReplayProtection)
    → Holds history r
    → IsCounted t
    → newest history < t + 256
    → Behaves t history (check_entry (advance r t) t)
unfolding check_entry
check_entry-Behaves t history r old counted inside =
    let (recent, same) = advance_recent t history r counted old.recent in
    let window : leb (t + 256) (newest history) ≡ false = ground arith in
    let same_entry : entry (advance r t) (t % 256) ≡ entry r (t % 256) =
      ap (λ xs. get_or xs (t % 256) empty_entry) same in
    let stored : (store (advance r t) t).received_packet ≡ (store r t).received_packet =
      ap (λ xs. set xs (t % 256) t) same in
    let fresh = not_seen t history r old counted inside in
    let kept = store-Holds t history r (store (advance r t) t) old counted stored recent in
    elim (Bool-cases (entry (advance r t) (t % 256) == empty_entry)) [
      | inl free ↦
          let below = inl (sym same_entry ∙ (==_iff _ _).0 free) in
          rw free (kept below, λ _. rw (window, fresh below))
      | inr taken ↦ rw taken (elim (Bool-cases (leb t (entry (advance r t) (t % 256)))) [
        | inl again ↦
            let at : (entry r (t % 256) ≢ empty_entry) × (t ≤ entry r (t % 256)) =
              ground (arith, same_entry) in
            rw again (
              keep-Holds t history r (advance r t) old same recent (λ _. inr at),
              λ _. rw (window, seen t history r old inside at.0 at.1),
            )
        | inr newer ↦
            let below = inr (ground (arith, same_entry)) in
            rw newer (kept below, λ _. rw (window, fresh below))
      ])
    ]

already_received-counted :
    (t : ℕ) (history : List ℕ) (r : ReplayProtection)
    → Holds history r
    → IsCounted t
    → Behaves t history (already_received r t)
unfolding already_received
already_received-counted t history r old small =
    let sum : (t + 256) % 2 ^ 64 ≡ t + 256 = omega arith in
    rw (top_clear t small, sum)
      (elim (Bool-cases (leb (t + 256) r.most_recent_sequence)) [
        | inl far ↦
            let far' : leb (t + 256) (newest history) ≡ true = ground (arith, old.recent) in
            let recent : r.most_recent_sequence ≡ newest (t ∷ history) =
              ground (arith, old.recent, newest_counted t history small) in
            rw far (
              keep-Holds t history r r old refl recent
                  (λ _. inl (ground (arith, newest_counted t history small))),
              λ _. rw far',
            )
        | inr near ↦
            rw near (check_entry-Behaves t history r old small (ground (arith, old.recent)))
      ])

-- One call, from any state that holds a history.
pub already_received-Behaves :
    (t : ℕ) (history : List ℕ) (r : ReplayProtection)
    → Holds history r
    → t < 2 ^ 64
    → Behaves t history (already_received r t)
already_received-Behaves t history r old h = elim (Bool-cases (ltb t (2 ^ 63))) [
  | inl counted ↦ already_received-counted t history r old (ltb→lt _ _ counted)
  | inr high ↦
      unfold already_received in
      rw (top_set t h high) (
        keep-Holds t history r r old refl (old.recent ∙ sym (newest_high t history high))
            (λ small. absurd (ground arith)),
        λ small. absurd (ground arith),
      )
]

pub after-Holds : (history : List ℕ) → All (λ s. s < 2 ^ 64) history → Holds history (after history)
unfolding after
after-Holds [] h = reset-Holds
after-Holds (t ∷ history) (ht, h) =
    (already_received-Behaves t history (after history) (after-Holds history h) ht).0

-- After any sequence of calls on 64-bit sequence numbers from a reset, a number with bit 63 clear
-- counts as received already exactly if it is 256 or more behind the newest such number, or was
-- among the numbers of earlier calls.
pub already_received_lem :
    (history : List ℕ) (s : ℕ)
    → All (λ t. t < 2 ^ 64) history
    → IsCounted s
    → (already_received (after history) s).1 ≡ is_replay history s
already_received_lem history s h counted =
    (already_received-Behaves s history (after history) (after-Holds history h) (omega arith)).1
      counted
