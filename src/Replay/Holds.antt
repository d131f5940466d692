-- ===== src/Replay/Holds.antt =====
-- What the array of c/netcode.c's replay protection holds after a history of calls.
use netcode_io.Base.{
  ℕ, ◌+◌, ◌%◌, ◌^◌, ◌≤◌, ◌<◌, List, [], ◌∷◌, length, true, ◌==◌, ==_iff, Bool-cases, length-set,
  length-replicate, get_or-set_self, get_or-set_ne, get_or-replicate, ◌≡◌, ◌≢◌, refl, ap, ◌∙◌, sym,
  arith, ◌⊎◌, inl, inr,
}
use netcode_io.Replay.{
  ReplayProtection, replay_protection_buffer_size, empty_entry, entry, store, reset,
}
use native.Mathlib.Decide.{ℕ_discrete}
use netcode_io.Replay.History.{
  IsCounted, newest, contains, newest_grows, contains_cons, newest_ge, contains_other,
}

-- What the array holds after a history: in each entry the largest number that it took.
pub record Holds (history : List ℕ) (r : ReplayProtection) : Type 0 where
  pub recent : r.most_recent_sequence ≡ newest history
  pub size : length r.received_packet ≡ replay_protection_buffer_size
  pub entries :
      (i : ℕ)
      → i < 256
      → (entry r i ≡ empty_entry)
        ⊎ ((entry r i < 2 ^ 63)
            × (entry r i % 256 ≡ i)
            × (entry r i ≤ newest history)
            × (contains history (entry r i) ≡ true))
  pub covered :
      (s : ℕ)
      → IsCounted s
      → contains history s ≡ true
      → (s + 256 ≤ newest history) ⊎ ((entry r (s % 256) ≢ empty_entry) × (s ≤ entry r (s % 256)))

pub reset-Holds : Holds [] reset
unfolding reset newest contains
reset-Holds = record {
  recent = refl;
  size = length-replicate 256 empty_entry;
  entries = λ i h. inl (get_or-replicate 256 i empty_entry);
  covered = λ s h e. cc;
}

-- A call that leaves the array as it was.
pub keep-Holds :
    (t : ℕ) (history : List ℕ) (r r' : ReplayProtection)
    → Holds history r
    → r'.received_packet ≡ r.received_packet
    → r'.most_recent_sequence ≡ newest (t ∷ history)
    → (IsCounted t
        → (t + 256 ≤ newest (t ∷ history))
          ⊎ ((entry r (t % 256) ≢ empty_entry) × (t ≤ entry r (t % 256))))
    → Holds (t ∷ history) r'
keep-Holds t history r r' old same recent here = record {
  recent = recent;
  size = ap length same ∙ old.size;
  entries = λ i h. rw same (elim (old.entries i h) [
    | inl e ↦ inl e
    | inr (a, b, c, d) ↦
        inr (a, b, omega (arith, newest_grows t history), rw contains_cons (ground (arith, d)))
  ]);
  covered = λ s h e. rw same (elim (Bool-cases (s == t)) [
    | inl equal ↦ let e' : s ≡ t = (==_iff s t).0 equal in rw e' (here (omega (arith, e')))
    | inr other ↦ elim (old.covered s h (ground (arith, contains_cons s t history))) [
      | inl far ↦ inl (omega (arith, newest_grows t history))
      | inr near ↦ inr near
    ]
  ]);
}

pub entry-store_self :
    (t : ℕ) (r : ReplayProtection)
    → length r.received_packet ≡ replay_protection_buffer_size
    → entry (store r t) (t % 256) ≡ t
entry-store_self t r size =
    get_or-set_self r.received_packet (t % 256) t empty_entry (omega (arith, size))

pub entry-store_ne :
    (t i : ℕ) (r : ReplayProtection) → t % 256 ≢ i → entry (store r t) i ≡ entry r i
entry-store_ne t i r h = get_or-set_ne r.received_packet t empty_entry h

-- A call that stores its number over a smaller one, or in an empty entry.
pub store-Holds :
    (t : ℕ) (history : List ℕ) (r r' : ReplayProtection)
    → Holds history r
    → IsCounted t
    → r'.received_packet ≡ (store r t).received_packet
    → r'.most_recent_sequence ≡ newest (t ∷ history)
    → (entry r (t % 256) ≡ empty_entry) ⊎ (entry r (t % 256) < t)
    → Holds (t ∷ history) r'
store-Holds t history r r' old counted same recent below = record {
  recent = recent;
  size = ap length same ∙ length-set r.received_packet (t % 256) t ∙ old.size;
  entries = λ i h. rw same (elim (ℕ_discrete (t % 256) i) [
    | yes here ↦
        rw (← here, entry-store_self t r old.size)
          (inr
            (counted, refl, newest_ge t history counted, ground (arith, contains_cons t t history)))
    | no other ↦ rw (entry-store_ne t i r other) (elim (old.entries i h) [
      | inl e ↦ inl e
      | inr (a, b, c, d) ↦ inr (
        a,
        b,
        omega (arith, newest_grows t history),
        ground (arith, d, contains_cons (entry r i) t history),
      )
    ])
  ]);
  covered = λ s h e. rw same (elim (ℕ_discrete (t % 256) (s % 256)) [
    | yes here ↦
        rw (← here, entry-store_self t r old.size)
          (elim (ℕ_discrete s t) [
            | yes equal ↦ inr (omega arith, omega arith)
            | no differs ↦ elim (old.covered s h (contains_other s t history differs e)) [
              | inl far ↦ inl (omega (arith, newest_grows t history))
              | inr near ↦ inr (omega arith, ground (arith, below, near, here))
            ]
          ])
    | no other ↦ rw (entry-store_ne t (s % 256) r other) (elim (ℕ_discrete s t) [
      | yes equal ↦ absurd (other (ap (λ (n : ℕ). n % 256) (sym equal)))
      | no differs ↦ elim (old.covered s h (contains_other s t history differs e)) [
        | inl far ↦ inl (omega (arith, newest_grows t history))
        | inr near ↦ inr near
      ]
    ])
  ]);
}
