-- ===== src/Replay/History.antt =====
-- The specification of c/netcode.c's replay protection: a history of the sequence numbers seen so
-- far, and the rule by which the code drops one. STANDARD.md, "Replay Protection", drops a packet only
-- when its number is older than the newest minus the buffer size; the code drops the equal one too.
use netcode_io.Base.{
  ℕ, ◌+◌, ◌^◌, ◌≤◌, ◌<◌, List, [], ◌∷◌, Bool, true, false, ◌||◌, if◌then◌else◌, ltb, leb, ◌==◌, ◌≡◌,
  ◌≢◌, refl, arith,
}
use netcode_io.Replay.{ReplayProtection, replay_protection_buffer_size, reset, already_received}

-- A sequence number of a client or server, whose bit 63 is clear. Numbers with that bit are the
-- server's global ones, which the protection passes by.
abbrev pub IsCounted : ℕ → Type 0
IsCounted s = s < 2 ^ 63

-- The state after the calls of a history, the latest first.
unfoldable pub after : List ℕ → ReplayProtection
after [] = reset
after (s ∷ history) = (already_received (after history) s).0

-- The largest counted number of a history.
unfoldable pub newest : List ℕ → ℕ
newest [] = 0
newest (s ∷ history) =
    let m = newest history in if ltb s (2 ^ 63) then (if ltb m s then s else m) else m

unfoldable pub contains : List ℕ → ℕ → Bool
contains [] s = false
contains (t ∷ history) s = s == t || contains history s

pub newest_grows : (s : ℕ) (history : List ℕ) → newest history ≤ newest (s ∷ history)
unfolding newest
newest_grows s history = ground arith

pub newest_counted :
    (s : ℕ) (history : List ℕ)
    → IsCounted s
    → newest (s ∷ history) ≡ (if ltb (newest history) s then s else newest history)
unfolding newest
newest_counted s history h = ground arith

pub contains_cons :
    (s t : ℕ) (history : List ℕ) → contains (t ∷ history) s ≡ (s == t || contains history s)
unfolding contains
contains_cons s t history = refl

pub newest_ge : (t : ℕ) (history : List ℕ) → IsCounted t → t ≤ newest (t ∷ history)
newest_ge t history h = ground (arith, newest_counted t history h)

pub contains_other :
    (s t : ℕ) (history : List ℕ)
    → s ≢ t
    → contains (t ∷ history) s ≡ true
    → contains history s ≡ true
contains_other s t history h e = ground (arith, contains_cons s t history)

-- The verdict of the specification: older than the window, or seen before.
abbrev pub is_replay : List ℕ → ℕ → Bool
is_replay history s = leb (s + replay_protection_buffer_size) (newest history) || contains history s

pub newest_high :
    (t : ℕ) (history : List ℕ) → ltb t (2 ^ 63) ≡ false → newest (t ∷ history) ≡ newest history
unfolding newest
newest_high t history h = ground arith
