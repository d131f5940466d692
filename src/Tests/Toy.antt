-- ===== src/Tests/Toy.antt =====
-- A stand-in for libsodium, whose cipher text is the message and a MAC of sixteen zeros, and one for
-- the times, which are natural numbers with 1000 in the place of zero.
use netcode_io.Base.{
  ℕ, ◌+◌, ◌-◌, List, ◌++◌, length, take, drop, replicate, false, if◌then◌else◌, ltb, leb,
  Bool-cases, Option, none, some, some_injective, length-append, take-append_le, take_all,
  drop-append_eq, length-take_of_le, ◌≡◌, refl, ap, ◌∙◌, arith, inl, inr,
}
use netcode_io.Base.Int.{ℤ, pos, negsuc}
use netcode_io.Sodium.{Sodium, IsAead}
use netcode_io.Token.{equal_bytes}
use netcode_io.Time.{Doubles, IsStrict}

abbrev pub zero_mac : List ℕ
zero_mac = replicate 16 0

abbrev pub open_toy : List ℕ → Option (List ℕ)
open_toy cipher =
    if ltb (length cipher) 16
    then none
    else if equal_bytes (drop (length cipher - 16) cipher) zero_mac
    then some (take (length cipher - 16) cipher)
    else none

abbrev pub toy : Sodium
toy = record {
  encrypt = λ message additional nonce key. some (message ++ zero_mac);
  decrypt = λ cipher additional nonce key. open_toy cipher;
}

toy-opens : (message : List ℕ) → open_toy (message ++ zero_mac) ≡ some message
toy-opens message =
    let l : length (message ++ zero_mac) ≡ length message + 16 = length-append message zero_mac in
    let long : ltb (length (message ++ zero_mac)) 16 ≡ false = ground arith in
    let n : length (message ++ zero_mac) - 16 ≡ length message = omega arith in
    let back : drop (length message) (message ++ zero_mac) ≡ zero_mac =
      drop-append_eq (length message) message zero_mac refl in
    let front : take (length message) (message ++ zero_mac) ≡ message =
      take-append_le (length message) message zero_mac (omega arith)
      ∙ take_all (length message) message (omega arith) in
    rw (long, n, back, front) refl

toy-shrinks :
    (message cipher : List ℕ) → open_toy cipher ≡ some message → length cipher ≡ length message + 16
toy-shrinks message cipher = elim (Bool-cases (ltb (length cipher) 16)) [
  | inl short ↦ rw short (λ e. cc)
  | inr long ↦ elim (Bool-cases (equal_bytes (drop (length cipher - 16) cipher) zero_mac)) [
    | inr bad ↦ rw (long, bad) (λ e. cc)
    | inl good ↦
        rw (long, good)
          (λ e.
            let l : length (take (length cipher - 16) cipher) ≡ length cipher - 16 =
              length-take_of_le (length cipher - 16) cipher (omega arith) in
            let s : message ≡ take (length cipher - 16) cipher = some_injective e in
            ground (arith, ap (λ m. length m) s))
  ]
]

pub toy-IsAead : IsAead toy
toy-IsAead = record {
  opens = λ message additional nonce key cipher e. rw (some_injective e) (toy-opens message);
  grows = λ message additional nonce key cipher e.
      rw (some_injective e) (length-append message zero_mac);
  shrinks = λ message additional nonce key cipher e. toy-shrinks message cipher e;
}

abbrev pub toy_int : ℤ → ℕ
toy_int (pos n) = 1000 + n
toy_int (negsuc n) = 999 - n

abbrev pub toy_doubles : Doubles
toy_doubles = record {
  Time = ℕ;
  packet_interval = 1001;
  from_int = toy_int;
  sum = λ t u. t + u - 1000;
  lt = ltb;
  le = leb;
}

pub toy-IsStrict : IsStrict toy_doubles
toy-IsStrict = record { irreflexive = λ t. ground arith; transitive = λ t u v h k. ground arith }
