-- ===== src/Time.antt =====
-- The `double` of C, in which c/netcode.c keeps times, as a parameter: the constants, the sum and the
-- comparisons that the code uses.
use netcode_io.Base.{Bool, true, false, ◌≡◌}
use netcode_io.Base.Int.{ℤ}

-- `from_int` is the conversion of an integer, and gives the constants too but for one.
pub record Doubles : Type 1 where
  pub Time : Type 0
  pub from_int : ℤ → Time
  -- 1.0 / NETCODE_PACKET_SEND_RATE.
  pub packet_interval : Time
  pub sum : Time → Time → Time
  pub lt : Time → Time → Bool
  pub le : Time → Time → Bool

-- What IEEE 754 says of `<` on all values, those that are not numbers included.
pub record IsStrict (doubles : Doubles) : Type 0 where
  pub irreflexive : (t : doubles.Time) → doubles.lt t t ≡ false
  pub transitive :
      (t u v : doubles.Time) → doubles.lt t u ≡ true → doubles.lt u v ≡ true → doubles.lt t v ≡ true
