-- ===== src/Base/Bits.antt =====
-- Bitwise operators on numbers of any width, as arithmetic: masks of one field, and the union of
-- two fields that do not overlap.
use Prim.Native.Nat.{digits, max, bit_and-bitwise, bit_or-bitwise}
use netcode_io.Base.{
  ℕ, zero, suc, ◌+◌, ◌*◌, ◌/◌, ◌%◌, ◌^◌, ◌≤◌, ◌<◌, min, bit_and, bit_or, ◌≡◌, refl, ap, sym, ◌∙◌,
  arith,
}
use native.Mathlib.Nat.{pow-suc, pow-succ', div-div-eq-div-mul}

-- `digits` gives the same with any two numbers of rounds that are enough for its first number.
enough_rounds :
    (keep : ℕ → ℕ) (join : ℕ → ℕ → ℕ) (y x i j : ℕ)
    → x ≤ i
    → x ≤ j
    → digits keep join i x y ≡ digits keep join j x y
enough_rounds keep join y (suc x) (suc i) (suc j) h k =
    let halves = enough_rounds keep join (y / 2) (suc x / 2) i j (omega arith) (omega arith) in
    omega (arith, halves)
enough_rounds keep join y (suc x) (suc i) zero h k = absurd (omega arith)
enough_rounds keep join y (suc x) zero j h k = absurd (omega arith)
enough_rounds keep join y zero (suc i) (suc j) h k = refl
enough_rounds keep join y zero (suc i) zero h k = refl
enough_rounds keep join y zero zero (suc j) h k = refl
enough_rounds keep join y zero zero zero h k = refl

-- Both operators work on the lowest digits and on the rest by themselves.
zero-bit_or : (y : ℕ) → bit_or 0 y ≡ y
zero-bit_or = bit_or-bitwise 0

bit_or_step : (x y : ℕ) → bit_or x y ≡ max (x % 2) (y % 2) + 2 * bit_or (x / 2) (y / 2)
bit_or_step zero y = omega (arith, zero-bit_or (y / 2), zero-bit_or y)
bit_or_step (suc x) y =
    let upper =
      enough_rounds (λ t. t) max (y / 2) (suc x / 2) x (suc x / 2) (omega arith) (omega arith) in
    omega (arith, upper, bit_or-bitwise (suc x / 2) (y / 2), bit_or-bitwise (suc x) y)

zero-bit_and : (y : ℕ) → bit_and 0 y ≡ 0
zero-bit_and = bit_and-bitwise 0

bit_and_step : (x y : ℕ) → bit_and x y ≡ min (x % 2) (y % 2) + 2 * bit_and (x / 2) (y / 2)
bit_and_step zero y = omega (arith, zero-bit_and (y / 2), zero-bit_and y)
bit_and_step (suc x) y =
    let upper =
      enough_rounds (λ t. zero) min (y / 2) (suc x / 2) x (suc x / 2) (omega arith) (omega arith) in
    omega (arith, upper, bit_and-bitwise (suc x / 2) (y / 2), bit_and-bitwise (suc x) y)

-- The double of a shifted field is the field shifted by one more.
shift_suc : (k b : ℕ) → b * 2 ^ suc k ≡ 2 * (b * 2 ^ k)
shift_suc k b = omega (arith, ap (λ (t : ℕ). b * t) (pow-suc 2 k))

halve_shift : (k b : ℕ) → b * 2 ^ suc k / 2 ≡ b * 2 ^ k
halve_shift k b = omega (arith, shift_suc k b)

-- The union of a field below bit `k` and one that starts there is their sum.
pub bit_or_disjoint : (k a b : ℕ) → a < 2 ^ k → bit_or a (b * 2 ^ k) ≡ a + b * 2 ^ k
bit_or_disjoint zero a b h =
    let e : a ≡ 0 = omega arith in rw e (omega (arith, zero-bit_or (b * 2 ^ 0)))
bit_or_disjoint (suc k) a b h =
    let half : bit_or (a / 2) (b * 2 ^ suc k / 2) ≡ a / 2 + b * 2 ^ k =
      rw (halve_shift k b) (bit_or_disjoint k (a / 2) b (omega (arith, pow-suc 2 k))) in
    omega (arith, shift_suc k b, bit_or_step a (b * 2 ^ suc k), half)

-- Masking a field that starts at bit `k` is masking the number shifted down.
pub bit_and_shift : (k a m : ℕ) → bit_and a (m * 2 ^ k) ≡ bit_and (a / 2 ^ k) m * 2 ^ k
bit_and_shift zero a m =
    let e : m * 2 ^ 0 ≡ m = omega arith in
    let d : a / 2 ^ 0 ≡ a = omega arith in rw (e, d) (omega arith)
bit_and_shift (suc k) a m =
    let half : bit_and (a / 2) (m * 2 ^ suc k / 2) ≡ bit_and (a / 2 / 2 ^ k) m * 2 ^ k =
      rw (halve_shift k m) (bit_and_shift k (a / 2) m) in
    let d : a / 2 ^ suc k ≡ a / 2 / 2 ^ k =
      ap (λ (t : ℕ). a / t) (pow-succ' 2 k) ∙ sym (div-div-eq-div-mul a 2 (2 ^ k)) in
    rw d (
      omega (
        arith,
        shift_suc k m,
        shift_suc k (bit_and (a / 2 / 2 ^ k) m),
        bit_and_step a (m * 2 ^ suc k),
        half,
      ))

-- No bit is in common with zero; `n` bounds the number for the recursion.
zero_mask : (n x : ℕ) → x ≤ n → bit_and x 0 ≡ 0
zero_mask zero x h = let none_left : x ≡ 0 = omega arith in rw none_left (zero-bit_and 0)
zero_mask (suc n) x h = omega (arith, zero_mask n (x / 2) (omega arith), bit_and_step x 0)

-- `a & (2 ^ k - 1)`, for the masks that the code uses.
bit_and_one : (x : ℕ) → bit_and x 1 ≡ x % 2
bit_and_one x = omega (arith, zero_mask (x / 2) (x / 2) (omega arith), bit_and_step x 1)

pub bit_and_15 : (a : ℕ) → bit_and a 15 ≡ a % 16
bit_and_15 a = omega (
  arith,
  bit_and_step a 15,
  bit_and_step (a / 2) 7,
  bit_and_step (a / 2 / 2) 3,
  bit_and_one (a / 2 / 2 / 2),
)

pub bit_and_255 : (a : ℕ) → bit_and a 255 ≡ a % 256
bit_and_255 a = omega (
  arith,
  bit_and_step a 255,
  bit_and_step (a / 2) 127,
  bit_and_step (a / 2 / 2) 63,
  bit_and_step (a / 2 / 2 / 2) 31,
  bit_and_15 (a / 2 / 2 / 2 / 2),
)

-- Whether bit 63 of a 64-bit number is set.
pub bit_and_top : (a : ℕ) → a < 2 ^ 64 → bit_and a (2 ^ 63) ≡ a / 2 ^ 63 * 2 ^ 63
bit_and_top a h = omega (arith, bit_and_shift 63 a 1, bit_and_one (a / 2 ^ 63))
