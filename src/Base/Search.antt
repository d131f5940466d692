-- ===== src/Base/Search.antt =====
-- C's loop over an array for the first index that passes a test.
use netcode_io.Base.{
  different, ℕ, zero, suc, ◌+◌, ◌≤◌, ◌<◌, ◌≡◌, refl, subst, sym, ◌∙◌, ◌⊎◌, inl, inr, Bool, true,
  false, Option, none, some, if◌then◌else◌, ltb, Bool-cases, arith,
}
use native.Mathlib.Decide.{ℕ_discrete}

-- `for ( ; ...; ++i ) if ( test( i ) ) return i;`, with `n` rounds to go.
unfoldable pub search : (ℕ → Bool) → ℕ → ℕ → Option ℕ
search test zero i = none
search test (suc n) i = let rest = search test n (i + 1) in if test i then some i else rest

-- No index passes, or the result is the first that does.
abbrev pub IsFirst : (ℕ → Bool) → ℕ → ℕ → ℕ → Type 0
IsFirst test n i j =
    (i ≤ j) × (j < i + n) × (test j ≡ true) × ((k : ℕ) → i ≤ k → k < j → test k ≡ false)

abbrev pub NoneIn : (ℕ → Bool) → ℕ → ℕ → Type 0
NoneIn test n i = (k : ℕ) → i ≤ k → k < i + n → test k ≡ false

below_next :
    (test : ℕ → Bool) (i k : ℕ)
    → test i ≡ false
    → i ≤ k
    → (i + 1 ≤ k → test k ≡ false)
    → test k ≡ false
below_next test i k here h later = elim (ℕ_discrete i k) [
  | yes e ↦ subst (λ m. test m ≡ false) e here
  | no differs ↦ later (omega arith)
]

pub search_cases :
    (test : ℕ → Bool) (n i : ℕ)
    → ((search test n i ≡ none) × NoneIn test n i)
      ⊎ ((j : ℕ) × (search test n i ≡ some j) × IsFirst test n i j)
unfolding search
search_cases test zero i = inl (refl, λ k h h'. absurd (omega arith))
search_cases test (suc n) i = elim (Bool-cases (test i)) [
  | inl here ↦
      inr (i, rw here refl, (omega arith, omega arith, here, λ k h h'. absurd (omega arith)))
  | inr not_here ↦ elim (search_cases test n (i + 1)) [
    | inl (e, h) ↦
        inl
          (rw (not_here, e) refl, λ k l l'. below_next test i k not_here l λ m. h k m (omega arith))
    | inr (j, e, (l, l', found, before)) ↦ inr (
      j,
      rw (not_here, e) refl,
      (
        omega arith,
        omega arith,
        found,
        λ k m m'. below_next test i k not_here m λ q. before k q m',
      ),
    )
  ]
]

pub search_first : (test : ℕ → Bool) (n i j : ℕ) → IsFirst test n i j → search test n i ≡ some j
search_first test n i j (l, l', found, before) = elim (search_cases test n i) [
  | inl (e, h) ↦ absurd (different (sym found ∙ h j l l'))
  | inr (j', e, (m, m', found', before')) ↦ elim (ℕ_discrete j j') [
    | yes same ↦ rw same e
    | no differs ↦ elim (Bool-cases (ltb j j')) [
      | inl lower ↦ absurd (different (sym found ∙ before' j l (ground arith)))
      | inr higher ↦ absurd (different (sym found' ∙ before j' m (ground arith)))
    ]
  ]
]
