-- ===== src/Wire/Ensures.antt =====
-- Readers whose values all have a property, whatever the bytes are.
use netcode_io.Base.{ℕ, List, Bool, true, false, if◌then◌else◌, ◌≡◌, refl, subst}
use netcode_io.Wire.{Outcome, ok, error, fault, Reader, pure, fail, ◌>>=◌}

abbrev pub Ensures : {A : Type 0} → (A → Type 0) → Reader A → Type 0
Ensures {A} P m = (bs : List ℕ) (a : A) (rest : List ℕ) → m bs ≡ ok (a, rest) → P a

pub pure-Ensures : {A : Type 0} (P : A → Type 0) (a : A) → P a → Ensures P (pure a)
pure-Ensures P a p bs a' rest e = let same : a ≡ a' = cc in subst P same p

pub fail-Ensures : {A : Type 0} (P : A → Type 0) → Ensures {A = A} P fail
fail-Ensures P bs a rest e = cc

then-Ensures :
    {A B : Type 0} (Q : A → Type 0) (P : B → Type 0) (f : A → Reader B) (o : Outcome (A × List ℕ))
    → ((a : A) (r : List ℕ) → o ≡ ok (a, r) → Q a)
    → ((a : A) → Q a → Ensures P (f a))
    → (b : B) (rest : List ℕ)
    → elim o as (λ k. Outcome (B × List ℕ)) [ ok (a, r) ↦ f a r | error ↦ error | fault ↦ fault ]
      ≡ ok (b, rest)
    → P b
then-Ensures Q P f (ok (a, r)) hq hf b rest e = hf a (hq a r refl) r b rest e
then-Ensures Q P f error hq hf b rest e = cc
then-Ensures Q P f fault hq hf b rest e = cc

-- The value of a chain is the value of its second part, on a value of the first.
pub >>=-Ensures :
    {A B : Type 0} (Q : A → Type 0) (P : B → Type 0) (m : Reader A) (f : A → Reader B)
    → Ensures Q m
    → ((a : A) → Q a → Ensures P (f a))
    → Ensures P (m >>= f)
>>=-Ensures Q P m f hm hf bs b rest e = then-Ensures Q P f (m bs) (λ a r. hm bs a r) hf b rest e

-- A test in front of a reader, whose outcome the reader may use.
pub test-Ensures :
    {A : Type 0} (P : A → Type 0) (b : Bool) (m : Reader A)
    → (b ≡ false → Ensures P m)
    → Ensures P (if b then fail else m)
test-Ensures P true m h = fail-Ensures P
test-Ensures P false m h = h refl
