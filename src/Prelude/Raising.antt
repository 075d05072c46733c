-- ===== src/Prelude/Raising.antt =====
-- A computation that may raise: the exception's class is a parameter.

use mathlib.Core.Path.{◌≡◌, refl}
use mathlib.Core.Logic.{◌⊎◌, ◌↔◌, inl, inr}
use mathlib.Core.List.{List, [], ◌∷◌}
use vaaet.Prelude.Lists.{All}
use vaaet.Prelude.Tests.{if◌then◌else◌}
use mathlib.Core.Bool.{Bool, true, false}

pub data Result {ℓ} (E : Type ℓ) (A : Type ℓ) : Type ℓ where
  ok : A → Result E A
  err : E → Result E A

-- An exception skips what follows.
module _ {ℓ} {E A B : Type ℓ} where
  infixl 5 ◌>>=◌ ◌>>◌
  abbrev pub ◌>>=◌ : Result E A → (A → Result E B) → Result E B
  ok value >>= next = next value
  err raised >>= next = err raised

  abbrev pub ◌>>◌ : Result E A → Result E B → Result E B
  first >> second = first >>= λ _. second

  -- A sequence that returns, taken apart.
  pub bind-eq-ok :
      (first : Result E A) (next : A → Result E B) {out : B}
      → (first >>= next) ≡ ok out
      → (value : A) × (first ≡ ok value) × (next value ≡ ok out)
  bind-eq-ok (err raised) next h = cc
  bind-eq-ok (ok value) next h = (value, refl, h)

-- `if test: raise e`
abbrev pub raise_if : {E : Type 0} → Bool → E → Result E (Unit {0})
raise_if true e = err e
raise_if false e = ok tt

abbrev pub succeeds {ℓ} : {E A : Type ℓ} → Result E A → Bool
succeeds (ok _) = true
succeeds (err _) = false

pub Result-cases {ℓ} :
    {E A : Type ℓ} (m : Result E A) → ((e : E) × (m ≡ err e)) ⊎ ((a : A) × (m ≡ ok a))
Result-cases (err e) = inl (e, refl)
Result-cases (ok a) = inr (a, refl)

-- Statements in their order: the first that raises ends the sequence.
abbrev pub in_order {ℓ} : {E A : Type ℓ} → List (Result E A) → A → Result E A
in_order [] last = ok last
in_order (m ∷ ms) last = m >> in_order ms last

pub in_order-ok :
    {E : Type 0} (ms : List (Result E (Unit {0})))
    → (in_order ms tt ≡ ok tt) ↔ All (λ m. m ≡ ok tt) ms
in_order-ok [] = ((λ _. tt), (λ _. refl))
in_order-ok (ok tt ∷ ms) = ((λ h. (refl, (in_order-ok ms).0 h)), (λ h. (in_order-ok ms).1 h.1))
in_order-ok (err e ∷ ms) = ((λ h. cc), (λ h. absurd (cc)))

pub raise_if-ok : {E : Type 0} (b : Bool) (e : E) → (raise_if b e ≡ ok tt) ↔ (b ≡ false)
raise_if-ok true e = ((λ h. cc), (λ h. cc))
raise_if-ok false e = ((λ _. refl), (λ _. refl))

-- A conditional that returns, taken apart.
pub if-eq-ok {ℓ} :
    {E A : Type ℓ} (b : Bool) (m n : Result E A) {out : A}
    → (if b then m else n) ≡ ok out
    → ((b ≡ true) × (m ≡ ok out)) ⊎ ((b ≡ false) × (n ≡ ok out))
if-eq-ok true m n h = inl (refl, h)
if-eq-ok false m n h = inr (refl, h)

pub ok-injective {ℓ} : {E A : Type ℓ} (x y : A) → ◌≡◌ {A = Result E A} (ok x) (ok y) → x ≡ y
ok-injective x y h = cc

-- A value behind a check.
pub checked-ok {ℓ} :
    {E A : Type ℓ} (check : Result E (Unit {ℓ})) (x y : A)
    → (check >> ok x) ≡ ok y
    → (check ≡ ok tt) × (x ≡ y)
checked-ok (ok tt) x y h = (refl, cc)
checked-ok (err e) x y h = cc
