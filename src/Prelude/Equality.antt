-- ===== src/Prelude/Equality.antt =====
-- Keys: types whose values the program compares. A test of a type is an instance, and there is one
-- operator for all of them.
use Prim.Native.Nat.{ℕ}
use Prim.Native.String.{String}
use mathlib.Core.Path.{◌≡◌, refl, ap}
use mathlib.Core.Logic.{◌↔◌, ◌≢◌, inl, inr}
use mathlib.Core.Bool.{Bool, true, false, ◌||◌}
use mathlib.Core.Option.{Option, none, some}
use mathlib.Core.List.{List, [], ◌∷◌}
use text.Mathlib.Text.{◌==◌ as text_test}
use text.Mathlib.TextEquality.{eq_iff}
use vaaet.Prelude.Tests.{eqb, eqb_iff, Bool-cases}

pub record Key {ℓ} (K : Type ℓ) : Type ℓ where
  pub test : K → K → Bool
  pub test_iff : (j k : K) → (test j k ≡ true) ↔ (j ≡ k)

instance abbrev pub string_key : Key String
string_key = record { test = text_test; test_iff = eq_iff }

instance abbrev pub nat_key : Key ℕ
nat_key = record { test = eqb; test_iff = eqb_iff }

module _ {ℓ} {K : Type ℓ} ⦃key : Key K⦄ where
  infix 50 ◌==◌
  abbrev pub ◌==◌ : K → K → Bool
  j == k = key.test j k

  -- `k in ks`
  abbrev pub contains : K → List K → Bool
  contains k [] = false
  contains k (j ∷ js) = k == j || contains k js

  -- `None` equals only itself.
  abbrev pub option_eq : Option K → Option K → Bool
  option_eq none none = true
  option_eq (some j) (some k) = j == k
  option_eq _ _ = false

  pub option_eq_iff : (x y : Option K) → (option_eq x y ≡ true) ↔ (x ≡ y)
  option_eq_iff none none = ((λ _. refl), (λ _. refl))
  option_eq_iff none (some k) = ((λ h. cc), (λ h. cc))
  option_eq_iff (some j) none = ((λ h. cc), (λ h. cc))
  option_eq_iff (some j) (some k) =
      ((λ h. ap some ((key.test_iff j k).0 h)), (λ h. (key.test_iff j k).1 (cc)))

  pub option_eq-false : (x y : Option K) → x ≢ y → option_eq x y ≡ false
  option_eq-false x y h = elim (Bool-cases (option_eq x y)) [
    | inl same ↦ absurd (h ((option_eq_iff x y).0 same))
    | inr other ↦ other
  ]

  pub beq-false : (j k : K) → j ≢ k → (j == k) ≡ false
  beq-false j k h = elim (Bool-cases (j == k)) [
    | inl same ↦ absurd (h ((key.test_iff j k).0 same))
    | inr other ↦ other
  ]

  pub beq_refl : (k : K) → (k == k) ≡ true
  beq_refl k = (key.test_iff k k).1 refl

  pub ne_of_beq : (j k : K) → (j == k) ≡ false → j ≢ k
  ne_of_beq j k h same = cc (h, (key.test_iff j k).1 same)

  pub some-ne_of_beq : (j k : K) → (j == k) ≡ false → some j ≢ some k
  some-ne_of_beq j k h same = ne_of_beq j k h (cc)
