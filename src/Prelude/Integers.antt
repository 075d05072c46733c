-- ===== src/Prelude/Integers.antt =====
-- Python's integers, over the native naturals.
use Prim.Native.Nat.{ℕ, zero, suc, ◌+◌, ◌-◌}
use mathlib.Core.Path.{◌≡◌, refl}
use mathlib.Core.Logic.{◌↔◌}
use mathlib.Core.Bool.{Bool, true, false}
use native.Mathlib.Omega.{arith}
use vaaet.Prelude.Tests.{ltb, leb, if◌then◌else◌}

pub data ℤ : Type 0 where
  pos : ℕ → ℤ
  -- `- (n + 1)`
  negsuc : ℕ → ℤ

abbrev pub minus : ℕ → ℕ → ℤ
minus m n = if leb n m then pos (m - n) else negsuc (n - m - 1)

infixl 65 ◌+ℤ◌
abbrev pub ◌+ℤ◌ : ℤ → ℤ → ℤ
pos m +ℤ pos n = pos (m + n)
pos m +ℤ negsuc n = minus m (n + 1)
negsuc m +ℤ pos n = minus n (m + 1)
negsuc m +ℤ negsuc n = negsuc (m + n + 1)

abbrev pub ltℤ : ℤ → ℤ → Bool
ltℤ (pos m) (pos n) = ltb m n
ltℤ (pos _) (negsuc _) = false
ltℤ (negsuc _) (pos _) = true
ltℤ (negsuc m) (negsuc n) = ltb n m

abbrev pub leℤ : ℤ → ℤ → Bool
leℤ (pos m) (pos n) = leb m n
leℤ (pos _) (negsuc _) = false
leℤ (negsuc _) (pos _) = true
leℤ (negsuc m) (negsuc n) = leb n m

pub not-negative : (x : ℤ) → (ltℤ x (pos 0) ≡ false) ↔ ((n : ℕ) × (x ≡ pos n))
not-negative (pos n) = ((λ _. (n, refl)), (λ _. ground arith))
not-negative (negsuc n) = ((λ h. cc), (λ h. cc))

pub positive : (x : ℤ) → (leℤ x (pos 0) ≡ false) ↔ ((n : ℕ) × (x ≡ pos (suc n)))
positive (pos zero) = ((λ h. ground arith), (λ h. ground arith))
positive (pos (suc n)) = ((λ _. (n, refl)), (λ _. ground arith))
positive (negsuc n) = ((λ h. cc), (λ h. cc))
