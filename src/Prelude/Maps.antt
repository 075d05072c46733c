-- ===== src/Prelude/Maps.antt =====
-- A `dict` that the program looks up and changes but never walks through.
use mathlib.Core.Bool.{false}
use mathlib.Core.Path.{◌≡◌, ap}
use mathlib.Core.Option.{Option, none, some}
use vaaet.Prelude.Tests.{if◌then◌else◌}
use vaaet.Prelude.Equality.{Key, ◌==◌, beq_refl}

abbrev pub Map {ℓ κ} : Type ℓ → Type κ → Type (ℓ ⊔ κ)
Map K V = K → Option V

abbrev pub empty_map {ℓ κ} : {K : Type ℓ} {V : Type κ} → Map K V
empty_map k = none

-- `d.get(k, default)`
abbrev pub get_or {ℓ κ} : {K : Type ℓ} {V : Type κ} → Map K V → K → V → V
get_or d k default = elim (d k) [ none ↦ default | some v ↦ v ]

-- `d[k] = v`
abbrev pub put {ℓ κ} : {K : Type ℓ} {V : Type κ} ⦃key : Key K⦄ → Map K V → K → V → Map K V
put d k v = λ j. if j == k then some v else d j

-- `d.pop(k, None)`
abbrev pub pop {ℓ κ} : {K : Type ℓ} {V : Type κ} ⦃key : Key K⦄ → Map K V → K → Map K V
pop d k = λ j. if j == k then none else d j

module _ {ℓ κ} {K : Type ℓ} {V : Type κ} ⦃key : Key K⦄ where
  pub get-put : (d : Map K V) (k : K) (v default : V) → get_or (put d k v) k default ≡ v
  get-put d k v default =
      ap (λ b. elim (if b then some v else d k) [ none ↦ default | some x ↦ x ]) (beq_refl k)

  pub get-put_other :
      (d : Map K V) (k j : K) (v default : V)
      → (j == k) ≡ false
      → get_or (put d k v) j default ≡ get_or d j default
  get-put_other d k j v default e =
      ap (λ b. elim (if b then some v else d j) [ none ↦ default | some x ↦ x ]) e

  pub get-pop : (d : Map K V) (k : K) (default : V) → get_or (pop d k) k default ≡ default
  get-pop d k default =
      ap (λ b. elim (if b then none else d k) [ none ↦ default | some x ↦ x ]) (beq_refl k)

  pub get-pop_other :
      (d : Map K V) (k j : K) (default : V)
      → (j == k) ≡ false
      → get_or (pop d k) j default ≡ get_or d j default
  get-pop_other d k j default e =
      ap (λ b. elim (if b then none else d j) [ none ↦ default | some x ↦ x ]) e
