-- ===== src/Eligibility.antt =====
-- vaaet-core/src/vaaet/eligibility.py: the evidence that a bundle needs to be declared for production.
-- Its mappings are what `json` gives. `float_of` is Python's `float` of an integer, none where it
-- overflows, and `is_close` is `math.isclose` with the tolerances 1e-9 and 1e-12.
pub mod Table
pub mod Verdict
pub mod Evidence
pub mod Values
pub mod Checks
pub mod Rows
pub mod Gates
pub mod Intervals
pub mod Consistency
pub mod Production
mod Examples
use vaaet.Prelude.{
  leb, if◌then◌else◌, Result, ok, err, ◌>>=◌, ◌==◌, ℕ, String, Bool, true, false, not, ◌&&◌, ◌||◌,
  Option, none, some, List, [], ◌∷◌, ◌++◌, ℤ, pos, negsuc, nat_key, string_key,
}
use vaaet.Float.{FloatOps, ◌<=◌}
use vaaet.Prelude.Text.{concat}
use vaaet.ViewPlan.Payload.{Value, Items, Entries, get, to_list}

-- The messages, in their parts; a threshold is printed after its label.
pub data EvidenceError (F : Type 0) : Type 0 where
  message : String → EvidenceError F
  missing_or_below : String → F → EvidenceError F
  must_be_below : String → F → EvidenceError F
  must_equal : String → ℕ → EvidenceError F

pub data Overflow : Type 0 where
  overflow : Overflow

abbrev pub Checked : Type 0 → Type 0
Checked F = Result Overflow (List (EvidenceError F))

-- `if failed: errors.append(e)`
unfoldable pub note : {F : Type 0} → Bool → EvidenceError F → List (EvidenceError F)
note failed e = if failed then e ∷ [] else []

-- Checks in their order: each appends its errors.
unfoldable pub joined : {F : Type 0} → List (Checked F) → Checked F
joined [] = ok []
joined (m ∷ ms) = m >>= λ errors. joined ms >>= λ later. ok (errors ++ later)

module _ {F : Type 0} where
  abbrev pub is_text : String → Value F → Bool
  is_text s (Value.text t) = t == s
  is_text s _ = false

  abbrev pub is_true : Value F → Bool
  is_true (Value.boolean b) = b
  is_true _ = false

  abbrev pub is_mapping : Value F → Bool
  is_mapping (Value.object _) = true
  is_mapping _ = false

  -- A list without elements.
  abbrev pub is_empty_list : Value F → Bool
  is_empty_list (Value.array Items.end) = true
  is_empty_list _ = false

  -- `type(v) is int and v >= n`
  abbrev pub is_int_from : ℕ → Value F → Bool
  is_int_from n (Value.integer (pos i)) = leb n i
  is_int_from n _ = false

  abbrev pub is_int : ℕ → Value F → Bool
  is_int n (Value.integer (pos i)) = i == n
  is_int n _ = false

module _ {F : Type 0} ⦃f : FloatOps F⦄ where
  -- `bool(v)`
  abbrev pub truthy : Value F → Bool
  truthy Value.null = false
  truthy (Value.boolean b) = b
  truthy (Value.integer (pos i)) = not (i == 0)
  truthy (Value.integer (negsuc _)) = true
  truthy (Value.number x) = not (x <= f.of_nat 0 && f.of_nat 0 <= x)
  truthy (Value.text s) = not (s == "")
  truthy (Value.array Items.end) = false
  truthy (Value.array (Items.item _ _)) = true
  truthy (Value.object Entries.empty) = false
  truthy (Value.object (Entries.entry _ _ _)) = true
  truthy Value.other = true

  abbrev pub finite : F → Option F
  finite x = if f.is_finite x then some x else none

  -- `float(i)`, of which only a finite number is kept.
  abbrev pub converted : Option F → Result Overflow (Option F)
  converted none = err overflow
  converted (some x) = ok (finite x)

  abbrev pub below : F → Option F → Bool
  below threshold none = true
  below threshold (some x) = f.lt x threshold

  -- The test of `_maximum` that is strict.
  abbrev pub not_below : F → Option F → Bool
  not_below threshold none = true
  not_below threshold (some x) = f.lt x (f.of_nat 0) || threshold <= x

module _ {F : Type 0} ⦃f : FloatOps F⦄ (float_of : ℤ → Option F) where
  unfoldable pub number_of : Value F → Result Overflow (Option F)
  number_of (Value.integer i) = converted (float_of i)
  number_of (Value.number x) = ok (finite x)
  number_of _ = ok none

  -- `_minimum`
  unfoldable pub minimum : Value F → F → String → Checked F
  minimum value threshold label =
      number_of value >>= λ x. ok (note (below threshold x) (missing_or_below label threshold))

  -- `_maximum`, with `strict`
  unfoldable pub maximum : Value F → F → String → Checked F
  maximum value threshold label =
      number_of value >>= λ x. ok (note (not_below threshold x) (must_be_below label threshold))
