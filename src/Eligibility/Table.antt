-- ===== src/Eligibility/Table.antt =====
-- `_interval_errors` of vaaet-core/src/vaaet/eligibility.py: the grouped intervals and their gates.
use vaaet.Prelude.{
  if◌then◌else◌, is_some, Result, ok, err, ◌>>=◌, ◌==◌, String, Bool, false, not, ◌&&◌, ◌||◌,
  Option, none, some, List, [], ◌∷◌, ◌++◌, map, ℤ, nat_key, string_key,
}
use vaaet.Float.{FloatOps, ◌<=◌}
use vaaet.Prelude.Text.{concat}
use vaaet.ViewPlan.Payload.{Value, Entries, get, to_list}
use vaaet.Eligibility.{
  Checked, EvidenceError, Overflow, is_int_from, is_text, is_true, joined, message, note, number_of,
}

-- `"low"` or `"high"`: the end of the interval that the threshold is compared with.
pub data Bound : Type 0 where
  low_end : Bound
  high_end : Bound

pub record Gate (F : Type 0) : Type 0 where
  pub metric : String
  pub bound : Bound
  pub threshold : F

abbrev pub Rows : Type 0 → Type 0
Rows F = List (String × Entries F)

module _ {F : Type 0} where
  -- `rows.get(metric)`
  unfoldable pub row_of : String → Rows F → Option (Entries F)
  row_of metric [] = none
  row_of metric ((name, row) ∷ rows) =
      let rest = row_of metric rows in if name == metric then some row else rest

  abbrev pub named : Entries F → Value F → Option (String × Entries F)
  named row (Value.text name) = some (name, row)
  named row _ = none

  -- The row of an item of the list, with its name.
  abbrev pub named_row : Value F → Option (String × Entries F)
  named_row (Value.object row) = named row (get row "metric")
  named_row _ = none

  -- What follows with a row, if it has a name that is new.
  unfoldable pub with_row :
      String
      → Rows F
      → Option (String × Entries F)
      → (String × Entries F → Result (EvidenceError F) (Rows F))
      → Result (EvidenceError F) (Rows F)
  with_row scope rows none next =
      err (message (concat (scope ∷ " grouped intervals are malformed" ∷ [])))
  with_row scope rows (some row) next =
      if is_some (row_of row.0 rows)
      then err
          (message (concat (scope ∷ " grouped intervals contain duplicate metric " ∷ row.0 ∷ [])))
      else next row

  -- The rows by their names, or the error that ends the reading.
  unfoldable pub collect_rows : String → Rows F → List (Value F) → Result (EvidenceError F) (Rows F)
  collect_rows scope rows [] = ok rows
  collect_rows scope rows (v ∷ vs) =
      with_row scope rows (named_row v) (λ row. collect_rows scope (rows ++ row ∷ []) vs)

module _ {F : Type 0} ⦃f : FloatOps F⦄ where
  abbrev pub is_fraction : Option F → Bool
  is_fraction none = false
  is_fraction (some x) = f.literal 9500 <= x && x <= f.of_nat 1

  unfoldable pub is_grouped : Entries F → Option F → Bool
  is_grouped row fraction =
      is_text "grouped-bootstrap" (get row "method")
      && is_int_from 2 (get row "group_count")
      && is_int_from 1 (get row "bootstrap_samples")
      && is_fraction fraction

  abbrev pub has_bad_bounds : F → F → F → Bool
  has_bad_bounds point low high =
      f.lt low (f.of_nat 0)
      || f.lt (f.of_nat 1) high
      || f.lt high low
      || not (low <= point && point <= high)

  abbrev pub misses : Bound → F → F → F → Bool
  misses low_end threshold low high = f.lt low threshold
  misses high_end threshold low high = f.lt threshold high

  unfoldable pub bound_errors :
      String → Gate F → Option F → Option F → Option F → List (EvidenceError F)
  bound_errors scope gate (some point) (some low) (some high) =
      if has_bad_bounds point low high
      then message (concat (scope ∷ " interval " ∷ gate.metric ∷ " has invalid bounds" ∷ [])) ∷ []
      else note (misses gate.bound gate.threshold low high)
          (message (concat (scope ∷ " interval " ∷ gate.metric ∷ " does not pass its gate" ∷ [])))
  bound_errors scope gate _ _ _ =
      message (concat (scope ∷ " interval " ∷ gate.metric ∷ " has invalid bounds" ∷ [])) ∷ []

  -- `thresholds` in `_interval_errors`.
  unfoldable pub thresholds : String → List (Gate F)
  thresholds scope =
      record { metric = "f1_macro"; bound = low_end; threshold = f.literal 8800 }
      ∷ record { metric = "precision_normal"; bound = low_end; threshold = f.literal 9300 }
      ∷ record { metric = "precision_reduced"; bound = low_end; threshold = f.literal 8800 }
      ∷ record { metric = "precision_congested"; bound = low_end; threshold = f.literal 9000 }
      ∷ record { metric = "recall_normal"; bound = low_end; threshold = f.literal 9300 }
      ∷ record { metric = "recall_reduced"; bound = low_end; threshold = f.literal 9000 }
      ∷ record { metric = "recall_congested"; bound = low_end; threshold = f.literal 8500 }
      ∷ record { metric = "normal_congested_error"; bound = high_end; threshold = f.literal 100 }
      ∷ (if scope == "final"
          then record { metric = "ece"; bound = high_end; threshold = f.literal 500 } ∷ []
          else [])

module _ {F : Type 0} ⦃f : FloatOps F⦄ (float_of : ℤ → Option F) where
  -- The errors of a row that is there and sufficient.
  unfoldable pub row_errors : String → Gate F → Entries F → Checked F
  row_errors scope gate row = number_of float_of (get row "value") >>= λ point.
      number_of float_of (get row "ci_95_low") >>= λ low.
      number_of float_of (get row "ci_95_high") >>= λ high.
      number_of float_of (get row "evaluable_fraction") >>= λ fraction. ok (
        note (not (is_grouped row fraction)) (
          message (
            concat (scope ∷ " interval " ∷ gate.metric ∷ " lacks grouped-bootstrap evidence" ∷ [])))
        ++ bound_errors scope gate point low high)

  abbrev pub insufficient : String → Gate F → Checked F
  insufficient scope gate = ok (
      message (concat (scope ∷ " interval " ∷ gate.metric ∷ " is missing or insufficient" ∷ []))
      ∷ [])

  abbrev pub sufficient_errors : String → Gate F → Option (Entries F) → Checked F
  sufficient_errors scope gate none = insufficient scope gate
  sufficient_errors scope gate (some row) =
      if is_true (get row "sufficient") then row_errors scope gate row else insufficient scope gate

  unfoldable pub gate_errors : String → Rows F → Gate F → Checked F
  gate_errors scope rows gate = sufficient_errors scope gate (row_of gate.metric rows)

  abbrev pub collected_errors :
      String → Result (EvidenceError F) (Rows F) → Result Overflow (List (EvidenceError F) × Rows F)
  collected_errors scope (err e) = ok (e ∷ [], [])
  collected_errors scope (ok rows) =
      joined (map (gate_errors scope rows) (thresholds scope)) >>= λ errors. ok (errors, rows)

  -- `_interval_errors`: its errors and its rows.
  unfoldable pub interval_errors :
      String → Value F → Result Overflow (List (EvidenceError F) × Rows F)
  interval_errors scope (Value.array items) =
      collected_errors scope (collect_rows scope [] (to_list items))
  interval_errors scope _ =
      ok (message (concat (scope ∷ " grouped intervals are missing" ∷ [])) ∷ [], [])
