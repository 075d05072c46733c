-- ===== src/Eligibility/Intervals.antt =====
-- `_interval_errors` of vaaet-core/src/vaaet/eligibility.py: when it appends no error.
use vaaet.Prelude.{
  All, Result, ok, err, ◌>>=◌, String, ◌≡◌, refl, sym, ap, ◌∙◌, subst, ◌↔◌, inl, inr, Option, none,
  some, List, [], ◌∷◌, map, bind-eq-ok, ℤ, if-eq-ok, if_true,
}
use vaaet.Float.{FloatOps}
use vaaet.ViewPlan.Payload.{Value, Entries, get, to_list}
use vaaet.Eligibility.{EvidenceError, Overflow, is_true, joined}
use vaaet.Eligibility.Table.{
  Gate, Rows, row_of, collect_rows, thresholds, row_errors, sufficient_errors, gate_errors,
  collected_errors, interval_errors,
}
use vaaet.Eligibility.Checks.{joined-ok}
use vaaet.Eligibility.Values.{is_true_iff}
use vaaet.Eligibility.Evidence.{AreRows, PassesGate, Passes, AreIntervals}
use vaaet.Eligibility.Rows.{collect_rows_iff}
use vaaet.Eligibility.Gates.{row_errors-passes, row_errors-none}

module _ {F : Type 0} ⦃f : FloatOps F⦄ (float_of : ℤ → Option F) where
  sufficient_errors-ok :
      (scope : String) (gate : Gate F) (o : Option (Entries F))
      → (sufficient_errors float_of scope gate o ≡ ok [])
        ↔ ((row : Entries F) × (o ≡ some row) × PassesGate float_of gate row)
  sufficient_errors-ok scope gate none = ((λ h. cc), (λ (_, h, _). absurd (cc)))
  sufficient_errors-ok scope gate (some row) = (
    (λ h.
        elim (if-eq-ok (is_true (get row "sufficient")) (row_errors float_of scope gate row) _ h) [
          | inl (enough, good) ↦
              let (grouped, points) = row_errors-passes float_of scope gate row good in
              (row, refl, ((is_true_iff _).0 enough, grouped, points))
          | inr (_, bad) ↦ absurd (cc)
        ]),
    (λ (row', same, passes).
        let one : row' ≡ row = cc in
        let passes' = subst (PassesGate float_of gate) one passes in
        if_true _ _ _ ((is_true_iff (get row "sufficient")).1 passes'.0)
        ∙ row_errors-none float_of scope gate row passes'),
  )

  gates-ok :
      (scope : String) (rows : Rows F) (gates : List (Gate F))
      → All (λ m. m ≡ ok []) (map (gate_errors float_of scope rows) gates)
        ↔ All (Passes float_of rows) gates
  unfolding gate_errors
  gates-ok scope rows [] = ((λ _. tt), (λ _. tt))
  gates-ok scope rows (gate ∷ gates) =
      let first = sufficient_errors-ok scope gate (row_of gate.metric rows) in
      let rest = gates-ok scope rows gates in
      ((λ h. (first.0 h.0, rest.0 h.1)), (λ h. (first.1 h.0, rest.1 h.1)))

  collected_errors-ok :
      (scope : String) (read : Result (EvidenceError F) (Rows F)) (rows : Rows F)
      → (collected_errors float_of scope read ≡ ok ([], rows))
        ↔ (read ≡ ok rows) × All (Passes float_of rows) (thresholds scope)
  collected_errors-ok scope (err e) rows = ((λ h. cc), (λ h. absurd (cc)))
  collected_errors-ok scope (ok found) rows =
      let gates = thresholds scope in
      let ms = map (gate_errors float_of scope found) gates in
      let with_rows : List (EvidenceError F) → Result Overflow (List (EvidenceError F) × Rows F) =
        λ errors. ok (errors, found) in
      (
        (λ h.
            let (errors, none_, same) = bind-eq-ok (joined ms) with_rows h in
            let empty : errors ≡ [] = cc in
            let one : found ≡ rows = cc in
            let passing = (gates-ok scope found gates).0 ((joined-ok ms).0 (none_ ∙ ap ok empty)) in
            (ap ok one, subst (λ r. All (Passes float_of r) gates) one passing)),
        (λ (same, pass).
            let one : rows ≡ found = cc in
            let passing = subst (λ r. All (Passes float_of r) gates) one pass in
            let none_ = (joined-ok ms).1 ((gates-ok scope found gates).1 passing) in
            ap (λ m. m >>= with_rows) none_ ∙ ap (λ r. ok ([], r)) (sym one)),
      )

  pub interval_errors-ok :
      (scope : String) (v : Value F) (rows : Rows F)
      → (interval_errors float_of scope v ≡ ok ([], rows)) ↔ AreIntervals float_of scope v rows
  unfolding interval_errors
  interval_errors-ok scope (Value.array items) rows =
      let read = collect_rows_iff scope [] (to_list items) rows in
      let gates = collected_errors-ok scope (collect_rows scope [] (to_list items)) rows in
      (
        (λ h. let (found, pass) = gates.0 h in (items, refl, read.0 found, pass)),
        (λ (items', same, are, pass).
            let one : items' ≡ items = cc in
            gates.1 (read.1 (subst (λ is. AreRows [] (to_list is) rows) one are), pass)),
      )
  interval_errors-ok scope (Value.object es) rows = ((λ h. cc), (λ (_, h, _, _). absurd (cc)))
  interval_errors-ok scope (Value.boolean b) rows = ((λ h. cc), (λ (_, h, _, _). absurd (cc)))
  interval_errors-ok scope Value.null rows = ((λ h. cc), (λ (_, h, _, _). absurd (cc)))
  interval_errors-ok scope (Value.text b) rows = ((λ h. cc), (λ (_, h, _, _). absurd (cc)))
  interval_errors-ok scope (Value.integer i) rows = ((λ h. cc), (λ (_, h, _, _). absurd (cc)))
  interval_errors-ok scope (Value.number x) rows = ((λ h. cc), (λ (_, h, _, _). absurd (cc)))
  interval_errors-ok scope Value.other rows = ((λ h. cc), (λ (_, h, _, _). absurd (cc)))
