-- ===== src/Eligibility/Rows.antt =====
-- The rows that `_interval_errors` of vaaet-core/src/vaaet/eligibility.py reads from a list.
use vaaet.Prelude.{
  is_some, Result, ok, String, ◌≡◌, refl, sym, ap, ◌∙◌, subst, ◌↔◌, inl, inr, false, Option, none,
  some, List, [], ◌∷◌, ◌++◌, if-eq-ok, if_false,
}
use vaaet.ViewPlan.Payload.{Value, Entries, get}
use vaaet.Eligibility.{EvidenceError}
use vaaet.Eligibility.Table.{Rows, row_of, named, named_row, with_row, collect_rows}
use vaaet.Eligibility.Evidence.{IsRow, AreRows}

is_some-false : {A : Type 0} (o : Option A) → (is_some o ≡ false) ↔ (o ≡ none)
is_some-false none = ((λ _. refl), (λ _. refl))
is_some-false (some x) = ((λ h. cc), (λ h. cc))

module _ {F : Type 0} where
  named_iff :
      (es : Entries F) (v : Value F) (row : String × Entries F)
      → (named es v ≡ some row) ↔ (es ≡ row.1) × (v ≡ Value.text row.0)
  named_iff es (Value.text name) (name', row) =
      ((λ h. (cc, cc)), (λ (a, b). let c : name ≡ name' = cc in cc))
  named_iff es (Value.object _) row = ((λ h. cc), (λ (_, h). absurd (cc)))
  named_iff es (Value.array xs) row = ((λ h. cc), (λ (_, h). absurd (cc)))
  named_iff es (Value.boolean b) row = ((λ h. cc), (λ (_, h). absurd (cc)))
  named_iff es Value.null row = ((λ h. cc), (λ (_, h). absurd (cc)))
  named_iff es (Value.integer i) row = ((λ h. cc), (λ (_, h). absurd (cc)))
  named_iff es (Value.number x) row = ((λ h. cc), (λ (_, h). absurd (cc)))
  named_iff es Value.other row = ((λ h. cc), (λ (_, h). absurd (cc)))

  named_row_iff : (v : Value F) (row : String × Entries F) → (named_row v ≡ some row) ↔ IsRow v row
  named_row_iff (Value.object es) row =
      let text_of = named_iff es (get es "metric") row in
      (
        (λ h.
            let (same, name) = text_of.0 h in
            (ap Value.object same, subst (λ e. get e "metric" ≡ Value.text row.0) same name)),
        (λ (same, name).
            let entries : es ≡ row.1 = cc in
            text_of.1 (entries, subst (λ e. get e "metric" ≡ Value.text row.0) (sym entries) name)),
      )
  named_row_iff (Value.array xs) row = ((λ h. cc), (λ h. absurd (cc)))
  named_row_iff (Value.boolean b) row = ((λ h. cc), (λ h. absurd (cc)))
  named_row_iff Value.null row = ((λ h. cc), (λ h. absurd (cc)))
  named_row_iff (Value.text b) row = ((λ h. cc), (λ h. absurd (cc)))
  named_row_iff (Value.integer i) row = ((λ h. cc), (λ h. absurd (cc)))
  named_row_iff (Value.number x) row = ((λ h. cc), (λ h. absurd (cc)))
  named_row_iff Value.other row = ((λ h. cc), (λ h. absurd (cc)))

  with_row_iff :
      (scope : String) (before : Rows F) (o : Option (String × Entries F))
      (next : String × Entries F → Result (EvidenceError F) (Rows F)) (rows : Rows F)
      → (with_row scope before o next ≡ ok rows) ↔ (
          (row : String × Entries F) × (o ≡ some row)
          × (row_of row.0 before ≡ none)
          × (next row ≡ ok rows))
  unfolding with_row
  with_row_iff scope before none next rows = ((λ h. cc), (λ (_, h, _, _). absurd (cc)))
  with_row_iff scope before (some row) next rows = (
    (λ h. elim (if-eq-ok (is_some (row_of row.0 before)) _ (next row) h) [
      | inl twice ↦ absurd (let bad = twice.1 in cc)
      | inr fresh ↦ (row, refl, (is_some-false _).0 fresh.0, fresh.1)
    ]),
    (λ (row', same, new, rest).
        let one : row ≡ row' = cc in
        let new' =
          subst (λ r. is_some (row_of r.0 before) ≡ false) (sym one) ((is_some-false _).1 new) in
        if_false _ _ _ new' ∙ ap next one ∙ rest),
  )

  pub collect_rows_iff :
      (scope : String) (before : Rows F) (vs : List (Value F)) (rows : Rows F)
      → (collect_rows scope before vs ≡ ok rows) ↔ AreRows before vs rows
  unfolding collect_rows
  collect_rows_iff scope before [] rows = ((λ h. cc), (λ h. cc))
  collect_rows_iff scope before (v ∷ vs) rows =
      let step = with_row_iff scope before (named_row v) _ rows in
      (
        (λ h.
            let (row, found, new, rest) = step.0 h in
            (
              row,
              (named_row_iff v row).0 found,
              new,
              (collect_rows_iff scope (before ++ row ∷ []) vs rows).0 rest,
            )),
        (λ (row, is, new, rest). step.1 (
          row,
          (named_row_iff v row).1 is,
          new,
          (collect_rows_iff scope (before ++ row ∷ []) vs rows).1 rest,
        )),
      )
