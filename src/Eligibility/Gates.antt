-- ===== src/Eligibility/Gates.antt =====
-- The checks that `_interval_errors` of vaaet-core/src/vaaet/eligibility.py makes of a row.
use vaaet.Prelude.{
  not-false, Bool-cases, ok, String, ◌≡◌, refl, ap, ◌∙◌, ◌↔◌, inl, inr, true, false, Option, none,
  some, [], bind-eq-ok, ℤ,
}
use vaaet.Float.{FloatOps}
use vaaet.ViewPlan.Payload.{Entries, get}
use vaaet.Eligibility.{Checked, number_of}
use vaaet.Eligibility.Table.{
  Bound, low_end, high_end, Gate, is_grouped, has_bad_bounds, misses, bound_errors, row_errors,
}
use vaaet.Eligibility.Checks.{or-false, and-true, note-ok, require-ok, append-ok, number_of_iff}
use vaaet.Eligibility.Values.{is_text_iff, is_int_from_iff}
use vaaet.Eligibility.Evidence.{IsNumber, Reaches, IsInterval, IsBootstrap, PassesGate}

module _ {F : Type 0} ⦃f : FloatOps F⦄ where
  misses-false :
      (bound : Bound) (threshold low high : F)
      → (misses bound threshold low high ≡ false) ↔ Reaches bound threshold low high
  misses-false low_end threshold low high = ((λ h. h), (λ h. h))
  misses-false high_end threshold low high = ((λ h. h), (λ h. h))

  has_bad_bounds-false :
      (point low high : F) → (has_bad_bounds point low high ≡ false) ↔ IsInterval low point high
  has_bad_bounds-false point low high = (
    (λ h.
        let (abc, d) = (or-false _ _).0 h in
        let (ab, c) = (or-false _ _).0 abc in
        let (a, b) = (or-false _ _).0 ab in
        let (p, q) = (and-true _ _).0 ((not-false _).0 d) in (a, b, c, p, q)),
    (λ (a, b, c, p, q).
        (or-false _ _).1 (
          (or-false _ _).1 ((or-false _ _).1 (a, b), c),
          (not-false _).1 ((and-true _ _).1 (p, q)),
        )),
  )

  bound_errors-ok :
      (scope : String) (gate : Gate F) (point low high : F)
      → (◌≡◌ {A = Checked F}
          (ok (bound_errors scope gate (some point) (some low) (some high)))
          (ok []))
        ↔ IsInterval low point high × Reaches gate.bound gate.threshold low high
  unfolding bound_errors
  bound_errors-ok scope gate point low high = elim (Bool-cases (has_bad_bounds point low high)) [
    | inl bad ↦ rw bad (
      (λ h. absurd (cc)),
      (λ h. let good = (has_bad_bounds-false point low high).1 h.0 in absurd (cc)),
    )
    | inr good ↦ rw good (
      (λ h. (
        (has_bad_bounds-false point low high).0 good,
        (misses-false gate.bound _ _ _).0 ((note-ok _ _).0 h),
      )),
      (λ h. (note-ok _ _).1 ((misses-false gate.bound _ _ _).1 h.1)),
    )
  ]

  -- A row without one of its three numbers has no valid bounds.
  bound_errors-some :
      (scope : String) (gate : Gate F) (p l h : Option F)
      → ◌≡◌ {A = Checked F} (ok (bound_errors scope gate p l h)) (ok [])
      → (point : F) × (low : F) × (high : F) × (p ≡ some point)
        × (l ≡ some low)
        × (h ≡ some high)
        × IsInterval low point high
        × Reaches gate.bound gate.threshold low high
  unfolding bound_errors
  bound_errors-some scope gate none l h good = cc
  bound_errors-some scope gate (some point) none h good = cc
  bound_errors-some scope gate (some point) (some low) none good = cc
  bound_errors-some scope gate (some point) (some low) (some high) good =
      let (fits, reaches) = (bound_errors-ok scope gate point low high).0 good in
      (point, low, high, refl, refl, refl, fits, reaches)

module _ {F : Type 0} ⦃f : FloatOps F⦄ (float_of : ℤ → Option F) where
  is_grouped-fraction :
      (row : Entries F) (fraction : Option F)
      → number_of float_of (get row "evaluable_fraction") ≡ ok fraction
      → is_grouped row fraction ≡ true
      → IsBootstrap float_of row
  unfolding is_grouped
  is_grouped-fraction row none read h =
      let bad : false ≡ true = ((and-true _ _).0 h).1 in absurd (cc)
  is_grouped-fraction row (some x) read h =
      let (mgs, inside) = (and-true _ _).0 h in
      let (mg, samples) = (and-true _ _).0 mgs in
      let (method, groups) = (and-true _ _).0 mg in
      let (above, under) = (and-true _ _).0 inside in
      (
        (is_text_iff _ _).0 method,
        (is_int_from_iff 2 _).0 groups,
        (is_int_from_iff 1 _).0 samples,
        (x, (number_of_iff float_of _ x).0 read, above, under),
      )

  is_grouped-IsBootstrap :
      (row : Entries F)
      → IsBootstrap float_of row
      → (x : F) × (number_of float_of (get row "evaluable_fraction") ≡ ok (some x))
        × (is_grouped row (some x) ≡ true)
  unfolding is_grouped
  is_grouped-IsBootstrap row (method, groups, samples, (x, read, above, under)) = (
    x,
    (number_of_iff float_of _ x).1 read,
    (and-true _ _).1 (
      (and-true _ _).1 (
        (and-true _ _).1 ((is_text_iff _ _).1 method, (is_int_from_iff 2 _).1 groups),
        (is_int_from_iff 1 _).1 samples,
      ),
      (and-true _ _).1 (above, under),
    ),
  )

  pub row_errors-passes :
      (scope : String) (gate : Gate F) (row : Entries F)
      → row_errors float_of scope gate row ≡ ok []
      → IsBootstrap float_of row
        × ((point : F) × (low : F) × (high : F) × IsNumber float_of (get row "value") point
            × IsNumber float_of (get row "ci_95_low") low
            × IsNumber float_of (get row "ci_95_high") high
            × IsInterval low point high
            × Reaches gate.bound gate.threshold low high)
  unfolding row_errors
  row_errors-passes scope gate row h =
      let (p, read_p, h1) = bind-eq-ok (number_of float_of (get row "value")) _ h in
      let (l, read_l, h2) = bind-eq-ok (number_of float_of (get row "ci_95_low")) _ h1 in
      let (u, read_u, h3) = bind-eq-ok (number_of float_of (get row "ci_95_high")) _ h2 in
      let (fraction, read_f, h4) =
        bind-eq-ok (number_of float_of (get row "evaluable_fraction")) _ h3 in
      let (grouped, bounds) = (append-ok (ok _) (ok (bound_errors scope gate p l u))).0 h4 in
      let (point, low, high, is_p, is_l, is_u, fits, reaches) =
        bound_errors-some scope gate p l u bounds in
      (
        is_grouped-fraction row fraction read_f ((require-ok _ _).0 grouped),
        (
          point,
          low,
          high,
          (number_of_iff float_of _ point).0 (read_p ∙ ap ok is_p),
          (number_of_iff float_of _ low).0 (read_l ∙ ap ok is_l),
          (number_of_iff float_of _ high).0 (read_u ∙ ap ok is_u),
          fits,
          reaches,
        ),
      )

  pub row_errors-none :
      (scope : String) (gate : Gate F) (row : Entries F)
      → PassesGate float_of gate row
      → row_errors float_of scope gate row ≡ ok []
  unfolding row_errors
  row_errors-none scope gate row (_, grouped, (point, low, high, is_p, is_l, is_u, fits, reaches)) =
      let (x, read_f, passes) = is_grouped-IsBootstrap row grouped in
      rw
        (
          (number_of_iff float_of _ point).1 is_p,
          (number_of_iff float_of _ low).1 is_l,
          (number_of_iff float_of _ high).1 is_u,
          read_f,
        )
        ((append-ok (ok _) (ok (bound_errors scope gate (some point) (some low) (some high)))).1 (
          (require-ok (is_grouped row (some x)) _).1 passes,
          (bound_errors-ok scope gate point low high).1 (fits, reaches),
        ))
