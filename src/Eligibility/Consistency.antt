-- ===== src/Eligibility/Consistency.antt =====
-- `_rate_consistency` and `_point_consistency` of vaaet-core/src/vaaet/eligibility.py: when they append
-- no error.
use vaaet.Prelude.{
  ok, ℕ, String, ◌≡◌, refl, sym, ap, ◌∙◌, subst, ◌↔◌, inl, inr, Bool, true, false, Option, none,
  some, [], bind-eq-ok, ℤ, pos, negsuc, positive, if-eq-ok, if_false,
}
use vaaet.Float.{FloatOps, ◌<=◌}
use vaaet.ViewPlan.Payload.{Value, Entries, get}
use vaaet.Eligibility.{Checked, number_of}
use vaaet.Eligibility.Table.{Rows, row_of}
use vaaet.Eligibility.Verdict.{
  measured, agree, compare_rate, rate_errors, rate_consistency, compare_point, point_consistency,
}
use vaaet.Eligibility.Checks.{require-ok, joined-ok, number_of_iff}
use vaaet.Eligibility.Evidence.{IsNumber, IsRate, IsDeclared, AreDeclared}

module _ {F : Type 0} ⦃f : FloatOps F⦄ (float_of : ℤ → Option F) (is_close : F → F → Bool) where
  compare_rate-ok :
      (exposure rate : F) (o : Option F)
      → (compare_rate float_of is_close exposure rate o ≡ ok [])
        ↔ ((n : F) × (o ≡ some n) × (is_close rate (f.div n exposure) ≡ true))
  compare_rate-ok exposure rate none = ((λ h. cc), (λ (_, h, _). absurd (cc)))
  compare_rate-ok exposure rate (some n) = (
    (λ h. (n, refl, (require-ok _ _).0 h)),
    (λ (m, same, close).
        let one : m ≡ n = cc in
        (require-ok _ _).1 (subst (λ k. is_close rate (f.div k exposure) ≡ true) one close)),
  )

  rate_errors-ok :
      (exposure rate : F) (v : Value F)
      → (rate_errors float_of is_close (some exposure) (some rate) v ≡ ok []) ↔ (
          (count : ℕ) × (n : F) × (v ≡ Value.integer (pos count))
          × (float_of (pos count) ≡ some n)
          × ((exposure <= f.of_nat 0) ≡ false)
          × (is_close rate (f.div n exposure) ≡ true))
  rate_errors-ok exposure rate (Value.integer (pos count)) =
      let compared = compare_rate-ok exposure rate (float_of (pos count)) in
      (
        (λ h. elim (if-eq-ok (exposure <= f.of_nat 0) _ _ h) [
          | inl (_, bad) ↦ absurd (cc)
          | inr (positive, good) ↦
              let (n, found, close) = compared.0 good in (count, n, refl, found, positive, close)
        ]),
        (λ (count', n, same, found, positive, close).
            let one : count' ≡ count = cc in
            let found' = subst (λ c. float_of (pos c) ≡ some n) one found in
            if_false _ _ _ positive ∙ compared.1 (n, found', close)),
      )
  rate_errors-ok exposure rate (Value.integer (negsuc i)) =
      ((λ h. cc), (λ (_, _, h, _, _, _). absurd (cc)))
  rate_errors-ok exposure rate (Value.object es) = ((λ h. cc), (λ (_, _, h, _, _, _). absurd (cc)))
  rate_errors-ok exposure rate (Value.array xs) = ((λ h. cc), (λ (_, _, h, _, _, _). absurd (cc)))
  rate_errors-ok exposure rate (Value.boolean b) = ((λ h. cc), (λ (_, _, h, _, _, _). absurd (cc)))
  rate_errors-ok exposure rate Value.null = ((λ h. cc), (λ (_, _, h, _, _, _). absurd (cc)))
  rate_errors-ok exposure rate (Value.text b) = ((λ h. cc), (λ (_, _, h, _, _, _). absurd (cc)))
  rate_errors-ok exposure rate (Value.number x) = ((λ h. cc), (λ (_, _, h, _, _, _). absurd (cc)))
  rate_errors-ok exposure rate Value.other = ((λ h. cc), (λ (_, _, h, _, _, _). absurd (cc)))

  rate_errors-some :
      (a b : Option F) (v : Value F)
      → rate_errors float_of is_close a b v ≡ ok []
      → (exposure : F) × (rate : F) × (a ≡ some exposure) × (b ≡ some rate)
  rate_errors-some none b v h = cc
  rate_errors-some (some exposure) none v h = cc
  rate_errors-some (some exposure) (some rate) v h = (exposure, rate, refl, refl)

  pub rate_consistency-ok :
      (metrics : Entries F)
      → (rate_consistency float_of is_close metrics ≡ ok []) ↔ IsRate float_of is_close metrics
  unfolding rate_consistency
  rate_consistency-ok metrics =
      let v = get metrics "incident_candidate_count" in
      (
        (λ h.
            let (a, read_a, h1) = bind-eq-ok (number_of float_of _) _ h in
            let (b, read_b, h2) = bind-eq-ok (number_of float_of _) _ h1 in
            let (exposure, rate, is_a, is_b) = rate_errors-some a b v h2 in
            let both : Option F → Option F → Checked F =
              λ x y. rate_errors float_of is_close x y v in
            let h3 = sym (ap (λ x. both x b) is_a ∙ ap (both (some exposure)) is_b) ∙ h2 in
            let (count, n, is, found, positive, close) = (rate_errors-ok exposure rate v).0 h3 in
            (
              count,
              n,
              exposure,
              rate,
              is,
              found,
              (number_of_iff float_of _ exposure).0 (read_a ∙ ap ok is_a),
              (number_of_iff float_of _ rate).0 (read_b ∙ ap ok is_b),
              positive,
              close,
            )),
        (λ (count, n, exposure, rate, is, found, is_a, is_b, positive, close).
            rw ((number_of_iff float_of _ exposure).1 is_a, (number_of_iff float_of _ rate).1 is_b)
              ((rate_errors-ok exposure rate v).1 (count, n, is, found, positive, close))),
      )

  agree-true :
      (a b : Option F)
      → agree float_of is_close a b ≡ true
      → (x : F) × (y : F) × (a ≡ some x) × (b ≡ some y) × (is_close x y ≡ true)
  agree-true none b h = cc
  agree-true (some x) none h = cc
  agree-true (some x) (some y) h = (x, y, refl, refl, h)

  measured-some :
      (o : Option (Entries F)) (y : F)
      → (measured float_of o ≡ ok (some y))
        ↔ ((row : Entries F) × (o ≡ some row) × IsNumber float_of (get row "value") y)
  measured-some none y = ((λ h. cc), (λ (_, h, _). absurd (cc)))
  measured-some (some row) y = (
    (λ h. (row, refl, (number_of_iff float_of _ y).0 h)),
    (λ (row', same, is).
        let one : row' ≡ row = cc in
        subst (λ r. number_of float_of (get r "value") ≡ ok (some y)) one
          ((number_of_iff float_of _ y).1 is)),
  )

  compare_point-ok :
      (metrics : Entries F) (field : String) (rows : Rows F) (metric : String)
      → (compare_point float_of is_close metrics field rows metric ≡ ok [])
        ↔ IsDeclared float_of is_close metrics field rows metric
  unfolding compare_point
  compare_point-ok metrics field rows metric =
      let found = row_of metric rows in
      (
        (λ h.
            let (a, read_a, h1) = bind-eq-ok (number_of float_of (get metrics field)) _ h in
            let (b, read_b, h2) = bind-eq-ok (measured float_of found) _ h1 in
            let (x, y, is_a, is_b, close) = agree-true a b ((require-ok _ _).0 h2) in
            let (row, is, point) = (measured-some found y).0 (read_b ∙ ap ok is_b) in
            (x, row, y, (number_of_iff float_of _ x).0 (read_a ∙ ap ok is_a), is, point, close)),
        (λ (x, row, y, is_x, is, is_y, close).
            rw ((number_of_iff float_of _ x).1 is_x, (measured-some found y).1 (row, is, is_y))
              ((require-ok (is_close x y) _).1 close)),
      )

  pub point_consistency-ok :
      (metrics : Entries F) (direct final : Rows F)
      → (point_consistency float_of is_close metrics direct final ≡ ok [])
        ↔ AreDeclared float_of is_close metrics direct final
  unfolding point_consistency
  point_consistency-ok metrics direct final = (
    (λ h.
        let (a, (b, (c, (d, (e, _))))) = (joined-ok _).0 h in
        (
          (compare_point-ok _ _ _ _).0 a,
          (compare_point-ok _ _ _ _).0 b,
          (compare_point-ok _ _ _ _).0 c,
          (compare_point-ok _ _ _ _).0 d,
          (compare_point-ok _ _ _ _).0 e,
        )),
    (λ (a, b, c, d, e). (joined-ok _).1 (
      (compare_point-ok _ _ _ _).1 a,
      (
        (compare_point-ok _ _ _ _).1 b,
        (
          (compare_point-ok _ _ _ _).1 c,
          ((compare_point-ok _ _ _ _).1 d, ((compare_point-ok _ _ _ _).1 e, tt)),
        ),
      ),
    )),
  )
