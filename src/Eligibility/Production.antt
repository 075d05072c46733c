-- ===== src/Eligibility/Production.antt =====
-- `production_evidence_errors` of vaaet-core/src/vaaet/eligibility.py: when it returns no error.
use vaaet.Prelude.{
  ok, ◌≡◌, refl, ap, ◌∙◌, ◌↔◌, Bool, Option, List, [], ◌∷◌, ◌++◌, bind-eq-ok, ℤ, not-false,
}
use vaaet.Float.{FloatOps}
use vaaet.ViewPlan.Payload.{Value, Entries}
use vaaet.Eligibility.{EvidenceError, Checked}
use vaaet.Eligibility.Table.{interval_errors}
use vaaet.Eligibility.Verdict.{point_consistency, general_errors, production_evidence_errors}
use vaaet.Eligibility.Checks.{or-false, note-ok, require-ok, joined-ok, minimum-ok, maximum-ok}
use vaaet.Eligibility.Values.{is_text_iff, is_mapping_iff, is_empty_list_iff, is_int_iff}
use vaaet.Eligibility.Intervals.{interval_errors-ok}
use vaaet.Eligibility.Evidence.{IsGenerallyFit, IsProductionEvidence}
use vaaet.Eligibility.Consistency.{rate_consistency-ok, point_consistency-ok}

nil-append : {A : Type 0} (xs ys : List A) → xs ++ ys ≡ [] → (xs ≡ []) × (ys ≡ [])
nil-append [] ys h = (refl, h)
nil-append (x ∷ xs) ys h = cc

four-nil :
    {F : Type 0} (a b c d : List (EvidenceError F))
    → ◌≡◌ {A = Checked F} (ok (a ++ b ++ c ++ d)) (ok [])
    → (a ≡ []) × (b ≡ []) × (c ≡ []) × (d ≡ [])
four-nil a b c d h =
    let all : a ++ b ++ c ++ d ≡ [] = cc in
    let (abc, fourth) = nil-append _ d all in
    let (ab, third) = nil-append _ c abc in
    let (first, second) = nil-append a b ab in (first, second, third, fourth)

module _ {F : Type 0} ⦃f : FloatOps F⦄ (float_of : ℤ → Option F) (is_close : F → F → Bool) where
  general_errors-ok :
      (lifecycle metrics provenance : Entries F) (human_holdout : Value F)
      → (general_errors float_of is_close lifecycle metrics provenance human_holdout ≡ ok [])
        ↔ IsGenerallyFit float_of is_close lifecycle metrics provenance human_holdout
  unfolding general_errors
  general_errors-ok lifecycle metrics provenance human_holdout = (
    (λ h.
        let (a, (b, (c, (d, (e, (g, (i, (j, (k, (l, (m, _))))))))))) = (joined-ok _).0 h in
        let (holdout, listed) = (or-false _ _).0 ((note-ok _ _).0 c) in
        (
          (is_text_iff _ _).0 ((require-ok _ _).0 a),
          (is_text_iff _ _).0 ((require-ok _ _).0 b),
          ((is_mapping_iff _).0 ((not-false _).0 holdout), (not-false _).0 listed),
          (is_empty_list_iff _).0 ((require-ok _ _).0 d),
          (minimum-ok float_of _ _ _).0 e,
          (is_int_iff _ _).0 ((require-ok _ _).0 g),
          (minimum-ok float_of _ _ _).0 i,
          (minimum-ok float_of _ _ _).0 j,
          (minimum-ok float_of _ _ _).0 k,
          (maximum-ok float_of _ _ _).0 l,
          (rate_consistency-ok float_of is_close metrics).0 m,
        )),
    (λ (a, b, (holdout, listed), d, e, g, i, j, k, l, m).
        let c =
          (or-false _ _).1
            ((not-false _).1 ((is_mapping_iff _).1 holdout), (not-false _).1 listed) in
        (joined-ok _).1 (
          (require-ok _ _).1 ((is_text_iff _ _).1 a),
          (
            (require-ok _ _).1 ((is_text_iff _ _).1 b),
            (
              (note-ok _ _).1 c,
              (
                (require-ok _ _).1 ((is_empty_list_iff _).1 d),
                (
                  (minimum-ok float_of _ _ _).1 e,
                  (
                    (require-ok _ _).1 ((is_int_iff _ _).1 g),
                    (
                      (minimum-ok float_of _ _ _).1 i,
                      (
                        (minimum-ok float_of _ _ _).1 j,
                        (
                          (minimum-ok float_of _ _ _).1 k,
                          (
                            (maximum-ok float_of _ _ _).1 l,
                            ((rate_consistency-ok float_of is_close metrics).1 m, tt),
                          ),
                        ),
                      ),
                    ),
                  ),
                ),
              ),
            ),
          ),
        )),
  )

  -- The evidence is accepted, without an exception and without an error, exactly when the bundle is
  -- fit in general, both lists of grouped intervals are tables whose rows pass the gates of their
  -- scope, and the declared metrics are the points of those intervals.
  pub production_evidence_errors-IsProductionEvidence :
      (lifecycle metrics provenance : Entries F) (human_holdout : Value F)
      → (production_evidence_errors float_of is_close lifecycle metrics provenance human_holdout
          ≡ ok [])
        ↔ IsProductionEvidence float_of is_close lifecycle metrics provenance human_holdout
  unfolding production_evidence_errors
  production_evidence_errors-IsProductionEvidence lifecycle metrics provenance human_holdout =
      let of_scope = interval_errors float_of in
      (
        (λ h.
            let (general, fit, h1) = bind-eq-ok (general_errors float_of is_close _ _ _ _) _ h in
            let (direct, read_d, h2) = bind-eq-ok (of_scope "direct" _) _ h1 in
            let (final, read_f, h3) = bind-eq-ok (of_scope "final" _) _ h2 in
            let (points, agree_p, h4) =
              bind-eq-ok (point_consistency float_of is_close _ _ _) _ h3 in
            let (g, d, e, p) = four-nil general direct.0 final.0 points h4 in
            (
              (general_errors-ok _ _ _ _).0 (fit ∙ ap ok g),
              (
                direct.1,
                final.1,
                (interval_errors-ok float_of _ _ _).0 (read_d ∙ ap (λ xs. ok (xs, direct.1)) d),
                (interval_errors-ok float_of _ _ _).0 (read_f ∙ ap (λ xs. ok (xs, final.1)) e),
                (point_consistency-ok float_of is_close _ _ _).0 (agree_p ∙ ap ok p),
              ),
            )),
        (λ (fit, (direct, final, are_d, are_f, declared)).
            rw
              (
                (general_errors-ok lifecycle metrics provenance human_holdout).1 fit,
                (interval_errors-ok float_of "direct" _ direct).1 are_d,
                (interval_errors-ok float_of "final" _ final).1 are_f,
                (point_consistency-ok float_of is_close metrics direct final).1 declared,
              )
              refl),
      )
