-- ===== src/Contracts/Classified.antt =====
-- What a classification and the state of a track's speed promise once they were constructed.
use vaaet.Prelude.{
  Option-cases, is_some, ok, ◌==◌, string_key, ℕ, suc, String, ◌≡◌, refl, sym, ap, ◌∙◌, ◌↔◌, inl,
  inr, true, false, not, Option, none, some, arith, in_order-ok, raise_if-ok, ℤ, pos, positive,
  nat_key,
}
use vaaet.Float.{FloatOps}
use vaaet.Contracts.{model_state_label}
use vaaet.Contracts.Features.{
  ClassificationRecord, given, validate_label, validate_given_ratio, classification_checks,
  classification_record,
}
use vaaet.Contracts.Valid.{IsRatio, IsProvenance, validate_ratio-ok, validate_origin-ok}

-- A value that, if it is given, satisfies a predicate.
abbrev IfGiven {ℓ} : {A : Type ℓ} → (A → Type 0) → Option A → Type 0
IfGiven P none = Unit
IfGiven P (some x) = P x

validate_label-ok :
    (state : ℤ) (label : String)
    → (validate_label state label ≡ ok tt) ↔ (model_state_label state ≡ some label)
unfolding validate_label
validate_label-ok state label = elim (Option-cases (model_state_label state)) [
  | inl unknown ↦ ((λ h. absurd (ground arith)), (λ h. absurd (cc)))
  | inr (expected, known) ↦ (
    (λ h.
        let same : (label == expected) ≡ true = ground arith in
        known ∙ ap some (sym ((string_key.test_iff label expected).0 same))),
    (λ h.
        let same : label ≡ expected = cc in
        let test : (label == expected) ≡ true = (string_key.test_iff label expected).1 same in
        ground arith),
  )
]

module _ {F : Type 0} ⦃f : FloatOps F⦄ where
  validate_given_ratio-ok :
      (x : Option F) (name : String) → (validate_given_ratio x name ≡ ok tt) ↔ IfGiven IsRatio x
  unfolding validate_given_ratio
  validate_given_ratio-ok none name = ((λ _. tt), (λ _. refl))
  validate_given_ratio-ok (some x) name = validate_ratio-ok x name

  pub record IsClassification (r : ClassificationRecord F) : Type 0 where
    pub feature : (n : ℕ) × (r.telemetry_feature_id ≡ pos (suc n))
    pub state : model_state_label r.traffic_state ≡ some r.state_label
    pub confidence : IsRatio r.confidence
    pub version : (r.model_version == "") ≡ false
    pub model_state : given (λ s. not (is_some (model_state_label s))) r.model_traffic_state ≡ false
    pub model_confidence : IfGiven IsRatio r.model_confidence
    pub evidence : IsRatio r.accident_evidence_score
    pub provenance : IsProvenance r.data_origin r.synthetic_scenario

  -- A classification is accepted exactly when its identifier is positive, its label is the one of
  -- its state among the three states of the model (so never Accident), its model's state is one of
  -- the three if given, its confidences and score are within [0, 1], its version is not empty, and
  -- its origin and scenario fit together.
  classification_record-ok :
      (r : ClassificationRecord F) → (classification_record r ≡ ok tt) ↔ IsClassification r
  unfolding classification_record classification_checks
  classification_record-ok r = (
    (λ h.
        let (c1, (c2, (c3, (c4, (c5, (c6, (c7, (c8, _)))))))) =
          (in_order-ok (classification_checks r)).0 h in
        record {
          feature = (positive r.telemetry_feature_id).0 ((raise_if-ok _ _).0 c1);
          state = (validate_label-ok r.traffic_state r.state_label).0 c2;
          confidence = (validate_ratio-ok r.confidence _).0 c3;
          version = (raise_if-ok _ _).0 c4;
          model_state = (raise_if-ok _ _).0 c5;
          model_confidence = (validate_given_ratio-ok r.model_confidence _).0 c6;
          evidence = (validate_ratio-ok r.accident_evidence_score _).0 c7;
          provenance = (validate_origin-ok r.data_origin r.synthetic_scenario).0 c8;
        }),
    (λ v. (in_order-ok (classification_checks r)).1 (
      (raise_if-ok _ _).1 ((positive r.telemetry_feature_id).1 v.feature),
      (
        (validate_label-ok r.traffic_state r.state_label).1 v.state,
        (
          (validate_ratio-ok r.confidence _).1 v.confidence,
          (
            (raise_if-ok _ _).1 v.version,
            (
              (raise_if-ok _ _).1 v.model_state,
              (
                (validate_given_ratio-ok r.model_confidence _).1 v.model_confidence,
                (
                  (validate_ratio-ok r.accident_evidence_score _).1 v.evidence,
                  ((validate_origin-ok r.data_origin r.synthetic_scenario).1 v.provenance, tt),
                ),
              ),
            ),
          ),
        ),
      ),
    )),
  )
