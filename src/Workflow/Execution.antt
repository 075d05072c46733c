-- ===== src/Workflow/Execution.antt =====
-- What an attempt of inference satisfies after any calls of its methods.
use vaaet.Prelude.{
  if◌then◌else◌, Bool-cases, is_empty, ok, raise_if, ℕ, String, ◌≡◌, refl, sym, subst, inl, inr,
  Bool, true, false, not, ◌&&◌, ◌||◌, List, [], ◌∷◌, arith, bind-eq-ok, Result-cases,
}
use vaaet.Prelude.Text.{codes}
use vaaet.Workflow.{
  is_sha256, started_execution, value_error, WorkflowStageStatus, running, succeeded, failed, ready,
  insufficient_context, is_classifying, is_ready, is_running, is_succeeded, Outcome,
  InferenceExecutionState, start_execution, fail, publish_verified_classification, publish,
  publish_insufficient_context, can_persist, begin_persistence, complete_persistence,
  fail_persistence, can_review,
}

-- A call that changes the state.
pub data Call (R : Type 0) : Type 0 where
  publishing : List R → Outcome → Call R
  publishing_insufficient : Call R
  failing : Call R
  beginning : Call R
  completing : Bool → Call R
  failing_persistence : Call R

module _ {R : Type 0} where
  unfoldable pub run_call : Call R → InferenceExecutionState R → InferenceExecutionState R
  run_call (publishing candidate parity) s = (publish candidate parity s).0
  run_call publishing_insufficient s = (publish_insufficient_context s).0
  run_call failing s = fail s
  run_call beginning s = (begin_persistence s).0
  run_call (completing audit) s = (complete_persistence audit s).0
  run_call failing_persistence s = fail_persistence s

  -- The states that calls lead to, from one that construction gave.
  pub data Reaches (frame : List R) : List (Call R) → InferenceExecutionState R → Type 0 where
    started :
        (pipeline_run_id : ℕ) (model_revision : String) (attempt_id : ℕ)
        (s : InferenceExecutionState R)
        → start_execution pipeline_run_id model_revision attempt_id frame ≡ ok s
        → Reaches frame [] s
    called :
        (c : Call R) (older : List (Call R)) (s : InferenceExecutionState R)
        → Reaches frame older s
        → Reaches frame (c ∷ older) (run_call c s)

  -- Some call published these rows, and their parity held.
  pub data Published (rows : List R) : List (Call R) → Type 0 where
    here : (older : List (Call R)) → Published rows (publishing rows (ok tt) ∷ older)
    there : (c : Call R) (older : List (Call R)) → Published rows older → Published rows (c ∷ older)

  pub record IsExecution (calls : List (Call R)) (s : InferenceExecutionState R) : Type 0 where
    pub rows_if_ready : is_ready s.status ≡ not (is_empty s.classified)
    pub persists_if_ready :
        is_running s.persistence_status || is_succeeded s.persistence_status ≡ true
        → is_ready s.status ≡ true
    pub audited_if_done :
        s.persistence_audit_complete ≡ true → is_succeeded s.persistence_status ≡ true
    pub verified : is_ready s.status ≡ true → Published s.classified calls

  start-IsExecution :
      (pipeline_run_id : ℕ) (model_revision : String) (attempt_id : ℕ) (frame : List R)
      (s : InferenceExecutionState R)
      → start_execution pipeline_run_id model_revision attempt_id frame ≡ ok s
      → IsExecution [] s
  unfolding start_execution
  start-IsExecution pipeline_run_id model_revision attempt_id frame s h =
      let guard : Outcome = raise_if (not (is_sha256 (codes model_revision))) value_error in
      let (_, _, built) = bind-eq-ok guard _ h in
      let same : started_execution pipeline_run_id model_revision attempt_id ≡ s = cc in
      subst (IsExecution []) same (record {
        rows_if_ready = refl;
        persists_if_ready = λ p. absurd (cc);
        audited_if_done = λ p. absurd (cc);
        verified = λ p. absurd (cc);
      })

  keep-IsExecution :
      (c : Call R) (older : List (Call R)) (s : InferenceExecutionState R)
      → IsExecution older s
      → IsExecution (c ∷ older) s
  keep-IsExecution c older s h = record {
    rows_if_ready = h.rows_if_ready;
    persists_if_ready = h.persists_if_ready;
    audited_if_done = h.audited_if_done;
    verified = λ p. there c older (h.verified p);
  }

  fail-IsExecution :
      (calls : List (Call R)) (s : InferenceExecutionState R) → IsExecution calls (fail s)
  unfolding fail
  fail-IsExecution calls s = record {
    rows_if_ready = refl;
    persists_if_ready = λ p. absurd (cc);
    audited_if_done = λ p. absurd (cc);
    verified = λ p. absurd (cc);
  }

  -- A change of persistence that respects what was classified.
  persist-IsExecution :
      (c : Call R) (older : List (Call R)) (s : InferenceExecutionState R)
      (persistence : WorkflowStageStatus) (audit : Bool)
      → (is_running persistence || is_succeeded persistence ≡ true → is_ready s.status ≡ true)
      → (audit ≡ true → is_succeeded persistence ≡ true)
      → IsExecution older s
      → IsExecution
          (c ∷ older)
          (record s { persistence_status = persistence; persistence_audit_complete = audit })
  persist-IsExecution c older s persistence audit persists done h = record {
    rows_if_ready = h.rows_if_ready;
    persists_if_ready = persists;
    audited_if_done = done;
    verified = λ p. there c older (h.verified p);
  }

  publish-IsExecution :
      (candidate : List R) (parity : Outcome) (older : List (Call R))
      (s : InferenceExecutionState R)
      → IsExecution older s
      → IsExecution (publishing candidate parity ∷ older) (publish candidate parity s).0
  unfolding publish publish_verified_classification
  publish-IsExecution candidate parity older s h = elim (Bool-cases (is_classifying s.status)) [
    | inr terminal ↦
        let same : s ≡ (publish candidate parity s).0 = ground arith in
        subst (IsExecution _) same (keep-IsExecution _ older s h)
    | inl unfinished ↦ elim (Result-cases parity) [
      | inl (e, broken) ↦
          let same : fail s ≡ (publish candidate parity s).0 = ground arith in
          subst (IsExecution _) same (fail-IsExecution _ s)
      | inr (tt, holds) ↦
          let idle = h.persists_if_ready in
          let audited = h.audited_if_done in
          let after : InferenceExecutionState R = record s {
            classified = candidate;
            status = if is_empty candidate then insufficient_context else ready;
          } in
          let same : after ≡ (publish candidate parity s).0 = ground arith in
          subst (IsExecution _) same (record {
            rows_if_ready = ground arith;
            persists_if_ready = λ p. absurd (ground arith);
            audited_if_done = audited;
            verified = λ p.
                subst (λ m. Published candidate (publishing candidate m ∷ older)) (sym holds)
                  (here older);
          })
    ]
  ]

  insufficient-IsExecution :
      (older : List (Call R)) (s : InferenceExecutionState R)
      → IsExecution older s
      → IsExecution (publishing_insufficient ∷ older) (publish_insufficient_context s).0
  unfolding publish_insufficient_context
  insufficient-IsExecution older s h = elim (Bool-cases (is_classifying s.status)) [
    | inr terminal ↦
        let same : s ≡ (publish_insufficient_context s).0 = ground arith in
        subst (IsExecution _) same (keep-IsExecution _ older s h)
    | inl unfinished ↦
        let rows = h.rows_if_ready in
        let idle = h.persists_if_ready in
        let audited = h.audited_if_done in
        let after : InferenceExecutionState R = record s { status = insufficient_context } in
        let same : after ≡ (publish_insufficient_context s).0 = ground arith in
        subst (IsExecution _) same (record {
          rows_if_ready = ground arith;
          persists_if_ready = λ p. absurd (ground arith);
          audited_if_done = audited;
          verified = λ p. absurd (cc);
        })
  ]

  begin-IsExecution :
      (older : List (Call R)) (s : InferenceExecutionState R)
      → IsExecution older s
      → IsExecution (beginning ∷ older) (begin_persistence s).0
  unfolding begin_persistence can_persist
  begin-IsExecution older s h =
      elim (Bool-cases (is_ready s.status && not (is_empty s.classified))) [
        | inl allowed ↦
            let same : record s { persistence_status = running; persistence_audit_complete = false }
                ≡ (begin_persistence s).0 =
              ground arith in
            subst (IsExecution _) same (
              persist-IsExecution beginning older s running false (λ _. ground arith)
                (λ p. absurd (cc)) h)
        | inr refused ↦
            let same : s ≡ (begin_persistence s).0 = ground arith in
            subst (IsExecution _) same (keep-IsExecution _ older s h)
      ]

  complete-IsExecution :
      (audit : Bool) (older : List (Call R)) (s : InferenceExecutionState R)
      → IsExecution older s
      → IsExecution (completing audit ∷ older) (complete_persistence audit s).0
  unfolding complete_persistence
  complete-IsExecution audit older s h = elim (Bool-cases (is_running s.persistence_status)) [
    | inl allowed ↦
        let idle = h.persists_if_ready in
        let same : record s { persistence_status = succeeded; persistence_audit_complete = audit }
            ≡ (complete_persistence audit s).0 =
          ground arith in
        subst (IsExecution _) same (
          persist-IsExecution (completing audit) older s succeeded audit (λ _. idle (ground arith))
            (λ p. refl) h)
    | inr refused ↦
        let same : s ≡ (complete_persistence audit s).0 = ground arith in
        subst (IsExecution _) same (keep-IsExecution _ older s h)
  ]

  -- Whatever calls of its methods an attempt of inference saw, in any order and with any failures:
  -- it has rows exactly while it is ready; these are rows of a call that published them with their
  -- parity verified; persistence runs or has succeeded only while it is ready; and its audit is
  -- complete only where persistence succeeded.
  pub run-IsExecution :
      (frame : List R) (calls : List (Call R)) (s : InferenceExecutionState R)
      → Reaches frame calls s
      → IsExecution calls s
  unfolding run_call fail_persistence
  run-IsExecution frame calls s (started pipeline_run_id model_revision attempt_id _ h) =
      start-IsExecution pipeline_run_id model_revision attempt_id frame s h
  run-IsExecution frame calls s (called (publishing candidate parity) older before h) =
      publish-IsExecution candidate parity older before (run-IsExecution frame older before h)
  run-IsExecution frame calls s (called publishing_insufficient older before h) =
      insufficient-IsExecution older before (run-IsExecution frame older before h)
  run-IsExecution frame calls s (called failing older before h) = fail-IsExecution calls before
  run-IsExecution frame calls s (called beginning older before h) =
      begin-IsExecution older before (run-IsExecution frame older before h)
  run-IsExecution frame calls s (called (completing audit) older before h) =
      complete-IsExecution audit older before (run-IsExecution frame older before h)
  run-IsExecution frame calls s (called failing_persistence older before h) =
      persist-IsExecution failing_persistence older before failed false (λ p. absurd (cc))
        (λ p. absurd (cc)) (run-IsExecution frame older before h)

  -- Results may be reviewed only if a call published them with their parity verified, and, where
  -- persistence is required, only once it has succeeded with a complete audit.
  pub can_review-Published :
      (require_persistence : Bool) (frame : List R) (calls : List (Call R))
      (s : InferenceExecutionState R)
      → Reaches frame calls s
      → can_review require_persistence s ≡ true
      → Published s.classified calls
        × (is_empty s.classified ≡ false)
        × (require_persistence ≡ true
            → is_succeeded s.persistence_status && s.persistence_audit_complete ≡ true)
  unfolding can_review can_persist
  can_review-Published require_persistence frame calls s reached allowed =
      let h = run-IsExecution frame calls s reached in
      (h.verified (ground arith), ground arith, (λ required. ground arith))
