-- ===== src/Persistence/Audit.antt =====
-- What the audit of a run shows of its work.
use vaaet.Prelude.{
  if◌then◌else◌, Option-cases, is_some, ok, err, succeeds, ℕ, String, ◌≡◌, refl, subst, inl, inr,
  Bool, true, false, not, Option, none, some, arith,
}
use vaaet.Persistence.Metadata.{raised, Outcome}
use vaaet.Persistence.Runs.{
  PipelineRunOutcome, PipelineRunHandle, set_outcome, conclude, run_body, result_of, Manifest,
  is_terminal, local_payload, write_local_manifest, Backend, local_manifests, Failures,
  start_pipeline_run, finish_pipeline_run, finalize_pipeline_run_outcome, Run, pipeline_run,
}

abbrev final_status : Bool → String
final_status work_succeeded = if work_succeeded then "succeeded" else "failed"

final_status-is_terminal :
    (work_succeeded : Bool) → is_terminal (final_status work_succeeded) ≡ true
unfolding is_terminal
final_status-is_terminal true = refl
final_status-is_terminal false = refl

-- What an outcome says of a handle's run.
pub record IsConclusion (h : PipelineRunHandle) (work_succeeded audited : Bool)
    (o : PipelineRunOutcome) : Type 0 where
  pub run : o.run_id ≡ h.id
  pub rows : o.output_rows ≡ h.output_rows
  pub revision : o.model_revision ≡ h.model_revision
  pub work : o.work_succeeded ≡ work_succeeded
  pub audit : o.audit_complete ≡ audited
  pub category : is_some o.audit_error_category ≡ not audited

conclude-IsConclusion :
    (h : PipelineRunHandle) (work_succeeded : Bool) (m : Outcome)
    → (o : PipelineRunOutcome) × ((conclude h work_succeeded m).outcome ≡ some o)
      × IsConclusion h work_succeeded (succeeds m) o
unfolding conclude set_outcome
conclude-IsConclusion h work_succeeded (ok u) = (
  _,
  refl,
  record { run = refl; rows = refl; revision = refl; work = refl; audit = refl; category = refl },
)
conclude-IsConclusion h work_succeeded (err e) = (
  _,
  refl,
  record { run = refl; rows = refl; revision = refl; work = refl; audit = refl; category = refl },
)

-- However the audit of a run ends, there is a conclusion: about the work it is the one that was
-- passed, and it calls the audit complete exactly if the run could be finished.
pub finalize_pipeline_run_outcome-IsConclusion :
    (backend : Backend) (failures : Failures) (h : PipelineRunHandle) (work_succeeded : Bool)
    (started_at now : ℕ) (category : Option String) (disk : Option Manifest)
    → (o : PipelineRunOutcome) × ((finalize_pipeline_run_outcome backend failures h work_succeeded
          started_at now category disk).1.outcome
        ≡ some o)
      × IsConclusion h work_succeeded
          (succeeds
            (finish_pipeline_run backend failures h
              (final_status work_succeeded)
              started_at
              now
              category
              disk).1)
          o
unfolding finalize_pipeline_run_outcome
finalize_pipeline_run_outcome-IsConclusion backend failures h work_succeeded started_at now category
      disk =
    conclude-IsConclusion h work_succeeded
      (finish_pipeline_run backend failures h (final_status work_succeeded) started_at now category
        disk).1

-- A run of a body on local manifests that holds none of this run yet.
pub record IsRun (body : Option String) (r : Run) : Type 0 where
  -- the outcome of a body that ran is the outcome of the run
  pub kept : r.body_ran ≡ true → r.result ≡ result_of body
  -- without a manifest of its start, the body does not run and the run raises
  pub refused : r.body_ran ≡ false → (succeeds r.result ≡ false) × (r.disk ≡ none)
  -- the conclusion tells the work from its audit, and the manifest on disk agrees with both
  pub concluded :
      r.body_ran ≡ true
      → (o : PipelineRunOutcome) × (m : Manifest) × (r.outcome ≡ some o)
        × (r.disk ≡ some m)
        × (o.work_succeeded ≡ not (is_some body))
        × (m.status ≡ (if o.audit_complete then final_status (not (is_some body)) else "running"))

abbrev failing : Option String → Option String → Failures
failing sqlstate disk_error = record { sqlstate = sqlstate; disk_error = disk_error }

run_body-IsRun :
    (sqlstate disk_error : Option String) (first h : PipelineRunHandle) (started_at now : ℕ)
    (body : Option String)
    → IsRun body (
        run_body local_manifests
          (failing sqlstate disk_error)
          h
          started_at
          now
          body
          (some (local_payload first "running" started_at started_at none)))
unfolding run_body finalize_pipeline_run_outcome finish_pipeline_run write_local_manifest
    local_payload conclude set_outcome is_terminal
run_body-IsRun sqlstate none first h started_at now none = record {
  kept = λ p. refl;
  refused = λ p. absurd (cc);
  concluded = λ p. (_, _, refl, refl, refl, refl);
}
run_body-IsRun sqlstate none first h started_at now (some e) = record {
  kept = λ p. refl;
  refused = λ p. absurd (cc);
  concluded = λ p. (_, _, refl, refl, refl, refl);
}
run_body-IsRun sqlstate (some d) first h started_at now none = record {
  kept = λ p. refl;
  refused = λ p. absurd (cc);
  concluded = λ p. (_, _, refl, refl, refl, refl);
}
run_body-IsRun sqlstate (some d) first h started_at now (some e) = record {
  kept = λ p. refl;
  refused = λ p. absurd (cc);
  concluded = λ p. (_, _, refl, refl, refl, refl);
}

-- A run on local manifests, whatever fails on disk, however its body ends and whatever it sets:
-- its outcome is the body's; without a manifest of its start the body does not run; its conclusion
-- says whether the body succeeded; and the manifest says so too if the audit is complete, and else
-- still says that the run is running.
pub pipeline_run-IsRun :
    (at_start at_end : Failures) (h : PipelineRunHandle) (started_at now : ℕ)
    (set : PipelineRunHandle → PipelineRunHandle) (body : Option String)
    → IsRun body (pipeline_run local_manifests at_start at_end h started_at now set body none)
unfolding pipeline_run start_pipeline_run write_local_manifest
pipeline_run-IsRun at_start at_end h started_at now set body =
    elim (Option-cases at_start.disk_error) [
      | inr (e, broken) ↦
          let aborted : Run = record {
            disk = none;
            body_ran = false;
            outcome = none;
            result = err (raised e);
          } in
          let same : aborted
              ≡ pipeline_run local_manifests at_start at_end h started_at now set body none =
            ground arith in
          subst (IsRun body) same (record {
            kept = λ p. absurd (cc);
            refused = λ p. (refl, refl);
            concluded = λ p. absurd (cc);
          })
      | inl works ↦
          let opened : Option Manifest =
            some (local_payload h "running" started_at started_at none) in
          let same : run_body local_manifests at_end (set h) started_at now body opened
              ≡ pipeline_run local_manifests at_start at_end h started_at now set body none =
            ground arith in
          subst (IsRun body) same
            (run_body-IsRun at_end.sqlstate at_end.disk_error h (set h) started_at now body)
    ]
