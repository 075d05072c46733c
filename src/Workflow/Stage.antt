-- ===== src/Workflow/Stage.antt =====
-- What `local_stage_attempt` of vaaet-ml/src/vaaet_ml/workflow_state.py leaves on disk.
use vaaet.Prelude.{
  if◌then◌else◌, is_some, All, ok, err, succeeds, ℕ, String, ◌≡◌, refl, Bool, true, false, not,
  ◌&&◌, Option, none, some, List, [], ◌∷◌, map,
}
use vaaet.Prelude.Text.{codes}
use vaaet.Workflow.{WorkflowStageStatus, pending, running, succeeded, failed, raised, Outcome}
use vaaet.Workflow.Attempt.{
  Attempt, Disk, Manifest, attempt_if_valid, finish_attempt, is_stage_name, is_unfinished,
  local_stage_attempt, may_follow, may_write, payload, write_stage_manifest,
}
use vaaet.Workflow.History.{IsHistory, unwritten, first_written, then_written}

abbrev pub statuses : Disk → List WorkflowStageStatus
statuses disk = map (λ m. m.status) disk

abbrev pub outcome_by : Option String → Outcome
outcome_by none = ok tt
outcome_by (some e) = err (raised e)

abbrev pub status_of : Option String → WorkflowStageStatus
status_of none = succeeded
status_of (some e) = failed

-- What an attempt leaves behind: `is_valid` tells whether its name is one of a stage, and the others
-- are what the disk raises at its three writes.
pub record IsAttempt (is_valid : Bool) (at_pending at_running at_end : Option String)
    (rows : Option ℕ) (body : Option String) (a : Attempt) : Type 0 where
  pub history : IsHistory a.disk
  pub ran : a.body_ran ≡ (is_valid && not (is_some at_pending) && not (is_some at_running))
  pub skipped :
      a.body_ran ≡ false
      → (succeeds a.outcome ≡ false)
        × (statuses a.disk ≡ (if is_valid && not (is_some at_pending) then pending ∷ [] else []))
  pub performed :
      a.body_ran ≡ true
      → (a.outcome ≡ outcome_by body)
        × (statuses a.disk ≡ (
            if not (is_some at_end)
            then status_of body ∷ running ∷ pending ∷ []
            else running ∷ pending ∷ []))
  pub complete : a.audit_complete ≡ (a.body_ran && not (is_some at_end))
  pub audited :
      a.audit_complete ≡ true
      → (m : Manifest) × (older : Disk) × (a.disk ≡ m ∷ older)
        × (m.is_completed ≡ true)
        × (m.output_rows ≡ rows)
        × (m.error_category ≡ body)
  pub unaudited : a.audit_complete ≡ false → All (λ m. m.is_completed ≡ false) a.disk

attempt_if_valid-IsAttempt :
    (is_valid : Bool) (at_pending at_running at_end : Option String) (rows : Option ℕ)
    (body : Option String)
    → IsAttempt is_valid at_pending at_running at_end rows body
        (attempt_if_valid is_valid at_pending at_running at_end rows body)
unfolding attempt_if_valid finish_attempt write_stage_manifest may_write payload may_follow
    is_unfinished
attempt_if_valid-IsAttempt false at_pending at_running at_end rows body = record {
  history = unwritten;
  ran = refl;
  skipped = λ _. (refl, refl);
  performed = λ p. absurd (cc);
  complete = refl;
  audited = λ p. absurd (cc);
  unaudited = λ _. tt;
}
attempt_if_valid-IsAttempt true (some e) at_running at_end rows body = record {
  history = unwritten;
  ran = refl;
  skipped = λ _. (refl, refl);
  performed = λ p. absurd (cc);
  complete = refl;
  audited = λ p. absurd (cc);
  unaudited = λ _. tt;
}
attempt_if_valid-IsAttempt true none (some e) at_end rows body = record {
  history = first_written _ refl;
  ran = refl;
  skipped = λ _. (refl, refl);
  performed = λ p. absurd (cc);
  complete = refl;
  audited = λ p. absurd (cc);
  unaudited = λ _. (refl, tt);
}
attempt_if_valid-IsAttempt true none none none rows none = record {
  history = then_written _ _ _ refl refl (then_written _ _ [] refl refl (first_written _ refl));
  ran = refl;
  skipped = λ p. absurd (cc);
  performed = λ _. (refl, refl);
  complete = refl;
  audited = λ p. (_, _, refl, refl, refl, refl);
  unaudited = λ p. absurd (cc);
}
attempt_if_valid-IsAttempt true none none none rows (some b) = record {
  history = then_written _ _ _ refl refl (then_written _ _ [] refl refl (first_written _ refl));
  ran = refl;
  skipped = λ p. absurd (cc);
  performed = λ _. (refl, refl);
  complete = refl;
  audited = λ p. (_, _, refl, refl, refl, refl);
  unaudited = λ p. absurd (cc);
}
attempt_if_valid-IsAttempt true none none (some e) rows none = record {
  history = then_written _ _ [] refl refl (first_written _ refl);
  ran = refl;
  skipped = λ p. absurd (cc);
  performed = λ _. (refl, refl);
  complete = refl;
  audited = λ p. absurd (cc);
  unaudited = λ p. (refl, (refl, tt));
}
attempt_if_valid-IsAttempt true none none (some e) rows (some b) = record {
  history = then_written _ _ [] refl refl (first_written _ refl);
  ran = refl;
  skipped = λ p. absurd (cc);
  performed = λ _. (refl, refl);
  complete = refl;
  audited = λ p. absurd (cc);
  unaudited = λ p. (refl, (refl, tt));
}

-- An attempt at a stage, whatever fails on disk and however its body ends. The body runs exactly if
-- the name is one of a stage and the manifests `pending` and `running` are written, which the disk
-- then holds in this order; otherwise the attempt raises, and at most `pending` is on disk. The
-- outcome of a body that ran is the attempt's. The last manifest is succeeded or failed as the body
-- was, with its rows and its error, unless the disk refuses it: then the audit is incomplete and the
-- disk keeps no completed manifest.
pub local_stage_attempt-IsAttempt :
    (stage : String) (at_pending at_running at_end : Option String) (rows : Option ℕ)
    (body : Option String)
    → IsAttempt
        (is_stage_name (codes stage))
        at_pending
        at_running
        at_end
        rows
        body
        (local_stage_attempt stage at_pending at_running at_end rows body)
unfolding local_stage_attempt
local_stage_attempt-IsAttempt stage at_pending at_running at_end rows body =
    attempt_if_valid-IsAttempt (is_stage_name (codes stage)) at_pending at_running at_end rows body
