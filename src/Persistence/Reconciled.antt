-- ===== src/Persistence/Reconciled.antt =====
-- `complete_reconciled_pipeline_run` of vaaet-persistence/src/vaaet_persistence/pipeline_runs.py. A
-- database answers the statement with the text of a run, a number if it is a UUID, or fails with an
-- SQLSTATE; `uuid5` is the identifier that the standard library makes of a name.
use vaaet.Prelude.{
  if◌then◌else◌, length, Result, ok, err, ◌>>=◌, ◌>>◌, raise_if, ◌==◌, ℕ, String, ◌≡◌, refl, ap,
  ◌∙◌, inl, inr, Bool, true, false, not, Option, none, some, [], ◌∷◌, bind-eq-ok, raise_if-ok,
  if-eq-ok, ok-injective, not-false, nat_key, string_key,
}
use vaaet.Prelude.Text.{concat, codes}
use vaaet.Persistence.Metadata.{
  PipelineWorkflow, collection, inference, training, review, RunError, value_error,
  persistence_conflict, database_operation,
}
use vaaet.Persistence.Runs.{PipelineRunOutcome}

-- The parameters of the statement.
pub record Reconciliation : Type 0 where
  pub original_run_id : ℕ
  pub reconciliation_run_id : ℕ
  pub application_version : String
  pub operation : String
  pub content_fingerprint : String
  pub output_rows : ℕ
  pub model_revision : Option String

abbrev pub Database : Type 0
Database = Reconciliation → Result String (Option ℕ)

abbrev pub writes_data : PipelineWorkflow → Bool
writes_data collection = true
writes_data inference = true
writes_data review = true
writes_data training = false

abbrev pub uuid_of : Option ℕ → Result RunError ℕ
uuid_of none = err value_error
uuid_of (some i) = ok i

-- `_raise_pipeline_database_error`
abbrev pub raise_database_error : Result String (Option ℕ) → Result RunError (Option ℕ)
raise_database_error (ok resolved) = ok resolved
raise_database_error (err sqlstate) =
    if sqlstate == "23505" then err persistence_conflict else err (database_operation sqlstate)

-- The caller's connection goes before the engine.
abbrev pub chosen : Option Database → Database → Database
chosen none engine = engine
chosen (some connection) engine = connection

unfoldable pub reconciliation_of :
    (uuid5 : String → ℕ) (print_uuid : ℕ → String)
    → ℕ
    → (application_version operation content_fingerprint : String) → (output_rows : ℕ)
    → Option String
    → Reconciliation
reconciliation_of uuid5 print_uuid run_id application_version operation content_fingerprint
      output_rows revision =
    record {
      original_run_id = run_id;
      reconciliation_run_id = uuid5 (
          concat (
            "vaaet:persistence-reconciliation:"
            ∷ print_uuid run_id
            ∷ ":"
            ∷ content_fingerprint
            ∷ []));
      application_version = application_version;
      operation = operation;
      content_fingerprint = content_fingerprint;
      output_rows = output_rows;
      model_revision = revision;
    }

unfoldable pub outcome_of : Reconciliation → ℕ → PipelineRunOutcome
outcome_of payload resolved = record {
  run_id = payload.original_run_id;
  work_succeeded = true;
  audit_complete = true;
  output_rows = some payload.output_rows;
  model_revision = payload.model_revision;
  audit_error_category = none;
  reconciliation_run_id = if resolved == payload.original_run_id then none else some resolved;
}

unfoldable pub complete_reconciled_pipeline_run :
    (uuid5 : String → ℕ) (print_uuid : ℕ → String) (connection : Option Database)
    (engine : Database) (run_id : Option ℕ) (workflow : PipelineWorkflow)
    (application_version operation content_fingerprint : String) (output_rows : ℕ)
    (revision : Option String)
    → Result RunError PipelineRunOutcome
complete_reconciled_pipeline_run uuid5 print_uuid connection engine run_id workflow
      application_version operation content_fingerprint output_rows revision =
    uuid_of run_id >>= λ original.
    raise_if (not (writes_data workflow)) value_error
    >> raise_if (not (length (codes content_fingerprint) == 64)) value_error
    >> (let payload =
          reconciliation_of uuid5 print_uuid original application_version operation
            content_fingerprint output_rows revision in
        raise_database_error (chosen connection engine payload) >>= λ resolved.
        uuid_of resolved >>= λ id. ok (outcome_of payload id))

answered_by :
    (answer : Result String (Option ℕ)) (resolved : Option ℕ)
    → raise_database_error answer ≡ ok resolved
    → answer ≡ ok resolved
answered_by (ok r) resolved h = cc
answered_by (err sqlstate) resolved h = elim (if-eq-ok (sqlstate == "23505") _ _ h) [
  | inl (_, bad) ↦ absurd (cc)
  | inr (_, bad) ↦ absurd (cc)
]

uuid_of-ok : (o : Option ℕ) (i : ℕ) → uuid_of o ≡ ok i → o ≡ some i
uuid_of-ok none i h = cc
uuid_of-ok (some j) i h = cc

-- A run is reconciled only by the answer to a statement with its own receipt, and the conclusion
-- names another run exactly where the database answered with one.
pub complete_reconciled_pipeline_run-answered :
    (uuid5 : String → ℕ) (print_uuid : ℕ → String) (connection : Option Database)
    (engine : Database) (run_id : Option ℕ) (workflow : PipelineWorkflow)
    (application_version operation content_fingerprint : String) (output_rows : ℕ)
    (revision : Option String) (outcome : PipelineRunOutcome)
    → complete_reconciled_pipeline_run uuid5 print_uuid connection engine run_id workflow
        application_version operation content_fingerprint output_rows revision
      ≡ ok outcome
    → (payload : Reconciliation) × (resolved : ℕ) × (run_id ≡ some payload.original_run_id)
      × (payload.content_fingerprint ≡ content_fingerprint)
      × (writes_data workflow ≡ true)
      × (chosen connection engine payload ≡ ok (some resolved))
      × (outcome_of payload resolved ≡ outcome)
unfolding complete_reconciled_pipeline_run reconciliation_of
complete_reconciled_pipeline_run-answered uuid5 print_uuid connection engine (some i) workflow
      application_version operation content_fingerprint output_rows revision outcome h =
    let payload =
      reconciliation_of uuid5 print_uuid i application_version operation content_fingerprint
        output_rows revision in
    let writes = raise_if (not (writes_data workflow)) value_error in
    let (_, guards, rest) =
      bind-eq-ok (writes >> raise_if (not (length (codes content_fingerprint) == 64)) value_error) _
        h in
    let (_, allowed, _) = bind-eq-ok writes _ guards in
    let (resolved, answered, known) =
      bind-eq-ok (raise_database_error (chosen connection engine payload)) _ rest in
    let (id, is_uuid, same) =
      bind-eq-ok (uuid_of resolved) (λ id. ok (outcome_of payload id)) known in
    (
      payload,
      id,
      refl,
      refl,
      (not-false _).0 ((raise_if-ok _ _).0 allowed),
      answered_by _ _ answered ∙ ap ok (uuid_of-ok resolved id is_uuid),
      ok-injective _ _ same,
    )
complete_reconciled_pipeline_run-answered uuid5 print_uuid connection engine none workflow
      application_version operation content_fingerprint output_rows revision outcome h =
    cc
