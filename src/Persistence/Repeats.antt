-- ===== src/Persistence/Repeats.antt =====
-- The manifest of a run that ended: what a second write of it meets.
use vaaet.Prelude.{
  Bool-cases, succeeds, nat_key, string_key, String, ◌≡◌, refl, ap, subst, ◌↔◌, inl, inr, Bool,
  true, false, ◌&&◌, Option, none, some, arith, option_eq_iff, beq_refl, ℤ, pos, negsuc,
}
use vaaet.Persistence.Metadata.{
  PipelineWorkflow, collection, inference, training, review, PipelineRunMetadata, same_workflow,
  same_input, same_metadata,
}
use vaaet.Persistence.Runs.{Manifest, is_stable, is_terminal, write_local_manifest}

same_workflow-eq : (v w : PipelineWorkflow) → same_workflow v w ≡ true → v ≡ w
same_workflow-eq collection collection h = refl
same_workflow-eq collection inference h = absurd (cc)
same_workflow-eq collection training h = absurd (cc)
same_workflow-eq collection review h = absurd (cc)
same_workflow-eq inference collection h = absurd (cc)
same_workflow-eq inference inference h = refl
same_workflow-eq inference training h = absurd (cc)
same_workflow-eq inference review h = absurd (cc)
same_workflow-eq training collection h = absurd (cc)
same_workflow-eq training inference h = absurd (cc)
same_workflow-eq training training h = refl
same_workflow-eq training review h = absurd (cc)
same_workflow-eq review collection h = absurd (cc)
same_workflow-eq review inference h = absurd (cc)
same_workflow-eq review training h = absurd (cc)
same_workflow-eq review review h = refl

same_workflow_refl : (w : PipelineWorkflow) → same_workflow w w ≡ true
same_workflow_refl collection = refl
same_workflow_refl inference = refl
same_workflow_refl training = refl
same_workflow_refl review = refl

same_input-eq : (x y : Option ℤ) → same_input x y ≡ true → x ≡ y
same_input-eq none none h = refl
same_input-eq none (some n) h = absurd (cc)
same_input-eq (some m) none h = absurd (cc)
same_input-eq (some (pos m)) (some (pos n)) h =
    let same : m ≡ n = ground arith in ap (λ k. some (pos k)) same
same_input-eq (some (pos m)) (some (negsuc n)) h = absurd (cc)
same_input-eq (some (negsuc m)) (some (pos n)) h = absurd (ground arith)
same_input-eq (some (negsuc m)) (some (negsuc n)) h =
    let same : m ≡ n = ground arith in ap (λ k. some (negsuc k)) same

same_input_refl : (x : Option ℤ) → same_input x x ≡ true
same_input_refl none = refl
same_input_refl (some (pos m)) = ground arith
same_input_refl (some (negsuc m)) = ground arith

-- Metadata with the model revision of other metadata: a payload names its handle's revision instead.
abbrev pub with_revision_of : PipelineRunMetadata → PipelineRunMetadata → PipelineRunMetadata
with_revision_of n m = record m { model_revision = n.model_revision }

both_true : (a b : Bool) → (a && b) ≡ true → (a ≡ true) × (b ≡ true)
both_true true b h = (refl, h)
both_true false b h = absurd (cc)

same_metadata-eq : (m n : PipelineRunMetadata) → same_metadata m n ≡ true → with_revision_of n m ≡ n
unfolding same_metadata
same_metadata-eq m n h =
    let (until_feature_schema_version, model_version) = both_true _ _ h in
    let (until_telemetry_schema_version, feature_schema_version) =
      both_true _ _ until_feature_schema_version in
    let (until_input_rows, telemetry_schema_version) =
      both_true _ _ until_telemetry_schema_version in
    let (until_clip_id, input_rows) = both_true _ _ until_input_rows in
    let (until_source_kind, clip_id) = both_true _ _ until_clip_id in
    let (until_git_commit, source_kind) = both_true _ _ until_source_kind in
    let (until_application_version, git_commit) = both_true _ _ until_git_commit in
    let (until_application_name, application_version) = both_true _ _ until_application_version in
    let (same, application_name) = both_true _ _ until_application_name in
    rw
      (
        same_workflow-eq m.workflow n.workflow same,
        (string_key.test_iff m.application_name n.application_name).0 application_name,
        (string_key.test_iff m.application_version n.application_version).0 application_version,
        (option_eq_iff m.git_commit n.git_commit).0 git_commit,
        (option_eq_iff m.source_kind n.source_kind).0 source_kind,
        (option_eq_iff m.clip_id n.clip_id).0 clip_id,
        same_input-eq m.input_rows n.input_rows input_rows,
        (option_eq_iff m.telemetry_schema_version n.telemetry_schema_version).0
            telemetry_schema_version,
        (option_eq_iff m.feature_schema_version n.feature_schema_version).0 feature_schema_version,
        (option_eq_iff m.model_version n.model_version).0 model_version,
      )
      refl

same_metadata_refl : (m n : PipelineRunMetadata) → same_metadata m (with_revision_of n m) ≡ true
unfolding same_metadata
same_metadata_refl m n =
    let workflow = same_workflow_refl m.workflow in
    let application_name = beq_refl m.application_name in
    let application_version = beq_refl m.application_version in
    let git_commit = (option_eq_iff m.git_commit m.git_commit).1 refl in
    let source_kind = (option_eq_iff m.source_kind m.source_kind).1 refl in
    let clip_id = (option_eq_iff m.clip_id m.clip_id).1 refl in
    let telemetry_schema_version =
      (option_eq_iff m.telemetry_schema_version m.telemetry_schema_version).1 refl in
    let feature_schema_version =
      (option_eq_iff m.feature_schema_version m.feature_schema_version).1 refl in
    let model_version = (option_eq_iff m.model_version m.model_version).1 refl in
    let input_rows = same_input_refl m.input_rows in
    rw
      (
        workflow, application_name, application_version, git_commit, source_kind, clip_id,
        input_rows, telemetry_schema_version, feature_schema_version, model_version,
      )
      refl

-- The payload at the time at which the existing manifest was completed.
abbrev pub repeated : Manifest → Manifest → Manifest
repeated payload existing = record payload {
  completed_at = existing.completed_at;
  metadata = with_revision_of existing.metadata payload.metadata;
}

is_stable_iff :
    (payload existing : Manifest)
    → (is_stable payload existing ≡ true) ↔ (repeated payload existing ≡ existing)
unfolding is_stable
is_stable_iff payload existing = (is_repeated, is_accepted)
  where
    is_repeated : is_stable payload existing ≡ true → repeated payload existing ≡ existing
    is_repeated h =
        let status = (string_key.test_iff payload.status existing.status).0 (ground arith) in
        let started_at =
          (nat_key.test_iff payload.started_at existing.started_at).0 (ground arith) in
        let output_rows =
          (option_eq_iff payload.output_rows existing.output_rows).0 (ground arith) in
        let error_category =
          (option_eq_iff payload.error_category existing.error_category).0 (ground arith) in
        let model_revision =
          (option_eq_iff payload.model_revision existing.model_revision).0 (ground arith) in
        let metadata = same_metadata-eq payload.metadata existing.metadata (ground arith) in
        rw (status, started_at, output_rows, error_category, model_revision, metadata) refl

    accepts_itself : is_stable payload (repeated payload existing) ≡ true
    accepts_itself =
        let status = beq_refl payload.status in
        let started_at = beq_refl payload.started_at in
        let output_rows = (option_eq_iff payload.output_rows payload.output_rows).1 refl in
        let error_category = (option_eq_iff payload.error_category payload.error_category).1 refl in
        let model_revision = (option_eq_iff payload.model_revision payload.model_revision).1 refl in
        let metadata = same_metadata_refl payload.metadata existing.metadata in
        rw (status, started_at, output_rows, error_category, model_revision, metadata) refl

    is_accepted : repeated payload existing ≡ existing → is_stable payload existing ≡ true
    is_accepted same = subst (λ e. is_stable payload e ≡ true) same accepts_itself

-- A terminal manifest is never changed, whatever is written and whatever the disk would do. The write
-- succeeds exactly if its payload is the same manifest, but for the time at which it was completed:
-- nothing else of it, its metadata included, may differ.
pub write_local_manifest-terminal :
    (disk_error : Option String) (payload existing : Manifest)
    → is_terminal existing.status ≡ true
    → ((write_local_manifest disk_error payload (some existing)).0 ≡ some existing)
      × ((succeeds (write_local_manifest disk_error payload (some existing)).1 ≡ true)
          ↔ (repeated payload existing ≡ existing))
unfolding write_local_manifest
write_local_manifest-terminal disk_error payload existing h =
    let (forward, backward) = is_stable_iff payload existing in
    elim (Bool-cases (is_stable payload existing)) [
      | inl same ↦ (ground arith, ((λ _. forward same), (λ _. ground arith)))
      | inr other ↦ (
        ground arith,
        (
          (λ accepted. absurd (ground arith)),
          (λ repeats. absurd (ground (arith, backward repeats))),
        ),
      )
    ]
