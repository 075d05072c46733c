-- ===== src/Lib.antt =====
-- Verification of VAAET, the video traffic analysis laboratory: models of the code that decides,
-- in the order in which data flows through it, and the theorems about them.
--
-- vaaet-core follows vehicles in video, produces telemetry of each minute, assigns it to
-- continuous segments and turns the classifier's probabilities into published traffic states.
-- vaaet-ml runs the workflows around it, and vaaet-persistence keeps the evidence of what they
-- wrote.
--
-- * Tracking (vaaet-core/src/vaaet/vision/tracking.py) is `Tracker`: `update` takes the detections
--   of a frame, `match_existing` pairs the nearest first, `unmatched_tracks` numbers new tracks
--   and `prune` forgets lost ones.
-- * ViewPlan (vaaet-core/src/vaaet/vision/view_plan.py) is `VideoViewPlan` with its segments: the
--   checks of `__post_init__`, `resolve` and `segment_index`; `covers` is `contains`.
--   ViewPlan.Calibration is `CameraCalibration` with its local scale, ViewPlan.Payload is
--   `from_mapping`.
-- * Motion (vaaet-core/src/vaaet/vision/speed.py) holds the decisions on a track's motion and the
--   robust summary of speeds; Motion.Smoothing is `SmoothedSpeedTracker`, Motion.Stationary is
--   `TrackMotionStateTracker`. Motion.Speed is `estimate_speed`, in Motion.Flow stands
--   `OpticalFlowEstimator` (vaaet-core/src/vaaet/vision/optical_flow.py).
-- * Telemetry (vaaet-core/src/vaaet/vision/telemetry.py) is `MinuteTelemetryAccumulator`; its
--   `observe_track` is split into the branches `observe_motion`, `observe_speed`, `add_ratio` and
--   `count_track`.
-- * Pipeline (vaaet-core/src/vaaet/vision/pipeline.py) is `VisionPipelineSession`, which composes
--   those parts: Pipeline.Packets holds the packets of a frame, Pipeline.Frame the filters from
--   `_perceive` to `_render`, Pipeline.Views is `_apply_view_plan`, Pipeline.Minutes is
--   `_complete_minute`, Pipeline.Run is `process_frame` and `run`. A session is a record;
--   `discarding_progress` is the index of the entry that it shares with `view_progress`, and a
--   track that the telemetry marks is written back to the tracker. The detector, OpenCV, the
--   drawing and the provider of predictions are the record `Externals`. Pipeline.Published
--   describes the published minutes by the plan alone, Pipeline.Metrics is the collector of
--   timings.
-- * Timestamps (vaaet-core/src/vaaet/timestamps.py) normalizes instants to UTC; pandas is the
--   interface `Pandas`.
-- * Contracts (vaaet-core/src/vaaet/contracts.py): Contracts.Telemetry is `TelemetryRecord` with
--   `from_mapping`, Contracts.Features the three other records. A `__post_init__` is a list of
--   checks that run in their order.
-- * Continuity (vaaet-core/src/vaaet/continuity.py) validates a frame of telemetry and gives each
--   record the identifier of its segment: `normalize_continuity_frame`,
--   `_validate_temporal_identity`, `_assign_continuity` are the functions of those names; one
--   round of the loop is `visit`.
-- * Policy.Stable (vaaet-core/src/vaaet/inference/policy.py) is `_StableStateMachine` with the
--   loop `_stabilize_codes`; `advance` is `transition` behind the lookup of the class threshold.
-- * Policy.Incident (the same file) is `_IncidentStateMachine` and
--   `apply_conservative_accident_gate`.
-- * Eligibility (vaaet-core/src/vaaet/eligibility.py) is `production_evidence_errors`, over the
--   values of JSON of ViewPlan.Payload; a check returns the errors that it appends.
--   Eligibility.Table holds `_interval_errors`, Eligibility.Verdict the checks of consistency and
--   the whole, and Eligibility.Evidence says what evidence is without naming an error.
-- * Workflow (vaaet-ml/src/vaaet_ml/workflow_state.py): `InferenceExecutionState` with its
--   methods, in Workflow.Attempt the manifests of `local_stage_attempt`.
-- * Persistence.Metadata and Persistence.Runs
--   (vaaet-persistence/src/vaaet_persistence/pipeline_runs.py) are the checks of the metadata and
--   the life of a pipeline run; Persistence.Receipts and Persistence.Batches
--   (vaaet-persistence/src/vaaet_persistence/receipts.py) are the receipts of writes and the
--   states of runs read in batches. Persistence.Fingerprint is `calculate_persistence_fingerprint`
--   with the canonical form of a content and the text that `json.dumps` writes of it,
--   Persistence.Reconciled is `complete_reconciled_pipeline_run`.
--
-- Floating point is the interface `FloatOps` of Float.antt, so a theorem holds for every
-- interpretation of the comparisons, `nan` included, unless it states a law. Times are natural
-- numbers. What pandas, numpy, the disk and PostgreSQL give is a parameter; its assumed behaviour
-- is a named hypothesis. Identifiers made by the program are numbers. A capture is the list of the
-- frames that it gives. Every loop of the modelled code runs over a list, but for the batches of
-- Persistence.Batches, whose fuel is the number of the identifiers: a batch takes one of them at
-- least.
--
-- Not modelled: the parts that call OpenCV, YOLO, TensorFlow, pandas aggregation, Matplotlib and
-- SQL without a decision of their own; they are listed in the manifest of this development.
pub mod Prelude
pub mod Float
pub mod Timestamps
pub mod Contracts
pub mod Continuity
pub mod ViewPlan
pub mod Tracking
pub mod Telemetry
pub mod Motion
pub mod Pipeline
pub mod Policy
pub mod Persistence
pub mod Workflow
pub mod Eligibility
