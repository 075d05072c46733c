-- ===== src/Pipeline/Metrics.antt =====
-- `PipelineMetrics` and `PipelineMetricsCollector` of vaaet-core/src/vaaet/vision/pipeline.py. The
-- clock is a function of how often it was read.
use vaaet.Prelude.{
  if◌then◌else◌, Bool-cases, any, All, Result, ok, err, ◌>>◌, raise_if, ◌==◌, contains, ℕ, ◌+◌,
  String, ◌≡◌, refl, inl, inr, true, false, not, List, [], ◌∷◌, map, positive, nat_key, string_key,
}
use vaaet.Float.{FloatOps}

pub data MetricsError : Type 0 where
  negative_seconds : MetricsError
  negative_rate : MetricsError
  negative_stage : MetricsError
  unsupported_stage : MetricsError
  -- what the measured operation raises
  raised : String → MetricsError

abbrev pub Seconds : Type 0 → Type 0
Seconds F = List (String × F)

-- _PIPELINE_STAGES
abbrev pub pipeline_stages : List String
pipeline_stages =
    "read" ∷ "perception" ∷ "tracking" ∷ "motion_telemetry" ∷ "render_encode" ∷ "minute_policy" ∷ []

pub record PipelineMetrics (F : Type 0) : Type 0 where
  pub frames_processed : ℕ
  pub processing_seconds : F
  pub frames_per_second : F
  pub stage_seconds : Seconds F

pub record Collector (F : Type 0) : Type 0 where
  pub reads : ℕ
  pub started_at : F
  pub stage_seconds : Seconds F

abbrev pub Checked : Type 0 → Type 0
Checked A = Result MetricsError A

module _ {F : Type 0} ⦃f : FloatOps F⦄ where
  -- `max(x, 0.0)`
  abbrev pub max_zero : F → F
  max_zero x = if f.lt x (f.of_nat 0) then f.of_nat 0 else x

  -- `seconds.get(stage, 0.0)`
  unfoldable pub seconds_of : String → Seconds F → F
  seconds_of stage [] = f.of_nat 0
  seconds_of stage ((s, x) ∷ seconds) =
      let rest = seconds_of stage seconds in if s == stage then x else rest

  -- `PipelineMetrics(...)`: its checks and its stages.
  unfoldable pub pipeline_metrics : ℕ → F → F → Seconds F → Checked (PipelineMetrics F)
  pipeline_metrics frames seconds rate stages =
      let normalized : Seconds F =
        map (λ stage. (stage, seconds_of stage stages)) pipeline_stages in
      raise_if (f.lt seconds (f.of_nat 0)) negative_seconds
      >> raise_if (f.lt rate (f.of_nat 0)) negative_rate
      >> raise_if (any (λ (e : String × F). f.lt e.1 (f.of_nat 0)) normalized) negative_stage
      >> ok (record {
        frames_processed = frames;
        processing_seconds = seconds;
        frames_per_second = rate;
        stage_seconds = normalized;
      })

  -- `PipelineMetrics.empty`
  unfoldable pub empty_metrics : Checked (PipelineMetrics F)
  empty_metrics = pipeline_metrics 0 (f.of_nat 0) (f.of_nat 0) []

  -- `seconds[stage] += x` of a stage that is there
  unfoldable pub add_seconds : String → F → Seconds F → Seconds F
  add_seconds stage x [] = []
  add_seconds stage x ((s, y) ∷ seconds) =
      let rest = add_seconds stage x seconds in
      if s == stage then (s, f.add y x) ∷ seconds else (s, y) ∷ rest

  abbrev pub stages_of : Seconds F → List String
  stages_of seconds = map (λ (e : String × F). e.0) seconds

  module _ (clock : ℕ → F) where
    unfoldable pub new_collector : Collector F
    new_collector = record {
      reads = 1;
      started_at = clock 0;
      stage_seconds = map (λ stage. (stage, f.of_nat 0)) pipeline_stages;
    }

    -- The time of an operation counts also where it raises.
    unfoldable pub measure :
        {A : Type 0} → String → Checked A → Collector F → Checked A × Collector F
    measure stage operation c =
        if not (contains stage (stages_of c.stage_seconds)) then (err unsupported_stage, c) else (
          operation,
          record c {
            reads = c.reads + 2;
            stage_seconds =
                add_seconds stage (max_zero (f.sub (clock (c.reads + 1)) (clock c.reads)))
                  c.stage_seconds;
          },
        )

    unfoldable pub finish : ℕ → Collector F → Checked (PipelineMetrics F)
    finish frames c =
        let elapsed = max_zero (f.sub (clock c.reads) c.started_at) in
        let rate =
          if f.lt (f.of_nat 0) elapsed then f.div (f.of_nat frames) elapsed else f.of_nat 0 in
        pipeline_metrics frames elapsed rate c.stage_seconds

    -- A collector after any operations.
    pub data IsCollected : Collector F → Type 1 where
      created : IsCollected new_collector
      measured :
          {A : Type 0} (stage : String) (operation : Checked A) (c : Collector F)
          → IsCollected c
          → IsCollected (measure stage operation c).1

  -- No time that was measured is negative.
  abbrev IsTimed : Seconds F → Type 0
  IsTimed seconds = All (λ (e : String × F). f.lt e.1 (f.of_nat 0) ≡ false) seconds

  module _ (zero-least : f.lt (f.of_nat 0) (f.of_nat 0) ≡ false)
      (add-least : (x y : F)
        → f.lt x (f.of_nat 0) ≡ false
        → f.lt y (f.of_nat 0) ≡ false
        → f.lt (f.add x y) (f.of_nat 0) ≡ false)
      (div-least : (n : ℕ) (x : F)
        → f.lt (f.of_nat 0) x ≡ true
        → f.lt (f.div (f.of_nat n) x) (f.of_nat 0) ≡ false) where
    max_zero-least : (x : F) → f.lt (max_zero x) (f.of_nat 0) ≡ false
    max_zero-least x = elim (Bool-cases (f.lt x (f.of_nat 0))) [
      | inl below ↦ rw below zero-least
      | inr above ↦ rw above above
    ]

    add_seconds-IsTimed :
        (stage : String) (x : F) (seconds : Seconds F)
        → f.lt x (f.of_nat 0) ≡ false
        → IsTimed seconds
        → IsTimed (add_seconds stage x seconds)
    unfolding add_seconds
    add_seconds-IsTimed stage x [] least timed = tt
    add_seconds-IsTimed stage x ((s, y) ∷ seconds) least timed = elim (Bool-cases (s == stage)) [
      | inl same ↦ rw same (add-least y x timed.0 least, timed.1)
      | inr other ↦ rw other (timed.0, add_seconds-IsTimed stage x seconds least timed.1)
    ]

    collected-IsTimed :
        (clock : ℕ → F) (c : Collector F) → IsCollected clock c → IsTimed c.stage_seconds
    unfolding new_collector measure
    collected-IsTimed clock _ created =
        (zero-least, (zero-least, (zero-least, (zero-least, (zero-least, (zero-least, tt))))))
    collected-IsTimed clock _ (measured stage operation c before) =
        let timed = collected-IsTimed clock c before in
        elim (Bool-cases (contains stage (stages_of c.stage_seconds))) [
          | inl known ↦
              rw known (add_seconds-IsTimed stage _ c.stage_seconds (max_zero-least _) timed)
          | inr unknown ↦ rw unknown timed
        ]

    seconds_of-least :
        (stage : String) (seconds : Seconds F)
        → IsTimed seconds
        → f.lt (seconds_of stage seconds) (f.of_nat 0) ≡ false
    unfolding seconds_of
    seconds_of-least stage [] timed = zero-least
    seconds_of-least stage ((s, x) ∷ seconds) timed = elim (Bool-cases (s == stage)) [
      | inl same ↦ rw same timed.0
      | inr other ↦ rw other (seconds_of-least stage seconds timed.1)
    ]

    none_negative :
        (seconds : Seconds F) (stages : List String)
        → IsTimed seconds
        → any
            (λ (e : String × F). f.lt e.1 (f.of_nat 0))
            (map (λ stage. (stage, seconds_of stage seconds)) stages)
          ≡ false
    none_negative seconds [] timed = refl
    none_negative seconds (stage ∷ stages) timed =
        rw (seconds_of-least stage seconds timed) (none_negative seconds stages timed)

    rate-least :
        (frames : ℕ) (elapsed : F)
        → f.lt
            (if f.lt (f.of_nat 0) elapsed then f.div (f.of_nat frames) elapsed else f.of_nat 0)
            (f.of_nat 0)
          ≡ false
    rate-least frames elapsed = elim (Bool-cases (f.lt (f.of_nat 0) elapsed)) [
      | inl positive ↦ rw positive (div-least frames elapsed positive)
      | inr zero_ ↦ rw zero_ zero-least
    ]

    -- Whatever the clock shows and whatever was measured, the metrics pass their checks, with the
    -- stages of the pipeline in their order.
    pub finish-Returns :
        (clock : ℕ → F) (c : Collector F) (frames : ℕ)
        → IsCollected clock c
        → (m : PipelineMetrics F) × (finish clock frames c ≡ ok m)
          × (stages_of m.stage_seconds ≡ pipeline_stages)
    unfolding finish pipeline_metrics
    finish-Returns clock c frames collected =
        let elapsed = max_zero (f.sub (clock c.reads) c.started_at) in
        let timed = collected-IsTimed clock c collected in
        let m : PipelineMetrics F = record {
          frames_processed = frames;
          processing_seconds = elapsed;
          frames_per_second =
              if f.lt (f.of_nat 0) elapsed then f.div (f.of_nat frames) elapsed else f.of_nat 0;
          stage_seconds = map (λ stage. (stage, seconds_of stage c.stage_seconds)) pipeline_stages;
        } in
        (
          m,
          rw
              (
                max_zero-least (f.sub (clock c.reads) c.started_at),
                rate-least frames elapsed,
                none_negative c.stage_seconds pipeline_stages timed,
              )
              refl,
          refl,
        )
