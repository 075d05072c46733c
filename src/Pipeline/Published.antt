-- ===== src/Pipeline/Published.antt =====
-- The minutes that `run` of vaaet-core/src/vaaet/vision/pipeline.py publishes under a plan, described
-- without the session's state: those that no change of view crosses.
use vaaet.Prelude.{
  if◌then◌else◌, ◌==◌, ℕ, zero, suc, ◌+◌, ◌-◌, ◌*◌, ◌/◌, ◌%◌, ◌<◌, String, ◌≡◌, refl, Bool, false,
  not, ◌||◌, List, [], ◌∷◌, ◌++◌, arith, nat_key, string_key,
}
use vaaet.Float.{FloatOps}
use vaaet.Pipeline.{Externals, Config, TimedRecord}
use vaaet.Pipeline.Run.{elapsed_of}
use vaaet.Pipeline.Views.{continuity_id, starts_minute}
use vaaet.ViewPlan.{VideoViewPlan}
use vaaet.ViewPlan.Calibration.{CalibrationReference}
use vaaet.ViewPlan.Steps.{view}

pub mod-add_mul : (q m r : ℕ) → r < m → (q * m + r) % m ≡ r
mod-add_mul q m r h = grind arith

pub div-add_mul : (q m r : ℕ) → r < m → (q * m + r) / m ≡ q
div-add_mul q m r h = grind arith

-- Two of the frames from `start` on are neighbours in different views, within a number of steps.
unfoldable pub has_change : {R : Type 0} → VideoViewPlan R → ℕ → ℕ → Bool
has_change plan start zero = false
has_change plan start (suc k) =
    has_change plan start k || not (view plan (start + k) == view plan (start + k + 1))

-- A change of view crosses the first `frames` frames of the minute behind the first `minute` ones.
unfoldable pub is_crossed : {F R : Type 0} → Config F → VideoViewPlan R → ℕ → ℕ → Bool
is_crossed cfg plan minute frames =
    has_change plan (minute * cfg.frames_per_minute + 1) (frames - 1)

module _ {Frame Gray F T : Type 0} ⦃f : FloatOps F⦄ (ext : Externals Frame Gray F T)
    (cfg : Config F) (plan : VideoViewPlan (CalibrationReference F)) where
  -- The time and the identifier of the record of a minute, the number of those before it given.
  unfoldable pub identity_of_minute : ℕ → T × String
  identity_of_minute minute =
      let last = suc minute * cfg.frames_per_minute in
      (ext.time_at (elapsed_of ext cfg last), continuity_id cfg (view plan last + 1))

  -- What is published of the first minutes.
  unfoldable pub whole_minutes : ℕ → List (T × String)
  whole_minutes zero = []
  whole_minutes (suc minute) =
      whole_minutes minute
      ++ (if is_crossed cfg plan minute cfg.frames_per_minute
          then []
          else identity_of_minute minute ∷ [])

unfoldable pub identities : {F T : Type 0} → List (TimedRecord F T) → List (T × String)
identities [] = []
identities (r ∷ rs) = (r.record_time, r.telemetry.continuity_id) ∷ identities rs

module _ {F : Type 0} (cfg : Config F) (plan : VideoViewPlan (CalibrationReference F)) where
  pub starts_minute_mod :
      (q r : ℕ)
      → r < cfg.frames_per_minute
      → starts_minute cfg (q * cfg.frames_per_minute + r + 1) ≡ (r == 0)
  unfolding starts_minute
  starts_minute_mod q r h =
      let rest = mod-add_mul q cfg.frames_per_minute r h in
      let same : q * cfg.frames_per_minute + r + 1 - 1 ≡ q * cfg.frames_per_minute + r =
        omega arith in
      rw (same, rest) refl

  pub is_crossed_one : (q : ℕ) → is_crossed cfg plan q 1 ≡ false
  unfolding is_crossed has_change
  is_crossed_one q = refl

  pub is_crossed_zero : (q : ℕ) → is_crossed cfg plan q 0 ≡ false
  unfolding is_crossed has_change
  is_crossed_zero q = refl

  pub is_crossed-suc :
      (q r n : ℕ)
      → n ≡ q * cfg.frames_per_minute + suc r
      → is_crossed cfg plan q (suc r + 1)
        ≡ (is_crossed cfg plan q (suc r) || not (view plan n == view plan (n + 1)))
  unfolding is_crossed has_change
  is_crossed-suc q r n h =
      let frame : q * cfg.frames_per_minute + 1 + r ≡ n = omega (arith, h) in
      let frames : suc r + 1 - 1 ≡ suc r = omega arith in
      let same : suc r - 1 ≡ r = omega arith in rw (frames, same, frame) refl
