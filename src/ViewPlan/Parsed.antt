-- ===== src/ViewPlan/Parsed.antt =====
-- What `VideoViewPlan.from_mapping` of vaaet-core/src/vaaet/vision/view_plan.py accepts.
use vaaet.Prelude.{All, ok, ◌≡◌, Option, List, ℤ}
use vaaet.Float.{FloatOps}
use vaaet.ViewPlan.{CameraCalibration, VideoViewPlan, video_view_plan}
use vaaet.ViewPlan.Calibration.{CalibrationReference, camera_calibration, calibration_reference}
use vaaet.ViewPlan.Cover.{IsConstructed}

module _ {F : Type 0} ⦃f : FloatOps F⦄ (float_of : ℤ → Option F) (hypot : F → F → F)
    (median : List F → F) where
  abbrev pub IsReference : CalibrationReference F → Type 0
  IsReference r = calibration_reference hypot median r ≡ ok tt

  -- A calibration that was constructed, of references that were.
  abbrev pub IsCalibration : CameraCalibration (CalibrationReference F) → Type 0
  IsCalibration c = (camera_calibration c ≡ ok tt) × All IsReference c.references

  -- A plan that was constructed, of parts that were.
  abbrev pub IsPlan : VideoViewPlan (CalibrationReference F) → Type 0
  IsPlan plan =
      (video_view_plan plan ≡ ok tt)
      × All IsCalibration plan.profiles
      × All IsConstructed plan.segments
