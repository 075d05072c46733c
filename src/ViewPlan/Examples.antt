-- ===== src/ViewPlan/Examples.antt =====
-- A plan of two views, and payloads.
use vaaet.Prelude.{
  sum, ok, ◌>>◌, ℕ, ◌+◌, ◌*◌, String, ◌≡◌, refl, Option, none, some, [], ◌∷◌, arith, ℤ, pos, negsuc,
}
use vaaet.ViewPlan.{
  CameraCalibration, VideoViewSegment, video_view_segment, VideoViewPlan, schema_version,
  has_repetition, check_segments, starts_late, profile_ids, video_view_plan, covers, index_from,
  segment_index, validate_frame_size, resolve,
}
use vaaet.Float.{FloatOps, ten_thousandths}
use vaaet.ViewPlan.Calibration as Calibration
use vaaet.ViewPlan.Calibration.{CalibrationReference}
use vaaet.ViewPlan.Cover.{IsOnly}
use vaaet.ViewPlan.Encoded as Encoded
use vaaet.ViewPlan.Encoded.{encode_plan, from_mapping-encode_plan}
use vaaet.ViewPlan.Parsed.{IsPlan}
use vaaet.ViewPlan.Payload as Payload
use vaaet.ViewPlan.Payload.{
  Entries, from_mapping, empty, entry, text, array, object, item, end, integer, number, null,
}
use vaaet.ViewPlan.Total.{resolve-IsOnly}

abbrev near : CameraCalibration String
near = record { profile_id = "near"; revision = "1"; width = 1920; height = 1080; references = [] }

abbrev far : CameraCalibration String
far = record { profile_id = "far"; revision = "3"; width = 1920; height = 1080; references = [] }

abbrev opening : VideoViewSegment
opening = record { start_frame = 1; end_frame = some 300; profile_id = "far" }

abbrev closing : VideoViewSegment
closing = record { start_frame = 300; end_frame = none; profile_id = "near" }

abbrev two_views : VideoViewPlan String
two_views = record {
  profiles = near ∷ far ∷ [];
  segments = opening ∷ closing ∷ [];
  version = schema_version;
}

resolve-IsOnly_example :
    (i : ℕ) × (u : VideoViewSegment) × (p : CameraCalibration String) × IsOnly two_views.segments
      420 i u
    × (segment_index two_views 420 ≡ ok i)
    × (p.profile_id ≡ u.profile_id)
    × (resolve two_views 420 1920 1080 ≡ (validate_frame_size 1920 1080 p >> ok p))
unfolding video_view_plan check_segments starts_late has_repetition profile_ids video_view_segment
resolve-IsOnly_example =
    resolve-IsOnly 1920 1080 two_views 420 refl (refl, (refl, tt)) (omega arith)

second_view : segment_index two_views 300 ≡ ok 1
unfolding segment_index index_from covers
second_view = refl

instance abbrev floats : FloatOps ℕ
floats = ten_thousandths

abbrev float_of : ℤ → Option ℕ
float_of (pos n) = some (n * 10000)
float_of (negsuc n) = none

abbrev hypot : ℕ → ℕ → ℕ
hypot x y = x + y

abbrev upper : CalibrationReference ℕ
upper = record {
  reference_id = "lane";
  pixel_start = (1000000, 2000000);
  pixel_end = (1000000, 2600000);
  meters = 120000;
}

abbrev lower : CalibrationReference ℕ
lower = record {
  reference_id = "kerb";
  pixel_start = (3000000, 6000000);
  pixel_end = (3000000, 7200000);
  meters = 120000;
}

abbrev calibrated : VideoViewPlan (CalibrationReference ℕ)
calibrated = record {
  profiles =
      record {
        profile_id = "near";
        revision = "2";
        width = 1920;
        height = 1080;
        references = upper ∷ lower ∷ [];
      }
      ∷ [];
  segments = record { start_frame = 1; end_frame = none; profile_id = "near" } ∷ [];
  version = schema_version;
}

calibrated-IsPlan : IsPlan float_of hypot sum calibrated
unfolding video_view_plan check_segments starts_late has_repetition profile_ids video_view_segment
    Calibration.camera_calibration Calibration.check_bounds Calibration.validate_reference_bounds
    Calibration.lies_inside Calibration.distinct_depths Calibration.calibration_reference
    Calibration.pixel_length
calibrated-IsPlan = (refl, ((refl, (refl, (refl, tt))), tt), (refl, tt))

from_mapping-encode_plan_example :
    from_mapping float_of hypot sum (encode_plan calibrated) ≡ ok calibrated
from_mapping-encode_plan_example =
    from_mapping-encode_plan float_of hypot sum calibrated calibrated-IsPlan

-- A payload as a file may have it: integers for coordinates, keys in another order.
abbrev payload : Entries ℕ
payload =
    entry "segments"
      (array (
        item
          (object (
            entry "profile_id" (text "near")
              (entry "end_frame" null (entry "start_frame" (integer (pos 1)) empty))))
          end))
      (entry "schema_version" (text "vaaet-view-plan-v1") (
        entry "profiles"
          (array (
            item
              (object (
                entry "profile_id" (text "near") (
                  entry "revision" (text "2") (
                    entry "frame_size"
                      (array (item (integer (pos 1920)) (item (integer (pos 1080)) end)))
                      (entry "references"
                        (array (
                          item (Encoded.encode_reference upper) (
                            item
                              (object (
                                entry "reference_id" (text "kerb") (
                                  entry "meters" (integer (pos 12)) (
                                    entry "pixel_start"
                                      (array
                                        (item (integer (pos 300)) (item (integer (pos 600)) end)))
                                      (entry "pixel_end"
                                        (array
                                          (item (integer (pos 300)) (item (integer (pos 720)) end)))
                                        empty)))))
                              end)))
                        empty)))))
              end))
          empty))
