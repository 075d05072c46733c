-- ===== src/ViewPlan/Payload.antt =====
-- vaaet-core/src/vaaet/vision/view_plan.py: `VideoViewPlan.from_mapping` and the functions that read a
-- payload. `float_of` is Python's `float` of an integer, none where it overflows.
use vaaet.Prelude.{
  ltb, if◌then◌else◌, Result, ok, err, ◌>>=◌, ◌>>◌, raise_if, ◌==◌, ℕ, String, Bool, not, ◌||◌,
  Option, none, some, List, [], ◌∷◌, ℤ, pos, nat_key, string_key,
}
use vaaet.Float.{FloatOps, ◌<=◌}
use vaaet.ViewPlan.{
  PlanError, CameraCalibration, VideoViewSegment, VideoViewPlan, malformed, overflow_error,
  video_view_segment, video_view_plan,
}
use vaaet.ViewPlan.Calibration.{
  Point, CalibrationReference, camera_calibration, calibration_reference,
}

-- What `json` gives; `other` is any further object, as a mapping with a key that is not a string.
mutual
  pub data Value (F : Type 0) : Type 0 where
    null : Value F
    boolean : Bool → Value F
    integer : ℤ → Value F
    number : F → Value F
    text : String → Value F
    array : Items F → Value F
    object : Entries F → Value F
    other : Value F

  pub data Items (F : Type 0) : Type 0 where
    end : Items F
    item : Value F → Items F → Items F

  pub data Entries (F : Type 0) : Type 0 where
    empty : Entries F
    entry : String → Value F → Entries F → Entries F

module _ {F : Type 0} where
  -- `payload.get(key)`
  unfoldable pub get : Entries F → String → Value F
  get empty key = null
  get (entry k v entries) key = let rest = get entries key in if k == key then v else rest

  unfoldable pub to_list : Items F → List (Value F)
  to_list end = []
  to_list (item v items) = v ∷ to_list items

  -- `_mapping`
  unfoldable pub as_mapping : Value F → Result PlanError (Entries F)
  as_mapping (object entries) = ok entries
  as_mapping _ = err malformed

  abbrev pub list_of : Value F → Result PlanError (List (Value F))
  list_of (array items) = ok (to_list items)
  list_of _ = err malformed

  abbrev pub string_of : Value F → Result PlanError String
  string_of (text s) = raise_if (s == "") malformed >> ok s
  string_of _ = err malformed

  unfoldable pub required_list : Entries F → String → Result PlanError (List (Value F))
  required_list payload key = list_of (get payload key)

  unfoldable pub required_string : Entries F → String → Result PlanError String
  required_string payload key = string_of (get payload key)

  unfoldable pub positive_int : Value F → Result PlanError ℕ
  positive_int (integer (pos n)) = raise_if (ltb n 1) malformed >> ok n
  positive_int _ = err malformed

  -- `None`, or a positive integer.
  unfoldable pub optional_int : Value F → Result PlanError (Option ℕ)
  optional_int null = ok none
  optional_int v = positive_int v >>= λ n. ok (some n)

  unfoldable pub parse_segment : Value F → Result PlanError VideoViewSegment
  parse_segment value = as_mapping value >>= λ payload.
      positive_int (get payload "start_frame") >>= λ start_frame.
      optional_int (get payload "end_frame") >>= λ end_frame.
      required_string payload "profile_id" >>= λ profile_id.
      let s : VideoViewSegment = record {
        start_frame = start_frame;
        end_frame = end_frame;
        profile_id = profile_id;
      } in
      video_view_segment s >> ok s

-- `tuple(parse(item) for item in items)`
unfoldable pub parse_all :
    {A B : Type 0} → (A → Result PlanError B) → List A → Result PlanError (List B)
parse_all parse [] = ok []
parse_all parse (v ∷ vs) =
    let rest = parse_all parse vs in parse v >>= λ x. rest >>= λ xs. ok (x ∷ xs)

module _ {F : Type 0} ⦃f : FloatOps F⦄ (float_of : ℤ → Option F) where
  abbrev pub parsed_float : Value F → Result PlanError F
  parsed_float (integer i) = elim (float_of i) [ none ↦ err overflow_error | some x ↦ ok x ]
  parsed_float (number x) = ok x
  parsed_float _ = err malformed

  unfoldable pub positive_float : Value F → Result PlanError F
  positive_float value = parsed_float value >>= λ parsed.
      raise_if (not (f.is_finite parsed) || parsed <= f.of_nat 0) malformed >> ok parsed

  unfoldable pub finite_float : Value F → Result PlanError F
  finite_float value =
      parsed_float value >>= λ parsed. raise_if (not (f.is_finite parsed)) malformed >> ok parsed

  unfoldable pub point : Value F → Result PlanError (Point F)
  point (array (item x (item y end))) = finite_float x >>= λ a. finite_float y >>= λ b. ok (a, b)
  point _ = err malformed

  module _ (hypot : F → F → F) (median : List F → F) where
    unfoldable pub parse_reference : Value F → Result PlanError (CalibrationReference F)
    parse_reference value = as_mapping value >>= λ payload.
        required_string payload "reference_id" >>= λ reference_id.
        point (get payload "pixel_start") >>= λ pixel_start.
        point (get payload "pixel_end") >>= λ pixel_end.
        positive_float (get payload "meters") >>= λ meters.
        let r : CalibrationReference F = record {
          reference_id = reference_id;
          pixel_start = pixel_start;
          pixel_end = pixel_end;
          meters = meters;
        } in
        calibration_reference hypot median r >> ok r

    -- `frame_size` has a width and a height.
    abbrev pub size_of : List (Value F) → Result PlanError (Value F × Value F)
    size_of (w ∷ h ∷ []) = ok (w, h)
    size_of _ = err malformed

    unfoldable pub parse_profile :
        Value F → Result PlanError (CameraCalibration (CalibrationReference F))
    parse_profile value = as_mapping value >>= λ payload.
        required_list payload "frame_size" >>= λ frame_size. size_of frame_size >>= λ size.
        required_list payload "references" >>= λ items.
        parse_all parse_reference items >>= λ references.
        required_string payload "profile_id" >>= λ profile_id.
        required_string payload "revision" >>= λ revision. positive_int size.0 >>= λ width.
        positive_int size.1 >>= λ height.
        let c : CameraCalibration (CalibrationReference F) = record {
          profile_id = profile_id;
          revision = revision;
          width = width;
          height = height;
          references = references;
        } in
        camera_calibration c >> ok c

    unfoldable pub from_mapping :
        Entries F → Result PlanError (VideoViewPlan (CalibrationReference F))
    from_mapping payload = required_string payload "schema_version" >>= λ version.
        required_list payload "profiles" >>= λ profile_items.
        parse_all parse_profile profile_items >>= λ profiles.
        required_list payload "segments" >>= λ segment_items.
        parse_all parse_segment segment_items >>= λ segments.
        let plan : VideoViewPlan (CalibrationReference F) = record {
          profiles = profiles;
          segments = segments;
          version = version;
        } in
        video_view_plan plan >> ok plan
