-- ===== src/Pipeline/Completed.antt =====
-- The two ways in which `_complete_minute` of vaaet-core/src/vaaet/vision/pipeline.py ends.
use vaaet.Prelude.{
  if◌then◌else◌, Result, ok, err, raise_if, ◌==◌, ℕ, String, ◌≡◌, refl, sym, ap, ◌∙◌, inl, inr,
  true, false, Option, some, [], ◌∷◌, beq-false, bind-eq-ok, if-eq-ok, ok-injective, nat_key,
  string_key,
}
use vaaet.Prelude.Text.{concat, four_digits, is_blank}
use Prim.Native.String.{◌++◌ as text_append}
use Prim.Native.String.append
use vaaet.Float.{FloatOps}
use vaaet.Pipeline.{Externals, Config, Session, TimedRecord, Prediction}
use vaaet.Pipeline.Minutes.{
  complete_minute, drop_minute, publish_record, add_context, add_classification, lift_value,
  request_minute_prediction,
}
use vaaet.Pipeline.Views.{continuity_id}
use vaaet.Telemetry.{Accumulator, MinuteRecord, build_record, resolve_continuity, minute_record}

lift_value-ok : {A : Type 0} (m : Result String A) (x : A) → lift_value m ≡ ok x → m ≡ ok x
unfolding lift_value
lift_value-ok (ok y) x h = cc
lift_value-ok (err e) x h = cc

cons-some : (c : _) (s t : String) → text_append (String.◌∷◌ c s) t == "" ≡ false
cons-some c s t =
    rw Prim.Native.String.append.cons (beq-false (String.◌∷◌ c (text_append s t)) "" (λ e. cc))

append-some : (s t : String) → t == "" ≡ false → text_append s t == "" ≡ false
append-some String.[] t h = rw Prim.Native.String.append.nil h
append-some (String.◌∷◌ c s) t h = cons-some c s t

text-append_some : (s t : String) → s == "" ≡ false → text_append s t == "" ≡ false
text-append_some String.[] t h = absurd (cc)
text-append_some (String.◌∷◌ c s) t h = cons-some c s t

-- An identifier of continuity is never empty.
continuity_id-some : {F : Type 0} (cfg : Config F) (n : ℕ) → continuity_id cfg n == "" ≡ false
unfolding continuity_id
continuity_id-some cfg n =
    append-some cfg.clip_id _ (text-append_some ":continuity-" (concat (four_digits n ∷ [])) refl)

module _ {F : Type 0} ⦃f : FloatOps F⦄ where
  build_record-continuity :
      (np : _) (ratio sigma : F) (cfg : Config F) (n : ℕ) (a : Accumulator F) (r : MinuteRecord F)
      → build_record np ratio sigma (some (continuity_id cfg n)) a ≡ ok r
      → r.continuity_id ≡ continuity_id cfg n
  unfolding build_record resolve_continuity minute_record
  build_record-continuity np ratio sigma cfg n a r h =
      let named = continuity_id-some cfg n in
      let (_, _, made) =
        bind-eq-ok
          (raise_if (is_blank (resolve_continuity a.clip_id (some (continuity_id cfg n)))) _) _ h in
      let same = ok-injective _ r made in
      ap (λ (x : MinuteRecord F). x.continuity_id) (sym same)
      ∙ ap (λ b. if b then concat (a.clip_id ∷ ":continuity-0001" ∷ []) else continuity_id cfg n)
          named

module _ {Frame Gray F T : Type 0} ⦃f : FloatOps F⦄ (ext : Externals Frame Gray F T)
    (cfg : Config F) where
  pub data IsCompleted (time : T) (s s' : Session Gray F T) : Type 0 where
    dropped : s.skip_current_minute ≡ true → s' ≡ drop_minute s → IsCompleted time s s'
    published :
        (r : TimedRecord F T) (prediction : Option (Prediction F))
        → s.skip_current_minute ≡ false
        → r.record_time ≡ time
        → r.telemetry.continuity_id ≡ continuity_id cfg s.continuity_sequence
        → s' ≡ add_classification r prediction (add_context ext cfg r (publish_record r s))
        → IsCompleted time s s'

  pub complete_minute-IsCompleted :
      (time : T) (s s' : Session Gray F T)
      → complete_minute ext cfg time s ≡ ok s'
      → IsCompleted time s s'
  unfolding complete_minute
  complete_minute-IsCompleted time s s' done =
      elim (if-eq-ok s.skip_current_minute (ok (drop_minute s)) _ done) [
        | inl (skipped, ended) ↦ dropped skipped (sym (ok-injective _ _ ended))
        | inr (kept, ended) ↦
            let (telemetry, built, asked) =
              bind-eq-ok
                (lift_value (
                  build_record ext.geometry.np cfg.trim_ratio cfg.outlier_sigma
                    (some (continuity_id cfg s.continuity_sequence)) s.filters.accumulator))
                _ ended in
            let named =
              build_record-continuity ext.geometry.np cfg.trim_ratio cfg.outlier_sigma cfg
                s.continuity_sequence s.filters.accumulator telemetry
                (lift_value-ok _ telemetry built) in
            let r : TimedRecord F T = record { record_time = time; telemetry = telemetry } in
            let (prediction, _, added) =
              bind-eq-ok
                (request_minute_prediction ext cfg (add_context ext cfg r (publish_record r s))) _
                asked in
            published r prediction kept refl named (sym (ok-injective _ _ added))
      ]
