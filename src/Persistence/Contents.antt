-- ===== src/Persistence/Contents.antt =====
-- Contents with their fingerprints, and a reconciliation.
use mathlib.Core.List.Perm
use vaaet.Prelude.{
  if◌then◌else◌, ok, err, ◌>>=◌, ◌==◌, ℕ, suc, ◌+◌, ◌*◌, ◌%◌, String, ◌≡◌, refl, true, none, some,
  List, [], ◌∷◌, pos, nat_key, string_key,
}
use vaaet.Prelude.Text.{codes, decimal_from}
use vaaet.Float.{FloatOps, ten_thousandths}
use vaaet.Persistence.Ordered.{text_le, insert_by, sort_by}
use vaaet.Persistence.Fingerprint.{
  dumps, join, quote, escape, escape_all, value_error, Raw, RawEntries, no_entries, next_entry,
  Timestamps, put_field, collect_fields, sorted_fields, to_items, canonical_value,
  canonical_mapping, canonical_rows, payload_of, calculate_persistence_fingerprint,
}
use vaaet.Persistence.Metadata as Metadata
use vaaet.Persistence.Metadata.{collection}
use vaaet.Persistence.Reconciled.{
  Database, reconciliation_of, outcome_of, complete_reconciled_pipeline_run,
}
use vaaet.Persistence.Reordered.{calculate_persistence_fingerprint-Perm}

instance abbrev floats : FloatOps ℕ
floats = ten_thousandths

-- Minutes after midnight UTC, for instants.
abbrev clock : Timestamps ℕ
clock = record {
  is_naive = λ _. true;
  tz_localize = λ t. t;
  tz_convert = λ t. t;
  isoformat = λ t. if t == 0 then "2026-01-01T00:00:00+00:00" else "2026-01-01T00:01:00+00:00";
}

abbrev hex : ℕ → String
hex x = decimal_from (suc x) x

-- A polynomial in place of the hash.
abbrev polynomial : List ℕ → ℕ
polynomial [] = 7
polynomial (c ∷ cs) = (31 * polynomial cs + c) % 1000003

abbrev digest : List ℕ → String
digest text = decimal_from 7 (polynomial text)

abbrev observation : ℕ → ℕ → RawEntries ℕ ℕ
observation t n = next_entry "timestamp" (Raw.instant t) (
    next_entry "count" (Raw.integral (pos n))
      (next_entry "clip_id" (Raw.string "a\"b") (next_entry "speed" Raw.missing no_entries)))

-- An observation's keys are sorted, whatever their order, and its types are written.
observation_text :
    (canonical_mapping clock hex (observation 1 3) >>= λ row. ok (dumps row))
    ≡ ok (
        codes
          "{\"clip_id\":{\"type\":\"str\",\"value\":\"a\\\"b\"},\"count\":{\"type\":\"int\",\"value\":3},\"speed\":{\"type\":\"null\",\"value\":null},\"timestamp\":{\"type\":\"datetime\",\"value\":\"2026-01-01T00:01:00+00:00\"}}")
unfolding canonical_mapping canonical_value sorted_fields collect_fields put_field sort_by insert_by
    text_le dumps join quote escape_all escape
observation_text = refl

abbrev two_minutes : List (RawEntries ℕ ℕ)
two_minutes = observation 0 3 ∷ observation 1 5 ∷ []

abbrev reversed : List (RawEntries ℕ ℕ)
reversed = observation 1 5 ∷ observation 0 3 ∷ []

abbrev two_minutes_digest : String
two_minutes_digest = "431805"

two_minutes_are_hashed :
    calculate_persistence_fingerprint clock hex digest "raw-telemetry" two_minutes
    ≡ ok two_minutes_digest
unfolding calculate_persistence_fingerprint canonical_rows payload_of to_items canonical_mapping
    canonical_value sorted_fields collect_fields put_field sort_by insert_by text_le dumps join
    quote escape_all escape
two_minutes_are_hashed = refl

no_observations :
    calculate_persistence_fingerprint {F = ℕ} {T = ℕ} clock hex digest "raw-telemetry" []
    ≡ err value_error
unfolding calculate_persistence_fingerprint
no_observations = refl

calculate_persistence_fingerprint-Perm_example :
    calculate_persistence_fingerprint clock hex digest "raw-telemetry" reversed
    ≡ ok two_minutes_digest
calculate_persistence_fingerprint-Perm_example =
    calculate_persistence_fingerprint-Perm clock hex digest "raw-telemetry" two_minutes reversed
      two_minutes_digest (Perm.swap _ _ []) two_minutes_are_hashed

abbrev answering : ℕ → Database
answering id payload = ok (some id)

abbrev named : String → ℕ
named text = 99

-- Another run's answer is named in the conclusion; a fingerprint of another length is refused.
reconciled_by_another :
    complete_reconciled_pipeline_run named
      (λ id. decimal_from (suc id) id)
      none
      (answering 99)
      (some 7)
      collection
      "1.2"
      "raw-telemetry"
      "0123456789abcdef0123456789abcdef0123456789abcdef0123456789abcdef"
      3
      none
    ≡ ok (record {
      run_id = 7;
      work_succeeded = true;
      audit_complete = true;
      output_rows = some 3;
      model_revision = none;
      audit_error_category = none;
      reconciliation_run_id = some 99;
    })
unfolding complete_reconciled_pipeline_run outcome_of reconciliation_of
reconciled_by_another = refl

short_fingerprint :
    complete_reconciled_pipeline_run named
      (λ id. decimal_from (suc id) id)
      none
      (answering 99)
      (some 7)
      collection
      "1.2"
      "raw-telemetry"
      "0123"
      3
      none
    ≡ err Metadata.value_error
unfolding complete_reconciled_pipeline_run outcome_of reconciliation_of
short_fingerprint = refl
