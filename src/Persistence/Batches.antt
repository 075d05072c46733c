-- ===== src/Persistence/Batches.antt =====
-- vaaet-persistence/src/vaaet_persistence/receipts.py: the states of runs, read in batches. An
-- identifier that is no UUID is missing; the database answers a batch with any rows.
use vaaet.Prelude.{
  if◌then◌else◌, is_some, length, drop, is_empty, any, Result, ok, err, ◌>>=◌, ◌>>◌, raise_if, ◌==◌,
  contains, ℕ, zero, suc, String, Bool, not, ◌&&◌, ◌||◌, Option, none, some, List, [], ◌∷◌, map,
  take, nat_key, string_key,
}
use vaaet.Persistence.Receipts.{ReceiptError, conflict, PersistenceReceipt}

pub record PipelineRunAuditState : Type 0 where
  pub pipeline_run_id : ℕ
  pub workflow : String
  pub application_name : String
  pub application_version : String
  pub database_user : String
  pub status : String
  pub source_kind : Option String
  pub clip_id : Option String
  pub input_rows : Option ℕ
  pub output_rows : Option ℕ
  pub telemetry_schema_version : Option String
  pub feature_schema_version : Option String
  pub model_version : Option String
  pub model_revision : Option String
  pub receipt : Option PersistenceReceipt
  pub reconciles_run_id : Option ℕ

-- `audit_complete`
unfoldable pub is_audit_complete : PipelineRunAuditState → Bool
is_audit_complete s = s.status == "succeeded" && is_some s.receipt

-- A row: the run it was requested for, and the state it decodes to if it does.
abbrev pub Row : Type 0
Row = ℕ × Result ReceiptError PipelineRunAuditState

-- The dictionary of states, the latest entry first.
abbrev pub States : Type 0
States = List (ℕ × PipelineRunAuditState)

abbrev pub runs_of : States → List ℕ
runs_of states = map (λ (e : ℕ × PipelineRunAuditState). e.0) states

-- `list(dict.fromkeys(ids))`, behind what was seen before.
unfoldable pub unique_from : List ℕ → List ℕ → List ℕ
unique_from seen [] = []
unique_from seen (i ∷ ids) =
    let rest = unique_from seen ids in
    let rest_new = unique_from (i ∷ seen) ids in if contains i seen then rest else i ∷ rest_new

unfoldable pub parse_ids : List (Option ℕ) → Result ReceiptError (List ℕ)
parse_ids [] = ok []
parse_ids (none ∷ values) = err conflict
parse_ids (some i ∷ values) = parse_ids values >>= λ ids. ok (i ∷ ids)

unfoldable pub read_row : List ℕ → Row → States → Result ReceiptError States
read_row batch row states =
    raise_if (not (contains row.0 batch) || contains row.0 (runs_of states)) conflict
    >> row.1
    >>= λ state.
        raise_if (not (state.pipeline_run_id == row.0)) conflict >> ok ((row.0, state) ∷ states)

unfoldable pub read_rows : List ℕ → List Row → States → Result ReceiptError States
read_rows batch [] states = ok states
read_rows batch (row ∷ rows) states = read_row batch row states >>= λ s. read_rows batch rows s

unfoldable pub read_batch :
    (query : List ℕ → List Row) → List ℕ → States → Result ReceiptError States
read_batch query batch states = read_rows batch (query batch) states >>= λ s.
    raise_if (any (λ i. not (contains i (runs_of s))) batch) conflict >> ok s

-- The loop over slices of a size, with fuel for each.
unfoldable pub read_from :
    (query : List ℕ → List Row) (size fuel : ℕ) → List ℕ → States → Result ReceiptError States
read_from query size zero ids states = ok states
read_from query size (suc fuel) ids states =
    if is_empty ids
    then ok states
    else read_batch query (take size ids) states >>= λ s.
        read_from query size fuel (drop size ids) s

unfoldable pub read_pipeline_run_audit_states :
    (query : List ℕ → List Row) → List (Option ℕ) → Result ReceiptError States
read_pipeline_run_audit_states query run_ids = parse_ids run_ids >>= λ ids.
    let unique = unique_from [] ids in read_from query 500 (length unique) unique []
