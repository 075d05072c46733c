-- ===== src/Persistence/Receipts.antt =====
-- vaaet-persistence/src/vaaet_persistence/receipts.py: the receipt of a write and its checks. A
-- mapping of counts is the list of its entries; the hash of a content is a text.
use vaaet.Prelude.{
  if◌then◌else◌, is_some, is_empty, any, all, Result, ok, err, ◌>>=◌, ◌>>◌, raise_if, ◌==◌,
  contains, option_eq, ℕ, String, Bool, false, not, ◌&&◌, ◌||◌, Option, none, some, List, [], ◌∷◌,
  in_order, ℤ, pos, negsuc, ◌+ℤ◌, ltℤ, leℤ, nat_key, string_key,
}
use vaaet.Prelude.Text.{codes}
use vaaet.Persistence.Metadata.{is_sha256}

pub data ReceiptError : Type 0 where
  value_error : ReceiptError
  conflict : ReceiptError

abbrev pub Check : Type 0
Check = Result ReceiptError (Unit {0})

-- What a driver may give for a count.
pub data Value : Type 0 where
  boolean : Bool → Value
  integral : ℤ → Value
  -- a decimal or a float: its integer value, if it is finite and has one
  numeric : Option ℤ → Value
  other : Value

unfoldable pub natural_of : ℤ → Result ReceiptError ℕ
natural_of (pos n) = ok n
natural_of (negsuc _) = err value_error

unfoldable pub strict_count : Value → Result ReceiptError ℕ
strict_count (boolean _) = err value_error
strict_count (integral n) = natural_of n
strict_count (numeric none) = err value_error
strict_count (numeric (some n)) = natural_of n
strict_count other = err value_error

-- `_integer_mapping` of a mapping
unfoldable pub integer_mapping : List (String × Value) → Result ReceiptError (List (String × ℤ))
integer_mapping [] = ok []
integer_mapping ((key, count) ∷ entries) = do
  n ← strict_count count
  rest ← integer_mapping entries
  ok ((key, pos n) ∷ rest)

-- What the constructor is given for counts: the driver's values, or integers.
abbrev pub Counts : Type 0
Counts = List (String × ℤ)

unfoldable pub keys : Counts → List String
keys [] = []
keys ((k, n) ∷ counts) = let rest = keys counts in k ∷ rest

unfoldable pub lookup : String → Counts → Option ℤ
lookup k [] = none
lookup k ((j, n) ∷ counts) = let rest = lookup k counts in if k == j then some n else rest

-- `frozenset(xs) == frozenset(ys)`
unfoldable pub same_members : List String → List String → Bool
same_members xs ys = all (λ x. contains x ys) xs && all (λ y. contains y xs) ys

-- _PERSISTENCE_OPERATION_ENTITIES
unfoldable pub operation_entities : String → Option (List String)
operation_entities operation =
    if operation == "raw-telemetry"
    then some ("raw_telemetry" ∷ [])
    else if operation == "classified-telemetry"
    then some ("telemetry_features" ∷ "traffic_predictions" ∷ [])
    else if operation == "human-validation"
    then some ("human_validations" ∷ [])
    else none

abbrev pub receipt_algorithm : String
receipt_algorithm = "sha256-persistence-contract-v1"

pub record PersistenceReceipt : Type 0 where
  pub pipeline_run_id : ℕ
  pub operation : String
  pub fingerprint_algorithm : String
  pub content_fingerprint : String
  pub processed_counts : Counts
  pub inserted_counts : Counts
  pub telemetry_schema_version : Option String
  pub feature_schema_version : Option String
  pub model_revision : Option String
  pub confirmed_at : Option ℕ
  pub database_user : Option String

abbrev pub is_bad_count : String × ℤ → Bool
is_bad_count (key, value) = key == "" || ltℤ value (pos 0)

unfoldable pub validate_counts : Counts → Check
validate_counts counts = raise_if (is_empty counts || any is_bad_count counts) value_error

-- `inserted[key] > processed`; the keys are the same where this is asked.
unfoldable pub exceeds : Counts → String × ℤ → Bool
exceeds inserted (key, processed) = elim (lookup key inserted) [
  | none ↦ false
  | some n ↦ ltℤ processed n
]

unfoldable pub validate_entities : String → Counts → Check
validate_entities operation counts = elim (operation_entities operation) [
  | none ↦ err value_error
  | some entities ↦ raise_if (not (same_members (keys counts) entities)) value_error
]

unfoldable pub receipt_checks : PersistenceReceipt → List Check
receipt_checks r =
    raise_if (not (is_some (operation_entities r.operation))) value_error
    ∷ raise_if (not (r.fingerprint_algorithm == receipt_algorithm)) value_error
    ∷ raise_if (not (is_sha256 (codes r.content_fingerprint))) value_error
    ∷ validate_counts r.processed_counts
    ∷ validate_counts r.inserted_counts
    ∷ raise_if (not (same_members (keys r.processed_counts) (keys r.inserted_counts))) value_error
    ∷ validate_entities r.operation r.processed_counts
    ∷ raise_if (any (exceeds r.inserted_counts) r.processed_counts) value_error
    ∷ []

-- `PersistenceReceipt.__post_init__`
unfoldable pub persistence_receipt : PersistenceReceipt → Check
persistence_receipt r = in_order (receipt_checks r) tt

-- `sum(self.processed_counts.values())`
unfoldable pub processed_rows : Counts → ℤ
processed_rows [] = pos 0
processed_rows ((k, n) ∷ counts) = n +ℤ processed_rows counts

-- `build_persistence_receipt` for a content's hash.
unfoldable pub build_persistence_receipt :
    ℕ
    → String
    → (content_fingerprint : String) → Counts
    → Counts
    → Option String
    → Option String
    → Option String
    → Result ReceiptError PersistenceReceipt
build_persistence_receipt run_id operation fingerprint processed inserted telemetry features
      revision =
    let r : PersistenceReceipt = record {
      pipeline_run_id = run_id;
      operation = operation;
      fingerprint_algorithm = receipt_algorithm;
      content_fingerprint = fingerprint;
      processed_counts = processed;
      inserted_counts = inserted;
      telemetry_schema_version = telemetry;
      feature_schema_version = features;
      model_revision = revision;
      confirmed_at = none;
      database_user = none;
    } in
    persistence_receipt r >> ok r

abbrev pub is_entry : ℤ → Option ℤ → Bool
is_entry n none = false
is_entry n (some m) = leℤ n m && leℤ m n

abbrev pub has_entry : Counts → String × ℤ → Bool
has_entry counts (k, n) = is_entry n (lookup k counts)

-- Equality of two mappings: each has the other's entries.
unfoldable pub same_counts : Counts → Counts → Bool
same_counts xs ys = all (λ e. has_entry ys e) xs && all (λ e. has_entry xs e) ys

unfoldable pub receipts_match :
    (include_inserted_counts : Bool) → PersistenceReceipt → PersistenceReceipt → Bool
receipts_match include_inserted_counts stored expected =
    stored.pipeline_run_id == expected.pipeline_run_id
    && stored.operation == expected.operation
    && stored.fingerprint_algorithm == expected.fingerprint_algorithm
    && stored.content_fingerprint == expected.content_fingerprint
    && same_counts stored.processed_counts expected.processed_counts
    && (not include_inserted_counts || same_counts stored.inserted_counts expected.inserted_counts)
    && option_eq stored.telemetry_schema_version expected.telemetry_schema_version
    && option_eq stored.feature_schema_version expected.feature_schema_version
    && option_eq stored.model_revision expected.model_revision

-- `record_persistence_receipt`, where the database gives the receipt that it stored.
unfoldable pub record_persistence_receipt :
    (store : PersistenceReceipt → Result ReceiptError PersistenceReceipt)
    → PersistenceReceipt
    → Result ReceiptError PersistenceReceipt
record_persistence_receipt store receipt = store receipt >>= λ stored.
    raise_if (not (receipts_match false stored receipt)) conflict >> ok stored
