-- ===== src/Persistence/Metadata.antt =====
-- vaaet-persistence/src/vaaet_persistence/pipeline_runs.py: the metadata of a run and its checks.
use vaaet.Prelude.{
  leb, eqb, if◌then◌else◌, length, all, Result, ◌>>◌, raise_if, ◌==◌, contains, option_eq, ℕ, ◌+◌,
  String, Bool, true, false, not, ◌&&◌, ◌||◌, Option, none, some, List, [], ◌∷◌, in_order, ℤ, pos,
  ltℤ, leℤ, nat_key, string_key,
}
use vaaet.Prelude.Text.{codes}

pub data PipelineWorkflow : Type 0 where
  collection : PipelineWorkflow
  inference : PipelineWorkflow
  training : PipelineWorkflow
  review : PipelineWorkflow

pub data RunError : Type 0 where
  value_error : RunError
  runtime_error : RunError
  persistence_conflict : RunError
  database_operation : (sqlstate : String) → RunError
  raised : String → RunError

abbrev pub Outcome : Type 0
Outcome = Result RunError (Unit {0})

pub record PipelineRunMetadata : Type 0 where
  pub workflow : PipelineWorkflow
  pub application_name : String
  pub application_version : String
  pub git_commit : Option String
  pub source_kind : Option String
  pub clip_id : Option String
  pub input_rows : Option ℤ
  pub telemetry_schema_version : Option String
  pub feature_schema_version : Option String
  pub model_version : Option String
  pub model_revision : Option String

-- The character classes of the patterns, on code points.
abbrev pub is_digit : ℕ → Bool
is_digit c = leb 48 c && leb c 57

abbrev pub is_upper : ℕ → Bool
is_upper c = leb 65 c && leb c 90

abbrev pub is_lower : ℕ → Bool
is_lower c = leb 97 c && leb c 122

abbrev pub is_lower_hex : ℕ → Bool
is_lower_hex c = is_digit c || (leb 97 c && leb c 102)

abbrev pub is_hex : ℕ → Bool
is_hex c = is_lower_hex c || (leb 65 c && leb c 70)

abbrev pub is_alphanumeric : ℕ → Bool
is_alphanumeric c = is_digit c || is_upper c || is_lower c

-- "[A-Za-z0-9][A-Za-z0-9._-]{0,63}"
unfoldable pub is_component : List ℕ → Bool
is_component [] = false
is_component (c ∷ cs) =
    is_alphanumeric c
    && all (λ d. is_alphanumeric d || eqb d 46 || eqb d 95 || eqb d 45) cs
    && leb (length cs) 63

unfoldable pub is_git_commit : List ℕ → Bool
is_git_commit cs = all is_hex cs && leb 7 (length cs) && leb (length cs) 40

unfoldable pub is_sha256 : List ℕ → Bool
is_sha256 cs = all is_lower_hex cs && eqb (length cs) 64

unfoldable pub starts_with : List ℕ → List ℕ → Bool
starts_with [] cs = true
starts_with (t ∷ ts) [] = false
starts_with (t ∷ ts) (c ∷ cs) = eqb t c && starts_with ts cs

-- `token in value`
unfoldable pub is_infix : List ℕ → List ℕ → Bool
is_infix ts [] = starts_with ts []
is_infix ts (c ∷ cs) = starts_with ts (c ∷ cs) || is_infix ts cs

-- `str.lower` on ASCII, which alone gives the letters of the tokens that are looked for.
unfoldable pub lower : List ℕ → List ℕ
lower [] = []
lower (c ∷ cs) = (if is_upper c then c + 32 else c) ∷ lower cs

unfoldable pub has_credentials : List ℕ → Bool
has_credentials cs = is_infix (codes "password=") (lower cs) || is_infix (codes "://") (lower cs)

unfoldable pub has_separator : List ℕ → Bool
has_separator cs = contains 47 cs || contains 92 cs

abbrev pub given : (List ℕ → Bool) → Option String → Bool
given test none = false
given test (some value) = test (codes value)

abbrev pub is_negative : Option ℤ → Bool
is_negative none = false
is_negative (some n) = ltℤ n (pos 0)

-- One round of the loop over the values that carry identifiers.
unfoldable pub identifier_check : (must_be_identifier : Bool) → Option String → Outcome
identifier_check must_be_identifier value =
    raise_if (given has_credentials value) value_error
    >> raise_if (must_be_identifier && given has_separator value) value_error

unfoldable pub metadata_checks : PipelineRunMetadata → List Outcome
metadata_checks m =
    raise_if
      (not (is_component (codes m.application_name))
        || not (is_component (codes m.application_version)))
      value_error
    ∷ raise_if (is_negative m.input_rows) value_error
    ∷ raise_if (given (λ cs. not (is_git_commit cs)) m.git_commit) value_error
    ∷ raise_if (given (λ cs. not (is_sha256 cs)) m.model_revision) value_error
    ∷ identifier_check false m.git_commit
    ∷ identifier_check true m.source_kind
    ∷ identifier_check true m.clip_id
    ∷ identifier_check false m.model_revision
    ∷ []

-- `PipelineRunMetadata.__post_init__`
unfoldable pub pipeline_run_metadata : PipelineRunMetadata → Outcome
pipeline_run_metadata m = in_order (metadata_checks m) tt

abbrev pub same_workflow : PipelineWorkflow → PipelineWorkflow → Bool
same_workflow collection collection = true
same_workflow inference inference = true
same_workflow training training = true
same_workflow review review = true
same_workflow _ _ = false

abbrev pub same_input : Option ℤ → Option ℤ → Bool
same_input none none = true
same_input (some m) (some n) = leℤ m n && leℤ n m
same_input _ _ = false

-- Equality of what two payloads say of the metadata; each payload has its handle's model revision.
unfoldable pub same_metadata : PipelineRunMetadata → PipelineRunMetadata → Bool
same_metadata m n =
    same_workflow m.workflow n.workflow
    && m.application_name == n.application_name
    && m.application_version == n.application_version
    && option_eq m.git_commit n.git_commit
    && option_eq m.source_kind n.source_kind
    && option_eq m.clip_id n.clip_id
    && same_input m.input_rows n.input_rows
    && option_eq m.telemetry_schema_version n.telemetry_schema_version
    && option_eq m.feature_schema_version n.feature_schema_version
    && option_eq m.model_version n.model_version
