-- ===== src/Continuity.antt =====
-- vaaet-core/src/vaaet/continuity.py. A frame is the list of its rows, their times counted in
-- nanoseconds from a common origin; what pandas does with a timestamp, `sort_values` and `strftime`
-- are parameters.
pub mod Names
pub mod Segments
mod Examples
pub mod Blocks
pub mod Idempotence
use mathlib.Core.Option
use vaaet.Prelude.{
  ltb, leb, if◌then◌else◌, is_some, any, all, Result, ok, err, raise_if, ◌==◌, contains, option_eq,
  ℕ, ◌+◌, ◌*◌, String, Bool, true, false, not, ◌&&◌, ◌||◌, Option, none, some, List, [], ◌∷◌, ◌++◌,
  map, ◌>>=◌, ◌>>◌, nat_key, string_key,
}
use vaaet.Prelude.Text.{concat, is_blank}
use vaaet.Timestamps.{Pandas, normalize_timestamp_series}

-- A row under its label in the index of the frame, with its time as a value that is not read yet.
pub record Row (L V : Type 0) : Type 0 where
  pub label : L
  pub clip_id : Option String
  pub record_time : V
  pub continuity_id : Option String

pub data ContinuityError : Type 0 where
  missing_columns clip_missing invalid_time duplicate_record not_monotonic : ContinuityError
  empty_continuity : ContinuityError
  reappears : (continuity clip : String) → ContinuityError

-- A row whose clip is known: what `_validate_temporal_identity` leaves of it.
pub record Record : Type 0 where
  pub clip : String
  pub time : ℕ
  pub explicit : Option String

-- The clips as text, or `none` where one is missing or blank.
unfoldable pub clips_of : {L V : Type 0} → List (Row L V) → Option (List String)
clips_of [] = some []
clips_of (r ∷ rs) = elim r.clip_id [
  | none ↦ none
  | some clip ↦ if is_blank clip then none else Option.map (λ clips. clip ∷ clips) (clips_of rs)
]

-- The column of times, under the labels of the frame.
unfoldable pub record_times : {L V : Type 0} → List (Row L V) → List (L × V)
record_times rows = map (λ r. (r.label, r.record_time)) rows

unfoldable pub same_record : Record → Record → Bool
same_record a b = a.clip == b.clip && a.time == b.time

-- `duplicated(["clip_id", "record_time"]).any()`
unfoldable pub has_duplicates : List Record → Bool
has_duplicates [] = false
has_duplicates (r ∷ rs) = any (same_record r) rs || has_duplicates rs

-- Within each clip, no time is below an earlier one.
unfoldable pub is_monotonic : List Record → Bool
is_monotonic [] = true
is_monotonic (r ∷ rs) = all (λ q. not (q.clip == r.clip) || leb r.time q.time) rs && is_monotonic rs

-- CONTINUITY_MAX_GAP_SECONDS of settings.py, in nanoseconds
abbrev pub gap_limit : ℕ
gap_limit = 90 * 1000000000

-- The variables of the loop over one clip.
pub record Progress : Type 0 where
  pub prior_time : Option ℕ
  pub prior_explicit : Option String
  pub segment : ℕ
  pub seen_explicit : List String
  pub active_id : String

abbrev pub start : Progress
start = record {
  prior_time = none;
  prior_explicit = none;
  segment = 0;
  seen_explicit = [];
  active_id = "";
}

unfoldable pub is_gap : Progress → Record → Bool
is_gap p r = elim p.prior_time [ none ↦ false | some prior ↦ ltb (prior + gap_limit) r.time ]

unfoldable pub is_explicit_change : Progress → Record → Bool
is_explicit_change p r = is_some p.prior_time && not (option_eq r.explicit p.prior_explicit)

abbrev pub remember : Option String → List String → List String
remember none seen = seen
remember (some e) seen = e ∷ seen

abbrev pub is_seen : Option String → List String → Bool
is_seen none seen = false
is_seen (some e) seen = contains e seen

abbrev pub or_empty : Option String → String
or_empty none = ""
or_empty (some e) = e

module _ (instant : ℕ → String) where
  -- `current_explicit or f"{clip_id}:continuity-{instant}"`
  abbrev pub base_id : Record → String
  base_id r =
      let generated = concat (r.clip ∷ ":continuity-" ∷ instant r.time ∷ []) in
      elim r.explicit [ none ↦ generated | some e ↦ if e == "" then generated else e ]

  abbrev pub new_id : Bool → Record → String
  new_id marked r = if marked then concat (base_id r ∷ ":gap-" ∷ instant r.time ∷ []) else base_id r

  -- One round of the loop: the row's identifier is the new `active_id`.
  unfoldable pub visit : Progress → Record → Result ContinuityError Progress
  visit p r =
      let gap = is_gap p r in
      let change = is_explicit_change p r in
      let opened : Progress = record {
        prior_time = some r.time;
        prior_explicit = r.explicit;
        segment = p.segment + 1;
        seen_explicit = remember r.explicit p.seen_explicit;
        active_id = new_id (gap && is_some r.explicit && not change) r;
      } in
      let continued : Progress = record p {
        prior_time = some r.time;
        prior_explicit = r.explicit;
      } in
      if not (is_some p.prior_time) || gap || change
      then if change && is_seen r.explicit p.seen_explicit
        then err (reappears (or_empty r.explicit) r.clip)
        else ok opened
      else ok continued

  unfoldable pub assign_from : Progress → List Record → Result ContinuityError (List String)
  assign_from p [] = ok []
  assign_from p (r ∷ rs) = do
    after ← visit p r
    rest ← assign_from after rs
    ok (after.active_id ∷ rest)

  unfoldable pub assign_groups : List (String × List Record) → Result ContinuityError (List String)
  assign_groups [] = ok []
  assign_groups ((clip, records) ∷ groups) = do
    ids ← assign_from start records
    rest ← assign_groups groups
    ok (ids ++ rest)

-- `groupby("clip_id", sort=False).groups`: the clips in the order of their first record.
unfoldable pub add_to_group : Record → List (String × List Record) → List (String × List Record)
add_to_group r [] = (r.clip, r ∷ []) ∷ []
add_to_group r ((clip, records) ∷ groups) =
    if clip == r.clip
    then (clip, records ++ r ∷ []) ∷ groups
    else (clip, records) ∷ add_to_group r groups

unfoldable pub group_from : List (String × List Record) → List Record → List (String × List Record)
group_from groups [] = groups
group_from groups (r ∷ rs) = group_from (add_to_group r groups) rs

pub record Frame (L V : Type 0) : Type 0 where
  pub has_clip_id : Bool
  pub has_record_time : Bool
  pub rows : List (Row L V)

abbrev from_option {ℓ} : {A : Type ℓ} {E : Type ℓ} → E → Option A → Result E A
from_option e none = err e
from_option e (some a) = ok a

abbrev or_invalid : {L A : Type 0} → Result L A → Result ContinuityError A
or_invalid (err _) = err invalid_time
or_invalid (ok a) = ok a

-- `_explicit_values`
abbrev pub check_explicit : List Record → Result ContinuityError (Unit {0})
check_explicit records =
    raise_if (any (λ r. elim r.explicit [ none ↦ false | some e ↦ is_blank e ]) records)
      empty_continuity

module _ {L V S : Type 0} (pd : Pandas V S) (nanoseconds : S → ℕ)
    (sort : List Record → List Record) where
  -- The rows with the columns that were assigned to them.
  unfoldable pub assign_columns : List (Row L V) → List String → List (L × S) → List Record
  assign_columns (r ∷ rs) (clip ∷ clips) (time ∷ times) =
      record { clip = clip; time = nanoseconds time.1; explicit = r.continuity_id }
      ∷ assign_columns rs clips times
  assign_columns _ _ _ = []

  unfoldable pub validate_temporal_identity : Frame L V → Result ContinuityError (List Record)
  validate_temporal_identity frame = do
    raise_if (not (frame.has_clip_id && frame.has_record_time)) missing_columns
    clips ← from_option clip_missing (clips_of frame.rows)
    times ← or_invalid (normalize_timestamp_series pd (record_times frame.rows))
    let records = assign_columns frame.rows clips times
    raise_if (has_duplicates records) duplicate_record
    raise_if (not (is_monotonic records)) not_monotonic
    ok (sort records)

  unfoldable pub normalize_continuity_frame :
      (ℕ → String) → Frame L V → Result ContinuityError (List Record × List String)
  unfolding assign_groups
  normalize_continuity_frame instant frame = do
    records ← validate_temporal_identity frame
    check_explicit records
    ids ← assign_groups instant (group_from [] records)
    ok (records, ids)
