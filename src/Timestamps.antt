-- ===== src/Timestamps.antt =====
-- vaaet-core/src/vaaet/timestamps.py. What pandas does with one value is the interface `Pandas`:
-- an operation that may raise TypeError or ValueError gives an option.
mod Normal
mod Examples
use vaaet.Prelude.{
  if◌then◌else◌, Result, ok, err, ◌>>=◌, ◌>>◌, raise_if, ℕ, ◌+◌, Bool, false, not, ◌&&◌, Option,
  none, some, List, [], ◌∷◌,
}

pub record Pandas (V S : Type 0) : Type 0 where
  -- `pd.Timestamp(value)`
  pub timestamp : V → Option S
  pub isna : S → Bool
  -- `timestamp.tzinfo is None`
  pub is_naive : S → Bool
  -- `tz_localize(..., ambiguous="raise", nonexistent="raise")`
  pub tz_localize : S → Option S
  -- `tz_convert(CANONICAL_TIMEZONE)`
  pub tz_convert : S → Option S
  -- a timestamp as a value of a series
  pub as_value : S → V

pub data TimeError : Type 0 where
  not_a_timestamp : TimeError
  cannot_be_normalized : TimeError

module _ {V S : Type 0} (pd : Pandas V S) where
  abbrev pub or_raise : Option S → TimeError → Result TimeError S
  or_raise none e = err e
  or_raise (some t) e = ok t

  unfoldable pub to_utc : S → Result TimeError S
  to_utc t =
      (if pd.is_naive t then or_raise (pd.tz_localize t) cannot_be_normalized else ok t)
      >>= λ aware. or_raise (pd.tz_convert aware) cannot_be_normalized

  unfoldable pub normalize_timestamp : V → Result TimeError S
  normalize_timestamp value = or_raise (pd.timestamp value) not_a_timestamp >>= λ t.
      raise_if (pd.isna t) not_a_timestamp >> to_utc t

  -- A series is its labels with their values, as `items` gives them. An error names the label of
  -- the value that raised, and the result keeps the index of its source.
  unfoldable pub normalize_timestamp_series : {L : Type 0} → List (L × V) → Result L (List (L × S))
  normalize_timestamp_series [] = ok []
  normalize_timestamp_series ((label, value) ∷ items) =
      let rest = normalize_timestamp_series items in
      elim (normalize_timestamp value) [
        | err _ ↦ err label
        | ok t ↦ rest >>= λ ts. ok ((label, t) ∷ ts)
      ]

  -- `pd.Series(values)` of values that are no series: they are labelled from 0 on.
  unfoldable pub labelled_from : ℕ → List V → List (ℕ × V)
  labelled_from label [] = []
  labelled_from label (value ∷ values) = (label, value) ∷ labelled_from (label + 1) values

  unfoldable pub counts_as_naive : V → Bool
  counts_as_naive value = elim (pd.timestamp value) [
    | none ↦ false
    | some t ↦ not (pd.isna t) && pd.is_naive t
  ]

  unfoldable pub count_naive_timestamps : List V → ℕ
  count_naive_timestamps [] = 0
  count_naive_timestamps (value ∷ values) =
      let count = count_naive_timestamps values in
      if counts_as_naive value then count + 1 else count
