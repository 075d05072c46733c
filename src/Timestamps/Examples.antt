-- ===== src/Timestamps/Examples.antt =====
-- Normalization at concrete values: 0 is no timestamp, and instants below 10 have no zone.
use vaaet.Prelude.{
  ltb, eqb, if◌then◌else◌, get_elem?, All, ok, err, succeeds, ℕ, ◌+◌, String, ◌≡◌, refl, true,
  false, none, some, List, [], ◌∷◌, arith, take,
}
use vaaet.Timestamps.{
  Pandas, to_utc, normalize_timestamp, labelled_from, normalize_timestamp_series,
}
use vaaet.Timestamps.Normal.{
  IsUtc, normalize_timestamp_series_idem, normalize_timestamp_series_label,
}

unfoldable to_zone : ℕ → ℕ
to_zone t = if ltb t 10 then t + 100 else t

abbrev zones : Pandas ℕ ℕ
zones = record {
  timestamp = λ v. if eqb v 0 then none else some v;
  isna = λ _. false;
  is_naive = λ t. ltb t 10;
  tz_localize = λ t. if eqb t 5 then none else some (t + 100);
  tz_convert = λ t. some (to_zone t);
  as_value = λ t. t;
}

to_zone-IsUtc : (aware t : ℕ) → zones.tz_convert aware ≡ some t → IsUtc zones t
unfolding to_zone
to_zone-IsUtc aware t h =
    let same : to_zone aware ≡ t = cc in
    record { read = ground arith; valid = refl; aware = ground arith; kept = ground arith }

abbrev early : List (String × ℕ)
early = ("b", 3) ∷ ("a", 250) ∷ []

abbrev utc_series : List (String × ℕ)
utc_series = ("b", 103) ∷ ("a", 250) ∷ []

abbrev refused : List (String × ℕ)
refused = ("c", 3) ∷ ("b", 5) ∷ ("a", 0) ∷ []

normalize_timestamp_series_idem_example :
    normalize_timestamp_series zones utc_series ≡ ok utc_series
unfolding normalize_timestamp_series normalize_timestamp to_utc to_zone
normalize_timestamp_series_idem_example =
    normalize_timestamp_series_idem zones early utc_series to_zone-IsUtc refl

normalize_timestamp_series_label_example :
    (i : ℕ) × (value : ℕ) × (get_elem? refused i ≡ some ("b", value))
    × (succeeds (normalize_timestamp zones value) ≡ false)
    × All (λ item. succeeds (normalize_timestamp zones item.1) ≡ true) (take i refused)
unfolding normalize_timestamp_series normalize_timestamp to_utc to_zone
normalize_timestamp_series_label_example = normalize_timestamp_series_label zones "b" refused refl

labelled_from-series : normalize_timestamp_series zones (labelled_from zones 0 (3 ∷ 5 ∷ [])) ≡ err 1
unfolding labelled_from normalize_timestamp_series normalize_timestamp to_utc to_zone
labelled_from-series = refl
