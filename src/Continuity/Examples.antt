-- ===== src/Continuity/Examples.antt =====
-- Runs of the model of vaaet-core/src/vaaet/continuity.py at concrete frames.
use Prim.Native.String.{count}
use text.Mathlib.TextLemmas.{length-cons}
use vaaet.Prelude.Text.{concat}
use vaaet.Prelude.{
  if◌then◌else◌, ok, err, succeeds, ◌==◌, ℕ, zero, suc, ◌*◌, String, ◌≡◌, refl, ap, ◌∙◌, true,
  false, not, Option, none, some, List, [], ◌∷◌, arith, ne_of_beq, some-ne_of_beq, nat_key,
  string_key,
}
use vaaet.Continuity
use vaaet.Continuity.{
  Record, Row, Frame, start, base_id, assign_from, normalize_continuity_frame, reappears,
  duplicate_record, invalid_time,
}
use vaaet.Timestamps.{Pandas, to_utc, normalize_timestamp, normalize_timestamp_series}
use vaaet.Continuity.Segments.{IsSegmented, assign_from-segments}
use vaaet.Continuity.Names.{Distinguishes}
use vaaet.Continuity.Blocks.{blocks, has_repeat, explicits, assign_from-succeeds}
use vaaet.Continuity.Idempotence.{relabel, assign_from_idem}

abbrev second : ℕ
second = 1000000000

-- A rendering of instants that tells all of them apart: one letter for each nanosecond.
rendered : ℕ → String
rendered zero = ""
rendered (suc n) = String.◌∷◌ "x" (rendered n)

count-rendered : (n : ℕ) → count (rendered n) ≡ n
unfolding rendered
count-rendered zero = refl
count-rendered (suc n) = length-cons "x" (rendered n) ∙ ap suc (count-rendered n)

rendered-Distinguishes : Distinguishes rendered
rendered-Distinguishes a b late e = omega (arith, count-rendered a, count-rendered b, ap count e)

abbrev record_at : ℕ → Option String → Record
record_at seconds explicit = record {
  clip = "bridge";
  time = seconds * second;
  explicit = explicit;
}

abbrev after_gap : Record
after_gap = record_at 200 (some "a")

program : Unit {0}
unfolding assign_from Continuity.visit Continuity.is_gap Continuity.is_explicit_change blocks
    has_repeat explicits relabel
program = tt

-- A record after a gap of more than 90 seconds opens a segment of its own.
assign_from-segments_example :
    (rest : List String) × ("a" ∷ "a" ∷ concat ("a" ∷ ":gap-" ∷ rendered after_gap.time ∷ []) ∷ []
      ≡ base_id rendered (record_at 0 (some "a")) ∷ rest)
    × IsSegmented rendered
        (record_at 0 (some "a"))
        (base_id rendered (record_at 0 (some "a")))
        (record_at 60 (some "a") ∷ after_gap ∷ [])
        rest
unfolding program
assign_from-segments_example =
    assign_from-segments rendered rendered-Distinguishes (record_at 0 (some "a"))
      (record_at 60 (some "a") ∷ after_gap ∷ [])
      ("a" ∷ "a" ∷ concat ("a" ∷ ":gap-" ∷ rendered after_gap.time ∷ []) ∷ [])
      (some-ne_of_beq "a" "" refl)
      (
        refl,
        omega arith,
        some-ne_of_beq "a" "" refl,
        (refl, omega arith, some-ne_of_beq "a" "" refl, tt),
      )
      refl

-- An identifier that comes back after another one is refused.
assign_from-returns :
    assign_from rendered start
      (record_at 0 (some "a") ∷ record_at 60 (some "b") ∷ record_at 120 (some "a") ∷ [])
    ≡ err (reappears "a" "bridge")
unfolding program
assign_from-returns = refl

assign_from-succeeds_example :
    succeeds (assign_from rendered start (record_at 0 (some "a") ∷ record_at 60 (some "b") ∷ []))
    ≡ not (has_repeat [] (some "a" ∷ blocks (some "a") (explicits (record_at 60 (some "b") ∷ []))))
assign_from-succeeds_example =
    assign_from-succeeds rendered (record_at 0 (some "a")) (record_at 60 (some "b") ∷ [])

assign_from_idem_example :
    assign_from rendered start
      (relabel (record_at 0 (some "a") ∷ record_at 60 (some "b") ∷ []) ("a" ∷ "b" ∷ []))
    ≡ ok ("a" ∷ "b" ∷ [])
unfolding program
assign_from_idem_example =
    assign_from_idem rendered rendered-Distinguishes (record_at 0 (some "a"))
      (record_at 60 (some "b") ∷ []) "a" ("b" ∷ []) (some-ne_of_beq "a" "" refl)
      (refl, omega arith, some-ne_of_beq "b" "" refl, tt) refl ((λ _. ne_of_beq "b" "a" refl), tt)
      refl

-- A reading of pandas for which 5 is no timestamp and every other number is an instant in UTC.
abbrev instants : Pandas ℕ ℕ
instants = record {
  timestamp = λ v. if v == 5 then none else some v;
  isna = λ _. false;
  is_naive = λ _. false;
  tz_localize = some;
  tz_convert = some;
  as_value = λ t. t;
}

abbrev frame : List (Row ℕ ℕ) → Frame ℕ ℕ
frame rows = record { has_clip_id = true; has_record_time = true; rows = rows }

abbrev row : ℕ → ℕ → Row ℕ ℕ
row label seconds = record {
  label = label;
  clip_id = some "bridge";
  record_time = seconds;
  continuity_id = none;
}

columns : Unit {0}
unfolding normalize_continuity_frame Continuity.validate_temporal_identity Continuity.clips_of
    Continuity.record_times Continuity.assign_columns Continuity.has_duplicates
    Continuity.same_record normalize_timestamp_series normalize_timestamp to_utc
columns = tt

normalize_duplicate :
    normalize_continuity_frame instants
      (λ s. s * second)
      (λ rs. rs)
      rendered
      (frame (row 0 0 ∷ row 1 0 ∷ []))
    ≡ err duplicate_record
unfolding columns
normalize_duplicate = refl

normalize_invalid_time :
    normalize_continuity_frame instants
      (λ s. s * second)
      (λ rs. rs)
      rendered
      (frame (row 0 0 ∷ row 1 5 ∷ []))
    ≡ err invalid_time
unfolding columns
normalize_invalid_time = refl
