-- ===== src/Telemetry/Counts.antt =====
-- The dictionaries of counts.
use vaaet.Prelude.{
  if◌then◌else◌, ◌==◌, ℕ, ◌+◌, ◌≤◌, String, ◌≡◌, Bool, true, false, [], ◌∷◌, arith, nat_key,
  string_key,
}
use vaaet.Telemetry.{Counts, add_count, count_of, total_of, accumulate, empty_vehicle_counts}

pub total-add_count :
    (t : String) (n : ℕ) (counts : Counts) → total_of (add_count t n counts) ≡ total_of counts + n
unfolding add_count total_of
total-add_count t n [] = omega arith
total-add_count t n ((k, m) ∷ counts) = ground (arith, total-add_count t n counts)

pub total-accumulate :
    (counts cumulative : Counts)
    → total_of (accumulate counts cumulative) ≡ total_of cumulative + total_of counts
unfolding accumulate total_of
total-accumulate [] cumulative = omega arith
total-accumulate ((k, m) ∷ counts) cumulative =
    omega
      (arith, total-accumulate counts (add_count k m cumulative), total-add_count k m cumulative)

either : (P : Counts → Type 0) (b : Bool) (x y : Counts) → P x → P y → P (if b then x else y)
either P true x y px py = px
either P false x y px py = py

-- The keys of a minute start with the five types of vehicles; others may follow.
pub data HasTypes : Counts → Type 0 where
  has_types :
      (car truck bus motorcycle bicycle : ℕ) (others : Counts)
      → HasTypes (
          ("car", car)
          ∷ ("truck", truck)
          ∷ ("bus", bus)
          ∷ ("motorcycle", motorcycle)
          ∷ ("bicycle", bicycle)
          ∷ others)

pub empty-HasTypes : HasTypes empty_vehicle_counts
empty-HasTypes = has_types 0 0 0 0 0 []

pub count-HasTypes :
    (counts : Counts)
    → HasTypes counts
    → count_of "car" counts
        + count_of "truck" counts
        + count_of "bus" counts
        + count_of "motorcycle" counts
        + count_of "bicycle" counts
      ≤ total_of counts
unfolding count_of total_of
count-HasTypes counts (has_types a b c d e others) = omega arith

pub add-HasTypes :
    (t : String) (n : ℕ) (counts : Counts) → HasTypes counts → HasTypes (add_count t n counts)
unfolding add_count
add-HasTypes t n counts (has_types a b c d e others) =
    either HasTypes (t == "car") _ _ (has_types (a + n) b c d e others) (
      either (λ r. HasTypes (("car", a) ∷ r)) (t == "truck") _ _ (has_types a (b + n) c d e others)
        (either (λ r. HasTypes (("car", a) ∷ ("truck", b) ∷ r)) (t == "bus") _ _
          (has_types a b (c + n) d e others)
          (either (λ r. HasTypes (("car", a) ∷ ("truck", b) ∷ ("bus", c) ∷ r)) (t == "motorcycle") _
            _ (has_types a b c (d + n) e others)
            (either (λ r. HasTypes (("car", a) ∷ ("truck", b) ∷ ("bus", c) ∷ ("motorcycle", d) ∷ r))
              (t == "bicycle") _ _ (has_types a b c d (e + n) others)
              (has_types a b c d e (add_count t n others))))))
