-- ===== src/Tracking/Ascending.antt =====
-- Increasing lists of numbers: the identifiers that `SORTTracker` of
-- vaaet-core/src/vaaet/vision/tracking.py gives one after the other.
use vaaet.Prelude.{
  Bool-cases, contains, ℕ, ◌+◌, ◌≤◌, ◌<◌, ◌≡◌, inl, inr, true, false, List, [], ◌∷◌, ◌++◌, arith,
  nat_key, string_key,
}

-- Strictly increasing numbers from `low` on, below `high`.
abbrev pub IsAscending : ℕ → List ℕ → ℕ → Type 0
IsAscending low [] high = low ≤ high
IsAscending low (i ∷ is) high = (low ≤ i) × IsAscending (i + 1) is high

pub IsAscending-lower :
    (is : List ℕ) (low low' high : ℕ)
    → low' ≤ low
    → IsAscending low is high
    → IsAscending low' is high
IsAscending-lower [] low low' high h asc = omega arith
IsAscending-lower (i ∷ is) low low' high h asc = (omega arith, asc.1)

IsAscending-le : (is : List ℕ) (low high : ℕ) → IsAscending low is high → low ≤ high
IsAscending-le [] low high asc = asc
IsAscending-le (i ∷ is) low high asc = omega (arith, asc.0, IsAscending-le is (i + 1) high asc.1)

pub IsAscending-append :
    (is js : List ℕ) (low mid high : ℕ)
    → IsAscending low is mid
    → IsAscending mid js high
    → IsAscending low (is ++ js) high
IsAscending-append [] js low mid high asc asc' = IsAscending-lower js mid low high asc asc'
IsAscending-append (i ∷ is) js low mid high asc asc' =
    (asc.0, IsAscending-append is js (i + 1) mid high asc.1 asc')

pub contains-append :
    (is js : List ℕ) (id : ℕ) → contains id is ≡ true → contains id (is ++ js) ≡ true
contains-append [] js id h = cc
contains-append (i ∷ is) js id h = ground (arith, contains-append is js id)

pub IsAscending-contains :
    (is : List ℕ) (low high id : ℕ)
    → IsAscending low is high
    → contains id is ≡ true
    → (low ≤ id) × (id < high)
IsAscending-contains [] low high id asc h = absurd (cc)
IsAscending-contains (i ∷ is) low high id asc h =
    let above = IsAscending-le is (i + 1) high asc.1 in
    elim (Bool-cases (contains id is)) [
      | inl later ↦
          let (least, bound) = IsAscending-contains is (i + 1) high id asc.1 later in
          (omega (arith, asc.0, least), bound)
      | inr absent ↦ (ground (arith, asc.0, above), ground (arith, asc.0, above))
    ]

pub IsAscending-excludes :
    (is : List ℕ) (low high id : ℕ) → IsAscending low is high → id < low → contains id is ≡ false
IsAscending-excludes is low high id asc below = elim (Bool-cases (contains id is)) [
  | inl listed ↦ absurd (omega (arith, below, (IsAscending-contains is low high id asc listed).0))
  | inr absent ↦ absent
]

-- What a list of two parts contains is in the second part when it is not in the first.
pub contains-rest :
    (is js : List ℕ) (id : ℕ)
    → contains id (is ++ js) ≡ true
    → contains id is ≡ false
    → contains id js ≡ true
contains-rest [] js id h absent = h
contains-rest (i ∷ is) js id h absent = ground (arith, contains-rest is js id)
