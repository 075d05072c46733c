-- ===== src/Telemetry/Members.antt =====
-- The sets of track identifiers.
use vaaet.Prelude.{
  if◌then◌else◌, Bool-cases, length, All, All-map, ◌==◌, contains, ℕ, ◌+◌, ◌≤◌, ◌≡◌, refl, sym,
  subst, inl, inr, Bool, true, false, List, [], ◌∷◌, arith, beq_refl, nat_key, string_key,
}
use vaaet.Telemetry.{add_id, discard_id}

abbrev pub Within : List ℕ → List ℕ → Type 0
Within ids others = All (λ i. contains i others ≡ true) ids

pub contains-add_id : (i : ℕ) (ids : List ℕ) → contains i (add_id i ids) ≡ true
unfolding add_id
contains-add_id i ids = elim (Bool-cases (contains i ids)) [
  | inl old ↦ ground arith
  | inr new ↦ let same = beq_refl i in ground arith
]

pub contains-add_id_other :
    (i j : ℕ) (ids : List ℕ) → contains j ids ≡ true → contains j (add_id i ids) ≡ true
unfolding add_id
contains-add_id_other i j ids h = ground arith

pub Within-add_id : (i : ℕ) (ids others : List ℕ) → Within ids others → Within ids (add_id i others)
Within-add_id i ids others h = All-map (λ j. contains-add_id_other i j others) ids h

pub add_id-Within :
    (i : ℕ) (ids others : List ℕ)
    → contains i others ≡ true
    → Within ids others
    → Within (add_id i ids) others
unfolding add_id
add_id-Within i ids others known h = elim (Bool-cases (contains i ids)) [
  | inl old ↦ subst (λ b. Within (if b then ids else i ∷ ids) others) (sym old) h
  | inr new ↦ subst (λ b. Within (if b then ids else i ∷ ids) others) (sym new) (known, h)
]

pub if-Within :
    (b : Bool) (xs ys others : List ℕ)
    → Within xs others
    → Within ys others
    → Within (if b then xs else ys) others
if-Within true xs ys others h k = h
if-Within false xs ys others h k = k

pub length-add_id : (i : ℕ) (ids : List ℕ) → length (add_id i ids) ≤ length ids + 1
unfolding add_id
length-add_id i ids = ground arith

-- No identifier is listed twice.
abbrev pub IsDistinct : List ℕ → Type 0
IsDistinct [] = Unit
IsDistinct (i ∷ ids) = (contains i ids ≡ false) × IsDistinct ids

pub add_id-IsDistinct : (i : ℕ) (ids : List ℕ) → IsDistinct ids → IsDistinct (add_id i ids)
unfolding add_id
add_id-IsDistinct i ids h = elim (Bool-cases (contains i ids)) [
  | inl old ↦ subst (λ b. IsDistinct (if b then ids else i ∷ ids)) (sym old) h
  | inr new ↦ subst (λ b. IsDistinct (if b then ids else i ∷ ids)) (sym new) (new, h)
]

contains-discard_id :
    (i j : ℕ) (ids : List ℕ) → contains j ids ≡ false → contains j (discard_id i ids) ≡ false
unfolding discard_id
contains-discard_id i j [] h = refl
contains-discard_id i j (k ∷ ids) h = ground (arith, contains-discard_id i j ids)

pub discard_id-IsDistinct : (i : ℕ) (ids : List ℕ) → IsDistinct ids → IsDistinct (discard_id i ids)
unfolding discard_id
discard_id-IsDistinct i [] h = tt
discard_id-IsDistinct i (j ∷ ids) h = elim (Bool-cases (j == i)) [
  | inl found ↦ rw found (discard_id-IsDistinct i ids h.1)
  | inr other ↦
      rw other
        (unfold discard_id in contains-discard_id i j ids h.0, discard_id-IsDistinct i ids h.1)
]

pub discard_id-Within :
    (i : ℕ) (ids others : List ℕ) → Within ids others → Within (discard_id i ids) others
unfolding discard_id
discard_id-Within i [] others h = tt
discard_id-Within i (j ∷ ids) others h = elim (Bool-cases (j == i)) [
  | inl found ↦ rw found (discard_id-Within i ids others h.1)
  | inr other ↦ rw other (h.0, discard_id-Within i ids others h.1)
]

length-discard_absent :
    (i : ℕ) (ids : List ℕ) → contains i ids ≡ false → length (discard_id i ids) ≡ length ids
unfolding discard_id
length-discard_absent i [] h = refl
length-discard_absent i (j ∷ ids) h = ground (arith, length-discard_absent i ids)

-- A discarded identifier is one fewer when it was listed.
pub length-discard_id :
    (i : ℕ) (ids : List ℕ)
    → IsDistinct ids
    → length (discard_id i ids) + (if contains i ids then 1 else 0) ≡ length ids
unfolding discard_id
length-discard_id i [] h = refl
length-discard_id i (j ∷ ids) h = elim (Bool-cases (j == i)) [
  | inl found ↦
      let same : j ≡ i = ground arith in
      let absent : contains i ids ≡ false = subst (λ k. contains k ids ≡ false) same h.0 in
      let gone = length-discard_absent i ids absent in ground arith
  | inr other ↦ let rest = length-discard_id i ids h.1 in ground arith
]
