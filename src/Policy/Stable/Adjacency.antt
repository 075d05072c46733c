-- ===== src/Policy/Stable/Adjacency.antt =====
-- The published state moves by single steps: proofs about `_StableStateMachine.advance` and the
-- loop of `_stabilize_codes` in vaaet-core/src/vaaet/inference/policy.py.
use vaaet.Prelude.{
  if◌then◌else◌, Option-cases, All, option_eq, ℕ, ◌+◌, ◌≤◌, String, ◌≡◌, refl, subst, inl, inr,
  Bool, true, false, Option, none, some, List, [], ◌∷◌, arith, nat_key, string_key,
}
use vaaet.Float.{FloatOps}
use vaaet.Policy.Stable.{
  Machine, reset, Report, Persistence, adjacent_target, register_pending, settle, transition,
  Reading, Settings, is_accepted, advance, entered, stabilize_from, stabilize_from-cons,
  stabilize_codes,
}

-- Two codes that follow one another in a segment; a segment starts at Normal or Reduced.
abbrev pub Near : Option ℕ → ℕ → Type 0
Near none code = code ≤ 1
Near (some before) code = (before ≤ code + 1) × (code ≤ before + 1)

-- What a minute does to the machine and to its report.
record IsStep (m : Machine) (raw : ℕ) (out : Machine × Report) : Type 0 where
  kept : out.0.stable ≡ some out.1.code
  near : Near m.stable out.1.code

transition-IsStep :
    (p : Persistence) (accepted : Bool) (raw : ℕ) (m : Machine)
    → IsStep m raw (transition p accepted raw m)
unfolding transition settle register_pending adjacent_target
transition-IsStep p accepted raw m = ground arith

-- The raw code bounds the stable one: no reading can push the machine past a state of the model.
transition-le :
    (p : Persistence) (accepted : Bool) (raw bound : ℕ) (m : Machine)
    → 1 ≤ bound
    → raw ≤ bound
    → ((c : ℕ) → m.stable ≡ some c → c ≤ bound)
    → (transition p accepted raw m).1.code ≤ bound
unfolding transition settle register_pending adjacent_target
transition-le p accepted raw bound m b r h = elim (Option-cases m.stable) [
  | inl fresh ↦ ground arith
  | inr (c, known) ↦ let small : c ≤ bound = h c known in ground arith
]

-- The reports of a run, read against the row before: each is adjacent to the one before it in its
-- segment, each is a state of the model, and there is one for each row.
abbrev pub IsStepwise :
    {F : Type 0} → Option String → Option ℕ → List (Reading F) → List Report → Type 0
IsStepwise prior before [] [] = Unit
IsStepwise prior before (r ∷ rs) (o ∷ os) =
    Near (if option_eq (some r.key) prior then before else none) o.code
    × (o.code ≤ 2)
    × IsStepwise (some r.key) (some o.code) rs os
IsStepwise prior before _ _ = ⊥

abbrev Bounded : Machine → Type 0
Bounded m = (c : ℕ) → m.stable ≡ some c → c ≤ 2

reset-Bounded : Bounded reset
reset-Bounded c e = cc

module _ {F : Type 0} ⦃f : FloatOps F⦄ (s : Settings F) where
  -- Every class of the model has a threshold, as the defaults of the caller provide.
  abbrev pub HasThresholds : Type 0
  HasThresholds = (code : ℕ) → code ≤ 2 → (threshold : F) × (s.thresholds code ≡ some threshold)

  -- One row: the machine's next value and report are those of `transition`, still bounded.
  advance-IsStep :
      HasThresholds
      → (r : Reading F) (m : Machine) → r.raw_code ≤ 2
      → Bounded m
      → (out : Machine × Report) × (advance s r m ≡ some out)
        × IsStep m r.raw_code out
        × (out.1.code ≤ 2)
  unfolding advance
  advance-IsStep has r m h b =
      let (threshold, e) = has r.raw_code h in
      let accepted = is_accepted s threshold r in
      (
        transition s.persistence accepted r.raw_code m,
        rw e,
        transition-IsStep s.persistence accepted r.raw_code m,
        transition-le s.persistence accepted r.raw_code 2 m (omega arith) h b,
      )

  entered-Bounded :
      (prior : Option String) (r : Reading F) (m : Machine)
      → Bounded m
      → Bounded (entered prior r m)
  unfolding entered
  entered-Bounded prior r m b =
      elim (option_eq (some r.key) prior) as (λ t. Bounded (if t then m else reset)) [
        | true ↦ b
        | false ↦ reset-Bounded
      ]

  entered-stable :
      (prior : Option String) (r : Reading F) (m : Machine)
      → (entered prior r m).stable ≡ (if option_eq (some r.key) prior then m.stable else none)
  unfolding entered
  entered-stable prior r m = ground arith

  stabilize_from-IsStepwise :
      HasThresholds
      → (rows : List (Reading F)) (prior : Option String) (m : Machine) → Bounded m
      → All (λ r. r.raw_code ≤ 2) rows
      → (out : List Report) × (stabilize_from s prior m rows ≡ some out)
        × IsStepwise prior m.stable rows out
  unfolding stabilize_from
  stabilize_from-IsStepwise has [] prior m b h = ([], refl, tt)
  stabilize_from-IsStepwise has (r ∷ rs) prior m b h =
      let m' = entered prior r m in
      let ((after, report), e, step, small) =
        advance-IsStep has r m' h.0 (entered-Bounded prior r m b) in
      let (rest, e', stepwise) =
        stabilize_from-IsStepwise has rs (some r.key) after
          (λ c k. let kept = step.kept in ground arith) h.1 in
      let near = subst (λ c. Near c report.code) (entered-stable prior r m) step.near in
      (
        report ∷ rest,
        stabilize_from-cons s prior m after r rs report rest e e',
        (near, small, rw step.kept at stepwise),
      )

  -- Total correctness of `_stabilize_codes`: when every class of the model has a threshold and every
  -- raw class is one of the model's, the loop raises no KeyError and reports one code for each row;
  -- every code is Normal, Reduced or Congested; a segment starts at Normal or Reduced; and inside a
  -- segment two consecutive codes differ by at most one.
  pub stabilize_codes-IsStepwise :
      HasThresholds
      → (rows : List (Reading F)) → All (λ r. r.raw_code ≤ 2) rows
      → (out : List Report) × (stabilize_codes s rows ≡ some out) × IsStepwise none none rows out
  unfolding stabilize_codes
  stabilize_codes-IsStepwise has rows h =
      stabilize_from-IsStepwise has rows none reset reset-Bounded h
