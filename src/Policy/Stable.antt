-- ===== src/Policy/Stable.antt =====
-- `_StableStateMachine` and `_stabilize_codes` of vaaet-core/src/vaaet/inference/policy.py.
-- A mapping of thresholds is a function into `Option`, and `none` is the KeyError of a missing code.
pub mod Adjacency
pub mod Hysteresis
pub mod Isolation
use vaaet.Prelude.{
  ltb, leb, if◌then◌else◌, ◌==◌, option_eq, ℕ, ◌+◌, ◌-◌, min, String, ◌≡◌, Bool, true, false, not,
  ◌&&◌, ◌||◌, Option, none, some, List, [], ◌∷◌, map, nat_key, string_key,
}
use mathlib.Core.Option
use vaaet.Float.{FloatOps, ◌<=◌}

pub record Machine : Type 0 where
  pub stable : Option ℕ
  pub pending : Option ℕ
  pub pending_count : ℕ

abbrev pub reset : Machine
reset = record { stable = none; pending = none; pending_count = 0 }

-- What the machine reports for a minute.
pub record Report : Type 0 where
  pub code : ℕ
  pub abstained : Bool

pub record Persistence : Type 0 where
  pub worsening : ℕ
  pub recovery : ℕ

unfoldable pub adjacent_target : ℕ → ℕ → ℕ
adjacent_target target stable =
    if leb ((target - stable) + (stable - target)) 1
    then target
    else if ltb stable target
    then stable + 1
    else stable - 1

unfoldable pub register_pending : ℕ → Machine → Machine
register_pending target m =
    if option_eq m.pending (some target)
    then record m { pending_count = m.pending_count + 1 }
    else record m { pending = some target; pending_count = 1 }

abbrev pub required : Persistence → ℕ → ℕ → ℕ
required p target stable = if ltb stable target then p.worsening else p.recovery

abbrev pub forget : Machine → Machine
forget m = record m { pending = none; pending_count = 0 }

-- The end of `advance`, for an accepted reading that asks for another state than the stable one.
unfoldable pub settle : Persistence → ℕ → ℕ → Machine → Machine × Report
settle p target stable m =
    let m' = register_pending target m in
    if leb (required p target stable) m'.pending_count
    then (
      record { stable = some target; pending = none; pending_count = 0 },
      record { code = target; abstained = false },
    )
    else (m', record { code = stable; abstained = true })

-- `advance` once it is known whether the reading is accepted.
unfoldable pub transition : Persistence → Bool → ℕ → Machine → Machine × Report
transition p accepted raw m = elim m.stable [
  | none ↦
      let code = if accepted then min raw 1 else 1 in
      (
        record m { stable = some code },
        record { code = code; abstained = not accepted || raw == 2 },
      )
  | some stable ↦
      let target = adjacent_target raw stable in
      if not accepted
      then (forget m, record { code = stable; abstained = true })
      else if target == stable
      then (forget m, record { code = stable; abstained = false })
      else settle p target stable m
]

-- A row of the loop: the continuity key, and the class, confidence and margin of the model.
pub record Reading (F : Type 0) : Type 0 where
  pub key : String
  pub raw_code : ℕ
  pub confidence : F
  pub margin : F

pub record Settings (F : Type 0) : Type 0 where
  pub thresholds : ℕ → Option F
  pub minimum_margin : F
  pub persistence : Persistence

-- A row of another key than the row before meets a machine that was reset.
unfoldable pub entered : {F : Type 0} → Option String → Reading F → Machine → Machine
entered prior r m = if option_eq (some r.key) prior then m else reset

module _ {F : Type 0} ⦃f : FloatOps F⦄ (s : Settings F) where
  abbrev pub is_accepted : F → Reading F → Bool
  is_accepted threshold r = threshold <= r.confidence && s.minimum_margin <= r.margin

  unfoldable pub advance : Reading F → Machine → Option (Machine × Report)
  advance r m =
      Option.map (λ threshold. transition s.persistence (is_accepted threshold r) r.raw_code m)
        (s.thresholds r.raw_code)

  -- The loop: the key of the row before, the machine, and the rows that are left.
  unfoldable pub stabilize_from : Option String → Machine → List (Reading F) → Option (List Report)
  stabilize_from prior m [] = some []
  stabilize_from prior m (r ∷ rs) = elim (advance r (entered prior r m)) [
    | none ↦ none
    | some (after, report) ↦
        Option.map (λ rest. report ∷ rest) (stabilize_from (some r.key) after rs)
  ]

  unfoldable pub stabilize_codes : List (Reading F) → Option (List Report)
  stabilize_codes rows = stabilize_from none reset rows

  -- The loop over a row that the machine accepts or rejects, but has a threshold for.
  pub stabilize_from-cons :
      (prior : Option String) (m after : Machine) (r : Reading F) (rs : List (Reading F))
      (report : Report) (rest : List Report)
      → advance r (entered prior r m) ≡ some (after, report)
      → stabilize_from (some r.key) after rs ≡ some rest
      → stabilize_from prior m (r ∷ rs) ≡ some (report ∷ rest)
  unfolding stabilize_from
  stabilize_from-cons prior m after r rs report rest e e' = rw (e, stabilize_from, e')
