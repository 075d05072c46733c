-- ===== src/Policy/Incident/Memory.antt =====
-- What `_IncidentStateMachine` of vaaet-core/src/vaaet/inference/policy.py remembers.
use vaaet.Prelude.{
  leb, if◌then◌else◌, Option-cases, ℕ, suc, ◌<◌, ◌≡◌, refl, inl, inr, Bool, true, false, not, ◌&&◌,
  ◌||◌, Option, none, some, List, [], ◌∷◌, arith,
}
use vaaet.Policy.Incident.{Machine, reset, advance, recovery_minutes}

-- A minute of a segment: whether its evidence is persistent, and whether it is strong.
pub record Minute : Type 0 where
  pub persistent : Bool
  pub strong : Bool

-- The machine after the minutes of a segment, the newest first.
unfoldable pub machine_after : List Minute → Machine
machine_after [] = reset
machine_after (x ∷ older) = (advance x.persistent x.strong (machine_after older)).0

-- How many of the newest minutes in a row are weak.
pub quiet : List Minute → ℕ
quiet [] = 0
quiet (x ∷ older) = if x.persistent || x.strong then 0 else suc (quiet older)

-- Somewhere in these minutes, enough weak ones follow one another for a recovery.
pub has_recovery : List Minute → Bool
has_recovery [] = false
has_recovery (x ∷ older) = leb recovery_minutes (quiet (x ∷ older)) || has_recovery older

-- The minutes after the latest persistent one, if there is one.
pub since_persistent : List Minute → Option (List Minute)
since_persistent [] = none
since_persistent (x ∷ older) = elim (since_persistent older) [
  | none ↦ if x.persistent then some [] else none
  | some newer ↦ if x.persistent then some [] else some (x ∷ newer)
]

-- There was a persistent minute, and no recovery after it.
pub is_open : List Minute → Bool
is_open minutes = elim (since_persistent minutes) [
  | none ↦ false
  | some newer ↦ not (has_recovery newer)
]

pub record Remembers (m : Machine) (minutes : List Minute) : Type 0 where
  pub same : m.active ≡ is_open minutes
  pub weak :
      (newer : List Minute)
      → since_persistent minutes ≡ some newer
      → m.active ≡ true
      → m.weak_count ≡ quiet newer
  pub few : m.weak_count < recovery_minutes
  pub idle : m.active ≡ false → m.weak_count ≡ 0

advance-Remembers :
    (x : Minute) (m : Machine) (older : List Minute)
    → Remembers m older
    → Remembers (advance x.persistent x.strong m).0 (x ∷ older)
unfolding advance is_open since_persistent has_recovery quiet
advance-Remembers x m older h = elim (Option-cases (since_persistent older)) [
  | inl never ↦
      let same = h.same in
      let idle = h.idle in
      record {
        same = ground arith;
        weak = λ newer e on. ground arith;
        few = ground (arith, h.few);
        idle = λ off. ground arith;
      }
  | inr (newer, since) ↦
      let same = h.same in
      let idle = h.idle in
      let weak = h.weak newer since in
      record {
        same = ground arith;
        weak = λ newer' e on. ground arith;
        few = ground (arith, h.few);
        idle = λ off. ground arith;
      }
]

pub machine_after-Remembers : (minutes : List Minute) → Remembers (machine_after minutes) minutes
unfolding machine_after
machine_after-Remembers [] = record {
  same = unfold is_open since_persistent in refl;
  weak = λ newer e on. cc;
  few = omega arith;
  idle = λ off. refl;
}
machine_after-Remembers (x ∷ older) =
    advance-Remembers x (machine_after older) older (machine_after-Remembers older)

-- The machine is active exactly when the segment has had a persistent minute after which no three
-- weak minutes in a row have passed, and it never holds three weak minutes.
pub active-is_open :
    (minutes : List Minute)
    → ((machine_after minutes).active ≡ is_open minutes)
      × ((machine_after minutes).weak_count < recovery_minutes)
active-is_open minutes = let memory = machine_after-Remembers minutes in (memory.same, memory.few)

-- What `advance` reports: the activity of the next machine, and a start only where a persistent
-- minute finds the machine idle.
pub advance-reports :
    (persistent strong : Bool) (m : Machine)
    → ((advance persistent strong m).1 ≡ (advance persistent strong m).0.active)
      × ((advance persistent strong m).2 ≡ (persistent && not m.active))
unfolding advance
advance-reports persistent strong m = ground arith
