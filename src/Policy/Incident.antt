-- ===== src/Policy/Incident.antt =====
-- Incident candidates: `_IncidentStateMachine`, `_incident_strength`, `_persistent_incidents`,
-- `_incident_activity` and `apply_conservative_accident_gate` of
-- vaaet-core/src/vaaet/inference/policy.py, over the rows of a frame whose continuity is normalized.
-- A value that pandas reads as missing is `none`.
pub mod Memory
pub mod Gate
use mathlib.Core.Option
use vaaet.Prelude.{
  leb, if◌then◌else◌, length, any, Result, ok, err, ◌==◌, option_eq, ℕ, suc, ◌+◌, String, Bool,
  true, false, not, ◌&&◌, ◌||◌, Option, none, some, List, [], ◌∷◌, take, nat_key, string_key,
}
use vaaet.Float.{FloatOps, ◌<=◌}

-- INCIDENT_PERSISTENCE_MINUTES and INCIDENT_RECOVERY_MINUTES of settings.py
abbrev pub persistence_minutes : ℕ
persistence_minutes = 2

abbrev pub recovery_minutes : ℕ
recovery_minutes = 3

pub record Machine : Type 0 where
  pub active : Bool
  pub weak_count : ℕ

abbrev pub reset : Machine
reset = record { active = false; weak_count = 0 }

-- The machine, whether a candidate is active and whether it starts now.
unfoldable pub advance : Bool → Bool → Machine → Machine × Bool × Bool
advance persistent strong m =
    if persistent
    then (record { active = true; weak_count = 0 }, true, not m.active)
    else if m.active
    then (let weak = if strong then 0 else m.weak_count + 1 in
        let m' = if leb recovery_minutes weak then reset else record m { weak_count = weak } in
        (m', m'.active, false))
    else (m, m.active, false)

-- A row of the gate: its continuity key and what its predecessors put into it.
pub record Row (F : Type 0) : Type 0 where
  pub key : String
  pub predicted_state : ℕ
  pub state_label : String
  pub confidence : Option F
  pub total_vehicles : Option F
  pub optical_flow : Option F
  pub evidence_score : F
  pub recent_braking : Bool
  pub cumulative_braking : Bool
  pub motion_evidence : Bool
  pub quality_ok : Bool

module _ {F : Type 0} ⦃f : FloatOps F⦄ where
  -- ACCIDENT_GATE_MIN_EVIDENCE_SCORE and OPTICAL_FLOW_QUALITY_MIN of settings.py
  abbrev pub min_evidence_score : F
  min_evidence_score = f.literal 7500

  abbrev pub flow_quality_min : F
  flow_quality_min = f.literal 3500

  -- `.fillna(0)`
  abbrev pub or_zero : Option F → F
  or_zero none = f.of_nat 0
  or_zero (some x) = x

  unfoldable pub is_quality_reliable : Row F → Bool
  is_quality_reliable r =
      r.quality_ok && elim r.optical_flow [ none ↦ false | some flow ↦ flow_quality_min <= flow ]

  unfoldable pub is_strong : Row F → Bool
  is_strong r =
      min_evidence_score <= r.evidence_score
      && (r.recent_braking || r.cumulative_braking)
      && r.motion_evidence
      && is_quality_reliable r
      && f.lt (f.of_nat 0) (or_zero r.total_vehicles)

-- The strengths of a group's latest rows, the newest first.
abbrev pub Strength : Type 0
Strength = String × Bool

unfoldable pub group : String → List Strength → List Bool
group key [] = []
group key ((k, strong) ∷ older) =
    let rest = group key older in if key == k then strong ∷ rest else rest

unfoldable pub count_strong : List Bool → ℕ
count_strong [] = 0
count_strong (b ∷ bs) = if b then suc (count_strong bs) else count_strong bs

-- A rolling sum over the group's last rows, missing where the group has too few.
unfoldable pub is_persistent : String → List Strength → Bool
is_persistent key rows =
    let window = take persistence_minutes (group key rows) in
    leb persistence_minutes (length window) && leb persistence_minutes (count_strong window)

-- The marks that the gate puts on a row.
pub record Mark : Type 0 where
  pub active : Bool
  pub started : Bool

pub record Published (F : Type 0) : Type 0 where
  pub state : ℕ
  pub label : String
  pub confidence : Option F
  pub mark : Mark
  pub gate_applied : Bool
  pub measurement_reliable : Bool

-- RuntimeError, "automatic Accident state"
pub data GateError : Type 0 where
  automatic_accident : GateError

module _ {F : Type 0} ⦃f : FloatOps F⦄ where
  -- The loop, with the strengths of the rows before, the newest first.
  unfoldable pub incident_activity :
      Option String → Machine → List Strength → List (Row F) → List Mark
  incident_activity prior m older [] = []
  incident_activity prior m older (r ∷ rs) =
      let seen = (r.key, is_strong r) ∷ older in
      let m' = if option_eq (some r.key) prior then m else reset in
      let (after, active, started) = advance (is_persistent r.key seen) (is_strong r) m' in
      record { active = active; started = started } ∷ incident_activity (some r.key) after seen rs

  -- `np.maximum` of the confidence and the evidence: a nan is not at most itself and is kept
  abbrev pub maximum : F → F → F
  maximum a b = if not (a <= a) then a else if not (b <= b) then b else if a <= b then b else a

  unfoldable pub publish : Row F → Mark → Published F
  publish r mark = record {
    state = if mark.active then 2 else r.predicted_state;
    label = if mark.active then "Congested" else r.state_label;
    confidence =
        if mark.active
        then some (f.round 4 (maximum (or_zero r.confidence) r.evidence_score))
        else r.confidence;
    mark = mark;
    gate_applied = false;
    measurement_reliable = is_quality_reliable r;
  }

  unfoldable pub publish_all : List (Row F) → List Mark → List (Published F)
  publish_all (r ∷ rs) (m ∷ ms) = publish r m ∷ publish_all rs ms
  publish_all _ _ = []

  unfoldable pub accident_gate : List (Row F) → Result GateError (List (Published F))
  accident_gate rows =
      let published = publish_all rows (incident_activity none reset [] rows) in
      if any (λ p. p.state == 3) published then err automatic_accident else ok published
