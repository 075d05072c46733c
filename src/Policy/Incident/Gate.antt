-- ===== src/Policy/Incident/Gate.antt =====
-- What `apply_conservative_accident_gate` of vaaet-core/src/vaaet/inference/policy.py publishes.
use mathlib.Core.Path.{ap₂}
use vaaet.Prelude.{
  leb, if◌then◌else◌, length, any, Result, ok, err, ◌==◌, string_key, option_eq, suc, String, ◌≡◌,
  refl, sym, ap, ◌∙◌, subst, Bool, true, false, not, ◌&&◌, ◌||◌, Option, none, some, List, [], ◌∷◌,
  arith, take, nat_key,
}
use vaaet.Float.{FloatOps}
use vaaet.Policy.Incident.{
  Machine, reset, advance, Row, is_strong, Strength, group, count_strong, is_persistent, Mark,
  incident_activity, Published, publish, publish_all, accident_gate, GateError, automatic_accident,
}
use vaaet.Policy.Incident.Memory.{Minute, machine_after, is_open, active-is_open, advance-reports}

abbrev mark_of : Machine × Bool × Bool → Mark
mark_of out = record { active = out.1; started = out.2 }

-- A row's mark by the history of its segment.
abbrev pub expected_mark : Minute → List Minute → Mark
expected_mark x before = record {
  active = is_open (x ∷ before);
  started = x.persistent && not (is_open before);
}

entered_machine :
    (same : Bool) (minutes : List Minute)
    → (if same then machine_after minutes else reset) ≡ machine_after (if same then minutes else [])
unfolding machine_after
entered_machine true minutes = refl
entered_machine false minutes = refl

row-expected :
    (x : Minute) (before : List Minute)
    → mark_of (advance x.persistent x.strong (machine_after before)) ≡ expected_mark x before
unfolding machine_after
row-expected x before = cc (
  (advance-reports x.persistent x.strong (machine_after before)).0,
  (advance-reports x.persistent x.strong (machine_after before)).1,
  (active-is_open before).0,
  (active-is_open (x ∷ before)).0,
)

module _ {F : Type 0} ⦃f : FloatOps F⦄ where
  -- The marks by the history of each segment, in place of a machine.
  pub expected_marks : Option String → List Minute → List Strength → List (Row F) → List Mark
  expected_marks prior minutes older [] = []
  expected_marks prior minutes older (r ∷ rs) =
      let seen = (r.key, is_strong r) ∷ older in
      let before = if option_eq (some r.key) prior then minutes else [] in
      let minute : Minute = record {
        persistent = is_persistent r.key seen;
        strong = is_strong r;
      } in
      expected_mark minute before ∷ expected_marks (some r.key) (minute ∷ before) seen rs

  activity-expected :
      (rows : List (Row F)) (prior : Option String) (minutes : List Minute) (older : List Strength)
      → incident_activity prior (machine_after minutes) older rows
        ≡ expected_marks prior minutes older rows
  unfolding incident_activity expected_marks machine_after
  activity-expected [] prior minutes older = refl
  activity-expected (r ∷ rs) prior minutes older =
      let seen = (r.key, is_strong r) ∷ older in
      let before = if option_eq (some r.key) prior then minutes else [] in
      let x : Minute = record { persistent = is_persistent r.key seen; strong = is_strong r } in
      rw (entered_machine (option_eq (some r.key) prior) minutes) (
        ap₂ (λ mark rest. mark ∷ rest) (row-expected x before)
          (activity-expected rs (some r.key) (x ∷ before) seen))

  -- The marks of the gate are those of the history: a row is marked active exactly when its segment
  -- has had a persistent minute after which no three weak minutes in a row have passed, and it
  -- starts a candidate exactly when it is persistent and no candidate of its segment is open.
  pub incident_activity-expected :
      (rows : List (Row F)) → incident_activity none reset [] rows ≡ expected_marks none [] [] rows
  unfolding machine_after
  incident_activity-expected rows = activity-expected rows none [] []

  -- A published row against the row and the mark it comes from.
  pub record IsPublished (r : Row F) (mark : Mark) (p : Published F) : Type 0 where
    pub raised : mark.active ≡ true → (p.state ≡ 2) × (p.label ≡ "Congested")
    pub left_alone :
        mark.active ≡ false
        → (p.state ≡ r.predicted_state) × (p.label ≡ r.state_label) × (p.confidence ≡ r.confidence)
    pub marked : p.mark ≡ mark
    pub never_applied : p.gate_applied ≡ false

  publish-IsPublished : (r : Row F) (mark : Mark) → IsPublished r mark (publish r mark)
  unfolding publish
  publish-IsPublished r mark = ground arith

  -- Each row as it is published, none of them an accident.
  abbrev pub IsPublication : List (Row F) → List Mark → List (Published F) → Type 0
  IsPublication [] [] [] = Unit
  IsPublication (r ∷ rs) (mark ∷ marks) (p ∷ ps) =
      IsPublished r mark p × ((p.state == 3) ≡ false) × IsPublication rs marks ps
  IsPublication _ _ _ = ⊥

  -- Some row is predicted an accident while no candidate of its segment is active.
  abbrev pub is_left_accident : List (Row F) → List Mark → Bool
  is_left_accident (r ∷ rs) (mark ∷ marks) =
      (not mark.active && r.predicted_state == 3) || is_left_accident rs marks
  is_left_accident _ _ = false

  length-incident_activity :
      (rows : List (Row F)) (prior : Option String) (m : Machine) (older : List Strength)
      → length (incident_activity prior m older rows) ≡ length rows
  unfolding incident_activity
  length-incident_activity [] prior m older = refl
  length-incident_activity (r ∷ rs) prior m older = ap suc (length-incident_activity rs _ _ _)

  publish-accident :
      (r : Row F) (mark : Mark)
      → ((publish r mark).state == 3) ≡ (not mark.active && r.predicted_state == 3)
  unfolding publish
  publish-accident r mark = ground arith

  publish_all-accident :
      (rows : List (Row F)) (marks : List Mark)
      → any (λ p. p.state == 3) (publish_all rows marks) ≡ is_left_accident rows marks
  unfolding publish_all
  publish_all-accident [] marks = refl
  publish_all-accident (r ∷ rs) [] = refl
  publish_all-accident (r ∷ rs) (mark ∷ marks) =
      ap₂ (λ a b. a || b) (publish-accident r mark) (publish_all-accident rs marks)

  publish_all-IsPublication :
      (rows : List (Row F)) (marks : List Mark)
      → length marks ≡ length rows
      → any (λ p. p.state == 3) (publish_all rows marks) ≡ false
      → IsPublication rows marks (publish_all rows marks)
  unfolding publish_all
  publish_all-IsPublication [] [] e h = tt
  publish_all-IsPublication [] (mark ∷ marks) e h = absurd (omega arith)
  publish_all-IsPublication (r ∷ rs) [] e h = absurd (omega arith)
  publish_all-IsPublication (r ∷ rs) (mark ∷ marks) e h =
      let (safe, others) : (((publish r mark).state == 3) ≡ false)
          × (any (λ p. p.state == 3) (publish_all rs marks) ≡ false) =
        ground arith in
      (publish-IsPublished r mark, safe, publish_all-IsPublication rs marks (omega arith) others)

  -- What the gate does with rows, by the history of their segments: it raises exactly where a row
  -- is predicted an accident while its segment has no active candidate, and otherwise publishes
  -- them all, none as an accident.
  abbrev pub IsGated : List (Row F) → List Mark → Result GateError (List (Published F)) → Type 0
  IsGated rows marks (err e) = is_left_accident rows marks ≡ true
  IsGated rows marks (ok out) = (is_left_accident rows marks ≡ false) × IsPublication rows marks out

  gated :
      (rows : List (Row F)) (marks : List Mark) (is_accident : Bool)
      → length marks ≡ length rows
      → any (λ p. p.state == 3) (publish_all rows marks) ≡ is_accident
      → IsGated rows marks
          (if is_accident then err automatic_accident else ok (publish_all rows marks))
  gated rows marks true e found = sym (publish_all-accident rows marks) ∙ found
  gated rows marks false e found =
      (sym (publish_all-accident rows marks) ∙ found, publish_all-IsPublication rows marks e found)

  -- For any rows, the gate raises its RuntimeError exactly where a row is predicted an accident
  -- while the history of its segment leaves no candidate active; otherwise every row is published,
  -- in order and never as an accident: one with an active candidate as Congested, any other with
  -- its state, label and confidence, and `accident_gate_applied` is false throughout.
  pub accident_gate-IsPublication :
      (rows : List (Row F)) → IsGated rows (expected_marks none [] [] rows) (accident_gate rows)
  unfolding accident_gate
  accident_gate-IsPublication rows =
      let marks = incident_activity none reset [] rows in
      subst (λ ms. IsGated rows ms (accident_gate rows)) (incident_activity-expected rows)
        (gated rows marks _ (length-incident_activity rows none reset []) refl)

window_full :
    (strong : Bool) (before : List Bool)
    → leb 2 (length (take 2 (strong ∷ before))) && leb 2 (count_strong (take 2 (strong ∷ before)))
      ≡ true
    → (strong ≡ true) × ((rest : List Bool) × (before ≡ true ∷ rest))
unfolding count_strong
window_full true (true ∷ rest) h = (refl, (rest, refl))
window_full true (false ∷ rest) h = cc
window_full true [] h = cc
window_full false (true ∷ rest) h = cc
window_full false (false ∷ rest) h = cc
window_full false [] h = cc

-- Evidence is persistent only at a strong minute whose predecessor in the segment is strong too:
-- one strong minute alone never opens a candidate.
pub persistent_needs_two :
    (key : String) (strong : Bool) (older : List Strength)
    → is_persistent key ((key, strong) ∷ older) ≡ true
    → (strong ≡ true) × ((rest : List Bool) × (group key older ≡ true ∷ rest))
unfolding is_persistent group
persistent_needs_two key strong older h =
    window_full strong (group key older) (rw ((string_key.test_iff key key).1 refl) at h)
